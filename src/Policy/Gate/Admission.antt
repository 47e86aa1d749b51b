-- ===== src/Policy/Gate/Admission.antt =====
-- What the gate lets through, what it records, and what a failed recording leaves.
use mathlib.Core.Logic.{◌↔◌}
use network_self_md.Prelude.{
  ◌≡◌, ◌≢◌, refl, sym, ap, ◌∙◌, inl, inr, true, false, List, [], ◌∷◌, Option, none, some, arith,
  Bytes, Bool-cases, Option-cases,
}
use network_self_md.Value.{Value}
use network_self_md.Policy.Types.{Kind, group, dm, Event, ignore, Decision, Entry, Runtime}
use network_self_md.Policy.Decide.{decide}
use network_self_md.Policy.Validate.{ValidationResult, valid, invalid, validate_inbound_event}
use network_self_md.Policy.Validate.Exact.{IsEvent, validate_iff}
use network_self_md.Policy.Gate.{
  Gate, Env, allowed, Effect, push_audit, mark, emit, has, decision_entry, reject, accept,
  by_membership, check_member, check_validated, evaluate,
}

-- All that the gate asks of a payload before it lets the event through.
pub record Admits (rt : Runtime) (g : Gate) (env : Env) (raw : Value) (ev : Event) (d : Decision)
    (entry : Entry) (es : List Effect) : Type 0 where
  pub event : IsEvent raw ev
  pub fresh : has g.dedup ev.message_id ≡ false
  pub member :
      ev.kind ≡ group
      → (gid : Bytes) × (ev.group_id ≡ some gid)
        × (env.is_member gid ev.sender_public_key ≡ some true)
  pub decided : d ≡ decide rt g.self g.config ev
  pub wanted : d.action ≢ ignore
  pub row : entry ≡ decision_entry env ev d
  pub stored : env.persist entry ≡ true
  pub effects : es ≡ push_audit entry ∷ mark ev.message_id ∷ emit d ∷ []

accept_allowed :
    (env : Env) (ev0 ev : Event) (d0 d : Decision) (entry : Entry) (es : List Effect)
    → accept env ev0 d0 ≡ some (allowed ev d entry, es)
    → (ev ≡ ev0)
      × (d ≡ d0)
      × (d.action ≢ ignore)
      × (entry ≡ decision_entry env ev0 d0)
      × (env.persist entry ≡ true)
      × (es ≡ push_audit entry ∷ mark ev.message_id ∷ emit d ∷ [])
unfolding accept
accept_allowed env ev0 ev d0 d entry es h = ground arith

member_allowed :
    (env : Env) (ev0 ev : Event) (d0 d : Decision) (entry : Entry) (es : List Effect) (k : Kind)
    (gid : Option Bytes)
    → check_member env ev0 d0 k gid ≡ some (allowed ev d entry, es)
    → (accept env ev0 d0 ≡ some (allowed ev d entry, es))
      × (k ≡ group
          → (id : Bytes) × (gid ≡ some id) × (env.is_member id ev0.sender_public_key ≡ some true))
unfolding check_member
member_allowed env ev0 ev d0 d entry es dm gid h = (h, λ e. cc)
member_allowed env ev0 ev d0 d entry es group none h = absurd (unfold reject in ground arith)
member_allowed env ev0 ev d0 d entry es group (some gid) h =
    elim (Option-cases (env.is_member gid ev0.sender_public_key)) [
      | inl e ↦ absurd (unfold reject by_membership in ground arith)
      | inr (false, e) ↦ absurd (unfold reject by_membership in ground arith)
      | inr (true, e) ↦ (rw e at h, λ _. (gid, refl, e))
    ]

Admits-of_validated :
    (rt : Runtime) (g : Gate) (env : Env) (raw : Value) (ev : Event) (d : Decision) (entry : Entry)
    (es : List Effect) (v : ValidationResult)
    → validate_inbound_event raw ≡ v
    → check_validated rt g env raw v ≡ some (allowed ev d entry, es)
    → Admits rt g env raw ev d entry es
unfolding check_validated
Admits-of_validated rt g env raw ev d entry es (invalid reason) e h = absurd (ground arith)
Admits-of_validated rt g env raw ev d entry es (valid ev0) e h =
    elim (Bool-cases (has g.dedup ev0.message_id)) [
      | inl seen ↦ absurd (ground arith)
      | inr new ↦
          let (through, member) =
            member_allowed env ev0 ev (decide rt g.self g.config ev0) d entry es ev0.kind
              ev0.group_id (rw new at h) in
          let (same, decided, wanted, row, stored, effects) =
            accept_allowed env ev0 ev (decide rt g.self g.config ev0) d entry es through in
          record {
            event = (validate_iff raw ev).0 (e ∙ ap valid (sym same));
            fresh = rw same new;
            member = rw same member;
            decided = rw same decided;
            wanted = wanted;
            row = rw (same, decided) row;
            stored = stored;
            effects = effects;
          }
    ]

member_through :
    (env : Env) (ev : Event) (d : Decision) (k : Kind) (gid : Option Bytes)
    → (k ≡ group
        → (id : Bytes) × (gid ≡ some id) × (env.is_member id ev.sender_public_key ≡ some true))
    → check_member env ev d k gid ≡ accept env ev d
unfolding check_member
member_through env ev d dm gid m = refl
member_through env ev d group gid m = let (id, named, is) = m refl in rw (named, is)

accept_through :
    (env : Env) (ev : Event) (d : Decision)
    → d.action ≢ ignore
    → env.persist (decision_entry env ev d) ≡ true
    → accept env ev d
      ≡ some (
        allowed ev d (decision_entry env ev d),
        push_audit (decision_entry env ev d) ∷ mark ev.message_id ∷ emit d ∷ [],
      )
unfolding accept
accept_through env ev d wanted stored = ground arith

evaluate_of_Admits :
    (rt : Runtime) (g : Gate) (env : Env) (raw : Value) (ev : Event) (d : Decision) (entry : Entry)
    (es : List Effect)
    → Admits rt g env raw ev d entry es
    → evaluate rt g env raw ≡ some (allowed ev d entry, es)
unfolding evaluate
evaluate_of_Admits rt g env raw ev d entry es a =
    rw ((validate_iff raw ev).1 a.event, a.fresh, ← a.decided)
      (member_through env ev d ev.kind ev.group_id a.member
        ∙ accept_through env ev d a.wanted (rw (← a.row) a.stored)
        ∙ rw (a.effects, a.row))

-- The gate lets an event through, with a decision, a row and the effects to run, exactly when the
-- payload has the event's shape, its id was not marked before, the sender is a member of the group
-- that a group event names, the decision of the policy is not to ignore it, and the row was stored.
pub evaluate-allowed_iff :
    (rt : Runtime) (g : Gate) (env : Env) (raw : Value) (ev : Event) (d : Decision) (entry : Entry)
    (es : List Effect)
    → (evaluate rt g env raw ≡ some (allowed ev d entry, es)) ↔ Admits rt g env raw ev d entry es
unfolding evaluate
evaluate-allowed_iff rt g env raw ev d entry es = (
  Admits-of_validated rt g env raw ev d entry es (validate_inbound_event raw) refl,
  evaluate_of_Admits rt g env raw ev d entry es,
)
