-- ===== src/Policy/Gate/Emitted.antt =====
-- The decision that a call of the gate emits is the policy's, on the event that was validated.
use network_self_md.Prelude.{
  ◌≡◌, refl, inl, inr, true, false, [], ◌∷◌, Option, none, some, arith, Bytes, Text, Bool-cases,
  Option-cases,
}
use network_self_md.Policy.Types.{Kind, group, dm, Event, Decision, Entry, Runtime}
use network_self_md.Policy.Decide.{decide}
use network_self_md.Policy.Validate.{ValidationResult, valid, invalid, validate_inbound_event}
use network_self_md.Value.{Value}
use network_self_md.Policy.Gate.{
  Gate, Env, Outcome, push_audit, mark, emit, has, reject, accept, by_membership, check_member,
  check_validated, evaluate,
}

accept_emits :
    (env : Env) (ev : Event) (d0 d : Decision) (o : Outcome) (entry : Entry) (id : Text)
    → accept env ev d0 ≡ some (o, push_audit entry ∷ mark id ∷ emit d ∷ [])
    → d ≡ d0
unfolding accept
accept_emits env ev d0 d o entry id h = ground arith

member_emits :
    (env : Env) (ev : Event) (d0 d : Decision) (o : Outcome) (entry : Entry) (id : Text) (k : Kind)
    (gid : Option Bytes)
    → check_member env ev d0 k gid ≡ some (o, push_audit entry ∷ mark id ∷ emit d ∷ [])
    → d ≡ d0
unfolding check_member
member_emits env ev d0 d o entry id dm gid h = accept_emits env ev d0 d o entry id h
member_emits env ev d0 d o entry id group none h = absurd (unfold reject in ground arith)
member_emits env ev d0 d o entry id group (some gid) h =
    elim (Option-cases (env.is_member gid ev.sender_public_key)) [
      | inl e ↦ absurd (unfold reject by_membership in ground arith)
      | inr (false, e) ↦ absurd (unfold reject by_membership in ground arith)
      | inr (true, e) ↦ accept_emits env ev d0 d o entry id (rw e at h)
    ]

-- The decision on the event that the payload was validated to.
abbrev pub Decided : Runtime → Gate → Value → Decision → Type 0
Decided rt g raw d =
    (ev : Event) × ((validate_inbound_event raw ≡ valid ev) × (d ≡ decide rt g.self g.config ev))

validated_emits :
    (rt : Runtime) (g : Gate) (env : Env) (raw : Value) (d : Decision) (o : Outcome) (entry : Entry)
    (id : Text) (v : ValidationResult)
    → validate_inbound_event raw ≡ v
    → check_validated rt g env raw v ≡ some (o, push_audit entry ∷ mark id ∷ emit d ∷ [])
    → Decided rt g raw d
unfolding check_validated
validated_emits rt g env raw d o entry id (invalid reason) e h =
    absurd (unfold reject in ground arith)
validated_emits rt g env raw d o entry id (valid ev) e h =
    elim (Bool-cases (has g.dedup ev.message_id)) [
      | inl seen ↦ absurd (unfold reject in ground arith)
      | inr new ↦ (
        ev,
        (
          e,
          member_emits env ev (decide rt g.self g.config ev) d o entry id ev.kind ev.group_id
              (rw new at h),
        ),
      )
    ]

pub evaluate_emits :
    (rt : Runtime) (g : Gate) (env : Env) (raw : Value) (d : Decision) (o : Outcome) (entry : Entry)
    (id : Text)
    → evaluate rt g env raw ≡ some (o, push_audit entry ∷ mark id ∷ emit d ∷ [])
    → Decided rt g raw d
unfolding evaluate
evaluate_emits rt g env raw d o entry id h =
    validated_emits rt g env raw d o entry id (validate_inbound_event raw) refl h
