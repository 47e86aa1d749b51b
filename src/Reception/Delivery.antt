-- ===== src/Reception/Delivery.antt =====
-- Which events reach the queue that the agent's runtime reads.
use mathlib.Core.List.{append_assoc, append-nil}
use mathlib.Core.Option.{some-injective}
use network_self_md.Prelude.{
  ◌≡◌, refl, sym, ap, ◌∙◌, ◌⊎◌, inl, inr, subst, Bool, true, false, List, [], ◌∷◌, ◌++◌, some,
  arith, Option-cases,
}
use network_self_md.Policy.Types.{Event, Decision, Entry, Reason, Runtime}
use network_self_md.Policy.Validate.Exact.{IsEvent, validate_iff}
use network_self_md.Policy.Decide.{decide}
use network_self_md.Policy.Gate.Emitted.{evaluate_emits}
use network_self_md.Policy.Gate.{
  Gate, Env, Outcome, allowed, rejected, Effect, evaluate, commit, decision_entry,
}
use network_self_md.Policy.Gate.Records.{Recorded, Returns, evaluate-Returns}
use network_self_md.Policy.Gate.Admission.{Admits, evaluate-allowed_iff}
use network_self_md.InboundQueue.{push}
use network_self_md.Reception.{
  Reception, Notice, policy_decision, decisions_of, policy_audit, inbound_message, to_value,
  activity_of, finish, prepare_inbound,
}

-- The gate reads back the event that the agent handed to it.
to_value-IsEvent : (ev ev' : Event) → IsEvent (to_value ev) ev' → ev' ≡ ev
unfolding to_value
to_value-IsEvent ev ev' h = ground arith

-- The event was queued, and the observers heard of the decision, of its row, of its activity and of
-- its arrival.
pub record Delivered (rt : Runtime) (r r' : Reception) (env : Env) (ev : Event) (d : Decision)
    (entry : Entry) (es : List Effect) : Type 0 where
  pub admitted : Admits rt r.gate env (to_value ev) ev d entry es
  pub queued : r'.queue ≡ push r.queue ev
  pub gated : r'.gate ≡ commit r.gate es
  pub told :
      r'.notices
      ≡ ((r.notices ++ policy_decision d ∷ []) ++ policy_audit entry ∷ activity_of ev false)
        ++ inbound_message ev ∷ []

-- What the observers hear of an event that is not queued: where the gate itself rejected it, of its
-- row alone; where the policy decided, of its decision, the row and the activity.
abbrev pub Told : Runtime → Gate → Event → Entry → List Notice → Type 0
Told rt g ev entry heard =
    ((entry.gate_rejected ≡ true) × (heard ≡ policy_audit entry ∷ []))
    ⊎ ((entry.gate_rejected ≡ false)
        × (heard
            ≡ policy_decision (decide rt g.self g.config ev)
              ∷ policy_audit entry
              ∷ activity_of ev false))

-- The event was not queued, and the observers heard nothing that carries its content.
pub record Withheld (rt : Runtime) (r r' : Reception) (env : Env) (ev : Event) (reason : Reason)
    (entry : Entry) (es : List Effect) : Type 0 where
  pub refused : evaluate rt r.gate env (to_value ev) ≡ some (rejected reason entry, es)
  pub queue_kept : r'.queue ≡ r.queue
  pub gated : r'.gate ≡ commit r.gate es
  pub told :
      (heard : List Notice) × ((r'.notices ≡ r.notices ++ heard) × Told rt r.gate ev entry heard)

abbrev pub Received : Runtime → Reception → Reception → Env → Event → Type 0
Received rt r r' env ev =
    ((d : Decision) × ((entry : Entry) × ((es : List Effect) × Delivered rt r r' env ev d entry
            es)))
    ⊎ ((reason : Reason) × ((entry : Entry) × ((es : List Effect) × Withheld rt r r' env ev reason
              entry es)))

Delivered-of :
    (rt : Runtime) (r r' : Reception) (env : Env) (ev : Event) (d : Decision) (entry : Entry)
    (es : List Effect)
    → Admits rt r.gate env (to_value ev) ev d entry es
    → finish r ev (allowed ev d entry) es ≡ r'
    → Delivered rt r r' env ev d entry es
unfolding finish
Delivered-of rt r r' env ev d entry es a h = record {
  admitted = a;
  queued = ap Reception.queue (sym h);
  gated = ap Reception.gate (sym h);
  told = ap Reception.notices (sym h) ∙ rw (a.effects, decided);
}
  where
    decided : entry.gate_rejected ≡ false
    decided = rw a.row (unfold decision_entry in refl)

-- The notices of a rejected event, from what the gate deferred.
Withheld-Told :
    (rt : Runtime) (g : Gate) (env : Env) (ev : Event) (reason : Reason) (entry : Entry)
    (es : List Effect) (notices : List Notice)
    → evaluate rt g env (to_value ev) ≡ some (rejected reason entry, es)
    → Recorded env (rejected reason entry) es
    → (heard : List Notice) × (((notices ++ decisions_of es)
            ++ policy_audit entry ∷ activity_of ev entry.gate_rejected
          ≡ notices ++ heard)
        × Told rt g ev entry heard)
Withheld-Told rt g env ev reason entry es notices h rec = elim rec.deferred [
  | inl (gated, e) ↦ (
    policy_audit entry ∷ [],
    (
      by_rejection true gated ∙ rw e (ap (λ l. l ++ policy_audit entry ∷ []) (append-nil notices)),
      inl (gated, refl),
    ),
  )
  | inr (decided, (ev', d, e)) ↦
      let (ev0, (valid, is)) =
        evaluate_emits rt g env (to_value ev) d (rejected reason entry) entry ev'.message_id
          (h ∙ ap (λ l. some (rejected reason entry, l)) e) in
      let same = to_value-IsEvent ev ev0 ((validate_iff (to_value ev) ev0).0 valid) in
      let own : d ≡ decide rt g.self g.config ev = is ∙ ap (decide rt g.self g.config) same in
      (
        policy_decision d ∷ policy_audit entry ∷ activity_of ev false,
        (
          by_rejection false decided
              ∙ rw e (
                  append_assoc notices (policy_decision d ∷ [])
                    (policy_audit entry ∷ activity_of ev false)),
          inr (
            decided,
            ap (λ x. policy_decision x ∷ policy_audit entry ∷ activity_of ev false) own,
          ),
        ),
      )
]
  where
    by_rejection :
        (b : Bool)
        → entry.gate_rejected ≡ b
        → (notices ++ decisions_of es) ++ policy_audit entry ∷ activity_of ev entry.gate_rejected
          ≡ (notices ++ decisions_of es) ++ policy_audit entry ∷ activity_of ev b
    by_rejection b same =
        ap (λ c. (notices ++ decisions_of es) ++ policy_audit entry ∷ activity_of ev c) same

Received-of :
    (rt : Runtime) (r r' : Reception) (env : Env) (ev : Event) (o : Outcome) (es : List Effect)
    → evaluate rt r.gate env (to_value ev) ≡ some (o, es)
    → finish r ev o es ≡ r'
    → Received rt r r' env ev
unfolding finish
Received-of rt r r' env ev (allowed ev' d entry) es e h =
    let a = (evaluate-allowed_iff rt r.gate env (to_value ev) ev' d entry es).0 e in
    let same = to_value-IsEvent ev ev' a.event in
    inl (d, (entry, (es, Delivered-of rt r r' env ev d entry es (rw same at a) (rw same at h))))
Received-of rt r r' env ev (rejected reason entry) es e h =
    let recorded : Returns env (some (rejected reason entry, es)) =
      subst (Returns env) e (evaluate-Returns rt r.gate env (to_value ev)) in
    let (heard, (same, kind)) =
      Withheld-Told rt r.gate env ev reason entry es r.notices e recorded in
    let told : (heard : List Notice) × ((r'.notices ≡ r.notices ++ heard)
          × Told rt r.gate ev entry heard) =
      (heard, (ap Reception.notices (sym h) ∙ same, kind)) in
    inr (
      reason,
      (
        entry,
        (
          es,
          record {
            refused = e;
            queue_kept = ap Reception.queue (sym h);
            gated = ap Reception.gate (sym h);
            told = told;
          },
        ),
      ),
    )

-- A reception that returns has queued the event, exactly as it arrived, if the gate admits it, and
-- has otherwise left the queue alone and told the observers no more than the row of a rejection by the
-- gate, or the policy's decision, its row and the activity.
pub prepare_inbound-Received :
    (rt : Runtime) (r r' : Reception) (env : Env) (ev : Event)
    → prepare_inbound rt r env ev ≡ some r'
    → Received rt r r' env ev
unfolding prepare_inbound
prepare_inbound-Received rt r r' env ev h =
    elim (Option-cases (evaluate rt r.gate env (to_value ev))) [
      | inl e ↦ absurd (ground arith)
      | inr ((o, es), e) ↦
          Received-of rt r r' env ev o es e (some-injective _ _ (rw (e, prepare_inbound) at h))
    ]
