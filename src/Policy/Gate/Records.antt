-- ===== src/Policy/Gate/Records.antt =====
-- Each call of the gate stores one row or throws, and marks an id only behind a decision.
use network_self_md.Prelude.{
  ◌≡◌, refl, ◌⊎◌, inl, inr, true, false, List, [], ◌∷◌, Option, none, some, Bytes, Bool-cases,
  Option-cases, if◌then◌else◌,
}
use network_self_md.Value.{Value}
use network_self_md.Policy.Types.{
  Kind, group, dm, Event, Action, act, ask, ignore, Reason, Decision, Entry, Runtime,
}
use network_self_md.Policy.Decide.{decide}
use network_self_md.Policy.Validate.{ValidationResult, valid, invalid, validate_inbound_event}
use network_self_md.Policy.Gate.{
  Gate, Env, Outcome, entry_of, rejected, Effect, push_audit, mark, emit, has, decision_entry,
  reject, accept, check_member, check_validated, evaluate, outcome_of,
}

-- What a call that returned has done: it stored the row of its outcome, which is the row that it
-- defers to the log; and it deferred a mark and an emission exactly where the policy decided.
pub record Recorded (env : Env) (o : Outcome) (es : List Effect) : Type 0 where
  pub stored : env.persist (entry_of o) ≡ true
  pub stamped : (entry_of o).received_at ≡ env.now
  pub deferred :
      (((entry_of o).gate_rejected ≡ true) × (es ≡ push_audit (entry_of o) ∷ []))
      ⊎ (((entry_of o).gate_rejected ≡ false)
          × ((ev : Event) × (d : Decision) × (es
                ≡ push_audit (entry_of o) ∷ mark ev.message_id ∷ emit d ∷ [])))

-- A call that threw could not store the row that it had built.
abbrev pub Returns : Env → Option (Outcome × List Effect) → Type 0
Returns env none = (entry : Entry) × (env.persist entry ≡ false)
Returns env (some (o, es)) = Recorded env o es

reject-Returns :
    (env : Env) (reason : Reason) (entry : Entry)
    → entry.gate_rejected ≡ true
    → entry.received_at ≡ env.now
    → Returns env (reject env reason entry)
unfolding reject
reject-Returns env reason entry g t = elim (Bool-cases (env.persist entry)) [
  | inl e ↦ rw e (record { stored = e; stamped = t; deferred = inl (g, refl) })
  | inr e ↦ rw e (entry, e)
]

accept-Returns : (env : Env) (ev : Event) (d : Decision) → Returns env (accept env ev d)
unfolding accept
accept-Returns env ev d = elim (Bool-cases (env.persist (decision_entry env ev d))) [
  | inl e ↦ rw e (decided d.action e)
  | inr e ↦ rw e (decision_entry env ev d, e)
]
  where
    decided :
        (a : Action)
        → env.persist (decision_entry env ev d) ≡ true
        → Recorded env
            (outcome_of a ev d (decision_entry env ev d))
            (push_audit (decision_entry env ev d) ∷ mark ev.message_id ∷ emit d ∷ [])
    decided act e = record { stored = e; stamped = refl; deferred = inr (refl, (ev, d, refl)) }
    decided ask e = record { stored = e; stamped = refl; deferred = inr (refl, (ev, d, refl)) }
    decided ignore e = record { stored = e; stamped = refl; deferred = inr (refl, (ev, d, refl)) }

check_member-Returns :
    (env : Env) (ev : Event) (d : Decision) (k : Kind) (gid : Option Bytes)
    → Returns env (check_member env ev d k gid)
unfolding check_member
check_member-Returns env ev d dm gid = accept-Returns env ev d
check_member-Returns env ev d group none = reject-Returns env _ _ refl refl
check_member-Returns env ev d group (some gid) =
    elim (Option-cases (env.is_member gid ev.sender_public_key)) [
      | inl e ↦ rw e (reject-Returns env _ _ refl refl)
      | inr (false, e) ↦ rw e (reject-Returns env _ _ refl refl)
      | inr (true, e) ↦ rw e (accept-Returns env ev d)
    ]

pub evaluate-Returns :
    (rt : Runtime) (g : Gate) (env : Env) (raw : Value) → Returns env (evaluate rt g env raw)
unfolding evaluate
evaluate-Returns rt g env raw = validated (validate_inbound_event raw)
  where
    validated : (v : ValidationResult) → Returns env (check_validated rt g env raw v)
    validated (invalid reason) = reject-Returns env reason _ refl refl
    validated (valid ev) = elim (Bool-cases (has g.dedup ev.message_id)) [
      | inl seen ↦ rw seen (reject-Returns env _ _ refl refl)
      | inr new ↦
          rw new (check_member-Returns env ev (decide rt g.self g.config ev) ev.kind ev.group_id)
    ]

-- The same call, where every row can be stored.
abbrev pub storing : Env → Env
storing env = record env { persist = λ entry. true }

-- What a call does: it would have an outcome and effects if every row could be stored. It has just
-- these where the row of that outcome can be stored, and it throws where that row cannot.
abbrev pub Stores : Env → Option (Outcome × List Effect) → Option (Outcome × List Effect) → Type 0
Stores env would r =
    (o : Outcome) × ((es : List Effect) × ((would ≡ some (o, es))
        × ((r ≡ (if env.persist (entry_of o) then some (o, es) else none))
            × Recorded (storing env) o es)))

reject-Stores :
    (env : Env) (reason : Reason) (entry : Entry)
    → entry.gate_rejected ≡ true
    → entry.received_at ≡ env.now
    → Stores env (reject (storing env) reason entry) (reject env reason entry)
unfolding reject
reject-Stores env reason entry g t = (
  rejected reason entry,
  (
    push_audit entry ∷ [],
    (refl, (refl, record { stored = refl; stamped = t; deferred = inl (g, refl) })),
  ),
)

accept-Stores :
    (env : Env) (ev : Event) (d : Decision)
    → Stores env (accept (storing env) ev d) (accept env ev d)
unfolding accept decision_entry
accept-Stores env ev d = decided d.action
  where
    row : Entry
    row = decision_entry env ev d

    decided :
        (a : Action)
        → Stores env
            (some (outcome_of a ev d row, push_audit row ∷ mark ev.message_id ∷ emit d ∷ []))
            (if env.persist row
              then some (outcome_of a ev d row, push_audit row ∷ mark ev.message_id ∷ emit d ∷ [])
              else none)
    decided act = (
      _,
      (
        _,
        (
          refl,
          (refl, record { stored = refl; stamped = refl; deferred = inr (refl, (ev, d, refl)) }),
        ),
      ),
    )
    decided ask = (
      _,
      (
        _,
        (
          refl,
          (refl, record { stored = refl; stamped = refl; deferred = inr (refl, (ev, d, refl)) }),
        ),
      ),
    )
    decided ignore = (
      _,
      (
        _,
        (
          refl,
          (refl, record { stored = refl; stamped = refl; deferred = inr (refl, (ev, d, refl)) }),
        ),
      ),
    )

check_member-Stores :
    (env : Env) (ev : Event) (d : Decision) (k : Kind) (gid : Option Bytes)
    → Stores env (check_member (storing env) ev d k gid) (check_member env ev d k gid)
unfolding check_member
check_member-Stores env ev d dm gid = accept-Stores env ev d
check_member-Stores env ev d group none = reject-Stores env _ _ refl refl
check_member-Stores env ev d group (some gid) =
    elim (Option-cases (env.is_member gid ev.sender_public_key)) [
      | inl e ↦ rw e (reject-Stores env _ _ refl refl)
      | inr (false, e) ↦ rw e (reject-Stores env _ _ refl refl)
      | inr (true, e) ↦ rw e (accept-Stores env ev d)
    ]

-- Every call of the gate has an outcome and effects that do not hang on which rows can be stored. It
-- returns them where the outcome's row can be stored, and throws where it cannot. That row has the
-- call's time and is deferred to the log, alone where the gate itself rejected, and otherwise with
-- the mark of an id and the emission of a decision behind it.
pub evaluate-Stores :
    (rt : Runtime) (g : Gate) (env : Env) (raw : Value)
    → Stores env (evaluate rt g (storing env) raw) (evaluate rt g env raw)
unfolding evaluate
evaluate-Stores rt g env raw = validated (validate_inbound_event raw)
  where
    validated :
        (v : ValidationResult)
        → Stores env (check_validated rt g (storing env) raw v) (check_validated rt g env raw v)
    validated (invalid reason) = reject-Stores env reason _ refl refl
    validated (valid ev) = elim (Bool-cases (has g.dedup ev.message_id)) [
      | inl seen ↦ rw seen (reject-Stores env _ _ refl refl)
      | inr new ↦
          rw new (check_member-Stores env ev (decide rt g.self g.config ev) ev.kind ev.group_id)
    ]
