-- ===== src/Policy/Gate/Replay.antt =====
-- How long the gate remembers an id, and how much it remembers.

use mathlib.Core.List.{append_assoc}
use network_self_md.Prelude.{
  ℕ, suc, ◌+◌, ◌≤◌, ◌<◌, ◌≡◌, refl, ap, inl, inr, true, false, List, [], ◌∷◌, ◌++◌, Option, none,
  some, arith, Text, list_eq_self, length, length-append, ltb, Bool-cases, ltb→lt, if◌then◌else◌,
}
use network_self_md.Value.{Value}
use network_self_md.Policy.Types.{Event, Decision, Entry, duplicate_event, Runtime}
use network_self_md.Policy.Validate.Exact.{IsEvent, validate_iff}
use network_self_md.Policy.Gate.{
  Gate, Env, Outcome, allowed, Effect, has, mark_dedup, without_oldest, event_entry, reject,
  evaluate, run, after,
}
use network_self_md.Policy.Gate.Admission.{Admits, evaluate-allowed_iff}
use network_self_md.Policy.Gate.Records.{Returns, evaluate-Returns}

-- The id is in the set, with at most `k` younger ones.
record Within (k : ℕ) (id : Text) (ids : List Text) : Type 0 where
  older : List Text
  younger : List Text
  split : ids ≡ older ++ id ∷ younger
  recent : length younger ≤ k

has-append : (xs : List Text) (id : Text) (ys : List Text) → has (xs ++ id ∷ ys) id ≡ true
has-append [] id ys = rw list_eq_self
has-append (x ∷ xs) id ys = ground (arith, has-append xs id ys)

Within-has : {k : ℕ} {id : Text} {ids : List Text} → Within k id ids → has ids id ≡ true
Within-has {id} w = rw w.split (has-append w.older id w.younger)

-- `Set.add` of another id, or of the same.
Within-add :
    (k : ℕ) (id other : Text) (ids : List Text)
    → Within k id ids
    → Within (suc k) id (ids ++ other ∷ [])
Within-add k id other ids w = record {
  older = w.older;
  younger = w.younger ++ other ∷ [];
  split = rw w.split (append_assoc w.older (id ∷ w.younger) (other ∷ []));
  recent = omega (arith, w.recent, length-append w.younger (other ∷ []));
}

Within-mono : {j k : ℕ} {id : Text} {ids : List Text} → j ≤ k → Within j id ids → Within k id ids
Within-mono l w = record {
  older = w.older;
  younger = w.younger;
  split = w.split;
  recent = omega (arith, w.recent);
}

-- Dropping the oldest keeps an id that has fewer younger ones than are left.
without_oldest-Within :
    (k : ℕ) (id : Text) (older younger : List Text)
    → length younger ≤ k
    → k + 1 < length (older ++ id ∷ younger)
    → Within k id (without_oldest (older ++ id ∷ younger))
without_oldest-Within k id [] younger l h = absurd (omega arith)
without_oldest-Within k id (x ∷ older) younger l h = record {
  older = older;
  younger = younger;
  split = refl;
  recent = l;
}

evict-Within :
    (k size : ℕ) (id : Text) (ids : List Text)
    → k < size
    → Within k id ids
    → Within k id (if ltb size (length ids) then without_oldest ids else ids)
evict-Within k size id ids h w = elim (Bool-cases (ltb size (length ids))) [
  | inl full ↦
      rw (full, w.split)
        (without_oldest-Within k id w.older w.younger w.recent
          (omega (arith, ltb→lt size (length ids) full, ap length w.split)))
  | inr room ↦ rw room w
]

mark_dedup-Within :
    (k size : ℕ) (id other : Text) (ids : List Text)
    → suc k < size
    → Within k id ids
    → Within (suc k) id (mark_dedup ids size other)
unfolding mark_dedup
mark_dedup-Within k size id other ids h w = elim (Bool-cases (has ids other)) [
  | inl old ↦ rw old (evict-Within (suc k) size id ids h (Within-mono (omega arith) w))
  | inr new ↦ rw new (evict-Within (suc k) size id _ h (Within-add k id other ids w))
]

-- A fresh mark is the youngest.
mark_dedup-fresh :
    (size : ℕ) (id : Text) (ids : List Text)
    → 0 < size
    → has ids id ≡ false
    → Within 0 id (mark_dedup ids size id)
unfolding mark_dedup
mark_dedup-fresh size id ids h new = rw new (
    evict-Within 0 size id (ids ++ id ∷ []) h
      (record { older = ids; younger = []; split = refl; recent = omega arith }))

size-after :
    (g : Gate) (env : Env) (r : Option (Outcome × List Effect))
    → Returns env r
    → (after g r).dedup_size ≡ g.dedup_size
unfolding after
size-after g env none h = refl
size-after g env (some (o, es)) h = elim h.deferred [
  | inl (_, e) ↦ rw e
  | inr (_, (_, _, e)) ↦ rw e
]

after-Within :
    (k : ℕ) (id : Text) (g : Gate) (env : Env) (r : Option (Outcome × List Effect))
    → suc k < g.dedup_size
    → Returns env r
    → Within k id g.dedup
    → Within (suc k) id (after g r).dedup
unfolding after
after-Within k id g env none l h w = Within-mono (omega arith) w
after-Within k id g env (some (o, es)) l h w = elim h.deferred [
  | inl (_, e) ↦ rw e (Within-mono (omega arith) w)
  | inr (_, (ev, _, e)) ↦ rw e (mark_dedup-Within k g.dedup_size id ev.message_id g.dedup l w)
]

run-Within :
    (k : ℕ) (id : Text) (rt : Runtime) (g : Gate) (calls : List (Env × Value))
    → k + length calls < g.dedup_size
    → Within k id g.dedup
    → has (run rt g calls).dedup id ≡ true
unfolding run
run-Within k id rt g [] l w = Within-has w
run-Within k id rt g ((env, raw) ∷ calls) l w =
    let returns = evaluate-Returns rt g env raw in
    let same = size-after g env (evaluate rt g env raw) returns in
    run-Within (suc k) id rt (after g (evaluate rt g env raw)) calls (omega arith)
      (after-Within k id g env (evaluate rt g env raw) (omega arith) returns w)

duplicate_rejected :
    (rt : Runtime) (g : Gate) (env : Env) (raw : Value) (ev : Event)
    → IsEvent raw ev
    → has g.dedup ev.message_id ≡ true
    → evaluate rt g env raw ≡ reject env duplicate_event (event_entry env ev duplicate_event)
unfolding evaluate
duplicate_rejected rt g env raw ev e h = rw ((validate_iff raw ev).1 e, h)

-- Once an event was let through, each later event of the same id is rejected as a duplicate,
-- whatever else it says, as long as fewer calls than the gate remembers ids came in between.
pub evaluate_duplicate :
    (rt : Runtime) (g : Gate) (env : Env) (raw : Value) (ev : Event) (d : Decision) (entry : Entry)
    (es : List Effect) (calls : List (Env × Value)) (env' : Env) (raw' : Value) (ev' : Event)
    → evaluate rt g env raw ≡ some (allowed ev d entry, es)
    → length calls < g.dedup_size
    → IsEvent raw' ev'
    → ev'.message_id ≡ ev.message_id
    → evaluate rt (run rt (after g (evaluate rt g env raw)) calls) env' raw'
      ≡ reject env' duplicate_event (event_entry env' ev' duplicate_event)
evaluate_duplicate rt g env raw ev d entry es calls env' raw' ev' h l e same =
    duplicate_rejected rt _ env' raw' ev' e (
      rw same (
        run-Within 0 ev.message_id rt (after g (evaluate rt g env raw)) calls
          (rw (size-after g env (evaluate rt g env raw) (evaluate-Returns rt g env raw))
            (omega arith))
          marked))
  where
    admitted : Admits rt g env raw ev d entry es
    admitted = (evaluate-allowed_iff rt g env raw ev d entry es).0 h

    marked : Within 0 ev.message_id (after g (evaluate rt g env raw)).dedup
    marked =
        rw (h, admitted.effects)
          (unfold after in
            mark_dedup-fresh g.dedup_size ev.message_id g.dedup (omega arith) admitted.fresh)
