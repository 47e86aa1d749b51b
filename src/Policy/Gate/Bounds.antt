-- ===== src/Policy/Gate/Bounds.antt =====
-- The gate's memory stays within its limits.
use network_self_md.Prelude.{
  ℕ, suc, max, ◌∙◌, ◌≤◌, ◌≡◌, refl, inl, inr, false, List, [], ◌∷◌, ◌++◌, Option, none, some, arith,
  Text, list_eq, list_eq_iff, length, length-append, length-last-le, Bool-cases,
}
use network_self_md.Value.{Value}
use network_self_md.Policy.Types.{Config, Entry, Runtime}
use network_self_md.Policy.Decide.{Self}
use network_self_md.Policy.Audit.{AuditLog}
use network_self_md.Policy.Audit
use network_self_md.Policy.Audit.Ring.{push-last, push-max}
use network_self_md.Policy.Gate.{
  Gate, Env, Outcome, entry_of, Effect, has, mark_dedup, without_oldest, new, evaluate, after, run,
}
use network_self_md.Policy.Gate.Records.{Returns, evaluate-Returns}

abbrev pub Distinct : List Text → Type 0
Distinct [] = Unit {0}
Distinct (x ∷ xs) = (has xs x ≡ false) × Distinct xs

-- The number that was given, but at least one; or the default.
abbrev pub at_least_one : ℕ → Option ℕ → ℕ
at_least_one default none = default
at_least_one default (some n) = max 1 n

-- A gate that remembers `ids` ids and logs `rows` rows at most.
pub record IsBounded (ids rows : ℕ) (g : Gate) : Type 0 where
  pub dedup_fits : length g.dedup ≤ ids
  pub dedup_distinct : Distinct g.dedup
  pub audit_fits : length g.audit.buf ≤ rows
  pub dedup_limit : g.dedup_size ≡ ids
  pub audit_limit : g.audit.max_entries ≡ rows

has-snoc :
    (xs : List Text) (x y : Text)
    → has xs x ≡ false
    → list_eq y x ≡ false
    → has (xs ++ y ∷ []) x ≡ false
has-snoc [] x y h e = rw e
has-snoc (z ∷ xs) x y h e = ground (arith, has-snoc xs x y)

has-false :
    (z x : Text) (xs : List Text)
    → has (z ∷ xs) x ≡ false
    → (list_eq z x ≡ false) × (has xs x ≡ false)
has-false z x xs h = ground arith

list_eq-swap : (x y : Text) → list_eq x y ≡ false → list_eq y x ≡ false
list_eq-swap x y h = ground (arith, list_eq_iff x y, list_eq_iff y x)

Distinct-snoc :
    (xs : List Text) (x : Text) → has xs x ≡ false → Distinct xs → Distinct (xs ++ x ∷ [])
Distinct-snoc [] x h d = (refl, tt)
Distinct-snoc (z ∷ xs) x h d =
    let (ne, out) = has-false z x xs h in
    (has-snoc xs z x d.0 (list_eq-swap z x ne), Distinct-snoc xs x out d.1)

Distinct-without_oldest : (xs : List Text) → Distinct xs → Distinct (without_oldest xs)
Distinct-without_oldest [] d = tt
Distinct-without_oldest (x ∷ xs) d = d.1

length-without_oldest :
    (xs : List Text) (n : ℕ) → length xs ≤ suc n → length (without_oldest xs) ≤ n
length-without_oldest [] n h = omega arith
length-without_oldest (x ∷ xs) n h = omega arith

mark_dedup-bounded :
    (ids : List Text) (size : ℕ) (id : Text)
    → length ids ≤ size
    → Distinct ids
    → (length (mark_dedup ids size id) ≤ size) × Distinct (mark_dedup ids size id)
unfolding mark_dedup
mark_dedup-bounded ids size id h d = elim (Bool-cases (has ids id)) [
  | inl old ↦ rw old (ground (arith, Distinct-without_oldest ids d))
  | inr new ↦ rw new (
      ground (
        arith,
        length-append ids (id ∷ []),
        Distinct-snoc ids id new d,
        Distinct-without_oldest (ids ++ id ∷ []),
        length-without_oldest (ids ++ id ∷ []) size,
      ))
]

push_audit-IsBounded :
    (ids rows : ℕ) (g : Gate) (e : Entry)
    → IsBounded ids rows g
    → IsBounded ids rows (record g { audit = Audit.push g.audit e })
push_audit-IsBounded ids rows g e b = record {
  dedup_fits = b.dedup_fits;
  dedup_distinct = b.dedup_distinct;
  audit_fits =
      rw (push-last g.audit e, b.audit_limit) (length-last-le rows (g.audit.buf ++ e ∷ []));
  dedup_limit = b.dedup_limit;
  audit_limit = push-max g.audit e ∙ b.audit_limit;
}

after-IsBounded :
    (ids rows : ℕ) (g : Gate) (env : Env) (r : Option (Outcome × List Effect))
    → Returns env r
    → IsBounded ids rows g
    → IsBounded ids rows (after g r)
unfolding after
after-IsBounded ids rows g env none h b = b
after-IsBounded ids rows g env (some (o, es)) h b = elim h.deferred [
  | inl (_, e) ↦ rw e (push_audit-IsBounded ids rows g _ b)
  | inr (_, (ev, d, e)) ↦
      let logged = push_audit-IsBounded ids rows g (entry_of o) b in
      let (fits, distinct) =
        mark_dedup-bounded g.dedup g.dedup_size ev.message_id
          (omega (arith, b.dedup_fits, b.dedup_limit)) b.dedup_distinct in
      rw e (record {
        dedup_fits = omega (arith, fits, b.dedup_limit);
        dedup_distinct = distinct;
        audit_fits = logged.audit_fits;
        dedup_limit = b.dedup_limit;
        audit_limit = logged.audit_limit;
      })
]

new-IsBounded :
    (self : Self) (config : Config) (limit size : Option ℕ)
    → IsBounded
        (at_least_one 10000 size)
        (at_least_one 1000 limit)
        (new self config (Audit.new limit) size)
unfolding new Audit.new
new-IsBounded self config limit size = record {
  dedup_fits = omega arith;
  dedup_distinct = tt;
  audit_fits = omega arith;
  dedup_limit = ids size;
  audit_limit = rows limit;
}
  where
    ids : (n : Option ℕ) → (new self config (Audit.new limit) n).dedup_size ≡ at_least_one 10000 n
    ids none = refl
    ids (some n) = refl

    rows : (n : Option ℕ) → (Audit.new n).max_entries ≡ at_least_one 1000 n
    rows none = refl
    rows (some n) = refl

run-IsBounded :
    (ids rows : ℕ) (rt : Runtime) (g : Gate) (calls : List (Env × Value))
    → IsBounded ids rows g
    → IsBounded ids rows (run rt g calls)
unfolding run
run-IsBounded ids rows rt g [] b = b
run-IsBounded ids rows rt g ((env, raw) ∷ calls) b =
    run-IsBounded ids rows rt (after g (evaluate rt g env raw)) calls
      (after-IsBounded ids rows g env (evaluate rt g env raw) (evaluate-Returns rt g env raw) b)

-- After any calls, the gate remembers at most as many ids as it was made for, no id twice, and its log
-- holds at most the rows that it was made for: each number is the one given, but at least one, or
-- 10000 ids and 1000 rows where none was given.
pub run-new-IsBounded :
    (rt : Runtime) (self : Self) (config : Config) (limit size : Option ℕ)
    (calls : List (Env × Value))
    → IsBounded
        (at_least_one 10000 size)
        (at_least_one 1000 limit)
        (run rt (new self config (Audit.new limit) size) calls)
run-new-IsBounded rt self config limit size calls =
    run-IsBounded _ _ rt _ calls (new-IsBounded self config limit size)
