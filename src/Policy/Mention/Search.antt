-- ===== src/Policy/Mention/Search.antt =====
-- The search loop of `containsMention` against its meaning: an `@` and the needle stand at some
-- place, and no identifier character follows.
use native.Mathlib.Nat.{zero-add, suc-add}
use native.Mathlib.Decide.{dec_lt, ℕ_discrete}
use network_self_md.Prelude.{
  ℕ, zero, suc, ◌+◌, ◌-◌, ◌≤◌, ◌<◌, ◌≡◌, ◌≢◌, refl, subst, inl, inr, ◌↔◌, true, false, [], ◌∷◌,
  none, some, arith, Text, length, get_elem?, drop, Bool-cases, Option-cases,
}
use network_self_md.Policy.Mention.{
  is_prefix, index_at, index_of, is_boundary, mention_from, contains_mention,
}

index_at-none :
    (pat xs : Text) (n k : ℕ) → index_at pat xs n ≡ none → is_prefix pat (drop k xs) ≡ false
index_at-none pat [] n zero h = ground arith
index_at-none pat [] n (suc k) h = ground arith
index_at-none pat (c ∷ cs) n zero h = ground arith
index_at-none pat (c ∷ cs) n (suc k) h = index_at-none pat cs (suc n) k (ground arith)

-- The place found, counted from the start of the rest that was searched.
index_at-some :
    (pat xs : Text) (n at : ℕ)
    → index_at pat xs n ≡ some at
    → (k : ℕ) × (at ≡ n + k)
      × (is_prefix pat (drop k xs) ≡ true)
      × ((j : ℕ) → j < k → is_prefix pat (drop j xs) ≡ false)
index_at-some pat [] n at h = (0, ground arith, ground arith, λ j l. absurd (omega arith))
index_at-some pat (c ∷ cs) n at h = elim (Bool-cases (is_prefix pat (c ∷ cs))) [
  | inl here ↦ (0, ground arith, here, λ j l. absurd (omega arith))
  | inr there ↦
      let (k, e, p, before) = index_at-some pat cs (suc n) at (ground arith) in
      (suc k, omega arith, p, below k before there)
]
  where
    below :
        (k : ℕ)
        → ((j : ℕ) → j < k → is_prefix pat (drop j cs) ≡ false)
        → is_prefix pat (c ∷ cs) ≡ false
        → (j : ℕ) → j < suc k
        → is_prefix pat (drop j (c ∷ cs)) ≡ false
    below k before there zero l = there
    below k before there (suc j) l = before j (omega arith)

drop-drop : (m k : ℕ) (xs : Text) → drop k (drop m xs) ≡ drop (m + k) xs
drop-drop zero k xs = rw zero-add
drop-drop (suc m) zero [] = rw suc-add
drop-drop (suc m) (suc k) [] = rw suc-add
drop-drop (suc m) k (x ∷ xs) = rw suc-add (drop-drop m k xs)

-- A search from `from`, in places of the whole text.
pub index_of-none :
    (pat hay : Text) (from p : ℕ)
    → index_of pat hay from ≡ none
    → from ≤ p
    → is_prefix pat (drop p hay) ≡ false
index_of-none pat hay from p h l =
    let e : from + (p - from) ≡ p = omega arith in
    subst (λ q. is_prefix pat (drop q hay) ≡ false) e
      (rw (← drop-drop from (p - from) hay) (index_at-none pat (drop from hay) from (p - from) h))

pub index_of-some :
    (pat hay : Text) (from at : ℕ)
    → index_of pat hay from ≡ some at
    → (from ≤ at)
      × (is_prefix pat (drop at hay) ≡ true)
      × ((p : ℕ) → from ≤ p → p < at → is_prefix pat (drop p hay) ≡ false)
index_of-some pat hay from at h =
    let (k, e, hit, before) = index_at-some pat (drop from hay) from at h in
    (
      omega arith,
      rw (e, ← drop-drop from k hay) hit,
      λ p l m.
          subst (λ q. is_prefix pat (drop q hay) ≡ false) (restore p l)
            (rw (← drop-drop from (p - from) hay) (before (p - from) (omega arith))),
    )
  where
    restore : (p : ℕ) → from ≤ p → from + (p - from) ≡ p
    restore p l = omega arith

-- `@needle` stands at `p`, as a whole word.
pub record Occurs (hay needle : Text) (p : ℕ) : Type 0 where
  pub found : is_prefix (b'@' ∷ needle) (drop p hay) ≡ true
  pub bounded : is_boundary (get_elem? hay (p + 1 + length needle)) ≡ true

found-lt-length :
    (c : ℕ) (pat hay : Text) (p : ℕ) → is_prefix (c ∷ pat) (drop p hay) ≡ true → p < length hay
found-lt-length c pat [] zero h = cc
found-lt-length c pat [] (suc p) h = cc
found-lt-length c pat (x ∷ hay) zero h = omega arith
found-lt-length c pat (x ∷ hay) (suc p) h = omega (arith, found-lt-length c pat hay p h)

mention_from_sound :
    (fuel : ℕ) (hay needle : Text) (from : ℕ)
    → mention_from fuel hay needle from ≡ true
    → (p : ℕ) × Occurs hay needle p
unfolding mention_from
mention_from_sound zero hay needle from h = cc
mention_from_sound (suc fuel) hay needle from h =
    elim (Option-cases (index_of (b'@' ∷ needle) hay from)) [
      | inl e ↦ absurd (ground arith)
      | inr (at, e) ↦ elim (Bool-cases (is_boundary (get_elem? hay (at + 1 + length needle)))) [
        | inl b ↦
            (at, record { found = (index_of-some (b'@' ∷ needle) hay from at e).1; bounded = b })
        | inr b ↦ mention_from_sound fuel hay needle (at + 1) (ground arith)
      ]
    ]

-- Enough fuel: one round for each place that is left.
mention_from_complete :
    (fuel : ℕ) (hay needle : Text) (from p : ℕ)
    → length hay < fuel + from
    → from ≤ p
    → Occurs hay needle p
    → mention_from fuel hay needle from ≡ true
unfolding mention_from
mention_from_complete zero hay needle from p f l o =
    absurd (omega (arith, found-lt-length _ needle hay p o.found))
mention_from_complete (suc fuel) hay needle from p f l o =
    elim (Option-cases (index_of (b'@' ∷ needle) hay from)) [
      | inl e ↦ absurd (ground (arith, o.found, index_of-none (b'@' ∷ needle) hay from p e l))
      | inr (at, e) ↦ elim (Bool-cases (is_boundary (get_elem? hay (at + 1 + length needle)))) [
        | inl b ↦ ground (arith, inside)
        | inr b ↦
            let hit = index_of-some (b'@' ∷ needle) hay from at e in
            ground (
              arith,
              inside,
              mention_from_complete fuel hay needle (at + 1) p (omega (arith, hit.0))
                  (later at hit b) o,
            )
      ]
    ]
  where
    inside : from < length hay
    inside = omega (arith, found-lt-length b'@' needle hay p o.found)

    later :
        (at : ℕ)
        → (from ≤ at)
          × (is_prefix (b'@' ∷ needle) (drop at hay) ≡ true)
          × ((q : ℕ) → from ≤ q → q < at → is_prefix (b'@' ∷ needle) (drop q hay) ≡ false)
        → is_boundary (get_elem? hay (at + 1 + length needle)) ≡ false
        → at + 1 ≤ p
    later at (_, _, before) b = elim (dec_lt p at) [
      | yes m ↦ absurd (ground (arith, o.found, before p l m))
      | no m ↦ elim (ℕ_discrete p at) [
        | yes q ↦ absurd (
            ground (
              arith,
              subst (λ r. is_boundary (get_elem? hay (r + 1 + length needle)) ≡ true) q o.bounded,
            ))
        | no q ↦ omega arith
      ]
    ]

-- A text mentions a needle exactly where an `@` and the needle, both in lower case, stand at some
-- place of it with no identifier character behind them. No needle is mentioned if it is empty.
pub contains_mention_iff :
    (lower : Text → Text) (hay needle : Text)
    → (contains_mention lower hay needle ≡ true)
      ↔ ((needle ≢ []) × ((p : ℕ) × Occurs (lower hay) (lower needle) p))
unfolding contains_mention
contains_mention_iff lower hay [] = (λ h. cc, λ h. absurd (h.0 refl))
contains_mention_iff lower hay (c ∷ cs) = (
  λ h. (λ e. cc, mention_from_sound (suc (length (lower hay))) (lower hay) (lower (c ∷ cs)) 0 h),
  λ h.
      mention_from_complete (suc (length (lower hay))) (lower hay) (lower (c ∷ cs)) 0 h.1.0
        (omega arith) (omega arith) h.1.1,
)
