-- ===== src/Prelude/Rings.antt =====
-- The last elements of a list: what a bounded first-in first-out buffer keeps.
use Prim.Native.Nat.{ℕ, zero, suc, ◌+◌, ◌-◌, ◌≤◌}
use mathlib.Core.Path.{◌≡◌, refl, sym, ap, ◌∙◌}
use mathlib.Core.List.{List, [], ◌∷◌, ◌++◌}
use native.Mathlib.Nat.{zero-add, suc-add}
use native.Mathlib.Omega.{arith}
use network_self_md.Prelude.Lists.{length, drop, length-append, length-drop}

module _ {ℓ} {A : Type ℓ} where
  abbrev pub last : ℕ → List A → List A
  last n xs = drop (length xs - n) xs

  pub drop-append : (n : ℕ) (xs ys : List A) → n ≤ length xs → drop n (xs ++ ys) ≡ drop n xs ++ ys
  drop-append zero xs ys h = refl
  drop-append (suc n) [] ys h = absurd (omega arith)
  drop-append (suc n) (x ∷ xs) ys h = drop-append n xs ys (omega arith)

  pub drop-drop : (m k : ℕ) (xs : List A) → drop k (drop m xs) ≡ drop (m + k) xs
  drop-drop zero k xs = rw zero-add
  drop-drop (suc m) zero [] = rw suc-add
  drop-drop (suc m) (suc k) [] = rw suc-add
  drop-drop (suc m) k (x ∷ xs) = rw suc-add (drop-drop m k xs)

module _ {ℓ} {A : Type ℓ} where
  pub last-all : (n : ℕ) (xs : List A) → length xs ≤ n → last n xs ≡ xs
  last-all n xs h = let e : length xs - n ≡ 0 = omega arith in rw e

  pub length-last-le : (n : ℕ) (xs : List A) → length (last n xs) ≤ n
  length-last-le n xs = omega (arith, length-drop (length xs - n) xs)

  -- What was dropped before is dropped again.
  pub last-last-append : (n : ℕ) (xs ys : List A) → last n (last n xs ++ ys) ≡ last n (xs ++ ys)
  last-last-append n xs ys =
      let d : ℕ = length xs - n in
      let join = drop-append d xs ys (omega arith) in
      let outer = drop-drop d (length (drop d xs ++ ys) - n) (xs ++ ys) in
      let sizes : d + (length (drop d xs ++ ys) - n) ≡ length (xs ++ ys) - n = omega (
        arith,
        length-append (drop d xs) ys,
        length-append xs ys,
        length-drop (length xs - n) xs,
      ) in
      ap (drop (length (drop d xs ++ ys) - n)) (sym join)
      ∙ outer
      ∙ ap (λ k. drop k (xs ++ ys)) sizes
