-- ===== src/Prelude/Maps.antt =====
-- `Map` as an association list in insertion order, over keys with a Boolean equality.
use Prim.Native.Nat.{ℕ, ◌+◌, ◌≤◌}
use mathlib.Core.Path.{◌≡◌, refl, subst}
use mathlib.Core.Logic.{◌↔◌, inl, inr}
use mathlib.Core.Bool.{Bool, true}
use mathlib.Core.List.{List, [], ◌∷◌}
use mathlib.Core.Option.{Option, none, some, some-injective}
use native.Mathlib.Omega.{arith}
use network_self_md.Prelude.Tests.{◌==◌, ==_iff, if◌then◌else◌, Bool-cases}
use network_self_md.Prelude.Lists.{length}
use network_self_md.Prelude.Keys.{list_eq, list_eq_iff}

pub record Key (K : Type 0) : Type 0 where
  pub beq : K → K → Bool
  pub beq_iff : (a b : K) → (beq a b ≡ true) ↔ (a ≡ b)

instance abbrev pub number_key : Key ℕ
number_key = record { beq = ◌==◌; beq_iff = ==_iff }

instance abbrev pub text_key : Key (List ℕ)
text_key = record { beq = list_eq; beq_iff = list_eq_iff }

module _ {K V : Type 0} ⦃e : Key K⦄ where
  abbrev pub lookup : K → List (K × V) → Option V
  lookup k [] = none
  lookup k ((j, v) ∷ m) = let rest = lookup k m in if e.beq j k then some v else rest

  -- `Map.set` keeps the place of a key that is there.
  abbrev pub insert : K → V → List (K × V) → List (K × V)
  insert k v [] = (k, v) ∷ []
  insert k v ((j, w) ∷ m) =
      let rest = insert k v m in if e.beq j k then (j, v) ∷ m else (j, w) ∷ rest

  abbrev pub delete : K → List (K × V) → List (K × V)
  delete k [] = []
  delete k ((j, v) ∷ m) = let rest = delete k m in if e.beq j k then rest else (j, v) ∷ rest

  pub lookup-insert :
      (k j : K) (v : V) (m : List (K × V))
      → lookup j (insert k v m) ≡ (if e.beq k j then some v else lookup j m)
  lookup-insert k j v [] = refl
  lookup-insert k j v ((i, w) ∷ m) =
      ground (arith, e.beq_iff k j, e.beq_iff i k, e.beq_iff i j, lookup-insert k j v m)

  pub lookup-delete :
      (k j : K) (m : List (K × V))
      → lookup j (delete k m) ≡ (if e.beq k j then none else lookup j m)
  lookup-delete k j [] = ground arith
  lookup-delete k j ((i, w) ∷ m) =
      ground (arith, e.beq_iff k j, e.beq_iff i k, e.beq_iff i j, lookup-delete k j m)

  pub length-insert-le : (k : K) (v : V) (m : List (K × V)) → length (insert k v m) ≤ length m + 1
  length-insert-le k v [] = omega arith
  length-insert-le k v ((j, w) ∷ m) = ground (arith, length-insert-le k v m)

  pub length-delete-le : (k : K) (m : List (K × V)) → length (delete k m) ≤ length m
  length-delete-le k [] = omega arith
  length-delete-le k ((j, w) ∷ m) = ground (arith, length-delete-le k m)

  -- Every value has the property.
  abbrev pub EachValue : (V → Type 0) → List (K × V) → Type 0
  EachValue P [] = Unit {0}
  EachValue P ((j, v) ∷ m) = P v × EachValue P m

  pub EachValue-insert :
      (P : V → Type 0) (k : K) (v : V) (m : List (K × V))
      → EachValue P m
      → P v
      → EachValue P (insert k v m)
  EachValue-insert P k v [] h hv = (hv, tt)
  EachValue-insert P k v ((j, w) ∷ m) h hv = elim (Bool-cases (e.beq j k)) [
    | inl same ↦ rw same (hv, h.1)
    | inr other ↦ rw other (h.0, EachValue-insert P k v m h.1 hv)
  ]

  pub EachValue-delete :
      (P : V → Type 0) (k : K) (m : List (K × V)) → EachValue P m → EachValue P (delete k m)
  EachValue-delete P k [] h = tt
  EachValue-delete P k ((j, w) ∷ m) h = elim (Bool-cases (e.beq j k)) [
    | inl same ↦ rw same (EachValue-delete P k m h.1)
    | inr other ↦ rw other (h.0, EachValue-delete P k m h.1)
  ]

  pub lookup-EachValue :
      (P : V → Type 0) (k : K) (v : V) (m : List (K × V))
      → EachValue P m
      → lookup k m ≡ some v
      → P v
  lookup-EachValue P k v [] h at = absurd (cc at)
  lookup-EachValue P k v ((j, w) ∷ m) h at = elim (Bool-cases (e.beq j k)) [
    | inl same ↦ subst P (some-injective w v (rw same at at)) h.0
    | inr other ↦ lookup-EachValue P k v m h.1 (rw other at at)
  ]
