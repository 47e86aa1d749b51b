-- ===== src/Groups/Lookups.antt =====
-- Lookups in tables keyed by a group and a public key.
use network_self_md.Prelude.{
  ◌≡◌, refl, true, not, none, some, List, [], ◌∷◌, map, arith, Bytes, list_eq, list_eq_iff, filter,
  any, lookup, Bool-cases, if◌then◌else◌, inl, inr,
}
use network_self_md.Groups.{pair_key}

module _ {V : Type 0} where
  -- Without the rows of a group.
  pub lookup-without :
      (g h key : Bytes) (rows : List ((Bytes × Bytes) × V))
      → lookup (h, key) (filter (λ row. not (list_eq row.0.0 g)) rows)
        ≡ (if list_eq h g then none else lookup (h, key) rows)
  lookup-without g h key [] = ground arith
  lookup-without g h key (((i, k), v) ∷ rows) = ground (
    arith,
    list_eq_iff i g,
    list_eq_iff h g,
    list_eq_iff i h,
    list_eq_iff k key,
    lookup-without g h key rows,
  )

  -- The public keys of a group's rows.
  abbrev pub keys_of : Bytes → List ((Bytes × Bytes) × V) → List Bytes
  keys_of g rows = map (λ row. row.0.1) (filter (λ row. list_eq row.0.0 g) rows)

  pub keys_of-lookup :
      (g key : Bytes) (v : V) (rows : List ((Bytes × Bytes) × V))
      → lookup (g, key) rows ≡ some v
      → any (λ k. list_eq k key) (keys_of g rows) ≡ true
  keys_of-lookup g key v [] h = absurd (cc h)
  keys_of-lookup g key v (((i, k), w) ∷ rows) h = elim (Bool-cases (list_eq i g)) [
    | inr other ↦ rw other (keys_of-lookup g key v rows (rw other at h))
    | inl same ↦ elim (Bool-cases (list_eq k key)) [
      | inl this ↦ rw (same, this) refl
      | inr next ↦ rw (same, next) (keys_of-lookup g key v rows (rw (same, next) at h))
    ]
  ]
