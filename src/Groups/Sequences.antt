-- ===== src/Groups/Sequences.antt =====
-- The counters of key distributions: no call lowers one, so that a distribution is taken once.
use network_self_md.Prelude.{
  ℕ, ◌≤◌, ◌≡◌, refl, true, ◌||◌, Option, none, some, List, [], ◌∷◌, arith, Bytes, leb, le→leb,
  lookup, lookup-insert, Bool-cases, Option-cases, inl, inr,
}
use network_self_md.Groups.{Tables, pair_key, pair_eq, pair_eq_iff}
use network_self_md.Groups.SenderKeyTable.{
  load, or_zero, get_distribution_sequence, KeyContent, is_rewound, raise, store, store_if_newer,
  delete_key, delete_keys_of_group,
}

-- The calls of the repository that write.
pub data KeyCall : Type 0 where
  storing storing_if_newer : Bytes → Bytes → KeyContent → ℕ → KeyCall
  deleting : Bytes → Bytes → KeyCall
  deleting_group : Bytes → KeyCall

abbrev pub or_same : Option Tables → Tables → Tables
or_same none t = t
or_same (some u) t = u

unfoldable pub call : KeyCall → Tables → Tables
unfolding store store_if_newer delete_key delete_keys_of_group
call (storing g key content now) t = store t g key content now
call (storing_if_newer g key content now) t = or_same (store_if_newer t g key content now) t
call (deleting g key) t = delete_key t g key
call (deleting_group g) t = delete_keys_of_group t g

unfoldable pub call_each : List KeyCall → Tables → Tables
unfolding call
call_each [] t = t
call_each (c ∷ cs) t = call_each cs (call c t)

raise-le : (o : Option ℕ) (n : ℕ) → or_zero o ≤ raise o n
raise-le none n = omega arith
raise-le (some k) n = omega arith

raise-ge : (o : Option ℕ) (n : ℕ) → n ≤ raise o n
raise-ge none n = omega arith
raise-ge (some k) n = omega arith

-- What is stored raises its own counter to its sequence, and leaves the others.
store-raises :
    (t : Tables) (g key : Bytes) (content : KeyContent) (now : ℕ)
    → content.sequence ≤ get_distribution_sequence (store t g key content now) g key
unfolding store
store-raises t g key content now =
    let at =
      lookup-insert (g, key) (g, key) (raise (lookup (g, key) t.sequences) content.sequence)
        t.sequences in
    let same = (pair_eq_iff (g, key) (g, key)).1 refl in
    rw (at, same) (raise-ge (lookup (g, key) t.sequences) content.sequence)

store-le :
    (t : Tables) (g key h other : Bytes) (content : KeyContent) (now : ℕ)
    → get_distribution_sequence t h other
      ≤ get_distribution_sequence (store t g key content now) h other
unfolding store
store-le t g key h other content now =
    let at =
      lookup-insert (g, key) (h, other) (raise (lookup (g, key) t.sequences) content.sequence)
        t.sequences in
    elim (Bool-cases (pair_eq (g, key) (h, other))) [
      | inl same ↦
          let e = (pair_eq_iff (g, key) (h, other)).0 same in
          rw (at, same, ← e) (raise-le (lookup (g, key) t.sequences) content.sequence)
      | inr apart ↦ rw (at, apart) (omega arith)
    ]

newer-cases :
    (t u : Tables) (g key : Bytes) (content : KeyContent) (now : ℕ)
    → store_if_newer t g key content now ≡ some u
    → u ≡ store t g key content now
unfolding store_if_newer
newer-cases t u g key content now h =
    elim (Bool-cases (
      leb content.sequence (get_distribution_sequence t g key)
      || is_rewound (load t g key) content)) [
        | inl refused ↦ absurd (let h' = rw refused at h in cc h')
        | inr taken ↦ let h' = rw taken at h in cc h'
      ]

call-le :
    (c : KeyCall) (t : Tables) (h other : Bytes)
    → get_distribution_sequence t h other ≤ get_distribution_sequence (call c t) h other
unfolding call delete_key delete_keys_of_group
call-le (storing g key content now) t h other = store-le t g key h other content now
call-le (storing_if_newer g key content now) t h other =
    elim (Option-cases (store_if_newer t g key content now)) [
      | inl none_taken ↦ rw none_taken (omega arith)
      | inr (u, taken) ↦
          let is = newer-cases t u g key content now taken in
          rw (taken, is) (store-le t g key h other content now)
    ]
call-le (deleting g key) t h other = omega arith
call-le (deleting_group g) t h other = omega arith

-- The counter of a group and a sender is never lowered, whatever keys are stored and deleted.
pub call_each-le :
    (cs : List KeyCall) (t : Tables) (g key : Bytes)
    → get_distribution_sequence t g key ≤ get_distribution_sequence (call_each cs t) g key
unfolding call_each
call_each-le [] t g key = omega arith
call_each-le (c ∷ cs) t g key = omega (arith, call-le c t g key, call_each-le cs (call c t) g key)

-- A distribution of a sender key that was taken is not taken again, and neither is one of the same
-- sender with the same or an earlier sequence, whatever keys were stored and deleted in between:
-- also after all keys of the group were deleted.
pub store_if_newer_once :
    (t u : Tables) (g key : Bytes) (content replay : KeyContent) (now later : ℕ) (cs : List KeyCall)
    → store_if_newer t g key content now ≡ some u
    → replay.sequence ≤ content.sequence
    → store_if_newer (call_each cs u) g key replay later ≡ none
unfolding store_if_newer
store_if_newer_once t u g key content replay now later cs taken old =
    let is = newer-cases t u g key content now taken in
    let raised : content.sequence ≤ get_distribution_sequence u g key =
      rw is (store-raises t g key content now) in
    let kept = call_each-le cs u g key in
    let refused : leb replay.sequence (get_distribution_sequence (call_each cs u) g key) ≡ true =
      le→leb _ _ (omega (arith, old, raised, kept)) in
    rw refused refl
