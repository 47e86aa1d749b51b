-- ===== src/Groups/Roster.antt =====
-- The members and sender keys of a group once `syncMembershipToEpoch` has run.
use network_self_md.Prelude.{
  ◌≡◌, ◌≢◌, refl, sym, ap, ◌∙◌, Bool, true, false, ◌||◌, not, Option, none, some, List, [], ◌∷◌,
  Bytes, list_eq, list_eq_self, list_eq→eq, any, lookup, lookup-insert, lookup-delete, Bool-cases,
  Option-cases, if◌then◌else◌, inl, inr,
}
use network_self_md.GroupState.{Role, GroupMemberEntry, SignedGroupEpoch}
use network_self_md.Groups.{Tables, LocalIdentity, pair_key, pair_eq}
use network_self_md.Groups.SenderKeyTable.{delete_key}
use network_self_md.Groups.EpochTable.{is_member_in_epoch}
use network_self_md.Groups.Membership.{add_member, remove_member, get_members}
use network_self_md.Groups.Receive.{remove_absent, add_members, sync_membership_to_epoch}
use network_self_md.Groups.Lookups.{keys_of, keys_of-lookup}

-- The role that an epoch gives a key; an epoch that verifies lists no key twice.
abbrev pub role_or : Option Role → Option Role → Option Role
role_or none r = r
role_or (some r) old = some r

abbrev pub role_in : List GroupMemberEntry → Bytes → Option Role
role_in [] key = none
role_in (m ∷ ms) key =
    role_or (role_in ms key) (if list_eq m.public_key key then some m.role else none)

abbrev member_row : Tables → Bytes → Bytes → Option Role
member_row t g key = lookup (g, key) t.members

role_or-later :
    (a : Option Role) (b : Bool) (r : Role) (old : Option Role)
    → role_or a (if b then some r else old) ≡ role_or (role_or a (if b then some r else none)) old
role_or-later (some x) b r old = refl
role_or-later none true r old = refl
role_or-later none false r old = refl

pair_eq-key : (g a b : Bytes) → pair_eq (g, a) (g, b) ≡ list_eq a b
pair_eq-key g a b = let same = list_eq_self g in rw same refl

add_members-member_row :
    (g : Bytes) (ms : List GroupMemberEntry) (t : Tables) (key : Bytes)
    → member_row (add_members g ms t) g key ≡ role_or (role_in ms key) (member_row t g key)
unfolding add_members add_member
add_members-member_row g [] t key = refl
add_members-member_row g (m ∷ ms) t key =
    let rest = add_members-member_row g ms (add_member t g m.public_key m.role) key in
    let at = lookup-insert (g, m.public_key) (g, key) m.role t.members in
    rest
    ∙ ap (role_or (role_in ms key)) at
    ∙ rw (pair_eq-key g m.public_key key)
        (role_or-later (role_in ms key) (list_eq m.public_key key) m.role (member_row t g key))

-- Keys that the first loop passes over.
abbrev pub is_kept : LocalIdentity → SignedGroupEpoch → Bytes → Bool
is_kept self s key = list_eq key self.public_key || is_member_in_epoch s key

is_kept-apart :
    (self : LocalIdentity) (s : SignedGroupEpoch) (k key : Bytes) (b : Bool)
    → is_kept self s k ≡ b
    → is_kept self s key ≡ not b
    → list_eq k key ≡ false
is_kept-apart self s k key b h h' = elim (Bool-cases (list_eq k key)) [
  | inl same ↦
      let e = list_eq→eq k key same in absurd (differ b (sym h ∙ ap (is_kept self s) e ∙ h'))
  | inr other ↦ other
]
  where
    differ : (c : Bool) → ¬ (c ≡ not c)
    differ true e = cc e
    differ false e = cc e

remove_absent-kept :
    (self : LocalIdentity) (g : Bytes) (s : SignedGroupEpoch) (keys : List Bytes) (t : Tables)
    (key : Bytes)
    → is_kept self s key ≡ true
    → member_row (remove_absent self g s keys t) g key ≡ member_row t g key
unfolding remove_absent remove_member delete_key
remove_absent-kept self g s [] t key h = refl
remove_absent-kept self g s (k ∷ keys) t key h = elim (Bool-cases (is_kept self s k)) [
  | inl stays ↦ rw (remove_absent, stays) (remove_absent-kept self g s keys t key h)
  | inr goes ↦
      let next = delete_key (remove_member t g k) g k in
      let at = lookup-delete (g, k) (g, key) t.members in
      let apart = is_kept-apart self s k key false goes h in
      rw (remove_absent, goes)
        (remove_absent-kept self g s keys next key h ∙ at ∙ rw (pair_eq-key g k key, apart) refl)
]

gone-step :
    (a b : Bool) (r : Option Role)
    → (if b then none else if a then none else r) ≡ (if (if a then true else b) then none else r)
gone-step true true r = refl
gone-step true false r = refl
gone-step false b r = refl

-- A key that it does not pass over has no row where it had none, or is among the keys.
remove_absent-gone :
    (self : LocalIdentity) (g : Bytes) (s : SignedGroupEpoch) (keys : List Bytes) (t : Tables)
    (key : Bytes)
    → is_kept self s key ≡ false
    → member_row (remove_absent self g s keys t) g key
      ≡ (if any (λ k. list_eq k key) keys then none else member_row t g key)
unfolding remove_absent remove_member delete_key
remove_absent-gone self g s [] t key h = refl
remove_absent-gone self g s (k ∷ keys) t key h = elim (Bool-cases (is_kept self s k)) [
  | inl stays ↦
      let apart = is_kept-apart self s k key true stays h in
      rw (remove_absent, stays, apart) (remove_absent-gone self g s keys t key h)
  | inr goes ↦
      let next = delete_key (remove_member t g k) g k in
      let at = lookup-delete (g, k) (g, key) t.members in
      rw (remove_absent, goes)
        (remove_absent-gone self g s keys next key h
          ∙ ap (λ r. if any (λ j. list_eq j key) keys then none else r) at
          ∙ rw (pair_eq-key g k key)
              (gone-step (list_eq k key) (any (λ j. list_eq j key) keys) (member_row t g key)))
]

role_in-member :
    (ms : List GroupMemberEntry) (key : Bytes)
    → any (λ m. list_eq m.public_key key) ms ≡ true
    → (r : Role) × (role_in ms key ≡ some r)
role_in-member [] key h = absurd (cc h)
role_in-member (m ∷ ms) key h = elim (Option-cases (role_in ms key)) [
  | inr (r, e) ↦ (r, rw e refl)
  | inl e ↦ elim (Bool-cases (list_eq m.public_key key)) [
    | inl same ↦ (m.role, rw (e, same) refl)
    | inr other ↦ let (r, e') = role_in-member ms key (rw other at h) in absurd (cc (e, e'))
  ]
]

role_in-absent :
    (ms : List GroupMemberEntry) (key : Bytes)
    → any (λ m. list_eq m.public_key key) ms ≡ false
    → role_in ms key ≡ none
role_in-absent [] key h = refl
role_in-absent (m ∷ ms) key h = elim (Bool-cases (list_eq m.public_key key)) [
  | inl same ↦ absurd (let h' = rw same at h in cc h')
  | inr other ↦ let e = role_in-absent ms key (rw other at h) in rw (e, other) refl
]

absent-gone :
    (self : LocalIdentity) (g : Bytes) (s : SignedGroupEpoch) (t : Tables) (key : Bytes)
    → is_kept self s key ≡ false
    → member_row (remove_absent self g s (get_members t g) t) g key ≡ none
unfolding get_members
absent-gone self g s t key h =
    remove_absent-gone self g s (keys_of g t.members) t key h
    ∙ elim (Option-cases (member_row t g key)) [
      | inl e ↦ elim (Bool-cases (any (λ k. list_eq k key) (keys_of g t.members))) [
        | inl listed ↦ rw listed refl
        | inr unlisted ↦ rw (unlisted, e) refl
      ]
      | inr (r, e) ↦ rw (keys_of-lookup g key r t.members e) refl
    ]

-- Once a group's members are brought in line with an epoch, every key but the node's own stands
-- among them exactly where the epoch lists it, with the role that the epoch gives it.
pub sync_membership-roles :
    (self : LocalIdentity) (g : Bytes) (s : SignedGroupEpoch) (t : Tables) (key : Bytes)
    → key ≢ self.public_key
    → lookup (g, key) (sync_membership_to_epoch self g s t).members ≡ role_in s.epoch.members key
unfolding sync_membership_to_epoch
sync_membership-roles self g s t key other =
    let removed = remove_absent self g s (get_members t g) t in
    let not_self : list_eq key self.public_key ≡ false =
      elim (Bool-cases (list_eq key self.public_key)) [
        | inl same ↦ absurd (other (list_eq→eq _ _ same))
        | inr e ↦ e
      ] in
    add_members-member_row g s.epoch.members removed key
    ∙ elim (Bool-cases (is_member_in_epoch s key)) [
      | inl listed ↦ let (r, e) = role_in-member s.epoch.members key listed in rw e refl
      | inr absent ↦
          rw
            (
              role_in-absent s.epoch.members key absent,
              absent-gone self g s t key (rw (not_self, absent) refl),
            )
            refl
    ]
