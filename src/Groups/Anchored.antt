-- ===== src/Groups/Anchored.antt =====
-- The authority of a group, in its row or retained, is the same after every call.
use network_self_md.Prelude.{
  ◌≡◌, refl, sym, ap, subst, ◌∙◌, true, false, ◌⊎◌, inl, inr, Option, none, some, List, Bytes,
  list_eq, list_eq→eq, list_eq_self, text_key, lookup, delete, lookup-insert, lookup-delete,
  Bool-cases, Option-cases, leb,
}
use network_self_md.Prelude.Results.{ok, require-passed, bind-passed, or_throw-passed}
use network_self_md.Bytes.{to_hex}
use network_self_md.GroupState.{Primitives, SignedGroupEpoch}
use network_self_md.Groups.{Authority, Tables, LocalIdentity}
use network_self_md.Groups.SenderKeyTable.{delete_keys_of_group}
use network_self_md.Groups.EpochTable.{version_of, get_latest_epoch, is_member_in_epoch, save_epoch}
use network_self_md.Groups.Membership.{
  find, find_retained_authority, authority_in, retain, leave, delete_incoming,
}
use network_self_md.Groups.Receive.{
  EpochOutcome, Fresh, or_retained, authority_of, check_genesis, check_next, receive_known,
  is_stored, sync_membership_to_epoch, settle, save_and_settle, receive_after, receive_epoch,
  has_removed, was_member,
}
use network_self_md.Groups.Frame.{sync_membership-Keeps, renew_local_key-Keeps}
use network_self_md.Groups.Linked.{save_epoch-cases}

-- The group's authority is known, and none other is retained.
abbrev pub IsAnchored : Authority → Bytes → Tables → Type 0
IsAnchored a g t =
    (authority_of t g ≡ some a)
    × ((find_retained_authority t g ≡ none) ⊎ (find_retained_authority t g ≡ some a))

lookup-retain_other :
    (g h : Bytes) (old known : Option Authority) (rows : List (Bytes × Authority))
    → list_eq g h ≡ false
    → lookup h (retain g old known rows) ≡ lookup h rows
lookup-retain_other g h none (some a) rows other = rw (lookup-insert g h a rows, other)
lookup-retain_other g h none none rows other = refl
lookup-retain_other g h (some b) known rows other = refl

lookup-retain_same :
    (g : Bytes) (a : Authority) (old known : Option Authority) (rows : List (Bytes × Authority))
    → lookup g rows ≡ old
    → or_retained known old ≡ some a
    → (old ≡ none) ⊎ (old ≡ some a)
    → list_eq g g ≡ true
    → lookup g (retain g old known rows) ≡ some a
lookup-retain_same g a none (some b) rows h k o e = rw (lookup-insert g g b rows, e, k)
lookup-retain_same g a none none rows h k o e = absurd (cc k)
lookup-retain_same g a (some b) known rows h k (inl o) e = absurd (cc o)
lookup-retain_same g a (some b) known rows h k (inr o) e = h ∙ o

leave-IsAnchored_self :
    (a : Authority) (g : Bytes) (t : Tables) → IsAnchored a g t → IsAnchored a g (leave t g)
unfolding leave
leave-IsAnchored_self a g t (known, retained) =
    let row = lookup-delete g g t.groups in
    let same = list_eq_self g in
    let kept =
      lookup-retain_same g a (find_retained_authority t g) (authority_in (find t g)) t.authorities
        refl known retained same in
    rw (row, same, kept) (refl, inr refl)

pub leave-IsAnchored :
    (a : Authority) (g h : Bytes) (t : Tables) → IsAnchored a h t → IsAnchored a h (leave t g)
unfolding leave
leave-IsAnchored a g h t (known, retained) = elim (Bool-cases (list_eq g h)) [
  | inr other ↦
      let row = lookup-delete g h t.groups in
      let kept =
        lookup-retain_other g h (find_retained_authority t g) (authority_in (find t g))
          t.authorities other in
      rw (row, other, kept) (known, retained)
  | inl same ↦ let e = list_eq→eq g h same in rw e (leave-IsAnchored_self a h t (known, retained))
]

-- What a call leaves of the groups and the authorities: all, or what leaving the group leaves.
abbrev pub Stays : Bytes → Tables → Tables → Type 0
Stays g t u =
    ((u.groups ≡ t.groups) × (u.authorities ≡ t.authorities))
    ⊎ ((u.groups ≡ (leave t g).groups) × (u.authorities ≡ (leave t g).authorities))

pub IsAnchored-same :
    (a : Authority) (h : Bytes) (t u : Tables)
    → u.groups ≡ t.groups
    → u.authorities ≡ t.authorities
    → IsAnchored a h t
    → IsAnchored a h u
IsAnchored-same a h t u groups authorities anchored = rw (groups, authorities) anchored

pub Stays-IsAnchored :
    (a : Authority) (g h : Bytes) (t u : Tables) → Stays g t u → IsAnchored a h t → IsAnchored a h u
Stays-IsAnchored a g h t u (inl (groups, authorities)) anchored =
    IsAnchored-same a h t u groups authorities anchored
Stays-IsAnchored a g h t u (inr (groups, authorities)) anchored =
    IsAnchored-same a h (leave t g) u groups authorities (leave-IsAnchored a g h t anchored)

settle-Stays :
    (self : LocalIdentity) (fresh : Fresh) (g : Bytes) (s : SignedGroupEpoch)
    (latest : Option SignedGroupEpoch) (t : Tables)
    → Stays g t (settle self fresh g s latest t).1
unfolding settle leave delete_keys_of_group delete_incoming
settle-Stays self fresh g s latest t =
    let synced = sync_membership-Keeps self g s t in
    elim (Bool-cases (is_member_in_epoch s self.public_key)) [
      | inl e ↦
          let renewed =
            renew_local_key-Keeps self fresh g s (has_removed latest s)
              (delete_incoming (sync_membership_to_epoch self g s t) g) in
          rw e (inl (renewed.groups ∙ synced.groups, renewed.authorities ∙ synced.authorities))
      | inr e ↦ elim (Bool-cases (was_member latest self.public_key)) [
        | inl e' ↦ rw (e, e', synced.groups, synced.authorities) (inr (refl, refl))
        | inr e' ↦ rw (e, e') (inl (synced.groups, synced.authorities))
      ]
    ]

Stays-same :
    (g : Bytes) (t w u : Tables)
    → w.groups ≡ t.groups
    → w.authorities ≡ t.authorities
    → Stays g w u
    → Stays g t u
unfolding leave
Stays-same g t w u groups authorities (inl (h, k)) = inl (h ∙ groups, k ∙ authorities)
Stays-same g t w u groups authorities (inr (h, k)) = inr (
  h ∙ (λ i. delete g (groups i)),
  k ∙ (λ i.
      retain g (lookup g (authorities i)) (authority_in (lookup g (groups i))) (authorities i)),
)

save_and_settle-Stays :
    (p : Primitives) (self : LocalIdentity) (fresh : Fresh) (g : Bytes) (s : SignedGroupEpoch)
    (latest : Option SignedGroupEpoch) (t u : Tables) (outcome : EpochOutcome)
    → save_and_settle p self fresh g s latest t ≡ ok (outcome, u)
    → Stays g t u
unfolding save_and_settle
save_and_settle-Stays p self fresh g s latest t u outcome h =
    let (saved, (is_saved, h1)) = bind-passed (save_epoch p s t) _ (outcome, u) h in
    let groups : saved.groups ≡ t.groups = elim (save_epoch-cases p s t saved is_saved) [
      | inl e ↦ ap (λ w. w.groups) e
      | inr e ↦ ap (λ w. w.groups) e
    ] in
    let authorities : saved.authorities ≡ t.authorities =
      elim (save_epoch-cases p s t saved is_saved) [
        | inl e ↦ ap (λ w. w.authorities) e
        | inr e ↦ ap (λ w. w.authorities) e
      ] in
    elim (Option-cases (find t g)) [
      | inl e ↦
          let same : saved ≡ u = let e' = rw e at h1 in cc e' in
          inl (
            ap (λ w. w.groups) (sym same) ∙ groups,
            ap (λ w. w.authorities) (sym same) ∙ authorities,
          )
      | inr (row, e) ↦
          let same : (settle self fresh g s latest saved).1 ≡ u = let e' = rw e at h1 in cc e' in
          subst (λ w. Stays g t w) same
            (Stays-same g t saved (settle self fresh g s latest saved).1 groups authorities
              (settle-Stays self fresh g s latest saved))
    ]

receive_known-Stays :
    (self : LocalIdentity) (g : Bytes) (s latest : SignedGroupEpoch) (row : Option SignedGroupEpoch)
    (peer : Bytes) (t u : Tables) (outcome : EpochOutcome)
    → receive_known self g s row latest peer t ≡ ok (outcome, u)
    → Stays g t u
unfolding delete_incoming
receive_known-Stays self g s latest row peer t u outcome h =
    let (sent, h1) = require-passed (is_member_in_epoch latest peer) _ _ (outcome, u) h in
    let (stored, h2) = require-passed (is_stored row s) _ _ (outcome, u) h1 in
    elim (Bool-cases (is_member_in_epoch latest self.public_key)) [
      | inl e ↦ let e' = rw e at h2 in inl (cc e', cc e')
      | inr e ↦ let e' = rw e at h2 in inl (cc e', cc e')
    ]

receive_after-Stays :
    (p : Primitives) (self : LocalIdentity) (fresh : Fresh) (g : Bytes) (a : Authority)
    (s : SignedGroupEpoch) (peer : Bytes) (latest : Option SignedGroupEpoch) (t u : Tables)
    (outcome : EpochOutcome)
    → receive_after p self fresh g a s peer latest t ≡ ok (outcome, u)
    → Stays g t u
unfolding receive_after
receive_after-Stays p self fresh g a s peer none t u outcome h =
    let (v, (checked, h1)) = bind-passed (check_genesis p a (to_hex g) s peer) _ (outcome, u) h in
    save_and_settle-Stays p self fresh g s none t u outcome h1
receive_after-Stays p self fresh g a s peer (some latest) t u outcome h =
    elim (Bool-cases (leb (version_of s) (version_of latest))) [
      | inl old ↦ receive_known-Stays self g s latest _ peer t u outcome (rw old at h)
      | inr new ↦
          let (v, (checked, h1)) =
            bind-passed (check_next p latest s peer) _ (outcome, u) (rw new at h) in
          save_and_settle-Stays p self fresh g s (some latest) t u outcome h1
    ]

pub receive_epoch-Stays :
    (p : Primitives) (self : LocalIdentity) (fresh : Fresh) (g : Bytes) (s : SignedGroupEpoch)
    (peer : Bytes) (t u : Tables) (outcome : EpochOutcome)
    → receive_epoch p self fresh g s peer t ≡ ok (outcome, u)
    → Stays g t u
unfolding receive_epoch
receive_epoch-Stays p self fresh g s peer t u outcome h =
    let (a, (known, h1)) = or_throw-passed (authority_of t g) _ _ (outcome, u) h in
    receive_after-Stays p self fresh g a s peer (get_latest_epoch t (to_hex g)) t u outcome h1
