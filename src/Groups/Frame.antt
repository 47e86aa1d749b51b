-- ===== src/Groups/Frame.antt =====
-- What the steps of a delivery keep of the groups, the authorities and the epochs.
use network_self_md.Prelude.{
  ◌≡◌, refl, ◌∙◌, Bool, true, false, ◌||◌, inl, inr, List, [], ◌∷◌, Bytes, list_eq, Bool-cases,
  Option-cases,
}
use network_self_md.GroupState.{GroupMemberEntry, SignedGroupEpoch}
use network_self_md.Groups.{Tables, LocalIdentity}
use network_self_md.Groups.SenderKeyTable.{load, store, delete_key, delete_keys_of_group}
use network_self_md.Groups.EpochTable.{is_member_in_epoch}
use network_self_md.Groups.Membership.{add_member, remove_member, get_members}
use network_self_md.Groups.Receive.{
  Fresh, remove_absent, add_members, sync_membership_to_epoch, renew_local_key, kept_key,
}

-- What the tables keep of groups, authorities and epochs.
pub record Keeps (t u : Tables) : Type 0 where
  pub groups : u.groups ≡ t.groups
  pub authorities : u.authorities ≡ t.authorities
  pub epochs : u.epochs ≡ t.epochs

Keeps-trans : (t u w : Tables) → Keeps t u → Keeps u w → Keeps t w
Keeps-trans t u w h k = record {
  groups = k.groups ∙ h.groups;
  authorities = k.authorities ∙ h.authorities;
  epochs = k.epochs ∙ h.epochs;
}

remove_absent-Keeps :
    (self : LocalIdentity) (g : Bytes) (s : SignedGroupEpoch) (keys : List Bytes) (t : Tables)
    → Keeps t (remove_absent self g s keys t)
unfolding remove_absent remove_member delete_key
remove_absent-Keeps self g s [] t = record { groups = refl; authorities = refl; epochs = refl }
remove_absent-Keeps self g s (key ∷ keys) t =
    elim (Bool-cases (list_eq key self.public_key || is_member_in_epoch s key)) [
      | inl e ↦ rw e (remove_absent-Keeps self g s keys t)
      | inr e ↦
          let rest = remove_absent-Keeps self g s keys (delete_key (remove_member t g key) g key) in
          rw e
            (record { groups = rest.groups; authorities = rest.authorities; epochs = rest.epochs })
    ]

add_members-Keeps :
    (g : Bytes) (ms : List GroupMemberEntry) (t : Tables) → Keeps t (add_members g ms t)
unfolding add_members add_member
add_members-Keeps g [] t = record { groups = refl; authorities = refl; epochs = refl }
add_members-Keeps g (m ∷ ms) t =
    let rest = add_members-Keeps g ms (add_member t g m.public_key m.role) in
    record { groups = rest.groups; authorities = rest.authorities; epochs = rest.epochs }

pub sync_membership-Keeps :
    (self : LocalIdentity) (g : Bytes) (s : SignedGroupEpoch) (t : Tables)
    → Keeps t (sync_membership_to_epoch self g s t)
unfolding sync_membership_to_epoch
sync_membership-Keeps self g s t =
    Keeps-trans t _ _ (remove_absent-Keeps self g s (get_members t g) t)
      (add_members-Keeps g s.epoch.members (remove_absent self g s (get_members t g) t))

pub renew_local_key-Keeps :
    (self : LocalIdentity) (fresh : Fresh) (g : Bytes) (s : SignedGroupEpoch) (removed : Bool)
    (t : Tables)
    → Keeps t (renew_local_key self fresh g s removed t)
unfolding renew_local_key store delete_keys_of_group
renew_local_key-Keeps self fresh g s true t = record {
  groups = refl;
  authorities = refl;
  epochs = refl;
}
renew_local_key-Keeps self fresh g s false t =
    elim (Option-cases (kept_key (load t g self.public_key))) [
      | inl e ↦ rw e (record { groups = refl; authorities = refl; epochs = refl })
      | inr (row, e) ↦ rw e (record { groups = refl; authorities = refl; epochs = refl })
    ]
