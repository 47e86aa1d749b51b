-- ===== src/Groups/Revocation.antt =====
-- When a member is removed: the sender keys that a node held are gone, and its own is a new one.
use network_self_md.Prelude.{
  ◌<◌, ◌≡◌, ◌≢◌, refl, sym, ap, ◌∙◌, subst, true, false, not, none, some, Bytes, list_eq,
  list_eq_self, filter, gt→leb, lookup, lookup-insert, Bool-cases, inl, inr,
}
use network_self_md.Prelude.Results.{Result, ok, err, bind-passed, or_throw-passed}
use network_self_md.Bytes.{to_hex}
use network_self_md.GroupState.{Primitives, SignedGroupEpoch}
use network_self_md.Groups.{
  StoredGroup, StoredSenderKey, Tables, LocalIdentity, GroupError, pair_key, pair_eq, pair_eq_iff,
}
use network_self_md.Groups.SenderKeyTable.{load, store, raise, created_at_of, delete_keys_of_group}
use network_self_md.Groups.EpochTable.{version_of, get_latest_epoch, is_member_in_epoch, save_epoch}
use network_self_md.Groups.Membership.{find, delete_incoming}
use network_self_md.Groups.Receive.{
  EpochOutcome, Fresh, authority_of, check_next, sync_membership_to_epoch, renew_local_key, settle,
  save_and_settle, receive_after, receive_epoch, has_removed, sequence_of,
}
use network_self_md.Groups.Lookups.{lookup-without}

-- The one key of the group is the node's own, of the new generation and bound to the epoch.
pub record IsRekeyed (self : LocalIdentity) (fresh : Fresh) (g : Bytes) (s : SignedGroupEpoch)
    (t : Tables) : Type 0 where
  pub row : StoredSenderKey
  pub own : load t g self.public_key ≡ some row
  pub chain_key : row.chain_key ≡ fresh.chain_key
  pub chain_index : row.chain_index ≡ 0
  pub generation : row.generation_id ≡ some fresh.generation_id
  pub epoch_version : row.epoch_version ≡ version_of s
  pub epoch_hash : row.epoch_hash ≡ some s.hash
  pub others : (key : Bytes) → key ≢ self.public_key → load t g key ≡ none

renew_local_key-IsRekeyed :
    (self : LocalIdentity) (fresh : Fresh) (g : Bytes) (s : SignedGroupEpoch) (t : Tables)
    → IsRekeyed self fresh g s (renew_local_key self fresh g s true t)
unfolding renew_local_key store delete_keys_of_group
renew_local_key-IsRekeyed self fresh g s t =
    let rows = filter (λ row. not (list_eq row.0.0 g)) t.sender_keys in
    let row : StoredSenderKey = record {
      chain_key = fresh.chain_key;
      chain_index = 0;
      generation_id = some fresh.generation_id;
      distribution_sequence =
          raise (lookup (g, self.public_key) t.sequences) (sequence_of (load t g self.public_key));
      epoch_version = version_of s;
      epoch_hash = some s.hash;
      generation_created_at =
          created_at_of (lookup (g, self.public_key) rows) fresh.generation_id fresh.now;
    } in
    let same = (pair_eq_iff (g, self.public_key) (g, self.public_key)).1 refl in
    let self_group = list_eq_self g in
    record {
      row = row;
      own = lookup-insert (g, self.public_key) (g, self.public_key) row rows ∙ rw same refl;
      chain_key = refl;
      chain_index = refl;
      generation = refl;
      epoch_version = refl;
      epoch_hash = refl;
      others = λ key other.
          let apart : pair_eq (g, self.public_key) (g, key) ≡ false =
            elim (Bool-cases (pair_eq (g, self.public_key) (g, key))) [
              | inl e ↦ absurd (other (sym (ap (λ k. k.1) ((pair_eq_iff _ _).0 e))))
              | inr e ↦ e
            ] in
          lookup-insert (g, self.public_key) (g, key) row rows
          ∙ rw (apart, lookup-without g g key t.sender_keys, self_group) refl;
    }

settle-IsRekeyed :
    (self : LocalIdentity) (fresh : Fresh) (g : Bytes) (s latest : SignedGroupEpoch) (t : Tables)
    → is_member_in_epoch s self.public_key ≡ true
    → has_removed (some latest) s ≡ true
    → IsRekeyed self fresh g s (settle self fresh g s (some latest) t).1
unfolding settle
settle-IsRekeyed self fresh g s latest t is_member removed =
    rw (settle, is_member, removed)
      (renew_local_key-IsRekeyed self fresh g s
        (delete_incoming (sync_membership_to_epoch self g s t) g))

abbrev pub tables_after : Tables → Result GroupError (EpochOutcome × Tables) → Tables
tables_after t (ok (outcome, u)) = u
tables_after t (err e) = t

-- A node is in a group, and a peer delivers a next epoch that lists the node, and lists some member
-- of the latest epoch no more. Where the node takes it, it holds one sender key of the group: its
-- own, from the new random bytes, at the start of its chain and bound to the epoch. It holds none of
-- any other member, so that it reads nothing before it is given new ones.
pub receive_epoch-IsRekeyed :
    (p : Primitives) (self : LocalIdentity) (fresh : Fresh) (g : Bytes)
    (s latest : SignedGroupEpoch) (peer : Bytes) (group : StoredGroup) (t u : Tables)
    (outcome : EpochOutcome)
    → find t g ≡ some group
    → get_latest_epoch t (to_hex g) ≡ some latest
    → version_of latest < version_of s
    → is_member_in_epoch s self.public_key ≡ true
    → has_removed (some latest) s ≡ true
    → receive_epoch p self fresh g s peer t ≡ ok (outcome, u)
    → IsRekeyed self fresh g s u
unfolding receive_epoch receive_after save_and_settle
receive_epoch-IsRekeyed p self fresh g s latest peer group t u outcome joined is_latest new listed
      removed h =
    let (a, (known, h1)) = or_throw-passed (authority_of t g) _ _ (outcome, u) h in
    let not_old = gt→leb (version_of s) (version_of latest) new in
    let h2 = rw (is_latest, receive_after, not_old) at h1 in
    let (v, (checked, h3)) = bind-passed (check_next p latest s peer) _ (outcome, u) h2 in
    let (saved, (is_saved, h4)) = bind-passed (save_epoch p s t) _ (outcome, u) h3 in
    let h5 = rw joined at h4 in
    let is : (settle self fresh g s (some latest) saved).1 ≡ u =
      ap (tables_after (settle self fresh g s (some latest) saved).1) h5 in
    subst (λ w. IsRekeyed self fresh g s w) is
      (settle-IsRekeyed self fresh g s latest saved listed removed)
