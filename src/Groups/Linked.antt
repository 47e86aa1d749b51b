-- ===== src/Groups/Linked.antt =====
-- How a delivered epoch extends the chain of its group in the table.
use network_self_md.Prelude.{
  ◌≡◌, ap, ◌∙◌, ◌⊎◌, inl, inr, Option, none, some, ◌∷◌, Bytes, leb, Bool-cases, Option-cases,
}
use network_self_md.Prelude.Results.{ok, require-passed, bind-passed}
use network_self_md.Bytes.{to_hex}
use network_self_md.GroupState.{Primitives, SignedGroupEpoch, serialize_epoch, is_index, max_safe}
use network_self_md.Groups.{Authority, Tables, LocalIdentity}
use network_self_md.Groups.SenderKeyTable.{delete_keys_of_group}
use network_self_md.Groups.EpochTable.{
  version_of, newest, epochs_of, get_latest_epoch, get_epoch_by_version, save_epoch, keep_row,
  lift_epoch, is_same_epoch, is_member_in_epoch,
}
use network_self_md.Groups.Membership.{find, leave, delete_incoming}
use network_self_md.Groups.Receive.{
  EpochOutcome, Fresh, authority_of, check_genesis, check_next, receive_known, is_stored,
  sync_membership_to_epoch, settle, save_and_settle, receive_after, receive_epoch, has_removed,
  was_member,
}
use network_self_md.Groups.Chain.{IsNext, check_next-IsSuccessor, check_genesis-IsAnchor}
use network_self_md.Groups.Frame.{sync_membership-Keeps, renew_local_key-Keeps}

-- A saved epoch is the newest row, or was one already.
pub save_epoch-cases :
    (p : Primitives) (s : SignedGroupEpoch) (t u : Tables)
    → save_epoch p s t ≡ ok u
    → (u ≡ t) ⊎ (u ≡ record t { epochs = s ∷ t.epochs })
unfolding save_epoch
save_epoch-cases p s t u h =
    let (encoded, (serialized, h1)) = bind-passed (lift_epoch (serialize_epoch p s.epoch)) _ u h in
    let (created, h2) = require-passed (is_index max_safe s.epoch.created_at) _ _ u h1 in
    kept (get_epoch_by_version t s.epoch.group_id (version_of s)) encoded h2
  where
    kept :
        (o : Option SignedGroupEpoch) (encoded : Bytes)
        → keep_row p t s encoded o ≡ ok u
        → (u ≡ t) ⊎ (u ≡ record t { epochs = s ∷ t.epochs })
    kept none encoded k = inr (cc k)
    kept (some row) encoded k =
        let (same, k1) = require-passed (is_same_epoch p row s encoded) _ (ok t) u k in inl (cc k1)

pub settle-epochs :
    (self : LocalIdentity) (fresh : Fresh) (g : Bytes) (s : SignedGroupEpoch)
    (latest : Option SignedGroupEpoch) (t : Tables)
    → (settle self fresh g s latest t).1.epochs ≡ t.epochs
unfolding settle leave delete_keys_of_group delete_incoming
settle-epochs self fresh g s latest t =
    let synced = sync_membership-Keeps self g s t in
    elim (Bool-cases (is_member_in_epoch s self.public_key)) [
      | inl e ↦ rw e (
          (renew_local_key-Keeps self fresh g s (has_removed latest s)
            (delete_incoming (sync_membership_to_epoch self g s t) g)).epochs
          ∙ synced.epochs)
      | inr e ↦ elim (Bool-cases (was_member latest self.public_key)) [
        | inl e' ↦ rw (e, e') synced.epochs
        | inr e' ↦ rw (e, e') synced.epochs
      ]
    ]

-- A call that succeeds has saved the epoch, and adds no other row.
pub save_and_settle-saved :
    (p : Primitives) (self : LocalIdentity) (fresh : Fresh) (g : Bytes) (s : SignedGroupEpoch)
    (latest : Option SignedGroupEpoch) (t u : Tables) (outcome : EpochOutcome)
    → save_and_settle p self fresh g s latest t ≡ ok (outcome, u)
    → (saved : Tables) × ((save_epoch p s t ≡ ok saved) × (u.epochs ≡ saved.epochs))
unfolding save_and_settle
save_and_settle-saved p self fresh g s latest t u outcome h =
    let (saved, (is_saved, h1)) = bind-passed (save_epoch p s t) _ (outcome, u) h in
    (
      saved,
      (
        is_saved,
        elim (Option-cases (find t g)) [
          | inl e ↦ let e' = rw e at h1 in cc e'
          | inr (row, e) ↦ let e' = rw e at h1 in cc (e', settle-epochs self fresh g s latest saved)
        ],
      ),
    )

-- Of a call that succeeds: no row is added, or the epoch is, as the newest.
save_and_settle-epochs :
    (p : Primitives) (self : LocalIdentity) (fresh : Fresh) (g : Bytes) (s : SignedGroupEpoch)
    (latest : Option SignedGroupEpoch) (t u : Tables) (outcome : EpochOutcome)
    → save_and_settle p self fresh g s latest t ≡ ok (outcome, u)
    → (u.epochs ≡ t.epochs) ⊎ (u.epochs ≡ s ∷ t.epochs)
save_and_settle-epochs p self fresh g s latest t u outcome h =
    let (saved, (is_saved, same)) = save_and_settle-saved p self fresh g s latest t u outcome h in
    elim (save_epoch-cases p s t saved is_saved) [
      | inl e ↦ inl (same ∙ ap (λ w. w.epochs) e)
      | inr e ↦ inr (same ∙ ap (λ w. w.epochs) e)
    ]

pub receive_known-epochs :
    (self : LocalIdentity) (g : Bytes) (s latest : SignedGroupEpoch) (row : Option SignedGroupEpoch)
    (peer : Bytes) (t u : Tables) (outcome : EpochOutcome)
    → receive_known self g s row latest peer t ≡ ok (outcome, u)
    → u.epochs ≡ t.epochs
unfolding delete_incoming
receive_known-epochs self g s latest row peer t u outcome h =
    let (sent, h1) = require-passed (is_member_in_epoch latest peer) _ _ (outcome, u) h in
    let (stored, h2) = require-passed (is_stored row s) _ _ (outcome, u) h1 in
    elim (Bool-cases (is_member_in_epoch latest self.public_key)) [
      | inl e ↦ let e' = rw e at h2 in cc e'
      | inr e ↦ let e' = rw e at h2 in cc e'
    ]

-- A delivered epoch that is taken in the group of an authority leaves the rows as they were, or is
-- the next one of that group and becomes the newest row.
pub receive_epoch-IsNext :
    (p : Primitives) (self : LocalIdentity) (fresh : Fresh) (g : Bytes) (a : Authority)
    (s : SignedGroupEpoch) (peer : Bytes) (t u : Tables) (outcome : EpochOutcome)
    → authority_of t g ≡ some a
    → receive_epoch p self fresh g s peer t ≡ ok (outcome, u)
    → (u.epochs ≡ t.epochs)
      ⊎ ((u.epochs ≡ s ∷ t.epochs)
          × IsNext p a (to_hex g) (newest (epochs_of (to_hex g) t.epochs)) s)
unfolding receive_epoch receive_after get_latest_epoch
receive_epoch-IsNext p self fresh g a s peer t u outcome known h =
    after (newest (epochs_of (to_hex g) t.epochs)) (rw known at h)
  where
    saved :
        (latest : Option SignedGroupEpoch)
        → IsNext p a (to_hex g) latest s
        → save_and_settle p self fresh g s latest t ≡ ok (outcome, u)
        → (u.epochs ≡ t.epochs) ⊎ ((u.epochs ≡ s ∷ t.epochs) × IsNext p a (to_hex g) latest s)
    saved latest next k = elim (save_and_settle-epochs p self fresh g s latest t u outcome k) [
      | inl same ↦ inl same
      | inr added ↦ inr (added, next)
    ]

    after :
        (latest : Option SignedGroupEpoch)
        → receive_after p self fresh g a s peer latest t ≡ ok (outcome, u)
        → (u.epochs ≡ t.epochs) ⊎ ((u.epochs ≡ s ∷ t.epochs) × IsNext p a (to_hex g) latest s)
    after none k =
        let (v, (checked, k1)) =
          bind-passed (check_genesis p a (to_hex g) s peer) _ (outcome, u) k in
        saved none (check_genesis-IsAnchor p a (to_hex g) s peer checked) k1
    after (some latest) k = elim (Bool-cases (leb (version_of s) (version_of latest))) [
      | inl old ↦ inl (receive_known-epochs self g s latest _ peer t u outcome (rw old at k))
      | inr new ↦
          let (v, (checked, k1)) =
            bind-passed (check_next p latest s peer) _ (outcome, u) (rw new at k) in
          saved (some latest) (check_next-IsSuccessor p latest s peer checked) k1
    ]
