-- ===== src/Groups/Immutable.antt =====
-- An epoch that is stored stays: no call replaces or removes it.
use network_self_md.Prelude.{
  ℕ, ◌≡◌, refl, ap, ◌∙◌, subst, inl, inr, Option, none, some, List, [], ◌∷◌, Bytes, Text, list_eq,
  list_eq→eq, leb, ◌==◌, ==_iff, Bool-cases,
}
use network_self_md.Prelude.Results.{ok, require-passed, bind-passed, or_throw-passed}
use network_self_md.Value.{Value}
use network_self_md.Bytes.{to_hex}
use network_self_md.GroupState.{Primitives, SignedGroupEpoch, serialize_epoch, is_index, max_safe}
use network_self_md.Replay.{ReplayLimits}
use network_self_md.Groups.{Authority, Tables, LocalIdentity}
use network_self_md.Groups.SenderKeyTable.{delete_keys_of_group}
use network_self_md.Groups.EpochTable.{
  version_of, find_version, epochs_of, get_latest_epoch, get_epoch_by_version, save_epoch, keep_row,
  is_same_epoch, lift_epoch,
}
use network_self_md.Groups.Membership.{leave}
use network_self_md.Groups.Receive.{
  EpochOutcome, Fresh, authority_of, check_genesis, check_next, save_and_settle, receive_after,
  receive_epoch,
}
use network_self_md.Groups.Handle.{Manager, leave_group, GroupCall, deliver, leaving, handle_each}
use network_self_md.Groups.Linked.{save_and_settle-saved, receive_known-epochs}
use network_self_md.Groups.Deliveries.{handle_group_epoch-Ran}

-- The row of a group and a version.
abbrev pub row_at : Text → ℕ → List SignedGroupEpoch → Option SignedGroupEpoch
row_at g v rows = find_version v (epochs_of g rows)

row_at-added :
    (g : Text) (v : ℕ) (s r : SignedGroupEpoch) (rows : List SignedGroupEpoch)
    → row_at s.epoch.group_id (version_of s) rows ≡ none
    → row_at g v rows ≡ some r
    → row_at g v (s ∷ rows) ≡ some r
row_at-added g v s r rows free h = elim (Bool-cases (list_eq s.epoch.group_id g)) [
  | inr other ↦ rw other h
  | inl same ↦ elim (Bool-cases (version_of s == v)) [
    | inr older ↦ rw (same, older) h
    | inl now ↦
        let group = list_eq→eq _ _ same in
        let version = (==_iff _ _).0 now in
        absurd (
          cc (
            h,
            free,
            group,
            version,
            ap (λ k. row_at k v rows) group,
            ap (λ w. row_at s.epoch.group_id w rows) version,
          ))
  ]
]

save_epoch-keeps :
    (p : Primitives) (s : SignedGroupEpoch) (t u : Tables) (g : Text) (v : ℕ) (r : SignedGroupEpoch)
    → save_epoch p s t ≡ ok u
    → row_at g v t.epochs ≡ some r
    → row_at g v u.epochs ≡ some r
unfolding save_epoch get_epoch_by_version
save_epoch-keeps p s t u g v r h stored =
    let (encoded, (serialized, h1)) = bind-passed (lift_epoch (serialize_epoch p s.epoch)) _ u h in
    let (created, h2) = require-passed (is_index max_safe s.epoch.created_at) _ _ u h1 in
    kept (row_at s.epoch.group_id (version_of s) t.epochs) encoded refl h2
  where
    kept :
        (o : Option SignedGroupEpoch) (encoded : Bytes)
        → row_at s.epoch.group_id (version_of s) t.epochs ≡ o
        → keep_row p t s encoded o ≡ ok u
        → row_at g v u.epochs ≡ some r
    kept none encoded free k =
        let is : record t { epochs = s ∷ t.epochs } ≡ u = cc k in
        subst (λ w. row_at g v w.epochs ≡ some r) is (row_at-added g v s r t.epochs free stored)
    kept (some row) encoded there k =
        let (same, k1) = require-passed (is_same_epoch p row s encoded) _ (ok t) u k in
        let is : t ≡ u = cc k1 in subst (λ w. row_at g v w.epochs ≡ some r) is stored

save_and_settle-keeps :
    (p : Primitives) (self : LocalIdentity) (fresh : Fresh) (k : Bytes) (s : SignedGroupEpoch)
    (latest : Option SignedGroupEpoch) (t u : Tables) (outcome : EpochOutcome) (g : Text) (v : ℕ)
    (r : SignedGroupEpoch)
    → save_and_settle p self fresh k s latest t ≡ ok (outcome, u)
    → row_at g v t.epochs ≡ some r
    → row_at g v u.epochs ≡ some r
save_and_settle-keeps p self fresh k s latest t u outcome g v r h stored =
    let (saved, (is_saved, same)) = save_and_settle-saved p self fresh k s latest t u outcome h in
    ap (row_at g v) same ∙ save_epoch-keeps p s t saved g v r is_saved stored

receive_after-keeps :
    (p : Primitives) (self : LocalIdentity) (fresh : Fresh) (k : Bytes) (a : Authority)
    (s : SignedGroupEpoch) (peer : Bytes) (latest : Option SignedGroupEpoch) (t u : Tables)
    (outcome : EpochOutcome) (g : Text) (v : ℕ) (r : SignedGroupEpoch)
    → receive_after p self fresh k a s peer latest t ≡ ok (outcome, u)
    → row_at g v t.epochs ≡ some r
    → row_at g v u.epochs ≡ some r
unfolding receive_after
receive_after-keeps p self fresh k a s peer none t u outcome g v r h stored =
    let (w, (checked, h1)) = bind-passed (check_genesis p a (to_hex k) s peer) _ (outcome, u) h in
    save_and_settle-keeps p self fresh k s none t u outcome g v r h1 stored
receive_after-keeps p self fresh k a s peer (some latest) t u outcome g v r h stored =
    elim (Bool-cases (leb (version_of s) (version_of latest))) [
      | inl old ↦
          ap (row_at g v) (receive_known-epochs self k s latest _ peer t u outcome (rw old at h))
          ∙ stored
      | inr new ↦
          let (w, (checked, h1)) =
            bind-passed (check_next p latest s peer) _ (outcome, u) (rw new at h) in
          save_and_settle-keeps p self fresh k s (some latest) t u outcome g v r h1 stored
    ]

receive_epoch-keeps :
    (p : Primitives) (self : LocalIdentity) (fresh : Fresh) (k : Bytes) (s : SignedGroupEpoch)
    (peer : Bytes) (t u : Tables) (outcome : EpochOutcome) (g : Text) (v : ℕ) (r : SignedGroupEpoch)
    → receive_epoch p self fresh k s peer t ≡ ok (outcome, u)
    → row_at g v t.epochs ≡ some r
    → row_at g v u.epochs ≡ some r
unfolding receive_epoch
receive_epoch-keeps p self fresh k s peer t u outcome g v r h stored =
    let (a, (known, h1)) = or_throw-passed (authority_of t k) _ _ (outcome, u) h in
    receive_after-keeps p self fresh k a s peer (get_latest_epoch t (to_hex k)) t u outcome g v r h1
      stored

-- Whatever epochs peers deliver, and whatever groups are left: an epoch that is stored for a group
-- and a version is the one that is found there ever after. No other epoch of that version takes its
-- place, and none is lost.
pub handle_each-keeps_epoch :
    (p : Primitives) (decode : Bytes → Option Value) (limits : ReplayLimits) (self : LocalIdentity)
    (calls : List GroupCall) (m : Manager) (g : Text) (v : ℕ) (r : SignedGroupEpoch)
    → get_epoch_by_version m.tables g v ≡ some r
    → get_epoch_by_version (handle_each p decode limits self calls m).tables g v ≡ some r
unfolding get_epoch_by_version handle_each leave_group leave delete_keys_of_group
handle_each-keeps_epoch p decode limits self [] m g v r h = h
handle_each-keeps_epoch p decode limits self (deliver peers session d fresh ∷ calls) m g v r h =
    handle_each-keeps_epoch p decode limits self calls _ g v r
      (elim (handle_group_epoch-Ran p decode limits self peers session d fresh m) [
        | inl same ↦ ap (λ t. row_at g v t.epochs) same ∙ h
        | inr ran ↦
            ap (row_at g v) ran.kept.epochs
            ∙ receive_epoch-keeps p self fresh d.message.group_id ran.signed ran.key m.tables
                ran.after ran.outcome g v r ran.received h
      ])
handle_each-keeps_epoch p decode limits self (leaving k ∷ calls) m g v r h =
    handle_each-keeps_epoch p decode limits self calls _ g v r h
