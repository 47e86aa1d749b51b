-- ===== src/Groups/Receive.antt =====
-- `GroupManager.handleGroupEpoch`: what a node does with an epoch that a peer delivers. The random
-- bytes of a new key, the time and the CBOR decoder are arguments.
use network_self_md.Prelude.{
  ℕ, ◌+◌, Bool, true, false, ◌&&◌, ◌||◌, not, Option, none, some, List, [], ◌∷◌, Bytes, Text,
  list_eq, any, leb, ◌==◌, text_key, if◌then◌else◌,
}
use network_self_md.Prelude.Results.{Result, ok, ◌>>=◌, ◌>>◌, require, or_throw}
use network_self_md.Bytes.{to_hex}
use network_self_md.GroupState.{
  Primitives, GroupMemberEntry, SignedGroupEpoch, verify_epoch, verify_genesis_epoch,
}
use network_self_md.Groups.{
  Authority, Tables, StoredSenderKey, LocalIdentity, GroupError, no_provenance, bad_genesis,
  sender_revoked, historical_fork, version_gap, unauthorized_transition,
}
use network_self_md.Groups.SenderKeyTable.{
  load, KeyContent, store, delete_key, delete_keys_of_group,
}
use network_self_md.Groups.EpochTable.{
  version_of, time_of, get_latest_epoch, get_epoch_by_version, save_epoch, is_member_in_epoch,
  is_admin_in_epoch,
}
use network_self_md.Groups.Membership.{
  find, find_retained_authority, authority_in, leave, add_member, remove_member, get_members,
  delete_incoming,
}

pub data EpochOutcome : Type 0 where
  historical : EpochOutcome
  updated : Bool → Bool → EpochOutcome

-- The authority of the group, or else the one that was retained.
abbrev pub or_retained : Option Authority → Option Authority → Option Authority
or_retained (some a) other = some a
or_retained none other = other

abbrev pub authority_of : Tables → Bytes → Option Authority
authority_of t g = or_retained (authority_in (find t g)) (find_retained_authority t g)

abbrev pub check_genesis :
    Primitives → Authority → Text → SignedGroupEpoch → Bytes → Result GroupError (Unit {0})
check_genesis p a gid s peer =
    require
      (verify_genesis_epoch p s gid (some a.creator_public_key)
        && (list_eq s.hash a.genesis_hash && list_eq peer a.creator_public_key))
      bad_genesis

-- The row of the epoch's version is this epoch.
abbrev pub is_stored : Option SignedGroupEpoch → SignedGroupEpoch → Bool
is_stored none s = false
is_stored (some row) s = list_eq row.hash s.hash && list_eq row.signature s.signature

abbrev pub receive_known :
    LocalIdentity
    → Bytes
    → SignedGroupEpoch
    → Option SignedGroupEpoch
    → SignedGroupEpoch
    → Bytes
    → Tables
    → Result GroupError (EpochOutcome × Tables)
receive_known self g s row latest peer t = do
  require (is_member_in_epoch latest peer) sender_revoked
  require (is_stored row s) historical_fork
  ok (historical, if is_member_in_epoch latest self.public_key then delete_incoming t g else t)

abbrev pub check_next :
    Primitives → SignedGroupEpoch → SignedGroupEpoch → Bytes → Result GroupError (Unit {0})
check_next p latest s peer = do
  require (version_of s == version_of latest + 1) version_gap
  require
      (is_member_in_epoch latest peer
        && (is_admin_in_epoch latest s.epoch.created_by
            && (leb (time_of latest) (time_of s) && verify_epoch p s latest.hash)))
      unauthorized_transition

-- The two loops of `syncMembershipToEpoch`.
unfoldable pub remove_absent :
    LocalIdentity → Bytes → SignedGroupEpoch → List Bytes → Tables → Tables
unfolding remove_member delete_key
remove_absent self g s [] t = t
remove_absent self g s (key ∷ keys) t =
    let keep = list_eq key self.public_key || is_member_in_epoch s key in
    remove_absent self g s keys (if keep then t else delete_key (remove_member t g key) g key)

unfoldable pub add_members : Bytes → List GroupMemberEntry → Tables → Tables
unfolding add_member
add_members g [] t = t
add_members g (m ∷ ms) t = add_members g ms (add_member t g m.public_key m.role)

unfoldable pub sync_membership_to_epoch : LocalIdentity → Bytes → SignedGroupEpoch → Tables → Tables
unfolding get_members remove_absent add_members
sync_membership_to_epoch self g s t =
    add_members g s.epoch.members (remove_absent self g s (get_members t g) t)

-- The random bytes of a new key, its generation, and the time.
pub record Fresh : Type 0 where
  pub chain_key : Bytes
  pub generation_id : Bytes
  pub now : ℕ

abbrev pub sequence_of : Option StoredSenderKey → ℕ
sequence_of none = 0
sequence_of (some row) = row.distribution_sequence

-- A member that the earlier epoch has and this one has not.
abbrev pub has_removed : Option SignedGroupEpoch → SignedGroupEpoch → Bool
has_removed none s = false
has_removed (some latest) s =
    any (λ m. not (is_member_in_epoch s m.public_key)) latest.epoch.members

abbrev pub fresh_content : Fresh → Option StoredSenderKey → SignedGroupEpoch → KeyContent
fresh_content fresh previous s = record {
  chain_key = fresh.chain_key;
  chain_index = 0;
  generation_id = fresh.generation_id;
  sequence = sequence_of previous;
  epoch_version = version_of s;
  epoch_hash = s.hash;
}

abbrev pub rebound_content : StoredSenderKey → Bytes → SignedGroupEpoch → KeyContent
rebound_content row generation s = record {
  chain_key = row.chain_key;
  chain_index = row.chain_index;
  generation_id = generation;
  sequence = row.distribution_sequence;
  epoch_version = version_of s;
  epoch_hash = s.hash;
}

-- The key that goes on, where there is one with a generation.
abbrev pub kept_key : Option StoredSenderKey → Option (StoredSenderKey × Bytes)
kept_key none = none
kept_key (some row) = elim row.generation_id [
  | none ↦ none
  | some generation ↦ some (row, generation)
]

-- The local key: a new generation where a member was removed or there is no key, and otherwise the
-- one there is, bound to the new epoch.
unfoldable pub renew_local_key :
    LocalIdentity → Fresh → Bytes → SignedGroupEpoch → Bool → Tables → Tables
unfolding store delete_keys_of_group
renew_local_key self fresh g s removed t =
    let previous = load t g self.public_key in
    if removed
    then store (delete_keys_of_group t g) g self.public_key (fresh_content fresh previous s)
        fresh.now
    else elim (kept_key previous) [
      | none ↦ store t g self.public_key (fresh_content fresh previous s) fresh.now
      | some (row, generation) ↦
          store t g self.public_key (rebound_content row generation s) fresh.now
    ]

abbrev pub was_member : Option SignedGroupEpoch → Bytes → Bool
was_member none key = false
was_member (some latest) key = is_member_in_epoch latest key

-- What follows in a group that the node is in, once the epoch is saved.
unfoldable pub settle :
    LocalIdentity
    → Fresh
    → Bytes
    → SignedGroupEpoch
    → Option SignedGroupEpoch
    → Tables
    → EpochOutcome × Tables
unfolding sync_membership_to_epoch leave delete_keys_of_group delete_incoming renew_local_key
settle self fresh g s latest t =
    let synced = sync_membership_to_epoch self g s t in
    if is_member_in_epoch s self.public_key
    then (
      updated true false,
      renew_local_key self fresh g s (has_removed latest s) (delete_incoming synced g),
    )
    else if was_member latest self.public_key
    then (updated false true, delete_keys_of_group (leave synced g) g)
    else (updated false false, synced)

unfoldable pub save_and_settle :
    Primitives
    → LocalIdentity
    → Fresh
    → Bytes
    → SignedGroupEpoch
    → Option SignedGroupEpoch
    → Tables
    → Result GroupError (EpochOutcome × Tables)
unfolding save_epoch settle
save_and_settle p self fresh g s latest t = do
  saved ← save_epoch p s t
  elim (find t g) [
    | none ↦ ok (historical, saved)
    | some group ↦ ok (settle self fresh g s latest saved)
  ]

unfoldable pub receive_after :
    Primitives
    → LocalIdentity
    → Fresh
    → Bytes
    → Authority
    → SignedGroupEpoch
    → Bytes
    → Option SignedGroupEpoch
    → Tables
    → Result GroupError (EpochOutcome × Tables)
unfolding get_epoch_by_version save_and_settle
receive_after p self fresh g a s peer none t = do
  check_genesis p a (to_hex g) s peer
  save_and_settle p self fresh g s none t
receive_after p self fresh g a s peer (some latest) t =
    let row = get_epoch_by_version t (to_hex g) (version_of s) in
    let next = check_next p latest s peer >> save_and_settle p self fresh g s (some latest) t in
    if leb (version_of s) (version_of latest)
    then receive_known self g s row latest peer t
    else next

-- The mutation that runs in the replay transaction, with the public key of the session.
unfoldable pub receive_epoch :
    Primitives
    → LocalIdentity
    → Fresh
    → Bytes
    → SignedGroupEpoch
    → Bytes
    → Tables
    → Result GroupError (EpochOutcome × Tables)
unfolding get_latest_epoch receive_after
receive_epoch p self fresh g s peer t = do
  a ← or_throw (authority_of t g) no_provenance
  receive_after p self fresh g a s peer (get_latest_epoch t (to_hex g)) t
