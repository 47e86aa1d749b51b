-- ===== src/Groups/Manage.antt =====
-- The other cases of `GroupManager.handleGroupManagement` within its transaction: an invite that is
-- accepted, a request for epochs, and a kick. What is sent to peers is left out.
use network_self_md.Prelude.{
  ℕ, ◌+◌, Bool, true, false, ◌&&◌, not, Option, none, some, List, [], ◌∷◌, ◌++◌, Bytes, Text,
  list_eq, filter, if◌then◌else◌,
}
use network_self_md.Prelude.Results.{Result, ok, err, ◌>>=◌, ◌>>◌, require, or_throw}
use network_self_md.Value.{Value, nat}
use network_self_md.Bytes.{to_hex}
use network_self_md.GroupState.{
  Primitives, member, GroupMemberEntry, SignedGroupEpoch, create_signed_epoch,
}
use network_self_md.Authentication.{fingerprint_from_public_key}
use network_self_md.Groups.{
  StoredGroup, StoredGroupInvite, incoming, outgoing, Tables, LocalIdentity, GroupError,
  invalid_accept, epoch_context_mismatch, invite_mismatch, no_pending_invite, sync_from_non_member,
  unknown_epoch_context, unauthorized_kick, target_not_member, unsupported_action,
}
use network_self_md.Groups.SenderKeyTable.{delete_key, delete_keys_of_group}
use network_self_md.Groups.EpochTable.{
  version_of, get_latest_epoch, get_epoch_by_version, save_epoch, is_member_in_epoch,
  is_admin_in_epoch, lift_epoch,
}
use network_self_md.Groups.Membership.{find, leave, remove_member, get_members}
use network_self_md.Groups.Invites.{find_by_id}
use network_self_md.Groups.Receive.{sync_membership_to_epoch}
use network_self_md.Groups.Offers.{
  invite, accept, sync_request, kick, metadata, other_action, GroupManagementMessage,
  ManagementOutcome, accepted, sync, left_group, kicked, filled, names, names_epoch, receive_invite,
  receive_metadata,
}

-- The pending invite is the one that this node sent to the sender for the group.
abbrev pub is_own_invite : StoredGroupInvite → LocalIdentity → Bytes → Bytes → Bool
is_own_invite i self g sender = elim i.direction [
  | incoming ↦ false
  | outgoing ↦
      list_eq i.group_id g
      && (list_eq i.inviter_public_key self.public_key && list_eq i.invitee_public_key sender)
]

abbrev pub check_invite :
    Option StoredGroupInvite
    → StoredGroup
    → LocalIdentity
    → Bytes
    → Bytes
    → Result GroupError (Unit {0})
check_invite (some i) group self g sender = require (is_own_invite i self g sender) invite_mismatch
check_invite none group self g sender = require group.is_public no_pending_invite

abbrev pub delete_pending : Option StoredGroupInvite → Tables → Tables
delete_pending none t = t
delete_pending (some i) t = record t {
  invites = filter (λ j. not (list_eq j.invite_id i.invite_id)) t.invites;
}

-- The epoch after the latest one, with other members, made and signed by this node.
unfoldable pub next_epoch :
    Primitives
    → LocalIdentity
    → Bytes
    → Bytes
    → SignedGroupEpoch
    → List GroupMemberEntry
    → ℕ
    → Result GroupError SignedGroupEpoch
unfolding create_signed_epoch
next_epoch p self private_key g latest members now = lift_epoch (
    create_signed_epoch p
      (record {
        version = nat (version_of latest + 1);
        prev_hash = latest.hash;
        group_id = to_hex g;
        members = members;
        created_at = nat now;
        created_by = self.public_key;
      })
      private_key)

abbrev pub is_named_epoch : Option SignedGroupEpoch → Bytes → Bool
is_named_epoch none hash = false
is_named_epoch (some row) hash = list_eq row.hash hash

-- A peer that is a member is only sent the epochs; another becomes one.
unfoldable pub answer_accept :
    Primitives
    → LocalIdentity
    → Bytes
    → Bytes
    → Option StoredGroupInvite
    → SignedGroupEpoch
    → Bytes
    → ℕ
    → Tables
    → Bool
    → Result GroupError (ManagementOutcome × Tables)
unfolding next_epoch save_epoch sync_membership_to_epoch
answer_accept p self private_key g pending latest sender now t true =
    ok (accepted none, delete_pending pending t)
answer_accept p self private_key g pending latest sender now t false = do
  signed ←
      next_epoch p self private_key g latest
        (latest.epoch.members ++ record { public_key = sender; role = member } ∷ []) now
  saved ← save_epoch p signed t
  ok (accepted (some signed), delete_pending pending (sync_membership_to_epoch self g signed saved))

unfoldable pub receive_accept :
    Primitives
    → LocalIdentity
    → Bytes
    → GroupManagementMessage
    → Bytes
    → Text
    → ℕ
    → Tables
    → Result GroupError (ManagementOutcome × Tables)
unfolding get_latest_epoch get_epoch_by_version find_by_id answer_accept
receive_accept p self private_key m sender sender_name now t = do
  require (names m.target_fingerprint sender_name) invalid_accept
  id ← or_throw (filled m.invite_id) invalid_accept
  group ← or_throw (find t m.group_id) invalid_accept
  latest ← or_throw (get_latest_epoch t (to_hex m.group_id)) invalid_accept
  require (is_admin_in_epoch latest self.public_key) invalid_accept
  version ← or_throw m.epoch_version invalid_accept
  hash ← or_throw m.epoch_hash invalid_accept
  require (is_named_epoch (get_epoch_by_version t (to_hex m.group_id) version) hash)
      epoch_context_mismatch
  let pending = find_by_id t id now
  check_invite pending group self m.group_id sender
  answer_accept p self private_key m.group_id pending latest sender now t
      (is_member_in_epoch latest sender)

unfoldable pub receive_sync_request :
    GroupManagementMessage → Bytes → Tables → Result GroupError (ManagementOutcome × Tables)
unfolding get_latest_epoch get_epoch_by_version
receive_sync_request m sender t = do
  latest ← or_throw (get_latest_epoch t (to_hex m.group_id)) sync_from_non_member
  require (is_member_in_epoch latest sender) sync_from_non_member
  version ← or_throw m.epoch_version sync_from_non_member
  hash ← or_throw m.epoch_hash sync_from_non_member
  require (is_named_epoch (get_epoch_by_version t (to_hex m.group_id) version) hash)
      unknown_epoch_context
  ok (sync (version + 1), t)

-- The member with a fingerprint.
abbrev pub find_named : Primitives → Text → List Bytes → Option Bytes
find_named p name [] = none
find_named p name (key ∷ keys) =
    let rest = find_named p name keys in
    if list_eq (fingerprint_from_public_key p key) name then some key else rest

unfoldable pub receive_kick :
    Primitives
    → LocalIdentity
    → GroupManagementMessage
    → Bytes
    → Tables
    → Result GroupError (ManagementOutcome × Tables)
unfolding get_latest_epoch get_members leave delete_keys_of_group remove_member delete_key
receive_kick p self m sender t = do
  group ← or_throw (find t m.group_id) unauthorized_kick
  latest ← or_throw (get_latest_epoch t (to_hex m.group_id)) unauthorized_kick
  require (is_admin_in_epoch latest sender) unauthorized_kick
  name ← or_throw (filled m.target_fingerprint) unauthorized_kick
  require (names_epoch m latest) unauthorized_kick
  target ← or_throw (find_named p name (get_members t m.group_id)) target_not_member
  ok (
      if list_eq name self.fingerprint
      then (left_group, delete_keys_of_group (leave t m.group_id) m.group_id)
      else (kicked, delete_key (remove_member t m.group_id target) m.group_id target))

-- The mutation that runs in the replay transaction, with the sender's public key and fingerprint.
unfoldable pub receive_management :
    Primitives
    → (Bytes → Option Value)
    → LocalIdentity
    → Bytes
    → GroupManagementMessage
    → Bytes
    → Text
    → ℕ
    → Tables
    → Result GroupError (ManagementOutcome × Tables)
unfolding receive_invite receive_metadata receive_accept receive_sync_request receive_kick
receive_management p decode self private_key m sender sender_name now t = elim m.action [
  | invite ↦ receive_invite p decode self m sender t
  | metadata ↦ receive_metadata p self m sender t
  | accept ↦ receive_accept p self private_key m sender sender_name now t
  | sync_request ↦ receive_sync_request m sender t
  | kick ↦ receive_kick p self m sender t
  | other_action ↦ err unsupported_action
]
