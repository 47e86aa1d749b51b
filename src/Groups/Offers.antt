-- ===== src/Groups/Offers.antt =====
-- The messages of `GroupManager.handleGroupManagement`, and two of its cases: an invite, and the
-- metadata that the creator of a group announces.
use network_self_md.Prelude.{
  ℕ, Bool, true, false, ◌&&◌, Option, none, some, [], ◌∷◌, Bytes, Text, length, list_eq, leb, ◌==◌,
}
use network_self_md.Prelude.Results.{Result, ok, ◌>>=◌, ◌>>◌, require, or_throw}
use network_self_md.Value.{Value}
use network_self_md.Bytes.{to_hex}
use network_self_md.GroupState.{Primitives, SignedGroupEpoch, verify_genesis_epoch, max_safe}
use network_self_md.GroupState.Decoding.{deserialize_epoch}
use network_self_md.Groups.{
  StoredGroup, StoredGroupInvite, StoredGroupBootstrap, incoming, Tables, LocalIdentity, GroupError,
  incomplete_bootstrap, unauthenticated_genesis, unauthorized_metadata,
}
use network_self_md.Groups.EpochTable.{
  version_of, get_latest_epoch, is_member_in_epoch, is_admin_in_epoch, lift_epoch,
}
use network_self_md.Groups.Membership.{find, is_some, apply_metadata}
use network_self_md.Groups.Invites.{save_invite, save_bootstrap}

-- Actions that no case handles are `other_action`.
pub data ManagementAction : Type 0 where
  invite accept sync_request kick metadata other_action : ManagementAction

-- A field that the message may leave out is an option; a `selfMd` comes with its length in UTF-8.
pub record GroupManagementMessage : Type 0 where
  pub action : ManagementAction
  pub group_id : Bytes
  pub self_md : Option Text
  pub is_public : Option Bool
  pub metadata_version : Option ℕ
  pub target_fingerprint : Option Text
  pub group_name : Option Text
  pub invite_id : Option Text
  pub epoch_version : Option ℕ
  pub epoch_hash : Option Bytes
  pub genesis_epoch_data : Option Bytes
  pub genesis_signature : Option Bytes
  pub genesis_hash : Option Bytes
  pub timestamp : ℕ

pub data ManagementOutcome : Type 0 where
  invited : ManagementOutcome
  accepted : Option SignedGroupEpoch → ManagementOutcome
  sync : ℕ → ManagementOutcome
  metadata_updated left_group kicked : ManagementOutcome

-- `!text` holds of an absent and of an empty text.
abbrev pub filled : Option Text → Option Text
filled none = none
filled (some []) = none
filled (some (c ∷ cs)) = some (c ∷ cs)

abbrev pub names : Option Text → Text → Bool
names none name = false
names (some t) name = list_eq t name

abbrev pub is_version : Option ℕ → ℕ → Bool
is_version none v = false
is_version (some n) v = n == v

abbrev pub is_hash : Option Bytes → Bytes → Bool
is_hash none h = false
is_hash (some b) h = list_eq b h

-- The message names this epoch, by its version and its hash.
abbrev pub names_epoch : GroupManagementMessage → SignedGroupEpoch → Bool
names_epoch m s = is_version m.epoch_version (version_of s) && is_hash m.epoch_hash s.hash

abbrev pub creator_of : Option StoredGroup → Bytes → Bytes
creator_of none sender = sender
creator_of (some row) sender = elim row.creator_public_key [ none ↦ sender | some key ↦ key ]

-- Who may invite: an admin of the latest epoch, which the message names, or in a group that is
-- known without one, its creator.
abbrev pub may_invite :
    Option StoredGroup → Option SignedGroupEpoch → GroupManagementMessage → Bytes → Bytes → Bool
may_invite group (some latest) m sender creator =
    is_admin_in_epoch latest sender && names_epoch m latest
may_invite (some group) none m sender creator = list_eq sender creator
may_invite none none m sender creator = true

unfoldable pub receive_invite :
    Primitives
    → (Bytes → Option Value)
    → LocalIdentity
    → GroupManagementMessage
    → Bytes
    → Tables
    → Result GroupError (ManagementOutcome × Tables)
unfolding get_latest_epoch save_invite save_bootstrap
receive_invite p decode self m sender t = do
  require (names m.target_fingerprint self.fingerprint) incomplete_bootstrap
  id ← or_throw (filled m.invite_id) incomplete_bootstrap
  name ← or_throw (filled m.group_name) incomplete_bootstrap
  require (is_some m.epoch_version && is_some m.epoch_hash) incomplete_bootstrap
  encoded ← or_throw m.genesis_epoch_data incomplete_bootstrap
  signature ← or_throw m.genesis_signature incomplete_bootstrap
  hash ← or_throw m.genesis_hash incomplete_bootstrap
  epoch ← lift_epoch (deserialize_epoch p decode encoded)
  let creator = creator_of (find t m.group_id) sender
  require
      (verify_genesis_epoch p (record { epoch = epoch; signature = signature; hash = hash })
          (to_hex m.group_id) (some creator)
        && may_invite (find t m.group_id) (get_latest_epoch t (to_hex m.group_id)) m sender creator)
      unauthenticated_genesis
  let invite : StoredGroupInvite = record {
    invite_id = id;
    group_id = m.group_id;
    group_name = name;
    inviter_public_key = sender;
    invitee_public_key = self.public_key;
    genesis_epoch_data = encoded;
    genesis_signature = signature;
    genesis_hash = hash;
    direction = incoming;
    created_at = m.timestamp;
  }
  let bootstrap : StoredGroupBootstrap = record {
    group_name = name;
    inviter_public_key = sender;
    genesis_epoch_data = encoded;
    genesis_signature = signature;
    genesis_hash = hash;
    received_at = m.timestamp;
  }
  ok (invited, save_bootstrap (save_invite t invite) m.group_id bootstrap)

-- The creator of the group, an admin of the latest epoch, tells its members; the length is the one
-- of the text in UTF-8.
unfoldable pub receive_metadata :
    Primitives
    → LocalIdentity
    → GroupManagementMessage
    → Bytes
    → Tables
    → Result GroupError (ManagementOutcome × Tables)
unfolding get_latest_epoch apply_metadata
receive_metadata p self m sender t = do
  group ← or_throw (find t m.group_id) unauthorized_metadata
  creator ← or_throw group.creator_public_key unauthorized_metadata
  latest ← or_throw (get_latest_epoch t (to_hex m.group_id)) unauthorized_metadata
  require
      (list_eq creator sender
        && (is_admin_in_epoch latest sender
            && (is_member_in_epoch latest self.public_key && names_epoch m latest)))
      unauthorized_metadata
  self_md ← or_throw m.self_md unauthorized_metadata
  require (leb (length (p.utf8 self_md)) 16384) unauthorized_metadata
  is_public ← or_throw m.is_public unauthorized_metadata
  version ← or_throw m.metadata_version unauthorized_metadata
  require (leb version max_safe) unauthorized_metadata
  let (changed, tables) = apply_metadata t m.group_id self_md is_public version
  ok (metadata_updated, tables)
