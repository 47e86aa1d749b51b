-- ===== src/Groups.antt =====
-- The state of group handling: the tables of packages/node/src/storage/repositories.ts that
-- packages/node/src/groups/group-manager.ts reads and writes. A table is a list of its rows by their
-- primary key; a transaction that throws leaves the tables as they were.

pub mod SenderKeyTable
pub mod EpochTable
pub mod Membership
pub mod Invites
pub mod Offers
pub mod Manage
pub mod Rotation
pub mod Taken
pub mod Messages
pub mod Paired
pub mod Sealing
pub mod Exchange
pub mod Receive
pub mod Opening
pub mod Distribute
pub mod Handle
pub mod Lookups
pub mod Roster
pub mod Revocation
pub mod Sequences
pub mod Chain
pub mod Frame
pub mod Linked
pub mod Anchored
pub mod Deliveries
pub mod Immutable
pub mod History
pub mod Log
pub mod Progress
pub mod CatchUp
mod Examples
mod GrowthExamples
mod MessageExamples
use network_self_md.Prelude.{
  ℕ, ◌≡◌, ◌↔◌, ap, Bool, true, ◌&&◌, Option, List, Bytes, Text, list_eq, list_eq_iff, list_eq_self,
  Key,
}
use network_self_md.Authentication.{SecurityError}
use network_self_md.Replay.{ReplayError}
use network_self_md.GroupState.Valid.{both}
use network_self_md.GroupState.{Role, SignedGroupEpoch, EpochError}

-- The number of a row's integer column is a natural number. A distribution sequence stands one
-- higher than in the code, so that its -1, none yet, is 0.
pub record StoredSenderKey : Type 0 where
  pub chain_key : Bytes
  pub chain_index : ℕ
  pub generation_id : Option Bytes
  pub distribution_sequence : ℕ
  pub epoch_version : ℕ
  pub epoch_hash : Option Bytes
  pub generation_created_at : ℕ

pub record StoredGroup : Type 0 where
  pub name : Text
  pub role : Role
  pub created_at : ℕ
  pub joined_at : ℕ
  pub self_md : Option Text
  pub is_public : Bool
  pub metadata_version : ℕ
  pub creator_public_key : Option Bytes
  pub genesis_hash : Option Bytes

pub record Authority : Type 0 where
  pub creator_public_key : Bytes
  pub genesis_hash : Bytes

pub data Direction : Type 0 where
  incoming outgoing : Direction

pub record StoredGroupInvite : Type 0 where
  pub invite_id : Text
  pub group_id : Bytes
  pub group_name : Text
  pub inviter_public_key : Bytes
  pub invitee_public_key : Bytes
  pub genesis_epoch_data : Bytes
  pub genesis_signature : Bytes
  pub genesis_hash : Bytes
  pub direction : Direction
  pub created_at : ℕ

pub record StoredGroupBootstrap : Type 0 where
  pub group_name : Text
  pub inviter_public_key : Bytes
  pub genesis_epoch_data : Bytes
  pub genesis_signature : Bytes
  pub genesis_hash : Bytes
  pub received_at : ℕ

-- Keys of two columns: the group and the public key.
abbrev pub pair_eq : Bytes × Bytes → Bytes × Bytes → Bool
pair_eq a b = list_eq a.0 b.0 && list_eq a.1 b.1

pub pair_eq_iff : (a b : Bytes × Bytes) → (pair_eq a b ≡ true) ↔ (a ≡ b)
pair_eq_iff a b = (
  λ h.
      let (first, second) = both (list_eq a.0 b.0) _ h in
      λ i. ((list_eq_iff _ _).0 first i, (list_eq_iff _ _).0 second i),
  λ e. rw (e, list_eq_self b.0, list_eq_self b.1),
)

instance abbrev pub pair_key : Key (Bytes × Bytes)
pair_key = record { beq = pair_eq; beq_iff = pair_eq_iff }

-- The epochs are listed from the row that was inserted last.
pub record Tables : Type 0 where
  pub groups : List (Bytes × StoredGroup)
  pub authorities : List (Bytes × Authority)
  pub members : List ((Bytes × Bytes) × Role)
  pub sender_keys : List ((Bytes × Bytes) × StoredSenderKey)
  pub sequences : List ((Bytes × Bytes) × ℕ)
  pub epochs : List SignedGroupEpoch
  pub invites : List StoredGroupInvite
  pub bootstraps : List (Bytes × StoredGroupBootstrap)

pub data GroupError : Type 0 where
  invalid_epoch : EpochError → GroupError
  conflicting_epoch no_creation_time authority_mismatch incomplete_authority group_exists
        group_not_found not_admin no_provenance bad_genesis sender_revoked historical_fork
        version_gap unauthorized_transition :
      GroupError
  missing_epoch stale_epoch revoked_sender outside_generation undecryptable bad_plaintext
        no_current_key unknown_group non_member replayed_distribution :
      GroupError
  insecure : SecurityError → GroupError
  bad_envelope context_mismatch : GroupError
  incomplete_bootstrap unauthenticated_genesis unauthorized_metadata invalid_accept
        epoch_context_mismatch invite_mismatch no_pending_invite sync_from_non_member
        unknown_epoch_context unauthorized_kick target_not_member unsupported_action not_authorized
        no_pending_authority invalid_genesis :
      GroupError
  not_accepted : ReplayError → GroupError

-- The agent's own identity.
pub record LocalIdentity : Type 0 where
  pub public_key : Bytes
  pub fingerprint : Text
