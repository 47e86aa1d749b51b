-- ===== src/Groups/Examples.antt =====
-- A node that knows a group's authority, and the delivery of the group's first epoch by its creator.
use network_self_md.Prelude.{
  ◌<◌, ◌≡◌, refl, none, some, Option, List, [], ◌∷◌, inl, arith, Bytes, Text, codes, list_eq, All,
  true, false, lookup,
}
use network_self_md.Prelude.Results.{ok}
use network_self_md.Value.{Value, nat}
use network_self_md.Bytes.{to_hex}
use network_self_md.GroupState.{
  admin, member, SignedGroupEpoch, zeros, create_genesis_epoch, epoch_value, assert_epoch,
  verify_epoch, verify_genesis_epoch,
}
use network_self_md.GroupState.Examples.{fixed}
use network_self_md.Authentication.{PeerSession}
use network_self_md.Replay.{limits_of}
use network_self_md.Groups.{Authority, Tables, LocalIdentity, pair_key}
use network_self_md.Groups.EpochTable.{get_epoch_by_version, get_latest_epoch, is_member_in_epoch}
use network_self_md.Groups.Membership.{new_group, find}
use network_self_md.Groups.Receive.{
  updated, Fresh, has_removed, receive_epoch, sync_membership_to_epoch,
}
use network_self_md.Groups.Opening.{EpochDelivery}
use network_self_md.Groups.Handle.{Manager, GroupCall, deliver, leaving, handle_each}
use network_self_md.Groups.Distribute.{Connection}
use network_self_md.Groups.History.{IsHistory, HasByteIds, handle_each-IsHistory}
use network_self_md.Groups.Immutable.{handle_each-keeps_epoch}
use network_self_md.Groups.SenderKeyTable.{KeyContent, store, store_if_newer}
use network_self_md.Groups.Sequences.{deleting_group, call_each, store_if_newer_once}
use network_self_md.Groups.Roster.{role_in, sync_membership-roles}
use network_self_md.Groups.Revocation.{IsRekeyed, tables_after, receive_epoch-IsRekeyed}
use network_self_md.Groups.Log.{AnswersAs, log_of, Extends, handle_each-refines_log}

abbrev pub creator_name : Text
creator_name = codes "yyyyyyyyyyyyyyyyyyyyyyyyyyyyyyyy"

abbrev pub self : LocalIdentity
self = record { public_key = 1 ∷ zeros 31; fingerprint = codes "nnnnnnnnnnnnnnnnnnnnnnnnnnnnnnnn" }

abbrev pub group : Bytes
group = zeros 32

abbrev pub authority : Authority
authority = record { creator_public_key = zeros 32; genesis_hash = zeros 32 }

abbrev pub signed : SignedGroupEpoch
signed = record {
  epoch = create_genesis_epoch (to_hex group) (zeros 32) (nat 5);
  signature = zeros 64;
  hash = zeros 32;
}

abbrev decode : Bytes → Option Value
decode encoded = some (epoch_value signed.epoch)

abbrev pub known : Manager
known = record {
  tables = record {
    groups = (group, new_group (codes "team") member (some (zeros 32)) (some (zeros 32)) 3) ∷ [];
    authorities = [];
    members = [];
    sender_keys = [];
    sequences = [];
    epochs = [];
    invites = [];
    bootstraps = [];
  };
  ledger = [];
  message_counters = [];
}

abbrev session : PeerSession
session = record {
  peer_public_key = some (zeros 32);
  peer_fingerprint = some creator_name;
  is_ready = true;
}

abbrev delivery : EpochDelivery
delivery = record {
  message = record {
    type = 10;
    protocol_version = 2;
    group_id = group;
    epoch_data = 1 ∷ [];
    signature = zeros 64;
    hash = zeros 32;
    sender_fingerprint = creator_name;
    recipient_fingerprint = self.fingerprint;
    timestamp = 500;
  };
  envelope_signature = zeros 64;
}

abbrev pub fresh : Fresh
fresh = record { chain_key = zeros 32; generation_id = zeros 16; now = 1000 }

abbrev nobody : Text → Option Connection
nobody name = none

abbrev calls : List GroupCall
calls = deliver nobody session delivery fresh ∷ leaving group ∷ []

stored_test :
    (handle_each fixed decode (limits_of none none none) self calls known).tables.epochs
    ≡ signed ∷ []
unfolding handle_each create_genesis_epoch to_hex epoch_value list_eq limits_of assert_epoch
    verify_genesis_epoch
stored_test = refl

pub known-IsHistory : IsHistory fixed authority group known.tables
unfolding list_eq
known-IsHistory = record { anchored = (refl, inl refl); linked = tt }

group_bytes : All (λ b. b < 256) group
group_bytes = omega arith

calls_ids : HasByteIds calls
calls_ids = (group_bytes, tt)

handle_each-IsHistory_example :
    IsHistory fixed authority group
      (handle_each fixed decode (limits_of none none none) self calls known).tables
handle_each-IsHistory_example =
    handle_each-IsHistory fixed decode (limits_of none none none) self authority group calls known
      group_bytes calls_ids known-IsHistory

handle_each-refines_log_example :
    Extends
      (log_of group known.tables)
      (log_of group (handle_each fixed decode (limits_of none none none) self calls known).tables)
    × AnswersAs
        (log_of group (handle_each fixed decode (limits_of none none none) self calls known).tables)
        (handle_each fixed decode (limits_of none none none) self calls known).tables
        (to_hex group)
handle_each-refines_log_example =
    handle_each-refines_log fixed decode (limits_of none none none) self authority group calls known
      group_bytes calls_ids known-IsHistory

abbrev later : Manager
later = record known { tables = record known.tables { epochs = signed ∷ [] } }

later_stored : get_epoch_by_version later.tables (to_hex group) 0 ≡ some signed
unfolding get_epoch_by_version create_genesis_epoch to_hex list_eq
later_stored = refl

handle_each-keeps_epoch_example :
    get_epoch_by_version
      (handle_each fixed decode (limits_of none none none) self calls later).tables
      (to_hex group)
      0
    ≡ some signed
handle_each-keeps_epoch_example =
    handle_each-keeps_epoch fixed decode (limits_of none none none) self calls later (to_hex group)
      0 signed later_stored

abbrev pub third : Bytes
third = 2 ∷ zeros 31

abbrev pub full : SignedGroupEpoch
full = record {
  epoch = record {
    version = nat 1;
    prev_hash = zeros 32;
    group_id = to_hex group;
    members =
        record { public_key = zeros 32; role = admin }
        ∷ record { public_key = self.public_key; role = member }
        ∷ record { public_key = third; role = member }
        ∷ [];
    created_at = nat 6;
    created_by = zeros 32;
  };
  signature = zeros 64;
  hash = zeros 32;
}

abbrev without_third : SignedGroupEpoch
without_third = record full {
  epoch = record full.epoch {
    version = nat 2;
    members =
        record { public_key = zeros 32; role = admin }
        ∷ record { public_key = self.public_key; role = member }
        ∷ [];
    created_at = nat 7;
  };
}

abbrev joined : Tables
joined = record known.tables {
  members =
      ((group, zeros 32), admin)
      ∷ ((group, self.public_key), member)
      ∷ ((group, third), member)
      ∷ [];
  epochs = full ∷ signed ∷ [];
}

sync_membership-roles_example :
    lookup (group, third) (sync_membership_to_epoch self group without_third joined).members
    ≡ role_in without_third.epoch.members third
sync_membership-roles_example =
    sync_membership-roles self group without_third joined third (λ e. absurd (cc e))

abbrev rekeyed : Tables
rekeyed = tables_after joined (receive_epoch fixed self fresh group without_third (zeros 32) joined)

taken_test :
    receive_epoch fixed self fresh group without_third (zeros 32) joined
    ≡ ok (updated true false, rekeyed)
unfolding receive_epoch to_hex list_eq create_genesis_epoch verify_epoch
taken_test = refl

latest_test : get_latest_epoch joined (to_hex group) ≡ some full
unfolding get_latest_epoch to_hex list_eq create_genesis_epoch
latest_test = refl

listed_test : is_member_in_epoch without_third self.public_key ≡ true
unfolding list_eq
listed_test = refl

removed_test : has_removed (some full) without_third ≡ true
unfolding list_eq
removed_test = refl

joined_test :
    find joined group ≡ some (new_group (codes "team") member (some (zeros 32)) (some (zeros 32)) 3)
unfolding list_eq
joined_test = refl

receive_epoch-IsRekeyed_example : IsRekeyed self fresh group without_third rekeyed
receive_epoch-IsRekeyed_example =
    receive_epoch-IsRekeyed fixed self fresh group without_third full (zeros 32)
      (new_group (codes "team") member (some (zeros 32)) (some (zeros 32)) 3) joined rekeyed
      (updated true false) joined_test latest_test (omega arith) listed_test removed_test taken_test

abbrev content : KeyContent
content = record {
  chain_key = zeros 32;
  chain_index = 0;
  generation_id = zeros 16;
  sequence = 4;
  epoch_version = 1;
  epoch_hash = zeros 32;
}

content_taken :
    store_if_newer joined group third content 1000 ≡ some (store joined group third content 1000)
unfolding store_if_newer list_eq
content_taken = refl

store_if_newer_once_example :
    store_if_newer
      (call_each (deleting_group group ∷ []) (store joined group third content 1000))
      group
      third
      content
      2000
    ≡ none
store_if_newer_once_example =
    store_if_newer_once joined (store joined group third content 1000) group third content content
      1000 2000 (deleting_group group ∷ []) content_taken (omega arith)
