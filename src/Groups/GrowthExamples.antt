-- ===== src/Groups/GrowthExamples.antt =====
-- An invite that is accepted, and a node that is given the epochs that it missed.
use network_self_md.Prelude.{
  ◌≤◌, ◌≡◌, refl, none, some, [], ◌∷◌, ◌++◌, arith, Bytes, codes, list_eq, true,
}
use network_self_md.Prelude.Results.{ok}
use network_self_md.Value.{nat}
use network_self_md.Bytes.{to_hex}
use network_self_md.GroupState.{
  admin, member, SignedGroupEpoch, zeros, create_genesis_epoch, verify_epoch, verify_genesis_epoch,
}
use network_self_md.GroupState.Examples.{fixed, fixed_laws}
use network_self_md.Groups.{Tables, StoredGroup, LocalIdentity}
use network_self_md.Groups.EpochTable.{time_of, get_latest_epoch, is_member_in_epoch}
use network_self_md.Groups.Membership.{new_group}
use network_self_md.Groups.Receive.{check_next}
use network_self_md.Groups.Offers.{accept, GroupManagementMessage, accepted}
use network_self_md.Groups.Manage.{receive_accept}
use network_self_md.Groups.Taken.{receive_accept-taken}
use network_self_md.Groups.Log.{log_of}
use network_self_md.Groups.CatchUp.{IsPath, deliver_each, deliver_each-catches_up}
use network_self_md.Groups.Examples.{
  self, group, authority, signed, known, fresh, third, full, known-IsHistory,
}

abbrev creator : LocalIdentity
creator = record { public_key = zeros 32; fingerprint = codes "yyyyyyyyyyyyyyyyyyyyyyyyyyyyyyyy" }

abbrev open_group : StoredGroup
open_group = record (new_group (codes "team") admin (some (zeros 32)) (some (zeros 32)) 3) {
  is_public = true;
}

abbrev owned : Tables
owned = record known.tables { groups = (group, open_group) ∷ []; epochs = signed ∷ [] }

abbrev answer : GroupManagementMessage
answer = record {
  action = accept;
  group_id = group;
  self_md = none;
  is_public = none;
  metadata_version = none;
  target_fingerprint = some (codes "third");
  group_name = none;
  invite_id = some (codes "public:third");
  epoch_version = some 0;
  epoch_hash = some (zeros 32);
  genesis_epoch_data = none;
  genesis_signature = none;
  genesis_hash = none;
  timestamp = 900;
}

abbrev grown : SignedGroupEpoch
grown = record {
  epoch = record {
    version = nat 1;
    prev_hash = zeros 32;
    group_id = to_hex group;
    members =
        record { public_key = zeros 32; role = admin }
        ∷ record { public_key = third; role = member }
        ∷ [];
    created_at = nat 1000;
    created_by = zeros 32;
  };
  signature = zeros 64;
  hash = zeros 32;
}

abbrev after : Tables
after = record owned {
  members = ((group, zeros 32), admin) ∷ ((group, third), member) ∷ [];
  epochs = grown ∷ signed ∷ [];
}

latest_test : get_latest_epoch owned (to_hex group) ≡ some signed
unfolding get_latest_epoch create_genesis_epoch to_hex list_eq
latest_test = refl

accept_test :
    receive_accept fixed creator (7 ∷ []) answer third (codes "third") 1000 owned
    ≡ ok (accepted (some grown), after)
unfolding receive_accept create_genesis_epoch to_hex list_eq
accept_test = refl

time_test : time_of signed ≤ 1000
unfolding create_genesis_epoch
time_test = omega arith

receive_accept-taken_example :
    (grown.epoch.members
      ≡ signed.epoch.members ++ record { public_key = third; role = member } ∷ [])
    × ((peer : Bytes)
        → is_member_in_epoch signed peer ≡ true
        → check_next fixed signed grown peer ≡ ok tt)
receive_accept-taken_example =
    receive_accept-taken fixed fixed_laws creator (7 ∷ []) answer third (codes "third") 1000 owned
      after signed grown refl refl time_test latest_test accept_test

known-IsPath :
    IsPath fixed authority
      (to_hex group)
      (zeros 32)
      (get_latest_epoch known.tables (to_hex group))
      (signed ∷ full ∷ [])
unfolding get_latest_epoch create_genesis_epoch to_hex list_eq verify_epoch verify_genesis_epoch
known-IsPath = (refl, (refl, (refl, (refl, tt))))

deliver_each-catches_up_example :
    (u : Tables) × ((deliver_each fixed self fresh group
          (signed ∷ full ∷ [])
          (zeros 32)
          known.tables
        ≡ ok u)
      × (log_of group u ≡ log_of group known.tables ++ signed ∷ full ∷ []))
deliver_each-catches_up_example =
    deliver_each-catches_up fixed self fresh authority group (signed ∷ full ∷ []) (zeros 32)
      known.tables known-IsHistory known-IsPath
