-- ===== src/Announce/Examples.antt =====
-- Two public groups that a peer announces.
use network_self_md.Prelude.{ℕ, ◌≡◌, refl, true, List, [], ◌∷◌, Text, Bytes, codes, list_eq}
use network_self_md.GroupState.{zeros}
use network_self_md.GroupState.Examples.{fixed}
use network_self_md.Prelude.Results.{ok}
use network_self_md.Bytes.{to_hex}
use network_self_md.Announce.{
  AnnounceGroup, announce_bytes, canonical_announce_payload, verify_announce,
}
use network_self_md.Announce.Verified.{IsVerified}
use network_self_md.Announce.Covered.{SameGroups, verify_announce-Covers}

abbrev group_of : Bytes → Text → AnnounceGroup
group_of id name = record {
  group_id = id;
  name = name;
  self_md = [];
  member_count = 2;
  genesis_epoch_data = 1 ∷ [];
  genesis_signature = zeros 64;
  genesis_hash = zeros 32;
}

abbrev groups : List AnnounceGroup
groups = group_of (zeros 32) (codes "team") ∷ group_of (1 ∷ zeros 31) (codes "club") ∷ []

verifies_test : verify_announce fixed groups 1000 (zeros 64) (zeros 32) 2 ≡ true
verifies_test = unfold verify_announce list_eq in refl

abbrev version : ℕ
version = 2

abbrev time : ℕ
time = 1000

abbrev payload : Bytes
payload = announce_bytes fixed version groups time

payload_test : canonical_announce_payload fixed version groups time ≡ ok payload
payload_test = unfold canonical_announce_payload to_hex in refl

verify_announce-Covers_example :
    IsVerified fixed groups time (zeros 64) (zeros 32) version
    × ((version ≡ version) × ((time ≡ time) × SameGroups fixed groups groups))
verify_announce-Covers_example =
    verify_announce-Covers fixed groups groups time time (zeros 64) (zeros 32) version version
      payload verifies_test payload_test payload_test
