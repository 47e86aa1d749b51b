-- ===== src/GroupState/Genesis.antt =====
-- The first epoch of a group: what is created verifies, and what verifies is a group of its creator.
use network_self_md.Prelude.{
  ℕ, ◌≤◌, ◌≡◌, ap, true, Option, some, List, [], ◌∷◌, Bytes, Text, list_eq, list_eq_self,
  list_eq→eq, length, le→leb, ==_iff,
}
use network_self_md.Prelude.Results.{ok}
use network_self_md.Value.{Number, nat}
use network_self_md.GroupState.{
  Primitives, PrimitiveLaws, admin, GroupMemberEntry, SignedGroupEpoch, zero_hash, is_zero,
  sole_admin, is_expected, assert_members, assert_epoch, epoch_value, serialize_epoch,
  create_signed_epoch, verify_epoch, verify_genesis_epoch, create_genesis_epoch,
}
use network_self_md.GroupState.Valid.{IsAccepted, verify_epoch-IsAccepted, both, is_admin-role}

-- A group of one: its creator, an admin.
pub record IsGenesis (p : Primitives) (s : SignedGroupEpoch) (group_id : Text) : Type 0 where
  pub accepted : IsAccepted p s zero_hash
  pub version : s.epoch.version ≡ nat 0
  pub group : s.epoch.group_id ≡ group_id
  pub sole : s.epoch.members ≡ record { public_key = s.epoch.created_by; role = admin } ∷ []

is_zero-nat : (n : Number) → is_zero n ≡ true → n ≡ nat 0
is_zero-nat (nat k) h = ap nat ((==_iff k 0).0 h)
is_zero-nat (Number.negative k) h = absurd (cc h)
is_zero-nat (Number.fraction k) h = absurd (cc h)
is_zero-nat (Number.infinite b) h = absurd (cc h)
is_zero-nat Number.nan h = absurd (cc h)

sole_admin-members :
    (key : Bytes) (ms : List GroupMemberEntry)
    → sole_admin key ms ≡ true
    → ms ≡ record { public_key = key; role = admin } ∷ []
sole_admin-members key [] h = absurd (cc h)
sole_admin-members key (m ∷ []) h =
    let (role, same) = both _ _ h in
    ap (λ e. e ∷ [])
      (λ i. record {
        public_key = list_eq→eq m.public_key key same i;
        role = is_admin-role m.role role i;
      })
sole_admin-members key (m ∷ n ∷ ms) h = absurd (cc h)

-- A first epoch that verifies is an accepted one of version zero, for the group that was expected,
-- and its only member is its creator, as an admin; where a creator was expected, it is that one.
pub verify_genesis_epoch-IsGenesis :
    (p : Primitives) (s : SignedGroupEpoch) (group_id : Text) (creator : Option Bytes)
    → verify_genesis_epoch p s group_id creator ≡ true
    → IsGenesis p s group_id × ((key : Bytes) → creator ≡ some key → s.epoch.created_by ≡ key)
unfolding verify_genesis_epoch
verify_genesis_epoch-IsGenesis p s group_id creator h =
    let (version, h1) = both (is_zero s.epoch.version) _ h in
    let (group, h2) = both (list_eq s.epoch.group_id group_id) _ h1 in
    let (start, h3) = both (list_eq s.epoch.prev_hash zero_hash) _ h2 in
    let (sole, h4) = both (sole_admin s.epoch.created_by s.epoch.members) _ h3 in
    let (expected, verified) = both (is_expected creator s.epoch.created_by) _ h4 in
    (
      record {
        accepted = verify_epoch-IsAccepted p s zero_hash verified;
        version = is_zero-nat s.epoch.version version;
        group = list_eq→eq _ _ group;
        sole = sole_admin-members s.epoch.created_by s.epoch.members sole;
      },
      λ key e. list_eq→eq s.epoch.created_by key (rw e at expected),
    )

create_genesis_epoch-valid :
    (p : Primitives) (laws : PrimitiveLaws p) (group_id : Text) (key : Bytes) (time : ℕ)
    → 1 ≤ length (p.utf8 group_id)
    → length (p.utf8 group_id) ≤ 128
    → time ≤ 9007199254740991
    → assert_epoch p (create_genesis_epoch group_id (p.public_key key) (nat time)) ≡ ok tt
unfolding create_genesis_epoch assert_epoch assert_members
create_genesis_epoch-valid p laws group_id key time low high safe = rw (
  le→leb 1 (length (p.utf8 group_id)) low,
  le→leb (length (p.utf8 group_id)) 128 high,
  le→leb time 9007199254740991 safe,
  laws.length-public_key key,
)

-- The epoch that a creator signs for a new group, with an id of 1 to 128 bytes and a safe time,
-- verifies as the first epoch of that group by that creator.
pub create_genesis-verifies :
    (p : Primitives) (laws : PrimitiveLaws p) (group_id : Text) (key : Bytes) (time : ℕ)
    → 1 ≤ length (p.utf8 group_id)
    → length (p.utf8 group_id) ≤ 128
    → time ≤ 9007199254740991
    → (s : SignedGroupEpoch) × ((create_signed_epoch p
            (create_genesis_epoch group_id (p.public_key key) (nat time))
            key
          ≡ ok s)
        × (verify_genesis_epoch p s group_id (some (p.public_key key)) ≡ true))
unfolding create_signed_epoch verify_genesis_epoch verify_epoch serialize_epoch create_genesis_epoch
    list_eq
create_genesis-verifies p laws group_id key time low high safe =
    let epoch = create_genesis_epoch group_id (p.public_key key) (nat time) in
    let encoded = p.cbor (epoch_value epoch) in
    let valid = create_genesis_epoch-valid p laws group_id key time low high safe in
    (
      record { epoch = epoch; signature = p.sign encoded key; hash = p.sha256 encoded },
      (
        rw valid,
        rw (
          valid,
          list_eq_self group_id,
          list_eq_self (p.public_key key),
          list_eq_self (p.sha256 encoded),
          laws.length-sign encoded key,
          laws.length-sha256 encoded,
          laws.verify-sign encoded key,
        ),
      ),
    )
