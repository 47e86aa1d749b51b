-- ===== src/Groups/Membership.antt =====
-- `GroupRepository` and the incoming invites of `GroupInviteRepository`: the groups that a node is
-- in, the authority of each, which is kept when the group is left, and the members.
use network_self_md.Prelude.{
  ℕ, ◌+◌, Bool, true, false, ◌&&◌, ◌||◌, not, Option, none, some, List, Bytes, Text, map, list_eq,
  filter, ltb, ◌==◌, text_key, lookup, insert, delete, if◌then◌else◌,
}
use network_self_md.Prelude.Results.{Result, ok, ◌>>=◌, ◌>>◌, require, or_throw}
use network_self_md.GroupState.{Role, is_admin}
use network_self_md.Groups.{
  StoredGroup, Authority, Direction, incoming, outgoing, Tables, GroupError, authority_mismatch,
  incomplete_authority, group_exists, group_not_found, not_admin, pair_key,
}

abbrev pub new_group : Text → Role → Option Bytes → Option Bytes → ℕ → StoredGroup
new_group name role creator genesis now = record {
  name = name;
  role = role;
  created_at = now;
  joined_at = now;
  self_md = none;
  is_public = false;
  metadata_version = 0;
  creator_public_key = creator;
  genesis_hash = genesis;
}

abbrev pub find : Tables → Bytes → Option StoredGroup
find t g = lookup g t.groups

abbrev pub find_retained_authority : Tables → Bytes → Option Authority
find_retained_authority t g = lookup g t.authorities

abbrev pub is_some : {A : Type 0} → Option A → Bool
is_some none = false
is_some (some a) = true

-- The insertion fails where there is a row of the group.
unfoldable pub create :
    Tables → Bytes → Text → Role → Option Bytes → Option Bytes → ℕ → Result GroupError Tables
create t g name role creator genesis now = do
  require (not (is_some (find t g))) group_exists
  ok (record t { groups = insert g (new_group name role creator genesis now) t.groups })

abbrev pub is_same_authority : Authority → Option Bytes → Option Bytes → Bool
is_same_authority a (some creator) (some genesis) =
    list_eq a.creator_public_key creator && list_eq a.genesis_hash genesis
is_same_authority a _ _ = false

abbrev pub agrees : Option Authority → Option Bytes → Option Bytes → Bool
agrees none creator genesis = true
agrees (some a) creator genesis = is_same_authority a creator genesis

-- The authority of a row that has both columns.
abbrev pub pinned : Option Bytes → Option Bytes → Option Authority
pinned (some creator) (some genesis) =
    some (record { creator_public_key = creator; genesis_hash = genesis })
pinned _ _ = none

abbrev pub coalesce : Option Bytes → Option Bytes → Option Bytes
coalesce (some b) other = some b
coalesce none other = other

-- The condition of the update: no authority is known, or the same one is given.
abbrev pub may_update : StoredGroup → Option Bytes → Option Bytes → Bool
may_update row creator genesis =
    (not (is_some row.creator_public_key)
      && (not (is_some row.genesis_hash)
          && ((not (is_some creator) && not (is_some genesis))
              || (is_some creator && is_some genesis))))
    || (is_some (pinned row.creator_public_key row.genesis_hash)
        && agrees (pinned row.creator_public_key row.genesis_hash) creator genesis)

abbrev pub upsert :
    Tables
    → Bytes
    → Text
    → Role
    → Option Bytes
    → Option Bytes
    → ℕ
    → Option StoredGroup
    → Result GroupError Tables
upsert t g name role creator genesis now none =
    ok (record t { groups = insert g (new_group name role creator genesis now) t.groups })
upsert t g name role creator genesis now (some row) = do
  require (may_update row creator genesis) authority_mismatch
  ok (record t {
    groups =
        insert g
          (record row {
            name = name;
            joined_at = now;
            creator_public_key = coalesce row.creator_public_key creator;
            genesis_hash = coalesce row.genesis_hash genesis;
          })
          t.groups;
  })

abbrev pub is_complete : Option Bytes → Option Bytes → Bool
is_complete (some creator) (some genesis) = true
is_complete none none = true
is_complete _ _ = false

unfoldable pub join :
    Tables → Bytes → Text → Role → Option Bytes → Option Bytes → ℕ → Result GroupError Tables
join t g name role creator genesis now = do
  require (agrees (find_retained_authority t g) creator genesis) authority_mismatch
  require (is_complete creator genesis) incomplete_authority
  upsert t g name role creator genesis now (find t g)

-- `INSERT OR IGNORE` of the authority, for a group that has one.
abbrev pub authority_in : Option StoredGroup → Option Authority
authority_in none = none
authority_in (some row) = pinned row.creator_public_key row.genesis_hash

abbrev pub retain :
    Bytes
    → Option Authority
    → Option Authority
    → List (Bytes × Authority)
    → List (Bytes × Authority)
retain g none (some a) rows = insert g a rows
retain g _ _ rows = rows

unfoldable pub leave : Tables → Bytes → Tables
leave t g = record t {
  authorities = retain g (find_retained_authority t g) (authority_in (find t g)) t.authorities;
  groups = delete g t.groups;
  members = filter (λ row. not (list_eq row.0.0 g)) t.members;
  sender_keys = filter (λ row. not (list_eq row.0.0 g)) t.sender_keys;
}

unfoldable pub pin_authority : Tables → Bytes → Bytes → Bytes → Result GroupError Tables
pin_authority t g creator genesis = do
  row ← or_throw (find t g) authority_mismatch
  require
      ((not (is_some row.creator_public_key) && not (is_some row.genesis_hash))
        || agrees (pinned row.creator_public_key row.genesis_hash) (some creator) (some genesis)
          && is_some (pinned row.creator_public_key row.genesis_hash))
      authority_mismatch
  ok (record t {
    groups =
        insert g (record row { creator_public_key = some creator; genesis_hash = some genesis })
          t.groups;
  })

unfoldable pub add_member : Tables → Bytes → Bytes → Role → Tables
add_member t g key role = record t { members = insert (g, key) role t.members }

unfoldable pub remove_member : Tables → Bytes → Bytes → Tables
remove_member t g key = record t { members = delete (g, key) t.members }

-- The public keys of a group's members.
unfoldable pub get_members : Tables → Bytes → List Bytes
get_members t g = map (λ row. row.0.1) (filter (λ row. list_eq row.0.0 g) t.members)

unfoldable pub set_public : Tables → Bytes → Bool → Option Text → Result GroupError Tables
set_public t g is_public self_md = do
  row ← or_throw (find t g) group_not_found
  require (is_admin row.role) not_admin
  ok (record t {
    groups =
        insert g
          (record row {
            is_public = is_public;
            self_md = coalesce self_md row.self_md;
            metadata_version = row.metadata_version + 1;
          })
          t.groups;
  })

unfoldable pub update_manifest : Tables → Bytes → Text → Result GroupError Tables
update_manifest t g self_md = do
  row ← or_throw (find t g) not_admin
  require (is_admin row.role) not_admin
  ok (record t {
    groups =
        insert g
          (record row { self_md = some self_md; metadata_version = row.metadata_version + 1 })
          t.groups;
  })

-- `WHERE metadata_version < ?`: whether a row was changed, and the tables.
unfoldable pub apply_metadata : Tables → Bytes → Text → Bool → ℕ → Bool × Tables
apply_metadata t g self_md is_public version = elim (find t g) [
  | none ↦ (false, t)
  | some row ↦
      if ltb row.metadata_version version
      then (
        true,
        record t {
          groups =
              insert g
                (record row {
                  self_md = some self_md;
                  is_public = is_public;
                  metadata_version = version;
                })
                t.groups;
        },
      )
      else (false, t)
]

unfoldable pub seed_public_metadata : Tables → Bytes → Text → Tables
seed_public_metadata t g self_md = elim (find t g) [
  | none ↦ t
  | some row ↦
      if row.metadata_version == 0
      then record t {
        groups = insert g (record row { self_md = some self_md; is_public = true }) t.groups;
      }
      else t
]

abbrev pub is_incoming : Direction → Bool
is_incoming incoming = true
is_incoming outgoing = false

-- `GroupInviteRepository.deleteIncoming`.
unfoldable pub delete_incoming : Tables → Bytes → Tables
delete_incoming t g = record t {
  invites = filter (λ i. not (list_eq i.group_id g && is_incoming i.direction)) t.invites;
}
