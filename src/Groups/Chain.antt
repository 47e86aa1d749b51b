-- ===== src/Groups/Chain.antt =====
-- The chain of a group's epochs: what follows what, and that the checks establish it.
use network_self_md.Prelude.{
  ◌+◌, ◌≤◌, ◌≡◌, refl, true, ◌&&◌, Option, none, some, List, [], ◌∷◌, Bytes, Text, list_eq,
  list_eq→eq, leb, leb→le, ◌==◌, ==_iff,
}
use network_self_md.Prelude.Results.{ok, require-passed, require-true}
use network_self_md.GroupState.{Primitives, SignedGroupEpoch, verify_genesis_epoch}
use network_self_md.GroupState.Valid.{IsAccepted, verify_epoch-IsAccepted, both}
use network_self_md.GroupState.Genesis.{IsGenesis, verify_genesis_epoch-IsGenesis}
use network_self_md.Groups.{Authority}
use network_self_md.Groups.EpochTable.{version_of, time_of, is_member_in_epoch, is_admin_in_epoch}
use network_self_md.Groups.Receive.{check_genesis, check_next}

-- One epoch after another: it verifies against the hash of the one before, has the version after
-- it, is not older, and was made by an admin of the epoch before.
pub record IsSuccessor (p : Primitives) (before s : SignedGroupEpoch) : Type 0 where
  pub accepted : IsAccepted p s before.hash
  pub version : version_of s ≡ version_of before + 1
  pub by_earlier_admin : is_admin_in_epoch before s.epoch.created_by ≡ true
  pub not_older : time_of before ≤ time_of s

-- The first epoch: the group's authority made it, and it has the hash that was pinned.
pub record IsAnchor (p : Primitives) (a : Authority) (g : Text) (s : SignedGroupEpoch)
    : Type 0 where
  pub genesis : IsGenesis p s g
  pub by_creator : s.epoch.created_by ≡ a.creator_public_key
  pub hash_pinned : s.hash ≡ a.genesis_hash

abbrev pub IsNext :
    Primitives → Authority → Text → Option SignedGroupEpoch → SignedGroupEpoch → Type 0
IsNext p a g none s = IsAnchor p a g s
IsNext p a g (some before) s = IsSuccessor p before s

-- The epochs from the newest on, each the next of the one behind it.
abbrev pub IsLinked : Primitives → Authority → Text → List SignedGroupEpoch → Type 0
IsLinked p a g [] = Unit {0}
IsLinked p a g (s ∷ []) = IsAnchor p a g s
IsLinked p a g (s ∷ r ∷ rs) = IsSuccessor p r s × IsLinked p a g (r ∷ rs)

pub check_next-IsSuccessor :
    (p : Primitives) (before s : SignedGroupEpoch) (peer : Bytes)
    → check_next p before s peer ≡ ok tt
    → IsSuccessor p before s
check_next-IsSuccessor p before s peer h =
    let (version, h1) = require-passed (version_of s == version_of before + 1) _ _ _ h in
    let all = require-true (is_member_in_epoch before peer && _) _ h1 in
    let (is_member, h2) = both (is_member_in_epoch before peer) _ all in
    let (by, h3) = both (is_admin_in_epoch before s.epoch.created_by) _ h2 in
    let (time, verified) = both (leb (time_of before) (time_of s)) _ h3 in
    record {
      accepted = verify_epoch-IsAccepted p s before.hash verified;
      version = (==_iff _ _).0 version;
      by_earlier_admin = by;
      not_older = leb→le _ _ time;
    }

pub check_genesis-IsAnchor :
    (p : Primitives) (a : Authority) (g : Text) (s : SignedGroupEpoch) (peer : Bytes)
    → check_genesis p a g s peer ≡ ok tt
    → IsAnchor p a g s
check_genesis-IsAnchor p a g s peer h =
    let all = require-true (verify_genesis_epoch p s g (some a.creator_public_key) && _) _ h in
    let (verified, h1) = both (verify_genesis_epoch p s g (some a.creator_public_key)) _ all in
    let (pinned, from) = both (list_eq s.hash a.genesis_hash) _ h1 in
    let (genesis, creator) =
      verify_genesis_epoch-IsGenesis p s g (some a.creator_public_key) verified in
    record {
      genesis = genesis;
      by_creator = creator a.creator_public_key refl;
      hash_pinned = list_eq→eq _ _ pinned;
    }
