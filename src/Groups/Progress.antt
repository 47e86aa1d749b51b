-- ===== src/Groups/Progress.antt =====
-- An epoch that passes the checks is one that the table takes.

use network_self_md.Prelude.{
  ℕ, zero, suc, ◌+◌, ◌≤◌, ◌≡◌, refl, ◌∙◌, subst, true, ◌&&◌, Option, none, some, List, [], ◌∷◌,
  arith, Bytes, Text, length, get_elem?, list_eq, leb, le→leb, ◌==◌,
}
use network_self_md.Prelude.Results.{Result, ok, err, require-passed, require-true}
use network_self_md.Value.{Number}
use network_self_md.GroupState.{
  Primitives, SignedGroupEpoch, EpochError, serialize_epoch, check_signed, verify_epoch,
  verify_genesis_epoch, is_index, max_safe, is_zero, sole_admin, is_expected, zero_hash,
}
use network_self_md.GroupState.Valid.{IsIndex, both}
use network_self_md.Groups.{Authority, Tables, GroupError}
use network_self_md.Groups.EpochTable.{
  version_of, find_version, newest, epochs_of, get_epoch_by_version, save_epoch, is_member_in_epoch,
  is_admin_in_epoch, time_of,
}
use network_self_md.Groups.Receive.{check_genesis, check_next}
use network_self_md.Groups.Chain.{
  IsLinked, IsNext, IsSuccessor, check_next-IsSuccessor, check_genesis-IsAnchor,
}
use network_self_md.Groups.History.{newest-IsLinked}
use network_self_md.Groups.Log.{
  oldest_first, find_version-log, length-oldest_first, version-IsLinked,
}

-- The checks that a delivered epoch passes after the latest one, or as the first.
abbrev pub check :
    Primitives
    → Authority
    → Text
    → Bytes
    → Option SignedGroupEpoch
    → SignedGroupEpoch
    → Result GroupError (Unit {0})
check p a g peer none s = check_genesis p a g s peer
check p a g peer (some latest) s = check_next p latest s peer

pub check-IsNext :
    (p : Primitives) (a : Authority) (g : Text) (peer : Bytes) (latest : Option SignedGroupEpoch)
    (s : SignedGroupEpoch)
    → check p a g peer latest s ≡ ok tt
    → IsNext p a g latest s
check-IsNext p a g peer none s h = check_genesis-IsAnchor p a g s peer h
check-IsNext p a g peer (some latest) s h = check_next-IsSuccessor p latest s peer h

serialized_of :
    (p : Primitives) (s : SignedGroupEpoch) (expected : Bytes)
    → verify_epoch p s expected ≡ true
    → (encoded : Bytes) × (serialize_epoch p s.epoch ≡ ok encoded)
unfolding verify_epoch
serialized_of p s expected h = go (serialize_epoch p s.epoch) h
  where
    go :
        (m : Result EpochError Bytes)
        → check_signed p s expected m ≡ true
        → (encoded : Bytes) × (m ≡ ok encoded)
    go (ok encoded) k = (encoded, refl)
    go (err e) k = absurd (cc k)

pub check-verifies :
    (p : Primitives) (a : Authority) (g : Text) (peer : Bytes) (latest : Option SignedGroupEpoch)
    (s : SignedGroupEpoch)
    → check p a g peer latest s ≡ ok tt
    → (expected : Bytes) × (verify_epoch p s expected ≡ true)
unfolding verify_genesis_epoch
check-verifies p a g peer none s h =
    let all = require-true (verify_genesis_epoch p s g (some a.creator_public_key) && _) _ h in
    let (genesis, h1) = both (verify_genesis_epoch p s g (some a.creator_public_key)) _ all in
    let (version, h2) = both (is_zero s.epoch.version) _ genesis in
    let (group, h3) = both (list_eq s.epoch.group_id g) _ h2 in
    let (start, h4) = both (list_eq s.epoch.prev_hash zero_hash) _ h3 in
    let (sole, h5) = both (sole_admin s.epoch.created_by s.epoch.members) _ h4 in
    let (creator, verified) =
      both (is_expected (some a.creator_public_key) s.epoch.created_by) _ h5 in
    (zero_hash, verified)
check-verifies p a g peer (some latest) s h =
    let (version, h1) = require-passed (version_of s == version_of latest + 1) _ _ _ h in
    let all = require-true (is_member_in_epoch latest peer && _) _ h1 in
    let (member, h2) = both (is_member_in_epoch latest peer) _ all in
    let (by, h3) = both (is_admin_in_epoch latest s.epoch.created_by) _ h2 in
    let (time, verified) = both (leb (time_of latest) (time_of s)) _ h3 in (latest.hash, verified)

is_index-IsIndex : (limit : ℕ) (n : Number) → IsIndex limit n → is_index limit n ≡ true
is_index-IsIndex limit n (k, (e, le)) = rw (e, le→leb k limit le) refl

-- The creation time of the next epoch is one that the table takes.
IsNext-time :
    (p : Primitives) (a : Authority) (g : Text) (latest : Option SignedGroupEpoch)
    (s : SignedGroupEpoch)
    → IsNext p a g latest s
    → is_index max_safe s.epoch.created_at ≡ true
IsNext-time p a g none s next =
    is_index-IsIndex _ s.epoch.created_at next.genesis.accepted.valid.created_at
IsNext-time p a g (some latest) s next =
    is_index-IsIndex _ s.epoch.created_at next.accepted.valid.created_at

get_elem?-beyond : {A : Type 0} (xs : List A) (v : ℕ) → length xs ≤ v → get_elem? xs v ≡ none
get_elem?-beyond [] v h = refl
get_elem?-beyond (x ∷ xs) zero h = absurd (omega arith)
get_elem?-beyond (x ∷ xs) (suc v) h = get_elem?-beyond xs v (omega arith)

-- No row has the version of the next epoch.
next_version_free :
    (p : Primitives) (a : Authority) (g : Text) (s : SignedGroupEpoch) (ss : List SignedGroupEpoch)
    → IsLinked p a g ss
    → IsNext p a g (newest ss) s
    → find_version (version_of s) ss ≡ none
next_version_free p a g s [] h next = refl
next_version_free p a g s (r ∷ rs) h next =
    let after : IsSuccessor p r s =
      subst (λ o. IsNext p a g o s) (newest-IsLinked p a g r rs h) next in
    find_version-log p a g (r ∷ rs) (version_of s) h
    ∙ get_elem?-beyond (oldest_first (r ∷ rs)) (version_of s)
        (omega (arith, after.version, version-IsLinked p a g r rs h, length-oldest_first (r ∷ rs)))

pub save_epoch-next :
    (p : Primitives) (a : Authority) (g : Text) (s : SignedGroupEpoch) (t : Tables)
    (expected : Bytes)
    → s.epoch.group_id ≡ g
    → IsLinked p a g (epochs_of g t.epochs)
    → IsNext p a g (newest (epochs_of g t.epochs)) s
    → verify_epoch p s expected ≡ true
    → save_epoch p s t ≡ ok (record t { epochs = s ∷ t.epochs })
unfolding save_epoch get_epoch_by_version
save_epoch-next p a g s t expected of_group linked next verified =
    let (encoded, serialized) = serialized_of p s expected verified in
    rw
      (
        serialized,
        IsNext-time p a g (newest (epochs_of g t.epochs)) s next,
        of_group,
        next_version_free p a g s (epochs_of g t.epochs) linked next,
      )
      refl
