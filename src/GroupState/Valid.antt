-- ===== src/GroupState/Valid.antt =====
-- What is known of an epoch that verifies.
use mathlib.Core.List.{Memᴰ}
use network_self_md.Prelude.{
  ℕ, ◌≤◌, ◌≡◌, ◌≢◌, refl, sym, ap, Bool, true, false, ◌&&◌, not, inl, inr, List, [], ◌∷◌, arith,
  Bytes, Text, list_eq, list_eq_self, list_eq→eq, length, any, leb, leb→le, ==_iff, ◌==◌, All,
  Bool-cases,
}
use network_self_md.Prelude.Results.{Result, ok, err, ◌>>◌, require}
use network_self_md.Bytes.{to_hex}
use network_self_md.Value.{Number, nat}
use network_self_md.GroupState.{
  Primitives, Role, admin, is_role, is_admin, is_index, max_safe, GroupMemberEntry, GroupEpoch,
  SignedGroupEpoch, EpochError, assert_members, assert_epoch, epoch_value, serialize_epoch,
  has_admin, check_signed, verify_epoch,
}

pub record IsMember (m : GroupMemberEntry) : Type 0 where
  pub key_length : length m.public_key ≡ 32
  pub known_role : is_role m.role ≡ true

-- No key stands twice.
abbrev pub Distinct : List GroupMemberEntry → Type 0
Distinct [] = Unit {0}
Distinct (m ∷ ms) = All (λ n. n.public_key ≢ m.public_key) ms × Distinct ms

abbrev pub IsIndex : ℕ → Number → Type 0
IsIndex limit n = (k : ℕ) × ((n ≡ nat k) × (k ≤ limit))

pub record IsEpoch (p : Primitives) (e : GroupEpoch) : Type 0 where
  pub version : IsIndex 4294967295 e.version
  pub prev_hash : length e.prev_hash ≡ 32
  pub group_id : (1 ≤ length (p.utf8 e.group_id)) × (length (p.utf8 e.group_id) ≤ 128)
  pub member_count : (1 ≤ length e.members) × (length e.members ≤ 1024)
  pub each_member : All IsMember e.members
  pub distinct : Distinct e.members
  pub created_at : IsIndex 9007199254740991 e.created_at
  pub created_by : length e.created_by ≡ 32

-- A check that passed, and what came after it.
passed :
    {A : Type 0} (b : Bool) (e : EpochError) (k : Result EpochError A) (a : A)
    → (require b e >> k) ≡ ok a
    → (b ≡ true) × (k ≡ ok a)
passed true e k a h = (refl, h)
passed false e k a h = absurd (cc h)

is_index-IsIndex : (limit : ℕ) (n : Number) → is_index limit n ≡ true → IsIndex limit n
is_index-IsIndex limit (nat k) h = (k, (refl, leb→le k limit h))
is_index-IsIndex limit (Number.negative k) h = absurd (cc h)
is_index-IsIndex limit (Number.fraction k) h = absurd (cc h)
is_index-IsIndex limit (Number.infinite b) h = absurd (cc h)
is_index-IsIndex limit Number.nan h = absurd (cc h)

require_passed : (b : Bool) (e : EpochError) → require b e ≡ ok tt → b ≡ true
require_passed true e h = refl
require_passed false e h = absurd (cc h)

passed_all :
    {A : Type 0} (m : Result EpochError (Unit {0})) (k : Result EpochError A) (a : A)
    → (m >> k) ≡ ok a
    → (m ≡ ok tt) × (k ≡ ok a)
passed_all (ok u) k a h = (refl, h)
passed_all (err e) k a h = absurd (cc h)

abbrev Unseen : List Text → GroupMemberEntry → Type 0
Unseen seen m = any (λ k. list_eq k (to_hex m.public_key)) seen ≡ false

-- What the loop checked of its first member.
assert_first :
    (seen : List Text) (m : GroupMemberEntry) (ms : List GroupMemberEntry)
    → assert_members seen (m ∷ ms) ≡ ok tt
    → IsMember m × (Unseen seen m × (assert_members (to_hex m.public_key ∷ seen) ms ≡ ok tt))
unfolding assert_members
assert_first seen m ms h =
    let (key_length, h1) = passed (length m.public_key == 32) _ _ _ h in
    let (role, h2) = passed (is_role m.role) _ _ _ h1 in
    let (new, h3) = passed (not (any (λ k. list_eq k (to_hex m.public_key)) seen)) _ _ _ h2 in
    (record { key_length = (==_iff _ _).0 key_length; known_role = role }, (ground arith, h3))

All-Unseen-tail :
    (k : Text) (seen : List Text) (ms : List GroupMemberEntry)
    → All (Unseen (k ∷ seen)) ms
    → All (Unseen seen) ms
All-Unseen-tail k seen [] h = tt
All-Unseen-tail k seen (m ∷ ms) h = (ground (arith, h.0), All-Unseen-tail k seen ms h.1)

All-Unseen-other :
    (m : GroupMemberEntry) (seen : List Text) (ms : List GroupMemberEntry)
    → All (Unseen (to_hex m.public_key ∷ seen)) ms
    → All (λ n. n.public_key ≢ m.public_key) ms
All-Unseen-other m seen [] h = tt
All-Unseen-other m seen (n ∷ ms) h = (
  λ e. ground (arith, h.0, e, ap to_hex e, list_eq_self (to_hex m.public_key)),
  All-Unseen-other m seen ms h.1,
)

assert_members-Unseen :
    (seen : List Text) (ms : List GroupMemberEntry)
    → assert_members seen ms ≡ ok tt
    → All (Unseen seen) ms
assert_members-Unseen seen [] h = tt
assert_members-Unseen seen (m ∷ ms) h =
    let (first, (new, rest)) = assert_first seen m ms h in
    (
      new,
      All-Unseen-tail (to_hex m.public_key) seen ms
          (assert_members-Unseen (to_hex m.public_key ∷ seen) ms rest),
    )

assert_members-IsMember :
    (seen : List Text) (ms : List GroupMemberEntry)
    → assert_members seen ms ≡ ok tt
    → All IsMember ms × Distinct ms
assert_members-IsMember seen [] h = (tt, tt)
assert_members-IsMember seen (m ∷ ms) h =
    let (first, (new, rest)) = assert_first seen m ms h in
    let (members, distinct) = assert_members-IsMember (to_hex m.public_key ∷ seen) ms rest in
    (
      (first, members),
      (
        All-Unseen-other m seen ms (assert_members-Unseen (to_hex m.public_key ∷ seen) ms rest),
        distinct,
      ),
    )

pub both : (a b : Bool) → (a && b) ≡ true → (a ≡ true) × (b ≡ true)
both a b h = ground arith

pub assert_epoch-IsEpoch :
    (p : Primitives) (e : GroupEpoch) → assert_epoch p e ≡ ok tt → IsEpoch p e
unfolding assert_epoch
assert_epoch-IsEpoch p e h =
    let (version, h1) = passed (is_index 4294967295 e.version) _ _ _ h in
    let (prev_hash, h2) = passed (length e.prev_hash == 32) _ _ _ h1 in
    let (group_id, h3) = passed (leb 1 (length (p.utf8 e.group_id)) && _) _ _ _ h2 in
    let (count, h4) = passed (leb 1 (length e.members) && _) _ _ _ h3 in
    let (checked, h5) = passed_all (assert_members [] e.members) _ _ h4 in
    let (created_at, h6) = passed (is_index max_safe e.created_at) _ _ _ h5 in
    let (each_member, distinct) = assert_members-IsMember [] e.members checked in
    record {
      version = is_index-IsIndex _ e.version version;
      prev_hash = (==_iff _ _).0 prev_hash;
      group_id = ground (arith, group_id);
      member_count = ground (arith, count);
      each_member = each_member;
      distinct = distinct;
      created_at = is_index-IsIndex _ e.created_at created_at;
      created_by = (==_iff _ _).0 (require_passed _ _ h6);
    }

-- What verification promises of a signed epoch.
pub record IsAccepted (p : Primitives) (s : SignedGroupEpoch) (expected : Bytes) : Type 0 where
  pub valid : IsEpoch p s.epoch
  pub hashed : s.hash ≡ p.sha256 (p.cbor (epoch_value s.epoch))
  pub signed : p.verify s.signature (p.cbor (epoch_value s.epoch)) s.epoch.created_by ≡ true
  pub follows : s.epoch.prev_hash ≡ expected
  pub by_admin :
      (m : GroupMemberEntry) × (Memᴰ m s.epoch.members
        × ((m.role ≡ admin) × (m.public_key ≡ s.epoch.created_by)))

pub is_admin-role : (r : Role) → is_admin r ≡ true → r ≡ admin
is_admin-role admin h = refl
is_admin-role Role.member h = absurd (cc h)
is_admin-role (Role.other_role r) h = absurd (cc h)

has_admin-mem :
    (key : Bytes) (ms : List GroupMemberEntry)
    → has_admin key ms ≡ true
    → (m : GroupMemberEntry) × (Memᴰ m ms × ((m.role ≡ admin) × (m.public_key ≡ key)))
has_admin-mem key [] h = absurd (cc h)
has_admin-mem key (m ∷ ms) h = elim (Bool-cases (is_admin m.role && list_eq m.public_key key)) [
  | inl found ↦
      let (role, same) = both _ _ found in
      (m, (Memᴰ.head refl, (is_admin-role m.role role, list_eq→eq _ _ same)))
  | inr other ↦
      let (n, (listed, is)) = has_admin-mem key ms (rw other at h) in (n, (Memᴰ.tail listed, is))
]

-- A signed epoch that verifies is valid: its numbers and lengths are in range, and no key stands
-- twice among its members. Its hash is the one of its encoding, its creator signed that encoding
-- and is an admin of this epoch, and it follows the epoch of the expected hash.
pub verify_epoch-IsAccepted :
    (p : Primitives) (s : SignedGroupEpoch) (expected : Bytes)
    → verify_epoch p s expected ≡ true
    → IsAccepted p s expected
unfolding verify_epoch serialize_epoch
verify_epoch-IsAccepted p s expected h =
    let (asserted, checks) = asserted_of (assert_epoch p s.epoch) h in
    let (signature_length, h1) = both (length s.signature == 64) _ checks in
    let (hash_length, h2) = both (length s.hash == 32) _ h1 in
    let (expected_length, h3) = both (length expected == 32) _ h2 in
    let (hashed, h4) = both (list_eq (p.sha256 _) s.hash) _ h3 in
    let (signed, h5) = both (p.verify s.signature _ s.epoch.created_by) _ h4 in
    let (follows, by) = both (list_eq s.epoch.prev_hash expected) _ h5 in
    record {
      valid = assert_epoch-IsEpoch p s.epoch asserted;
      hashed = sym (list_eq→eq _ _ hashed);
      signed = signed;
      follows = list_eq→eq _ _ follows;
      by_admin = has_admin-mem s.epoch.created_by s.epoch.members by;
    }
  where
    asserted_of :
        (m : Result EpochError (Unit {0}))
        → check_signed p s expected (m >> ok (p.cbor (epoch_value s.epoch))) ≡ true
        → (m ≡ ok tt) × (check_signed p s expected (ok (p.cbor (epoch_value s.epoch))) ≡ true)
    asserted_of (ok u) k = (refl, k)
    asserted_of (err e) k = absurd (cc k)
