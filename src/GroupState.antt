-- ===== src/GroupState.antt =====
-- Membership epochs of packages/core/src/protocol/group-state.ts: what a valid epoch is, and how it
-- is signed and verified. CBOR, UTF-8, SHA-256 and Ed25519 are libraries, given as functions. Errors
-- are values of their own; an epoch's numbers are JavaScript numbers.
pub mod Valid
pub mod Genesis
pub mod Decoding
pub mod Examples
use network_self_md.Prelude.{
  ℕ, zero, suc, ◌≡◌, Bool, true, false, ◌&&◌, ◌||◌, not, Option, none, some, List, [], ◌∷◌, ◌++◌,
  Bytes, Text, codes, list_eq, length, any, ltb, leb, ◌==◌, if◌then◌else◌,
}
use network_self_md.Prelude.Results.{Result, ok, err, ◌>>=◌, ◌>>◌, require}
use network_self_md.Bytes.{to_hex}
use network_self_md.Value.{Number, nat, Value, Values, nil, cons, number, string, bytes, array}

pub record Primitives : Type 0 where
  -- `TextEncoder.encode`, `Encoder.encode` of cbor-x and `sha256`.
  pub utf8 : Text → Bytes
  pub cbor : Value → Bytes
  pub sha256 : Bytes → Bytes
  -- `ed25519.sign(message, privateKey)`, `verify(signature, message, publicKey)`, and the public key
  -- of a private key. `verify` is false where the library's throws.
  pub sign : Bytes → Bytes → Bytes
  pub verify : Bytes → Bytes → Bytes → Bool
  pub public_key : Bytes → Bytes

pub record PrimitiveLaws (p : Primitives) : Type 0 where
  pub verify-sign : (m key : Bytes) → p.verify (p.sign m key) m (p.public_key key) ≡ true
  pub length-sign : (m key : Bytes) → length (p.sign m key) ≡ 64
  pub length-sha256 : (m : Bytes) → length (p.sha256 m) ≡ 32
  pub length-public_key : (key : Bytes) → length (p.public_key key) ≡ 32

-- A role that is neither stands for any other string.
pub data Role : Type 0 where
  admin member : Role
  other_role : Text → Role

pub record GroupMemberEntry : Type 0 where
  pub public_key : Bytes
  pub role : Role

pub record GroupEpoch : Type 0 where
  pub version : Number
  pub prev_hash : Bytes
  pub group_id : Text
  pub members : List GroupMemberEntry
  pub created_at : Number
  pub created_by : Bytes

pub record SignedGroupEpoch : Type 0 where
  pub epoch : GroupEpoch
  pub signature : Bytes
  pub hash : Bytes

pub data EpochError : Type 0 where
  bad_version bad_length bad_group_id bad_member_count bad_role duplicate_member bad_created_at :
      EpochError
  bad_size malformed_cbor bad_schema unsupported_format bad_members bad_member_schema : EpochError

abbrev pub max_group_members : ℕ
max_group_members = 1024

abbrev pub zeros : ℕ → Bytes
zeros zero = []
zeros (suc n) = 0 ∷ zeros n

abbrev pub zero_hash : Bytes
zero_hash = zeros 32

-- `Number.MAX_SAFE_INTEGER`.
abbrev pub max_safe : ℕ
max_safe = 9007199254740991

-- `Number.isSafeInteger(n) && n >= 0 && n <= limit`, for a limit that is safe.
abbrev pub is_index : ℕ → Number → Bool
is_index limit (nat n) = leb n limit
is_index limit _ = false

abbrev pub is_role : Role → Bool
is_role (other_role r) = false
is_role _ = true

abbrev pub is_admin : Role → Bool
is_admin admin = true
is_admin _ = false

-- The loop over the members, with the set of keys seen.
unfoldable pub assert_members : List Text → List GroupMemberEntry → Result EpochError (Unit {0})
assert_members seen [] = ok tt
assert_members seen (m ∷ ms) = do
  require (length m.public_key == 32) bad_length
  require (is_role m.role) bad_role
  require (not (any (λ k. list_eq k (to_hex m.public_key)) seen)) duplicate_member
  assert_members (to_hex m.public_key ∷ seen) ms

unfoldable pub assert_epoch : Primitives → GroupEpoch → Result EpochError (Unit {0})
unfolding assert_members
assert_epoch p e = do
  require (is_index 4294967295 e.version) bad_version
  require (length e.prev_hash == 32) bad_length
  require (leb 1 (length (p.utf8 e.group_id)) && leb (length (p.utf8 e.group_id)) 128) bad_group_id
  require (leb 1 (length e.members) && leb (length e.members) max_group_members) bad_member_count
  assert_members [] e.members
  require (is_index max_safe e.created_at) bad_created_at
  require (length e.created_by == 32) bad_length

abbrev pub role_text : Role → Text
role_text admin = codes "admin"
role_text member = codes "member"
role_text (other_role r) = r

abbrev pub member_values : List GroupMemberEntry → Values
member_values [] = nil
member_values (m ∷ ms) =
    cons (array (cons (bytes m.public_key) (cons (string (role_text m.role)) nil)))
      (member_values ms)

-- The array that `serializeEpoch` encodes.
unfoldable pub epoch_value : GroupEpoch → Value
epoch_value e = array (
    cons (string (codes "network.self.md/GroupEpoch")) (
      cons (number (nat 1)) (
        cons (number e.version) (
          cons (bytes e.prev_hash) (
            cons (string e.group_id) (
              cons (array (member_values e.members))
                (cons (number e.created_at) (cons (bytes e.created_by) nil))))))))

unfoldable pub serialize_epoch : Primitives → GroupEpoch → Result EpochError Bytes
unfolding assert_epoch epoch_value
serialize_epoch p e = do assert_epoch p e; ok (p.cbor (epoch_value e))

unfoldable pub create_signed_epoch :
    Primitives → GroupEpoch → Bytes → Result EpochError SignedGroupEpoch
unfolding serialize_epoch
create_signed_epoch p e key = do
  serialized ← serialize_epoch p e
  ok (record { epoch = e; signature = p.sign serialized key; hash = p.sha256 serialized })

-- The creator is an admin of the epoch itself.
abbrev pub has_admin : Bytes → List GroupMemberEntry → Bool
has_admin key ms = any (λ m. is_admin m.role && list_eq m.public_key key) ms

abbrev pub check_signed : Primitives → SignedGroupEpoch → Bytes → Result EpochError Bytes → Bool
check_signed p s expected (err e) = false
check_signed p s expected (ok serialized) =
    length s.signature == 64
    && (length s.hash == 32
        && (length expected == 32
            && (list_eq (p.sha256 serialized) s.hash
                && (p.verify s.signature serialized s.epoch.created_by
                    && (list_eq s.epoch.prev_hash expected
                        && has_admin s.epoch.created_by s.epoch.members)))))

unfoldable pub verify_epoch : Primitives → SignedGroupEpoch → Bytes → Bool
unfolding serialize_epoch
verify_epoch p s expected = check_signed p s expected (serialize_epoch p s.epoch)

abbrev pub is_zero : Number → Bool
is_zero (nat n) = n == 0
is_zero _ = false

-- The one member is an admin with the creator's key.
abbrev pub sole_admin : Bytes → List GroupMemberEntry → Bool
sole_admin key (m ∷ []) = is_admin m.role && list_eq m.public_key key
sole_admin key _ = false

abbrev pub is_expected : Option Bytes → Bytes → Bool
is_expected none key = true
is_expected (some expected) key = list_eq key expected

unfoldable pub verify_genesis_epoch : Primitives → SignedGroupEpoch → Text → Option Bytes → Bool
unfolding verify_epoch
verify_genesis_epoch p s group_id creator =
    is_zero s.epoch.version
    && (list_eq s.epoch.group_id group_id
        && (list_eq s.epoch.prev_hash zero_hash
            && (sole_admin s.epoch.created_by s.epoch.members
                && (is_expected creator s.epoch.created_by && verify_epoch p s zero_hash))))

unfoldable pub create_genesis_epoch : Text → Bytes → Number → GroupEpoch
create_genesis_epoch group_id key created_at = record {
  version = nat 0;
  prev_hash = zero_hash;
  group_id = group_id;
  members = record { public_key = key; role = admin } ∷ [];
  created_at = created_at;
  created_by = key;
}
