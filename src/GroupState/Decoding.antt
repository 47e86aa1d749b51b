-- ===== src/GroupState/Decoding.antt =====
-- `deserializeEpoch` of packages/core/src/protocol/group-state.ts. The CBOR decoder is a library: a
-- function that gives nothing where it throws.
use network_self_md.Prelude.{
  ℕ, ◌≤◌, ◌≡◌, refl, Bool, true, false, ◌&&◌, Option, some, List, [], ◌∷◌, Bytes, Text, codes,
  list_eq, length, le→leb, leb, All, if◌then◌else◌, ◌==◌,
}
use network_self_md.Prelude.Results.{Result, ok, err, ◌>>=◌, ◌>>◌, require, or_throw}
use network_self_md.Value.{Number, nat, Value, Values, nil, cons, number, string, bytes, array}
use network_self_md.GroupState.{
  Primitives, Role, admin, member, other_role, is_role, role_text, GroupMemberEntry, GroupEpoch,
  EpochError, bad_size, malformed_cbor, bad_schema, unsupported_format, bad_members,
  bad_member_schema, assert_epoch, member_values, epoch_value, serialize_epoch,
}
use network_self_md.GroupState.Valid.{IsMember, assert_epoch-IsEpoch}

-- A decoded field of another type reads as a value that `assertEpoch` refuses in the same way: NaN,
-- the empty byte array, the empty text or a role that is neither.
abbrev pub number_of : Value → Number
number_of (number n) = n
number_of _ = Number.nan

abbrev pub bytes_of : Value → Bytes
bytes_of (bytes b) = b
bytes_of _ = []

abbrev pub text_of : Value → Text
text_of (string s) = s
text_of _ = []

abbrev pub role_named : Text → Role
role_named r =
    if list_eq r (codes "admin")
    then admin
    else if list_eq r (codes "member")
    then member
    else other_role r

abbrev pub role_of : Value → Role
role_of v = role_named (text_of v)

abbrev pub decode_entry : Value → Result EpochError GroupMemberEntry
decode_entry (array (cons key (cons role nil))) =
    ok (record { public_key = bytes_of key; role = role_of role })
decode_entry _ = err bad_member_schema

abbrev pub decode_each : Values → Result EpochError (List GroupMemberEntry)
decode_each nil = ok []
decode_each (cons v vs) = do m ← decode_entry v; ms ← decode_each vs; ok (m ∷ ms)

abbrev pub decode_members : Value → Result EpochError (List GroupMemberEntry)
decode_members (array vs) = decode_each vs
decode_members _ = err bad_members

abbrev pub is_text : Text → Value → Bool
is_text expected (string s) = list_eq s expected
is_text expected _ = false

abbrev pub is_number : ℕ → Value → Bool
is_number expected (number (nat n)) = n == expected
is_number expected _ = false

abbrev pub max_epoch_bytes : ℕ
max_epoch_bytes = 262144

-- The eight fields, once the outer array is known to have eight.
abbrev pub decode_fields :
    Primitives
    → Value
    → Value
    → Value
    → Value
    → Value
    → Value
    → Value
    → Value
    → Result EpochError GroupEpoch
decode_fields p domain format version prev_hash group_id members created_at created_by = do
  require (is_text (codes "network.self.md/GroupEpoch") domain && is_number 1 format)
      unsupported_format
  ms ← decode_members members
  let epoch : GroupEpoch = record {
    version = number_of version;
    prev_hash = bytes_of prev_hash;
    group_id = text_of group_id;
    members = ms;
    created_at = number_of created_at;
    created_by = bytes_of created_by;
  }
  assert_epoch p epoch
  ok epoch

abbrev pub decode_epoch : Primitives → Value → Result EpochError GroupEpoch
decode_epoch p (array (cons a (cons b (cons c (cons d (cons e (cons f (cons g (cons h nil))))))))) =
    decode_fields p a b c d e f g h
decode_epoch p _ = err bad_schema

unfoldable pub deserialize_epoch :
    Primitives → (Bytes → Option Value) → Bytes → Result EpochError GroupEpoch
deserialize_epoch p decode encoded = do
  require (leb 1 (length encoded) && leb (length encoded) max_epoch_bytes) bad_size
  value ← or_throw (decode encoded) malformed_cbor
  decode_epoch p value

role_named-role_text : (r : Role) → is_role r ≡ true → role_named (role_text r) ≡ r
unfolding list_eq
role_named-role_text admin h = refl
role_named-role_text member h = refl
role_named-role_text (other_role t) h = absurd (cc h)

decode_each-member_values :
    (ms : List GroupMemberEntry) → All IsMember ms → decode_each (member_values ms) ≡ ok ms
decode_each-member_values [] h = refl
decode_each-member_values (m ∷ ms) h =
    rw (role_named-role_text m.role h.0.known_role, decode_each-member_values ms h.1)

encoded_of :
    (m : Result EpochError (Unit {0})) (b encoded : Bytes)
    → (m >> ok b) ≡ ok encoded
    → (m ≡ ok tt) × (encoded ≡ b)
encoded_of (ok u) b encoded h = (refl, cc)
encoded_of (err e) b encoded h = absurd (cc h)

decode_epoch-epoch_value :
    (p : Primitives) (e : GroupEpoch)
    → assert_epoch p e ≡ ok tt
    → decode_epoch p (epoch_value e) ≡ ok e
unfolding epoch_value list_eq
decode_epoch-epoch_value p e h =
    rw (decode_each-member_values e.members (assert_epoch-IsEpoch p e h).each_member, h)

-- An epoch that can be encoded, in at most 256 KiB and not in nothing, is what its encoding decodes
-- to, where the CBOR decoder reads back what the encoder wrote for it.
pub deserialize-serialize :
    (p : Primitives) (decode : Bytes → Option Value) (e : GroupEpoch) (encoded : Bytes)
    → decode (p.cbor (epoch_value e)) ≡ some (epoch_value e)
    → serialize_epoch p e ≡ ok encoded
    → 1 ≤ length encoded
    → length encoded ≤ 262144
    → deserialize_epoch p decode encoded ≡ ok e
unfolding deserialize_epoch serialize_epoch
deserialize-serialize p decode e encoded reads h low high =
    let (asserted, is) = encoded_of (assert_epoch p e) _ encoded h in
    rw (
      le→leb 1 (length encoded) low,
      le→leb (length encoded) 262144 high,
      is,
      reads,
      decode_epoch-epoch_value p e asserted,
    )
