-- ===== src/Announce.antt =====
-- The signed list of a peer's public groups: packages/core/src/protocol/announce-signature.ts. An
-- announcement is a decoded one, with numbers that are natural; its keys are the record's fields.
pub mod Verified
mod Covered
mod Examples
use network_self_md.Prelude.{
  ℕ, ◌-◌, ◌+◌, Bool, true, false, ◌&&◌, Option, none, some, List, [], ◌∷◌, ◌++◌, Bytes, Text, codes,
  length, leb, ltb, ◌==◌, if◌then◌else◌,
}
use network_self_md.Prelude.Results.{Result, ok, err, ◌>>=◌, ◌>>◌, require}
use network_self_md.Bytes.{to_hex, u16, u32, u64, lp, text_lt}
use network_self_md.Value.{Value}
use network_self_md.GroupState.{
  Primitives, GroupEpoch, SignedGroupEpoch, EpochError, max_safe, verify_genesis_epoch,
}
use network_self_md.GroupState.Decoding.{deserialize_epoch}

pub record AnnounceGroup : Type 0 where
  pub group_id : Bytes
  pub name : Text
  pub self_md : Text
  pub member_count : ℕ
  pub genesis_epoch_data : Bytes
  pub genesis_signature : Bytes
  pub genesis_hash : Bytes

pub data AnnounceError : Type 0 where
  unsupported_announce bad_announce_time too_many_groups bad_group_bytes not_canonical :
      AnnounceError
  bad_group_text bad_member_count bad_genesis_data bad_announce_signature stale_announce :
      AnnounceError

abbrev pub network_announce_version : ℕ
network_announce_version = 2

abbrev pub max_announce_groups : ℕ
max_announce_groups = 64

abbrev pub max_announce_age_ms : ℕ
max_announce_age_ms = 300000

-- There is a group before, and its id is not the smaller one.
abbrev pub is_disordered : Text → Text → Bool
is_disordered [] id = false
is_disordered (x ∷ xs) id = if text_lt (x ∷ xs) id then false else true

-- `assertString`, with the least and the greatest number of bytes.
abbrev pub is_text_within : Primitives → ℕ → ℕ → Text → Bool
is_text_within p low high t = leb low (length (p.utf8 t)) && leb (length (p.utf8 t)) high

abbrev pub is_member_count : ℕ → Bool
is_member_count n = leb 1 n && leb n 100000

unfoldable pub assert_group : Primitives → Text → AnnounceGroup → Result AnnounceError Text
unfolding to_hex
assert_group p previous g = do
  require (length g.group_id == 32) bad_group_bytes
  require (if is_disordered previous (to_hex g.group_id) then false else true) not_canonical
  require (is_text_within p 1 128 g.name) bad_group_text
  require (is_text_within p 0 16384 g.self_md) bad_group_text
  require (is_member_count g.member_count) bad_member_count
  require (leb 1 (length g.genesis_epoch_data) && leb (length g.genesis_epoch_data) 4096)
      bad_genesis_data
  require (length g.genesis_signature == 64) bad_group_bytes
  require (length g.genesis_hash == 32) bad_group_bytes
  ok (to_hex g.group_id)

-- The groups from here on, after the id of the one before, which is empty before the first.
unfoldable pub assert_groups : Primitives → Text → List AnnounceGroup → Result AnnounceError Text
unfolding assert_group
assert_groups p previous [] = ok previous
assert_groups p previous (g ∷ gs) = assert_group p previous g >>= (λ id. assert_groups p id gs)

unfoldable pub assert_announce_payload :
    Primitives → ℕ → List AnnounceGroup → ℕ → Result AnnounceError Text
unfolding assert_groups
assert_announce_payload p version groups timestamp = do
  require (version == network_announce_version) unsupported_announce
  require (leb timestamp max_safe) bad_announce_time
  require (leb (length groups) max_announce_groups) too_many_groups
  assert_groups p [] groups

abbrev pub group_bytes : Primitives → AnnounceGroup → Bytes
group_bytes p g =
    g.group_id
    ++ lp (p.utf8 g.name)
    ++ lp (p.utf8 g.self_md)
    ++ u32 g.member_count
    ++ lp g.genesis_epoch_data
    ++ g.genesis_signature
    ++ g.genesis_hash

abbrev pub each_group_bytes : Primitives → List AnnounceGroup → Bytes
each_group_bytes p [] = []
each_group_bytes p (g ∷ gs) = group_bytes p g ++ each_group_bytes p gs

abbrev pub announce_domain : Text
announce_domain = codes "network.self.md/NetworkAnnounce/v2" ++ 0 ∷ []

abbrev pub announce_bytes : Primitives → ℕ → List AnnounceGroup → ℕ → Bytes
announce_bytes p version groups timestamp =
    p.utf8 announce_domain
    ++ u16 version
    ++ u64 timestamp
    ++ u16 (length groups)
    ++ each_group_bytes p groups

unfoldable pub canonical_announce_payload :
    Primitives → ℕ → List AnnounceGroup → ℕ → Result AnnounceError Bytes
unfolding assert_announce_payload
canonical_announce_payload p version groups timestamp = do
  last ← assert_announce_payload p version groups timestamp
  ok (announce_bytes p version groups timestamp)

unfoldable pub sign_announce :
    Primitives → List AnnounceGroup → ℕ → Bytes → ℕ → Result AnnounceError Bytes
unfolding canonical_announce_payload
sign_announce p groups timestamp key version = do
  payload ← canonical_announce_payload p version groups timestamp
  ok (p.sign payload key)

abbrev pub is_signed : Primitives → Bytes → Bytes → Result AnnounceError Bytes → Bool
is_signed p signature key (ok payload) = p.verify signature payload key
is_signed p signature key (err e) = false

unfoldable pub verify_announce : Primitives → List AnnounceGroup → ℕ → Bytes → Bytes → ℕ → Bool
unfolding canonical_announce_payload
verify_announce p groups timestamp signature key version =
    length signature == 64
    && is_signed p signature key (canonical_announce_payload p version groups timestamp)

unfoldable pub network_announce_id :
    Primitives → ℕ → List AnnounceGroup → ℕ → Bytes → Result AnnounceError Bytes
unfolding canonical_announce_payload
network_announce_id p version groups timestamp signature = do
  payload ← canonical_announce_payload p version groups timestamp
  ok (p.sha256 (payload ++ signature))

-- `Math.abs(now - timestamp) > MAX_ANNOUNCE_AGE_MS` does not hold, where a time is given.
abbrev pub is_current : Option ℕ → ℕ → Bool
is_current none timestamp = true
is_current (some now) timestamp = leb ((now - timestamp) + (timestamp - now)) max_announce_age_ms

unfoldable pub assert_announce_shape :
    Primitives → ℕ → List AnnounceGroup → ℕ → Bytes → Option ℕ → Result AnnounceError Text
unfolding assert_announce_payload
assert_announce_shape p version groups timestamp signature now = do
  last ← assert_announce_payload p version groups timestamp
  require (length signature == 64) bad_announce_signature
  require (is_current now timestamp) stale_announce
  ok last

abbrev pub is_genesis_of : Primitives → AnnounceGroup → Bytes → Result EpochError GroupEpoch → Bool
is_genesis_of p g announcer (ok epoch) =
    verify_genesis_epoch p
      (record { epoch = epoch; signature = g.genesis_signature; hash = g.genesis_hash })
      (to_hex g.group_id) (some announcer)
is_genesis_of p g announcer (err e) = false

unfoldable pub verify_announced_group_authority :
    Primitives → (Bytes → Option Value) → AnnounceGroup → Bytes → Bool
unfolding deserialize_epoch
verify_announced_group_authority p decode g announcer =
    is_genesis_of p g announcer (deserialize_epoch p decode g.genesis_epoch_data)
