-- ===== src/Announce/Verified.antt =====
-- What the checks of an announcement's payload and of its signature establish.
use network_self_md.Prelude.{
  ℕ, ◌≤◌, ◌≡◌, refl, true, false, ◌&&◌, List, [], ◌∷◌, Bytes, Text, All, length, leb, leb→le, ◌==◌,
  if◌then◌else◌, arith, Bool-cases, inl, inr,
}
use network_self_md.Prelude.Results.{Result, ok, err, require-passed, bind-passed}
use network_self_md.Bytes.{to_hex, text_lt, text_lt_trans}
use network_self_md.GroupState.{Primitives, max_safe}
use network_self_md.Announce.{
  AnnounceGroup, AnnounceError, bad_group_bytes, is_disordered, is_text_within, is_member_count,
  assert_group, assert_groups, assert_announce_payload, announce_bytes, canonical_announce_payload,
  is_signed, verify_announce, max_announce_groups, network_announce_version,
}

pub record IsAnnounced (p : Primitives) (g : AnnounceGroup) : Type 0 where
  pub of_id : length g.group_id ≡ 32
  pub of_name : is_text_within p 1 128 g.name ≡ true
  pub of_self_md : is_text_within p 0 16384 g.self_md ≡ true
  pub of_count : is_member_count g.member_count ≡ true
  pub of_data :
      (leb 1 (length g.genesis_epoch_data) && leb (length g.genesis_epoch_data) 4096) ≡ true
  pub of_signature : length g.genesis_signature ≡ 64
  pub of_hash : length g.genesis_hash ≡ 32

-- The group's id is greater than the text.
abbrev pub Above : Text → AnnounceGroup → Type 0
Above t g = text_lt t (to_hex g.group_id) ≡ true

-- Each group's id is greater than those of all groups before it.
abbrev pub Ascending : List AnnounceGroup → Type 0
Ascending [] = Unit {0}
Ascending (g ∷ gs) = All (Above (to_hex g.group_id)) gs × Ascending gs

-- The announcement is within the bounds, and the payload is its encoding.
pub record IsCanonical (p : Primitives) (version : ℕ) (groups : List AnnounceGroup) (timestamp : ℕ)
    (payload : Bytes) : Type 0 where
  pub of_version : version ≡ 2
  pub safe : timestamp ≤ max_safe
  pub few : length groups ≤ max_announce_groups
  pub announced : All (IsAnnounced p) groups
  pub ascending : Ascending groups
  pub made : payload ≡ announce_bytes p version groups timestamp

-- The signature is the key's, over the payload of the announcement.
pub record IsVerified (p : Primitives) (groups : List AnnounceGroup) (timestamp : ℕ)
    (signature key : Bytes) (version : ℕ) : Type 0 where
  pub payload : Bytes
  pub encoded : canonical_announce_payload p version groups timestamp ≡ ok payload
  pub whole : length signature ≡ 64
  pub signed : p.verify signature payload key ≡ true
  pub canonical : IsCanonical p version groups timestamp payload

-- The checks' order: after no text, or greater than the text before.
abbrev pub After : Text → AnnounceGroup → Type 0
After previous g = is_disordered previous (to_hex g.group_id) ≡ false

Above-is_disordered :
    (xs : Bytes) (id : Text)
    → length xs ≡ 32
    → is_disordered (to_hex xs) id ≡ false
    → text_lt (to_hex xs) id ≡ true
unfolding to_hex
Above-is_disordered [] id size h = absurd (omega (arith, size))
Above-is_disordered (x ∷ xs) id size h = elim (Bool-cases (text_lt (to_hex (x ∷ xs)) id)) [
  | inl less ↦ less
  | inr not_less ↦ absurd (let k = rw not_less at h in cc k)
]

is_disordered_trans :
    (previous a b : Text)
    → is_disordered previous a ≡ false
    → text_lt a b ≡ true
    → is_disordered previous b ≡ false
is_disordered_trans [] a b h less = refl
is_disordered_trans (x ∷ xs) a b h less = elim (Bool-cases (text_lt (x ∷ xs) a)) [
  | inl first ↦ rw (text_lt_trans (x ∷ xs) a b first less) refl
  | inr not_first ↦ absurd (let k = rw not_first at h in cc k)
]

ordered_behind :
    (previous : Text) (g : AnnounceGroup) (gs : List AnnounceGroup)
    → length g.group_id ≡ 32
    → After previous g
    → All (After (to_hex g.group_id)) gs
    → All (After previous) gs × All (Above (to_hex g.group_id)) gs
ordered_behind previous g [] size h after = (tt, tt)
ordered_behind previous g (k ∷ ks) size h (first, rest) =
    let above = Above-is_disordered g.group_id (to_hex k.group_id) size first in
    let (afters, aboves) = ordered_behind previous g ks size h rest in
    (
      (is_disordered_trans previous (to_hex g.group_id) (to_hex k.group_id) h above, afters),
      (above, aboves),
    )

assert_group-IsAnnounced :
    (p : Primitives) (previous : Text) (g : AnnounceGroup) (id : Text)
    → assert_group p previous g ≡ ok id
    → IsAnnounced p g × ((id ≡ to_hex g.group_id) × After previous g)
unfolding assert_group
assert_group-IsAnnounced p previous g id h =
    let (id_size, h1) = require-passed (length g.group_id == 32) _ _ _ h in
    let (ordered, h2) =
      require-passed (if is_disordered previous (to_hex g.group_id) then false else true) _ _ _
        h1 in
    let (named, h3) = require-passed (is_text_within p 1 128 g.name) _ _ _ h2 in
    let (described, h4) = require-passed (is_text_within p 0 16384 g.self_md) _ _ _ h3 in
    let (counted, h5) = require-passed (is_member_count g.member_count) _ _ _ h4 in
    let (data_size, h6) =
      require-passed (leb 1 (length g.genesis_epoch_data) && leb (length g.genesis_epoch_data) 4096)
        _ _ _ h5 in
    let (signature_size, h7) = require-passed (length g.genesis_signature == 64) _ _ _ h6 in
    let (hash_size, h8) =
      require-passed (length g.genesis_hash == 32) bad_group_bytes (ok (to_hex g.group_id)) id h7 in
    (
      record {
        of_id = ground (arith, id_size);
        of_name = named;
        of_self_md = described;
        of_count = counted;
        of_data = data_size;
        of_signature = ground (arith, signature_size);
        of_hash = ground (arith, hash_size);
      },
      (
        cc h8,
        elim (Bool-cases (is_disordered previous (to_hex g.group_id))) [
          | inl bad ↦ absurd (let k = rw bad at ordered in cc k)
          | inr good ↦ good
        ],
      ),
    )

assert_groups-Ascending :
    (p : Primitives) (previous : Text) (gs : List AnnounceGroup) (last : Text)
    → assert_groups p previous gs ≡ ok last
    → All (IsAnnounced p) gs × (All (After previous) gs × Ascending gs)
unfolding assert_groups
assert_groups-Ascending p previous [] last h = (tt, (tt, tt))
assert_groups-Ascending p previous (g ∷ gs) last h =
    let (id, (first, h1)) = bind-passed _ _ _ h in
    let (announced, (same, after)) = assert_group-IsAnnounced p previous g id first in
    let (all_announced, (afters, ascending)) =
      assert_groups-Ascending p (to_hex g.group_id) gs last (rw same at h1) in
    let (all_afters, aboves) = ordered_behind previous g gs announced.of_id after afters in
    ((announced, all_announced), ((after, all_afters), (aboves, ascending)))

pub canonical_announce_payload-IsCanonical :
    (p : Primitives) (version : ℕ) (groups : List AnnounceGroup) (timestamp : ℕ) (payload : Bytes)
    → canonical_announce_payload p version groups timestamp ≡ ok payload
    → IsCanonical p version groups timestamp payload
unfolding canonical_announce_payload assert_announce_payload
canonical_announce_payload-IsCanonical p version groups timestamp payload h =
    let (last, (asserted, made)) =
      bind-passed (assert_announce_payload p version groups timestamp)
        (λ last. ok (announce_bytes p version groups timestamp)) payload h in
    let (versioned, h1) = require-passed (version == network_announce_version) _ _ _ asserted in
    let (safe, h2) = require-passed (leb timestamp max_safe) _ _ _ h1 in
    let (few, h3) = require-passed (leb (length groups) max_announce_groups) _ _ _ h2 in
    let (announced, (after, ascending)) = assert_groups-Ascending p [] groups last h3 in
    record {
      of_version = ground (arith, versioned);
      safe = leb→le _ _ safe;
      few = leb→le _ _ few;
      announced = announced;
      ascending = ascending;
      made = cc made;
    }

signed_payload :
    (p : Primitives) (signature key : Bytes) (r : Result AnnounceError Bytes)
    → is_signed p signature key r ≡ true
    → (payload : Bytes) × ((r ≡ ok payload) × (p.verify signature payload key ≡ true))
signed_payload p signature key (err e) h = absurd (cc h)
signed_payload p signature key (ok payload) h = (payload, (refl, h))

-- An announcement that verifies under a key has a signature of 64 bytes that the key made over its
-- canonical payload.
pub verify_announce-IsVerified :
    (p : Primitives) (groups : List AnnounceGroup) (timestamp : ℕ) (signature key : Bytes)
    (version : ℕ)
    → verify_announce p groups timestamp signature key version ≡ true
    → IsVerified p groups timestamp signature key version
unfolding verify_announce
verify_announce-IsVerified p groups timestamp signature key version h =
    elim (Bool-cases (length signature == 64)) [
      | inr other ↦ absurd (let k = rw other at h in cc k)
      | inl whole ↦
          let (payload, (at, signed)) =
            signed_payload p signature key (canonical_announce_payload p version groups timestamp)
              (rw whole at h) in
          record {
            payload = payload;
            encoded = at;
            whole = ground (arith, whole);
            signed = signed;
            canonical =
                canonical_announce_payload-IsCanonical p version groups timestamp payload at;
          }
    ]
