-- ===== src/Announce/Covered.antt =====
-- The bytes that an announcement's key signs determine all its fields.
use mathlib.Core.List.{append_assoc}
use network_self_md.Prelude.{
  ℕ, ◌≤◌, ◌<◌, ◌≡◌, ◌/◌, ◌%◌, ◌^◌, refl, sym, ap, ◌∙◌, List, [], ◌∷◌, ◌++◌, Bytes, arith, length,
  true, leb→le, All,
}
use network_self_md.Bytes.{big_endian, u16, u32, u64, lp}
use network_self_md.GroupState.{Primitives}
use network_self_md.Prelude.Results.{ok}
use network_self_md.Announce.{
  verify_announce, canonical_announce_payload, announce_domain, AnnounceGroup, is_text_within,
  group_bytes, each_group_bytes,
}
use network_self_md.Announce.Verified.{
  IsAnnounced, IsCanonical, IsVerified, canonical_announce_payload-IsCanonical,
  verify_announce-IsVerified,
}

-- The groups agree in all fields, their texts as UTF-8.
pub record SameGroup (p : Primitives) (g h : AnnounceGroup) : Type 0 where
  pub id : g.group_id ≡ h.group_id
  pub name : p.utf8 g.name ≡ p.utf8 h.name
  pub self_md : p.utf8 g.self_md ≡ p.utf8 h.self_md
  pub count : g.member_count ≡ h.member_count
  pub epoch_data : g.genesis_epoch_data ≡ h.genesis_epoch_data
  pub signature : g.genesis_signature ≡ h.genesis_signature
  pub hash : g.genesis_hash ≡ h.genesis_hash

abbrev pub SameGroups : Primitives → List AnnounceGroup → List AnnounceGroup → Type 0
SameGroups p [] [] = Unit {0}
SameGroups p (g ∷ gs) (h ∷ hs) = SameGroup p g h × SameGroups p gs hs
SameGroups p _ _ = ⊥

pub split_at : (xs ys r s : Bytes) → length xs ≡ length ys → xs ++ r ≡ ys ++ s → (xs ≡ ys) × (r ≡ s)
split_at [] [] r s n h = (refl, h)
split_at [] (y ∷ ys) r s n h = absurd (omega (arith, n))
split_at (x ∷ xs) [] r s n h = absurd (omega (arith, n))
split_at (x ∷ xs) (y ∷ ys) r s n h =
    let (same, rest) = split_at xs ys r s (omega (arith, n)) (cc h) in
    let first : x ≡ y = cc h in (cc (first, same), rest)

-- The same, where more follows behind the rest.
split_behind :
    (xs ys t u r s : Bytes)
    → length xs ≡ length ys
    → (xs ++ t) ++ r ≡ (ys ++ u) ++ s
    → (xs ≡ ys) × (t ++ r ≡ u ++ s)
split_behind xs ys t u r s n h =
    split_at xs ys (t ++ r) (u ++ s) n (sym (append_assoc xs t r) ∙ h ∙ append_assoc ys u s)

pub u16_injective : (a b : ℕ) → a < 65536 → b < 65536 → u16 a ≡ u16 b → a ≡ b
unfolding big_endian
u16_injective a b l m h =
    let h1 : a / 256 ^ 1 % 256 ≡ b / 256 ^ 1 % 256 = cc h in
    let h0 : a / 256 ^ 0 % 256 ≡ b / 256 ^ 0 % 256 = cc h in omega arith

pub u32_injective : (a b : ℕ) → a < 2 ^ 32 → b < 2 ^ 32 → u32 a ≡ u32 b → a ≡ b
unfolding big_endian
u32_injective a b l m h =
    let h3 : a / 256 ^ 3 % 256 ≡ b / 256 ^ 3 % 256 = cc h in
    let h2 : a / 256 ^ 2 % 256 ≡ b / 256 ^ 2 % 256 = cc h in
    let h1 : a / 256 ^ 1 % 256 ≡ b / 256 ^ 1 % 256 = cc h in
    let h0 : a / 256 ^ 0 % 256 ≡ b / 256 ^ 0 % 256 = cc h in omega arith

-- Safe integers.
pub u64_injective : (a b : ℕ) → a < 2 ^ 53 → b < 2 ^ 53 → u64 a ≡ u64 b → a ≡ b
unfolding big_endian
u64_injective a b l m h =
    let h6 : a / 256 ^ 6 % 256 ≡ b / 256 ^ 6 % 256 = cc h in
    let h5 : a / 256 ^ 5 % 256 ≡ b / 256 ^ 5 % 256 = cc h in
    let h4 : a / 256 ^ 4 % 256 ≡ b / 256 ^ 4 % 256 = cc h in
    let h3 : a / 256 ^ 3 % 256 ≡ b / 256 ^ 3 % 256 = cc h in
    let h2 : a / 256 ^ 2 % 256 ≡ b / 256 ^ 2 % 256 = cc h in
    let h1 : a / 256 ^ 1 % 256 ≡ b / 256 ^ 1 % 256 = cc h in
    let h0 : a / 256 ^ 0 % 256 ≡ b / 256 ^ 0 % 256 = cc h in omega arith

-- A value behind its length, and more behind it.
split_lp :
    (a b t u r s : Bytes)
    → length a < 2 ^ 32
    → length b < 2 ^ 32
    → (lp a ++ t) ++ r ≡ (lp b ++ u) ++ s
    → (a ≡ b) × (t ++ r ≡ u ++ s)
unfolding big_endian
split_lp a b t u r s l m h =
    let (sizes, rest) =
      split_at (u32 (length a)) (u32 (length b)) ((a ++ t) ++ r) ((b ++ u) ++ s) (omega arith) h in
    split_behind a b t u r s (u32_injective (length a) (length b) l m sizes) rest

text_size :
    (p : Primitives) (low high : ℕ) (t : List ℕ)
    → is_text_within p low high t ≡ true
    → length (p.utf8 t) ≤ high
text_size p low high t h = leb→le _ _ (ground arith)

-- What is behind each field of a group, up to the genesis.
abbrev genesis_bytes : AnnounceGroup → Bytes
genesis_bytes g = lp g.genesis_epoch_data ++ (g.genesis_signature ++ g.genesis_hash)

abbrev count_bytes : AnnounceGroup → Bytes
count_bytes g = u32 g.member_count ++ genesis_bytes g

abbrev text_bytes : Primitives → AnnounceGroup → Bytes
text_bytes p g = lp (p.utf8 g.self_md) ++ count_bytes g

abbrev name_bytes : Primitives → AnnounceGroup → Bytes
name_bytes p g = lp (p.utf8 g.name) ++ text_bytes p g

-- Seven parts in a row.
nest_seven :
    (a b c d e f g : Bytes)
    → a ++ b ++ c ++ d ++ e ++ f ++ g ≡ a ++ (b ++ (c ++ (d ++ (e ++ (f ++ g)))))
nest_seven a b c d e f g = simp append_assoc

nest_group : (p : Primitives) (g : AnnounceGroup) → group_bytes p g ≡ g.group_id ++ name_bytes p g
nest_group p g =
    nest_seven g.group_id (lp (p.utf8 g.name)) (lp (p.utf8 g.self_md)) (u32 g.member_count)
      (lp g.genesis_epoch_data) g.genesis_signature g.genesis_hash

nest_five : (a b c d e : Bytes) → a ++ b ++ c ++ d ++ e ≡ a ++ (b ++ (c ++ (d ++ e)))
nest_five a b c d e = simp append_assoc

group_bytes-SameGroup :
    (p : Primitives) (g h : AnnounceGroup) (r s : Bytes)
    → IsAnnounced p g
    → IsAnnounced p h
    → group_bytes p g ++ r ≡ group_bytes p h ++ s
    → SameGroup p g h × (r ≡ s)
unfolding big_endian
group_bytes-SameGroup p g h r s ig ih same =
    let name_g = text_size p 1 128 g.name ig.of_name in
    let name_h = text_size p 1 128 h.name ih.of_name in
    let text_g = text_size p 0 16384 g.self_md ig.of_self_md in
    let text_h = text_size p 0 16384 h.self_md ih.of_self_md in
    let data_g : length g.genesis_epoch_data ≤ 4096 = leb→le _ _ (ground (arith, ig.of_data)) in
    let data_h : length h.genesis_epoch_data ≤ 4096 = leb→le _ _ (ground (arith, ih.of_data)) in
    let count_g : g.member_count ≤ 100000 = leb→le _ _ (ground (arith, ig.of_count)) in
    let count_h : h.member_count ≤ 100000 = leb→le _ _ (ground (arith, ih.of_count)) in
    let (id, h1) =
      split_behind g.group_id h.group_id (name_bytes p g) (name_bytes p h) r s
        (ig.of_id ∙ sym ih.of_id)
        (ap (λ l. l ++ r) (sym (nest_group p g)) ∙ same ∙ ap (λ l. l ++ s) (nest_group p h)) in
    let (name, h2) =
      split_lp (p.utf8 g.name) (p.utf8 h.name) (text_bytes p g) (text_bytes p h) r s
        (omega (arith, name_g)) (omega (arith, name_h)) h1 in
    let (text, h3) =
      split_lp (p.utf8 g.self_md) (p.utf8 h.self_md) (count_bytes g) (count_bytes h) r s
        (omega (arith, text_g)) (omega (arith, text_h)) h2 in
    let (count, h4) =
      split_behind (u32 g.member_count) (u32 h.member_count) (genesis_bytes g) (genesis_bytes h) r s
        (omega arith) h3 in
    let (epoch_data, h5) =
      split_lp g.genesis_epoch_data h.genesis_epoch_data (g.genesis_signature ++ g.genesis_hash)
        (h.genesis_signature ++ h.genesis_hash) r s (omega (arith, data_g)) (omega (arith, data_h))
        h4 in
    let (signature, h6) =
      split_behind g.genesis_signature h.genesis_signature g.genesis_hash h.genesis_hash r s
        (ig.of_signature ∙ sym ih.of_signature) h5 in
    let (hash, h7) = split_at g.genesis_hash h.genesis_hash r s (ig.of_hash ∙ sym ih.of_hash) h6 in
    (
      record {
        id = id;
        name = name;
        self_md = text;
        count =
            u32_injective g.member_count h.member_count (omega (arith, count_g))
              (omega (arith, count_h)) count;
        epoch_data = epoch_data;
        signature = signature;
        hash = hash;
      },
      h7,
    )

each_group_bytes-SameGroups :
    (p : Primitives) (gs hs : List AnnounceGroup)
    → length gs ≡ length hs
    → All (IsAnnounced p) gs
    → All (IsAnnounced p) hs
    → each_group_bytes p gs ≡ each_group_bytes p hs
    → SameGroups p gs hs
each_group_bytes-SameGroups p [] [] n ig ih same = tt
each_group_bytes-SameGroups p [] (h ∷ hs) n ig ih same = absurd (omega (arith, n))
each_group_bytes-SameGroups p (g ∷ gs) [] n ig ih same = absurd (omega (arith, n))
each_group_bytes-SameGroups p (g ∷ gs) (h ∷ hs) n ig ih same =
    let (first, rest) =
      group_bytes-SameGroup p g h (each_group_bytes p gs) (each_group_bytes p hs) ig.0 ih.0 same in
    (first, each_group_bytes-SameGroups p gs hs (omega (arith, n)) ig.1 ih.1 rest)

-- The same payload is of the same announcement.
same_payload :
    (p : Primitives) (version version' : ℕ) (groups groups' : List AnnounceGroup)
    (timestamp timestamp' : ℕ) (payload : Bytes)
    → IsCanonical p version groups timestamp payload
    → IsCanonical p version' groups' timestamp' payload
    → (version' ≡ version) × ((timestamp' ≡ timestamp) × SameGroups p groups' groups)
unfolding big_endian
same_payload p version version' groups groups' timestamp timestamp' payload is is' =
    let domain : Bytes = p.utf8 announce_domain in
    let (same_domain, h1) =
      split_at domain domain
        (u16 version' ++ (u64 timestamp' ++ (u16 (length groups') ++ each_group_bytes p groups')))
        (u16 version ++ (u64 timestamp ++ (u16 (length groups) ++ each_group_bytes p groups))) refl
        (sym (nest_five domain (u16 version') (u64 timestamp') (u16 (length groups')) _)
          ∙ sym is'.made
          ∙ is.made
          ∙ nest_five domain (u16 version) (u64 timestamp) (u16 (length groups)) _) in
    let (versions, h2) =
      split_at (u16 version') (u16 version)
        (u64 timestamp' ++ (u16 (length groups') ++ each_group_bytes p groups'))
        (u64 timestamp ++ (u16 (length groups) ++ each_group_bytes p groups)) (omega arith) h1 in
    let (times, h3) =
      split_at (u64 timestamp') (u64 timestamp) (u16 (length groups') ++ each_group_bytes p groups')
        (u16 (length groups) ++ each_group_bytes p groups) (omega arith) h2 in
    let (counts, h4) =
      split_at (u16 (length groups')) (u16 (length groups)) (each_group_bytes p groups')
        (each_group_bytes p groups) (omega arith) h3 in
    (
      is'.of_version ∙ sym is.of_version,
      (
        u64_injective timestamp' timestamp (omega (arith, is'.safe)) (omega (arith, is.safe)) times,
        each_group_bytes-SameGroups p groups' groups
            (u16_injective (length groups') (length groups) (omega (arith, is'.few))
              (omega (arith, is.few)) counts)
            is'.announced is.announced h4,
      ),
    )

-- An announcement verifies under a key, and another one has the same canonical payload. Then the
-- signature has 64 bytes and is the key's over this payload. The announcement has the version 2, a
-- safe time and at most 64 groups, each with its fields in their bounds; each group's id is greater
-- than all ids before it, so that no group is announced twice. The other announcement is the same
-- in its version, its time, and every field of every group, their texts compared as UTF-8: the
-- signature covers all of these.
pub verify_announce-Covers :
    (p : Primitives) (groups groups' : List AnnounceGroup) (timestamp timestamp' : ℕ)
    (signature key : Bytes) (version version' : ℕ) (payload : Bytes)
    → verify_announce p groups timestamp signature key version ≡ true
    → canonical_announce_payload p version groups timestamp ≡ ok payload
    → canonical_announce_payload p version' groups' timestamp' ≡ ok payload
    → IsVerified p groups timestamp signature key version
      × ((version' ≡ version) × ((timestamp' ≡ timestamp) × SameGroups p groups' groups))
verify_announce-Covers p groups groups' timestamp timestamp' signature key version version' payload
      h at at' =
    (
      verify_announce-IsVerified p groups timestamp signature key version h,
      same_payload p version version' groups groups' timestamp timestamp' payload
          (canonical_announce_payload-IsCanonical p version groups timestamp payload at)
          (canonical_announce_payload-IsCanonical p version' groups' timestamp' payload at'),
    )
