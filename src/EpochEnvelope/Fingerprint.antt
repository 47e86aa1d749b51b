-- ===== src/EpochEnvelope/Fingerprint.antt =====
-- The fingerprint of every public key is one that an envelope may name.

use network_self_md.Prelude.{
  ℕ, zero, suc, ◌+◌, ◌-◌, ◌*◌, ◌/◌, ◌%◌, ◌^◌, ◌≤◌, ◌<◌, ◌≡◌, refl, ◌∙◌, true, List, [], ◌∷◌, ◌++◌,
  arith, Bytes, Text, length, get_elem?, take, length-take, length-append, any, ltb, ltb→lt, ltb→ge,
  ◌==◌, ==-self, Bool-cases, inl, inr,
}
use network_self_md.GroupState.{Primitives, PrimitiveLaws}
use network_self_md.Authentication.{
  z_base_32_alphabet, letter_of, letter, emit, encode_from, z_base_32_encode,
  fingerprint_from_public_key,
}
use network_self_md.EpochEnvelope.{all_letters, is_fingerprint}

any-get_elem? :
    (xs : List ℕ) (i : ℕ) → i < length xs → any (λ a. a == letter_of (get_elem? xs i)) xs ≡ true
any-get_elem? [] i h = absurd (omega arith)
any-get_elem? (x ∷ xs) zero h = let same = ==-self x in rw same refl
any-get_elem? (x ∷ xs) (suc i) h = ground (arith, any-get_elem? xs i (omega arith))

letter-listed : (value : ℕ) → any (λ a. a == letter value) z_base_32_alphabet ≡ true
letter-listed value = any-get_elem? z_base_32_alphabet (value % 32) (omega arith)

all_letters-append :
    (s t : Text) → all_letters s ≡ true → all_letters t ≡ true → all_letters (s ++ t) ≡ true
all_letters-append [] t hs ht = ht
all_letters-append (c ∷ cs) t hs ht = elim (Bool-cases (any (λ a. a == c) z_base_32_alphabet)) [
  | inl listed ↦ rw listed (all_letters-append cs t (rw listed at hs) ht)
  | inr other ↦ absurd (let h = rw other at hs in cc h)
]

-- With as many rounds as there are bits, all groups of five are emitted.
emit_lem :
    (fuel bits buffer : ℕ)
    → bits ≤ fuel
    → (length (emit fuel bits buffer).0 ≡ bits / 5)
      × (((emit fuel bits buffer).1 ≡ bits % 5) × (all_letters (emit fuel bits buffer).0 ≡ true))
unfolding emit
emit_lem zero bits buffer h = (omega arith, (omega arith, refl))
emit_lem (suc fuel) bits buffer h = elim (Bool-cases (ltb bits 5)) [
  | inl few ↦ let low = ltb→lt bits 5 few in rw (emit, few) (omega arith, (omega arith, refl))
  | inr more ↦
      let high = ltb→ge bits 5 more in
      let (size, (left, listed)) = emit_lem fuel (bits - 5) buffer (omega arith) in
      let this = letter-listed (buffer / 2 ^ (bits - 5)) in
      rw (emit, more) (omega (arith, size), (omega (arith, left), rw this listed))
]

-- From fewer than five bits pending, every five bits give a letter, the last ones padded.
encode_from_lem :
    (bits buffer : ℕ) (bytes : Bytes)
    → bits < 5
    → (length (encode_from bits buffer bytes) ≡ (bits + 8 * length bytes + 4) / 5)
      × (all_letters (encode_from bits buffer bytes) ≡ true)
unfolding encode_from
encode_from_lem bits buffer [] h = elim (Bool-cases (ltb 0 bits)) [
  | inl some_left ↦
      let low = ltb→lt 0 bits some_left in
      let this = letter-listed (buffer * 2 ^ (5 - bits)) in rw some_left (omega arith, rw this refl)
  | inr no_left ↦ let high = ltb→ge 0 bits no_left in rw no_left (omega arith, refl)
]
encode_from_lem bits buffer (byte ∷ bytes) h =
    let grown = (buffer * 256 + byte) % 2 ^ 32 in
    let (size, (left, listed)) = emit_lem (bits + 8) (bits + 8) grown (omega arith) in
    let start = (emit (bits + 8) (bits + 8) grown).1 in
    let (size_rest, listed_rest) = encode_from_lem start grown bytes (omega (arith, left)) in
    (
      length-append (emit (bits + 8) (bits + 8) grown).0 (encode_from start grown bytes)
          ∙ omega (arith, size, left, size_rest),
      all_letters-append (emit (bits + 8) (bits + 8) grown).0 (encode_from start grown bytes) listed
          listed_rest,
    )

-- The fingerprint of every public key is one that an epoch's envelope may name: 32 letters of the
-- alphabet. SHA-256 gives 32 bytes.
pub fingerprint_from_public_key_lem :
    (p : Primitives) (laws : PrimitiveLaws p) (key : Bytes)
    → is_fingerprint (fingerprint_from_public_key p key) ≡ true
unfolding fingerprint_from_public_key z_base_32_encode
fingerprint_from_public_key_lem p laws key =
    let taken = length-take 20 (p.sha256 key) in
    let digest = laws.length-sha256 key in
    let (size, listed) = encode_from_lem 0 0 (take 20 (p.sha256 key)) (omega arith) in
    let whole : length (encode_from 0 0 (take 20 (p.sha256 key))) ≡ 32 =
      size ∙ rw (taken, digest) refl in
    rw (whole, listed) refl
