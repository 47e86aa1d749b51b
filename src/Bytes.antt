-- ===== src/Bytes.antt =====
-- The byte helpers that the protocol files repeat: hexadecimal text, big-endian words, length
-- prefixes and concatenation (`toHex`, `u16`, `u32`, `u64`, `lp` and `concatBytes`), and the order of
-- JavaScript strings.
use network_self_md.Prelude.{
  ℕ, zero, suc, ◌+◌, ◌-◌, ◌/◌, ◌%◌, ◌^◌, ◌<◌, ◌≡◌, refl, [], ◌∷◌, ◌++◌, Bytes, Text, arith, length,
  All, ltb, Bool, true, false, ◌==◌, if◌then◌else◌,
}

-- A digit of `toString(16)`.
abbrev pub hex_digit : ℕ → ℕ
hex_digit d = if ltb d 10 then b'0' + d else b'a' + d - 10

-- `toHex`, and `Buffer.from(value).toString('hex')`: two digits for each byte.
unfoldable pub to_hex : Bytes → Text
to_hex [] = []
to_hex (x ∷ xs) = hex_digit (x / 16 % 16) ∷ hex_digit (x % 16) ∷ to_hex xs

-- `DataView.setUint16`, `setUint32` and `setBigUint64`, big-endian: `n` bytes of a number, the
-- higher ones dropped.
unfoldable pub big_endian : ℕ → ℕ → Bytes
big_endian zero value = []
big_endian (suc n) value = (value / 256 ^ n % 256) ∷ big_endian n value

abbrev pub u16 : ℕ → Bytes
u16 = big_endian 2

abbrev pub u32 : ℕ → Bytes
u32 = big_endian 4

abbrev pub u64 : ℕ → Bytes
u64 = big_endian 8

-- A value behind its length.
abbrev pub lp : Bytes → Bytes
lp value = u32 (length value) ++ value

hex_digit_injective : (a b : ℕ) → a < 16 → b < 16 → hex_digit a ≡ hex_digit b → a ≡ b
hex_digit_injective a b ha hb h = ground arith

byte_of_digits : (x y : ℕ) → x < 256 → y < 256 → x / 16 % 16 ≡ y / 16 % 16 → x % 16 ≡ y % 16 → x ≡ y
byte_of_digits x y hx hy high low = omega arith

-- Byte arrays with the same hexadecimal text are the same.
pub to_hex_injective :
    (xs ys : Bytes)
    → All (λ x. x < 256) xs
    → All (λ y. y < 256) ys
    → to_hex xs ≡ to_hex ys
    → xs ≡ ys
unfolding to_hex
to_hex_injective [] [] hx hy h = refl
to_hex_injective [] (y ∷ ys) hx hy h = absurd (cc h)
to_hex_injective (x ∷ xs) [] hx hy h = absurd (cc h)
to_hex_injective (x ∷ xs) (y ∷ ys) hx hy h =
    let high : hex_digit (x / 16 % 16) ≡ hex_digit (y / 16 % 16) = cc h in
    let low : hex_digit (x % 16) ≡ hex_digit (y % 16) = cc h in
    let rest : to_hex xs ≡ to_hex ys = cc h in
    let first =
      byte_of_digits x y hx.0 hy.0
        (hex_digit_injective (x / 16 % 16) (y / 16 % 16) (omega arith) (omega arith) high)
        (hex_digit_injective (x % 16) (y % 16) (omega arith) (omega arith) low) in
    let others = to_hex_injective xs ys hx.1 hy.1 rest in cc (first, others)

-- `<` of JavaScript strings.
abbrev pub text_lt : Text → Text → Bool
text_lt [] [] = false
text_lt [] (y ∷ ys) = true
text_lt (x ∷ xs) [] = false
text_lt (x ∷ xs) (y ∷ ys) = let rest = text_lt xs ys in if x == y then rest else ltb x y

pub text_lt_trans :
    (xs ys zs : Text) → text_lt xs ys ≡ true → text_lt ys zs ≡ true → text_lt xs zs ≡ true
text_lt_trans [] [] zs h k = absurd (cc h)
text_lt_trans [] (y ∷ ys) [] h k = absurd (cc k)
text_lt_trans [] (y ∷ ys) (z ∷ zs) h k = refl
text_lt_trans (x ∷ xs) [] zs h k = absurd (cc h)
text_lt_trans (x ∷ xs) (y ∷ ys) [] h k = absurd (cc k)
text_lt_trans (x ∷ xs) (y ∷ ys) (z ∷ zs) h k = ground (arith, text_lt_trans xs ys zs)
