-- ===== src/Crypto/Example.antt =====
-- Primitives that meet the laws: a sealed text is the key followed by the text, and a shared secret
-- is the sum of the two keys' bytes.
use network_self_md.Prelude.{
  ℕ, ◌+◌, ◌≡◌, refl, ap, arith, none, some, Bytes, [], ◌∷◌, ◌++◌, length, take, drop, list_eq,
  list_eq_self, if◌then◌else◌,
}
use network_self_md.Crypto.{Crypto, CryptoLaws}

abbrev sum : Bytes → ℕ
sum [] = 0
sum (x ∷ xs) = x + sum xs

abbrev pub example_crypto : Crypto
example_crypto = record {
  hkdf = λ ikm salt info n. sum salt ∷ ikm;
  x25519_public = λ key. sum key ∷ [];
  x25519_shared = λ key public. (sum key + sum public) ∷ [];
  seal = λ key nonce aad text. key ++ text;
  unseal = λ key nonce aad sealed.
      if list_eq (take (length key) sealed) key then some (drop (length key) sealed) else none;
}

take-append : (xs ys : Bytes) → take (length xs) (xs ++ ys) ≡ xs
take-append [] ys = refl
take-append (x ∷ xs) ys = ap (◌∷◌ x) (take-append xs ys)

drop-append : (xs ys : Bytes) → drop (length xs) (xs ++ ys) ≡ ys
drop-append [] ys = refl
drop-append (x ∷ xs) ys = drop-append xs ys

pub example_laws : CryptoLaws example_crypto
example_laws = record {
  unseal-seal =
      λ key nonce aad text. rw (take-append key text, list_eq_self key, drop-append key text);
  shared_comm = λ a b. ap (λ n. n ∷ []) (omega arith);
}
