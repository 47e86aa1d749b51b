-- ===== src/Crypto.antt =====
-- The primitives of the libraries that packages/core/src/crypto calls (@noble/hashes, @noble/curves,
-- @noble/ciphers), as parameters, and what the code builds on them in crypto/kdf.ts and
-- crypto/aead.ts.
pub mod Example
use network_self_md.Prelude.{ℕ, ◌≡◌, Option, none, some, Bytes, [], codes}

pub record Crypto : Type 0 where
  -- `hkdf(sha256, ikm, salt, info, length)`.
  pub hkdf : Bytes → Bytes → Bytes → ℕ → Bytes
  -- `x25519.getPublicKey` and `getSharedSecret`; a peer's key of low order, on which the latter
  -- throws, is left out.
  pub x25519_public : Bytes → Bytes
  pub x25519_shared : Bytes → Bytes → Bytes
  -- `xchacha20poly1305(key, nonce, aad)`; `decrypt` is `none` where it throws.
  pub seal : Bytes → Bytes → Bytes → Bytes → Bytes
  pub unseal : Bytes → Bytes → Bytes → Bytes → Option Bytes

-- What the code relies on: a sealed text opens under the key, nonce and associated data that it was
-- sealed with, and the two ends of a key agreement compute the same secret.
pub record CryptoLaws (c : Crypto) : Type 0 where
  pub unseal-seal :
      (key nonce aad text : Bytes) → c.unseal key nonce aad (c.seal key nonce aad text) ≡ some text
  pub shared_comm :
      (a b : Bytes) → c.x25519_shared a (c.x25519_public b) ≡ c.x25519_shared b (c.x25519_public a)

-- `deriveKey`.
unfoldable pub derive_key : Crypto → Bytes → Bytes → Bytes → ℕ → Bytes
derive_key c ikm salt info length = c.hkdf ikm salt info length

-- `computeSharedSecret`.
unfoldable pub compute_shared_secret : Crypto → Bytes → Bytes → Bytes
unfolding derive_key
compute_shared_secret c mine theirs =
    derive_key c (c.x25519_shared mine theirs) (codes "networkselfmd-dm-v1") [] 32

-- `advanceChain`: the message key and the next chain key.
unfoldable pub message_key : Crypto → Bytes → Bytes
message_key c key = c.hkdf key (codes "networkselfmd-msg-v1") [] 32

unfoldable pub next_chain_key : Crypto → Bytes → Bytes
next_chain_key c key = c.hkdf key (codes "networkselfmd-chain-v1") [] 32

unfoldable pub advance_chain : Crypto → Bytes → Bytes × Bytes
advance_chain c key = (message_key c key, next_chain_key c key)
