-- ===== src/SenderKeys.antt =====
-- `SenderKeys` of packages/core/src/protocol/sender-keys.ts: the sending and the receiving end of a
-- sender-key chain. Chain indices are plain numbers, as the code's safe integers are.
pub mod Chain
pub mod Delivery
pub mod Once
pub mod Broadcast
mod Examples
use network_self_md.Prelude.{
  ℕ, zero, suc, ◌+◌, ◌-◌, Option, none, some, List, [], Bytes, number_key, lookup, insert, delete,
  ltb, true, false, if◌then◌else◌,
}
use network_self_md.Prelude.Results.{Result, ok, err, ◌>>=◌, ◌>>◌, require, or_throw}
use network_self_md.Crypto.{Crypto, message_key, next_chain_key, advance_chain}

pub record SenderKeyState : Type 0 where
  pub chain_key : Bytes
  pub chain_index : ℕ

pub record SenderKeyRecord : Type 0 where
  pub chain_key : Bytes
  pub chain_index : ℕ
  pub skipped_keys : List (ℕ × Bytes)

abbrev pub max_skip : ℕ
max_skip = 256

pub data Error : Type 0 where
  already_consumed : Error
  too_many_skipped : Error
  bad_ciphertext : Error

pub record Packet : Type 0 where
  pub ciphertext : Bytes
  pub nonce : Bytes
  pub chain_index : ℕ

unfoldable pub generate : Bytes → SenderKeyState
generate random = record { chain_key = random; chain_index = 0 }

-- `encrypt`, with the random nonce as an argument.
unfoldable pub encrypt : Crypto → SenderKeyState → Bytes → Bytes → Bytes → Packet × SenderKeyState
unfolding advance_chain
encrypt c state nonce aad plaintext =
    let (key, next) = advance_chain c state.chain_key in
    (
      record {
        ciphertext = c.seal key nonce aad plaintext;
        nonce = nonce;
        chain_index = state.chain_index;
      },
      record { chain_key = next; chain_index = state.chain_index + 1 },
    )

-- The loop that caches the keys of `n` indices from `i` on.
unfoldable pub skip_keys : Crypto → ℕ → ℕ → Bytes → List (ℕ × Bytes) → Bytes × List (ℕ × Bytes)
skip_keys c zero i key skipped = (key, skipped)
skip_keys c (suc n) i key skipped =
    skip_keys c n (suc i) (next_chain_key c key) (insert i (message_key c key) skipped)

-- A message of an index that the chain has not passed.
unfoldable pub decrypt_ahead :
    Crypto → SenderKeyRecord → ℕ → Bytes → Bytes → Bytes → Result Error (Bytes × SenderKeyRecord)
unfolding skip_keys advance_chain
decrypt_ahead c rec index nonce ciphertext aad = do
  require (if ltb max_skip (index - rec.chain_index) then false else true) too_many_skipped
  let (current, skipped) =
      skip_keys c (index - rec.chain_index) rec.chain_index rec.chain_key rec.skipped_keys
  let (key, next) = advance_chain c current
  plaintext ← or_throw (c.unseal key nonce aad ciphertext) bad_ciphertext
  ok (plaintext, record { chain_key = next; chain_index = index + 1; skipped_keys = skipped })

unfoldable pub decrypt :
    Crypto → SenderKeyRecord → ℕ → Bytes → Bytes → Bytes → Result Error (Bytes × SenderKeyRecord)
unfolding decrypt_ahead
decrypt c rec index nonce ciphertext aad = elim (lookup index rec.skipped_keys) [
  | some key ↦ do
    plaintext ← or_throw (c.unseal key nonce aad ciphertext) bad_ciphertext
    ok (plaintext, record rec { skipped_keys = delete index rec.skipped_keys })
  | none ↦
      if ltb index rec.chain_index
      then err already_consumed
      else decrypt_ahead c rec index nonce ciphertext aad
]
