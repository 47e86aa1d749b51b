-- ===== src/SenderKeys/Chain.antt =====
-- The keys of a sender-key chain, and the record of a receiver that follows it.
use native.Mathlib.Nat.{add-zero, add-suc, suc-add}
use network_self_md.Prelude.{
  ℕ, zero, suc, ◌+◌, ◌≤◌, ◌<◌, ◌≡◌, ◌≢◌, ap, ◌∙◌, ◌⊎◌, ◌&&◌, List, none, some, arith, Bytes,
  number_key, lookup, insert, lookup-insert, ltb, leb, if◌then◌else◌,
}
use network_self_md.Crypto.{Crypto, message_key, next_chain_key}
use network_self_md.SenderKeys.{SenderKeyRecord, skip_keys}

-- The chain key, and the message key, of index `n` of the chain that starts at `root`.
abbrev pub chain : Crypto → Bytes → ℕ → Bytes
chain c root zero = root
chain c root (suc n) = next_chain_key c (chain c root n)

abbrev pub key_at : Crypto → Bytes → ℕ → Bytes
key_at c root n = message_key c (chain c root n)

pub skip_keys-chain :
    (c : Crypto) (root : Bytes) (n i : ℕ) (m : List (ℕ × Bytes))
    → (skip_keys c n i (chain c root i) m).0 ≡ chain c root (i + n)
unfolding skip_keys
skip_keys-chain c root zero i m = rw add-zero
skip_keys-chain c root (suc n) i m =
    skip_keys-chain c root n (suc i) (insert i (key_at c root i) m) ∙ rw (add-suc, suc-add)

pub skip_keys-lookup :
    (c : Crypto) (root : Bytes) (n i j : ℕ) (m : List (ℕ × Bytes))
    → lookup j (skip_keys c n i (chain c root i) m).1
      ≡ (if leb i j && ltb j (i + n) then some (key_at c root j) else lookup j m)
unfolding skip_keys
skip_keys-lookup c root zero i j m = ground arith
skip_keys-lookup c root (suc n) i j m =
    skip_keys-lookup c root n (suc i) j (insert i (key_at c root i) m)
    ∙ ground (arith, lookup-insert i j (key_at c root i) m, ap (key_at c root) {x = i} {y = j})

-- The record follows the chain: its key is the one of its index, and each cached key is the one of
-- an index that it has passed.
pub record Follows (c : Crypto) (root : Bytes) (rec : SenderKeyRecord) : Type 0 where
  pub current : rec.chain_key ≡ chain c root rec.chain_index
  pub cached :
      (j : ℕ) (key : Bytes)
      → lookup j rec.skipped_keys ≡ some key
      → (j < rec.chain_index) × (key ≡ key_at c root j)

-- An index that the receiver can still decrypt, in whatever order messages arrive.
abbrev pub Pending : SenderKeyRecord → ℕ → Type 0
Pending rec j = (rec.chain_index ≤ j) ⊎ (lookup j rec.skipped_keys ≢ none)
