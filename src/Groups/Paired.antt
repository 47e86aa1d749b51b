-- ===== src/Groups/Paired.antt =====
-- The sender key of a chain as two nodes hold it, and the index after a message.

use network_self_md.Prelude.{
  ℕ, ◌+◌, ◌-◌, ◌≤◌, ◌≡◌, refl, sym, ap, ◌∙◌, true, false, Option, some, [], arith, Bytes, ltb,
  lookup, lookup-insert, if◌then◌else◌, number_key,
}
use network_self_md.Prelude.Results.{Result, ok, err, require-passed, or_throw-passed}
use network_self_md.Crypto.{Crypto, advance_chain}
use network_self_md.SenderKeys.{Error, SenderKeyRecord, decrypt, decrypt_ahead, skip_keys, max_skip}
use network_self_md.SenderKeys.Chain.{chain}
use network_self_md.Groups.{StoredSenderKey, Tables, pair_key, pair_eq_iff}
use network_self_md.Groups.SenderKeyTable.{load, store, raise, created_at_of}
use network_self_md.Groups.Messages.{BoundKey, bound_key, advanced_content}

-- A key that is at its index of a chain.
pub record IsAt (c : Crypto) (root : Bytes) (generation : Bytes) (version : ℕ) (hash : Bytes)
    (index : ℕ) (o : Option StoredSenderKey) : Type 0 where
  pub key : BoundKey
  pub bound : bound_key o ≡ some key
  pub of_generation : key.generation ≡ generation
  pub of_version : key.row.epoch_version ≡ version
  pub of_hash : key.epoch_hash ≡ hash
  pub of_index : key.row.chain_index ≡ index
  pub on_chain : key.row.chain_key ≡ chain c root index

-- The sender's own key and the one that the receiver holds of it are of one chain, generation and
-- epoch, and the receiver is not ahead.
pub record IsPaired (c : Crypto) (root : Bytes) (g sender : Bytes) (sent received : ℕ)
    (ta tb : Tables) : Type 0 where
  pub generation : Bytes
  pub version : ℕ
  pub hash : Bytes
  pub own : IsAt c root generation version hash sent (load ta g sender)
  pub held : IsAt c root generation version hash received (load tb g sender)
  pub behind : received ≤ sent

-- A key that is stored again, further on its chain.
pub store-IsAt :
    (c : Crypto) (root : Bytes) (g sender : Bytes) (key : BoundKey) (chain_key : Bytes) (index : ℕ)
    (now : ℕ) (t : Tables)
    → chain_key ≡ chain c root index
    → IsAt c root key.generation key.row.epoch_version key.epoch_hash index
        (load (store t g sender (advanced_content key chain_key index) now) g sender)
unfolding store
store-IsAt c root g sender key chain_key index now t h =
    let content = advanced_content key chain_key index in
    let sequence = raise (lookup (g, sender) t.sequences) content.sequence in
    let row : StoredSenderKey = record {
      chain_key = chain_key;
      chain_index = index;
      generation_id = some key.generation;
      distribution_sequence = sequence;
      epoch_version = key.row.epoch_version;
      epoch_hash = some key.epoch_hash;
      generation_created_at = created_at_of (load t g sender) key.generation now;
    } in
    let same = (pair_eq_iff (g, sender) (g, sender)).1 refl in
    record {
      key = record { row = row; generation = key.generation; epoch_hash = key.epoch_hash };
      bound = ap bound_key (
          lookup-insert (g, sender) (g, sender) row t.sender_keys
          ∙ ap (λ b. if b then some row else lookup (g, sender) t.sender_keys) same);
      of_generation = refl;
      of_version = refl;
      of_hash = refl;
      of_index = refl;
      on_chain = h;
    }

abbrev index_in : ℕ → Result Error (Bytes × SenderKeyRecord) → ℕ
index_in n (ok (plain, next)) = next.chain_index
index_in n (err e) = n

-- The index after a message that is opened ahead of the chain.
decrypt_ahead-index :
    (c : Crypto) (rec next : SenderKeyRecord) (i : ℕ) (nonce text aad plain : Bytes)
    → decrypt_ahead c rec i nonce text aad ≡ ok (plain, next)
    → next.chain_index ≡ i + 1
unfolding decrypt_ahead skip_keys advance_chain
decrypt_ahead-index c rec next i nonce text aad plain h =
    let (few, h1) =
      require-passed (if ltb max_skip (i - rec.chain_index) then false else true) _ _ (plain, next)
        h in
    let (read, (opens, h2)) = or_throw-passed (c.unseal _ nonce aad text) _ _ (plain, next) h1 in
    sym (ap (index_in next.chain_index) h2)

pub decrypt-index :
    (c : Crypto) (rec next : SenderKeyRecord) (i : ℕ) (nonce text aad plain : Bytes)
    → rec.skipped_keys ≡ []
    → rec.chain_index ≤ i
    → decrypt c rec i nonce text aad ≡ ok (plain, next)
    → next.chain_index ≡ i + 1
unfolding decrypt
decrypt-index c rec next i nonce text aad plain empty low h =
    let not_past : ltb i rec.chain_index ≡ false = ground arith in
    decrypt_ahead-index c rec next i nonce text aad plain (rw (decrypt, empty, not_past) at h)
