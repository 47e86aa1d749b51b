-- ===== src/SenderKeys/Delivery.antt =====
-- Messages of a sender-key chain are decrypted in whatever order they arrive, each one once.
use native.Mathlib.Decide.{dec_le, dec_lt}
use native.Mathlib.Numerals.{add-one}
use network_self_md.Prelude.{
  ℕ, suc, ◌+◌, ◌-◌, ◌≤◌, ◌<◌, ◌≡◌, ◌≢◌, sym, ap, ◌∙◌, inl, inr, ◌↔◌, ◌&&◌, none, some, arith, Bytes,
  number_key, lookup, delete, lookup-delete, ltb, leb, if◌then◌else◌, Option-cases,
}
use network_self_md.Prelude.Results.{ok}
use network_self_md.Crypto.{Crypto, CryptoLaws, message_key, next_chain_key, advance_chain}
use network_self_md.SenderKeys.{SenderKeyRecord, skip_keys, decrypt}
use network_self_md.SenderKeys.Chain.{
  chain, key_at, skip_keys-chain, skip_keys-lookup, Follows, Pending,
}

-- The message of an index was opened, and this one index is no longer pending.
pub record Opens (c : Crypto) (root : Bytes) (rec : SenderKeyRecord) (i : ℕ)
    (nonce aad text : Bytes) (rec' : SenderKeyRecord) : Type 0 where
  pub opened : decrypt c rec i nonce (c.seal (key_at c root i) nonce aad text) aad ≡ ok (text, rec')
  pub follows : Follows c root rec'
  pub consumed : (j : ℕ) → Pending rec' j ↔ (Pending rec j × (j ≢ i))

module _ (c : Crypto) (laws : CryptoLaws c) (root : Bytes) (rec : SenderKeyRecord)
    (f : Follows c root rec) (i : ℕ) (nonce aad text : Bytes) where
  Opens-cached :
      (key : Bytes)
      → lookup i rec.skipped_keys ≡ some key
      → Opens c root rec i nonce aad text (record rec { skipped_keys = delete i rec.skipped_keys })
  unfolding decrypt
  Opens-cached key e =
      let (passed, same) = f.cached i key e in
      record {
        opened = rw (e, decrypt, same, laws.unseal-seal);
        follows = record { current = f.current; cached = λ j k h. f.cached j k (kept j k h) };
        consumed = λ j. ground (arith, lookup-delete i j rec.skipped_keys);
      }
    where
      kept :
          (j : ℕ) (k : Bytes)
          → lookup j (delete i rec.skipped_keys) ≡ some k
          → lookup j rec.skipped_keys ≡ some k
      kept j k h = ground (arith, lookup-delete i j rec.skipped_keys)

  -- The record after a message ahead of the chain.
  ahead : SenderKeyRecord
  ahead = record {
    chain_key = chain c root (suc i);
    chain_index = i + 1;
    skipped_keys =
        (skip_keys c (i - rec.chain_index) rec.chain_index (chain c root rec.chain_index)
          rec.skipped_keys).1;
  }

  Opens-ahead :
      lookup i rec.skipped_keys ≡ none
      → rec.chain_index ≤ i
      → i ≤ rec.chain_index + 256
      → Opens c root rec i nonce aad text ahead
  unfolding decrypt advance_chain ahead
  Opens-ahead e l w =
      let n = i - rec.chain_index in
      let back : rec.chain_index + n ≡ i = omega arith in
      let reached =
        skip_keys-chain c root n rec.chain_index rec.skipped_keys ∙ ap (chain c root) back in
      record {
        opened = ground (
          arith,
          f.current,
          reached,
          laws.unseal-seal (key_at c root i) nonce aad text,
          ap (message_key c) reached,
          ap (next_chain_key c) reached,
        );
        follows = record {
          current = ap (chain c root) (sym (add-one i));
          cached = λ j k h. grown j k h;
        };
        consumed = λ j. (later j, sooner j);
      }
    where
      cache :
          (j : ℕ)
          → lookup j ahead.skipped_keys ≡ (
              if leb rec.chain_index j && ltb j i
              then some (key_at c root j)
              else lookup j rec.skipped_keys)
      cache j =
          skip_keys-lookup c root (i - rec.chain_index) rec.chain_index j rec.skipped_keys
          ∙ ground arith

      grown :
          (j : ℕ) (k : Bytes)
          → lookup j ahead.skipped_keys ≡ some k
          → (j < i + 1) × (k ≡ key_at c root j)
      grown j k h = ground (arith, cache j, f.cached j k)

      later : (j : ℕ) → Pending ahead j → Pending rec j × (j ≢ i)
      later j (inl p) = (inl (omega arith), omega arith)
      later j (inr p) = (
        elim (dec_le rec.chain_index j) [
          | yes past ↦ inl past
          | no before ↦ inr (λ z. p (cache j ∙ ground arith))
        ],
        λ q. p (cache j ∙ ground (arith, ap (λ r. lookup r rec.skipped_keys) q)),
      )

      sooner : (j : ℕ) → Pending rec j × (j ≢ i) → Pending ahead j
      sooner j (inl p, ne) = elim (dec_lt j i) [
        | yes before ↦ inr (λ z. absurd (ground (arith, cache j)))
        | no past ↦ inl (omega arith)
      ]
      sooner j (inr p, ne) = inr (λ z. absurd (ground (arith, cache j, p)))

-- A message whose index is pending, and at most 256 past the chain, is decrypted to the text that
-- was sealed at this index; then this index and no other stops being pending.
pub decrypt-Opens :
    (c : Crypto) (laws : CryptoLaws c) (root : Bytes) (rec : SenderKeyRecord)
    → Follows c root rec
    → (i : ℕ) (nonce aad text : Bytes) → Pending rec i
    → i ≤ rec.chain_index + 256
    → (rec' : SenderKeyRecord) × Opens c root rec i nonce aad text rec'
decrypt-Opens c laws root rec f i nonce aad text p w =
    elim (Option-cases (lookup i rec.skipped_keys)) [
      | inl e ↦ (
        ahead c laws root rec f i nonce aad text,
        Opens-ahead c laws root rec f i nonce aad text e (ground arith) w,
      )
      | inr (key, e) ↦ (_, Opens-cached c laws root rec f i nonce aad text key e)
    ]
