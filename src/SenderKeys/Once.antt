-- ===== src/SenderKeys/Once.antt =====
-- An index of a sender-key chain is opened once, whatever arrives afterwards.
use network_self_md.Prelude.{
  ℕ, zero, suc, ◌+◌, ◌-◌, ◌≤◌, ◌<◌, ◌≡◌, refl, sym, ap, ◌∙◌, ◌⊎◌, inl, inr, true, false, none, some,
  List, [], ◌∷◌, arith, Bytes, number_key, lookup, insert, lookup-insert, delete, lookup-delete,
  ltb, ltb→ge, lt→ltb, if◌then◌else◌, Bool-cases, Option-cases,
}
use network_self_md.Prelude.Results.{Result, ok, err, require-passed, or_throw-passed}
use network_self_md.Crypto.{Crypto, message_key, next_chain_key, advance_chain}
use network_self_md.SenderKeys.{
  SenderKeyRecord, Error, already_consumed, max_skip, skip_keys, decrypt_ahead, decrypt,
}

-- What arrives at a receiver.
pub record Incoming : Type 0 where
  pub index : ℕ
  pub nonce : Bytes
  pub ciphertext : Bytes
  pub aad : Bytes

abbrev pub record_after : SenderKeyRecord → Result Error (Bytes × SenderKeyRecord) → SenderKeyRecord
record_after rec (ok (text, next)) = next
record_after rec (err e) = rec

-- Messages one after another; one that is refused leaves the record as it was.
unfoldable pub receive_all : Crypto → List Incoming → SenderKeyRecord → SenderKeyRecord
unfolding decrypt
receive_all c [] rec = rec
receive_all c (m ∷ ms) rec =
    receive_all c ms (record_after rec (decrypt c rec m.index m.nonce m.ciphertext m.aad))

-- Cached keys are of indices that the chain has passed.
abbrev pub IsOrderly : SenderKeyRecord → Type 0
IsOrderly rec = (j : ℕ) (key : Bytes) → lookup j rec.skipped_keys ≡ some key → j < rec.chain_index

-- The chain has passed the index, and no key of it is cached.
pub record IsSpent (rec : SenderKeyRecord) (i : ℕ) : Type 0 where
  pub passed : i < rec.chain_index
  pub uncached : lookup i rec.skipped_keys ≡ none

skip_keys-none :
    (c : Crypto) (n i j : ℕ) (key : Bytes) (m : List (ℕ × Bytes))
    → lookup j m ≡ none
    → (j < i) ⊎ (i + n ≤ j)
    → lookup j (skip_keys c n i key m).1 ≡ none
unfolding skip_keys
skip_keys-none c zero i j key m h out = h
skip_keys-none c (suc n) i j key m h out =
    skip_keys-none c n (suc i) j (next_chain_key c key) (insert i (message_key c key) m)
      (ground (arith, lookup-insert i j (message_key c key) m)) (ground arith)

-- The record after a message that is opened ahead of the chain.
decrypt_ahead-next :
    (c : Crypto) (rec next : SenderKeyRecord) (i : ℕ) (nonce text aad plain : Bytes)
    → decrypt_ahead c rec i nonce text aad ≡ ok (plain, next)
    → (next.chain_index ≡ i + 1)
      × (next.skipped_keys
          ≡ (skip_keys c (i - rec.chain_index) rec.chain_index rec.chain_key rec.skipped_keys).1)
unfolding decrypt_ahead advance_chain
decrypt_ahead-next c rec next i nonce text aad plain h =
    let (few, h1) =
      require-passed (if ltb max_skip (i - rec.chain_index) then false else true) _ _ (plain, next)
        h in
    let (read, (opens, h2)) = or_throw-passed (c.unseal _ nonce aad text) _ _ (plain, next) h1 in
    (
      sym (ap (λ r. (record_after next r).chain_index) h2),
      sym (ap (λ r. (record_after next r).skipped_keys) h2),
    )

-- What a message that is opened does to the record.
data Opening (c : Crypto) (rec : SenderKeyRecord) (i : ℕ) (next : SenderKeyRecord) : Type 0 where
  from_cache :
      (key : Bytes)
      → lookup i rec.skipped_keys ≡ some key
      → next.chain_index ≡ rec.chain_index
      → next.skipped_keys ≡ delete i rec.skipped_keys
      → Opening c rec i next
  from_chain :
      lookup i rec.skipped_keys ≡ none
      → rec.chain_index ≤ i
      → next.chain_index ≡ i + 1
      → next.skipped_keys
        ≡ (skip_keys c (i - rec.chain_index) rec.chain_index rec.chain_key rec.skipped_keys).1
      → Opening c rec i next

decrypt-Opening :
    (c : Crypto) (rec next : SenderKeyRecord) (i : ℕ) (nonce text aad plain : Bytes)
    → decrypt c rec i nonce text aad ≡ ok (plain, next)
    → Opening c rec i next
unfolding decrypt
decrypt-Opening c rec next i nonce text aad plain h =
    elim (Option-cases (lookup i rec.skipped_keys)) [
      | inr (key, e) ↦
          let h1 = rw (decrypt, e) at h in
          let (read, (opens, h2)) =
            or_throw-passed (c.unseal key nonce aad text) _ _ (plain, next) h1 in
          from_cache key e (sym (ap (λ r. (record_after next r).chain_index) h2))
            (sym (ap (λ r. (record_after next r).skipped_keys) h2))
      | inl e ↦ elim (Bool-cases (ltb i rec.chain_index)) [
        | inl past ↦ absurd (let h1 = rw (decrypt, e, past) at h in cc h1)
        | inr ahead ↦
            let h1 = rw (decrypt, e, ahead) at h in
            let (moved, kept) = decrypt_ahead-next c rec next i nonce text aad plain h1 in
            from_chain e (ltb→ge i rec.chain_index ahead) moved kept
      ]
    ]

-- An opened message spends its index.
Opening-IsSpent :
    (c : Crypto) (rec next : SenderKeyRecord) (i : ℕ)
    → IsOrderly rec
    → Opening c rec i next
    → IsSpent next i
Opening-IsSpent c rec next i orderly (from_cache key e moved kept) = record {
  passed = omega (arith, orderly i key e, moved);
  uncached = ap (lookup i) kept ∙ ground (arith, lookup-delete i i rec.skipped_keys);
}
Opening-IsSpent c rec next i orderly (from_chain e l moved kept) = record {
  passed = omega (arith, moved);
  uncached =
      ap (lookup i) kept
      ∙ skip_keys-none c (i - rec.chain_index) rec.chain_index i rec.chain_key rec.skipped_keys e
          (inr (omega arith));
}

-- Whatever is opened afterwards, a spent index stays spent.
Opening-keeps_IsSpent :
    (c : Crypto) (rec next : SenderKeyRecord) (i j : ℕ)
    → IsSpent rec i
    → Opening c rec j next
    → IsSpent next i
Opening-keeps_IsSpent c rec next i j spent (from_cache key e moved kept) = record {
  passed = omega (arith, spent.passed, moved);
  uncached =
      ap (lookup i) kept ∙ ground (arith, lookup-delete j i rec.skipped_keys, spent.uncached);
}
Opening-keeps_IsSpent c rec next i j spent (from_chain e l moved kept) = record {
  passed = omega (arith, spent.passed, moved);
  uncached =
      ap (lookup i) kept
      ∙ skip_keys-none c (j - rec.chain_index) rec.chain_index i rec.chain_key rec.skipped_keys
          spent.uncached (inl spent.passed);
}

record_after-IsSpent :
    (c : Crypto) (rec : SenderKeyRecord) (i : ℕ) (m : Incoming)
    (r : Result Error (Bytes × SenderKeyRecord))
    → decrypt c rec m.index m.nonce m.ciphertext m.aad ≡ r
    → IsSpent rec i
    → IsSpent (record_after rec r) i
record_after-IsSpent c rec i m (err e) at spent = spent
record_after-IsSpent c rec i m (ok (text, next)) at spent =
    Opening-keeps_IsSpent c rec next i m.index spent
      (decrypt-Opening c rec next m.index m.nonce m.ciphertext m.aad text at)

receive_all-IsSpent :
    (c : Crypto) (rec : SenderKeyRecord) (i : ℕ) (ms : List Incoming)
    → IsSpent rec i
    → IsSpent (receive_all c ms rec) i
unfolding receive_all
receive_all-IsSpent c rec i [] spent = spent
receive_all-IsSpent c rec i (m ∷ ms) spent =
    receive_all-IsSpent c (record_after rec (decrypt c rec m.index m.nonce m.ciphertext m.aad)) i ms
      (record_after-IsSpent c rec i m (decrypt c rec m.index m.nonce m.ciphertext m.aad) refl spent)

decrypt_spent :
    (c : Crypto) (rec : SenderKeyRecord) (i : ℕ) (nonce ciphertext aad : Bytes)
    → IsSpent rec i
    → decrypt c rec i nonce ciphertext aad ≡ err already_consumed
unfolding decrypt
decrypt_spent c rec i nonce ciphertext aad spent =
    rw (spent.uncached, decrypt, lt→ltb i rec.chain_index spent.passed)

-- Once a message of an index was decrypted, from a record whose cached keys are of indices that its
-- chain has passed, every other message of that index is refused as consumed, whatever its bytes
-- are, and whatever messages of whatever indices came in between, opened or refused.
pub decrypt_once :
    (c : Crypto) (rec next : SenderKeyRecord) (i : ℕ) (nonce ciphertext aad text : Bytes)
    → IsOrderly rec
    → decrypt c rec i nonce ciphertext aad ≡ ok (text, next)
    → (between : List Incoming) (nonce' ciphertext' aad' : Bytes)
    → decrypt c (receive_all c between next) i nonce' ciphertext' aad' ≡ err already_consumed
decrypt_once c rec next i nonce ciphertext aad text orderly h between nonce' ciphertext' aad' =
    let spent =
      Opening-IsSpent c rec next i orderly
        (decrypt-Opening c rec next i nonce ciphertext aad text h) in
    decrypt_spent c _ i nonce' ciphertext' aad' (receive_all-IsSpent c next i between spent)
