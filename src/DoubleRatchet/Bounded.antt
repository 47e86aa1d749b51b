-- ===== src/DoubleRatchet/Bounded.antt =====
-- A session never keeps more than 256 skipped keys.
use network_self_md.Prelude.{
  ℕ, zero, suc, subst, ◌≡◌, ◌+◌, ◌-◌, ◌≤◌, inl, inr, List, [], Option, none, some, arith, Bytes,
  Text, text_key, lookup, insert, length, ltb, ltb→ge, length-insert-le, length-delete-le,
  Bool-cases, Option-cases,
}
use network_self_md.Prelude.Results.{Result, ok, err, ◌>>=◌, or_throw}
use network_self_md.Crypto.{Crypto, message_key, next_chain_key, advance_chain}
use network_self_md.DoubleRatchet.{
  DoubleRatchetState, Message, Error, skipped_key_id, skip_keys, skip_from, skip_messages,
  skip_old_chain, ratchet, before_chain, open_current, decrypt, needs_ratchet,
}

abbrev pub IsBounded : DoubleRatchetState → Type 0
IsBounded s = length s.skipped_keys ≤ 256

-- A result whose value, if there is one, has the property.
abbrev pub Ensures : {A : Type 0} → (A → Type 0) → Result Error A → Type 0
Ensures P (ok a) = P a
Ensures P (err e) = Unit {0}

Ensures->>= :
    {A B : Type 0} (P : A → Type 0) (Q : B → Type 0) (m : Result Error A) (f : A → Result Error B)
    → Ensures P m
    → ((a : A) → P a → Ensures Q (f a))
    → Ensures Q (m >>= f)
Ensures->>= P Q (ok a) f h k = k a h
Ensures->>= P Q (err e) f h k = tt

length-skip_keys :
    (c : Crypto) (pk : Bytes) (n i : ℕ) (chain : Bytes) (m : List (Text × Bytes))
    → length (skip_keys c pk n i chain m).1 ≤ length m + n
unfolding skip_keys
length-skip_keys c pk zero i chain m = omega arith
length-skip_keys c pk (suc n) i chain m = omega (
  arith,
  length-skip_keys c pk n (suc i) (next_chain_key c chain)
      (insert (skipped_key_id pk i) (message_key c chain) m),
  length-insert-le (skipped_key_id pk i) (message_key c chain) m,
)

skip_from-IsBounded :
    (c : Crypto) (s : DoubleRatchetState) (pk : Bytes) (until : ℕ) (chain : Option Bytes)
    → IsBounded s
    → Ensures IsBounded (skip_from c s pk until chain)
unfolding skip_from
skip_from-IsBounded c s pk until none b = b
skip_from-IsBounded c s pk until (some chain) b =
    elim (Bool-cases (ltb 256 (until - s.receive_message_number))) [
      | inl many ↦ rw many tt
      | inr few ↦
          elim (Bool-cases (ltb 256 (length s.skipped_keys + (until - s.receive_message_number)))) [
            | inl full ↦ rw (few, full) tt
            | inr room ↦
                rw (few, room)
                  (omega (
                    arith,
                    ltb→ge 256 _ room,
                    length-skip_keys c pk (until - s.receive_message_number)
                        s.receive_message_number chain s.skipped_keys,
                  ))
          ]
    ]

skip_messages-IsBounded :
    (c : Crypto) (s : DoubleRatchetState) (pk : Bytes) (until : ℕ)
    → IsBounded s
    → Ensures IsBounded (skip_messages c s pk until)
unfolding skip_messages
skip_messages-IsBounded c s pk until b = skip_from-IsBounded c s pk until s.receive_chain_key b

skip_old_chain-IsBounded :
    (c : Crypto) (s : DoubleRatchetState) (previous : ℕ) (chain pk : Option Bytes)
    → IsBounded s
    → Ensures IsBounded (skip_old_chain c s previous chain pk)
unfolding skip_old_chain
skip_old_chain-IsBounded c s previous (some chain) (some pk) b =
    skip_messages-IsBounded c s pk previous b
skip_old_chain-IsBounded c s previous (some chain) none b = b
skip_old_chain-IsBounded c s previous none pk b = b

before_chain-IsBounded :
    (c : Crypto) (s : DoubleRatchetState) (pk : Bytes) (previous : ℕ) (random : Bytes)
    → IsBounded s
    → Ensures IsBounded (before_chain c s pk previous random)
unfolding before_chain ratchet
before_chain-IsBounded c s pk previous random b =
    elim (Bool-cases (needs_ratchet s.receive_ratchet_public pk)) [
      | inl new ↦
          rw (Ensures, before_chain, new)
            (Ensures->>= IsBounded IsBounded
              (skip_old_chain c s previous s.receive_chain_key s.receive_ratchet_public)
              (λ t. ok (ratchet c t pk random))
              (skip_old_chain-IsBounded c s previous s.receive_chain_key s.receive_ratchet_public b)
              (λ t h. h))
      | inr same ↦ rw (Ensures, before_chain, same) b
    ]

abbrev Kept : Bytes × DoubleRatchetState → Type 0
Kept r = IsBounded r.1

Kept-with :
    {B : Type 0} (o : Option B) (e : Error) (f : B → Result Error (Bytes × DoubleRatchetState))
    → ((a : B) → Ensures Kept (f a))
    → Ensures Kept (or_throw o e >>= f)
Kept-with none e f k = tt
Kept-with (some a) e f k = k a

open_current-IsBounded :
    (c : Crypto) (s : DoubleRatchetState) (nonce ciphertext : Bytes)
    → IsBounded s
    → Ensures Kept (open_current c s nonce ciphertext)
unfolding open_current
open_current-IsBounded c s nonce ciphertext b =
    Kept-with s.receive_chain_key _ _
      (λ chain. Kept-with (c.unseal (advance_chain c chain).0 nonce [] ciphertext) _ _ (λ text. b))

pub decrypt-Ensures :
    (c : Crypto) (s : DoubleRatchetState) (m : Message) (random : Bytes)
    → IsBounded s
    → Ensures (λ r. IsBounded r.1) (decrypt c s m random)
unfolding decrypt
decrypt-Ensures c s m random b =
    let id = skipped_key_id m.ratchet_public_key m.message_number in
    elim (Option-cases (lookup id s.skipped_keys)) [
      | inl e ↦
          rw (Ensures, e)
            (Ensures->>= IsBounded Kept _ _
              (before_chain-IsBounded c s m.ratchet_public_key m.previous_chain_length random b)
              (λ t h.
                Ensures->>= IsBounded Kept _ _
                  (skip_messages-IsBounded c t m.ratchet_public_key m.message_number h)
                  (λ u k. open_current-IsBounded c u m.nonce m.ciphertext k)))
      | inr (key, e) ↦
          rw (Ensures, e)
            (Kept-with (c.unseal key m.nonce [] m.ciphertext) _ _
              (λ text. omega (arith, length-delete-le id s.skipped_keys)))
    ]

-- From a state with at most 256 skipped keys, a message that is decrypted leaves at most 256.
pub decrypt-IsBounded :
    (c : Crypto) (s s' : DoubleRatchetState) (m : Message) (random text : Bytes)
    → IsBounded s
    → decrypt c s m random ≡ ok (text, s')
    → IsBounded s'
decrypt-IsBounded c s s' m random text b h =
    subst (Ensures (λ r. IsBounded r.1)) h (decrypt-Ensures c s m random b)
