-- ===== src/SenderKeys/Broadcast.antt =====
-- A sender and a receiver of one chain: what was encrypted in order is decrypted in any order.
use native.Mathlib.Nat.{add-zero, zero-add}
use native.Mathlib.Numerals.{add-one}
use mathlib.Core.Option.{some-injective}
use network_self_md.Prelude.{
  ℕ, zero, suc, ◌+◌, ◌≤◌, ◌<◌, ◌≡◌, ◌≢◌, refl, sym, ap, ◌∙◌, subst, inl, List, [], ◌∷◌, some, arith,
  Bytes, All, map, length, get_elem?,
}
use network_self_md.Prelude.Results.{Result, ok, ◌>>=◌}
use network_self_md.Crypto.{Crypto, CryptoLaws}
use network_self_md.SenderKeys.{
  SenderKeyState, SenderKeyRecord, Packet, Error, generate, encrypt, decrypt,
}
use network_self_md.SenderKeys.Chain.{chain, key_at, Follows, Pending}
use network_self_md.SenderKeys.Delivery.{decrypt-Opens}

-- The sender encrypts the messages, each with its nonce, one after another.
unfoldable pub send_each : Crypto → SenderKeyState → Bytes → List (Bytes × Bytes) → List Packet
send_each c state aad [] = []
send_each c state aad ((nonce, text) ∷ msgs) =
    (encrypt c state nonce aad text).0 ∷ send_each c (encrypt c state nonce aad text).1 aad msgs

-- A receiver decrypts packets as they come, and gives up at the first that it cannot.
pub receive_each :
    Crypto → SenderKeyRecord → Bytes → List Packet → Result Error (List Bytes × SenderKeyRecord)
receive_each c rec aad [] = ok ([], rec)
receive_each c rec aad (p ∷ ps) = do
  (text, rec') ← decrypt c rec p.chain_index p.nonce p.ciphertext aad
  (texts, last) ← receive_each c rec' aad ps
  ok (text ∷ texts, last)

pub record Arrival : Type 0 where
  pub index : ℕ
  pub packet : Packet
  pub nonce : Bytes
  pub text : Bytes

-- The packet is the one that was sent at this index, for this text.
pub record IsSent (c : Crypto) (root aad : Bytes) (msgs : List (Bytes × Bytes)) (a : Arrival)
    : Type 0 where
  pub packet : get_elem? (send_each c (generate root) aad msgs) a.index ≡ some a.packet
  pub text : get_elem? msgs a.index ≡ some (a.nonce, a.text)

-- No packet comes twice.
abbrev pub Once : List Arrival → Type 0
Once [] = Unit {0}
Once (a ∷ rest) = All (λ b. b.index ≢ a.index) rest × Once rest

abbrev packet_at : Crypto → Bytes → Bytes → ℕ → Bytes → Bytes → Packet
packet_at c root aad i nonce text = record {
  ciphertext = c.seal (key_at c root i) nonce aad text;
  nonce = nonce;
  chain_index = i;
}

get_elem?-send_each :
    (c : Crypto) (root aad : Bytes) (msgs : List (Bytes × Bytes)) (n i : ℕ) (nonce text : Bytes)
    → get_elem? msgs i ≡ some (nonce, text)
    → get_elem? (send_each c (record { chain_key = chain c root n; chain_index = n }) aad msgs) i
      ≡ some (packet_at c root aad (n + i) nonce text)
unfolding send_each encrypt
get_elem?-send_each c root aad [] n i nonce text h = cc
get_elem?-send_each c root aad ((k, t) ∷ msgs) n zero nonce text h =
    rw add-zero
      (ap (λ q. some (packet_at c root aad n q.0 q.1)) (some-injective (k, t) (nonce, text) h))
get_elem?-send_each c root aad ((k, t) ∷ msgs) n (suc i) nonce text h =
    subst
      (λ m.
        get_elem?
          (send_each c (record { chain_key = chain c root (suc n); chain_index = m }) aad msgs) i
        ≡ some (packet_at c root aad (n + suc i) nonce text))
      (sym (add-one n))
      (get_elem?-send_each c root aad msgs (suc n) i nonce text h
        ∙ ap (λ m. some (packet_at c root aad m nonce text)) moved)
  where
    moved : suc n + i ≡ n + suc i
    moved = omega arith

get_elem?-lt : {A : Type 0} (xs : List A) (i : ℕ) (a : A) → get_elem? xs i ≡ some a → i < length xs
get_elem?-lt [] i a h = cc
get_elem?-lt (x ∷ xs) zero a h = omega arith
get_elem?-lt (x ∷ xs) (suc i) a h = omega (arith, get_elem?-lt xs i a h)

-- The record that a receiver makes of a new chain's distribution.
abbrev pub start : Bytes → SenderKeyRecord
start root = record { chain_key = root; chain_index = 0; skipped_keys = [] }

Pending-at_start : (c : Crypto) (root : Bytes) (j : ℕ) → Pending (start root) j
Pending-at_start c root j = inl (omega arith)

module _ (c : Crypto) (laws : CryptoLaws c) (root aad : Bytes) (msgs : List (Bytes × Bytes))
    (few : length msgs ≤ 257) where
  packet-IsSent :
      (a : Arrival)
      → IsSent c root aad msgs a
      → a.packet ≡ packet_at c root aad a.index a.nonce a.text
  unfolding generate
  packet-IsSent a s = some-injective a.packet (packet_at c root aad a.index a.nonce a.text) (
      sym s.packet
      ∙ get_elem?-send_each c root aad msgs 0 a.index a.nonce a.text s.text
      ∙ rw zero-add)

  All-consumed :
      (rec rec' : SenderKeyRecord) (i : ℕ) (arrivals : List Arrival)
      → ((j : ℕ) → Pending rec j × (j ≢ i) → Pending rec' j)
      → All (λ a. Pending rec a.index) arrivals
      → All (λ a. a.index ≢ i) arrivals
      → All (λ a. Pending rec' a.index) arrivals
  All-consumed rec rec' i [] k p n = tt
  All-consumed rec rec' i (a ∷ arrivals) k p n =
      (k a.index (p.0, n.0), All-consumed rec rec' i arrivals k p.1 n.1)

  receive_from :
      (arrivals : List Arrival) (rec : SenderKeyRecord)
      → Follows c root rec
      → All (IsSent c root aad msgs) arrivals
      → All (λ a. Pending rec a.index) arrivals
      → Once arrivals
      → (last : SenderKeyRecord) × (receive_each c rec aad (map (λ a. a.packet) arrivals)
          ≡ ok (map (λ a. a.text) arrivals, last))
  unfolding receive_each
  receive_from [] rec f s p o = (rec, refl)
  receive_from (a ∷ arrivals) rec f s p o =
      let near : a.index ≤ rec.chain_index + 256 =
        omega (arith, get_elem?-lt msgs a.index (a.nonce, a.text) s.0.text) in
      let (rec', opens) = decrypt-Opens c laws root rec f a.index a.nonce aad a.text p.0 near in
      let (last, rest) =
        receive_from arrivals rec' opens.follows s.1
          (All-consumed rec rec' a.index arrivals (λ j. (opens.consumed j).1) p.1 o.0) o.1 in
      (last, rw (packet-IsSent a s.0, opens.opened, rest))

  All-Pending : (arrivals : List Arrival) → All (λ a. Pending (start root) a.index) arrivals
  All-Pending [] = tt
  All-Pending (a ∷ arrivals) = (Pending-at_start c root a.index, All-Pending arrivals)

  -- Of up to 257 messages that a sender encrypted in order under a new chain, any packets, in any
  -- order, without repetition, are all decrypted to their texts by a receiver that starts from the
  -- key that the chain started from.
  pub receive_each-send_each :
      (arrivals : List Arrival)
      → All (IsSent c root aad msgs) arrivals
      → Once arrivals
      → (last : SenderKeyRecord) × (receive_each c (start root) aad (map (λ a. a.packet) arrivals)
          ≡ ok (map (λ a. a.text) arrivals, last))
  receive_each-send_each arrivals s o =
      receive_from arrivals (start root)
        (record { current = refl; cached = λ j key h. absurd (cc h) }) s (All-Pending arrivals) o
