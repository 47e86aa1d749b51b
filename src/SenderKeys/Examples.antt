-- ===== src/SenderKeys/Examples.antt =====
-- Two messages of one chain, received in the other order.
use network_self_md.Prelude.{
  ℕ, ◌≡◌, refl, inl, List, [], ◌∷◌, arith, Bytes, number_key, list_eq, map,
}
use network_self_md.Prelude.Results.{ok, err}
use network_self_md.Crypto.{message_key, next_chain_key}
use network_self_md.Crypto.Example.{example_crypto, example_laws}
use network_self_md.SenderKeys.{
  SenderKeyRecord, already_consumed, Packet, generate, encrypt, decrypt,
}
use network_self_md.SenderKeys.Chain.{key_at, Follows}
use network_self_md.SenderKeys.Delivery.{Opens, decrypt-Opens}
use network_self_md.SenderKeys.Once.{Incoming, record_after, receive_all, decrypt_once}
use network_self_md.SenderKeys.Broadcast.{
  Arrival, start, send_each, receive_each, receive_each-send_each, IsSent,
}

abbrev root : Bytes
root = 5 ∷ []

starts : Follows example_crypto root (start root)
starts = record { current = refl; cached = λ j key h. absurd (cc h) }

decrypt-Opens_example : (rec : _) × Opens example_crypto root (start root) 1 [] [] (7 ∷ []) rec
decrypt-Opens_example =
    decrypt-Opens example_crypto example_laws root (start root) starts 1 [] [] (7 ∷ [])
      (inl (omega arith)) (omega arith)

abbrev messages : List (Bytes × Bytes)
messages = ([], 7 ∷ []) ∷ ([], 8 ∷ []) ∷ []

abbrev packet : ℕ → Bytes → Packet
packet i text = record {
  ciphertext = example_crypto.seal (key_at example_crypto root i) [] [] text;
  nonce = [];
  chain_index = i;
}

abbrev arrival : ℕ → Bytes → Arrival
arrival i text = record { index = i; packet = packet i text; nonce = []; text = text }

abbrev arrivals : List Arrival
arrivals = arrival 1 (8 ∷ []) ∷ arrival 0 (7 ∷ []) ∷ []

IsSent-second : IsSent example_crypto root [] messages (arrival 1 (8 ∷ []))
unfolding send_each generate encrypt
IsSent-second = record { packet = refl; text = refl }

IsSent-first : IsSent example_crypto root [] messages (arrival 0 (7 ∷ []))
unfolding send_each generate encrypt
IsSent-first = record { packet = refl; text = refl }

receive_each-send_each_example :
    (last : _) × (receive_each example_crypto (start root) [] (map (λ a. a.packet) arrivals)
      ≡ ok ((8 ∷ []) ∷ (7 ∷ []) ∷ [], last))
receive_each-send_each_example =
    receive_each-send_each example_crypto example_laws root [] messages (omega arith) arrivals
      (IsSent-second, (IsSent-first, tt)) (((λ h. absurd (omega arith)), tt), (tt, tt))

abbrev incoming : ℕ → Bytes → Incoming
incoming i text = record {
  index = i;
  nonce = [];
  ciphertext = example_crypto.seal (key_at example_crypto root i) [] [] text;
  aad = [];
}

-- The record after the second message, which arrives first.
abbrev opened_second : SenderKeyRecord
opened_second =
    record_after (start root)
      (decrypt example_crypto (start root) 1 [] (incoming 1 (8 ∷ [])).ciphertext [])

second_test :
    decrypt example_crypto (start root) 1 [] (incoming 1 (8 ∷ [])).ciphertext []
    ≡ ok (8 ∷ [], opened_second)
unfolding decrypt list_eq message_key next_chain_key
second_test = refl

-- The second message again, after the first one.
decrypt_once_example :
    decrypt example_crypto
      (receive_all example_crypto (incoming 0 (7 ∷ []) ∷ []) opened_second)
      1
      []
      (incoming 1 (9 ∷ [])).ciphertext
      []
    ≡ err already_consumed
decrypt_once_example =
    decrypt_once example_crypto (start root) opened_second 1 [] (incoming 1 (8 ∷ [])).ciphertext []
      (8 ∷ []) (λ j key h. absurd (cc h)) second_test (incoming 0 (7 ∷ []) ∷ []) []
      (incoming 1 (9 ∷ [])).ciphertext []
