-- ===== src/DoubleRatchet/Examples.antt =====
-- The first messages of a session: one with nothing skipped, and one with three skipped.
use network_self_md.Prelude.{Bytes, ◌≡◌, refl, inl, arith, length, list_eq, [], ◌∷◌}
use network_self_md.Prelude.Results.{Result, ok, err}
use network_self_md.Crypto.{message_key, next_chain_key}
use network_self_md.Crypto.Example.{example_crypto, example_laws}
use network_self_md.DoubleRatchet.{
  DoubleRatchetState, Error, Message, dh_ratchet_step, init_sender, init_receiver, encrypt, decrypt,
  skip_messages, skip_keys, skipped_key_id,
}
use network_self_md.DoubleRatchet.Sync.{InSync}
use network_self_md.DoubleRatchet.Conversation.{exchange, init-Ahead, exchange-InSync}
use network_self_md.DoubleRatchet.Bounded.{IsBounded, decrypt-IsBounded}

abbrev alice : DoubleRatchetState
alice = init_sender example_crypto (3 ∷ []) (9 ∷ []) (example_crypto.x25519_public (4 ∷ []))

abbrev bob : DoubleRatchetState
bob = init_receiver (9 ∷ []) (4 ∷ []) (example_crypto.x25519_public (4 ∷ []))

abbrev none_sent : Message
none_sent = record {
  ciphertext = [];
  nonce = [];
  ratchet_public_key = [];
  previous_chain_length = 0;
  message_number = 0;
}

abbrev sent_of : Result Error (Message × DoubleRatchetState) → Message × DoubleRatchetState
sent_of (ok sent) = sent
sent_of (err e) = (none_sent, alice)

-- Alice's fourth message, the first that arrives.
abbrev fourth : Message
fourth =
    let one = sent_of (encrypt example_crypto alice [] (1 ∷ [])) in
    let two = sent_of (encrypt example_crypto one.1 [] (1 ∷ [])) in
    let three = sent_of (encrypt example_crypto two.1 [] (1 ∷ [])) in
    (sent_of (encrypt example_crypto three.1 [] (1 ∷ 2 ∷ []))).0

abbrev read_of : Result Error (Bytes × DoubleRatchetState) → DoubleRatchetState
read_of (ok (text, s)) = s
read_of (err e) = alice

abbrev bob_after : DoubleRatchetState
bob_after = read_of (decrypt example_crypto bob fourth (6 ∷ []))

fourth_test : decrypt example_crypto bob fourth (6 ∷ []) ≡ ok (1 ∷ 2 ∷ [], bob_after)
unfolding decrypt encrypt init_sender init_receiver skip_messages skip_keys dh_ratchet_step list_eq
    message_key next_chain_key
fourth_test = refl

skipped_test : length bob_after.skipped_keys ≡ 3
unfolding decrypt encrypt init_sender init_receiver skip_messages skip_keys dh_ratchet_step list_eq
    message_key next_chain_key skipped_key_id
skipped_test = refl

decrypt-IsBounded_example : IsBounded bob_after
decrypt-IsBounded_example =
    decrypt-IsBounded example_crypto bob bob_after fourth (6 ∷ []) (1 ∷ 2 ∷ [])
      (unfold init_receiver in omega arith) fourth_test

abbrev first_chain : Bytes
first_chain = (dh_ratchet_step example_crypto (9 ∷ []) (7 ∷ [])).1

first_synced : InSync example_crypto alice bob
first_synced = inl (init-Ahead example_crypto example_laws (3 ∷ []) (9 ∷ []) (4 ∷ []))

exchange-InSync_example :
    (s' : DoubleRatchetState) × ((r' : DoubleRatchetState) × ((exchange example_crypto alice bob []
            (1 ∷ 2 ∷ [])
            (6 ∷ [])
          ≡ ok (1 ∷ 2 ∷ [], (s', r')))
        × InSync example_crypto s' r'))
unfolding init_sender init_receiver
exchange-InSync_example =
    exchange-InSync example_crypto example_laws alice bob first_chain [] (1 ∷ 2 ∷ []) (6 ∷ [])
      first_synced refl (λ h. absurd (cc h))
