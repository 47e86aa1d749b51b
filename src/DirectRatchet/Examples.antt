-- ===== src/DirectRatchet/Examples.antt =====
-- Two peers that both sent first: the one with the smaller name reads the other's first message.
use network_self_md.Prelude.{
  true, none, some, ◌≡◌, refl, arith, [], ◌∷◌, codes, leb, ◌++◌, if◌then◌else◌,
}
use network_self_md.Prelude.Results.{Result, ok, err}
use network_self_md.Prelude.{list_eq}
use network_self_md.GroupState.{zeros}
use network_self_md.Crypto.{Crypto, message_key, next_chain_key}
use network_self_md.Crypto.Example.{example_crypto}
use network_self_md.DoubleRatchet.{
  DoubleRatchetState, Error, Message, init_sender, init_receiver, encrypt,
}
use network_self_md.DirectRatchet.{DirectRatchetSession, Arrived, is_there, state_of, decrypt_each}
use network_self_md.DirectRatchet.Guarded.{IsGuarded, decrypt_each-IsGuarded}

-- Keys that depend on the secret that they are derived from.
abbrev keyed : Crypto
keyed = record example_crypto {
  hkdf = λ ikm salt info n. if leb 64 n then zeros 32 ++ ikm else ikm;
}

abbrev alice : DoubleRatchetState
alice = init_sender keyed (3 ∷ []) (9 ∷ []) (keyed.x25519_public (4 ∷ []))

abbrev bob : DoubleRatchetState
bob = init_sender keyed (5 ∷ []) (9 ∷ []) (keyed.x25519_public (8 ∷ []))

abbrev session : DirectRatchetSession
session = record {
  active = alice;
  bootstrap_pending = true;
  initial_receiver = some (record { state = none; expires_at = 600000 });
}

abbrev none_sent : Message
none_sent = record {
  ciphertext = [];
  nonce = [];
  ratchet_public_key = [];
  previous_chain_length = 0;
  message_number = 0;
}

abbrev sent_of : Result Error (Message × DoubleRatchetState) → Message
sent_of (ok (m, s)) = m
sent_of (err e) = none_sent

abbrev arrived : Arrived
arrived = record {
  message = sent_of (encrypt keyed bob (1 ∷ []) (1 ∷ 2 ∷ []));
  created = init_receiver (9 ∷ []) (8 ∷ []) (keyed.x25519_public (8 ∷ []));
  now = 1000;
  random = 6 ∷ [];
  again = 7 ∷ [];
}

receiver_test :
    is_there (
      state_of (decrypt_each keyed (codes "a") (codes "b") (arrived ∷ []) session).initial_receiver)
    ≡ true
unfolding decrypt_each init_sender init_receiver encrypt message_key next_chain_key list_eq
receiver_test = refl

session-IsGuarded : IsGuarded session
unfolding init_sender
session-IsGuarded = record { bounded = omega arith; receiver = tt }

decrypt_each-IsGuarded_example :
    IsGuarded (decrypt_each keyed (codes "a") (codes "b") (arrived ∷ []) session)
decrypt_each-IsGuarded_example =
    decrypt_each-IsGuarded keyed (codes "a") (codes "b") (arrived ∷ []) session session-IsGuarded
