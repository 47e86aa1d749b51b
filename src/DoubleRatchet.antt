-- ===== src/DoubleRatchet.antt =====
-- `DoubleRatchet` of packages/core/src/protocol/double-ratchet.ts. Message numbers are plain numbers;
-- `until - receiveMessageNumber` may be negative there, so its tests are written as comparisons.
pub mod Bounded
pub mod Sync
pub mod Conversation
mod Examples
use network_self_md.Prelude.{
  ℕ, zero, suc, ◌+◌, ◌-◌, ◌/◌, ◌%◌, Bool, true, false, not, Option, none, some, List, [], ◌∷◌, ◌++◌,
  Bytes, Text, codes, list_eq, text_key, lookup, insert, delete, length, take, drop, ltb,
  if◌then◌else◌,
}
use network_self_md.Prelude.Results.{Result, ok, err, ◌>>=◌, ◌>>◌, require, or_throw}
use network_self_md.Bytes.{to_hex}
use network_self_md.Crypto.{Crypto, message_key, next_chain_key, advance_chain}

pub record DoubleRatchetState : Type 0 where
  pub root_key : Bytes
  pub send_chain_key : Option Bytes
  pub receive_chain_key : Option Bytes
  pub send_ratchet_private : Bytes
  pub send_ratchet_public : Bytes
  pub receive_ratchet_public : Option Bytes
  pub send_message_number : ℕ
  pub receive_message_number : ℕ
  pub previous_chain_length : ℕ
  pub skipped_keys : List (Text × Bytes)

abbrev pub max_skip : ℕ
max_skip = 256

pub data Error : Type 0 where
  no_send_chain no_receive_chain too_many_skipped too_many_keys bad_ciphertext : Error

pub record Message : Type 0 where
  pub ciphertext : Bytes
  pub nonce : Bytes
  pub ratchet_public_key : Bytes
  pub previous_chain_length : ℕ
  pub message_number : ℕ

-- The new root key and the chain key.
unfoldable pub dh_ratchet_step : Crypto → Bytes → Bytes → Bytes × Bytes
dh_ratchet_step c root dh_out =
    let derived = c.hkdf dh_out root (codes "networkselfmd-ratchet-v1") 64 in
    (take 32 derived, drop 32 (take 64 derived))

-- A number in decimal, with as many rounds as it could need.
pub digits : ℕ → ℕ → Text
digits zero n = []
digits (suc fuel) n =
    let rest = digits fuel (n / 10) in
    if ltb n 10 then (b'0' + n) ∷ [] else rest ++ (b'0' + n % 10) ∷ []

unfoldable pub decimal : ℕ → Text
unfolding digits
decimal n = digits (suc n) n

unfoldable pub skipped_key_id : Bytes → ℕ → Text
unfolding decimal to_hex
skipped_key_id key n = to_hex key ++ b':' ∷ decimal n

-- `initSender`, with its random bytes as an argument.
unfoldable pub init_sender : Crypto → Bytes → Bytes → Bytes → DoubleRatchetState
init_sender c random secret recipient =
    let (root, chain) = dh_ratchet_step c secret (c.x25519_shared random recipient) in
    record {
      root_key = root;
      send_chain_key = some chain;
      receive_chain_key = none;
      send_ratchet_private = random;
      send_ratchet_public = c.x25519_public random;
      receive_ratchet_public = some recipient;
      send_message_number = 0;
      receive_message_number = 0;
      previous_chain_length = 0;
      skipped_keys = [];
    }

unfoldable pub init_receiver : Bytes → Bytes → Bytes → DoubleRatchetState
init_receiver secret private public = record {
  root_key = secret;
  send_chain_key = none;
  receive_chain_key = none;
  send_ratchet_private = private;
  send_ratchet_public = public;
  receive_ratchet_public = none;
  send_message_number = 0;
  receive_message_number = 0;
  previous_chain_length = 0;
  skipped_keys = [];
}

unfoldable pub encrypt :
    Crypto → DoubleRatchetState → Bytes → Bytes → Result Error (Message × DoubleRatchetState)
unfolding advance_chain
encrypt c state nonce plaintext = do
  chain ← or_throw state.send_chain_key no_send_chain
  let (key, next) = advance_chain c chain
  ok (
    record {
      ciphertext = c.seal key nonce [] plaintext;
      nonce = nonce;
      ratchet_public_key = state.send_ratchet_public;
      previous_chain_length = state.previous_chain_length;
      message_number = state.send_message_number;
    },
    record state {
      send_chain_key = some next;
      send_message_number = state.send_message_number + 1;
    },
  )

-- The loop of `skipMessages`, for `n` message numbers from `i` on.
unfoldable pub skip_keys :
    Crypto → Bytes → ℕ → ℕ → Bytes → List (Text × Bytes) → Bytes × List (Text × Bytes)
skip_keys c pk zero i chain skipped = (chain, skipped)
skip_keys c pk (suc n) i chain skipped =
    skip_keys c pk n (suc i) (next_chain_key c chain)
      (insert (skipped_key_id pk i) (message_key c chain) skipped)

pub skip_from :
    Crypto → DoubleRatchetState → Bytes → ℕ → Option Bytes → Result Error DoubleRatchetState
unfolding skip_keys
skip_from c state pk until none = ok state
skip_from c state pk until (some chain) = do
  let received = state.receive_message_number
  require (not (ltb max_skip (until - received))) too_many_skipped
  require (not (ltb max_skip (length state.skipped_keys + (until - received)))) too_many_keys
  let (next, skipped) = skip_keys c pk (until - received) received chain state.skipped_keys
  ok (record state {
    receive_chain_key = some next;
    receive_message_number = until;
    skipped_keys = skipped;
  })

-- `skipMessages`. Where `until` is below the number received, no key is skipped and the number goes
-- back to `until`.
unfoldable pub skip_messages :
    Crypto → DoubleRatchetState → Bytes → ℕ → Result Error DoubleRatchetState
unfolding skip_from
skip_messages c state pk until = skip_from c state pk until state.receive_chain_key

-- The rest of the receiving chain is skipped before a ratchet step, if there is one.
pub skip_old_chain :
    Crypto → DoubleRatchetState → ℕ → Option Bytes → Option Bytes → Result Error DoubleRatchetState
unfolding skip_messages
skip_old_chain c state previous (some chain) (some pk) = skip_messages c state pk previous
skip_old_chain c state previous _ _ = ok state

-- The two key agreements of a ratchet step, with the fresh private key `random`.
pub ratchet : Crypto → DoubleRatchetState → Bytes → Bytes → DoubleRatchetState
unfolding dh_ratchet_step
ratchet c state pk random =
    let (root, receiving) =
      dh_ratchet_step c state.root_key (c.x25519_shared state.send_ratchet_private pk) in
    let (last_root, sending) = dh_ratchet_step c root (c.x25519_shared random pk) in
    record state {
      root_key = last_root;
      send_chain_key = some sending;
      receive_chain_key = some receiving;
      send_ratchet_private = random;
      send_ratchet_public = c.x25519_public random;
      receive_ratchet_public = some pk;
      previous_chain_length = state.send_message_number;
      send_message_number = 0;
      receive_message_number = 0;
    }

pub needs_ratchet : Option Bytes → Bytes → Bool
needs_ratchet none pk = true
needs_ratchet (some old) pk = not (list_eq pk old)

pub before_chain : Crypto → DoubleRatchetState → Bytes → ℕ → Bytes → Result Error DoubleRatchetState
unfolding skip_old_chain ratchet needs_ratchet
before_chain c state pk previous random = elim (needs_ratchet state.receive_ratchet_public pk) [
  | true ↦ do
    skipped ← skip_old_chain c state previous state.receive_chain_key state.receive_ratchet_public
    ok (ratchet c skipped pk random)
  | false ↦ ok state
]

-- The message key of the current receiving chain.
pub open_current :
    Crypto → DoubleRatchetState → Bytes → Bytes → Result Error (Bytes × DoubleRatchetState)
unfolding advance_chain
open_current c state nonce ciphertext = do
  chain ← or_throw state.receive_chain_key no_receive_chain
  let (key, next) = advance_chain c chain
  plaintext ← or_throw (c.unseal key nonce [] ciphertext) bad_ciphertext
  ok (
    plaintext,
    record state {
      receive_chain_key = some next;
      receive_message_number = state.receive_message_number + 1;
    },
  )

-- `decrypt`, with the random bytes of a ratchet step, which it may or may not make.
unfoldable pub decrypt :
    Crypto → DoubleRatchetState → Message → Bytes → Result Error (Bytes × DoubleRatchetState)
unfolding skip_messages before_chain open_current
decrypt c state m random =
    let id = skipped_key_id m.ratchet_public_key m.message_number in
    elim (lookup id state.skipped_keys) [
      | some key ↦ do
        plaintext ← or_throw (c.unseal key m.nonce [] m.ciphertext) bad_ciphertext
        ok (plaintext, record state { skipped_keys = delete id state.skipped_keys })
      | none ↦ do
        chained ← before_chain c state m.ratchet_public_key m.previous_chain_length random
        skipped ← skip_messages c chained m.ratchet_public_key m.message_number
        open_current c skipped m.nonce m.ciphertext
    ]
