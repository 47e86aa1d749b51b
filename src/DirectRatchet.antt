-- ===== src/DirectRatchet.antt =====
-- packages/node/src/network/direct-ratchet.ts: the session of two peers that may both have sent first,
-- with its own ratchet and, for a while, one receiver for the other peer's. The time, the random
-- bytes and the receiver made from the identity are arguments.
pub mod Guarded
mod Examples
use network_self_md.Prelude.{
  ℕ, Bool, true, false, ◌&&◌, ◌||◌, not, Option, none, some, List, [], ◌∷◌, Bytes, Text, list_eq,
  length, leb, ltb, max, ◌==◌, if◌then◌else◌,
}
use network_self_md.Prelude.Results.{Result, ok, err, ◌>>=◌, ◌>>◌, require, or_throw}
use network_self_md.Bytes.{text_lt}
use network_self_md.Crypto.{Crypto}
use network_self_md.DoubleRatchet.{DoubleRatchetState, Error, Message, decrypt}
use network_self_md.GroupState.{zeros}

pub record InitialReceiver : Type 0 where
  pub state : Option DoubleRatchetState
  pub expires_at : ℕ

-- `bootstrapPending` is false where the code has `undefined`.
pub record DirectRatchetSession : Type 0 where
  pub active : DoubleRatchetState
  pub bootstrap_pending : Bool
  pub initial_receiver : Option InitialReceiver

pub data DirectError : Type 0 where
  ratchet : Error → DirectError
  too_many_initial : DirectError

abbrev pub is_there : {A : Type 0} → Option A → Bool
is_there none = false
is_there (some a) = true

-- The receiver is past its time, and is not the only way to read the peer.
abbrev pub is_spent : DirectRatchetSession → InitialReceiver → ℕ → Bool
is_spent s r now =
    leb r.expires_at now && not (is_there r.state && not (is_there s.active.receive_chain_key))

unfoldable pub prune_direct_ratchet_session : DirectRatchetSession → ℕ → DirectRatchetSession
prune_direct_ratchet_session s now = elim s.initial_receiver [
  | none ↦ s
  | some r ↦ if is_spent s r now then record s { initial_receiver = none } else s
]

abbrev pub expiry_of : Option InitialReceiver → ℕ
expiry_of none = 0
expiry_of (some r) = r.expires_at

abbrev pub state_of : Option InitialReceiver → Option DoubleRatchetState
state_of none = none
state_of (some r) = r.state

unfoldable pub renew_pending_bootstrap : DirectRatchetSession → ℕ → ℕ → DirectRatchetSession
unfolding prune_direct_ratchet_session
renew_pending_bootstrap s expires_at now =
    let current = prune_direct_ratchet_session s now in
    let renewed : InitialReceiver = record {
      state = state_of current.initial_receiver;
      expires_at = max (expiry_of current.initial_receiver) expires_at;
    } in
    if is_there current.active.receive_chain_key
      || (not current.bootstrap_pending && not (is_there (state_of current.initial_receiver)))
    then current
    else record current { initial_receiver = some renewed }

-- What the winner keeps of the loser's chain.
abbrev pub receive_only : DoubleRatchetState → DoubleRatchetState
receive_only s = record s {
  root_key = zeros 32;
  send_chain_key = none;
  send_ratchet_private = zeros 32;
  send_ratchet_public = zeros 32;
}

abbrev pub lift_ratchet : {A : Type 0} → Result Error A → Result DirectError A
lift_ratchet (ok a) = ok a
lift_ratchet (err e) = err (ratchet e)

-- The receiver's own ratchet key, where it has one, is the message's.
abbrev pub may_open : Option DoubleRatchetState → Bytes → Bool
may_open none key = true
may_open (some s) key = elim s.receive_ratchet_public [ none ↦ true | some own ↦ list_eq own key ]

abbrev pub state_or : Option DoubleRatchetState → DoubleRatchetState → DoubleRatchetState
state_or none created = created
state_or (some s) created = s

-- A message that the session's ratchet could not open, for the reason given.
unfoldable pub open_initial :
    Crypto
    → DirectRatchetSession
    → Message
    → Text
    → Text
    → DoubleRatchetState
    → ℕ
    → Bytes
    → Error
    → Result DirectError (Bytes × DirectRatchetSession)
unfolding decrypt
open_initial c s m own peer created now random reason = do
  candidate ← or_throw s.initial_receiver (ratchet reason)
  require (ltb now candidate.expires_at && m.previous_chain_length == 0) (ratchet reason)
  require (may_open candidate.state m.ratchet_public_key) (ratchet reason)
  (plaintext, next) ← lift_ratchet (decrypt c (state_or candidate.state created) m random)
  require (leb (length next.skipped_keys) 256) too_many_initial
  ok (
    plaintext,
    if text_lt own peer
        then record s {
          bootstrap_pending = false;
          initial_receiver = some (record candidate { state = some (receive_only next) });
        }
        else record { active = next; bootstrap_pending = false; initial_receiver = none },
  )

abbrev pub or_initial :
    DirectRatchetSession
    → Bool
    → (Error → Result DirectError (Bytes × DirectRatchetSession))
    → Result Error (Bytes × DoubleRatchetState)
    → Result DirectError (Bytes × DirectRatchetSession)
or_initial s closes other (ok (plaintext, next)) = ok (
  plaintext,
  if closes
      then record { active = next; bootstrap_pending = false; initial_receiver = none }
      else record s { active = next; bootstrap_pending = false },
)
or_initial s closes other (err e) = other e

unfoldable pub decrypt_direct_ratchet :
    Crypto
    → DirectRatchetSession
    → Message
    → Text
    → Text
    → DoubleRatchetState
    → ℕ
    → Bytes
    → Bytes
    → Result DirectError (Bytes × DirectRatchetSession)
unfolding prune_direct_ratchet_session open_initial decrypt
decrypt_direct_ratchet c saved m own peer created now random again =
    let s = prune_direct_ratchet_session saved now in
    or_initial s (text_lt peer own) (open_initial c s m own peer created now again)
      (decrypt c s.active m random)

-- What arrives: the message, the receiver that the identity would make, the time and random bytes.
pub record Arrived : Type 0 where
  pub message : Message
  pub created : DoubleRatchetState
  pub now : ℕ
  pub random : Bytes
  pub again : Bytes

abbrev pub session_after :
    DirectRatchetSession → Result DirectError (Bytes × DirectRatchetSession) → DirectRatchetSession
session_after s (ok (plaintext, next)) = next
session_after s (err e) = s

-- Messages one after another, with a session stored only where one is opened.
unfoldable pub decrypt_each :
    Crypto → Text → Text → List Arrived → DirectRatchetSession → DirectRatchetSession
unfolding decrypt_direct_ratchet
decrypt_each c own peer [] s = s
decrypt_each c own peer (a ∷ rest) s = decrypt_each c own peer rest (
    session_after s
      (decrypt_direct_ratchet c s a.message own peer a.created a.now a.random a.again))
