-- ===== src/Authentication/Examples.antt =====
-- A message that arrives twice, and one whose timestamp is exactly at the edge of the tolerance.
use network_self_md.Prelude.{
  ℕ, ◌+◌, ◌≡◌, refl, arith, true, none, some, [], ◌∷◌, Text, codes, list_eq,
}
use network_self_md.Prelude.Results.{Result, ok, err}
use network_self_md.GroupState.{zeros}
use network_self_md.GroupState.Examples.{fixed}
use network_self_md.Replay.{
  ReplayReservation, ReplayRow, ReplayError, accepted, replay_detected, limits_of, accept, run,
}
use network_self_md.Authentication.{
  PeerSession, AuthenticatedMessage, fingerprint_from_public_key, validate_authenticated_message,
}
use network_self_md.Authentication.Once.{IsAuthentic, validate-IsAuthentic, authentic_once}

abbrev peer : Text
peer = codes "yyyyyyyyyyyyyyyyyyyyyyyyyyyyyyyy"

fingerprint_test : fingerprint_from_public_key fixed (1 ∷ []) ≡ peer
unfolding fingerprint_from_public_key
fingerprint_test = refl

abbrev session : PeerSession
session = record { peer_public_key = some (1 ∷ []); peer_fingerprint = some peer; is_ready = true }

abbrev message : ℕ → AuthenticatedMessage
message time = record {
  type = 6;
  sender_fingerprint = peer;
  recipient_fingerprint = some (codes "me");
  timestamp = time;
  payload = 5 ∷ [];
  signature = zeros 64;
}

abbrev reservation : ℕ → ReplayReservation
reservation now = record {
  message_id = zeros 32;
  sender_fingerprint = peer;
  message_type = 6;
  received_at = now;
}

abbrev row : ℕ → ReplayRow
row now = record {
  message_id = zeros 32;
  sender_fingerprint = peer;
  message_type = 6;
  state = accepted;
  received_at = now;
  expires_at = now + 600000;
}

-- What the mutation of an accepted message returns.
abbrev done : ℕ → Result ReplayError ℕ
done n = ok n

valid_first :
    validate_authenticated_message fixed session (message 500) (codes "me") 1000
    ≡ ok (reservation 1000)
unfolding validate_authenticated_message list_eq fingerprint_from_public_key
valid_first = refl

valid_again :
    validate_authenticated_message fixed session (message 500) (codes "me") 2000
    ≡ ok (reservation 2000)
unfolding validate_authenticated_message list_eq fingerprint_from_public_key
valid_again = refl

accepted_first :
    accept (limits_of none none none) [] (reservation 1000) (done 1) ≡ ok (1, row 1000 ∷ [])
unfolding accept limits_of list_eq
accepted_first = refl

validate-IsAuthentic_example :
    IsAuthentic fixed session (message 500) (codes "me") 1000 (reservation 1000)
validate-IsAuthentic_example =
    validate-IsAuthentic fixed session (message 500) (codes "me") 1000 (reservation 1000)
      valid_first

authentic_once_example :
    accept
      (limits_of none none none)
      (run (limits_of none none none) (row 1000 ∷ []) [])
      (reservation 2000)
      (done 2)
    ≡ err replay_detected
authentic_once_example =
    authentic_once fixed session session (message 500) (codes "me") (codes "me") 1000 2000
      (reservation 1000) (reservation 2000) [] (row 1000 ∷ []) (done 1) 1 (done 2) [] valid_first
      accepted_first (λ h. absurd (omega arith)) tt valid_again

-- A timestamp that is exactly the tolerance ahead is still fresh at the millisecond in which the
-- row expires, and the ledger then accepts the message again.
edge_valid :
    validate_authenticated_message fixed session (message 301000) (codes "me") 601000
    ≡ ok (reservation 601000)
unfolding validate_authenticated_message list_eq fingerprint_from_public_key
edge_valid = refl

edge_accepted :
    accept (limits_of none none none) (row 1000 ∷ []) (reservation 601000) (done 2)
    ≡ ok (2, row 601000 ∷ [])
unfolding accept limits_of list_eq
edge_accepted = refl
