-- ===== src/Authentication/Once.antt =====
-- No authentic message is accepted twice.
use network_self_md.Prelude.{
  ℕ, ◌+◌, ◌≤◌, ◌<◌, ◌≡◌, ◌≢◌, refl, sym, ap, ◌∙◌, Bool, true, false, none, some, inl, inr, List, [],
  ◌∷◌, arith, Bytes, Text, leb, leb→le, list_eq, list_eq→eq, Option-cases, Bool-cases,
}
use network_self_md.Prelude.Results.{Result, ok, err, ◌>>◌, require}
use network_self_md.GroupState.{Primitives}
use network_self_md.Replay.{
  ReplayReservation, ReplayRow, ReplayError, replay_detected, limits_of, accept, run,
}
use network_self_md.Replay.Kept.{CallsBefore, accept_replayed}
use network_self_md.Authentication.{
  PeerSession, AuthenticatedMessage, SecurityError, fingerprint_from_public_key, ready_names,
  validate_ready_session, distance, validate_fresh_timestamp, verify_authenticated_message,
  authenticated_message_id, is_recipient, validate_authenticated_message,
}

-- A message from this peer, named by the fingerprint of the key that signed it, for this agent, with
-- a fresh timestamp.
pub record IsAuthentic (p : Primitives) (s : PeerSession) (m : AuthenticatedMessage) (me : Text)
    (now : ℕ) (r : ReplayReservation) : Type 0 where
  pub peer :
      (key : Bytes) × ((ready_names s ≡ some (key, fingerprint_from_public_key p key))
        × ((p.verify m.signature m.payload key ≡ true)
            × ((m.sender_fingerprint ≡ fingerprint_from_public_key p key)
                × (r.sender_fingerprint ≡ fingerprint_from_public_key p key))))
  pub recipient : is_recipient m.recipient_fingerprint me ≡ true
  pub fresh : (now ≤ m.timestamp + 300000) × (m.timestamp ≤ now + 300000)
  pub reserved : (r.message_id ≡ authenticated_message_id p m) × (r.received_at ≡ now)

passed :
    {A : Type 0} (b : Bool) (e : SecurityError) (k : Result SecurityError A) (a : A)
    → (require b e >> k) ≡ ok a
    → (b ≡ true) × (k ≡ ok a)
passed true e k a h = (refl, h)
passed false e k a h = absurd (cc h)

ok-injective : {A : Type 0} (a b : A) (o : Result SecurityError A) → o ≡ ok a → o ≡ ok b → a ≡ b
ok-injective a b o h k = cc (h, k)

-- A message that passes the checks has a fresh timestamp and is for this agent. The peer of the
-- session has a key that signed it, and the message names the fingerprint of that key as its sender,
-- as the session and the reservation do. The reservation has the message's id and the time of now.
pub validate-IsAuthentic :
    (p : Primitives) (s : PeerSession) (m : AuthenticatedMessage) (me : Text) (now : ℕ)
    (r : ReplayReservation)
    → validate_authenticated_message p s m me now ≡ ok r
    → IsAuthentic p s m me now r
unfolding validate_authenticated_message validate_ready_session validate_fresh_timestamp
    verify_authenticated_message
validate-IsAuthentic p s m me now r h = elim (Option-cases (ready_names s)) [
  | inl e ↦ absurd (cc (rw e at h))
  | inr ((key, name), e) ↦ elim (Bool-cases (list_eq name (fingerprint_from_public_key p key))) [
    | inr other ↦ absurd (cc (rw (e, other) at h))
    | inl same ↦
        let h1 = rw (e, same) at h in
        let (fresh, h2) = passed (leb (distance now m.timestamp) 300000) _ _ _ h1 in
        let (sender, h3) = passed (list_eq m.sender_fingerprint name) _ _ _ h2 in
        let (recipient, h4) = passed (is_recipient m.recipient_fingerprint me) _ _ _ h3 in
        let (signed, h5) = passed (p.verify m.signature m.payload key) _ _ _ h4 in
        let made = sym (ok-injective _ _ _ refl h5) in
        let close = leb→le _ _ fresh in
        let named = list_eq→eq _ _ same in
        record {
          peer = (
            key,
            (
              e ∙ ap (λ n. some (key, n)) named,
              (
                signed,
                (
                  list_eq→eq _ _ sender ∙ named,
                  ap ReplayReservation.sender_fingerprint made ∙ named,
                ),
              ),
            ),
          );
          recipient = recipient;
          fresh = (omega arith, omega arith);
          reserved = (ap ReplayReservation.message_id made, ap ReplayReservation.received_at made);
        }
  ]
]

CallsBefore-le :
    (u v : ℕ) (calls : List (ReplayReservation × Result ReplayError (Unit {0})))
    → u ≤ v
    → CallsBefore u calls
    → CallsBefore v calls
CallsBefore-le u v [] l b = tt
CallsBefore-le u v ((r, mutate) ∷ calls) l b = (omega (arith, b.0), CallsBefore-le u v calls l b.1)

-- Once a message was authentic and accepted, it is refused as a replay whenever it is authentic
-- again at a later time, over whatever session and after whatever calls that came by then, unless
-- its timestamp was exactly the tolerance ahead of the clock when it was accepted.
pub authentic_once :
    {A B : Type 0} (p : Primitives) (s s' : PeerSession) (m : AuthenticatedMessage) (me me' : Text)
    (now later : ℕ) (r r' : ReplayReservation) (rows after : List ReplayRow)
    (mutate : Result ReplayError A) (a : A) (mutate' : Result ReplayError B)
    (calls : List (ReplayReservation × Result ReplayError (Unit {0})))
    → validate_authenticated_message p s m me now ≡ ok r
    → accept (limits_of none none none) rows r mutate ≡ ok (a, after)
    → m.timestamp ≢ now + 300000
    → CallsBefore (later + 1) calls
    → validate_authenticated_message p s' m me' later ≡ ok r'
    → accept (limits_of none none none) (run (limits_of none none none) after calls) r' mutate'
      ≡ err replay_detected
unfolding limits_of
authentic_once p s s' m me me' now later r r' rows after mutate a mutate' calls h took edge before
      h' =
    let first = validate-IsAuthentic p s m me now r h in
    let second = validate-IsAuthentic p s' m me' later r' h' in
    let (id, at) = first.reserved in
    let (id', at') = second.reserved in
    let soon : later < now + 600000 = omega (arith, first.fresh.1, second.fresh.0, edge) in
    accept_replayed (limits_of none none none) rows after r r' mutate a mutate' calls took
      (CallsBefore-le (later + 1) _ calls (omega (arith, at)) before) (id' ∙ sym id)
      (omega (arith, at, at'))
