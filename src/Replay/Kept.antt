-- ===== src/Replay/Kept.antt =====
-- An accepted message stays in the ledger until its time is over.
use network_self_md.Prelude.{
  ℕ, ◌+◌, ◌<◌, ◌≡◌, refl, ◌⊎◌, Bool, true, false, not, inl, inr, List, [], ◌∷◌, ◌++◌, arith, Bytes,
  list_eq, list_eq_self, any, ltb, lt→ltb, leb, gt→leb, map, Bool-cases,
}
use network_self_md.Prelude.Results.{Result, ok, err, ◌>>=◌, ◌>>◌, require}
use network_self_md.Replay.{
  ReplayReservation, ReplayRow, ReplayLimits, ReplayError, replay_detected, per_sender_capacity,
  global_capacity, row_conflict, prune, has, sender_count, count, reserve, mark_accepted, accept,
  rows_after, run,
}

-- The ledger has a row of this message that expires at this time.
abbrev pub Holds : List ReplayRow → Bytes → ℕ → Type 0
Holds [] id until = ⊥
Holds (row ∷ rows) id until =
    ((row.message_id ≡ id) × (row.expires_at ≡ until)) ⊎ Holds rows id until

Holds-prune :
    (rows : List ReplayRow) (id : Bytes) (until now : ℕ)
    → now < until
    → Holds rows id until
    → Holds (prune now rows) id until
unfolding prune
Holds-prune [] id until now l h = absurd h
Holds-prune (row ∷ rows) id until now l (inl (same, time)) =
    let live : leb row.expires_at now ≡ false = gt→leb row.expires_at now (omega arith) in
    rw live (inl (same, time))
Holds-prune (row ∷ rows) id until now l (inr h) =
    let rest = Holds-prune rows id until now l h in
    elim (Bool-cases (leb row.expires_at now)) [
      | inl gone ↦ rw gone rest
      | inr live ↦ rw live (inr rest)
    ]

Holds-append :
    (rows more : List ReplayRow) (id : Bytes) (until : ℕ)
    → Holds rows id until
    → Holds (rows ++ more) id until
Holds-append [] more id until h = absurd h
Holds-append (row ∷ rows) more id until (inl h) = inl h
Holds-append (row ∷ rows) more id until (inr h) = inr (Holds-append rows more id until h)

Holds-last :
    (rows : List ReplayRow) (row : ReplayRow)
    → Holds (rows ++ row ∷ []) row.message_id row.expires_at
Holds-last [] row = inl (refl, refl)
Holds-last (r ∷ rows) row = inr (Holds-last rows row)

Holds-mark :
    (rows : List ReplayRow) (other id : Bytes) (until : ℕ)
    → Holds rows id until
    → Holds (map (mark_accepted other) rows) id until
unfolding mark_accepted
Holds-mark [] other id until h = absurd h
Holds-mark (row ∷ rows) other id until (inl h) = inl (ground arith)
Holds-mark (row ∷ rows) other id until (inr h) = inr (Holds-mark rows other id until h)

Holds-has :
    (rows : List ReplayRow) (id : Bytes) (until now : ℕ)
    → now < until
    → Holds rows id until
    → has rows id now ≡ true
unfolding has
Holds-has [] id until now l h = absurd h
Holds-has (row ∷ rows) id until now l (inl (same, time)) =
    rw (same, time, list_eq_self id, lt→ltb now until l)
Holds-has (row ∷ rows) id until now l (inr h) = ground (arith, Holds-has rows id until now l h)

-- What the call that returns leaves behind.
abbrev Leaves : {A : Type 0} → List ReplayRow → Result ReplayError (A × List ReplayRow) → Type 0
Leaves after (ok p) = p.1 ≡ after
Leaves after (err e) = Unit {0}

-- Four tests, and then the mutation.
Leaves-guarded :
    {A : Type 0} (after : List ReplayRow) (first second third fourth : Bool)
    (o : Result ReplayError A)
    → Leaves after (
        require first replay_detected
        >> (require second per_sender_capacity
            >> (require third global_capacity
                >> (require fourth row_conflict >> (o >>= λ a. ok (a, after))))))
Leaves-guarded after true true true true (ok a) = refl
Leaves-guarded after true true true true (err e) = tt
Leaves-guarded after true true true false o = tt
Leaves-guarded after true true false fourth o = tt
Leaves-guarded after true false third fourth o = tt
Leaves-guarded after false second third fourth o = tt

accept-Leaves :
    {A : Type 0} (l : ReplayLimits) (rows : List ReplayRow) (r : ReplayReservation)
    (mutate : Result ReplayError A)
    → Leaves
        (map (mark_accepted r.message_id) (prune r.received_at rows ++ reserve l r ∷ []))
        (accept l rows r mutate)
unfolding accept
accept-Leaves l rows r mutate =
    let live = prune r.received_at rows in
    Leaves-guarded (map (mark_accepted r.message_id) (live ++ reserve l r ∷ []))
      (not (has live r.message_id r.received_at))
      (ltb (sender_count live r.sender_fingerprint) l.per_sender_cap)
      (ltb (count live) l.global_cap) (not (any (λ row. list_eq row.message_id r.message_id) live))
      mutate

Holds-after :
    {A : Type 0} (rows after : List ReplayRow) (id : Bytes) (until : ℕ)
    (o : Result ReplayError (A × List ReplayRow))
    → Leaves after o
    → Holds rows id until
    → Holds after id until
    → Holds (rows_after rows o) id until
Holds-after rows after id until (ok p) h old new = rw h new
Holds-after rows after id until (err e) h old new = old

Holds-accept :
    {A : Type 0} (l : ReplayLimits) (rows : List ReplayRow) (r : ReplayReservation)
    (mutate : Result ReplayError A) (id : Bytes) (until : ℕ)
    → r.received_at < until
    → Holds rows id until
    → Holds (rows_after rows (accept l rows r mutate)) id until
Holds-accept l rows r mutate id until early h =
    Holds-after rows _ id until (accept l rows r mutate) (accept-Leaves l rows r mutate) h (
      Holds-mark _ r.message_id id until (
        Holds-append _ (reserve l r ∷ []) id until
          (Holds-prune rows id until r.received_at early h)))

abbrev pub CallsBefore : ℕ → List (ReplayReservation × Result ReplayError (Unit {0})) → Type 0
CallsBefore until [] = Unit {0}
CallsBefore until ((r, mutate) ∷ calls) = (r.received_at < until) × CallsBefore until calls

Holds-run :
    (l : ReplayLimits) (rows : List ReplayRow)
    (calls : List (ReplayReservation × Result ReplayError (Unit {0}))) (id : Bytes) (until : ℕ)
    → CallsBefore until calls
    → Holds rows id until
    → Holds (run l rows calls) id until
unfolding run
Holds-run l rows [] id until b h = h
Holds-run l rows ((r, mutate) ∷ calls) id until b h =
    Holds-run l (rows_after rows (accept l rows r mutate)) calls id until b.1
      (Holds-accept l rows r mutate id until b.0 h)

accepted-Holds :
    {A : Type 0} (l : ReplayLimits) (rows after : List ReplayRow) (r : ReplayReservation)
    (mutate : Result ReplayError A) (a : A)
    → accept l rows r mutate ≡ ok (a, after)
    → Holds after r.message_id (r.received_at + l.ttl_ms)
unfolding reserve
accepted-Holds l rows after r mutate a h =
    let left = accept-Leaves l rows r mutate in
    rw (rw h at left) (
      Holds-mark _ r.message_id r.message_id _
        (Holds-last (prune r.received_at rows) (reserve l r)))

detected :
    {A : Type 0} (l : ReplayLimits) (rows : List ReplayRow) (r : ReplayReservation)
    (mutate : Result ReplayError A) (until : ℕ)
    → r.received_at < until
    → Holds rows r.message_id until
    → accept l rows r mutate ≡ err replay_detected
unfolding accept
detected l rows r mutate until early h = rw (
    Holds-has (prune r.received_at rows) r.message_id until r.received_at early
      (Holds-prune rows r.message_id until r.received_at early h))

-- Once a message was accepted, each later message of the same id is refused as a replay, whoever
-- sends it and whatever it would change, while its time to live lasts; other calls in between, that
-- come within this time, make no difference.
pub accept_replayed :
    {A B : Type 0} (l : ReplayLimits) (rows after : List ReplayRow) (r again : ReplayReservation)
    (mutate : Result ReplayError A) (a : A) (mutate' : Result ReplayError B)
    (calls : List (ReplayReservation × Result ReplayError (Unit {0})))
    → accept l rows r mutate ≡ ok (a, after)
    → CallsBefore (r.received_at + l.ttl_ms) calls
    → again.message_id ≡ r.message_id
    → again.received_at < r.received_at + l.ttl_ms
    → accept l (run l after calls) again mutate' ≡ err replay_detected
accept_replayed l rows after r again mutate a mutate' calls h before same early =
    detected l (run l after calls) again mutate' (r.received_at + l.ttl_ms) early (
      rw same (
        Holds-run l after calls r.message_id (r.received_at + l.ttl_ms) before
          (accepted-Holds l rows after r mutate a h)))
