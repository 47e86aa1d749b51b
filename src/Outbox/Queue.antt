-- ===== src/Outbox/Queue.antt =====
-- The bounds of the outbox, and the rows that are due.
use mathlib.Core.List.{append_assoc, append-nil}
use network_self_md.Prelude.{
  ℕ, ◌+◌, ◌≤◌, ◌≡◌, ◌≢◌, refl, sym, subst, inl, inr, Bool, true, false, List, [], ◌∷◌, ◌++◌, arith,
  Bytes, list_eq, list_eq_iff, length, any, leb, leb→le, All, Bool-cases,
}
use network_self_md.Prelude.Results.{Result, ok, err, ◌>>=◌, ◌>>◌, require}
use network_self_md.Outbox.{
  OutboxRecord, Delivery, DeliveryError, is_at, prune, queued_rows, sum_room, insert_each, enqueue,
  first_due, by_time, heads,
}

-- What an outbox holds that was not finished: so many rows, that take so much room.
pub record IsWithin (d : Delivery) : Type 0 where
  pub rows : length (queued_rows d.outbox) ≤ 1000
  pub room : sum_room (queued_rows d.outbox) ≤ 67108864

queued_rows-append :
    (xs ys : List OutboxRecord)
    → (length (queued_rows (xs ++ ys)) ≤ length (queued_rows xs) + length ys)
      × (sum_room (queued_rows (xs ++ ys)) ≤ sum_room (queued_rows xs) + sum_room ys)
queued_rows-append [] [] = (omega arith, omega arith)
queued_rows-append [] (y ∷ ys) = ground (arith, queued_rows-append [] ys)
queued_rows-append (x ∷ xs) ys = ground (arith, queued_rows-append xs ys)

abbrev Ensures : {A : Type 0} → (A → Type 0) → Result DeliveryError A → Type 0
Ensures P (ok a) = P a
Ensures P (err e) = Unit {0}

passed :
    {A : Type 0} (b : Bool) (e : DeliveryError) (k : Result DeliveryError A) (a : A)
    → (require b e >> k) ≡ ok a
    → (b ≡ true) × (k ≡ ok a)
passed true e k a h = (refl, h)
passed false e k a h = absurd (cc h)

insert_each-append :
    (there rows : List OutboxRecord) → Ensures (λ all. all ≡ there ++ rows) (insert_each there rows)
insert_each-append there [] = sym (append-nil there)
insert_each-append there (row ∷ rows) =
    elim (Bool-cases (any (is_at row.id row.peer_public_key) there)) [
      | inl taken ↦ rw (Ensures, taken) tt
      | inr new ↦
          rw (Ensures, new)
            (subst (λ l. Ensures (λ all. all ≡ l) (insert_each (there ++ row ∷ []) rows))
              (append_assoc there (row ∷ []) rows) (insert_each-append (there ++ row ∷ []) rows))
    ]

appended :
    (pruned : Delivery) (o : Result DeliveryError (List OutboxRecord)) (rows : List OutboxRecord)
    → Ensures (λ all. all ≡ pruned.outbox ++ rows) o
    → length (queued_rows pruned.outbox) + length rows ≤ 1000
    → sum_room (queued_rows pruned.outbox) + sum_room rows ≤ 67108864
    → Ensures IsWithin (o >>= λ all. ok (record pruned { outbox = all }))
appended pruned (err e) rows h few small = tt
appended pruned (ok all) rows h few small =
    let counts = queued_rows-append pruned.outbox rows in
    record { rows = rw h (omega (arith, counts.0)); room = rw h (omega (arith, counts.1)) }

-- Where new rows are taken, at most 1000 rows are queued afterwards, and the room that they take with
-- their envelopes is at most 64 MiB.
pub enqueue-IsWithin :
    (keeps : OutboxRecord → Bool) (now : ℕ) (d d' : Delivery) (rows : List OutboxRecord)
    → enqueue keeps now d rows ≡ ok d'
    → IsWithin d'
unfolding enqueue
enqueue-IsWithin keeps now d d' rows h =
    let pruned = prune keeps now d in
    let (few, h1) = passed (leb (length (queued_rows pruned.outbox) + length rows) 1000) _ _ _ h in
    let (small, h2) =
      passed (leb (sum_room (queued_rows pruned.outbox) + sum_room rows) 67108864) _ _ _ h1 in
    subst (Ensures IsWithin) h2 (
      appended pruned (insert_each pruned.outbox rows) rows (insert_each-append pruned.outbox rows)
        (leb→le _ _ few) (leb→le _ _ small))

-- The distinct peers of rows, in order.
abbrev pub OncePerPeer : List OutboxRecord → Type 0
OncePerPeer [] = Unit {0}
OncePerPeer (row ∷ rows) =
    All (λ r. r.peer_public_key ≢ row.peer_public_key) rows × OncePerPeer rows

abbrev Unseen : List Bytes → OutboxRecord → Type 0
Unseen seen row = any (λ peer. list_eq peer row.peer_public_key) seen ≡ false

All-Unseen :
    (peer : Bytes) (seen : List Bytes) (rows : List OutboxRecord)
    → All (Unseen (peer ∷ seen)) rows
    → All (Unseen seen) rows
All-Unseen peer seen [] h = tt
All-Unseen peer seen (row ∷ rows) h = (ground (arith, h.0), All-Unseen peer seen rows h.1)

All-other :
    (peer : Bytes) (seen : List Bytes) (rows : List OutboxRecord)
    → All (Unseen (peer ∷ seen)) rows
    → All (λ r. r.peer_public_key ≢ peer) rows
All-other peer seen [] h = tt
All-other peer seen (row ∷ rows) h =
    (λ e. ground (arith, h.0, list_eq_iff peer row.peer_public_key), All-other peer seen rows h.1)

first_due-Unseen :
    (now : ℕ) (rows : List OutboxRecord) (seen : List Bytes)
    → All (Unseen seen) (first_due now seen rows)
first_due-Unseen now [] seen = tt
first_due-Unseen now (row ∷ rows) seen =
    let later =
      All-Unseen row.peer_public_key seen _
        (first_due-Unseen now rows (row.peer_public_key ∷ seen)) in
    elim (Bool-cases (any (λ peer. list_eq peer row.peer_public_key) seen)) [
      | inl old ↦ rw old (first_due-Unseen now rows seen)
      | inr new ↦ elim (Bool-cases (leb row.next_attempt_at now)) [
        | inl due ↦ rw (new, due) (new, later)
        | inr wait ↦ rw (new, wait) later
      ]
    ]

first_due-OncePerPeer :
    (now : ℕ) (rows : List OutboxRecord) (seen : List Bytes)
    → OncePerPeer (first_due now seen rows)
      × All (λ r. r.next_attempt_at ≤ now) (first_due now seen rows)
first_due-OncePerPeer now [] seen = (tt, tt)
first_due-OncePerPeer now (row ∷ rows) seen =
    let skipped = first_due-OncePerPeer now rows seen in
    let rest = first_due-OncePerPeer now rows (row.peer_public_key ∷ seen) in
    elim (Bool-cases (any (λ peer. list_eq peer row.peer_public_key) seen)) [
      | inl old ↦ rw old skipped
      | inr new ↦ elim (Bool-cases (leb row.next_attempt_at now)) [
        | inl due ↦
            rw (new, due)
              (
                (
                  All-other row.peer_public_key seen _
                      (first_due-Unseen now rows (row.peer_public_key ∷ seen)),
                  rest.0,
                ),
                (leb→le _ _ due, rest.1),
              )
        | inr wait ↦ rw (new, wait) rest
      ]
    ]

-- The rows that are to be sent now are due, and there is at most one of them for each peer.
pub heads-OncePerPeer :
    (keeps : OutboxRecord → Bool) (now : ℕ) (d : Delivery)
    → OncePerPeer (heads keeps now d).1 × All (λ r. r.next_attempt_at ≤ now) (heads keeps now d).1
unfolding heads
heads-OncePerPeer keeps now d =
    first_due-OncePerPeer now (by_time (queued_rows (prune keeps now d).outbox)) []
