-- ===== src/Replay.antt =====
-- `ProtocolReplayRepository` of packages/node/src/storage/repositories.ts: the ledger of messages
-- that were accepted, as the rows of its table. A transaction that throws leaves the rows as they
-- were.
pub mod Kept
use network_self_md.Prelude.{
  ℕ, ◌+◌, ◌-◌, Bool, true, false, ◌&&◌, not, Option, none, some, List, [], ◌∷◌, ◌++◌, Bytes, Text,
  list_eq, length, filter, any, ltb, leb, if◌then◌else◌, map,
}
use network_self_md.Prelude.Results.{Result, ok, err, ◌>>=◌, ◌>>◌, require}

pub record ReplayReservation : Type 0 where
  pub message_id : Bytes
  pub sender_fingerprint : Text
  pub message_type : ℕ
  pub received_at : ℕ

pub data RowState : Type 0 where
  reserved accepted : RowState

pub record ReplayRow : Type 0 where
  pub message_id : Bytes
  pub sender_fingerprint : Text
  pub message_type : ℕ
  pub state : RowState
  pub received_at : ℕ
  pub expires_at : ℕ

-- The options with their defaults in place.
pub record ReplayLimits : Type 0 where
  pub ttl_ms : ℕ
  pub per_sender_cap : ℕ
  pub global_cap : ℕ

abbrev pub get_or : Option ℕ → ℕ → ℕ
get_or none n = n
get_or (some k) n = k

unfoldable pub limits_of : Option ℕ → Option ℕ → Option ℕ → ReplayLimits
limits_of ttl sender global = record {
  ttl_ms = get_or ttl 600000;
  per_sender_cap = get_or sender 2048;
  global_cap = get_or global 100000;
}

-- `row_conflict` is the table's refusal of a second row of one message id; `failed` is what the
-- caller's mutation threw.
pub data ReplayError : Type 0 where
  replay_detected per_sender_capacity global_capacity row_conflict failed : ReplayError

-- The rows that `prune` leaves.
unfoldable pub prune : ℕ → List ReplayRow → List ReplayRow
prune now rows = filter (λ row. not (leb row.expires_at now)) rows

unfoldable pub has : List ReplayRow → Bytes → ℕ → Bool
has rows id now = any (λ row. list_eq row.message_id id && ltb now row.expires_at) rows

unfoldable pub sender_count : List ReplayRow → Text → ℕ
sender_count rows sender = length (filter (λ row. list_eq row.sender_fingerprint sender) rows)

unfoldable pub count : List ReplayRow → ℕ
count rows = length rows

pub reserve : ReplayLimits → ReplayReservation → ReplayRow
reserve l r = record {
  message_id = r.message_id;
  sender_fingerprint = r.sender_fingerprint;
  message_type = r.message_type;
  state = reserved;
  received_at = r.received_at;
  expires_at = r.received_at + l.ttl_ms;
}

pub mark_accepted : Bytes → ReplayRow → ReplayRow
mark_accepted id row = if list_eq row.message_id id then record row { state = accepted } else row

-- `accept`, with the result of the caller's mutation, which is run inside the transaction.
unfoldable pub accept :
    {A : Type 0}
    → ReplayLimits
    → List ReplayRow
    → ReplayReservation
    → Result ReplayError A
    → Result ReplayError (A × List ReplayRow)
unfolding prune has sender_count count reserve mark_accepted
accept l rows r mutate = do
  let live = prune r.received_at rows
  require (not (has live r.message_id r.received_at)) replay_detected
  require (ltb (sender_count live r.sender_fingerprint) l.per_sender_cap) per_sender_capacity
  require (ltb (count live) l.global_cap) global_capacity
  require (not (any (λ row. list_eq row.message_id r.message_id) live)) row_conflict
  result ← mutate
  ok (result, map (mark_accepted r.message_id) (live ++ reserve l r ∷ []))

-- The rows after a call, whether it throws or not.
abbrev pub rows_after :
    {A : Type 0} → List ReplayRow → Result ReplayError (A × List ReplayRow) → List ReplayRow
rows_after rows (ok p) = p.1
rows_after rows (err e) = rows

-- Calls of `accept` one after another, each with the outcome of its mutation.
unfoldable pub run :
    ReplayLimits
    → List ReplayRow
    → List (ReplayReservation × Result ReplayError (Unit {0}))
    → List ReplayRow
run l rows [] = rows
run l rows ((r, mutate) ∷ calls) = run l (rows_after rows (accept l rows r mutate)) calls
