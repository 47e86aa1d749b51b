-- ===== src/Outbox.antt =====
-- `DeliveryRepository` of packages/node/src/storage/delivery.ts: the rows of the outbox and of the
-- inbox ledger, in the order in which they were inserted. The clock is an argument of a call. Which
-- finished rows the database keeps is an argument too: it sorts them by a time that may be the same.
pub mod Queue
mod Examples
use network_self_md.Prelude.{
  ℕ, zero, suc, ◌+◌, ◌*◌, ◌^◌, min, Bool, true, false, ◌&&◌, ◌||◌, not, Option, none, some, List,
  [], ◌∷◌, ◌++◌, Bytes, Text, codes, list_eq, length, take, filter, any, ltb, leb, map,
  if◌then◌else◌,
}
use network_self_md.Prelude.Results.{Result, ok, err, ◌>>=◌, ◌>>◌, require}

pub data DeliveryStatus : Type 0 where
  queued delivered failed : DeliveryStatus

pub record OutboxRecord : Type 0 where
  pub id : Text
  pub peer_public_key : Bytes
  pub group_id : Option Bytes
  -- The content, as its UTF-8 bytes.
  pub content : Bytes
  pub content_hash : Text
  pub created_at : ℕ
  pub expires_at : ℕ
  pub group_epoch_version : Option ℕ
  pub attempts : ℕ
  pub next_attempt_at : ℕ
  pub packet : Option Bytes
  pub status : DeliveryStatus
  pub error : Option Text

pub record InboxRow : Type 0 where
  pub sender_fingerprint : Text
  pub id : Text
  pub content_hash : Text
  pub expires_at : ℕ

pub record Delivery : Type 0 where
  pub outbox : List OutboxRecord
  pub inbox : List InboxRow

pub data DeliveryError : Type 0 where
  outbox_full id_reused ledger_full row_conflict : DeliveryError

abbrev pub max_outbox_rows : ℕ
max_outbox_rows = 1000

abbrev pub max_outbox_bytes : ℕ
max_outbox_bytes = 67108864

abbrev pub max_inbox_rows : ℕ
max_inbox_rows = 100000

abbrev pub is_queued : DeliveryStatus → Bool
is_queued queued = true
is_queued _ = false

abbrev pub is_at : Text → Bytes → OutboxRecord → Bool
is_at id peer row = list_eq row.id id && list_eq row.peer_public_key peer

-- An `UPDATE` of the rows that meet a condition.
abbrev pub update :
    (OutboxRecord → Bool) → (OutboxRecord → OutboxRecord) → List OutboxRecord → List OutboxRecord
update test change [] = []
update test change (row ∷ rows) =
    let rest = update test change rows in if test row then change row ∷ rest else row ∷ rest

abbrev pub expire : OutboxRecord → OutboxRecord
expire row = record row {
  status = failed;
  error = some (codes "Delivery expired or retry limit reached");
  packet = none;
  content = [];
}

unfoldable pub prune : (OutboxRecord → Bool) → ℕ → Delivery → Delivery
prune keeps now d =
    let expired =
      update (λ row. is_queued row.status && (leb row.expires_at now || leb 1000 row.attempts))
        expire d.outbox in
    record {
      outbox = filter (λ row. is_queued row.status || keeps row) expired;
      inbox = filter (λ row. not (ltb row.expires_at now)) d.inbox;
    }

-- The room that a row takes, its envelope included.
abbrev pub room_of : OutboxRecord → ℕ
room_of row = length row.content * 2 + 4096

abbrev pub sum_room : List OutboxRecord → ℕ
sum_room [] = 0
sum_room (row ∷ rows) = room_of row + sum_room rows

abbrev pub queued_rows : List OutboxRecord → List OutboxRecord
queued_rows rows = filter (λ row. is_queued row.status) rows

-- A second row of one key, among the rows there and the ones before it, is the table's refusal.
abbrev pub insert_each :
    List OutboxRecord → List OutboxRecord → Result DeliveryError (List OutboxRecord)
insert_each there [] = ok there
insert_each there (row ∷ rows) =
    let rest = insert_each (there ++ row ∷ []) rows in
    if any (is_at row.id row.peer_public_key) there then err row_conflict else rest

-- `enqueue`; the rows given are queued and have no attempts, as the table's defaults are. It runs in
-- the caller's transaction, which takes the rows inserted before a refusal back.
unfoldable pub enqueue :
    (OutboxRecord → Bool) → ℕ → Delivery → List OutboxRecord → Result DeliveryError Delivery
unfolding prune
enqueue keeps now d rows = do
  let pruned = prune keeps now d
  let current = queued_rows pruned.outbox
  require (leb (length current + length rows) max_outbox_rows) outbox_full
  require (leb (sum_room current + sum_room rows) max_outbox_bytes) outbox_full
  outbox ← insert_each pruned.outbox rows
  ok (record pruned { outbox = outbox })

-- `ORDER BY created_at, rowid`: a stable insertion.
abbrev pub insert_row : OutboxRecord → List OutboxRecord → List OutboxRecord
insert_row row [] = row ∷ []
insert_row row (r ∷ rows) =
    let rest = insert_row row rows in
    if leb row.created_at r.created_at then row ∷ r ∷ rows else r ∷ rest

abbrev pub by_time : List OutboxRecord → List OutboxRecord
by_time [] = []
by_time (row ∷ rows) = insert_row row (by_time rows)

-- The filter of `heads`, with the peers seen before.
abbrev pub first_due : ℕ → List Bytes → List OutboxRecord → List OutboxRecord
first_due now seen [] = []
first_due now seen (row ∷ rows) =
    let skipped = first_due now seen rows in
    let rest = first_due now (row.peer_public_key ∷ seen) rows in
    if any (λ peer. list_eq peer row.peer_public_key) seen
    then skipped
    else if leb row.next_attempt_at now
    then row ∷ rest
    else rest

unfoldable pub heads : (OutboxRecord → Bool) → ℕ → Delivery → Delivery × List OutboxRecord
unfolding prune
heads keeps now d =
    let pruned = prune keeps now d in
    (pruned, first_due now [] (by_time (queued_rows pruned.outbox)))

-- The delay before the next attempt.
unfoldable pub delay_of : ℕ → ℕ
delay_of attempts = min 60000 (2000 * 2 ^ min attempts 5)

unfoldable pub attempt : Delivery → OutboxRecord → Bytes → ℕ → Delivery
unfolding delay_of
attempt d row packet now = record d {
  outbox =
      update (λ r. is_at row.id row.peer_public_key r && is_queued r.status)
        (λ r. record r {
          packet = some packet;
          attempts = r.attempts + 1;
          next_attempt_at = now + delay_of row.attempts;
          error = none;
        })
        d.outbox;
}

unfoldable pub reconnect : Delivery → Bytes → Delivery
reconnect d peer = record d {
  outbox =
      update (λ r. list_eq r.peer_public_key peer && is_queued r.status)
        (λ r. record r { next_attempt_at = 0 }) d.outbox;
}

unfoldable pub fail : Delivery → OutboxRecord → Text → Delivery
fail d row error = record d {
  outbox =
      update (is_at row.id row.peer_public_key)
        (λ r. record r { status = failed; error = some error; packet = none; content = [] })
        d.outbox;
}

unfoldable pub defer : Delivery → OutboxRecord → Text → ℕ → Delivery
defer d row error now = record d {
  outbox =
      update (λ r. is_at row.id row.peer_public_key r && is_queued r.status)
        (λ r. record r { next_attempt_at = now + 5000; error = some (take 256 error) }) d.outbox;
}

abbrev pub is_receivable : Text → Bytes → OutboxRecord → Bool
is_receivable id peer r = is_at id peer r && (is_queued r.status && ltb 0 r.attempts)

-- `delivered`: whether one row was changed. The id and the peer are the table's key.
unfoldable pub delivered_to : Delivery → Text → Bytes → Delivery × Bool
delivered_to d id peer = (
  record d {
    outbox =
        update (is_receivable id peer)
          (λ r. record r { status = delivered; packet = none; error = none; content = [] })
          d.outbox;
  },
  any (is_receivable id peer) d.outbox,
)

abbrev pub find_inbox : List InboxRow → Text → Text → Option InboxRow
find_inbox [] sender id = none
find_inbox (row ∷ rows) sender id =
    let rest = find_inbox rows sender id in
    if list_eq row.sender_fingerprint sender && list_eq row.id id then some row else rest

abbrev pub same_content : Option InboxRow → Text → Result DeliveryError Bool
same_content none hash = ok false
same_content (some row) hash = if list_eq row.content_hash hash then ok true else err id_reused

unfoldable pub received : Delivery → Text → Text → Text → Result DeliveryError Bool
received d sender id hash = same_content (find_inbox d.inbox sender id) hash

unfoldable pub accept : Delivery → Text → Text → Text → ℕ → ℕ → Result DeliveryError Delivery
accept d sender id hash expires_at now = do
  let live = filter (λ row. not (ltb row.expires_at now)) d.inbox
  require (ltb (length live) max_inbox_rows) ledger_full
  require (not (any (λ row. list_eq row.sender_fingerprint sender && list_eq row.id id) live))
      row_conflict
  ok (record d {
    inbox =
        live
        ++ record {
          sender_fingerprint = sender;
          id = id;
          content_hash = hash;
          expires_at = expires_at;
        }
          ∷ [];
  })
