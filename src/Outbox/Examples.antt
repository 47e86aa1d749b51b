-- ===== src/Outbox/Examples.antt =====
-- An outbox with rows for one peer and for another.
use network_self_md.Prelude.{
  ℕ, ◌≤◌, ◌≡◌, refl, false, none, List, [], ◌∷◌, Text, Bytes, codes, list_eq, All,
}
use network_self_md.Prelude.Results.{ok}
use network_self_md.Outbox.{OutboxRecord, Delivery, queued, enqueue, heads}
use network_self_md.Outbox.Queue.{IsWithin, enqueue-IsWithin, OncePerPeer, heads-OncePerPeer}

abbrev record_of : Text → Bytes → ℕ → OutboxRecord
record_of id peer created_at = record {
  id = id;
  peer_public_key = peer;
  group_id = none;
  content = 104 ∷ 105 ∷ [];
  content_hash = codes "hash";
  created_at = created_at;
  expires_at = 1000;
  group_epoch_version = none;
  attempts = 0;
  next_attempt_at = 0;
  packet = none;
  status = queued;
  error = none;
}

abbrev rows : List OutboxRecord
rows =
    record_of (codes "a") (1 ∷ []) 7
    ∷ record_of (codes "b") (1 ∷ []) 5
    ∷ record_of (codes "c") (2 ∷ []) 6
    ∷ []

abbrev filled : Delivery
filled = record { outbox = rows; inbox = [] }

enqueued_test : enqueue (λ row. false) 9 (record { outbox = []; inbox = [] }) rows ≡ ok filled
unfolding enqueue list_eq
enqueued_test = refl

heads_test :
    (heads (λ row. false) 9 filled).1
    ≡ record_of (codes "b") (1 ∷ []) 5 ∷ record_of (codes "c") (2 ∷ []) 6 ∷ []
unfolding heads list_eq
heads_test = refl

enqueue-IsWithin_example : IsWithin filled
enqueue-IsWithin_example =
    enqueue-IsWithin (λ row. false) 9 (record { outbox = []; inbox = [] }) filled rows enqueued_test

heads-OncePerPeer_example :
    OncePerPeer (heads (λ row. false) 9 filled).1
    × All (λ r. r.next_attempt_at ≤ 9) (heads (λ row. false) 9 filled).1
heads-OncePerPeer_example = heads-OncePerPeer (λ row. false) 9 filled
