-- ===== src/Approval/Invariant.antt =====
-- What holds of the visitors after any calls: no more than the limit wait for the owner, none of
-- them from a blocked address, and an approved visitor has a token.
use network_self_md.Prelude.{
  ℕ, ◌≤◌, ◌≡◌, ◌≢◌, refl, Bool, true, false, none, some, inl, inr, List, [], ◌∷◌, ◌++◌, arith, Text,
  text_key, lookup, length, leb, leb→gt, if◌then◌else◌, EachValue, EachValue-insert,
  EachValue-delete, lookup-EachValue, Bool-cases, Option-cases,
}
use network_self_md.Approval.{
  approved, rejected, VisitorSession, ApprovalQueueConfig, ApprovalQueue, new, is_pending, has,
  pending_of, get_pending, is_blocked, new_session, add_visitor, approve, reject, block_session,
  block_sessions, block, touch, is_expired, cleanup, remove,
}
use network_self_md.Approval.Calls.{
  Call, adds, approves, rejects, blocks, touches, cleans, removes, or_kept, fst_of, step, run,
}
use network_self_md.Approval.Sessions.{
  pending_of-insert-le, pending_of-insert-same, pending_of-delete-le, pending_of-kept-le,
  pending_of-block_sessions-le, has-blocked, EachValue-kept,
}

-- A session that may stand in the map.
pub record IsSound (ips : List Text) (s : VisitorSession) : Type 0 where
  pub waits_unblocked : is_pending s.status ≡ true → has ips s.ip_hash ≡ false
  pub approved_token : s.status ≡ approved → s.session_token ≢ none

pub record IsOrderly (q : ApprovalQueue) : Type 0 where
  pub sound : EachValue (IsSound q.blocked_ips) q.sessions
  pub few : length (pending_of q.sessions) ≤ q.config.max_pending

block_session-IsSound :
    (ips : List Text) (ip : Text) (s : VisitorSession)
    → IsSound ips s
    → IsSound (if has ips ip then ips else ips ++ ip ∷ []) (block_session ip s)
unfolding block_session
block_session-IsSound ips ip s h = record {
  waits_unblocked = ground (arith, h.waits_unblocked, has-blocked ips ip s.ip_hash);
  approved_token = ground (arith, h.approved_token);
}

block_sessions-IsSound :
    (ips : List Text) (ip : Text) (m : List (Text × VisitorSession))
    → EachValue (IsSound ips) m
    → EachValue (IsSound (if has ips ip then ips else ips ++ ip ∷ [])) (block_sessions ip m)
block_sessions-IsSound ips ip [] h = tt
block_sessions-IsSound ips ip ((k, s) ∷ m) h =
    (block_session-IsSound ips ip s h.0, block_sessions-IsSound ips ip m h.1)

new_session-IsSound :
    (ips : List Text) (auto : Bool) (id message ip : Text) (ws now : ℕ) (token : Text)
    → has ips ip ≡ false
    → IsSound ips (new_session auto id message ip ws now token)
unfolding new_session
new_session-IsSound ips true id message ip ws now token h = record {
  waits_unblocked = λ w. absurd (cc w);
  approved_token = λ a n. absurd (cc n);
}
new_session-IsSound ips false id message ip ws now token h = record {
  waits_unblocked = λ w. h;
  approved_token = λ a n. absurd (cc a);
}

add_visitor-IsOrderly :
    (q : ApprovalQueue) (id message ip : Text) (ws now : ℕ) (token : Text)
    → IsOrderly q
    → IsOrderly (add_visitor q id message ip ws now token).0
unfolding add_visitor new_session is_blocked get_pending
add_visitor-IsOrderly q id message ip ws now token h = elim (Bool-cases (has q.blocked_ips ip)) [
  | inl out ↦ rw out h
  | inr fine ↦ elim (Bool-cases (leb q.config.max_pending (length (pending_of q.sessions)))) [
    | inl full ↦ rw (fine, full) h
    | inr room ↦
        rw (fine, room)
          (record {
            sound = EachValue-insert (IsSound q.blocked_ips) id _ q.sessions h.sound (
                new_session-IsSound q.blocked_ips q.config.auto_approve id message ip ws now token
                  fine);
            few = grind (
              arith,
              leb→gt q.config.max_pending _ room,
              pending_of-insert-le id (new_session q.config.auto_approve id message ip ws now token)
                  q.sessions,
            );
          })
  ]
]

approve-IsOrderly :
    (q : ApprovalQueue) (id token : Text)
    → IsOrderly q
    → IsOrderly (or_kept q (fst_of (approve q id token)))
unfolding approve
approve-IsOrderly q id token h = elim (Option-cases (lookup id q.sessions)) [
  | inl e ↦ rw e h
  | inr (s, e) ↦ elim (Bool-cases (is_pending s.status)) [
    | inr other ↦ rw (e, other) h
    | inl waits ↦
        rw (e, waits)
          (record {
            sound = EachValue-insert (IsSound q.blocked_ips) id _ q.sessions h.sound (record {
              waits_unblocked = λ w. absurd (cc w);
              approved_token = λ a n. absurd (cc n);
            });
            few = omega (
              arith,
              pending_of-insert-le id (record s { status = approved; session_token = some token })
                  q.sessions,
            );
          })
  ]
]

reject-IsOrderly :
    (q : ApprovalQueue) (id : Text) → IsOrderly q → IsOrderly (or_kept q (reject q id))
unfolding reject
reject-IsOrderly q id h = elim (Option-cases (lookup id q.sessions)) [
  | inl e ↦ rw e h
  | inr (s, e) ↦ rw e (record {
    sound =
        EachValue-insert (IsSound q.blocked_ips) id _ q.sessions h.sound
          (record { waits_unblocked = λ w. absurd (cc w); approved_token = λ a n. absurd (cc a) });
    few = omega (arith, pending_of-insert-le id (record s { status = rejected }) q.sessions);
  })
]

touch-IsOrderly :
    (q : ApprovalQueue) (id : Text) (now : ℕ) → IsOrderly q → IsOrderly (touch q id now)
unfolding touch
touch-IsOrderly q id now h = elim (Option-cases (lookup id q.sessions)) [
  | inl e ↦ rw e h
  | inr (s, e) ↦
      let sound = lookup-EachValue (IsSound q.blocked_ips) id s q.sessions h.sound e in
      rw e (record {
        sound = EachValue-insert (IsSound q.blocked_ips) id _ q.sessions h.sound (record {
          waits_unblocked = sound.waits_unblocked;
          approved_token = sound.approved_token;
        });
        few = omega (
          arith,
          pending_of-insert-same id (record s { last_message_at = now }) s q.sessions e refl,
        );
      })
]

-- Every call keeps the visitors in order.
pub step-IsOrderly : (q : ApprovalQueue) (c : Call) → IsOrderly q → IsOrderly (step q c)
unfolding step block cleanup remove
step-IsOrderly q (adds id message ip ws now token) h =
    add_visitor-IsOrderly q id message ip ws now token h
step-IsOrderly q (approves id token) h = approve-IsOrderly q id token h
step-IsOrderly q (rejects id) h = reject-IsOrderly q id h
step-IsOrderly q (blocks ip) h = record {
  sound = block_sessions-IsSound q.blocked_ips ip q.sessions h.sound;
  few = omega (arith, h.few, pending_of-block_sessions-le ip q.sessions);
}
step-IsOrderly q (touches id now) h = touch-IsOrderly q id now h
step-IsOrderly q (cleans now) h = record {
  sound = EachValue-kept (IsSound q.blocked_ips) (is_expired q now) q.sessions q.sessions h.sound;
  few = omega (arith, h.few, pending_of-kept-le (is_expired q now) q.sessions q.sessions);
}
step-IsOrderly q (removes id) h = record {
  sound = EachValue-delete (IsSound q.blocked_ips) id q.sessions h.sound;
  few = omega (arith, h.few, pending_of-delete-le id q.sessions);
}

run-IsOrderly : (q : ApprovalQueue) (cs : List Call) → IsOrderly q → IsOrderly (run q cs)
unfolding run
run-IsOrderly q [] h = h
run-IsOrderly q (c ∷ cs) h = run-IsOrderly (step q c) cs (step-IsOrderly q c h)

-- After any calls of a new queue, no more visitors than the limit are pending, none of them has a
-- blocked address, and each approved visitor has a session token.
pub run-new-IsOrderly :
    (config : ApprovalQueueConfig) (cs : List Call) → IsOrderly (run (new config) cs)
unfolding new
run-new-IsOrderly config cs =
    run-IsOrderly (new config) cs (record { sound = tt; few = omega arith })
