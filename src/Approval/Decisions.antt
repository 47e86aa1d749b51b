-- ===== src/Approval/Decisions.antt =====
-- Who decides about a visitor: nobody is approved but by the owner, or by the queue's configuration.
use network_self_md.Prelude.{
  ◌≡◌, refl, sym, ap, ◌∙◌, Bool, true, some, ◌⊎◌, inl, inr, List, [], ◌∷◌, arith, Text, text_key,
  lookup, delete, lookup-insert, lookup-delete, list_eq_iff, list_eq_self, lookup-EachValue,
  Bool-cases, Option-cases,
}
use network_self_md.Prelude.Results.{err}
use network_self_md.Approval.{
  approved, rejected, cannot_approve, VisitorSession, ApprovalQueueConfig, ApprovalQueue, new,
  is_pending, is_blocked, is_approved, approved_session, new_session, add_visitor, approve, reject,
  block_session, block_sessions, block, touch, is_expired, kept, cleanup, remove,
}
use network_self_md.Approval.Calls.{
  Call, adds, approves, rejects, blocks, touches, cleans, removes, step, run,
}
use network_self_md.Approval.Sessions.{has-append}
use network_self_md.Approval.Invariant.{IsSound, IsOrderly, run-new-IsOrderly}

-- The call can approve this visitor.
abbrev pub MayApprove : ApprovalQueue → Text → Call → Type 0
MayApprove q id (approves id' token) = id' ≡ id
MayApprove q id (adds id' message ip ws now token) = (id' ≡ id) × (q.config.auto_approve ≡ true)
MayApprove q id _ = ⊥

module _ (id : Text) where
  approved_kept :
      (gone : VisitorSession → Bool) (entries m : List (Text × VisitorSession))
      → approved_session (lookup id (kept gone entries m)) ≡ true
      → approved_session (lookup id m) ≡ true
  unfolding kept
  approved_kept gone [] m h = h
  approved_kept gone ((k, s) ∷ entries) m h = elim (Bool-cases (gone s)) [
    | inl out ↦
        let rest = approved_kept gone entries (delete k m) (rw out at h) in
        ground (arith, lookup-delete k id m)
    | inr stays ↦ approved_kept gone entries m (rw stays at h)
  ]

  approved_block_sessions :
      (ip : Text) (m : List (Text × VisitorSession))
      → approved_session (lookup id (block_sessions ip m)) ≡ approved_session (lookup id m)
  unfolding block_session
  approved_block_sessions ip [] = refl
  approved_block_sessions ip ((k, s) ∷ m) = ground (arith, approved_block_sessions ip m)

-- A call after which a visitor is approved found the visitor approved already, or is the owner's
-- approval of that visitor, or registers that visitor where the configuration approves everyone.
pub step-approves :
    (q : ApprovalQueue) (id : Text) (c : Call)
    → is_approved (step q c) id ≡ true
    → (is_approved q id ≡ true) ⊎ MayApprove q id c
unfolding step is_approved add_visitor new_session approve reject block cleanup touch remove
step-approves q id (adds other message ip ws now token) h = ground (
  arith,
  list_eq_iff other id,
  lookup-insert other id (new_session q.config.auto_approve other message ip ws now token)
      q.sessions,
)
step-approves q id (approves other token) h = elim (Option-cases (lookup other q.sessions)) [
  | inl e ↦ inl (rw e at h)
  | inr (s, e) ↦ ground (
    arith,
    e,
    list_eq_iff other id,
    lookup-insert other id (record s { status = approved; session_token = some token }) q.sessions,
  )
]
step-approves q id (rejects other) h = elim (Option-cases (lookup other q.sessions)) [
  | inl e ↦ inl (rw e at h)
  | inr (s, e) ↦
      ground (arith, e, lookup-insert other id (record s { status = rejected }) q.sessions)
]
step-approves q id (blocks ip) h = inl (sym (approved_block_sessions id ip q.sessions) ∙ h)
step-approves q id (touches other now) h = elim (Option-cases (lookup other q.sessions)) [
  | inl e ↦ inl (rw e at h)
  | inr (s, e) ↦ ground (
    arith,
    e,
    list_eq_iff other id,
    ap (λ k. lookup k q.sessions) {x = other} {y = id},
    lookup-insert other id (record s { last_message_at = now }) q.sessions,
  )
]
step-approves q id (cleans now) h =
    inl (approved_kept id (is_expired q now) q.sessions q.sessions h)
step-approves q id (removes other) h = ground (arith, lookup-delete other id q.sessions)

approve-IsOrderly-blocked :
    (q : ApprovalQueue) (id token : Text) (s : VisitorSession)
    → IsOrderly q
    → lookup id q.sessions ≡ some s
    → is_blocked q s.ip_hash ≡ true
    → approve q id token ≡ err (cannot_approve s.status)
unfolding approve is_blocked
approve-IsOrderly-blocked q id token s h e b =
    let sound = lookup-EachValue (IsSound q.blocked_ips) id s q.sessions h.sound e in
    elim (Bool-cases (is_pending s.status)) [
      | inl waits ↦ absurd (cc (sound.waits_unblocked waits, b))
      | inr decided ↦ rw (e, decided)
    ]

-- After any calls of a new queue, approving a session whose address is blocked throws, with the
-- status that the session has.
pub approve_blocked :
    (config : ApprovalQueueConfig) (cs : List Call) (id token : Text) (s : VisitorSession)
    → lookup id (run (new config) cs).sessions ≡ some s
    → is_blocked (run (new config) cs) s.ip_hash ≡ true
    → approve (run (new config) cs) id token ≡ err (cannot_approve s.status)
approve_blocked config cs id token s =
    approve-IsOrderly-blocked (run (new config) cs) id token s (run-new-IsOrderly config cs)

-- Blocking an address blocks it, and leaves every approved visitor approved.
pub block-is_approved :
    (q : ApprovalQueue) (ip id : Text)
    → (is_blocked (block q ip) ip ≡ true) × (is_approved (block q ip) id ≡ is_approved q id)
unfolding block is_blocked is_approved
block-is_approved q ip id = (
  ground (arith, has-append q.blocked_ips ip ip, list_eq_self ip),
  approved_block_sessions id ip q.sessions,
)
