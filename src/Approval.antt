-- ===== src/Approval.antt =====
-- `ApprovalQueue` of packages/web/src/approval.ts: the visitors of a TTYA page, from their first
-- message to the owner's decision. A session is changed in place in the map; a websocket is known by
-- a number, and `closed` lists the ones that `cleanup` closed.
pub mod Calls
pub mod Sessions
pub mod Invariant
pub mod Decisions
mod Examples
use network_self_md.Prelude.{
  ℕ, ◌-◌, Bool, true, false, ◌&&◌, Option, none, some, List, [], ◌∷◌, ◌++◌, Text, text_key, lookup,
  insert, delete, list_eq, length, any, filter, leb, ltb, map, if◌then◌else◌,
}
use network_self_md.Prelude.Results.{Result, ok, err, ◌>>=◌, ◌>>◌, require, or_throw}

pub data Status : Type 0 where
  pending approved rejected blocked : Status

pub record VisitorSession : Type 0 where
  pub visitor_id : Text
  pub status : Status
  pub first_message : Text
  pub ip_hash : Text
  pub timestamp : ℕ
  pub session_token : Option Text
  pub websocket : ℕ
  pub last_message_at : ℕ

pub record ApprovalQueueConfig : Type 0 where
  pub max_pending : ℕ
  pub auto_approve : Bool
  pub session_timeout : ℕ

pub record ApprovalQueue : Type 0 where
  pub sessions : List (Text × VisitorSession)
  pub blocked_ips : List Text
  pub config : ApprovalQueueConfig
  pub closed : List ℕ

pub data Error : Type 0 where
  unknown_visitor : Error
  cannot_approve : Status → Error

unfoldable pub new : ApprovalQueueConfig → ApprovalQueue
new config = record { sessions = []; blocked_ips = []; config = config; closed = [] }

abbrev pub is_pending : Status → Bool
is_pending pending = true
is_pending _ = false

abbrev pub has : List Text → Text → Bool
has ids id = any (λ k. list_eq k id) ids

abbrev pub pending_of : List (Text × VisitorSession) → List VisitorSession
pending_of [] = []
pending_of ((k, s) ∷ m) = let rest = pending_of m in if is_pending s.status then s ∷ rest else rest

unfoldable pub get_pending : ApprovalQueue → List VisitorSession
get_pending q = pending_of q.sessions

unfoldable pub is_blocked : ApprovalQueue → Text → Bool
is_blocked q ip = has q.blocked_ips ip

unfoldable pub get_session : ApprovalQueue → Text → Option VisitorSession
get_session q id = lookup id q.sessions

abbrev pub is_approved_status : Status → Bool
is_approved_status approved = true
is_approved_status _ = false

abbrev pub approved_session : Option VisitorSession → Bool
approved_session none = false
approved_session (some s) = is_approved_status s.status

unfoldable pub is_approved : ApprovalQueue → Text → Bool
is_approved q id = approved_session (lookup id q.sessions)

-- The session that `addVisitor` makes, with the clock and the token that it would draw.
pub new_session : Bool → Text → Text → Text → ℕ → ℕ → Text → VisitorSession
new_session auto id message ip ws now token = record {
  visitor_id = id;
  status = if auto then approved else pending;
  first_message = message;
  ip_hash = ip;
  timestamp = now;
  session_token = if auto then some token else none;
  websocket = ws;
  last_message_at = now;
}

unfoldable pub add_visitor :
    ApprovalQueue → Text → Text → Text → ℕ → ℕ → Text → ApprovalQueue × Option VisitorSession
unfolding is_blocked get_pending new_session
add_visitor q id message ip ws now token =
    let session = new_session q.config.auto_approve id message ip ws now token in
    if is_blocked q ip
    then (q, none)
    else if leb q.config.max_pending (length (get_pending q))
    then (q, none)
    else (record q { sessions = insert id session q.sessions }, some session)

-- `approve`, with the token that it would draw.
unfoldable pub approve : ApprovalQueue → Text → Text → Result Error (ApprovalQueue × Text)
approve q id token = do
  session ← or_throw (lookup id q.sessions) unknown_visitor
  require (is_pending session.status) (cannot_approve session.status)
  let changed = record session { status = approved; session_token = some token }
  ok (record q { sessions = insert id changed q.sessions }, token)

unfoldable pub reject : ApprovalQueue → Text → Result Error ApprovalQueue
reject q id = do
  session ← or_throw (lookup id q.sessions) unknown_visitor
  ok (record q { sessions = insert id (record session { status = rejected }) q.sessions })

pub block_session : Text → VisitorSession → VisitorSession
block_session ip s =
    if list_eq s.ip_hash ip && is_pending s.status then record s { status = blocked } else s

abbrev pub block_sessions : Text → List (Text × VisitorSession) → List (Text × VisitorSession)
block_sessions ip [] = []
block_sessions ip ((k, s) ∷ m) = (k, block_session ip s) ∷ block_sessions ip m

unfoldable pub block : ApprovalQueue → Text → ApprovalQueue
unfolding block_session
block q ip = record q {
  blocked_ips = if has q.blocked_ips ip then q.blocked_ips else q.blocked_ips ++ ip ∷ [];
  sessions = block_sessions ip q.sessions;
}

abbrev pub touch_session :
    Text → ℕ → Option VisitorSession → List (Text × VisitorSession) → List (Text × VisitorSession)
touch_session id now none m = m
touch_session id now (some s) m = insert id (record s { last_message_at = now }) m

unfoldable pub touch : ApprovalQueue → Text → ℕ → ApprovalQueue
touch q id now = record q { sessions = touch_session id now (lookup id q.sessions) q.sessions }

abbrev pub is_expired : ApprovalQueue → ℕ → VisitorSession → Bool
is_expired q now s = ltb q.config.session_timeout (now - s.last_message_at)

-- The loop of `cleanup` over the entries.
pub kept :
    (VisitorSession → Bool)
    → List (Text × VisitorSession)
    → List (Text × VisitorSession)
    → List (Text × VisitorSession)
kept gone [] m = m
kept gone ((k, s) ∷ entries) m = kept gone entries (if gone s then delete k m else m)

abbrev pub sockets : (VisitorSession → Bool) → List (Text × VisitorSession) → List ℕ
sockets gone [] = []
sockets gone ((k, s) ∷ m) = let rest = sockets gone m in if gone s then s.websocket ∷ rest else rest

-- `cleanup`. What `close` throws is caught.
unfoldable pub cleanup : ApprovalQueue → ℕ → ApprovalQueue
unfolding kept
cleanup q now = record q {
  sessions = kept (is_expired q now) q.sessions q.sessions;
  closed = q.closed ++ sockets (is_expired q now) q.sessions;
}

unfoldable pub remove : ApprovalQueue → Text → ApprovalQueue
remove q id = record q { sessions = delete id q.sessions }

unfoldable pub size : ApprovalQueue → ℕ
size q = length q.sessions
