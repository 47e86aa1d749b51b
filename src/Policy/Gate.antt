-- ===== src/Policy/Gate.antt =====
-- `PolicyGate` of packages/node/src/policy/policy-gate.ts.
-- The caller's `afterCommit` decides when the deferred effects run. `evaluate` gives them back as a
-- list, in the order in which they were deferred, and `commit` runs them; under the default of
-- `afterCommit` each runs on the spot, which is the same, since nothing reads what they change.
pub mod Admission
pub mod Records
pub mod Emitted
pub mod Replay
pub mod Bounds
use network_self_md.Prelude.{
  ℕ, max, Bool, true, false, List, [], ◌∷◌, ◌++◌, Option, none, some, Bytes, Text, list_eq, codes,
  length, any, ltb, if◌then◌else◌,
}
use network_self_md.Bytes.{to_hex}
use network_self_md.Value.{Value, string, bytes, get}
use network_self_md.Policy.Types.{
  Kind, group, dm, Event, Action, act, ask, ignore, Reason, malformed_event, duplicate_event,
  not_a_member, Decision, Config, EntryKind, known, unknown, Entry, Runtime,
}
use network_self_md.Policy.Decide.{Self, decide}
use network_self_md.Policy.Validate.{
  ValidationResult, valid, invalid, as_name, validate_inbound_event,
}
use network_self_md.Policy.Audit.{AuditLog}
use network_self_md.Policy.Audit

pub record Gate : Type 0 where
  pub self : Self
  pub config : Config
  pub audit : AuditLog
  -- The `Set` of message ids, oldest insertion first.
  pub dedup : List Text
  pub dedup_size : ℕ
  -- The decisions emitted so far.
  pub emitted : List Decision

-- What one call of `evaluate` meets: the clock, the next audit id, the membership predicate (`none`
-- where it throws) and the callback that stores an audit row (`false` where it throws).
pub record Env : Type 0 where
  pub now : ℕ
  pub audit_id : Text
  pub is_member : Bytes → Bytes → Option Bool
  pub persist : Entry → Bool

pub data Outcome : Type 0 where
  allowed : Event → Decision → Entry → Outcome
  rejected : Reason → Entry → Outcome

-- `outcome.entry`.
abbrev pub entry_of : Outcome → Entry
entry_of (allowed ev d entry) = entry
entry_of (rejected reason entry) = entry

pub data Effect : Type 0 where
  push_audit : Entry → Effect
  mark : Text → Effect
  emit : Decision → Effect

abbrev pub get_or_10000 : Option ℕ → ℕ
get_or_10000 none = 10000
get_or_10000 (some n) = n

unfoldable pub new : Self → Config → AuditLog → Option ℕ → Gate
new self config audit size = record {
  self = self;
  config = config;
  audit = audit;
  dedup = [];
  dedup_size = max 1 (get_or_10000 size);
  emitted = [];
}

-- `Set.has`.
abbrev pub has : List Text → Text → Bool
has ids id = any (λ k. list_eq k id) ids

abbrev pub without_oldest : List Text → List Text
without_oldest [] = []
without_oldest (oldest ∷ ids) = ids

unfoldable pub mark_dedup : List Text → ℕ → Text → List Text
mark_dedup ids size id =
    let added = if has ids id then ids else ids ++ id ∷ [] in
    if ltb size (length added) then without_oldest added else added

unfoldable pub is_duplicate : Gate → Text → Bool
is_duplicate g id = has g.dedup id

unfoldable pub dedup_count : Gate → ℕ
dedup_count g = length g.dedup

abbrev pub entry_kind : Value → EntryKind
entry_kind (string k) =
    if list_eq k (codes "group")
    then known group
    else if list_eq k (codes "dm")
    then known dm
    else unknown
entry_kind _ = unknown

abbrev pub hex_of : Option Bytes → Option Text
hex_of none = none
hex_of (some b) = some (to_hex b)

abbrev pub bytes_hex : Value → Option Text
bytes_hex (bytes b) = some (to_hex b)
bytes_hex _ = none

abbrev pub byte_length : Value → ℕ
byte_length (bytes b) = length b
byte_length _ = 0

-- The row that `recordReject` builds, from what can be read of a payload that is no event.
pub raw_entry : Env → Value → Reason → Entry
unfolding as_name
raw_entry env raw reason = record {
  audit_id = env.audit_id;
  received_at = env.now;
  event_kind = entry_kind (get "kind" raw);
  message_id = as_name (get "messageId" raw);
  group_id_hex = bytes_hex (get "groupId" raw);
  sender_fingerprint = as_name (get "senderFingerprint" raw);
  byte_length = byte_length (get "plaintext" raw);
  action = ignore;
  reason = reason;
  addressed_to_me = false;
  sender_trusted = false;
  matched_interests = [];
  gate_rejected = true;
}

-- The row that `recordRejectFromEvent` builds.
pub event_entry : Env → Event → Reason → Entry
event_entry env ev reason = record {
  audit_id = env.audit_id;
  received_at = env.now;
  event_kind = known ev.kind;
  message_id = some ev.message_id;
  group_id_hex = hex_of ev.group_id;
  sender_fingerprint = some ev.sender_fingerprint;
  byte_length = length ev.plaintext;
  action = ignore;
  reason = reason;
  addressed_to_me = false;
  sender_trusted = false;
  matched_interests = [];
  gate_rejected = true;
}

-- The row of a decision.
unfoldable pub decision_entry : Env → Event → Decision → Entry
decision_entry env ev d = record {
  audit_id = env.audit_id;
  received_at = env.now;
  event_kind = known ev.kind;
  message_id = some ev.message_id;
  group_id_hex = hex_of ev.group_id;
  sender_fingerprint = some ev.sender_fingerprint;
  byte_length = length ev.plaintext;
  action = d.action;
  reason = d.reason;
  addressed_to_me = d.addressed_to_me;
  sender_trusted = d.sender_trusted;
  matched_interests = d.matched_interests;
  gate_rejected = false;
}

-- `none` is the throw of `persist`, from inside `audit.record`, before anything is deferred.
pub reject : Env → Reason → Entry → Option (Outcome × List Effect)
reject env reason entry =
    if env.persist entry then some (rejected reason entry, push_audit entry ∷ []) else none

abbrev pub outcome_of : Action → Event → Decision → Entry → Outcome
outcome_of ignore ev d entry = rejected d.reason entry
outcome_of act ev d entry = allowed ev d entry
outcome_of ask ev d entry = allowed ev d entry

-- Steps 4 to 7.
pub accept : Env → Event → Decision → Option (Outcome × List Effect)
unfolding decision_entry
accept env ev d =
    let entry = decision_entry env ev d in
    if env.persist entry
    then some (outcome_of d.action ev d entry, push_audit entry ∷ mark ev.message_id ∷ emit d ∷ [])
    else none

-- The answer of the membership predicate.
pub by_membership : Env → Event → Decision → Option Bool → Option (Outcome × List Effect)
unfolding reject accept event_entry
by_membership env ev d (some true) = accept env ev d
by_membership env ev d (some false) = reject env not_a_member (event_entry env ev not_a_member)
by_membership env ev d none = reject env not_a_member (event_entry env ev not_a_member)

-- Step 3, for group events only.
pub check_member : Env → Event → Decision → Kind → Option Bytes → Option (Outcome × List Effect)
unfolding by_membership accept reject event_entry
check_member env ev d dm gid = accept env ev d
check_member env ev d group none = reject env malformed_event (event_entry env ev malformed_event)
check_member env ev d group (some gid) =
    by_membership env ev d (env.is_member gid ev.sender_public_key)

-- Step 2, and what follows. The decision is a pure value, read in step 4 only.
pub check_event : Runtime → Gate → Env → Event → Option (Outcome × List Effect)
unfolding check_member reject event_entry
check_event rt g env ev =
    if has g.dedup ev.message_id
    then reject env duplicate_event (event_entry env ev duplicate_event)
    else check_member env ev (decide rt g.self g.config ev) ev.kind ev.group_id

pub check_validated :
    Runtime → Gate → Env → Value → ValidationResult → Option (Outcome × List Effect)
unfolding check_event reject raw_entry
check_validated rt g env raw (invalid reason) = reject env reason (raw_entry env raw reason)
check_validated rt g env raw (valid ev) = check_event rt g env ev

unfoldable pub evaluate : Runtime → Gate → Env → Value → Option (Outcome × List Effect)
unfolding check_validated
evaluate rt g env raw = check_validated rt g env raw (validate_inbound_event raw)

unfoldable pub run_effect : Gate → Effect → Gate
run_effect g (push_audit e) = record g { audit = Audit.push g.audit e }
run_effect g (mark id) = record g { dedup = mark_dedup g.dedup g.dedup_size id }
run_effect g (emit d) = record g { emitted = g.emitted ++ d ∷ [] }

unfoldable pub commit : Gate → List Effect → Gate
unfolding run_effect
commit g [] = g
commit g (e ∷ es) = commit (run_effect g e) es

-- The gate after a call, under the default `afterCommit`; a call that throws leaves it as it was.
unfoldable pub after : Gate → Option (Outcome × List Effect) → Gate
unfolding commit
after g none = g
after g (some (o, es)) = commit g es

-- The calls of the gate, one after another.
unfoldable pub run : Runtime → Gate → List (Env × Value) → Gate
run rt g [] = g
run rt g ((env, raw) ∷ calls) = run rt (after g (evaluate rt g env raw)) calls
