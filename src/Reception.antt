-- ===== src/Reception.antt =====
-- `prepareInbound` and `emitPolicyEvent` of packages/node/src/agent.ts: how the agent joins the
-- policy gate and the inbound queue. A reception that throws is rolled back with its transaction;
-- the effects of one that returns run after the commit.
pub mod Delivery
mod Examples
use network_self_md.Prelude.{
  ℕ, Bool, true, false, List, [], ◌∷◌, ◌++◌, Option, none, some, Bytes, Text, codes, length,
}
use network_self_md.Bytes.{to_hex}
use network_self_md.Value.{
  Number, Value, undefined, number, string, bytes, object, Fields, end, field,
}
use network_self_md.Policy.Types.{Kind, Event, Decision, Entry, Runtime}
use network_self_md.Policy.Validate.{kind_text}
use network_self_md.Policy.Gate.{
  Gate, Env, Outcome, entry_of, allowed, rejected, Effect, push_audit, mark, emit, hex_of, evaluate,
  commit,
}
use network_self_md.InboundQueue.{InboundQueue, push}

-- What `emitPolicyEvent` tells the observers. What an observer throws is caught.
pub data Notice : Type 0 where
  policy_decision : Decision → Notice
  policy_audit : Entry → Notice
  activity : Kind → Option Text → Text → Number → ℕ → Notice
  inbound_message : Event → Notice

pub record Reception : Type 0 where
  pub gate : Gate
  pub queue : InboundQueue
  pub notices : List Notice

abbrev pub group_field : Option Bytes → Value
group_field none = undefined
group_field (some b) = bytes b

-- The event as the object that the agent hands to the gate.
pub to_value : Event → Value
to_value ev = object (
    field "kind" (string (kind_text ev.kind)) (
      field "messageId" (string ev.message_id) (
        field "groupId" (group_field ev.group_id) (
          field "senderPublicKey" (bytes ev.sender_public_key) (
            field "senderFingerprint" (string ev.sender_fingerprint) (
              field "plaintext" (bytes ev.plaintext) (
                field "timestamp" (number ev.timestamp)
                  (field "receivedAt" (number ev.received_at) end))))))))

-- What the observers hear while the gate's effects run: each decision that the gate emits is passed
-- on as 'policy:decision'.
abbrev pub decisions_of : List Effect → List Notice
decisions_of [] = []
decisions_of (emit d ∷ es) = policy_decision d ∷ decisions_of es
decisions_of (push_audit entry ∷ es) = decisions_of es
decisions_of (mark id ∷ es) = decisions_of es

abbrev pub activity_of : Event → Bool → List Notice
activity_of ev true = []
activity_of ev false =
    activity ev.kind (hex_of ev.group_id) ev.sender_fingerprint ev.timestamp (length ev.plaintext)
    ∷ []

abbrev pub deliver : Outcome → Reception → Reception
deliver (allowed ev d entry) r = record r {
  queue = push r.queue ev;
  notices = r.notices ++ inbound_message ev ∷ [];
}
deliver (rejected reason entry) r = r

-- The function that `prepareInbound` returns, run after the commit.
pub finish : Reception → Event → Outcome → List Effect → Reception
finish r ev o es =
    let notices =
      (r.notices ++ decisions_of es)
      ++ policy_audit (entry_of o) ∷ activity_of ev (entry_of o).gate_rejected in
    deliver o (record r { gate = commit r.gate es; notices = notices })

unfoldable pub prepare_inbound : Runtime → Reception → Env → Event → Option Reception
unfolding finish to_value
prepare_inbound rt r env ev = elim (evaluate rt r.gate env (to_value ev)) [
  | none ↦ none
  | some (o, es) ↦ some (finish r ev o es)
]
