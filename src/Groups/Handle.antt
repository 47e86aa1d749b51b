-- ===== src/Groups/Handle.antt =====
-- `GroupManager.handleGroupEpoch` around its transaction: the replay ledger, and what is sent and
-- emitted afterwards; `leaveGroup`.
use network_self_md.Prelude.{
  ℕ, Bool, true, false, Option, none, some, List, [], ◌∷◌, ◌++◌, Bytes, Text, text_key, delete,
  if◌then◌else◌,
}
use network_self_md.Prelude.Results.{Result, ok, err}
use network_self_md.Value.{Value}
use network_self_md.Bytes.{to_hex}
use network_self_md.GroupState.{Primitives, SignedGroupEpoch}
use network_self_md.Authentication.{PeerSession}
use network_self_md.Replay.{ReplayLimits, ReplayRow, ReplayError, failed, accept}
use network_self_md.Groups.{Tables, LocalIdentity, GroupError, version_gap, not_accepted}
use network_self_md.Groups.SenderKeyTable.{delete_keys_of_group}
use network_self_md.Groups.EpochTable.{version_of, get_latest_epoch}
use network_self_md.Groups.Membership.{leave}
use network_self_md.Groups.Receive.{EpochOutcome, historical, updated, Fresh, receive_epoch}
use network_self_md.Groups.Opening.{EpochDelivery, open_delivery, as_mutation}
use network_self_md.Groups.Distribute.{
  GroupAction, emit_error, request_sync, group_left, epoch_updated, Connection,
  distribute_sender_keys,
}

-- The tables, the replay ledger and the counters of messages sent since the last rotation.
pub record Manager : Type 0 where
  pub tables : Tables
  pub ledger : List ReplayRow
  pub message_counters : List (Text × ℕ)

abbrev pub request_latest : Option SignedGroupEpoch → List GroupAction
request_latest none = []
request_latest (some latest) = request_sync latest ∷ []

abbrev pub is_gap : GroupError → Bool
is_gap version_gap = true
is_gap _ = false

-- The error that leaves the transaction, given the one that was thrown inside.
unfoldable pub actions_of_failure :
    {A : Type 0} → Tables → Bytes → ReplayError → Result GroupError A → List GroupAction
unfolding get_latest_epoch
actions_of_failure t g failed (err e) =
    let asked = request_latest (get_latest_epoch t (to_hex g)) in if is_gap e then asked else []
actions_of_failure t g _ _ = []

abbrev pub error_of : {A : Type 0} → ReplayError → Result GroupError A → GroupError
error_of failed (err e) = e
error_of e _ = not_accepted e

abbrev pub actions_of_outcome : Bytes → ℕ → EpochOutcome → List GroupAction
actions_of_outcome g version historical = []
actions_of_outcome g version (updated is_member true) = group_left g ∷ []
actions_of_outcome g version (updated true false) = epoch_updated g version ∷ []
actions_of_outcome g version (updated false false) = epoch_updated g version ∷ []

unfoldable pub distribute_after :
    Primitives
    → LocalIdentity
    → (Text → Option Connection)
    → ℕ
    → Bytes
    → EpochOutcome
    → Tables
    → Tables × List GroupAction
unfolding distribute_sender_keys
distribute_after p self peers now g (updated true false) t =
    distribute_sender_keys p self peers now g t
distribute_after p self peers now g _ t = (t, [])

abbrev pub counters_after : Bytes → EpochOutcome → List (Text × ℕ) → List (Text × ℕ)
counters_after g (updated is_member true) counters = delete (to_hex g) counters
counters_after g _ counters = counters

-- The end of the call, with the ledger's answer and the transaction's own result.
unfoldable pub conclude :
    Primitives
    → LocalIdentity
    → (Text → Option Connection)
    → ℕ
    → Bytes
    → ℕ
    → Manager
    → Result GroupError (EpochOutcome × Tables)
    → Result ReplayError ((EpochOutcome × Tables) × List ReplayRow)
    → Manager × List GroupAction
unfolding distribute_after actions_of_failure
conclude p self peers now g version m mutation (ok ((outcome, tables), rows)) =
    let (shared, sent) = distribute_after p self peers now g outcome tables in
    (
      record {
        tables = shared;
        ledger = rows;
        message_counters = counters_after g outcome m.message_counters;
      },
      sent ++ actions_of_outcome g version outcome,
    )
conclude p self peers now g version m mutation (err e) =
    (m, actions_of_failure m.tables g e mutation ++ emit_error (error_of e mutation) ∷ [])

unfoldable pub handle_group_epoch :
    Primitives
    → (Bytes → Option Value)
    → ReplayLimits
    → LocalIdentity
    → (Text → Option Connection)
    → PeerSession
    → EpochDelivery
    → Fresh
    → Manager
    → Manager × List GroupAction
unfolding open_delivery receive_epoch accept conclude
handle_group_epoch p decode limits self peers session d fresh m =
    elim (open_delivery p decode self session d fresh.now) [
      | err e ↦ (m, emit_error e ∷ [])
      | ok (key, (s, reservation)) ↦
          let g = d.message.group_id in
          let mutation = receive_epoch p self fresh g s key m.tables in
          conclude p self peers fresh.now g (version_of s) m mutation
            (accept limits m.ledger reservation (as_mutation mutation))
    ]

-- `leaveGroup`, once the topic is left.
unfoldable pub leave_group : Bytes → Manager → Manager × List GroupAction
unfolding leave delete_keys_of_group
leave_group g m = (
  record m {
    tables = delete_keys_of_group (leave m.tables g) g;
    message_counters = delete (to_hex g) m.message_counters;
  },
  group_left g ∷ [],
)

-- The calls that a node handles one after another.
pub data GroupCall : Type 0 where
  deliver : (Text → Option Connection) → PeerSession → EpochDelivery → Fresh → GroupCall
  leaving : Bytes → GroupCall

unfoldable pub handle_each :
    Primitives
    → (Bytes → Option Value)
    → ReplayLimits
    → LocalIdentity
    → List GroupCall
    → Manager
    → Manager
unfolding handle_group_epoch leave_group
handle_each p decode limits self [] m = m
handle_each p decode limits self (deliver peers session d fresh ∷ calls) m =
    handle_each p decode limits self calls
      (handle_group_epoch p decode limits self peers session d fresh m).0
handle_each p decode limits self (leaving g ∷ calls) m =
    handle_each p decode limits self calls (leave_group g m).0
