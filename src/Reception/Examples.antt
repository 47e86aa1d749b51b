-- ===== src/Reception/Examples.antt =====
-- A message that is queued when it arrives.
use network_self_md.Prelude.{◌≡◌, refl, List, [], ◌∷◌, none, some, codes, list_eq}
use network_self_md.Bytes.{to_hex}
use network_self_md.Value.{nat}
use network_self_md.Policy.Types.{Entry, group}
use network_self_md.Policy.Mention.{contains_mention}
use network_self_md.Policy.Decide.{decide}
use network_self_md.Policy.Validate.{validate_inbound_event}
use network_self_md.Policy.Gate.{
  new, evaluate, commit, Effect, push_audit, mark, emit, decision_entry,
}
use network_self_md.Policy.Examples.{ascii, alice, config, gate, env, hello}
use network_self_md.InboundQueue as Queue
use network_self_md.Reception.{
  Reception, prepare_inbound, finish, to_value, policy_decision, policy_audit, activity,
  inbound_message,
}
use network_self_md.Reception.Delivery.{Received, prepare_inbound-Received}

abbrev row : Entry
row = decision_entry env hello (decide ascii alice config hello)

abbrev effects : List Effect
effects = push_audit row ∷ mark hello.message_id ∷ emit (decide ascii alice config hello) ∷ []

abbrev start : Reception
start = record { gate = gate; queue = Queue.new none; notices = [] }

-- The observers are told, the gate notes the message and the queue holds it.
abbrev after : Reception
after = record {
  gate = commit gate effects;
  queue = Queue.push start.queue hello;
  notices =
      policy_decision (decide ascii alice config hello)
      ∷ policy_audit row
      ∷ activity group (some (codes "07")) hello.sender_fingerprint (nat 5) 13
      ∷ inbound_message hello
      ∷ [];
}

queued_test : prepare_inbound ascii start env hello ≡ some after
unfolding prepare_inbound evaluate list_eq decide contains_mention new validate_inbound_event
    decision_entry to_hex finish to_value
queued_test = refl

prepare_inbound-Received_example : Received ascii start after env hello
prepare_inbound-Received_example = prepare_inbound-Received ascii start after env hello queued_test
