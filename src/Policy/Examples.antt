-- ===== src/Policy/Examples.antt =====
-- The gate at work on two messages: tests, and the theorems at inputs that meet their hypotheses.

use network_self_md.Prelude.{
  ℕ, ◌+◌, ◌≡◌, ◌≢◌, refl, true, false, ◌&&◌, [], ◌∷◌, none, some, arith, Text, codes, leb, list_eq,
  if◌then◌else◌, map, last,
}
use network_self_md.Value.{Value, nat, string, bytes, number, object, field, end}
use network_self_md.Policy.Types.{
  group, Event, act, ignore, duplicate_event, Decision, Config, Entry, Runtime,
}
use network_self_md.Policy.Mention.{contains_mention}
use network_self_md.Policy.Mention.Search.{Occurs, contains_mention_iff}
use network_self_md.Policy.Decide.{Self, decide}
use network_self_md.Policy.Decide.Meaning.{IsAddressed, IsTrusted}
use network_self_md.Policy.Decide.Outcome.{MatchesInterest, decide-act_iff, decide-ignore_iff}
use network_self_md.Policy.Validate.{valid, validate_inbound_event}
use network_self_md.Policy.Validate.Exact.{IsEvent, validate_iff}
use network_self_md.Policy.Audit
use network_self_md.Policy.Audit.Ring.{recent-push_all, push_all}
use network_self_md.Policy.Gate.{
  Gate, Env, allowed, push_audit, mark, emit, event_entry, decision_entry, reject, new, evaluate,
  after, run,
}
use network_self_md.Policy.Gate.Admission.{Admits, evaluate-allowed_iff}
use network_self_md.Policy.Gate.Records.{storing, Stores, evaluate-Stores}
use network_self_md.Policy.Gate.Replay.{evaluate_duplicate}
use network_self_md.Policy.Gate.Bounds.{IsBounded, run-new-IsBounded}

abbrev lower_char : ℕ → ℕ
lower_char c = if leb 65 c && leb c 90 then c + 32 else c

-- Lower case and UTF-8, for ASCII.
abbrev pub ascii : Runtime
ascii = record { lower = map lower_char; decode = λ b. some b }

abbrev pub alice : Self
alice = record { fingerprint = some (codes "alice7x2abcd"); display_name = none }

abbrev pub config : Config
config = record {
  trusted_fingerprints = some (codes "bob" ∷ []);
  interests = none;
  require_mention = none;
  mention_prefix_len = none;
}

abbrev pub hello : Event
hello = record {
  kind = group;
  message_id = codes "m1";
  group_id = some (7 ∷ []);
  sender_public_key = 1 ∷ 2 ∷ [];
  sender_fingerprint = codes "bob";
  plaintext = codes "hi @Alice7x2!";
  timestamp = nat 5;
  received_at = nat 6;
}

abbrev raw_of : Event → Value
raw_of ev = object (
    field "kind" (string (codes "group")) (
      field "messageId" (string ev.message_id) (
        field "groupId" (bytes (7 ∷ [])) (
          field "senderPublicKey" (bytes ev.sender_public_key) (
            field "senderFingerprint" (string ev.sender_fingerprint) (
              field "plaintext" (bytes ev.plaintext) (
                field "timestamp" (number ev.timestamp)
                  (field "receivedAt" (number ev.received_at) end))))))))

abbrev pub env : Env
env = record {
  now = 100;
  audit_id = codes "a1";
  is_member = λ gid key. some (list_eq gid (7 ∷ []));
  persist = λ entry. true;
}

abbrev pub gate : Gate
gate = new alice config (Audit.new none) (some 2)

mention_test : contains_mention (map lower_char) (codes "hi @Alice7x2!") (codes "alice7x2") ≡ true
unfolding contains_mention
mention_test = refl

longer_word_test :
    contains_mention (map lower_char) (codes "hi @alice7x2abc") (codes "alice7x2") ≡ false
unfolding contains_mention
longer_word_test = refl

contains_mention_iff_example :
    (codes "alice7x2" ≢ []) × ((p : ℕ) × Occurs (codes "hi @alice7x2!") (codes "alice7x2") p)
contains_mention_iff_example =
    (contains_mention_iff (map lower_char) (codes "hi @Alice7x2!") (codes "alice7x2")).0
      mention_test

hello_acts : (decide ascii alice config hello).action ≡ act
unfolding decide list_eq contains_mention
hello_acts = refl

decide-act_iff_example : IsAddressed ascii alice config hello × IsTrusted config hello
decide-act_iff_example = (decide-act_iff ascii alice config hello).0 hello_acts

abbrev pub aside : Event
aside = record hello { plaintext = codes "lunch?" }

aside_ignored : (decide ascii alice config aside).action ≡ ignore
unfolding decide list_eq contains_mention
aside_ignored = refl

decide-ignore_iff_example :
    (¬ IsAddressed ascii alice config aside)
    × ((kw : Text) → ¬ MatchesInterest ascii config aside kw)
decide-ignore_iff_example = (decide-ignore_iff ascii alice config aside).0 aside_ignored

hello_valid : validate_inbound_event (raw_of hello) ≡ valid hello
unfolding validate_inbound_event list_eq
hello_valid = refl

validate_iff_example : IsEvent (raw_of hello) hello
validate_iff_example = (validate_iff (raw_of hello) hello).0 hello_valid

abbrev decision : Decision
decision = decide ascii alice config hello

abbrev row : Entry
row = decision_entry env hello decision

hello_allowed :
    evaluate ascii gate env (raw_of hello)
    ≡ some (allowed hello decision row, push_audit row ∷ mark hello.message_id ∷ emit decision ∷ [])
unfolding evaluate list_eq decide contains_mention new validate_inbound_event decision_entry
hello_allowed = refl

evaluate-allowed_iff_example :
    Admits ascii gate env
      (raw_of hello)
      hello
      decision
      row
      (push_audit row ∷ mark hello.message_id ∷ emit decision ∷ [])
evaluate-allowed_iff_example =
    (evaluate-allowed_iff ascii gate env (raw_of hello) hello decision row _).0 hello_allowed

-- A call whose row cannot be stored.
abbrev full_env : Env
full_env = record env { persist = λ entry. false }

evaluate-Stores_example :
    Stores full_env
      (evaluate ascii gate (storing full_env) (raw_of hello))
      (evaluate ascii gate full_env (raw_of hello))
evaluate-Stores_example = evaluate-Stores ascii gate full_env (raw_of hello)

evaluate_duplicate_example :
    evaluate ascii
      (run ascii (after gate (evaluate ascii gate env (raw_of hello))) ((env, raw_of aside) ∷ []))
      env
      (raw_of aside)
    ≡ reject env duplicate_event (event_entry env aside duplicate_event)
evaluate_duplicate_example =
    evaluate_duplicate ascii gate env (raw_of hello) hello decision row _ ((env, raw_of aside) ∷ [])
      env (raw_of aside) aside hello_allowed (unfold new in omega arith)
      ((validate_iff (raw_of aside) aside).0 aside_valid) refl
  where
    aside_valid : validate_inbound_event (raw_of aside) ≡ valid aside
    aside_valid = unfold validate_inbound_event list_eq in refl

run-new-IsBounded_example :
    IsBounded 2 1000
      (run ascii (new alice config (Audit.new none) (some 2)) ((env, raw_of hello) ∷ []))
run-new-IsBounded_example =
    run-new-IsBounded ascii alice config none (some 2) ((env, raw_of hello) ∷ [])

recent-push_all_example :
    Audit.recent (push_all (Audit.new (some 1)) (row ∷ row ∷ [])) none
    ≡ last (Audit.new (some 1)).max_entries (row ∷ row ∷ [])
recent-push_all_example = (recent-push_all (some 1) (row ∷ row ∷ [])).0
