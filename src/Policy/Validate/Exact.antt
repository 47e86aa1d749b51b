-- ===== src/Policy/Validate/Exact.antt =====
-- The validator accepts exactly the payloads that have the shape of an event.
use mathlib.Core.Logic.{◌↔◌}
use network_self_md.Prelude.{
  ◌≡◌, ◌≢◌, refl, ap, ◌∙◌, list_eq→eq, true, [], ◌∷◌, Option, none, some, arith, Bytes, Text,
  list_eq, codes, Bool-cases, inl, inr,
}
use network_self_md.Value.{
  Value, undefined, null, bool, number, string, bytes, array, object, get, is_plain_object,
  is_finite,
}
use network_self_md.Policy.Types.{Kind, group, dm, Event}
use network_self_md.Policy.Validate.{
  valid, as_name, as_group_id, as_event, kind_text, validate_kind, validate_inbound_event,
  or_malformed,
}

abbrev pub group_value : Option Bytes → Value
group_value none = undefined
group_value (some b) = bytes b

-- The payload has the event's fields, each of its type; the two names are not empty, the two times
-- are finite, and a group event names its group.
pub record IsEvent (raw : Value) (ev : Event) : Type 0 where
  pub kind : get "kind" raw ≡ string (kind_text ev.kind)
  pub message_id : get "messageId" raw ≡ string ev.message_id
  pub id_nonempty : ev.message_id ≢ []
  pub sender_fingerprint : get "senderFingerprint" raw ≡ string ev.sender_fingerprint
  pub fingerprint_nonempty : ev.sender_fingerprint ≢ []
  pub sender_public_key : get "senderPublicKey" raw ≡ bytes ev.sender_public_key
  pub plaintext : get "plaintext" raw ≡ bytes ev.plaintext
  pub timestamp : get "timestamp" raw ≡ number ev.timestamp
  pub timestamp_finite : is_finite ev.timestamp ≡ true
  pub received_at : get "receivedAt" raw ≡ number ev.received_at
  pub received_finite : is_finite ev.received_at ≡ true
  pub group_id : get "groupId" raw ≡ group_value ev.group_id
  pub group_named : ev.kind ≡ group → ev.group_id ≢ none

as_name_iff : (v : Value) (s : Text) → as_name v ≡ some s → (v ≡ string s) × (s ≢ [])
unfolding as_name
as_name_iff v s h = ground arith

name_as : (s : Text) → s ≢ [] → as_name (string s) ≡ some s
unfolding as_name
name_as [] h = absurd (h refl)
name_as (c ∷ cs) h = refl

as_group_sound :
    (k : Kind) (v : Value) (g : Option Bytes)
    → as_group_id k v ≡ some g
    → (v ≡ group_value g) × (k ≡ group → g ≢ none)
unfolding as_group_id
as_group_sound k v g h = ground arith

as_event-IsEvent :
    (k : Kind) (raw : Value) (ev : Event)
    → get "kind" raw ≡ string (kind_text k)
    → as_event k raw ≡ some ev
    → IsEvent raw ev
unfolding as_event as_name as_group_id
as_event-IsEvent k raw ev e h = ground arith

event_as :
    (k : Kind) (raw : Value) (ev : Event) → ev.kind ≡ k → IsEvent raw ev → as_event k raw ≡ some ev
unfolding as_event as_group_id
event_as k raw ev e h =
    rw
      (
        h.message_id,
        h.sender_fingerprint,
        h.sender_public_key,
        h.plaintext,
        h.timestamp,
        h.received_at,
        h.group_id,
        name_as ev.message_id h.id_nonempty,
        name_as ev.sender_fingerprint h.fingerprint_nonempty,
        h.timestamp_finite,
        h.received_finite,
      )
      (ground (arith, h.group_named))

plain_of_kind : (raw : Value) (k : Text) → get "kind" raw ≡ string k → is_plain_object raw ≡ true
plain_of_kind (object fs) k h = refl
plain_of_kind (bytes b) k h = refl
plain_of_kind undefined k h = cc
plain_of_kind null k h = cc
plain_of_kind (bool b) k h = cc
plain_of_kind (number n) k h = cc
plain_of_kind (string s) k h = cc
plain_of_kind (array vs) k h = cc

or_malformed-some : (o : Option Event) (ev : Event) → or_malformed o ≡ valid ev → o ≡ some ev
or_malformed-some o ev h = ground arith

as_event_kind : (k : Kind) (raw : Value) (ev : Event) → as_event k raw ≡ some ev → ev.kind ≡ k
unfolding as_event
as_event_kind k raw ev h = ground arith

kind_sound :
    (v raw : Value) (ev : Event)
    → get "kind" raw ≡ v
    → validate_kind v raw ≡ valid ev
    → IsEvent raw ev
unfolding validate_kind
kind_sound (string k) raw ev e h = elim (Bool-cases (list_eq k (codes "group"))) [
  | inl g ↦
      as_event-IsEvent group raw ev (e ∙ ap string (list_eq→eq k (codes "group") g))
        (or_malformed-some _ ev (rw g at h))
  | inr g ↦ elim (Bool-cases (list_eq k (codes "dm"))) [
    | inl d ↦
        as_event-IsEvent dm raw ev (e ∙ ap string (list_eq→eq k (codes "dm") d))
          (or_malformed-some _ ev (rw (g, d) at h))
    | inr d ↦ absurd (ground arith)
  ]
]
kind_sound _ raw ev e h = cc

kind_complete :
    (k : Kind) (raw : Value) (ev : Event)
    → as_event k raw ≡ some ev
    → validate_kind (string (kind_text k)) raw ≡ valid ev
unfolding validate_kind list_eq
kind_complete group raw ev h = rw h
kind_complete dm raw ev h = rw h

-- A payload is accepted as an event exactly when it has the event's shape.
pub validate_iff :
    (raw : Value) (ev : Event) → (validate_inbound_event raw ≡ valid ev) ↔ IsEvent raw ev
unfolding validate_inbound_event
validate_iff raw ev = (
  λ h. elim (Bool-cases (is_plain_object raw)) [
    | inl p ↦ kind_sound (get "kind" raw) raw ev refl (ground arith)
    | inr p ↦ absurd (ground arith)
  ],
  λ h.
      rw (plain_of_kind raw (kind_text ev.kind) h.kind, h.kind)
        (kind_complete ev.kind raw ev (event_as ev.kind raw ev refl h)),
)
