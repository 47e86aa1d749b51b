-- ===== src/Groups/Rotation.antt =====
-- The calls of the agent that make keys and epochs: `rotateKeys`, `rotateExpiredKey` and
-- `kickFromGroup`, each with the keys that it sends.
use network_self_md.Prelude.{
  ℕ, ◌+◌, Bool, true, false, ◌||◌, not, Option, none, some, List, [], Bytes, Text, list_eq, filter,
  leb, if◌then◌else◌,
}
use network_self_md.Prelude.Results.{Result, ok, err, ◌>>=◌}
use network_self_md.Bytes.{to_hex}
use network_self_md.GroupState.{Primitives, GroupMemberEntry}
use network_self_md.Groups.{Tables, LocalIdentity, GroupError, group_not_found, not_authorized}
use network_self_md.Groups.SenderKeyTable.{load, store, delete_key}
use network_self_md.Groups.EpochTable.{
  get_latest_epoch, save_epoch, is_member_in_epoch, is_admin_in_epoch,
}
use network_self_md.Groups.Membership.{find, remove_member}
use network_self_md.Groups.Receive.{Fresh, fresh_content}
use network_self_md.Groups.Distribute.{Connection, GroupAction, distribute_sender_keys}
use network_self_md.Groups.Manage.{next_epoch}

-- `rotateKeys`: a new generation of the node's own key, which is then distributed.
abbrev pub cleared : Bool → Bytes → Tables → Tables
cleared false g t = t
cleared true g t = record t { sender_keys = filter (λ row. not (list_eq row.0.0 g)) t.sender_keys }

unfoldable pub rotate_keys :
    Primitives
    → LocalIdentity
    → (Text → Option Connection)
    → Fresh
    → Bytes
    → Bool
    → Tables
    → Tables × List GroupAction
unfolding get_latest_epoch store distribute_sender_keys
rotate_keys p self peers fresh g invalidate t = elim (get_latest_epoch t (to_hex g)) [
  | none ↦ (t, [])
  | some latest ↦
      let content = fresh_content fresh (load t g self.public_key) latest in
      let rotated = store (cleared invalidate g t) g self.public_key content fresh.now in
      if is_member_in_epoch latest self.public_key
      then distribute_sender_keys p self peers fresh.now g rotated
      else (t, [])
]

abbrev pub key_rotation_interval : ℕ
key_rotation_interval = 100

abbrev pub group_key_max_age_ms : ℕ
group_key_max_age_ms = 86400000

-- `rotateExpiredKey`: after so many messages or so long a time.
unfoldable pub rotate_expired_key :
    Primitives
    → LocalIdentity
    → (Text → Option Connection)
    → Fresh
    → Bytes
    → Tables
    → Tables × List GroupAction
unfolding rotate_keys
rotate_expired_key p self peers fresh g t = elim (load t g self.public_key) [
  | none ↦ (t, [])
  | some key ↦
      if leb key_rotation_interval key.chain_index
        || leb (key.generation_created_at + group_key_max_age_ms) fresh.now
      then rotate_keys p self peers fresh g false t
      else (t, [])
]

-- `kickFromGroup`, once the members are told: the tables in the end, also where an epoch cannot be
-- made or saved, since these calls are no transaction.
abbrev pub kept_members : Bytes → List GroupMemberEntry → List GroupMemberEntry
kept_members key ms = filter (λ m. not (list_eq m.public_key key)) ms

unfoldable pub finish_kick :
    Primitives
    → LocalIdentity
    → (Text → Option Connection)
    → Fresh
    → Bytes
    → Tables
    → Result GroupError Tables
    → Result GroupError (List GroupAction) × Tables
unfolding rotate_keys
finish_kick p self peers fresh g removed (err e) = (err e, removed)
finish_kick p self peers fresh g removed (ok saved) =
    let (rotated, actions) = rotate_keys p self peers fresh g true saved in (ok actions, rotated)

unfoldable pub kick_from_group :
    Primitives
    → LocalIdentity
    → Bytes
    → (Text → Option Connection)
    → Fresh
    → Bytes
    → Bytes
    → Tables
    → Result GroupError (List GroupAction) × Tables
unfolding get_latest_epoch remove_member delete_key next_epoch save_epoch finish_kick
kick_from_group p self private_key peers fresh g key t = elim (find t g) [
  | none ↦ (err group_not_found, t)
  | some group ↦ elim (get_latest_epoch t (to_hex g)) [
    | none ↦ (err not_authorized, t)
    | some latest ↦
        let removed = delete_key (remove_member t g key) g key in
        let made =
          next_epoch p self private_key g latest (kept_members key latest.epoch.members) fresh.now
          >>= (λ signed. save_epoch p signed removed) in
        if is_admin_in_epoch latest self.public_key
        then finish_kick p self peers fresh g removed made
        else (err not_authorized, t)
  ]
]
