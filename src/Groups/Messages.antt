-- ===== src/Groups/Messages.antt =====
-- Group messages: `GroupManager.encryptDelivery`, and the part of `handleGroupMessage` and of
-- `handleSenderKeyDistribution` that runs in the replay transaction. A message stands without its
-- signature, and a text as its bytes in UTF-8; its row among the messages is left out.
use network_self_md.Prelude.{
  ℕ, Bool, ◌&&◌, Option, none, some, List, [], ◌∷◌, ◌++◌, Bytes, codes, length, list_eq, leb, ◌==◌,
  if◌then◌else◌,
}
use network_self_md.Prelude.Results.{Result, ok, err, ◌>>=◌, ◌>>◌, require, or_throw}
use network_self_md.Bytes.{u64, to_hex}
use network_self_md.Crypto.{Crypto}
use network_self_md.SenderKeys.{Error, encrypt, decrypt}
use network_self_md.GroupState.{Primitives, Role, member, GroupMemberEntry}
use network_self_md.Groups.{
  StoredSenderKey, Tables, LocalIdentity, GroupError, missing_epoch, stale_epoch, revoked_sender,
  outside_generation, undecryptable, bad_plaintext, no_current_key, unknown_group, non_member,
  replayed_distribution,
}
use network_self_md.Groups.SenderKeyTable.{load, KeyContent, store, store_if_newer}
use network_self_md.Groups.EpochTable.{version_of, get_latest_epoch, is_member_in_epoch}
use network_self_md.Groups.Membership.{find, add_member}
use network_self_md.Groups.Distribute.{KeyPayload}

pub record GroupEncryptedMessage : Type 0 where
  pub group_id : Bytes
  pub chain_index : ℕ
  pub generation_id : Bytes
  pub epoch_version : ℕ
  pub epoch_hash : Bytes
  pub ciphertext : Bytes
  pub nonce : Bytes

unfoldable pub group_message_aad : Primitives → Bytes → Bytes → Bytes → ℕ → Bytes → ℕ → Bytes
group_message_aad p g sender generation epoch_version epoch_hash index =
    p.utf8 (codes "network.self.md/GroupMessage/v2" ++ 0 ∷ [])
    ++ g
    ++ sender
    ++ generation
    ++ epoch_hash
    ++ u64 epoch_version
    ++ u64 index

-- A key with a generation and an epoch.
pub record BoundKey : Type 0 where
  pub row : StoredSenderKey
  pub generation : Bytes
  pub epoch_hash : Bytes

abbrev pub bound_key : Option StoredSenderKey → Option BoundKey
bound_key none = none
bound_key (some row) = elim row.generation_id [
  | none ↦ none
  | some generation ↦ elim row.epoch_hash [
    | none ↦ none
    | some hash ↦ some (record { row = row; generation = generation; epoch_hash = hash })
  ]
]

-- The key after a message: the chain has moved on.
abbrev pub advanced_content : BoundKey → Bytes → ℕ → KeyContent
advanced_content k chain_key chain_index = record {
  chain_key = chain_key;
  chain_index = chain_index;
  generation_id = k.generation;
  sequence = k.row.distribution_sequence;
  epoch_version = k.row.epoch_version;
  epoch_hash = k.epoch_hash;
}

-- The nonce and the time are arguments.
unfoldable pub encrypt_delivery :
    Primitives
    → Crypto
    → LocalIdentity
    → Bytes
    → ℕ
    → Bytes
    → Bytes
    → Tables
    → Result GroupError (GroupEncryptedMessage × Tables)
unfolding get_latest_epoch group_message_aad encrypt store
encrypt_delivery p c self nonce now g plaintext t = do
  latest ← or_throw (get_latest_epoch t (to_hex g)) revoked_sender
  require (is_member_in_epoch latest self.public_key) revoked_sender
  key ← or_throw (bound_key (load t g self.public_key)) no_current_key
  require (key.row.epoch_version == version_of latest && list_eq key.epoch_hash latest.hash)
      no_current_key
  require (leb 1 (length plaintext) && leb (length plaintext) 65536) bad_plaintext
  let (packet, next) =
      encrypt c (record { chain_key = key.row.chain_key; chain_index = key.row.chain_index }) nonce
        (group_message_aad p g self.public_key key.generation key.row.epoch_version key.epoch_hash
          key.row.chain_index)
        plaintext
  ok (
    record {
      group_id = g;
      chain_index = packet.chain_index;
      generation_id = key.generation;
      epoch_version = key.row.epoch_version;
      epoch_hash = key.epoch_hash;
      ciphertext = packet.ciphertext;
      nonce = packet.nonce;
    },
    store t g self.public_key (advanced_content key next.chain_key next.chain_index) now,
  )

abbrev pub opened : {A : Type 0} → Result Error A → Result GroupError A
opened (ok a) = ok a
opened (err e) = err undecryptable

-- The message is of the key's generation and epoch.
abbrev pub is_of_key : GroupEncryptedMessage → BoundKey → Bool
is_of_key m key =
    m.epoch_version == key.row.epoch_version
    && (list_eq m.epoch_hash key.epoch_hash && list_eq m.generation_id key.generation)

-- The transaction of `handleGroupMessage`, with the sender's public key: the text and the tables.
unfoldable pub receive_group_message :
    Primitives
    → Crypto
    → LocalIdentity
    → GroupEncryptedMessage
    → Bytes
    → ℕ
    → Tables
    → Result GroupError (Bytes × Tables)
unfolding get_latest_epoch group_message_aad decrypt store
receive_group_message p c self m sender now t = do
  group ← or_throw (find t m.group_id) missing_epoch
  latest ← or_throw (get_latest_epoch t (to_hex m.group_id)) missing_epoch
  require (m.epoch_version == version_of latest && list_eq m.epoch_hash latest.hash) stale_epoch
  require (is_member_in_epoch latest self.public_key && is_member_in_epoch latest sender)
      revoked_sender
  key ← or_throw (bound_key (load t m.group_id sender)) outside_generation
  require (is_of_key m key) outside_generation
  (plaintext, next) ← opened (
      decrypt c
        (record {
          chain_key = key.row.chain_key;
          chain_index = key.row.chain_index;
          skipped_keys = [];
        })
        m.chain_index m.nonce m.ciphertext
        (group_message_aad p m.group_id sender m.generation_id m.epoch_version m.epoch_hash
          m.chain_index))
  ok (
    plaintext,
    store t m.group_id sender (advanced_content key next.chain_key next.chain_index) now,
  )

abbrev pub role_of_member : List GroupMemberEntry → Bytes → Role
role_of_member [] key = member
role_of_member (m ∷ ms) key =
    let rest = role_of_member ms key in if list_eq m.public_key key then m.role else rest

abbrev pub payload_content : KeyPayload → KeyContent
payload_content k = record {
  chain_key = k.chain_key;
  chain_index = k.chain_index;
  generation_id = k.generation_id;
  sequence = k.sequence;
  epoch_version = k.epoch_version;
  epoch_hash = k.epoch_hash;
}

-- The transaction of `handleSenderKeyDistribution`, with what the envelope was opened to.
unfoldable pub receive_sender_key :
    LocalIdentity → KeyPayload → Bytes → ℕ → Tables → Result GroupError Tables
unfolding get_latest_epoch store_if_newer add_member
receive_sender_key self k sender now t = do
  group ← or_throw (find t k.group_id) unknown_group
  latest ← or_throw (get_latest_epoch t (to_hex k.group_id)) missing_epoch
  require (k.epoch_version == version_of latest && list_eq k.epoch_hash latest.hash) stale_epoch
  require (is_member_in_epoch latest self.public_key && is_member_in_epoch latest sender) non_member
  stored ←
      or_throw (store_if_newer t k.group_id sender (payload_content k) now) replayed_distribution
  ok (add_member stored k.group_id sender (role_of_member latest.epoch.members sender))
