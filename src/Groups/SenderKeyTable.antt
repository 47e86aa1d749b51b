-- ===== src/Groups/SenderKeyTable.antt =====
-- `SenderKeyRepository`: the sender keys that a node holds, one for each group and member, and the
-- counter of distributions, which outlives the keys. A call is given its time.
use network_self_md.Prelude.{
  ℕ, Bool, false, ◌&&◌, ◌||◌, not, Option, none, some, Bytes, list_eq, filter, ltb, leb, max,
  lookup, insert, delete, if◌then◌else◌,
}
use network_self_md.Groups.{StoredSenderKey, Tables, pair_key}

abbrev pub load : Tables → Bytes → Bytes → Option StoredSenderKey
load t g key = lookup (g, key) t.sender_keys

abbrev pub or_zero : Option ℕ → ℕ
or_zero none = 0
or_zero (some n) = n

abbrev pub get_distribution_sequence : Tables → Bytes → Bytes → ℕ
get_distribution_sequence t g key = or_zero (lookup (g, key) t.sequences)

-- `previous?.generation_id?.equals(generationId)`.
abbrev pub is_generation : Option Bytes → Bytes → Bool
is_generation none generation = false
is_generation (some id) generation = list_eq id generation

abbrev pub has_generation : Option StoredSenderKey → Bytes → Bool
has_generation none generation = false
has_generation (some row) generation = is_generation row.generation_id generation

abbrev pub created_at_of : Option StoredSenderKey → Bytes → ℕ → ℕ
created_at_of none generation now = now
created_at_of (some row) generation now =
    if is_generation row.generation_id generation then row.generation_created_at else now

-- What is written of a key: its chain, generation, distribution and epoch.
pub record KeyContent : Type 0 where
  pub chain_key : Bytes
  pub chain_index : ℕ
  pub generation_id : Bytes
  pub sequence : ℕ
  pub epoch_version : ℕ
  pub epoch_hash : Bytes

abbrev pub raise : Option ℕ → ℕ → ℕ
raise none sequence = sequence
raise (some old) sequence = max old sequence

unfoldable pub store : Tables → Bytes → Bytes → KeyContent → ℕ → Tables
store t g key content now =
    let sequence = raise (lookup (g, key) t.sequences) content.sequence in
    record t {
      sequences = insert (g, key) sequence t.sequences;
      sender_keys =
          insert (g, key)
            (record {
              chain_key = content.chain_key;
              chain_index = content.chain_index;
              generation_id = some content.generation_id;
              distribution_sequence = sequence;
              epoch_version = content.epoch_version;
              epoch_hash = some content.epoch_hash;
              generation_created_at = created_at_of (load t g key) content.generation_id now;
            })
            t.sender_keys;
    }

abbrev pub is_rewound : Option StoredSenderKey → KeyContent → Bool
is_rewound none content = false
is_rewound (some row) content =
    is_generation row.generation_id content.generation_id && ltb content.chain_index row.chain_index

unfoldable pub store_if_newer : Tables → Bytes → Bytes → KeyContent → ℕ → Option Tables
unfolding store
store_if_newer t g key content now =
    if leb content.sequence (get_distribution_sequence t g key) || is_rewound (load t g key) content
    then none
    else some (store t g key content now)

unfoldable pub delete_key : Tables → Bytes → Bytes → Tables
delete_key t g key = record t { sender_keys = delete (g, key) t.sender_keys }

unfoldable pub delete_keys_of_group : Tables → Bytes → Tables
delete_keys_of_group t g = record t {
  sender_keys = filter (λ row. not (list_eq row.0.0 g)) t.sender_keys;
}
