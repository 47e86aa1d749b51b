-- ===== src/Groups/Sealing.antt =====
-- What a node that encrypts a group message sends and stores.

use network_self_md.Prelude.{
  ℕ, ◌+◌, ◌≡◌, sym, ap, true, ◌&&◌, some, Bytes, list_eq, length, leb, ◌==◌, number_key,
}
use network_self_md.Prelude.Results.{Result, ok, err, require-passed}
use network_self_md.Bytes.{to_hex}
use network_self_md.Crypto.{Crypto, advance_chain, message_key, next_chain_key}
use network_self_md.SenderKeys.{encrypt}
use network_self_md.GroupState.{Primitives, SignedGroupEpoch}
use network_self_md.GroupState.Valid.{both}
use network_self_md.Groups.{Tables, LocalIdentity, GroupError, pair_key}
use network_self_md.Groups.SenderKeyTable.{load, store}
use network_self_md.Groups.EpochTable.{version_of, get_latest_epoch, is_member_in_epoch}
use network_self_md.Groups.Messages.{
  GroupEncryptedMessage, group_message_aad, BoundKey, bound_key, advanced_content, encrypt_delivery,
}

-- What a key at an index makes of a text.
abbrev pub sealed :
    Primitives → Crypto → Bytes → Bytes → Bytes → Bytes → BoundKey → GroupEncryptedMessage
sealed p c g sender nonce text key = record {
  group_id = g;
  chain_index = key.row.chain_index;
  generation_id = key.generation;
  epoch_version = key.row.epoch_version;
  epoch_hash = key.epoch_hash;
  ciphertext =
      c.seal (message_key c key.row.chain_key) nonce
        (group_message_aad p g sender key.generation key.row.epoch_version key.epoch_hash
          key.row.chain_index)
        text;
  nonce = nonce;
}

abbrev pub message_in :
    GroupEncryptedMessage
    → Result GroupError (GroupEncryptedMessage × Tables)
    → GroupEncryptedMessage
message_in d (ok (m, t)) = m
message_in d (err e) = d

abbrev pub tables_in : Tables → Result GroupError (GroupEncryptedMessage × Tables) → Tables
tables_in d (ok (m, t)) = t
tables_in d (err e) = d

pub record IsSealed (p : Primitives) (c : Crypto) (g sender nonce text : Bytes) (now : ℕ)
    (key : BoundKey) (latest : SignedGroupEpoch) (t u : Tables) (m : GroupEncryptedMessage)
    : Type 0 where
  pub is : m ≡ sealed p c g sender nonce text key
  pub after :
      u
      ≡ store t g sender
          (advanced_content key (next_chain_key c key.row.chain_key) (key.row.chain_index + 1))
          now
  pub member : is_member_in_epoch latest sender ≡ true
  pub of_epoch : (key.row.epoch_version == version_of latest) ≡ true
  pub of_hash : list_eq key.epoch_hash latest.hash ≡ true

pub encrypt_delivery-IsSealed :
    (p : Primitives) (c : Crypto) (self : LocalIdentity) (nonce text g : Bytes) (now : ℕ)
    (key : BoundKey) (latest : SignedGroupEpoch) (t u : Tables) (m : GroupEncryptedMessage)
    → get_latest_epoch t (to_hex g) ≡ some latest
    → bound_key (load t g self.public_key) ≡ some key
    → encrypt_delivery p c self nonce now g text t ≡ ok (m, u)
    → IsSealed p c g self.public_key nonce text now key latest t u m
unfolding encrypt_delivery encrypt advance_chain
encrypt_delivery-IsSealed p c self nonce text g now key latest t u m is_latest bound h =
    let h1 = rw is_latest at h in
    let (listed, h2) = require-passed (is_member_in_epoch latest self.public_key) _ _ (m, u) h1 in
    let h3 = rw bound at h2 in
    let (current, h4) =
      require-passed
        (key.row.epoch_version == version_of latest && list_eq key.epoch_hash latest.hash) _ _
        (m, u) h3 in
    let (sized, h5) =
      require-passed (leb 1 (length text) && leb (length text) 65536) _ _ (m, u) h4 in
    let (of_epoch, of_hash) = both (key.row.epoch_version == version_of latest) _ current in
    record {
      is = sym (ap (message_in m) h5);
      after = sym (ap (tables_in u) h5);
      member = listed;
      of_epoch = of_epoch;
      of_hash = of_hash;
    }
