-- ===== src/Groups/MessageExamples.antt =====
-- A group message from the creator of a group to a member.
use network_self_md.Prelude.{◌+◌, ◌≡◌, refl, some, [], ◌∷◌, arith, Bytes, codes, list_eq, true}
use network_self_md.Prelude.Results.{ok}
use network_self_md.Bytes.{to_hex}
use network_self_md.Crypto.Example.{example_crypto, example_laws}
use network_self_md.GroupState.{member, zeros, create_genesis_epoch}
use network_self_md.GroupState.Examples.{fixed}
use network_self_md.Groups.{StoredSenderKey, Tables, LocalIdentity}
use network_self_md.Groups.EpochTable.{get_latest_epoch, is_member_in_epoch}
use network_self_md.Groups.Membership.{new_group, find}
use network_self_md.Groups.Messages.{GroupEncryptedMessage, encrypt_delivery, receive_group_message}
use network_self_md.Groups.Paired.{IsPaired}
use network_self_md.Groups.Sealing.{message_in, tables_in}
use network_self_md.Groups.Exchange.{receive-encrypt_delivery}
use network_self_md.Groups.Examples.{self, group, signed, known, full}

abbrev creator : LocalIdentity
creator = record { public_key = zeros 32; fingerprint = codes "yyyyyyyyyyyyyyyyyyyyyyyyyyyyyyyy" }

abbrev key_row : StoredSenderKey
key_row = record {
  chain_key = 5 ∷ [];
  chain_index = 0;
  generation_id = some (zeros 16);
  distribution_sequence = 1;
  epoch_version = 1;
  epoch_hash = some (zeros 32);
  generation_created_at = 700;
}

abbrev held : Tables
held = record known.tables {
  sender_keys = ((group, zeros 32), key_row) ∷ [];
  epochs = full ∷ signed ∷ [];
}

abbrev unsent : GroupEncryptedMessage
unsent = record {
  group_id = [];
  chain_index = 0;
  generation_id = [];
  epoch_version = 0;
  epoch_hash = [];
  ciphertext = [];
  nonce = [];
}

abbrev text : Bytes
text = codes "hello"

abbrev message : GroupEncryptedMessage
message =
    message_in unsent (encrypt_delivery fixed example_crypto creator (3 ∷ []) 1000 group text held)

abbrev after : Tables
after = tables_in held (encrypt_delivery fixed example_crypto creator (3 ∷ []) 1000 group text held)

encrypt_test :
    encrypt_delivery fixed example_crypto creator (3 ∷ []) 1000 group text held
    ≡ ok (message, after)
unfolding encrypt_delivery to_hex list_eq create_genesis_epoch
encrypt_test = refl

latest_test : get_latest_epoch held (to_hex group) ≡ some full
unfolding get_latest_epoch to_hex list_eq create_genesis_epoch
latest_test = refl

joined_test :
    find held group ≡ some (new_group (codes "team") member (some (zeros 32)) (some (zeros 32)) 3)
unfolding list_eq
joined_test = refl

listed_test : is_member_in_epoch full self.public_key ≡ true
unfolding list_eq
listed_test = refl

held-IsPaired : IsPaired example_crypto (5 ∷ []) group creator.public_key 0 0 held held
unfolding list_eq
held-IsPaired = record {
  generation = zeros 16;
  version = 1;
  hash = zeros 32;
  own = record {
    key = record { row = key_row; generation = zeros 16; epoch_hash = zeros 32 };
    bound = refl;
    of_generation = refl;
    of_version = refl;
    of_hash = refl;
    of_index = refl;
    on_chain = refl;
  };
  held = record {
    key = record { row = key_row; generation = zeros 16; epoch_hash = zeros 32 };
    bound = refl;
    of_generation = refl;
    of_version = refl;
    of_hash = refl;
    of_index = refl;
    on_chain = refl;
  };
  behind = omega arith;
}

receive-encrypt_delivery_example :
    (ub : Tables) × ((receive_group_message fixed example_crypto self message (zeros 32) 1001 held
        ≡ ok (text, ub))
      × IsPaired example_crypto (5 ∷ []) group (zeros 32) (0 + 1) (0 + 1) after ub)
receive-encrypt_delivery_example =
    receive-encrypt_delivery fixed example_crypto example_laws creator self (5 ∷ []) group (3 ∷ [])
      text 0 0 1000 1001 (new_group (codes "team") member (some (zeros 32)) (some (zeros 32)) 3)
      full held after held message latest_test latest_test joined_test listed_test held-IsPaired
      (omega arith) encrypt_test
