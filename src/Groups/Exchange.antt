-- ===== src/Groups/Exchange.antt =====
-- A group message from the node that encrypts it to one that holds its sender's key.

use network_self_md.Prelude.{
  ℕ, suc, ◌+◌, ◌≤◌, ◌≡◌, refl, sym, ap, ◌∙◌, subst, true, Option, some, [], arith, Bytes, list_eq,
  list_eq_self, ◌==◌, ==-self, number_key, inl,
}
use network_self_md.Prelude.Results.{ok}
use network_self_md.Bytes.{to_hex}
use network_self_md.Crypto.{Crypto, CryptoLaws, message_key, next_chain_key}
use network_self_md.SenderKeys.{SenderKeyRecord}
use network_self_md.SenderKeys.Chain.{chain, key_at, Follows}
use network_self_md.SenderKeys.Delivery.{decrypt-Opens}
use network_self_md.GroupState.{Primitives, SignedGroupEpoch}
use network_self_md.Groups.{StoredGroup, StoredSenderKey, Tables, LocalIdentity, pair_key}
use network_self_md.Groups.SenderKeyTable.{load, store}
use network_self_md.Groups.EpochTable.{version_of, get_latest_epoch, is_member_in_epoch}
use network_self_md.Groups.Membership.{find}
use network_self_md.Groups.Messages.{
  GroupEncryptedMessage, group_message_aad, BoundKey, advanced_content, encrypt_delivery, is_of_key,
  receive_group_message,
}
use network_self_md.Groups.Paired.{IsAt, IsPaired, store-IsAt, decrypt-index}
use network_self_md.Groups.Sealing.{sealed, encrypt_delivery-IsSealed}

-- The sealed text of an index of a chain.
abbrev at_index :
    Primitives
    → Crypto
    → Bytes
    → Bytes
    → Bytes
    → Bytes
    → Bytes
    → Bytes
    → ℕ
    → Bytes
    → ℕ
    → GroupEncryptedMessage
at_index p c root g sender nonce text generation version hash index = record {
  group_id = g;
  chain_index = index;
  generation_id = generation;
  epoch_version = version;
  epoch_hash = hash;
  ciphertext =
      c.seal (key_at c root index) nonce
        (group_message_aad p g sender generation version hash index) text;
  nonce = nonce;
}

sealed-at_index :
    (p : Primitives) (c : Crypto) (root g sender nonce text generation hash : Bytes)
    (version index : ℕ) (o : Option StoredSenderKey)
    (own : IsAt c root generation version hash index o)
    → sealed p c g sender nonce text own.key
      ≡ at_index p c root g sender nonce text generation version hash index
sealed-at_index p c root g sender nonce text generation hash version index o own i = record {
  group_id = g;
  chain_index = own.of_index i;
  generation_id = own.of_generation i;
  epoch_version = own.of_version i;
  epoch_hash = own.of_hash i;
  ciphertext =
      c.seal (message_key c (own.on_chain i)) nonce
        (group_message_aad p g sender (own.of_generation i) (own.of_version i) (own.of_hash i)
          (own.of_index i))
        text;
  nonce = nonce;
}

-- The record that the receiver opens with: its key, and no skipped keys.
abbrev holding : BoundKey → SenderKeyRecord
holding key = record {
  chain_key = key.row.chain_key;
  chain_index = key.row.chain_index;
  skipped_keys = [];
}

holding-Follows :
    (c : Crypto) (root generation hash : Bytes) (version index : ℕ) (o : Option StoredSenderKey)
    (held : IsAt c root generation version hash index o)
    → Follows c root (holding held.key)
holding-Follows c root generation hash version index o held = record {
  current = held.on_chain ∙ ap (chain c root) (sym held.of_index);
  cached = λ j k h. absurd (cc h);
}

suc_of : (n : ℕ) → suc n ≡ n + 1
suc_of n = omega arith

IsAt-same :
    (c : Crypto) (root : Bytes) {generation generation' hash hash' : Bytes}
    {version version' index index' : ℕ} (o : Option StoredSenderKey)
    → generation' ≡ generation
    → version' ≡ version
    → hash' ≡ hash
    → index' ≡ index
    → IsAt c root generation' version' hash' index' o
    → IsAt c root generation version hash index o
IsAt-same c root o of_generation of_version of_hash of_index h = record {
  key = h.key;
  bound = h.bound;
  of_generation = h.of_generation ∙ of_generation;
  of_version = h.of_version ∙ of_version;
  of_hash = h.of_hash ∙ of_hash;
  of_index = h.of_index ∙ of_index;
  on_chain = h.on_chain ∙ ap (chain c root) of_index;
}

-- What a receiver makes of a message of its chain that is not behind it, and at most 256 ahead.
receive-at_index :
    (p : Primitives) (c : Crypto) (laws : CryptoLaws c) (self : LocalIdentity)
    (root g sender nonce text generation hash : Bytes) (version index received now : ℕ)
    (group : StoredGroup) (latest : SignedGroupEpoch) (t : Tables)
    (held : IsAt c root generation version hash received (load t g sender))
    → received ≤ index
    → index ≤ received + 256
    → find t g ≡ some group
    → get_latest_epoch t (to_hex g) ≡ some latest
    → is_member_in_epoch latest self.public_key ≡ true
    → is_member_in_epoch latest sender ≡ true
    → (version == version_of latest) ≡ true
    → list_eq hash latest.hash ≡ true
    → (u : Tables) × ((receive_group_message p c self
            (at_index p c root g sender nonce text generation version hash index)
            sender
            now
            t
          ≡ ok (text, u))
        × IsAt c root generation version hash (index + 1) (load u g sender))
unfolding receive_group_message
receive-at_index p c laws self root g sender nonce text generation hash version index received now
      group latest t held low high joined is_latest is_self is_sender of_epoch of_hash =
    let rec = holding held.key in
    let aad = group_message_aad p g sender generation version hash index in
    let follows = holding-Follows c root generation hash version received (load t g sender) held in
    let (next, opens) =
      decrypt-Opens c laws root rec follows index nonce aad text
        (inl (omega (arith, held.of_index))) (omega (arith, held.of_index)) in
    let at_next =
      decrypt-index c rec next index nonce _ aad text refl (omega (arith, held.of_index))
        opens.opened in
    let same_version = ==-self version in
    let same_hash = list_eq_self hash in
    let same_generation = list_eq_self generation in
    let of_key : is_of_key (at_index p c root g sender nonce text generation version hash index)
          held.key
        ≡ true =
      rw
        (
          held.of_version, held.of_hash, held.of_generation, same_version, same_hash,
          same_generation,
        )
        refl in
    let stored =
      store-IsAt c root g sender held.key next.chain_key next.chain_index now t
        opens.follows.current in
    let after = store t g sender (advanced_content held.key next.chain_key next.chain_index) now in
    (
      after,
      (
        rw
            (
              joined, is_latest, of_epoch, of_hash, is_self, is_sender, held.bound, of_key,
              opens.opened,
            )
            refl,
        IsAt-same c root (load after g sender) held.of_generation held.of_version held.of_hash
            at_next stored,
      ),
    )

-- A node encrypts a text for a group, and another, with the same latest epoch and a member of it,
-- holds the sender's key of the same chain, generation and epoch, at an index that is not ahead of
-- the sender's and at most 256 behind it. Its transaction opens the message to the text. Then the two
-- keys are at the same index of the chain, so that the next message is opened as well.
pub receive-encrypt_delivery :
    (p : Primitives) (c : Crypto) (laws : CryptoLaws c) (alice bob : LocalIdentity)
    (root g nonce text : Bytes) (sent received sent_at now : ℕ) (group : StoredGroup)
    (latest : SignedGroupEpoch) (ta ua tb : Tables) (m : GroupEncryptedMessage)
    → get_latest_epoch ta (to_hex g) ≡ some latest
    → get_latest_epoch tb (to_hex g) ≡ some latest
    → find tb g ≡ some group
    → is_member_in_epoch latest bob.public_key ≡ true
    → IsPaired c root g alice.public_key sent received ta tb
    → sent ≤ received + 256
    → encrypt_delivery p c alice nonce sent_at g text ta ≡ ok (m, ua)
    → (ub : Tables) × ((receive_group_message p c bob m alice.public_key now tb ≡ ok (text, ub))
        × IsPaired c root g alice.public_key (sent + 1) (sent + 1) ua ub)
receive-encrypt_delivery p c laws alice bob root g nonce text sent received sent_at now group latest
      ta ua tb m at_alice at_bob joined listed pair window h =
    let own = pair.own in
    let seal =
      encrypt_delivery-IsSealed p c alice nonce text g sent_at own.key latest ta ua m at_alice
        own.bound h in
    let of_epoch : (pair.version == version_of latest) ≡ true =
      ap (λ v. v == version_of latest) (sym own.of_version) ∙ seal.of_epoch in
    let of_hash : list_eq pair.hash latest.hash ≡ true =
      ap (λ b. list_eq b latest.hash) (sym own.of_hash) ∙ seal.of_hash in
    let is =
      seal.is
      ∙ sealed-at_index p c root g alice.public_key nonce text pair.generation pair.hash
          pair.version sent (load ta g alice.public_key) own in
    let (ub, (received_text, held)) =
      receive-at_index p c laws bob root g alice.public_key nonce text pair.generation pair.hash
        pair.version sent received now group latest tb pair.held pair.behind window joined at_bob
        listed seal.member of_epoch of_hash in
    let key = next_chain_key c own.key.row.chain_key in
    let stored =
      store ta g alice.public_key (advanced_content own.key key (own.key.row.chain_index + 1))
        sent_at in
    let kept =
      IsAt-same c root (load stored g alice.public_key) own.of_generation own.of_version own.of_hash
        (ap (λ n. n + 1) own.of_index)
        (store-IsAt c root g alice.public_key own.key key (own.key.row.chain_index + 1) sent_at ta (
          ap (next_chain_key c) (own.on_chain ∙ ap (chain c root) (sym own.of_index))
          ∙ ap (chain c root) (suc_of own.key.row.chain_index))) in
    (
      ub,
      (
        ap (λ n. receive_group_message p c bob n alice.public_key now tb) is ∙ received_text,
        record {
          generation = pair.generation;
          version = pair.version;
          hash = pair.hash;
          own =
              subst
                (λ t.
                  IsAt c root pair.generation pair.version pair.hash (sent + 1)
                    (load t g alice.public_key))
                (sym seal.after) kept;
          held = held;
          behind = omega arith;
        },
      ),
    )
