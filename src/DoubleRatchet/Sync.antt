-- ===== src/DoubleRatchet/Sync.antt =====
-- Two parties of a session that have received all that was sent, and what a message does to them.

use network_self_md.Prelude.{
  ℕ, ◌+◌, ◌-◌, ◌≡◌, ◌≢◌, refl, sym, ap, ◌∙◌, ◌⊎◌, inl, inr, true, false, not, Option, none, some,
  [], arith, Bytes, text_key, lookup, length, list_eq, list_eq_self, list_eq→eq, Bool-cases,
}
use network_self_md.Prelude.Results.{ok}
use network_self_md.Crypto.{Crypto, CryptoLaws, message_key, next_chain_key, advance_chain}
use network_self_md.DoubleRatchet.{
  DoubleRatchetState, Message, dh_ratchet_step, encrypt, decrypt, skip_keys, skip_from,
  skip_messages, skip_old_chain, ratchet, before_chain, open_current, needs_ratchet, skipped_key_id,
}

-- `x` made the last ratchet step, and `y` has no message of it yet: a step of `y` from here gives the
-- chain on which `x` sends. `x` has received all that `y` sent.
pub record Ahead (c : Crypto) (x y : DoubleRatchetState) : Type 0 where
  pub unknown : needs_ratchet y.receive_ratchet_public x.send_ratchet_public ≡ true
  pub root :
      x.root_key
      ≡ (dh_ratchet_step c y.root_key
          (c.x25519_shared y.send_ratchet_private x.send_ratchet_public)).0
  pub sending :
      x.send_chain_key
      ≡ some
          (dh_ratchet_step c y.root_key
            (c.x25519_shared y.send_ratchet_private x.send_ratchet_public)).1
  pub unsent : x.send_message_number ≡ 0
  pub previous : (y.receive_chain_key ≢ none) → x.previous_chain_length ≡ y.receive_message_number
  pub peer : x.receive_ratchet_public ≡ some y.send_ratchet_public
  pub receiving : x.receive_chain_key ≡ y.send_chain_key
  pub received : x.receive_message_number ≡ y.send_message_number
  pub x_key : x.send_ratchet_public ≡ c.x25519_public x.send_ratchet_private
  pub y_key : y.send_ratchet_public ≡ c.x25519_public y.send_ratchet_private
  pub x_skipped : x.skipped_keys ≡ []
  pub y_skipped : y.skipped_keys ≡ []

abbrev pub InSync : Crypto → DoubleRatchetState → DoubleRatchetState → Type 0
InSync c x y = Ahead c x y ⊎ Ahead c y x

-- The parties after a message on a chain that both know.
abbrev pub sent : Crypto → DoubleRatchetState → Bytes → DoubleRatchetState
sent c s key = record s {
  send_chain_key = some (next_chain_key c key);
  send_message_number = s.send_message_number + 1;
}

abbrev pub got : Crypto → DoubleRatchetState → Bytes → DoubleRatchetState
got c r key = record r {
  receive_chain_key = some (next_chain_key c key);
  receive_message_number = r.receive_message_number + 1;
}

abbrev pub sealed : Crypto → DoubleRatchetState → Bytes → Bytes → Bytes → Message
sealed c s key nonce text = record {
  ciphertext = c.seal (message_key c key) nonce [] text;
  nonce = nonce;
  ratchet_public_key = s.send_ratchet_public;
  previous_chain_length = s.previous_chain_length;
  message_number = s.send_message_number;
}

pub encrypt-sealed :
    (c : Crypto) (s : DoubleRatchetState) (key nonce text : Bytes)
    → s.send_chain_key ≡ some key
    → encrypt c s nonce text ≡ ok (sealed c s key nonce text, sent c s key)
unfolding encrypt advance_chain
encrypt-sealed c s key nonce text e = rw e

-- Nothing is skipped up to the number that comes next.
skip_messages-next :
    (c : Crypto) (r : DoubleRatchetState) (pk key : Bytes) (until : ℕ)
    → r.receive_chain_key ≡ some key
    → r.receive_message_number ≡ until
    → r.skipped_keys ≡ []
    → skip_messages c r pk until ≡ ok r
unfolding skip_messages skip_from skip_keys
skip_messages-next c r pk key until e n empty =
    let none_skipped : until - r.receive_message_number ≡ 0 = omega arith in
    let none_kept : length r.skipped_keys ≡ 0 = ap length empty in
    ap (skip_from c r pk until) e
    ∙ rw (none_skipped, none_kept)
        (ap ok (λ i. record r { receive_chain_key = sym e i; receive_message_number = sym n i }))

open_current-sealed :
    (c : Crypto) (laws : CryptoLaws c) (r : DoubleRatchetState) (key nonce text : Bytes)
    → r.receive_chain_key ≡ some key
    → open_current c r nonce (c.seal (message_key c key) nonce [] text) ≡ ok (text, got c r key)
unfolding open_current advance_chain
open_current-sealed c laws r key nonce text e = rw (e, laws.unseal-seal)

pub list_eq_ne : (xs ys : Bytes) → xs ≢ ys → list_eq xs ys ≡ false
list_eq_ne xs ys ne = elim (Bool-cases (list_eq xs ys)) [
  | inl same ↦ absurd (ne (list_eq→eq xs ys same))
  | inr other ↦ other
]

-- A decryption whose key was not skipped, step by step.
decrypt-steps :
    (c : Crypto) (r r' : DoubleRatchetState) (m : Message) (random : Bytes)
    (out : Bytes × DoubleRatchetState)
    → r.skipped_keys ≡ []
    → before_chain c r m.ratchet_public_key m.previous_chain_length random ≡ ok r'
    → skip_messages c r' m.ratchet_public_key m.message_number ≡ ok r'
    → open_current c r' m.nonce m.ciphertext ≡ ok out
    → decrypt c r m random ≡ ok out
unfolding decrypt
decrypt-steps c r r' m random out empty chained skipped opened =
    let id = skipped_key_id m.ratchet_public_key m.message_number in
    let unskipped : lookup id r.skipped_keys ≡ none = ap (lookup id) empty in
    rw (decrypt, unskipped, chained, skipped, opened)

-- A message of the party behind, on the chain that the other has received so far.
pub decrypt-same_chain :
    (c : Crypto) (laws : CryptoLaws c) (r s : DoubleRatchetState) (key nonce text random : Bytes)
    → r.receive_ratchet_public ≡ some s.send_ratchet_public
    → r.receive_chain_key ≡ some key
    → r.receive_message_number ≡ s.send_message_number
    → r.skipped_keys ≡ []
    → decrypt c r (sealed c s key nonce text) random ≡ ok (text, got c r key)
unfolding before_chain needs_ratchet
decrypt-same_chain c laws r s key nonce text random peer e n empty =
    decrypt-steps c r r (sealed c s key nonce text) random (text, got c r key) empty same
      (skip_messages-next c r s.send_ratchet_public key s.send_message_number e n empty)
      (open_current-sealed c laws r key nonce text e)
  where
    known : needs_ratchet r.receive_ratchet_public s.send_ratchet_public ≡ false
    known =
        ap (λ k. needs_ratchet k s.send_ratchet_public) peer
        ∙ ap not (list_eq_self s.send_ratchet_public)

    same : before_chain c r s.send_ratchet_public s.previous_chain_length random ≡ ok r
    same = rw (before_chain, known)

skip_old_chain-next :
    (c : Crypto) (y : DoubleRatchetState) (previous : ℕ) (chain pk : Option Bytes)
    → y.receive_chain_key ≡ chain
    → (chain ≢ none → previous ≡ y.receive_message_number)
    → y.skipped_keys ≡ []
    → skip_old_chain c y previous chain pk ≡ ok y
unfolding skip_old_chain
skip_old_chain-next c y previous (some key) (some pk) e n empty =
    skip_messages-next c y pk key previous e (sym (n (λ z. cc))) empty
skip_old_chain-next c y previous (some key) none e n empty = refl
skip_old_chain-next c y previous none pk e n empty = refl

-- The step that a message of the party ahead makes the other take.
pub decrypt-new_chain :
    (c : Crypto) (laws : CryptoLaws c) (x y : DoubleRatchetState) (key nonce text random : Bytes)
    → Ahead c x y
    → x.send_chain_key ≡ some key
    → decrypt c y (sealed c x key nonce text) random
      ≡ ok (text, got c (ratchet c y x.send_ratchet_public random) key)
unfolding before_chain ratchet
decrypt-new_chain c laws x y key nonce text random a e =
    let stepped = ratchet c y x.send_ratchet_public random in
    let keyed : stepped.receive_chain_key ≡ some key = sym a.sending ∙ e in
    decrypt-steps c y stepped (sealed c x key nonce text) random (text, got c stepped key)
      a.y_skipped before
      (skip_messages-next c stepped x.send_ratchet_public key x.send_message_number keyed
        (sym a.unsent) a.y_skipped)
      (open_current-sealed c laws stepped key nonce text keyed)
  where
    before :
        before_chain c y x.send_ratchet_public x.previous_chain_length random
        ≡ ok (ratchet c y x.send_ratchet_public random)
    before = rw (
      before_chain,
      a.unknown,
      skip_old_chain-next c y x.previous_chain_length y.receive_chain_key y.receive_ratchet_public
          refl a.previous a.y_skipped,
    )
