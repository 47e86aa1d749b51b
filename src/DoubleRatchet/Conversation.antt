-- ===== src/DoubleRatchet/Conversation.antt =====
-- Two parties of a session whose messages are received as they are sent.

use network_self_md.Prelude.{
  ◌+◌, ◌≡◌, ◌≢◌, refl, sym, ap, ◌∙◌, inl, inr, not, some, Bytes, text_key,
}
use network_self_md.Prelude.Results.{Result, ok, ◌>>=◌}
use network_self_md.Crypto.{Crypto, CryptoLaws}
use network_self_md.DoubleRatchet.{
  DoubleRatchetState, Error, dh_ratchet_step, init_sender, init_receiver, encrypt, decrypt, ratchet,
  needs_ratchet,
}
use network_self_md.DoubleRatchet.Sync.{
  Ahead, InSync, sent, got, sealed, encrypt-sealed, list_eq_ne, decrypt-same_chain,
  decrypt-new_chain,
}

-- A message is encrypted by the one and decrypted by the other, who may draw a ratchet key for it.
pub exchange :
    Crypto
    → DoubleRatchetState
    → DoubleRatchetState
    → Bytes
    → Bytes
    → Bytes
    → Result Error (Bytes × (DoubleRatchetState × DoubleRatchetState))
exchange c s r nonce text random = do
  (message, s') ← encrypt c s nonce text
  (plain, r') ← decrypt c r message random
  ok (plain, (s', r'))

-- A sender that starts from the public key of a receiver, with the same secret, is ahead of it, so
-- that the two are in sync.
pub init-Ahead :
    (c : Crypto) (laws : CryptoLaws c) (random secret private : Bytes)
    → Ahead c
        (init_sender c random secret (c.x25519_public private))
        (init_receiver secret private (c.x25519_public private))
unfolding init_sender init_receiver needs_ratchet
init-Ahead c laws random secret private =
    let same = laws.shared_comm random private in
    record {
      unknown = refl;
      root = ap (λ k. (dh_ratchet_step c secret k).0) same;
      sending = ap (λ k. some (dh_ratchet_step c secret k).1) same;
      unsent = refl;
      previous = λ h. absurd (h refl);
      peer = refl;
      receiving = refl;
      received = refl;
      x_key = refl;
      y_key = refl;
      x_skipped = refl;
      y_skipped = refl;
    }

module _ (c : Crypto) (laws : CryptoLaws c) (s r : DoubleRatchetState)
    (key nonce text random : Bytes) (e : s.send_chain_key ≡ some key) where
  exchange-got :
      (r' : DoubleRatchetState)
      → decrypt c r (sealed c s key nonce text) random ≡ ok (text, r')
      → exchange c s r nonce text random ≡ ok (text, (sent c s key, r'))
  unfolding exchange
  exchange-got r' h = rw (encrypt-sealed c s key nonce text e, h)

  -- The party behind has sent one more message on its chain.
  Ahead-sent : Ahead c r s → Ahead c (got c r key) (sent c s key)
  Ahead-sent a = record {
    unknown = a.unknown;
    root = a.root;
    sending = a.sending;
    unsent = a.unsent;
    previous = a.previous;
    peer = a.peer;
    receiving = refl;
    received = ap (λ n. n + 1) a.received;
    x_key = a.x_key;
    y_key = a.y_key;
    x_skipped = a.x_skipped;
    y_skipped = a.y_skipped;
  }

  -- The other party has made a step, and is ahead.
  Ahead-stepped :
      Ahead c s r
      → c.x25519_public random ≢ r.send_ratchet_public
      → Ahead c (got c (ratchet c r s.send_ratchet_public random) key) (sent c s key)
  unfolding ratchet needs_ratchet
  Ahead-stepped a fresh = record {
    unknown =
        ap (λ k. needs_ratchet k (c.x25519_public random)) a.peer
        ∙ ap not (list_eq_ne (c.x25519_public random) r.send_ratchet_public fresh);
    root = stepped (λ q. q.0);
    sending = stepped (λ q. some q.1);
    unsent = refl;
    previous = λ h. sym a.received;
    peer = refl;
    receiving = refl;
    received = ap (λ n. n + 1) (sym a.unsent);
    x_key = refl;
    y_key = a.x_key;
    x_skipped = a.y_skipped;
    y_skipped = a.x_skipped;
  }
    where
      agree :
          c.x25519_shared random s.send_ratchet_public
          ≡ c.x25519_shared s.send_ratchet_private (c.x25519_public random)
      agree = ap (c.x25519_shared random) a.x_key ∙ laws.shared_comm random s.send_ratchet_private

      stepped :
          {B : Type 0} (f : Bytes × Bytes → B)
          → f (
              dh_ratchet_step c
                (dh_ratchet_step c r.root_key
                  (c.x25519_shared r.send_ratchet_private s.send_ratchet_public)).0
                (c.x25519_shared random s.send_ratchet_public))
            ≡ f (
                dh_ratchet_step c s.root_key
                  (c.x25519_shared s.send_ratchet_private (c.x25519_public random)))
      stepped f =
          ap (λ root. f (dh_ratchet_step c root (c.x25519_shared random s.send_ratchet_public)))
            (sym a.root)
          ∙ ap (λ secret. f (dh_ratchet_step c s.root_key secret)) agree

-- Of two parties in sync, one with a sending chain encrypts any text; the other decrypts it to that
-- text, and they are in sync again, where the ratchet key that the other may draw has not the public
-- key that it had. So they stay in sync for messages in either direction.
pub exchange-InSync :
    (c : Crypto) (laws : CryptoLaws c) (s r : DoubleRatchetState) (key nonce text random : Bytes)
    → InSync c s r
    → s.send_chain_key ≡ some key
    → c.x25519_public random ≢ r.send_ratchet_public
    → (s' : DoubleRatchetState) × ((r' : DoubleRatchetState) × ((exchange c s r nonce text random
            ≡ ok (text, (s', r')))
          × InSync c s' r'))
exchange-InSync c laws s r key nonce text random (inl a) e fresh = (
  _,
  (
    _,
    (
      exchange-got c laws s r key nonce text random e _
          (decrypt-new_chain c laws s r key nonce text random a e),
      inr (Ahead-stepped c laws s r key nonce text random e a fresh),
    ),
  ),
)
exchange-InSync c laws s r key nonce text random (inr a) e fresh = (
  _,
  (
    _,
    (
      exchange-got c laws s r key nonce text random e _ (
          decrypt-same_chain c laws r s key nonce text random a.peer (a.receiving ∙ e) a.received
            a.x_skipped),
      inr (Ahead-sent c laws s r key nonce text random e a),
    ),
  ),
)
