-- ===== src/DirectRatchet/Guarded.antt =====
-- The receiver that a session keeps for the other peer's chain can only receive.
use network_self_md.Prelude.{
  ℕ, ◌≡◌, refl, Bool, true, false, ◌&&◌, Option, none, some, List, [], ◌∷◌, Bytes, Text, length,
  leb, leb→le, ltb, ◌==◌, inl, inr, Bool-cases, Option-cases, if◌then◌else◌, subst,
}
use network_self_md.Prelude.Results.{Result, ok, err, require-passed, bind-passed, or_throw-passed}
use network_self_md.Bytes.{text_lt}
use network_self_md.Crypto.{Crypto}
use network_self_md.DoubleRatchet.{DoubleRatchetState, Error, Message, decrypt}
use network_self_md.DoubleRatchet.Bounded.{IsBounded, Ensures, decrypt-Ensures}
use network_self_md.GroupState.{zeros}
use network_self_md.DirectRatchet.{
  InitialReceiver, DirectRatchetSession, DirectError, is_spent, prune_direct_ratchet_session,
  receive_only, lift_ratchet, may_open, state_or, open_initial, or_initial, decrypt_direct_ratchet,
  Arrived, session_after, decrypt_each,
}

-- Nothing that sends: no chain, and no key of its own.
pub record IsReceiveOnly (s : DoubleRatchetState) : Type 0 where
  pub no_chain : s.send_chain_key ≡ none
  pub no_root : s.root_key ≡ zeros 32
  pub no_private : s.send_ratchet_private ≡ zeros 32
  pub no_public : s.send_ratchet_public ≡ zeros 32
  pub bounded : IsBounded s

abbrev pub Holds : (DoubleRatchetState → Type 0) → Option DoubleRatchetState → Type 0
Holds P none = Unit {0}
Holds P (some s) = P s

abbrev pub HoldsReceiver : Option InitialReceiver → Type 0
HoldsReceiver none = Unit {0}
HoldsReceiver (some r) = Holds IsReceiveOnly r.state

pub record IsGuarded (s : DirectRatchetSession) : Type 0 where
  pub bounded : IsBounded s.active
  pub receiver : HoldsReceiver s.initial_receiver

abbrev GuardedResult : Result DirectError (Bytes × DirectRatchetSession) → Type 0
GuardedResult (ok r) = IsGuarded r.1
GuardedResult (err e) = Unit {0}

prune-IsGuarded :
    (s : DirectRatchetSession) (now : ℕ)
    → IsGuarded s
    → IsGuarded (prune_direct_ratchet_session s now)
unfolding prune_direct_ratchet_session
prune-IsGuarded s now h = elim (Option-cases s.initial_receiver) [
  | inl e ↦ rw (prune_direct_ratchet_session, e) h
  | inr (r, e) ↦ elim (Bool-cases (is_spent s r now)) [
    | inl spent ↦
        rw (prune_direct_ratchet_session, e, spent) (record { bounded = h.bounded; receiver = tt })
    | inr kept ↦ rw (prune_direct_ratchet_session, e, kept) h
  ]
]

chosen-IsGuarded :
    (s : DirectRatchetSession) (candidate : InitialReceiver) (next : DoubleRatchetState) (b : Bool)
    → IsGuarded s
    → IsBounded next
    → IsGuarded (
        if b
        then record s {
          bootstrap_pending = false;
          initial_receiver = some (record candidate { state = some (receive_only next) });
        }
        else record { active = next; bootstrap_pending = false; initial_receiver = none })
chosen-IsGuarded s candidate next true guarded bounded = record {
  bounded = guarded.bounded;
  receiver = record {
    no_chain = refl;
    no_root = refl;
    no_private = refl;
    no_public = refl;
    bounded = bounded;
  };
}
chosen-IsGuarded s candidate next false guarded bounded = record {
  bounded = bounded;
  receiver = tt;
}

open_initial-IsGuarded :
    (c : Crypto) (s : DirectRatchetSession) (m : Message) (own peer : Text)
    (created : DoubleRatchetState) (now : ℕ) (random : Bytes) (reason : Error) (plaintext : Bytes)
    (next : DirectRatchetSession)
    → IsGuarded s
    → open_initial c s m own peer created now random reason ≡ ok (plaintext, next)
    → IsGuarded next
unfolding open_initial
open_initial-IsGuarded c s m own peer created now random reason plaintext next guarded h =
    let end : Bytes × DirectRatchetSession = (plaintext, next) in
    let (candidate, (there, h1)) = or_throw-passed s.initial_receiver _ _ end h in
    let (live, h2) =
      require-passed (ltb now candidate.expires_at && m.previous_chain_length == 0) _ _ end h1 in
    let (fits, h3) = require-passed (may_open candidate.state m.ratchet_public_key) _ _ end h2 in
    let (read, (opens, h4)) =
      bind-passed (lift_ratchet (decrypt c (state_or candidate.state created) m random)) _ end h3 in
    let (few, h5) = require-passed (leb (length read.1.skipped_keys) 256) _ _ end h4 in
    subst GuardedResult h5 (
      chosen-IsGuarded s candidate read.1 (text_lt own peer) guarded
        (leb→le (length read.1.skipped_keys) 256 few))

decrypt_direct_ratchet-IsGuarded :
    (c : Crypto) (s : DirectRatchetSession) (m : Message) (own peer : Text)
    (created : DoubleRatchetState) (now : ℕ) (random again : Bytes)
    → IsGuarded s
    → IsGuarded (session_after s (decrypt_direct_ratchet c s m own peer created now random again))
unfolding decrypt_direct_ratchet
decrypt_direct_ratchet-IsGuarded c s m own peer created now random again guarded =
    let pruned = prune_direct_ratchet_session s now in
    let kept = prune-IsGuarded s now guarded in
    after pruned kept (decrypt c pruned.active m random)
      (decrypt-Ensures c pruned.active m random kept.bounded)
  where
    opened :
        (w : DirectRatchetSession)
        → IsGuarded w
        → (e : Error) (r : Result DirectError (Bytes × DirectRatchetSession))
        → open_initial c w m own peer created now again e ≡ r
        → IsGuarded (session_after s r)
    opened w kept e (ok (plaintext, next)) is =
        open_initial-IsGuarded c w m own peer created now again e plaintext next kept is
    opened w kept e (err x) is = guarded

    after :
        (w : DirectRatchetSession)
        → IsGuarded w
        → (r : Result Error (Bytes × DoubleRatchetState)) → Ensures (λ x. IsBounded x.1) r
        → IsGuarded (
            session_after s
              (or_initial w (text_lt peer own) (open_initial c w m own peer created now again) r))
    after w kept (err e) bounded =
        opened w kept e (open_initial c w m own peer created now again e) refl
    after w kept (ok (plaintext, next)) bounded = elim (Bool-cases (text_lt peer own)) [
      | inl closes ↦ rw closes (record { bounded = bounded; receiver = tt })
      | inr open_still ↦ rw open_still (record { bounded = bounded; receiver = kept.receiver })
    ]

-- Whatever direct messages arrive, at whatever times: a session starts with at most 256 skipped keys
-- and with no receiver for the other peer's chain, or one that can only receive. Then it has at most
-- 256 skipped keys ever after. A receiver that it keeps has no sending chain, zeros in place of its
-- root key and its own ratchet keys, and at most 256 skipped keys.
pub decrypt_each-IsGuarded :
    (c : Crypto) (own peer : Text) (arrived : List Arrived) (s : DirectRatchetSession)
    → IsGuarded s
    → IsGuarded (decrypt_each c own peer arrived s)
unfolding decrypt_each
decrypt_each-IsGuarded c own peer [] s h = h
decrypt_each-IsGuarded c own peer (a ∷ rest) s h =
    decrypt_each-IsGuarded c own peer rest _
      (decrypt_direct_ratchet-IsGuarded c s a.message own peer a.created a.now a.random a.again h)
