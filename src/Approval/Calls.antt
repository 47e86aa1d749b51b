-- ===== src/Approval/Calls.antt =====
-- The calls of the queue, one after another.
use network_self_md.Prelude.{ℕ, List, [], ◌∷◌, Text, text_key}
use network_self_md.Prelude.Results.{Result, ok, err}
use network_self_md.Approval.{
  ApprovalQueue, add_visitor, approve, reject, block, touch, cleanup, remove,
}

-- A call of the queue. Tokens and times are what the call draws and reads.
pub data Call : Type 0 where
  adds : Text → Text → Text → ℕ → ℕ → Text → Call
  approves : Text → Text → Call
  rejects : Text → Call
  blocks : Text → Call
  touches : Text → ℕ → Call
  cleans : ℕ → Call
  removes : Text → Call

-- A call that throws has changed nothing.
abbrev pub or_kept {ℓ} : {A : Type ℓ} → A → {E : Type 0} → Result E A → A
or_kept a (ok b) = b
or_kept a (err e) = a

abbrev pub fst_of : {E : Type 0} → Result E (ApprovalQueue × Text) → Result E ApprovalQueue
fst_of (ok p) = ok p.0
fst_of (err e) = err e

unfoldable pub step : ApprovalQueue → Call → ApprovalQueue
step q (adds id message ip ws now token) = (add_visitor q id message ip ws now token).0
step q (approves id token) = or_kept q (fst_of (approve q id token))
step q (rejects id) = or_kept q (reject q id)
step q (blocks ip) = block q ip
step q (touches id now) = touch q id now
step q (cleans now) = cleanup q now
step q (removes id) = remove q id

unfoldable pub run : ApprovalQueue → List Call → ApprovalQueue
run q [] = q
run q (c ∷ cs) = run (step q c) cs
