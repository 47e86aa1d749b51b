-- ===== src/Approval/Sessions.antt =====
-- How the operations on the map change the number of pending visitors and the blocked addresses.
use network_self_md.Prelude.{
  ◌+◌, ◌≤◌, ◌≡◌, Bool, true, false, some, inl, inr, List, [], ◌∷◌, ◌++◌, arith, Text, text_key,
  lookup, insert, delete, list_eq, list_eq_iff, length, if◌then◌else◌, EachValue, EachValue-delete,
  Bool-cases,
}
use network_self_md.Approval.{
  VisitorSession, is_pending, has, pending_of, block_session, block_sessions, kept,
}

pub pending_of-insert-le :
    (k : Text) (s : VisitorSession) (m : List (Text × VisitorSession))
    → length (pending_of (insert k s m))
      ≤ length (pending_of m) + (if is_pending s.status then 1 else 0)
pending_of-insert-le k s [] = ground arith
pending_of-insert-le k s ((j, t) ∷ m) = ground (arith, pending_of-insert-le k s m)

pub pending_of-insert-same :
    (k : Text) (s t : VisitorSession) (m : List (Text × VisitorSession))
    → lookup k m ≡ some t
    → s.status ≡ t.status
    → length (pending_of (insert k s m)) ≡ length (pending_of m)
pending_of-insert-same k s t [] at e = absurd (cc at)
pending_of-insert-same k s t ((j, u) ∷ m) at e = ground (arith, pending_of-insert-same k s t m)

pub pending_of-delete-le :
    (k : Text) (m : List (Text × VisitorSession))
    → length (pending_of (delete k m)) ≤ length (pending_of m)
pending_of-delete-le k [] = omega arith
pending_of-delete-le k ((j, t) ∷ m) = ground (arith, pending_of-delete-le k m)

pub pending_of-kept-le :
    (gone : VisitorSession → Bool) (entries m : List (Text × VisitorSession))
    → length (pending_of (kept gone entries m)) ≤ length (pending_of m)
unfolding kept
pending_of-kept-le gone [] m = omega arith
pending_of-kept-le gone ((k, s) ∷ entries) m = elim (Bool-cases (gone s)) [
  | inl out ↦
      rw out (omega (arith, pending_of-kept-le gone entries (delete k m), pending_of-delete-le k m))
  | inr stays ↦ rw stays (pending_of-kept-le gone entries m)
]

pub pending_of-block_sessions-le :
    (ip : Text) (m : List (Text × VisitorSession))
    → length (pending_of (block_sessions ip m)) ≤ length (pending_of m)
unfolding block_session
pending_of-block_sessions-le ip [] = omega arith
pending_of-block_sessions-le ip ((j, t) ∷ m) = ground (arith, pending_of-block_sessions-le ip m)

pub has-append :
    (ips : List Text) (a ip : Text)
    → has (ips ++ a ∷ []) ip ≡ (if has ips ip then true else list_eq a ip)
has-append [] a ip = ground arith
has-append (b ∷ ips) a ip = ground (arith, has-append ips a ip)

pub has-blocked :
    (ips : List Text) (ip other : Text)
    → has ips other ≡ false
    → list_eq other ip ≡ false
    → has (if has ips ip then ips else ips ++ ip ∷ []) other ≡ false
has-blocked ips ip other h ne =
    ground (arith, has-append ips ip other, list_eq_iff ip other, list_eq_iff other ip)

pub EachValue-kept :
    (P : VisitorSession → Type 0) (gone : VisitorSession → Bool)
    (entries m : List (Text × VisitorSession))
    → EachValue P m
    → EachValue P (kept gone entries m)
unfolding kept
EachValue-kept P gone [] m h = h
EachValue-kept P gone ((k, s) ∷ entries) m h = elim (Bool-cases (gone s)) [
  | inl out ↦ rw out (EachValue-kept P gone entries (delete k m) (EachValue-delete P k m h))
  | inr stays ↦ rw stays (EachValue-kept P gone entries m h)
]
