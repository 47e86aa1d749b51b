-- ===== src/Policy/Audit/Ring.antt =====
-- The audit ring holds the last entries pushed, in order, and never more than its limit.
use mathlib.Core.List.{append_assoc, append-nil}
use network_self_md.Prelude.{
  ℕ, ◌≤◌, ◌<◌, ◌≡◌, refl, sym, ap, ◌∙◌, List, [], ◌∷◌, ◌++◌, Option, none, some, arith, length, ltb,
  Bool-cases, inl, inr, last, last-all, last-last-append, length-last-le, leb,
}
use network_self_md.Policy.Types.{Entry}
use network_self_md.Policy.Audit.{AuditLog, new, push, recent, size}

pub push_all : AuditLog → List Entry → AuditLog
push_all log [] = log
push_all log (e ∷ es) = push_all (push log e) es

pub push-last :
    (log : AuditLog) (e : Entry) → (push log e).buf ≡ last log.max_entries (log.buf ++ e ∷ [])
unfolding push
push-last log e = elim (Bool-cases (ltb log.max_entries (length (log.buf ++ e ∷ [])))) [
  | inl full ↦ rw full
  | inr room ↦ rw room (sym (last-all log.max_entries (log.buf ++ e ∷ []) (ground arith)))
]

pub push-max : (log : AuditLog) (e : Entry) → (push log e).max_entries ≡ log.max_entries
unfolding push
push-max log e = ground arith

push_all-last :
    (log : AuditLog) (es : List Entry)
    → length log.buf ≤ log.max_entries
    → ((push_all log es).buf ≡ last log.max_entries (log.buf ++ es))
      × ((push_all log es).max_entries ≡ log.max_entries)
unfolding push_all
push_all-last log [] h = (rw append-nil (sym (last-all _ log.buf h)), refl)
push_all-last log (e ∷ es) h =
    let small : length (push log e).buf ≤ (push log e).max_entries =
      rw (push-max log e, push-last log e) (length-last-le log.max_entries (log.buf ++ e ∷ [])) in
    let (buf, limit) = push_all-last (push log e) es small in
    (
      buf
          ∙ rw (push-max log e, push-last log e)
              (last-last-append log.max_entries (log.buf ++ e ∷ []) es
                ∙ ap (last log.max_entries) (append_assoc log.buf (e ∷ []) es)),
      limit ∙ push-max log e,
    )

recent-last : (log : AuditLog) (n : ℕ) → recent log (some n) ≡ last n log.buf
unfolding recent
recent-last log n = elim (Bool-cases (leb (length log.buf) n)) [
  | inl all ↦ rw all (sym (last-all n log.buf (ground arith)))
  | inr part ↦ rw part
]

-- After any entries, `recent n` gives the last `n` of those that the ring still has, and the ring
-- has the last of all those pushed, up to its limit, which is at least one.
pub recent-push_all :
    (limit : Option ℕ) (es : List Entry)
    → let log = push_all (new limit) es in
      (recent log none ≡ last (new limit).max_entries es)
      × (size log ≤ (new limit).max_entries)
      × (0 < (new limit).max_entries)
      × ((n : ℕ) → recent log (some n) ≡ last n (last (new limit).max_entries es))
unfolding recent size
recent-push_all limit es =
    (kept, rw kept (length-last-le (new limit).max_entries es), unfold new in omega arith, shown)
  where
    kept : (push_all (new limit) es).buf ≡ last (new limit).max_entries es
    kept = (push_all-last (new limit) es (unfold new in omega arith)).0 ∙ (unfold new in refl)

    shown :
        (n : ℕ)
        → recent (push_all (new limit) es) (some n) ≡ last n (last (new limit).max_entries es)
    shown n = recent-last (push_all (new limit) es) n ∙ ap (last n) kept
