-- ===== src/InboundQueue/Laws.antt =====
-- What a reader of the queue gets: the events pushed, in order, without the oldest ones past the
-- limit.
use mathlib.Core.List.{append_assoc, append-nil}
use network_self_md.Prelude.{
  ℕ, ◌+◌, ◌≤◌, ◌≡◌, refl, sym, ap, ◌∙◌, List, [], ◌∷◌, ◌++◌, Option, none, some, arith, length,
  take-append-drop, length-append, ltb, leb, Bool-cases, inl, inr, last, last-all, map,
}
use network_self_md.Policy.Types.{Event}
use network_self_md.InboundQueue.{InboundQueue, push, drain}

pub push-last :
    (q : InboundQueue) (ev : Event) → (push q ev).buf ≡ last q.max_events (q.buf ++ ev ∷ [])
unfolding push
push-last q ev = elim (Bool-cases (ltb q.max_events (length (q.buf ++ ev ∷ [])))) [
  | inl full ↦ rw full
  | inr room ↦ rw room (sym (last-all q.max_events (q.buf ++ ev ∷ []) (ground arith)))
]

pub push-max : (q : InboundQueue) (ev : Event) → (push q ev).max_events ≡ q.max_events
unfolding push
push-max q ev = ground arith

-- A push calls each subscriber once with the event, in the order of subscription, and changes
-- neither the subscribers nor the limit.
pub push-calls :
    (q : InboundQueue) (ev : Event)
    → ((push q ev).calls ≡ q.calls ++ map (λ h. (h, ev)) q.handlers)
      × ((push q ev).handlers ≡ q.handlers)
unfolding push
push-calls q ev = ground arith

-- A call of the queue by its owner or by a poller.
pub data QueueCall : Type 0 where
  pushes : Event → QueueCall
  drains : Option ℕ → QueueCall

-- The queue, and all that pollers were given so far, after the calls in turn.
unfoldable pub run : InboundQueue → List Event → List QueueCall → InboundQueue × List Event
run q out [] = (q, out)
run q out (pushes ev ∷ cs) = run (push q ev) out cs
run q out (drains n ∷ cs) = run (drain q n).0 (out ++ (drain q n).1) cs

abbrev pub pushed : List QueueCall → List Event
pushed [] = []
pushed (pushes ev ∷ cs) = ev ∷ pushed cs
pushed (drains n ∷ cs) = pushed cs

drain-split : (q : InboundQueue) (n : Option ℕ) → (drain q n).1 ++ (drain q n).0.buf ≡ q.buf
unfolding drain
drain-split q none = append-nil q.buf
drain-split q (some n) = elim (Bool-cases (leb (length q.buf) n)) [
  | inl all ↦ rw all (append-nil q.buf)
  | inr part ↦ rw part (take-append-drop n q.buf)
]

drain-max : (q : InboundQueue) (n : Option ℕ) → (drain q n).0.max_events ≡ q.max_events
unfolding drain
drain-max q none = refl
drain-max q (some n) = ground arith

push-roomy :
    (q : InboundQueue) (ev : Event)
    → length q.buf + 1 ≤ q.max_events
    → (push q ev).buf ≡ q.buf ++ ev ∷ []
push-roomy q ev h =
    push-last q ev
    ∙ last-all q.max_events (q.buf ++ ev ∷ []) (omega (arith, length-append q.buf (ev ∷ [])))

-- No event is lost, repeated or reordered while the calls push no more than the queue has room for:
-- what the pollers got, followed by what is left, is what was there, followed by what was pushed.
pub run-fifo :
    (q : InboundQueue) (out : List Event) (cs : List QueueCall)
    → length q.buf + length (pushed cs) ≤ q.max_events
    → (run q out cs).1 ++ (run q out cs).0.buf ≡ out ++ q.buf ++ pushed cs
unfolding run
run-fifo q out [] h = sym (append-nil (out ++ q.buf))
run-fifo q out (pushes ev ∷ cs) h =
    let grown = push-roomy q ev (omega arith) in
    run-fifo (push q ev) out cs
      (rw (grown, push-max q ev) (omega (arith, length-append q.buf (ev ∷ []))))
    ∙ rw grown (simp append_assoc)
run-fifo q out (drains n ∷ cs) h =
    let split = drain-split q n in
    let shorter : length (drain q n).0.buf ≤ length q.buf =
      omega (arith, ap length split, length-append (drain q n).1 (drain q n).0.buf) in
    run-fifo (drain q n).0 (out ++ (drain q n).1) cs (rw (drain-max q n) (omega arith))
    ∙ ap (λ l. l ++ pushed cs) (append_assoc out (drain q n).1 _ ∙ ap (◌++◌ out) split)
