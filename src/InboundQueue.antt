-- ===== src/InboundQueue.antt =====
-- `InboundEventQueue` of packages/node/src/events/inbound-queue.ts: the buffer, the subscribers and
-- the calls that `push` makes of them. A subscriber is known by a number, as the `Set` knows it by
-- reference; what it throws is rethrown in a later microtask, so a call of it is one of `calls`.
pub mod Laws
mod Examples
use network_self_md.Prelude.{
  ℕ, ◌-◌, List, [], ◌∷◌, ◌++◌, Option, none, some, Bool, true, false, length, drop, take, ltb, leb,
  ◌==◌, any, filter, not, map, if◌then◌else◌,
}
use network_self_md.Policy.Types.{Event}

pub record InboundQueue : Type 0 where
  pub buf : List Event
  pub handlers : List ℕ
  pub max_events : ℕ
  -- Which handler was called with which event, in order.
  pub calls : List (ℕ × Event)

abbrev pub get_or_1000 : Option ℕ → ℕ
get_or_1000 none = 1000
get_or_1000 (some n) = n

unfoldable pub new : Option ℕ → InboundQueue
new limit = record { buf = []; handlers = []; max_events = get_or_1000 limit; calls = [] }

unfoldable pub push : InboundQueue → Event → InboundQueue
push q ev =
    let grown = q.buf ++ ev ∷ [] in
    let calls = q.calls ++ map (λ h. (h, ev)) q.handlers in
    if ltb q.max_events (length grown)
    then record q { buf = drop (length grown - q.max_events) grown; calls = calls }
    else record q { buf = grown; calls = calls }

unfoldable pub drain : InboundQueue → Option ℕ → InboundQueue × List Event
drain q none = (record q { buf = [] }, q.buf)
drain q (some n) =
    if leb (length q.buf) n
    then (record q { buf = [] }, q.buf)
    else (record q { buf = drop n q.buf }, take n q.buf)

unfoldable pub peek : InboundQueue → Option ℕ → List Event
peek q none = q.buf
peek q (some n) = take n q.buf

unfoldable pub size : InboundQueue → ℕ
size q = length q.buf

-- `Set.add` and `Set.delete`: `on`, and the function that it returns.
unfoldable pub on : InboundQueue → ℕ → InboundQueue
on q h = if any (λ k. k == h) q.handlers then q else record q { handlers = q.handlers ++ h ∷ [] }

unfoldable pub off : InboundQueue → ℕ → InboundQueue
off q h = record q { handlers = filter (λ k. not (k == h)) q.handlers }
