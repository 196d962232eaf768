-- ===== src/Events/Live.antt =====
-- The live bus: what a publication does to the queues of its subscribers.
use software_engineering_age.Prelude.{
  ◌≤◌, Bool, true, false, List, [], ◌∷◌, ◌++◌, map, arith, length, length-append, All,
  if◌then◌else◌,
}
use software_engineering_age.Domain.{AgentEvent}
use software_engineering_age.Models.{Subscriber, EventBus}
use software_engineering_age.Events.{queue_size, offer, publish}

abbrev pub IsBounded : Subscriber → Type 0
IsBounded s = length s.waiting ≤ queue_size

offers :
    (event : AgentEvent) (subs : List Subscriber)
    → All IsBounded subs
    → All IsBounded (map (offer event) subs)
offers event [] h = tt
offers event (s ∷ subs) h =
    (ground (arith, h.0, length-append s.waiting (event ∷ [])), offers event subs h.1)

-- If every local queue holds at most its 256 events, each does so after a publication.
pub publish-IsBounded :
    (event : AgentEvent) (bus : EventBus)
    → All IsBounded bus.subscribers
    → All IsBounded (publish event bus).subscribers
unfolding publish
publish-IsBounded event bus h = by_transport bus.redis
  where
    by_transport :
        (b : Bool)
        → All IsBounded
            (if b
              then record bus { channel = bus.channel ++ event ∷ [] }
              else record bus { subscribers = map (offer event) bus.subscribers }).subscribers
    by_transport true = h
    by_transport false = offers event bus.subscribers h
