-- ===== src/Events.antt =====
-- src/minion/events.py: the durable event log with its per-task numbers, and the live bus.
pub mod Log
pub mod Live
pub mod Replay
use software_engineering_age.Prelude.{
  ℕ, suc, ◌+◌, String, Bool, ◌&&◌, true, false, Option, none, some, List, [], ◌∷◌, ◌++◌, map, ◌==◌,
  ltb, leb, eqb, length, take, select, any_of, if◌then◌else◌,
}
use software_engineering_age.Domain.{EventType, Payload, AgentEvent}
use software_engineering_age.Effects.{
  Action, ok, err, external, key_error, pure, raise, lift, gets, modify, ◌>>=◌, ◌>>◌,
}
use software_engineering_age.Table.{find, update_where}
use software_engineering_age.Models.{SessionRow, EventRow, Subscriber, EventBus, World, new_id}
use software_engineering_age.Repositories.Tasks.{session_key, or_key_error}

-- `asyncio.Queue(maxsize=256)`
abbrev pub queue_size : ℕ
queue_size = 256

-- `put_nowait`, whose QueueFull is passed over
abbrev pub offer : AgentEvent → Subscriber → Subscriber
offer event s =
    if s.topic == event.task_id && ltb (length s.waiting) queue_size
    then record s { waiting = s.waiting ++ event ∷ [] }
    else s

unfoldable pub publish : AgentEvent → EventBus → EventBus
publish event bus =
    if bus.redis
    then record bus { channel = bus.channel ++ event ∷ [] }
    else record bus { subscribers = map (offer event) bus.subscribers }

unfoldable pub publish_live : AgentEvent → Action World Unit
unfolding publish
publish_live event = modify (λ w. record w { bus = publish event w.bus })

-- The local half of `subscribe` up to its loop: a new empty queue for the task.
unfoldable pub subscribe : String → Action World Unit
subscribe task_id = modify (λ w. record w {
  bus = record w.bus {
    subscribers = w.bus.subscribers ++ record { topic = task_id; waiting = [] } ∷ [];
  };
})

-- The unique index on (task_id, sequence).
abbrev pub is_numbered : String → ℕ → EventRow → Bool
is_numbered task_id sequence row = row.task_id == task_id && eqb row.sequence sequence

-- The row, the session's counter, and the commit of both; the index refuses a number twice.
unfoldable pub record_event : EventRow → Action World Unit
record_event row w =
    if any_of (is_numbered row.task_id row.sequence) w.events
    then (err (external "IntegrityError"), w)
    else (
      ok tt,
      record w {
        events = w.events ++ row ∷ [];
        sessions =
            update_where (λ s. s.id == row.session_id)
              (λ s. record s { last_event_sequence = row.sequence; updated_at = w.now }) w.sessions;
      },
    )

abbrev pub event_of : EventRow → AgentEvent
event_of row = record {
  id = row.id;
  task_id = row.task_id;
  session_id = row.session_id;
  sequence = row.sequence;
  type = row.type;
  payload = row.payload;
  created_at = row.created_at;
}

abbrev pub next_row : String → String → String → EventType → Payload → ℕ → SessionRow → EventRow
next_row id task_id session_id type payload now session = record {
  id = id;
  task_id = task_id;
  session_id = session_id;
  sequence = session.last_event_sequence + 1;
  type = type;
  payload = payload;
  created_at = now;
}

unfoldable pub append : String → String → EventType → Payload → Action World AgentEvent
unfolding record_event publish_live
append task_id session_id type payload = do
  found ← gets (λ w. find session_key session_id w.sessions)
  session ← lift (or_key_error session_id found)
  id ← new_id "evt"
  now ← gets (λ w. w.now)
  let row = next_row id task_id session_id type payload now session
  record_event row
  publish_live (event_of row)
  pure (event_of row)

-- `ORDER BY sequence`
unfoldable pub insert_ordered : EventRow → List EventRow → List EventRow
insert_ordered row [] = row ∷ []
insert_ordered row (r ∷ rows) =
    let rest = insert_ordered row rows in
    if leb row.sequence r.sequence then row ∷ r ∷ rows else r ∷ rest

unfoldable pub order_by_sequence : List EventRow → List EventRow
unfolding insert_ordered
order_by_sequence [] = []
order_by_sequence (r ∷ rows) = insert_ordered r (order_by_sequence rows)

abbrev pub is_after : String → ℕ → EventRow → Bool
is_after task_id sequence row = row.task_id == task_id && ltb sequence row.sequence

unfoldable pub list_after : String → ℕ → ℕ → Action World (List AgentEvent)
unfolding order_by_sequence
list_after task_id sequence limit w = (
  ok (map event_of (take limit (order_by_sequence (select (is_after task_id sequence) w.events)))),
  w,
)
