-- ===== src/Queue.antt =====
-- src/minion/queue.py: `InMemoryWorkQueue`. An item that is taken leaves the queue, so `ack` has
-- nothing to do; Redis Streams are a service.
use software_engineering_age.Prelude.{String, Option, none, some, List, [], ◌∷◌, ◌++◌}
use software_engineering_age.Effects.{Action, ok, pure, modify, ◌>>=◌}
use software_engineering_age.Models.{WorkItem, World, uuid}

unfoldable pub put : String → Action World Unit
unfolding uuid
put task_id = do
  receipt ← uuid
  modify (λ w. record w { queue = w.queue ++ record { task_id = task_id; receipt = receipt } ∷ [] })

abbrev pub taken : List WorkItem → World → Option WorkItem × World
taken [] w = (none, w)
taken (item ∷ rest) w = (some item, record w { queue = rest })

-- `get`; `none` where the caller waits
unfoldable pub get : Action World (Option WorkItem)
get w = let (item, w') = taken w.queue w in (ok item, w')

unfoldable pub ack : WorkItem → Action World Unit
ack item = pure tt
