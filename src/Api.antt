-- ===== src/Api.antt =====
-- src/minion/api.py: the event stream of the WebSocket endpoint and the HTTP endpoints over the
-- orchestrator.
pub mod Stream
use software_engineering_age.Prelude.{
  ℕ, max, String, Bool, true, false, Option, none, some, List, [], ◌∷◌, ◌++◌, leb, is_empty,
  if◌then◌else◌,
}
use software_engineering_age.Domain.{RepositorySpec, TaskCreate, TaskView, AgentEvent}
use software_engineering_age.Effects.{Exn, Result, ok, err, key_error, Action, pure, raise, ◌>>=◌}
use software_engineering_age.Models.{World}
use software_engineering_age.Repositories.Tasks
use software_engineering_age.Events
use software_engineering_age.Orchestrator.{Settings, submit, send_instruction, retry, cancel}

-- `last` after the replay has been sent
unfoldable pub last_sent : ℕ → List AgentEvent → ℕ
last_sent last [] = last
last_sent last (event ∷ rest) = last_sent (max last event.sequence) rest

-- the events that the live loop sends, of those that the bus delivers
unfoldable pub forward : ℕ → List AgentEvent → List AgentEvent
forward last [] = []
forward last (event ∷ rest) = elim (leb event.sequence last) [
  | true ↦ forward last rest
  | false ↦ event ∷ forward event.sequence rest
]

-- All that `task_events` sends: the replay, then what is new of the live events.
unfoldable pub task_events : ℕ → List AgentEvent → List AgentEvent → List AgentEvent
unfolding last_sent forward
task_events after replay live = replay ++ forward (last_sent after replay) live

-- An endpoint's answer: its body, HTTP 404, or any other exception, which is HTTP 500.
pub data Response (A : Type 0) : Type 0 where
  answer : A → Response A
  not_found : Response A
  failure : Exn → Response A

abbrev pub from_result : {A : Type 0} → Result A → Response A
from_result (ok a) = answer a
from_result (err (key_error k)) = not_found
from_result (err e) = failure e

-- `get_task` tests for a missing task itself
abbrev pub from_found : {A : Type 0} → Result (Option A) → Response A
from_found (ok none) = not_found
from_found (ok (some a)) = answer a
from_found (err e) = failure e

abbrev pub with_default : RepositorySpec → TaskCreate → TaskCreate
with_default fallback request = record request {
  repositories = if is_empty request.repositories then fallback ∷ [] else request.repositories;
}

abbrev respond : {A : Type 0} → Result A × World → (Result A → Response A) → Response A × World
respond (r, w) f = (f r, w)

-- `create_task`: its exceptions are not turned into a response of their own
abbrev uncaught : {A : Type 0} → Result A → Response A
uncaught (ok a) = answer a
uncaught (err e) = failure e

unfoldable pub create_task :
    Settings → RepositorySpec → TaskCreate → World → Response TaskView × World
create_task settings fallback request w =
    respond (submit settings (with_default fallback request) w) uncaught

unfoldable pub get_task : String → World → Response TaskView × World
get_task task_id w = let (r, w') = Tasks.get task_id w in (from_found r, w')

unfoldable pub send_message : String → String → World → Response Unit × World
send_message task_id message w = respond (send_instruction task_id message w) from_result

unfoldable pub retry_task : String → World → Response TaskView × World
retry_task task_id w = respond (retry task_id w) from_result

unfoldable pub cancel_task : String → World → Response TaskView × World
cancel_task task_id w = respond (cancel task_id w) from_result

abbrev listed : Option TaskView → String → ℕ → Action World (Option (List AgentEvent))
listed none task_id after = pure none
listed (some task) task_id after = do
  events ← Events.list_after task_id after 500
  pure (some events)

unfoldable pub list_events : String → ℕ → World → Response (List AgentEvent) × World
list_events task_id after w =
    let (r, w') = (Tasks.get task_id >>= λ found. listed found task_id after) w in
    (from_found r, w')
