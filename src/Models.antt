-- ===== src/Models.antt =====
-- src/minion/models.py: the rows of the four tables, and the state that the parts of the program
-- share: the tables, the clock and the random identifiers, the live event bus, the work queue and
-- what the orchestrator keeps in memory.
use software_engineering_age.Prelude.{ℕ, suc, ◌<>◌, String, Bool, Option, List}
use software_engineering_age.Domain.{
  TaskStatus, EnvironmentStatus, EventType, RepositorySpec, Payload, AgentEvent,
}
use software_engineering_age.Effects.{Action, ok}

pub record TaskRow : Type 0 where
  pub id : String
  pub session_id : String
  pub environment_id : Option String
  pub user_id : String
  pub instruction : String
  pub status : TaskStatus
  pub repositories : List RepositorySpec
  pub publish_pr : Bool
  pub version : ℕ
  pub error : Option String
  pub result : Option Payload
  pub created_at : ℕ
  pub updated_at : ℕ

pub record SessionRow : Type 0 where
  pub id : String
  pub task_id : String
  pub summary : String
  pub current_plan : List String
  pub active_constraints : List String
  pub active_skills : List String
  pub last_event_sequence : ℕ
  pub created_at : ℕ
  pub updated_at : ℕ

pub record EventRow : Type 0 where
  pub id : String
  pub task_id : String
  pub session_id : String
  pub sequence : ℕ
  pub type : EventType
  pub payload : Payload
  pub created_at : ℕ

pub record EnvironmentLeaseRow : Type 0 where
  pub id : String
  pub task_id : Option String
  pub provider : String
  pub status : EnvironmentStatus
  pub workspace_path : String
  pub metadata : Payload
  pub last_heartbeat_at : ℕ
  pub created_at : ℕ
  pub updated_at : ℕ

-- A live subscription of `EventBus`: its task and the events that wait in its queue.
pub record Subscriber : Type 0 where
  pub topic : String
  pub waiting : List AgentEvent

-- `EventBus`: with Redis every event goes to its channel, otherwise to the local subscribers.
pub record EventBus : Type 0 where
  pub redis : Bool
  pub channel : List AgentEvent
  pub subscribers : List Subscriber

-- queue.py
pub record WorkItem : Type 0 where
  pub task_id : String
  pub receipt : String

-- metrics.py
pub record Metrics : Type 0 where
  pub submitted : ℕ
  pub completed : ℕ
  pub failed : ℕ
  pub running : ℕ
  pub allocations : ℕ

pub record World : Type 0 where
  pub tasks : List TaskRow
  pub sessions : List SessionRow
  pub events : List EventRow
  pub leases : List EnvironmentLeaseRow
  pub now : ℕ  -- what `utcnow()` reads
  pub uuid4 : ℕ → String  -- the random identifiers, in the order in which they are drawn
  pub drawn : ℕ
  pub bus : EventBus
  pub queue : List WorkItem
  pub running : List String  -- the keys of `Orchestrator._running`
  pub cancel_requested : List String  -- the executions that `Task.cancel()` was called on
  pub stopping : Bool
  pub metrics : Metrics

-- `uuid4().hex`
unfoldable pub uuid : Action World String
uuid w = (ok (w.uuid4 w.drawn), record w { drawn = suc w.drawn })

-- `new_id(prefix)` of domain.py
unfoldable pub new_id : String → Action World String
new_id prefix w = (ok (prefix <> ("_" <> w.uuid4 w.drawn)), record w { drawn = suc w.drawn })
