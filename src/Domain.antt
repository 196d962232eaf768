-- ===== src/Domain.antt =====
-- src/minion/domain.py: the vocabulary shared by the API, the database and the runtime.
use mathlib.Core.Logic.{ite}
use software_engineering_age.Prelude.{
  true, false, ◌||◌, ℕ, String, Bool, Option, List, [], ◌∷◌, some, none, ◌==◌, if◌then◌else◌,
}

pub data TaskStatus : Type 0 where
  created queued provisioning running waiting_for_user : TaskStatus
  cancelling cancelled failed completed : TaskStatus

unfoldable pub TaskStatus-discrete : Discrete TaskStatus
TaskStatus-discrete = hlevel

-- `a == b`
abbrev pub same_status : TaskStatus → TaskStatus → Bool
same_status a b = ite (TaskStatus-discrete a b) true false

-- `a in statuses`
abbrev pub status_in : TaskStatus → List TaskStatus → Bool
status_in a [] = false
status_in a (b ∷ rest) = same_status a b || status_in a rest

pub data EnvironmentStatus : Type 0 where
  requested provisioning ready busy unhealthy stopped deleted : EnvironmentStatus

pub data EventType : Type 0 where
  task_created task_queued task_started task_completed task_failed task_cancelled : EventType
  environment_allocated environment_ready environment_heartbeat : EventType
  repository_indexed skill_activated : EventType
  agent_step agent_message user_message : EventType
  tool_started tool_completed tool_failed : EventType
  context_compacted checkpoint_created pr_created : EventType

unfoldable pub EventType-discrete : Discrete EventType
EventType-discrete = hlevel

abbrev pub same_event : EventType → EventType → Bool
same_event a b = ite (EventType-discrete a b) true false

-- `TaskStatus.value`
unfoldable pub status_value : TaskStatus → String
status_value created = "created"
status_value queued = "queued"
status_value provisioning = "provisioning"
status_value running = "running"
status_value waiting_for_user = "waiting_for_user"
status_value cancelling = "cancelling"
status_value cancelled = "cancelled"
status_value failed = "failed"
status_value completed = "completed"

-- `EventType.value`
unfoldable pub event_value : EventType → String
event_value task_created = "task.created"
event_value task_queued = "task.queued"
event_value task_started = "task.started"
event_value task_completed = "task.completed"
event_value task_failed = "task.failed"
event_value task_cancelled = "task.cancelled"
event_value environment_allocated = "environment.allocated"
event_value environment_ready = "environment.ready"
event_value environment_heartbeat = "environment.heartbeat"
event_value repository_indexed = "repository.indexed"
event_value skill_activated = "skill.activated"
event_value agent_step = "agent.step"
event_value agent_message = "agent.message"
event_value user_message = "user.message"
event_value tool_started = "tool.started"
event_value tool_completed = "tool.completed"
event_value tool_failed = "tool.failed"
event_value context_compacted = "context.compacted"
event_value checkpoint_created = "checkpoint.created"
event_value pr_created = "pr.created"

-- The values of a JSON payload.
mutual
  pub data Fields : Type 0 where
    field : String → Value → Fields → Fields
    end : Fields

  pub data Value : Type 0 where
    str : String → Value
    num : ℕ → Value
    bool : Bool → Value
    null : Value
    obj : Fields → Value
    arr : Items → Value

  pub data Items : Type 0 where
    cons : Value → Items → Items
    nil : Items

-- `dict[str, Any]`, in insertion order
abbrev pub Payload : Type 0
Payload = List (String × Value)

-- `payload.get(key)`
abbrev pub payload_get : String → Payload → Option Value
payload_get key [] = none
payload_get key ((k, v) ∷ rest) = if k == key then some v else payload_get key rest

-- `payload[key] = value`
abbrev pub payload_put : String → Value → Payload → Payload
payload_put key value [] = (key, value) ∷ []
payload_put key value ((k, v) ∷ rest) =
    if k == key then (k, value) ∷ rest else (k, v) ∷ payload_put key value rest

-- a list of texts as a JSON array
abbrev pub texts : List String → Items
texts [] = nil
texts (s ∷ rest) = cons (str s) (texts rest)

pub record RepositorySpec : Type 0 where
  pub url : String
  pub base_branch : String
  pub name : Option String

pub record TaskCreate : Type 0 where
  pub instruction : String
  pub repositories : List RepositorySpec
  pub user_id : String
  pub publish_pr : Bool

pub record TaskView : Type 0 where
  pub id : String
  pub session_id : String
  pub environment_id : Option String
  pub user_id : String
  pub instruction : String
  pub status : TaskStatus
  pub repositories : List RepositorySpec
  pub publish_pr : Bool
  pub created_at : ℕ
  pub updated_at : ℕ
  pub error : Option String
  pub result : Option Payload

pub record SessionView : Type 0 where
  pub id : String
  pub task_id : String
  pub summary : String
  pub current_plan : List String
  pub active_constraints : List String
  pub active_skills : List String
  pub last_event_sequence : ℕ
  pub created_at : ℕ
  pub updated_at : ℕ

pub record AgentEvent : Type 0 where
  pub id : String
  pub task_id : String
  pub session_id : String
  pub sequence : ℕ
  pub type : EventType
  pub payload : Payload
  pub created_at : ℕ
