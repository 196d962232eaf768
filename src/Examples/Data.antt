-- ===== src/Examples/Data.antt =====
-- The inputs of the tests.
use software_engineering_age.Prelude.{ℕ, zero, suc, String, false, none, some, [], ◌∷◌}
use software_engineering_age.Domain.{TaskStatus, RepositorySpec, TaskCreate, agent_step}
use software_engineering_age.Effects.{pure}
use software_engineering_age.Models.{TaskRow, SessionRow, EventRow, World, Metrics}
use software_engineering_age.Security.{UrlLibrary}
use software_engineering_age.Orchestrator.{Settings}
use software_engineering_age.Orchestrator.Execute.{Services}
use software_engineering_age.Runtime.Workspace.{Workspace}

-- a lookup that serves the tests
abbrev pub urls : UrlLibrary
urls = record {
  malformed = λ u. none;
  scheme = λ u. "https";
  hostname = λ u. some "github.com";
  lower = λ s. s;
}

abbrev pub settings : Settings
settings = record {
  urls = urls;
  repo_hosts = "github.com" ∷ [];
  provider_name = "LocalEnvironmentProvider";
}

abbrev pub strict : Settings
strict = record settings { repo_hosts = "git.example" ∷ [] }

abbrev pub repository : RepositorySpec
repository = record { url = "https://github.com/o/r.git"; base_branch = "main"; name = none }

abbrev pub request : TaskCreate
request = record {
  instruction = "fix it";
  repositories = repository ∷ [];
  user_id = "u";
  publish_pr = false;
}

abbrev pub uuids : ℕ → String
uuids zero = "0"
uuids (suc zero) = "1"
uuids _ = "2"

abbrev pub metrics : Metrics
metrics = record { submitted = 0; completed = 0; failed = 0; running = 0; allocations = 0 }

abbrev pub world : World
world = record {
  tasks = [];
  sessions = [];
  events = [];
  leases = [];
  now = 7;
  uuid4 = uuids;
  drawn = 0;
  bus = record { redis = false; channel = []; subscribers = [] };
  queue = [];
  running = [];
  cancel_requested = [];
  stopping = false;
  metrics = metrics;
}

abbrev pub task : TaskStatus → TaskRow
task status = record {
  id = "task_a";
  session_id = "session_a";
  environment_id = none;
  user_id = "u";
  instruction = "fix it";
  status = status;
  repositories = repository ∷ [];
  publish_pr = false;
  version = 3;
  error = none;
  result = none;
  created_at = 1;
  updated_at = 2;
}

abbrev pub session : ℕ → SessionRow
session last = record {
  id = "session_a";
  task_id = "task_a";
  summary = "";
  current_plan = [];
  active_constraints = [];
  active_skills = [];
  last_event_sequence = last;
  created_at = 1;
  updated_at = 2;
}

abbrev pub event : ℕ → EventRow
event n = record {
  id = "evt";
  task_id = "task_a";
  session_id = "session_a";
  sequence = n;
  type = agent_step;
  payload = [];
  created_at = 3;
}

-- one task, with a log of two events
abbrev pub busy : TaskStatus → World
busy status = record world {
  tasks = task status ∷ [];
  sessions = session 2 ∷ [];
  events = event 1 ∷ event 2 ∷ [];
}

abbrev pub workspace : Workspace
workspace = record {
  environment_id = "env_1";
  root = "/w/env_1";
  repositories = ("r", "/w/env_1/r") ∷ [];
  container_name = none;
  container_workspace_root = none;
  slot_id = none;
}

-- services that succeed at once
abbrev pub services : Services
services = record {
  provider_name = "LocalEnvironmentProvider";
  attach = λ id specs. pure none;
  allocate = λ id specs. pure workspace;
  release = λ ws destroy. pure tt;
  ensure_index = λ path. pure (record { head = "abc"; parsed_files = 1; reused_files = 0 });
  run_agent = λ ws view. pure [];
  publish = λ ws id instruction specs. pure [];
}
