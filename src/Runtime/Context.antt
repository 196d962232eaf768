-- ===== src/Runtime/Context.antt =====
-- src/minion/runtime/context.py: `ContextManager`, its control tools and the activation of skills.
-- `Skills` is what it asks of the skill manager.
pub mod Window
pub mod Evolution
pub mod Bounds
pub mod Activation
pub mod Evidence
use software_engineering_age.Prelude.{
  ℕ, String, ◌<>◌, Bool, true, false, not, ◌&&◌, ◌||◌, Option, none, some, List, [], ◌∷◌, ◌++◌, map,
  ◌==◌, length, take, last_items, select, contains, is_empty, leb, if◌then◌else◌,
}
use software_engineering_age.Prelude.Text
use software_engineering_age.Domain.{
  EventType, Payload, Value, TaskView, SessionView, AgentEvent, payload_get, str, arr, texts,
  same_event, skill_activated, tool_completed,
}
use software_engineering_age.Effects.{Action, key_error, pure, raise, lift, ◌>>=◌, ◌>>◌}
use software_engineering_age.Models.{World}
use software_engineering_age.Events
use software_engineering_age.Events.{list_after}
use software_engineering_age.Repositories.Sessions
use software_engineering_age.Repositories.Sessions.{Memory, no_memory, update_memory}
use software_engineering_age.Runtime.Values.{
  PythonText, str_of, truthy_at, iterate_at, argument, decimal,
}

pub record Skills : Type 0 where
  pub max_active : ℕ
  pub is_known : String → Bool  -- `get(name)` finds a skill
  pub auto_activate : String → List String
  pub catalog : Value
  pub render : List String → String

-- `ContextManager`, with what it reads of the settings
pub record Context : Type 0 where
  pub python : PythonText
  pub skills : Option Skills
  pub compaction_threshold : ℕ
  pub recent_events : ℕ
  pub max_chars : ℕ
  pub system_prompt : String  -- `SYSTEM_PROMPT`

pub record ControlToolResult : Type 0 where
  pub output : String
  pub terminal_payload : Option Payload

abbrev pub control_tools : List String
control_tools =
    "set_plan" ∷ "remember_constraint" ∷ "list_skills" ∷ "activate_skill" ∷ "finish_task" ∷ []

abbrev pub says : String → ControlToolResult
says output = record { output = output; terminal_payload = none }

-- The loop of `_activate_skills`: the active skills so far, and the names that are left.
unfoldable pub activate_each :
    Skills → TaskView → List String → List String → Action World (List String)
activate_each skills task current [] = pure current
activate_each skills task current (name ∷ rest) =
    if contains name current || not (skills.is_known name)
    then activate_each skills task current rest
    else if leb skills.max_active (length current)
    then pure current
    else (Events.append task.id task.session_id skill_activated (("name", str name) ∷ []) >>= λ _.
        activate_each skills task (current ++ name ∷ []) rest)

-- `a == b` of lists of texts
abbrev pub same_texts : List String → List String → Bool
same_texts [] [] = true
same_texts (a ∷ rest) (b ∷ others) = a == b && same_texts rest others
same_texts _ _ = false

unfoldable pub remember_skills : SessionView → List String → String → Action World Unit
remember_skills session current session_id =
    if same_texts current session.active_skills
    then pure tt
    else update_memory session_id (record no_memory { active_skills = some current })

unfoldable pub activate_for :
    Option Skills → TaskView → SessionView → List String → Action World (List String)
unfolding activate_each remember_skills
activate_for none task session requested = pure session.active_skills
activate_for (some skills) task session requested = do
  current ← activate_each skills task session.active_skills requested
  remember_skills session current task.session_id
  pure current

unfoldable pub activate_skills : Context → TaskView → List String → Action World (List String)
unfolding activate_for
activate_skills context task requested = do
  session ← Sessions.require task.session_id
  activate_for context.skills task session requested

unfoldable pub set_plan : Context → TaskView → Payload → Action World ControlToolResult
set_plan context task arguments = do
  values ← lift (iterate_at (payload_get "steps" arguments))
  let steps = take 20 (map (str_of context.python.shown) values)
  update_memory task.session_id (record no_memory { current_plan = some steps })
  pure (says ("persisted plan with " <> decimal (length steps) <> " steps"))

unfoldable pub remember_constraint :
    Context → TaskView → SessionView → Payload → Action World ControlToolResult
remember_constraint context task session arguments = do
  value ← lift (argument "constraint" arguments)
  let constraints =
      last_items 20 (session.active_constraints ++ str_of context.python.shown value ∷ [])
  update_memory task.session_id (record no_memory { active_constraints = some constraints })
  pure (says "constraint persisted")

abbrev pub list_skills : PythonText → Option Skills → ControlToolResult
list_skills python none = says "skills are not configured"
list_skills python (some skills) = says (python.dumps_indented skills.catalog)

abbrev pub active_text : List String → String
active_text active =
    "active skills: " <> (if is_empty active then "<none>" else Text.join ", " active)

unfoldable pub activate_known :
    Context → Skills → TaskView → String → Action World ControlToolResult
unfolding activate_skills
activate_known context skills task requested =
    if not (skills.is_known requested)
    then pure (says ("unknown skill: " <> requested))
    else do active ← activate_skills context task (requested ∷ []); pure (says (active_text active))

unfoldable pub activate_skill :
    Context → Option Skills → TaskView → Payload → Action World ControlToolResult
unfolding activate_known
activate_skill context none task arguments = pure (says "skills are not configured")
activate_skill context (some skills) task arguments = do
  name ← lift (argument "name" arguments)
  activate_known context skills task (str_of context.python.shown name)

-- `str(event.payload.get("tool"))`
abbrev pub tool_of : PythonText → AgentEvent → String
tool_of python event = elim (payload_get "tool" event.payload) [
  | none ↦ "None"
  | some v ↦ str_of python.shown v
]

abbrev pub is_success : AgentEvent → Bool
is_success event =
    same_event event.type tool_completed && truthy_at (payload_get "ok" event.payload)

abbrev pub successful_tools : PythonText → List AgentEvent → List String
successful_tools python history = map (tool_of python) (select is_success history)

abbrev pub missing_evidence : List String → List String
missing_evidence successful =
    (if contains "run_command" successful then [] else "a successful run_command verification" ∷ [])
    ++ (if contains "git_diff" successful then [] else "a successful git_diff inspection" ∷ [])

unfoldable pub finish_with :
    PythonText → Payload → List String → List String → Action World ControlToolResult
finish_with python arguments verification missing =
    if not (is_empty missing)
    then pure (says ("finish rejected: missing " <> Text.join " and " missing))
    else do
      summary ← lift (argument "summary" arguments)
      pure (record {
        output = "task marked ready to finish";
        terminal_payload = some (
            ("summary", str (str_of python.shown summary))
            ∷ ("verification", arr (texts verification))
            ∷ []);
      })

unfoldable pub finish_task : Context → TaskView → Payload → Action World ControlToolResult
unfolding finish_with
finish_task context task arguments = do
  values ← lift (iterate_at (payload_get "verification" arguments))
  let verification = select Text.nonempty (map (str_of context.python.shown) values)
  if is_empty verification then pure (says "finish rejected: verification is required") else do
    history ← list_after task.id 0 10000
    finish_with context.python arguments verification
        (missing_evidence (successful_tools context.python history))

unfoldable pub dispatch :
    Context → TaskView → SessionView → String → Payload → Action World ControlToolResult
unfolding set_plan remember_constraint activate_skill finish_task
dispatch context task session name arguments =
    if name == "set_plan"
    then set_plan context task arguments
    else if name == "remember_constraint"
    then remember_constraint context task session arguments
    else if name == "list_skills"
    then pure (list_skills context.python context.skills)
    else if name == "activate_skill"
    then activate_skill context context.skills task arguments
    else if name == "finish_task"
    then finish_task context task arguments
    else raise (key_error name)

unfoldable pub execute_control_tool :
    Context → TaskView → String → Payload → Action World ControlToolResult
unfolding dispatch
execute_control_tool context task name arguments = do
  session ← Sessions.require task.session_id
  dispatch context task session name arguments
