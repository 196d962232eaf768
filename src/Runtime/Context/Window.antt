-- ===== src/Runtime/Context/Window.antt =====
-- src/minion/runtime/context.py: the compaction of old events into the session's summary, and the
-- bounded prompt.
use software_engineering_age.Prelude.{
  ℕ, ◌-◌, ◌/◌, max, String, ◌<>◌, Bool, false, ◌&&◌, ◌||◌, Option, none, some, List, [], ◌∷◌, map,
  is_empty, select, contains, any_of, leb, ltb, if◌then◌else◌,
}
use software_engineering_age.Prelude.Text
use software_engineering_age.Domain.{
  EventType, Value, TaskView, SessionView, AgentEvent, RepositorySpec, payload_get, str, num, obj,
  arr, texts, field, end, same_event, event_value, user_message, agent_message, tool_failed,
  checkpoint_created, skill_activated, repository_indexed, tool_completed, context_compacted,
}
use software_engineering_age.Effects.{Action, pure, ◌>>=◌, ◌>>◌}
use software_engineering_age.Models.{World}
use software_engineering_age.Events
use software_engineering_age.Events.{list_after}
use software_engineering_age.Repositories.Sessions
use software_engineering_age.Repositories.Sessions.{no_memory, update_memory}
use software_engineering_age.Runtime.Values.{PythonText, str_of, decimal}
use software_engineering_age.Runtime.Policy.{strip}
use software_engineering_age.Runtime.Context.{Context, Skills, activate_skills, tool_of}

abbrev pub compacted_through : PythonText → String → ℕ
compacted_through python summary =
    elim (python.search_group "\\[compacted-through:(\\d+)\\]" summary) [
      | none ↦ 0
      | some group ↦ python.int group
    ]

abbrev kept_types : List EventType
kept_types =
    user_message ∷ agent_message ∷ tool_failed ∷ checkpoint_created ∷ skill_activated
    ∷ repository_indexed ∷ []

abbrev kept_tools : List String
kept_tools = "write_file" ∷ "apply_patch" ∷ "checkpoint" ∷ "git_diff" ∷ "run_command" ∷ []

-- `tool in {…}`, where only a text can be one of the names
abbrev is_kept_tool : Option Value → Bool
is_kept_tool (some (str tool)) = contains tool kept_tools
is_kept_tool _ = false

-- `str(event.payload.get("output", ""))`
abbrev output_of : PythonText → AgentEvent → String
output_of python event = elim (payload_get "output" event.payload) [
  | none ↦ ""
  | some v ↦ str_of python.shown v
]

-- the line of an event in the summary, if it has one
abbrev pub important : PythonText → AgentEvent → Option String
important python event =
    if any_of (same_event event.type) kept_types
    then some (
        "#"
        <> decimal event.sequence
        <> " "
        <> event_value event.type
        <> ": "
        <> Text.take 1200 (python.dumps event.payload))
    else if same_event event.type tool_completed && is_kept_tool (payload_get "tool" event.payload)
    then some (
        "#"
        <> decimal event.sequence
        <> " tool.completed "
        <> tool_of python event
        <> ": "
        <> Text.take 1200 (output_of python event))
    else none

-- the lines of the events up to a number; the loop breaks at the first later one
abbrev pub important_lines : PythonText → ℕ → List AgentEvent → List String
important_lines python through [] = []
important_lines python through (event ∷ rest) =
    if ltb through event.sequence then [] else elim (important python event) [
      | none ↦ important_lines python through rest
      | some line ↦ line ∷ important_lines python through rest
    ]

abbrev pub merged_summary : PythonText → String → List String → ℕ → String
merged_summary python summary lines through =
    let prior = python.sub_empty "\\n?\\[compacted-through:\\d+\\]\\s*$" summary in
    let merged = strip (Text.join "\n" (select Text.nonempty (prior ∷ lines))) in
    strip (Text.last_chars 12000 merged <> "\n[compacted-through:" <> decimal through <> "]")

unfoldable pub compact : PythonText → TaskView → SessionView → ℕ → ℕ → Action World Unit
compact python task session previous through = do
  events ← list_after task.id previous 10000
  let merged = merged_summary python session.summary (important_lines python through events) through
  update_memory task.session_id (record no_memory { summary = some merged })
  Events.append task.id task.session_id context_compacted (("through_sequence", num through) ∷ [])
  pure tt

unfoldable pub compact_due : Context → TaskView → SessionView → Action World Unit
unfolding compact
compact_due context task session =
    let through = session.last_event_sequence - context.recent_events in
    let previous = compacted_through context.python session.summary in
    if ltb session.last_event_sequence context.compaction_threshold || leb through previous
    then pure tt
    else compact context.python task session previous through

unfoldable pub maybe_compact : Context → TaskView → Action World Unit
unfolding compact_due
maybe_compact context task = do
  session ← Sessions.require task.session_id
  compact_due context task session

pub record Message : Type 0 where
  pub role : String
  pub content : String

-- `_ensure_auto_skills`
unfoldable pub ensure_auto_skills : Option Skills → Context → TaskView → Action World (List String)
ensure_auto_skills none context task = do
  found ← Sessions.get task.session_id
  pure (elim found [ none ↦ [] | some session ↦ session.active_skills ])
ensure_auto_skills (some skills) context task =
    activate_skills context task (skills.auto_activate task.instruction)

-- `item.name or item.url.split('/')[-1].removesuffix('.git')`
abbrev pub label : RepositorySpec → String
label item = elim item.name [
  | none ↦ Text.remove_suffix ".git" (Text.last_segment item.url)
  | some name ↦
      if Text.nonempty name then name else Text.remove_suffix ".git" (Text.last_segment item.url)
]

abbrev pub history_line : PythonText → AgentEvent → String
history_line python event =
    let payload = python.dumps event.payload in
    "#"
    <> decimal event.sequence
    <> " "
    <> event_value event.type
    <> ": "
    <> (if ltb 6000 (Text.length payload)
        then Text.take 6000 payload <> "...[truncated]"
        else payload)

abbrev pub elision : String
elision = "\n...[middle context elided]...\n"

-- The prompt cut down to its first and its last half of the places.
unfoldable pub clip : ℕ → String → String
clip max_chars user =
    let tail_budget = max_chars / 2 in
    if ltb max_chars (Text.length user)
    then Text.take (max_chars - tail_budget) user <> (elision <> Text.last_chars tail_budget user)
    else user

abbrev pub state_of : TaskView → SessionView → List String → Value
state_of task session active = obj (
    field "task_id" (str task.id) (
      field "repositories"
        (str (Text.join ", " (map (λ r. label r <> "@" <> r.base_branch) task.repositories)))
        (field "summary" (str session.summary) (
          field "current_plan" (arr (texts session.current_plan)) (
            field "active_constraints" (arr (texts session.active_constraints))
              (field "active_skills" (arr (texts active)) end))))))

abbrev catalog_of : Option Skills → Value
catalog_of none = arr (texts [])
catalog_of (some skills) = skills.catalog

abbrev skill_text : Option Skills → List String → String
skill_text none active = ""
skill_text (some skills) active = if is_empty active then "" else skills.render active

abbrev or_none : String → String
or_none s = if Text.nonempty s then s else "<none>"

abbrev pub prompt : Context → TaskView → SessionView → List String → List AgentEvent → String
prompt context task session active recent =
    "ORIGINAL TASK:\n"
    <> task.instruction
    <> "\n\nCURRENT DURABLE STATE:\n"
    <> context.python.dumps_indented (state_of task session active)
    <> "\n\nAVAILABLE SKILL CATALOG:\n"
    <> context.python.dumps_indented (catalog_of context.skills)
    <> "\n\nACTIVE SKILL INSTRUCTIONS:\n"
    <> or_none (skill_text context.skills active)
    <> "\n\nRECENT EVENTS:\n"
    <> Text.join "\n" (map (history_line context.python) recent)

abbrev pub recent_floor : Context → SessionView → ℕ
recent_floor context session =
    max (compacted_through context.python session.summary)
      (session.last_event_sequence - context.recent_events)

-- `build_messages`; the first message is `SYSTEM_PROMPT`, whose text is a parameter
unfoldable pub build_messages : Context → TaskView → Action World (List Message)
unfolding ensure_auto_skills clip
build_messages context task = do
  active ← ensure_auto_skills context.skills context task
  session ← Sessions.require task.session_id
  recent ← list_after task.id (recent_floor context session) 1000
  let user = clip context.max_chars (prompt context task session active recent)
  pure (
      record { role = "system"; content = context.system_prompt }
      ∷ record { role = "user"; content = user }
      ∷ [])
