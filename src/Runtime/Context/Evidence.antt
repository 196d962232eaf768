-- ===== src/Runtime/Context/Evidence.antt =====
-- src/minion/runtime/context.py: what a finished task has in its log. `finish_task` gives a terminal
-- payload on evidence only.
use software_engineering_age.Prelude.{
  ℕ, zero, suc, String, ◌≡◌, refl, sym, ap, ◌∙◌, subst, ◌<>◌, Bool, true, false, not, ◌&&◌, Option,
  none, some, List, [], ◌∷◌, ◌++◌, map, ◌==◌, take, select, any_of, contains, is_empty, arith, ltb,
  if◌then◌else◌,
}
use software_engineering_age.Prelude.Text
use software_engineering_age.Domain.{
  TaskView, Payload, SessionView, Value, payload_get, str, arr, texts,
}
use software_engineering_age.Effects.{ok, pure, lift, ◌>>=◌}
use software_engineering_age.Effects.Ensures.{
  Ensures, returned_first, pure_returned, lift_returned, Ensures-then, Ensures-bind, Ensures-pure,
  Ensures-raise, Ensures-if,
}
use software_engineering_age.Models.{EventRow, World}
use software_engineering_age.Events.{
  event_of, list_after, order_by_sequence, insert_ordered, is_after,
}
use software_engineering_age.Runtime.Values.{PythonText, str_of, argument, iterate_at}
use software_engineering_age.Runtime.Context.{
  Context, Skills, ControlToolResult, tool_of, is_success, successful_tools, missing_evidence,
  finish_with, finish_task, dispatch, execute_control_tool, set_plan, remember_constraint,
  activate_skill, activate_known, list_skills, says,
}

-- a successful call of a tool, in the log of a task
abbrev pub is_evidence : PythonText → String → String → EventRow → Bool
is_evidence python task_id tool row =
    row.task_id == task_id && (is_success (event_of row) && tool == tool_of python (event_of row))

-- The log has a successful command and a successful look at the diff.
pub record Evidence (python : PythonText) (task_id : String) (w : World) : Type 0 where
  pub command : any_of (is_evidence python task_id "run_command") w.events ≡ true
  pub diff : any_of (is_evidence python task_id "git_diff") w.events ≡ true

-- A terminal payload is given on evidence only.
abbrev pub IsFinished : PythonText → String → Option Payload → World → Type 0
IsFinished python task_id none w = Unit
IsFinished python task_id (some payload) w = Evidence python task_id w

module _ {A : Type 0} where
  any_of-take :
      (p : A → Bool) (n : ℕ) (xs : List A) → any_of p (take n xs) ≡ true → any_of p xs ≡ true
  any_of-take p zero xs h = cc
  any_of-take p (suc n) [] h = h
  any_of-take p (suc n) (x ∷ xs) h = ground (arith, any_of-take p n xs)

  pub any_of-append :
      (p : A → Bool) (xs ys : List A) → any_of p xs ≡ true → any_of p (xs ++ ys) ≡ true
  any_of-append p [] ys h = cc
  any_of-append p (x ∷ xs) ys h = ground (arith, any_of-append p xs ys)

any_of-insert :
    (p : EventRow → Bool) (r : EventRow) (rows : List EventRow)
    → any_of p (insert_ordered r rows) ≡ true
    → any_of p (r ∷ rows) ≡ true
unfolding insert_ordered
any_of-insert p r [] h = h
any_of-insert p r (r' ∷ rows) h = ground (arith, any_of-insert p r rows)

any_of-order :
    (p : EventRow → Bool) (rows : List EventRow)
    → any_of p (order_by_sequence rows) ≡ true
    → any_of p rows ≡ true
unfolding order_by_sequence
any_of-order p [] h = h
any_of-order p (r ∷ rows) h =
    ground (arith, any_of-insert p r (order_by_sequence rows), any_of-order p rows)

module _ {E : Type 0} where
  contains-map :
      (f : E → String) (p : E → Bool) (tool : String) (es : List E)
      → contains tool (map f (select p es)) ≡ true
      → any_of (λ e. p e && tool == f e) es ≡ true
  contains-map f p tool [] h = h
  contains-map f p tool (e ∷ es) h = ground (arith, contains-map f p tool es)

  any_of-select :
      (q p : E → Bool) (es : List E)
      → any_of p (select q es) ≡ true
      → any_of (λ e. q e && p e) es ≡ true
  any_of-select q p [] h = h
  any_of-select q p (e ∷ es) h = ground (arith, any_of-select q p es)

  any_of-weaken :
      (p q : E → Bool)
      → ((e : E) → p e ≡ true → q e ≡ true)
      → (es : List E) → any_of p es ≡ true
      → any_of q es ≡ true
  any_of-weaken p q k [] h = h
  any_of-weaken p q k (e ∷ es) h = ground (arith, k e, any_of-weaken p q k es)

  any_of-map :
      {F : Type 0} (f : E → F) (p : F → Bool) (es : List E)
      → any_of p (map f es) ≡ true
      → any_of (λ e. p (f e)) es ≡ true
  any_of-map f p [] h = h
  any_of-map f p (e ∷ es) h = ground (arith, any_of-map f p es)

after_of : (a b c : Bool) → (a && b) && c ≡ true → a && c ≡ true
after_of a b c h = ground arith

abbrev history_of : String → World → List EventRow
history_of task_id w = take 10000 (order_by_sequence (select (is_after task_id 0) w.events))

seen_in_log :
    (python : PythonText) (task_id tool : String) (w : World)
    → contains tool (successful_tools python (map event_of (history_of task_id w))) ≡ true
    → any_of (is_evidence python task_id tool) w.events ≡ true
seen_in_log python task_id tool w h =
    any_of-weaken (λ r. is_after task_id 0 r && seen r) (is_evidence python task_id tool)
      (λ r. after_of (r.task_id == task_id) (ltb 0 r.sequence) (seen r)) w.events
      (any_of-select (is_after task_id 0) seen w.events (
        any_of-order seen (select (is_after task_id 0) w.events) (
          any_of-take seen 10000 (order_by_sequence (select (is_after task_id 0) w.events)) (
            any_of-map event_of (λ e. is_success e && tool == tool_of python e)
              (history_of task_id w)
              (contains-map (tool_of python) is_success tool (map event_of (history_of task_id w))
                h)))))
  where
    seen : EventRow → Bool
    seen r = is_success (event_of r) && tool == tool_of python (event_of r)

nothing_missing :
    (successful : List String)
    → is_empty (missing_evidence successful) ≡ true
    → (contains "run_command" successful ≡ true) × (contains "git_diff" successful ≡ true)
nothing_missing successful h = ground arith

abbrev pub Finishes : PythonText → String → ControlToolResult → World → Type 0
Finishes python task_id r w = IsFinished python task_id r.terminal_payload w

finish_with-Evidence :
    (python : PythonText) (arguments : Payload) (verification missing : List String)
    (task_id : String) (s t : World) (r : ControlToolResult)
    → (is_empty missing ≡ true → Evidence python task_id s)
    → finish_with python arguments verification missing s ≡ (ok r, t)
    → Finishes python task_id r t
unfolding finish_with
finish_with-Evidence python arguments verification missing task_id s t r k h =
    by_missing (is_empty missing) k h
  where
    done : Value → ControlToolResult
    done summary = record {
      output = "task marked ready to finish";
      terminal_payload = some (
          ("summary", str (str_of python.shown summary))
          ∷ ("verification", arr (texts verification))
          ∷ []);
    }

    by_missing :
        (b : Bool)
        → (b ≡ true → Evidence python task_id s)
        → (if not b
              then pure (says ("finish rejected: missing " <> Text.join " and " missing))
              else (lift (argument "summary" arguments) >>= λ v. pure (done v)))
            s
          ≡ (ok r, t)
        → Finishes python task_id r t
    by_missing false k h = subst (λ x. Finishes python task_id x t) (pure_returned s t _ r h).0 tt
    by_missing true k h =
        let (v, u, e, e') =
          returned_first (lift (argument "summary" arguments)) (λ v. pure (done v)) s t r h in
        let back : s ≡ t =
          (lift_returned s u (argument "summary" arguments) v e).1
          ∙ (pure_returned u t (done v) r e').1 in
        subst (λ x. Finishes python task_id x t) (pure_returned u t (done v) r e').0
          (subst (Evidence python task_id) back (k refl))

-- what `finish_task` reads
read_history :
    (task_id : String)
    → Ensures
        (λ history w. history ≡ map event_of (history_of task_id w))
        (list_after task_id 0 10000)
unfolding list_after
read_history task_id = record {
  returned = λ s t history e.
      let (e₀, e₁) =
        pure_returned s t (map event_of (history_of task_id s)) history (unfold pure in e) in
      sym e₀ ∙ ap (λ w. map event_of (history_of task_id w)) e₁;
}

finish_task-Evidence :
    (context : Context) (task : TaskView) (arguments : Payload)
    → Ensures (Finishes context.python task.id) (finish_task context task arguments)
unfolding finish_task
finish_task-Evidence context task arguments =
    Ensures-bind (lift (iterate_at (payload_get "verification" arguments))) _ (λ values.
      Ensures-if (is_empty (select Text.nonempty (map (str_of context.python.shown) values))) _ _
        (Ensures-pure _ (λ s. tt))
        (Ensures-then (list_after task.id 0 10000) _ (read_history task.id) (λ history s t r seen e.
          finish_with-Evidence context.python arguments _ _ task.id s t r
            (λ none_missing.
              let (ran, looked) =
                nothing_missing (successful_tools context.python history) none_missing in
              record {
                command = seen_in_log context.python task.id "run_command" s (
                    subst (λ h. contains "run_command" (successful_tools context.python h) ≡ true)
                      seen ran);
                diff = seen_in_log context.python task.id "git_diff" s (
                    subst (λ h. contains "git_diff" (successful_tools context.python h) ≡ true) seen
                      looked);
              })
            e)))

module _ (python : PythonText) (task_id : String) where
  says-Evidence : (output : String) → Ensures (Finishes python task_id) (pure (says output))
  says-Evidence output = Ensures-pure (says output) (λ s. tt)

  set_plan-Evidence :
      (context : Context) (task : TaskView) (arguments : Payload)
      → Ensures (Finishes python task_id) (set_plan context task arguments)
  unfolding set_plan
  set_plan-Evidence context task arguments = search (Ensures-bind, says-Evidence) depth 8

  remember_constraint-Evidence :
      (context : Context) (task : TaskView) (session : SessionView) (arguments : Payload)
      → Ensures (Finishes python task_id) (remember_constraint context task session arguments)
  unfolding remember_constraint
  remember_constraint-Evidence context task session arguments =
      search (Ensures-bind, says-Evidence) depth 8

  activate_skill-Evidence :
      (context : Context) (skills : Option Skills) (task : TaskView) (arguments : Payload)
      → Ensures (Finishes python task_id) (activate_skill context skills task arguments)
  unfolding activate_skill activate_known
  activate_skill-Evidence context none task arguments = says-Evidence _
  activate_skill-Evidence context (some skills) task arguments =
      search (Ensures-bind, Ensures-if, says-Evidence) depth 10

  list_skills-Evidence :
      (skills : Option Skills)
      → Ensures (Finishes python task_id) (pure (list_skills python skills))
  list_skills-Evidence none = says-Evidence _
  list_skills-Evidence (some skills) = says-Evidence _

-- A control tool that ends the task read a log with the evidence.
pub execute_control_tool-Evidence :
    (context : Context) (task : TaskView) (name : String) (arguments : Payload)
    → Ensures (Finishes context.python task.id) (execute_control_tool context task name arguments)
unfolding execute_control_tool dispatch
execute_control_tool-Evidence context task name arguments =
    search
      (
        Ensures-bind, Ensures-if, Ensures-raise, set_plan-Evidence, remember_constraint-Evidence,
        list_skills-Evidence, activate_skill-Evidence, finish_task-Evidence,
      )
      depth 12
