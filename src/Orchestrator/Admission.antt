-- ===== src/Orchestrator/Admission.antt =====
-- What `submit` leaves behind.
use mathlib.Core.List.{map-append}
use software_engineering_age.Prelude.{
  suc, ◌<>◌, String, ◌≡◌, refl, ◌∙◌, ap, none, some, [], ◌∷◌, ◌++◌, map, arith, eq_iff,
}
use software_engineering_age.Domain.{queued, task_created, task_queued, TaskCreate, TaskView}
use software_engineering_age.Effects.{Exn, ok, err, ◌>>=◌}
use software_engineering_age.Lifecycle.{validate_transition}
use software_engineering_age.Table.{find, find-append, IsKeyed, IsKeyed-append}
use software_engineering_age.Models.{TaskRow, SessionRow, EventRow, World, new_id, uuid}
use software_engineering_age.Repositories.Tasks.{
  task_key, session_key, task_view, no_changes, transition, create, insert_pair, new_task_row,
  new_session_row, apply_values, task_values,
}
use software_engineering_age.Repositories.Tasks.Transition.{
  transition_lem, transitioned, find-transitioned,
}
use software_engineering_age.Queue
use software_engineering_age.Events
use software_engineering_age.Events.{event_of}
use software_engineering_age.Events.Log.{
  IsLog, IsNumbered, events_of, append_lem, append-IsLog, appended, logged, counted_up,
}
use software_engineering_age.Security.{authorize_repositories}
use software_engineering_age.Orchestrator.{Settings, count_submitted, submit, submission_payload}

-- A request with a repository that the policy refuses is answered with the policy's error before
-- anything is written.
pub submit_refused :
    (settings : Settings) (request : TaskCreate) (w : World) (e : Exn)
    → authorize_repositories settings.urls settings.repo_hosts request.repositories ≡ err e
    → submit settings request w ≡ (err e, w)
unfolding submit ◌>>=◌
submit_refused settings request w e refused = ground arith

-- The identifiers that `create` draws next.
abbrev next_task : World → String
next_task w = "task" <> ("_" <> w.uuid4 w.drawn)

abbrev next_session : World → String
next_session w = "session" <> ("_" <> w.uuid4 (suc w.drawn))

-- The identifiers are new, as `uuid4` promises, and the tables are keyed.
pub record IsReady (w : World) : Type 0 where
  pub keyed : IsKeyed task_key w.tasks
  pub new_task : find task_key (next_task w) w.tasks ≡ none
  pub new_session : find session_key (next_session w) w.sessions ≡ none
  pub no_events : events_of (next_task w) w.events ≡ []

abbrev pub created_world : TaskCreate → World → World
created_world request w = record w {
  drawn = suc (suc w.drawn);
  tasks = w.tasks ++ new_task_row (next_task w) (next_session w) request w.now ∷ [];
  sessions = w.sessions ++ new_session_row (next_session w) (next_task w) w.now ∷ [];
}

pub create_lem :
    (request : TaskCreate) (w : World)
    → IsReady w
    → create request w ≡ (
      ok (task_view (new_task_row (next_task w) (next_session w) request w.now)),
      created_world request w,
    )
unfolding create insert_pair new_id ◌>>=◌
create_lem request w ready = ground (arith, ready.new_task, ready.new_session)

-- The log of the task that `create` has just made: empty, with the counter at 0.
pub create-IsLog :
    (request : TaskCreate) (w : World)
    → IsReady w
    → IsLog
        (next_task w)
        (next_session w)
        (created_world request w)
        (new_session_row (next_session w) (next_task w) w.now)
create-IsLog request w ready = record {
  found = ground (
    arith,
    find-append session_key (next_session w) w.sessions
        (new_session_row (next_session w) (next_task w) w.now),
    ready.new_session,
    eq_iff (next_session w) (next_session w),
  );
  numbered = rw ready.no_events tt;
  counted = rw ready.no_events refl;
}

abbrev made : TaskCreate → World → TaskRow
made request w = new_task_row (next_task w) (next_session w) request w.now

abbrev first_session : World → SessionRow
first_session w = new_session_row (next_session w) (next_task w) w.now

-- The stages of `submit`: the TASK_CREATED event, the transition, the TASK_QUEUED event.
abbrev announced : TaskCreate → World → World
announced request w =
    logged
      (appended (next_task w) (next_session w) task_created
        (submission_payload (task_view (made request w))) (created_world request w)
        (first_session w))
      (created_world request w)

abbrev enqueued : TaskCreate → World → World
enqueued request w =
    transitioned (next_task w) (made request w) queued no_changes (announced request w)

abbrev queued_view : TaskCreate → World → TaskView
queued_view request w =
    task_view (apply_values (task_values (made request w) queued no_changes w.now) (made request w))

abbrev announcement : TaskCreate → World → EventRow
announcement request w =
    appended (next_task w) (next_session w) task_created
      (submission_payload (task_view (made request w))) (created_world request w) (first_session w)

abbrev notice : TaskCreate → World → EventRow
notice request w =
    appended (next_task w) (next_session w) task_queued [] (enqueued request w)
      (counted_up (created_world request w) (first_session w))

abbrev notified : TaskCreate → World → World
notified request w = logged (notice request w) (enqueued request w)

-- the item is put and the submission counted
abbrev finished : TaskCreate → World → World
finished request w =
    let n = notified request w in
    record n {
      drawn = suc n.drawn;
      queue = n.queue ++ record { task_id = next_task w; receipt = n.uuid4 n.drawn } ∷ [];
      metrics = record n.metrics { submitted = suc n.metrics.submitted };
    }

module _ (request : TaskCreate) (w : World) (ready : IsReady w) where
  announced_found : find task_key (next_task w) (announced request w).tasks ≡ some (made request w)
  announced_found = ground (
    arith,
    find-append task_key (next_task w) w.tasks (made request w),
    ready.new_task,
    eq_iff (next_task w) (next_task w),
  )

  announced-IsKeyed : IsKeyed task_key (announced request w).tasks
  announced-IsKeyed = IsKeyed-append task_key w.tasks (made request w) ready.new_task ready.keyed

  announced_eq :
      Events.append
        (next_task w)
        (next_session w)
        task_created
        (submission_payload (task_view (made request w)))
        (created_world request w)
      ≡ (
        ok (
            event_of (
              appended
                (next_task w)
                (next_session w)
                task_created
                (submission_payload (task_view (made request w)))
                (created_world request w)
                (first_session w))),
        announced request w,
      )
  announced_eq =
      append_lem (next_task w) (next_session w) task_created
        (submission_payload (task_view (made request w))) (created_world request w)
        (first_session w) (create-IsLog request w ready)

  enqueued_eq :
      transition (next_task w) queued no_changes (announced request w)
      ≡ (ok (queued_view request w), enqueued request w)
  enqueued_eq =
      rw (transition_lem (next_task w) queued no_changes (announced request w) announced-IsKeyed)
        (rw announced_found (unfold validate_transition in refl))

  after_announcing :
      IsLog
        (next_task w)
        (next_session w)
        (announced request w)
        (counted_up (created_world request w) (first_session w))
      × (events_of (next_task w) (announced request w).events ≡ announcement request w ∷ [])
  after_announcing =
      let (log, added) = rw announced_eq at (
        append-IsLog (next_task w) (next_session w) task_created
          (submission_payload (task_view (made request w))) (created_world request w)
          (first_session w) (create-IsLog request w ready)) in
      (log, added ∙ ap (λ rows. rows ++ announcement request w ∷ []) ready.no_events)

  enqueued-IsLog :
      IsLog
        (next_task w)
        (next_session w)
        (enqueued request w)
        (counted_up (created_world request w) (first_session w))
  enqueued-IsLog =
      let log = after_announcing.0 in
      record { found = log.found; numbered = log.numbered; counted = log.counted }

  notified_eq :
      Events.append (next_task w) (next_session w) task_queued [] (enqueued request w)
      ≡ (ok (event_of (notice request w)), notified request w)
  notified_eq =
      append_lem (next_task w) (next_session w) task_queued [] (enqueued request w)
        (counted_up (created_world request w) (first_session w)) enqueued-IsLog

  submit_runs :
      (settings : Settings)
      → authorize_repositories settings.urls settings.repo_hosts request.repositories ≡ ok tt
      → submit settings request w ≡ (ok (queued_view request w), finished request w)
  unfolding submit Queue.put uuid count_submitted ◌>>=◌
  submit_runs settings allowed =
      ground (arith, create_lem request w ready, announced_eq, enqueued_eq, notified_eq)

-- An authorized request on tables where the drawn identifiers are new: `submit` returns the task as
-- queued, its row has that status, its log is TASK_CREATED and TASK_QUEUED, numbered 1 and 2, and
-- the queue has one item more, the last, which names the task.
pub submit_lem :
    (settings : Settings) (request : TaskCreate) (w : World)
    → IsReady w
    → authorize_repositories settings.urls settings.repo_hosts request.repositories ≡ ok tt
    → let (r, w') = submit settings request w in
      ((view : TaskView) × (r ≡ ok view) × (view.id ≡ next_task w) × (view.status ≡ queued))
      × ((row : TaskRow) × (find task_key (next_task w) w'.tasks ≡ some row)
          × (row.status ≡ queued)
          × (row.instruction ≡ request.instruction))
      × (map (λ e. e.type) (events_of (next_task w) w'.events) ≡ task_created ∷ task_queued ∷ [])
      × IsNumbered 0 (events_of (next_task w) w'.events)
      × (map (λ i. i.task_id) w'.queue ≡ map (λ i. i.task_id) w.queue ++ next_task w ∷ [])
submit_lem settings request w ready allowed = rw (submit_runs request w ready settings allowed) (
  (queued_view request w, refl, refl, refl),
  (
    apply_values (task_values (made request w) queued no_changes w.now) (made request w),
    ground (
      arith,
      find-transitioned (next_task w) (next_task w) (made request w) queued no_changes
          (announced request w) (announced_found request w ready),
      eq_iff (next_task w) (next_task w),
    ),
    refl,
    refl,
  ),
  ap (map (λ (e : EventRow). e.type)) (
      notified_log.1
      ∙ ap (λ rows. rows ++ notice request w ∷ []) (after_announcing request w ready).1),
  notified_log.0.numbered,
  map-append _ w.queue _,
)
  where
    notified_log :
        IsLog
          (next_task w)
          (next_session w)
          (notified request w)
          (counted_up (enqueued request w) (counted_up (created_world request w) (first_session w)))
        × (events_of (next_task w) (notified request w).events
            ≡ events_of (next_task w) (enqueued request w).events ++ notice request w ∷ [])
    notified_log = rw (notified_eq request w ready) at (
        append-IsLog (next_task w) (next_session w) task_queued [] (enqueued request w)
          (counted_up (created_world request w) (first_session w)) (enqueued-IsLog request w ready))
