-- ===== src/Events/Log.antt =====
-- A task's log: its events are numbered 1, 2, 3, … in the order in which they were written, and
-- the session's counter is their number. `EventStore.append` keeps it so.
use mathlib.Core.Option
use software_engineering_age.Prelude.{
  ℕ, suc, ◌<>◌, ◌+◌, ◌<◌, String, ◌≡◌, refl, ◌≢◌, false, some, List, [], ◌∷◌, ◌++◌, ◌==◌, eq_iff,
  length, length-append, select, any_of, if◌then◌else◌, arith,
}
use software_engineering_age.Domain.{EventType, Payload}
use software_engineering_age.Effects.{ok, ◌>>=◌}
use software_engineering_age.Table.{find, find-key, update_where, find-update_where}
use software_engineering_age.Models.{SessionRow, EventRow, World, new_id}
use software_engineering_age.Repositories.Tasks.{session_key}
use software_engineering_age.Events.{is_numbered, append, event_of, next_row, publish}

abbrev pub events_of : String → List EventRow → List EventRow
events_of task_id = select (λ r. r.task_id == task_id)

-- The rows have the numbers k + 1, k + 2, …
abbrev pub IsNumbered : ℕ → List EventRow → Type 0
IsNumbered k [] = Unit
IsNumbered k (r ∷ rows) = (r.sequence ≡ suc k) × IsNumbered (suc k) rows

pub record IsLog (task_id session_id : String) (w : World) (session : SessionRow) : Type 0 where
  pub found : find session_key session_id w.sessions ≡ some session
  pub numbered : IsNumbered 0 (events_of task_id w.events)
  pub counted : session.last_event_sequence ≡ length (events_of task_id w.events)

unused_number :
    (task_id : String) (k n : ℕ) (rows : List EventRow)
    → IsNumbered k (events_of task_id rows)
    → k + length (events_of task_id rows) < n
    → any_of (is_numbered task_id n) rows ≡ false
unused_number task_id k n [] h lt = refl
unused_number task_id k n (r ∷ rows) h lt =
    ground (arith, unused_number task_id k n rows, unused_number task_id (suc k) n rows)

events_of-append :
    (task_id : String) (rows : List EventRow) (r : EventRow)
    → events_of task_id (rows ++ r ∷ [])
      ≡ (if r.task_id == task_id then events_of task_id rows ++ r ∷ [] else events_of task_id rows)
events_of-append task_id [] r = refl
events_of-append task_id (x ∷ rows) r = ground (arith, events_of-append task_id rows r)

IsNumbered-append :
    (k : ℕ) (rows : List EventRow) (r : EventRow)
    → IsNumbered k rows
    → r.sequence ≡ suc (k + length rows)
    → IsNumbered k (rows ++ r ∷ [])
IsNumbered-append k [] r h e = (omega arith, tt)
IsNumbered-append k (x ∷ rows) r h e = (h.0, IsNumbered-append (suc k) rows r h.1 (omega arith))

-- The row that `append` writes to the log of a session.
abbrev pub appended : String → String → EventType → Payload → World → SessionRow → EventRow
appended task_id session_id type payload w session =
    next_row ("evt" <> ("_" <> w.uuid4 w.drawn)) task_id session_id type payload w.now session

abbrev pub counted_up : World → SessionRow → SessionRow
counted_up w session = record session {
  last_event_sequence = session.last_event_sequence + 1;
  updated_at = w.now;
}

-- The world after `append`.
abbrev pub logged : EventRow → World → World
logged row w = record w {
  drawn = suc w.drawn;
  events = w.events ++ row ∷ [];
  sessions =
      update_where (λ s. s.id == row.session_id)
        (λ s. record s { last_event_sequence = row.sequence; updated_at = w.now }) w.sessions;
  bus = publish (event_of row) w.bus;
}

-- On a log, `append` does not fail: it returns the event with the next number, adds its row to the
-- table, counts the session up and publishes the event, and changes nothing else.
pub append_lem :
    (task_id session_id : String) (type : EventType) (payload : Payload) (w : World)
    (session : SessionRow)
    → IsLog task_id session_id w session
    → let row = appended task_id session_id type payload w session in
      append task_id session_id type payload w ≡ (ok (event_of row), logged row w)
unfolding append ◌>>=◌ new_id
append_lem task_id session_id type payload w session log = ground (
  arith,
  log.found,
  unused_number task_id 0 (session.last_event_sequence + 1) w.events log.numbered,
  log.counted,
)

found-logged :
    (k : String) (w : World) (row : EventRow)
    → find session_key k (logged row w).sessions
      ≡ Option.map
          (λ s.
            if s.id == row.session_id
            then record s { last_event_sequence = row.sequence; updated_at = w.now }
            else s)
          (find session_key k w.sessions)
found-logged k w row =
    find-update_where session_key (λ s. s.id == row.session_id)
      (λ s. record s { last_event_sequence = row.sequence; updated_at = w.now }) (λ s. refl) k
      w.sessions

-- An append to a task's log leaves a log: the same events, then the new one, still numbered
-- without a gap, and the counter is again the number of events.
pub append-IsLog :
    (task_id session_id : String) (type : EventType) (payload : Payload) (w : World)
    (session : SessionRow)
    → IsLog task_id session_id w session
    → let w' = (append task_id session_id type payload w).1 in
      IsLog task_id session_id w' (counted_up w session)
      × (events_of task_id w'.events
          ≡ events_of task_id w.events ++ appended task_id session_id type payload w session ∷ [])
append-IsLog task_id session_id type payload w session log =
    rw (append_lem task_id session_id type payload w session log) (
      record {
        found = ground (
          arith,
          log.found,
          find-key session_key session_id w.sessions session log.found,
          eq_iff session.id session_id,
          found-logged session_id w (appended task_id session_id type payload w session),
        );
        numbered = rw added (
            IsNumbered-append 0 (events_of task_id w.events) row log.numbered
              (ground (arith, log.counted)));
        counted =
            rw added
              (ground (arith, log.counted, length-append (events_of task_id w.events) (row ∷ [])));
      },
      added,
    )
  where
    row : EventRow
    row = appended task_id session_id type payload w session

    added : events_of task_id (w.events ++ row ∷ []) ≡ events_of task_id w.events ++ row ∷ []
    added = ground (arith, events_of-append task_id w.events row, eq_iff task_id task_id)

-- Appending to one task's log leaves the log of another task with another session a log, with the
-- same session row.
pub append_other-IsLog :
    (task_id session_id other_task other_session : String) (type : EventType) (payload : Payload)
    (w : World) (session other : SessionRow)
    → task_id ≢ other_task
    → session_id ≢ other_session
    → IsLog task_id session_id w session
    → IsLog other_task other_session w other
    → IsLog other_task other_session (append task_id session_id type payload w).1 other
append_other-IsLog task_id session_id other_task other_session type payload w session other nt ns
      log log' =
    rw (append_lem task_id session_id type payload w session log) (record {
      found = ground (
        arith,
        log'.found,
        find-key session_key other_session w.sessions other log'.found,
        eq_iff other.id session_id,
        found-logged other_session w row,
      );
      numbered = rw same log'.numbered;
      counted = rw same log'.counted;
    })
  where
    row : EventRow
    row = appended task_id session_id type payload w session

    same : events_of other_task (w.events ++ row ∷ []) ≡ events_of other_task w.events
    same = ground (arith, events_of-append other_task w.events row, eq_iff task_id other_task)
