-- ===== src/Api/Stream.antt =====
-- What a client of the event stream sees.
use mathlib.Core.List.{map-append}
use software_engineering_age.Prelude.{
  String, ℕ, zero, suc, ◌+◌, ◌<◌, ◌≤◌, ◌≡◌, refl, List, [], ◌∷◌, ◌++◌, map, subst, inl, inr, sym,
  ◌∙◌, ap, ◌-◌, arith, leb, Bool-cases, length, take, drop, take_all, drop-append, drop-length,
  drop-drop, length-drop,
}
use software_engineering_age.Domain.{AgentEvent}
use software_engineering_age.Models.{EventRow, World, SessionRow}
use software_engineering_age.Events.{event_of, list_after}
use software_engineering_age.Effects.{Result, ok}
use software_engineering_age.Events.Replay.{list_after_lem, IsNumbered-drop}
use software_engineering_age.Events.Log.{IsNumbered, IsLog, events_of}
use software_engineering_age.Api.{last_sent, forward, task_events}

-- The events' numbers rise, from above a given one.
abbrev pub IsRising : ℕ → List AgentEvent → Type 0
IsRising n [] = Unit
IsRising n (e ∷ rest) = (n < e.sequence) × IsRising e.sequence rest

forward-IsRising : (last : ℕ) (live : List AgentEvent) → IsRising last (forward last live)
unfolding forward
forward-IsRising last [] = tt
forward-IsRising last (e ∷ live) = elim (Bool-cases (leb e.sequence last)) [
  | inl old ↦ rw (old, forward) (forward-IsRising last live)
  | inr new ↦ rw (new, forward) (ground arith, forward-IsRising e.sequence live)
]

IsRising-then :
    (n : ℕ) (sent live : List AgentEvent)
    → IsRising n sent
    → IsRising n (sent ++ forward (last_sent n sent) live)
unfolding last_sent
IsRising-then n [] live h = forward-IsRising n live
IsRising-then n (e ∷ sent) live h = (
  h.0,
  subst (λ m. IsRising e.sequence (sent ++ forward (last_sent m sent) live)) (omega arith)
      (IsRising-then e.sequence sent live h.1),
)

numbered-IsRising :
    (k : ℕ) (rows : List EventRow) → IsNumbered k rows → IsRising k (map event_of rows)
numbered-IsRising k [] h = tt
numbered-IsRising k (r ∷ rows) h = (
  omega arith,
  subst (λ m. IsRising m (map event_of rows)) (sym h.0) (numbered-IsRising (suc k) rows h.1),
)

IsNumbered-take : (k n : ℕ) (rows : List EventRow) → IsNumbered k rows → IsNumbered k (take n rows)
IsNumbered-take k zero rows h = tt
IsNumbered-take k (suc n) [] h = tt
IsNumbered-take k (suc n) (r ∷ rows) h = (h.0, IsNumbered-take (suc k) n rows h.1)

IsNumbered-from : (n : ℕ) (rows : List EventRow) → IsNumbered 0 rows → IsNumbered n (drop n rows)
IsNumbered-from n rows h =
    subst (λ k. IsNumbered k (drop n rows)) (omega arith) (IsNumbered-drop 0 n rows h)

-- The replayed events of a log.
replay_of :
    (task_id session_id : String) (after : ℕ) (w : World) (session : SessionRow)
    → IsLog task_id session_id w session
    → IsRising after (map event_of (take 500 (drop after (events_of task_id w.events))))
replay_of task_id session_id after w session log =
    numbered-IsRising after (take 500 (drop after (events_of task_id w.events))) (
      IsNumbered-take after 500 (drop after (events_of task_id w.events))
        (IsNumbered-from after (events_of task_id w.events) log.numbered))

-- From a task's log, whatever the bus delivers afterwards, late, twice or out of order, the client
-- is sent events with rising numbers only, all above the one that it asked to start from.
pub task_events-IsRising :
    (task_id session_id : String) (after : ℕ) (w : World) (session : SessionRow)
    (live : List AgentEvent) (replay : List AgentEvent)
    → IsLog task_id session_id w session
    → (list_after task_id after 500 w).0 ≡ ok replay
    → IsRising after (task_events after replay live)
unfolding task_events
task_events-IsRising task_id session_id after w session live replay log read =
    IsRising-then after replay live (
      subst (IsRising after)
        (same (
          ap (λ (r : Result (List AgentEvent) × World). r.0)
            (sym (list_after_lem task_id session_id after 500 w session log))
          ∙ read))
        (replay_of task_id session_id after w session log))
  where
    same : {a b : List AgentEvent} → ok a ≡ ok b → a ≡ b
    same e = cc

skip_sent :
    (last k n : ℕ) (rows : List EventRow)
    → IsNumbered k rows
    → last ≡ k + n
    → forward last (map event_of rows) ≡ map event_of (drop n rows)
unfolding forward
skip_sent last k zero [] h e = refl
skip_sent last k zero (r ∷ rows) h e = ground (arith, skip_sent r.sequence (suc k) 0 rows)
skip_sent last k (suc n) [] h e = refl
skip_sent last k (suc n) (r ∷ rows) h e = ground (arith, skip_sent last (suc k) n rows)

last_sent-IsNumbered :
    (k : ℕ) (rows : List EventRow)
    → IsNumbered k rows
    → last_sent k (map event_of rows) ≡ k + length rows
unfolding last_sent
last_sent-IsNumbered k [] h = omega arith
last_sent-IsNumbered k (r ∷ rows) h =
    subst (λ m. last_sent m (map event_of rows) ≡ k + suc (length rows)) (omega arith)
      (last_sent-IsNumbered (suc k) rows h.1 ∙ omega arith)

-- The log has no more than 500 events after the number that the client asks from, and the bus
-- delivers the log's later events without a gap, from any event that the replay knew or the next
-- one. Then the client is sent every event after its number, each once and in order.
pub task_events_complete :
    (after k : ℕ) (rows more : List EventRow)
    → IsNumbered 0 (rows ++ more)
    → IsNumbered 0 rows
    → after ≤ length rows
    → length rows ≤ after + 500
    → k ≤ length rows
    → task_events after
        (map event_of (take 500 (drop after rows)))
        (map event_of (drop k (rows ++ more)))
      ≡ map event_of (drop after (rows ++ more))
unfolding task_events
task_events_complete after k rows more numbered known le short from =
    rw (take_all 500 (drop after rows) (omega (arith, length-drop after rows))) (
      rw end (
        rw new (
          sym (map-append event_of (drop after rows) more)
          ∙ ap (map event_of) (sym (drop-append after rows more le)))))
  where
    end : last_sent after (map event_of (drop after rows)) ≡ length rows
    end =
        last_sent-IsNumbered after (drop after rows) (IsNumbered-from after rows known)
        ∙ omega (arith, length-drop after rows)

    rest : drop (length rows - k) (drop k (rows ++ more)) ≡ more
    rest =
        drop-drop (length rows - k) k (rows ++ more)
        ∙ ap (λ n. drop n (rows ++ more)) (omega arith)
        ∙ drop-append (length rows) rows more (omega arith)
        ∙ ap (λ xs. xs ++ more) (drop-length rows)

    new : forward (length rows) (map event_of (drop k (rows ++ more))) ≡ map event_of more
    new =
        skip_sent (length rows) k (length rows - k) (drop k (rows ++ more))
          (IsNumbered-from k (rows ++ more) numbered) (omega arith)
        ∙ ap (map event_of) rest
