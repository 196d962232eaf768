-- ===== src/Events/Replay.antt =====
-- What `EventStore.list_after` returns of a log.
use software_engineering_age.Prelude.{
  subst, ℕ, zero, suc, ◌+◌, ◌≤◌, String, ◌≡◌, refl, List, [], ◌∷◌, map, ltb, select, take, drop,
  arith,
}
use software_engineering_age.Effects.{ok}
use software_engineering_age.Models.{SessionRow, EventRow, World}
use software_engineering_age.Events.{is_after, event_of, list_after, order_by_sequence}
use software_engineering_age.Events.Log.{events_of, IsNumbered, IsLog}

select-is_after :
    (task_id : String) (n : ℕ) (rows : List EventRow)
    → select (is_after task_id n) rows ≡ select (λ r. ltb n r.sequence) (events_of task_id rows)
select-is_after task_id n [] = refl
select-is_after task_id n (r ∷ rows) = ground (arith, select-is_after task_id n rows)

all_after :
    (m j : ℕ) (rows : List EventRow)
    → IsNumbered j rows
    → m ≤ j
    → select (λ r. ltb m r.sequence) rows ≡ rows
all_after m j [] h le = refl
all_after m j (r ∷ rows) h le = ground (arith, all_after m (suc j) rows)

-- Past a number, a numbered list is what is left when the rows up to it are dropped.
select-IsNumbered :
    (m k n : ℕ) (rows : List EventRow)
    → IsNumbered k rows
    → m ≡ k + n
    → select (λ r. ltb m r.sequence) rows ≡ drop n rows
select-IsNumbered m k zero rows h e = all_after m k rows h (omega arith)
select-IsNumbered m k (suc n) [] h e = refl
select-IsNumbered m k (suc n) (r ∷ rows) h e = ground (arith, select-IsNumbered m (suc k) n rows)

order-IsNumbered :
    (k : ℕ) (rows : List EventRow) → IsNumbered k rows → order_by_sequence rows ≡ rows
unfolding order_by_sequence
order-IsNumbered k [] h = refl
order-IsNumbered k (r ∷ []) h = refl
order-IsNumbered k (r ∷ x ∷ rows) h = rw (order-IsNumbered (suc k) (x ∷ rows) h.1) (ground arith)

pub IsNumbered-drop :
    (k n : ℕ) (rows : List EventRow) → IsNumbered k rows → IsNumbered (k + n) (drop n rows)
IsNumbered-drop k zero rows h = subst (λ j. IsNumbered j rows) (omega arith) h
IsNumbered-drop k (suc n) [] h = tt
IsNumbered-drop k (suc n) (r ∷ rows) h =
    subst (λ j. IsNumbered j (drop n rows)) (omega arith) (IsNumbered-drop (suc k) n rows h.1)

-- On a task's log, `list_after` with a number and a limit returns the events that follow that
-- number, as many as the limit allows, in order and without a gap.
pub list_after_lem :
    (task_id session_id : String) (n limit : ℕ) (w : World) (session : SessionRow)
    → IsLog task_id session_id w session
    → list_after task_id n limit w
      ≡ (ok (map event_of (take limit (drop n (events_of task_id w.events)))), w)
unfolding list_after
list_after_lem task_id session_id n limit w session log = rw (select-is_after task_id n w.events) (
    rw (select-IsNumbered n 0 n (events_of task_id w.events) log.numbered (omega arith)) (
      rw (
        order-IsNumbered (0 + n) (drop n (events_of task_id w.events))
          (IsNumbered-drop 0 n (events_of task_id w.events) log.numbered))))
