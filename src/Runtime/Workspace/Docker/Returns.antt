-- ===== src/Runtime/Workspace/Docker/Returns.antt =====
-- src/minion/runtime/workspace.py: a call that took a slot keeps it if it returns, and puts it back if
-- it raises.
use software_engineering_age.Prelude.{
  suc, String, ◌≡◌, refl, ◌∙◌, Bool, true, false, not, ◌&&◌, ◌<>◌, Option-cases, List, [], ◌∷◌,
  ◌++◌, arith, if◌then◌else◌,
}
use software_engineering_age.Prelude.Dict
use software_engineering_age.Prelude.Dict.{Dict}
use software_engineering_age.Domain.{RepositorySpec}
use software_engineering_age.Effects.{
  Action, Result, Exn, ok, err, pure, raise, gets, modify, catching, and_then, or_else, ◌>>=◌, ◌>>◌,
}
use software_engineering_age.Effects.Rules.{Respects}
use software_engineering_age.Runtime.Workspace.{WarmSlot}
use software_engineering_age.Runtime.Workspace.Host.{
  Host, Machine, child, exists, make_directory, remove_tree, move, on_failure, put_slot,
  new_environment, draw, making, moving,
}
use software_engineering_age.Runtime.Workspace.Docker.Slots.{DockerSettings}
use software_engineering_age.Runtime.Workspace.Docker.{allocate_in, occupy, attach_in, undo_attach}
use software_engineering_age.Runtime.Workspace.Docker.Pool.{
  populate-SamePool, SamePool, SamePool-IsPreorder, IsConfined, IsObeyed, move-SamePool,
  healthy-SamePool, pool_rules,
}

-- The slot went to the end of the pool.
pub record Back (slot : WarmSlot) (h h' : Host) : Type 0 where
  pub pool : h'.pool ≡ h.pool ++ slot ∷ []
  pub slots : h'.slots ≡ h.slots

-- What a call that took a slot does to the pool: nothing if it returns, and the slot goes back if it
-- raises.
abbrev pub GivesBack : {A : Type 0} → WarmSlot → Host → Result A × Host → Type 0
GivesBack slot h (ok a, h') = SamePool h h'
GivesBack slot h (err e, h') = Back slot h h'

pub after_same :
    {A : Type 0} (slot : WarmSlot) (h h₁ : Host) (r : Result A × Host)
    → SamePool h h₁
    → GivesBack slot h₁ r
    → GivesBack slot h r
after_same slot h h₁ (ok a, h') p q = SamePool-IsPreorder.transitive h h₁ h' p q
after_same slot h h₁ (err e, h') p q = record {
  pool = ground (arith, p.pool, q.pool);
  slots = q.slots ∙ p.slots;
}

module _ (slot : WarmSlot) (cleanup : Action Host Unit)
    (back : (h : Host) → Back slot h (cleanup h).1) where
  pub cleaned :
      (A : Type 0) (e : Exn) (h : Host) → GivesBack slot h ((cleanup >>= λ _. raise {A = A} e) h)
  unfolding ◌>>=◌ raise
  cleaned A e h = by_result (cleanup h) (back h)
    where
      by_result :
          (r : Result (Unit {0}) × Host)
          → Back slot h r.1
          → GivesBack {A = A} slot h (and_then r.0 (λ _. raise e) r.1)
      by_result (ok u, h') b = b
      by_result (err e', h') b = b

  pub on_failure-GivesBack :
      {A : Type 0} (m : Action Host A) (h : Host)
      → Respects SamePool m
      → GivesBack slot h (on_failure m cleanup h)
  unfolding on_failure catching
  on_failure-GivesBack {A = A} m h same = by_result (m h) (same.at h)
    where
      by_result :
          (r : Result A × Host)
          → SamePool h r.1
          → GivesBack {A = A} slot h (or_else r.0 (λ e. cleanup >>= λ _. raise e) r.1)
      by_result (ok a, h') p = p
      by_result (err e, h') p = after_same slot h h' _ p (cleaned A e h')

module _ {A B : Type 0} (slot : WarmSlot) (f : A → B) where
  pub GivesBack-pure :
      (m : Action Host A) (h : Host)
      → GivesBack slot h (m h)
      → GivesBack slot h ((m >>= λ a. pure (f a)) h)
  unfolding ◌>>=◌ pure
  GivesBack-pure m h g = by_result (m h) g
    where
      by_result :
          (r : Result A × Host)
          → GivesBack slot h r
          → GivesBack slot h (and_then r.0 (λ a. pure (f a)) r.1)
      by_result (ok a, h') p = p
      by_result (err e, h') p = p

pub put_slot-Back : (slot : WarmSlot) (h : Host) → Back slot h (put_slot slot h).1
unfolding put_slot modify
put_slot-Back slot h = record { pool = refl; slots = refl }

pub emptied :
    (machine : Machine) (root : String) (slot : WarmSlot) (h : Host)
    → Back slot h ((remove_tree machine root >>= λ _. put_slot slot) h).1
unfolding remove_tree put_slot modify ◌>>=◌
emptied machine root slot h = ground arith

-- A move of a directory that is there to a path where there is none does not fail, if it is not
-- refused.
pub move_ok :
    (machine : Machine) (name source target : String) (h : Host)
    → IsObeyed machine
    → exists source h ≡ true
    → exists target h ≡ false
    → (move machine name source target h).0 ≡ ok tt
unfolding move
move_ok machine name source target h obeyed here free =
    ground
      (arith, obeyed.refuses (moving source target) h, Option-cases (Dict.get source h.directories))

pub undo_attach-Back :
    (machine : Machine) (slot : WarmSlot) (id target persistent : String) (h : Host)
    → IsObeyed machine
    → Back slot h (undo_attach machine slot id target persistent h).1
unfolding undo_attach put_slot gets modify pure ◌>>=◌
undo_attach-Back machine slot id target persistent h obeyed =
    by_place (exists target h) (exists persistent h) refl refl
  where
    by_place :
        (moved parked : Bool)
        → exists target h ≡ moved
        → exists persistent h ≡ parked
        → Back slot h
            (((if moved && not parked then move machine id target persistent else pure tt)
                >> put_slot slot)
              h).1
    by_place true false here free =
        let same = (move-SamePool machine id target persistent).at h in
        ground
          (arith, move_ok machine id target persistent h obeyed here free, same.pool, same.slots)
    by_place true true _ _ = record { pool = refl; slots = refl }
    by_place false parked _ _ = record { pool = refl; slots = refl }

-- the path of the directory that `allocate` makes next in a slot
abbrev pub next_root : WarmSlot → Host → String
next_root slot h = child slot.host_root ("env" <> ("_" <> h.uuid4 h.drawn))

pub started : WarmSlot → Host → Host
started slot h = record h {
  drawn = suc h.drawn;
  directories = Dict.put (next_root slot h) [] h.directories;
}

pub start_environment :
    {A : Type 0} (machine : Machine) (slot : WarmSlot) (h : Host) (k : String → Action Host A)
    → IsObeyed machine
    → exists (next_root slot h) h ≡ false
    → (new_environment >>= λ id. make_directory machine (child slot.host_root id) >>= λ _. k id) h
      ≡ k ("env" <> ("_" <> h.uuid4 h.drawn)) (started slot h)
unfolding new_environment draw make_directory started pure ◌>>=◌
start_environment machine slot h k obeyed free =
    rw (free, obeyed.refuses (making (next_root slot h)) (record h { drawn = suc h.drawn })) refl

pub allocate_in-GivesBack :
    (machine : Machine) (settings : DockerSettings) (slot : WarmSlot) (task_id : String)
    (specs : List RepositorySpec) (h : Host)
    → IsConfined machine
    → IsObeyed machine
    → exists (next_root slot h) h ≡ false
    → GivesBack slot h (allocate_in machine settings slot task_id specs h)
unfolding allocate_in started occupy
allocate_in-GivesBack machine settings slot task_id specs h confined obeyed free =
    rw (start_environment machine slot h (occupy machine settings slot task_id specs) obeyed free) (
      after_same slot h (started slot h) _ (record { pool = refl; slots = refl })
        (GivesBack-pure slot _ _ (started slot h) (
          on_failure-GivesBack slot _ (emptied machine (next_root slot h) slot) _ (started slot h)
            (populate-SamePool machine confined settings.local (next_root slot h) task_id specs))))

pub attach_in-GivesBack :
    (machine : Machine) (settings : DockerSettings) (slot : WarmSlot) (id : String)
    (specs : List RepositorySpec) (h : Host)
    → IsConfined machine
    → IsObeyed machine
    → GivesBack slot h (attach_in machine settings slot id specs h)
unfolding attach_in
attach_in-GivesBack machine settings slot id specs h confined obeyed =
    on_failure-GivesBack slot
      (undo_attach machine slot id (child slot.host_root id)
        (child settings.local.workspace_root id))
      (λ h.
        undo_attach-Back machine slot id (child slot.host_root id)
          (child settings.local.workspace_root id) h obeyed)
      _ h (search (pool_rules, healthy-SamePool) depth 8)
