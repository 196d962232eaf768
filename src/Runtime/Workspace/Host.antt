-- ===== src/Runtime/Workspace/Host.antt =====
-- src/minion/runtime/workspace.py: what the providers change, the directories of the machine, the
-- pool of warm slots, and `run_exec`. A process, a file lock, and what the file system refuses are
-- parameters.
use software_engineering_age.Prelude.{
  ℕ, suc, String, ◌<>◌, Bool, false, ◌||◌, Option, none, some, List, [], ◌∷◌, ◌++◌, ◌==◌, contains,
  if◌then◌else◌, is_some,
}
use text.Mathlib.Text.{starts_with}
use software_engineering_age.Prelude.Text
use software_engineering_age.Prelude.Dict
use software_engineering_age.Prelude.Dict.{Dict}
use software_engineering_age.Effects.{
  Action, Result, ok, err, environment_error, external, pure, raise, lift, modify, catching,
  finally, ◌>>=◌,
}
use software_engineering_age.Security.{Environ}
use software_engineering_age.Runtime.Workspace.{WarmSlot}

-- `directories` has the path of each slot's and each environment's directory, with the names of the
-- repositories in it.
pub record Host : Type 0 where
  pub directories : Dict (List String)
  pub uuid4 : ℕ → String
  pub drawn : ℕ
  pub pool : List WarmSlot
  pub slots : Dict WarmSlot

-- How a process ends: with code 0, with another code, or not within the timeout.
pub data Outcome : Type 0 where
  succeeded : String → Outcome
  failed : String → String → Outcome
  timed_out : Outcome

-- The calls of the file system that change directories.
pub data FileOperation : Type 0 where
  making : String → FileOperation
  removing : String → FileOperation
  moving : String → String → FileOperation

-- What the machine does. It runs a process, of which `run_exec` sees how it ended; `acquire` and
-- `release` are those of a file lock, in whatever thread they run; and `refuses` is the OSError of a
-- call that the file system does not carry out, with the directories as that left them.
pub record Machine : Type 0 where
  pub process : List String → Option String → Option Environ → ℕ → Action Host Outcome
  pub acquire : String → Action Host Unit
  pub release : String → Action Host Unit
  pub refuses : FileOperation → Host → Option (String × Dict (List String))

abbrev finish : List String → Outcome → Result String
finish args (succeeded output) = ok output
finish args (failed code output) = err (
    environment_error ("command failed (" <> code <> "): " <> Text.join " " args <> "\n" <> output))
finish args timed_out = err (environment_error ("command timed out: " <> Text.join " " args))

unfoldable pub run_exec :
    Machine → List String → Option String → Option Environ → ℕ → Action Host String
run_exec machine args cwd env timeout = do
  outcome ← machine.process args cwd env timeout
  lift (finish args outcome)

-- `path / name`
abbrev pub child : String → String → String
child path name = path <> "/" <> name

-- `path.exists()` of a directory
abbrev pub exists : String → Host → Bool
exists path h = is_some (Dict.get path h.directories)

-- `path.exists()` of a name in a directory
abbrev pub has_entry : Option (List String) → String → Bool
has_entry none name = false
has_entry (some names) name = contains name names

abbrev pub exists_in : String → String → Host → Bool
exists_in path name h = has_entry (Dict.get path h.directories) name

-- what is left of the directories by a call that the file system does not carry out
abbrev pub left_with : Dict (List String) → Host → Host
left_with directories h = record h { directories = directories }

-- `path.mkdir(parents=True, exist_ok=False)`
unfoldable pub make_directory : Machine → String → Action Host Unit
make_directory machine path h =
    if exists path h
    then (err (external "FileExistsError"), h)
    else elim (machine.refuses (making path) h) [
      | none ↦ (ok tt, record h { directories = Dict.put path [] h.directories })
      | some (e, directories) ↦ (err (external e), left_with directories h)
    ]

-- the directory itself, or one below it
abbrev pub in_tree : String → String → Bool
in_tree path p = p == path || starts_with p (path <> "/")

abbrev pub without_tree {ℓ} : {A : Type ℓ} → String → Dict A → Dict A
without_tree path [] = []
without_tree path ((p, a) ∷ rest) =
    let kept = without_tree path rest in if in_tree path p then kept else (p, a) ∷ kept

-- `shutil.rmtree(path, ignore_errors=True)`
unfoldable pub remove_tree : Machine → String → Action Host Unit
remove_tree machine path h = elim (machine.refuses (removing path) h) [
  | none ↦ (ok tt, record h { directories = without_tree path h.directories })
  | some (e, directories) ↦ (ok tt, left_with directories h)
]

abbrev renamed : Option (List String) → String → String → Host → Result (Unit {0}) × Host
renamed none source target h = (err (external "FileNotFoundError"), h)
renamed (some names) source target h =
    (ok tt, record h { directories = Dict.put target names (Dict.remove source h.directories) })

-- `shutil.move(source, target)` of a directory called `name`: where the target is a directory, it
-- goes into that, and nothing is moved over a directory that is there
unfoldable pub move : Machine → String → String → String → Action Host Unit
move machine name source target h =
    let real = if exists target h then child target name else target in
    if exists real h
    then (err (external "Error"), h)
    else elim (machine.refuses (moving source real) h) [
      | none ↦ renamed (Dict.get source h.directories) source real h
      | some (e, directories) ↦ (err (external e), left_with directories h)
    ]

-- `lock.acquire(); try: m  finally: lock.release()`
unfoldable pub locked : {A : Type 0} → Machine → String → Action Host A → Action Host A
unfolding finally
locked machine lock m = machine.acquire lock >>= λ _. finally m (machine.release lock)

-- `uuid4().hex`
unfoldable pub draw : Action Host String
draw h = (ok (h.uuid4 h.drawn), record h { drawn = suc h.drawn })

-- `pool.put`
unfoldable pub put_slot : WarmSlot → Action Host Unit
put_slot slot = modify (λ h. record h { pool = h.pool ++ slot ∷ [] })

abbrev first_slot : List WarmSlot → Host → Option WarmSlot × Host
first_slot [] h = (none, h)
first_slot (slot ∷ rest) h = (some slot, record h { pool = rest })

-- `_claim`; none where the caller waits
unfoldable pub claim : Action Host (Option WarmSlot)
claim h = let (slot, h') = first_slot h.pool h in (ok slot, h')

-- `try: m  except BaseException: cleanup; raise`
unfoldable pub on_failure : {A : Type 0} → Action Host A → Action Host Unit → Action Host A
on_failure m cleanup = catching m (λ e. cleanup >>= λ _. raise e)

-- `new_id("env")`
unfoldable pub new_environment : Action Host String
unfolding draw
new_environment = do hex ← draw; pure ("env" <> ("_" <> hex))
