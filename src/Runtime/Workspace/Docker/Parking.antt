-- ===== src/Runtime/Workspace/Docker/Parking.antt =====
-- src/minion/runtime/workspace.py: a workspace that is released and kept is found again by `attach`,
-- in whatever slot is free.
use software_engineering_age.Prelude.{
  String, ◌≡◌, refl, sym, subst, true, false, ◌&&◌, none, some, List, [], ◌∷◌, all_of, contains,
  arith, eq_iff, is_some,
}
use software_engineering_age.Prelude.Dict
use software_engineering_age.Prelude.Dict.{Dict, get-put, get-remove}
use software_engineering_age.Domain.{RepositorySpec}
use software_engineering_age.Effects.{ok, pure, modify, gets, lift, catching, ◌>>=◌}
use software_engineering_age.Runtime.Workspace.{Workspace, WarmSlot}
use software_engineering_age.Runtime.Workspace.Host.{
  Host, Machine, succeeded, run_exec, child, exists, has_entry, in_tree, without_tree, on_failure,
  remove_tree, move, moving, removing,
}
use software_engineering_age.Runtime.Workspace.Local
use software_engineering_age.Runtime.Workspace.Docker.Slots.{DockerSettings}
use software_engineering_age.Runtime.Workspace.Docker.{
  docker_workspace, attach_in, healthy, is_running, on_environment_error, park,
}
use software_engineering_age.Runtime.Workspace.Docker.Releases.{get-without_tree}
use software_engineering_age.Runtime.Workspace.Docker.Pool.{IsObeyed}

get-without_tree_other :
    {A : Type 0} (path key : String) (d : Dict A)
    → in_tree path key ≡ false
    → Dict.get key (without_tree path d) ≡ Dict.get key d
get-without_tree_other path key [] h = refl
get-without_tree_other path key ((p, a) ∷ rest) h =
    ground (arith, get-without_tree_other path key rest, eq_iff p key)

moved : String → String → List String → Host → Host
moved source target names h = record h {
  directories = Dict.put target names (Dict.remove source h.directories);
}

move_eq :
    (machine : Machine) (name source target : String) (names : List String) (h : Host)
    → Dict.get source h.directories ≡ some names
    → exists target h ≡ false
    → machine.refuses (moving source target) h ≡ none
    → move machine name source target h ≡ (ok tt, moved source target names h)
unfolding move moved
move_eq machine name source target names h here free obeyed = ground arith

get-moved :
    (source target : String) (names : List String) (h : Host)
    → Dict.get target (moved source target names h).directories ≡ some names
unfolding moved
get-moved source target names h =
    ground
      (arith, get-put target target names (Dict.remove source h.directories), eq_iff target target)

module _ (machine : Machine) (settings : DockerSettings) where
  -- the directory of a workspace that is parked
  parked :
      (w : Workspace) (names : List String) (h : Host)
      → let target = child settings.local.workspace_root w.environment_id in
        IsObeyed machine
        → Dict.get w.root h.directories ≡ some names
        → in_tree target w.root ≡ false
        → Dict.get target (park machine settings w h).1.directories ≡ some names
  unfolding park remove_tree gets modify pure ◌>>=◌
  parked w names h obeyed here apart =
      let target = child settings.local.workspace_root w.environment_id in
      let cleared = record h { directories = without_tree target h.directories } in
      ground (
        arith,
        get-without_tree target h.directories,
        get-without_tree_other target w.root h.directories,
        obeyed.refuses (removing target) h,
        obeyed.refuses (moving w.root target) h,
        obeyed.refuses (moving w.root target) cleared,
        move_eq machine w.environment_id w.root target names h,
        move_eq machine w.environment_id w.root target names cleared,
        get-moved w.root target names h,
        get-moved w.root target names cleared,
      )

  -- `docker inspect` finds the container of a slot running, and changes nothing.
  pub record IsUp (slot : WarmSlot) : Type 0 where
    pub state :
        (h : Host)
        → machine.process
            ("docker" ∷ "inspect" ∷ "-f" ∷ "{{.State.Running}}" ∷ slot.container_name ∷ [])
            none
            none
            600
            h
          ≡ (ok (succeeded "true"), h)

  is_running_up :
      (slot : WarmSlot) (h : Host)
      → IsUp slot
      → is_running machine settings (some slot.container_name) h ≡ (ok true, h)
  unfolding is_running on_environment_error catching run_exec lift pure ◌>>=◌
  is_running_up slot h up = rw (up.state h) refl

  abbrev pub recovered : WarmSlot → String → List RepositorySpec → Workspace
  recovered slot id specs =
      docker_workspace id (child slot.host_root id)
        (Local.named_paths (child slot.host_root id) specs []) slot

  healthy_up :
      (slot : WarmSlot) (id : String) (specs : List RepositorySpec) (names : List String) (h : Host)
      → IsUp slot
      → Dict.get (child slot.host_root id) h.directories ≡ some names
      → all_of
          (λ n. contains n names)
          (Dict.keys (Local.named_paths (child slot.host_root id) specs []))
        ≡ true
      → healthy machine settings (recovered slot id specs) h ≡ (ok true, h)
  unfolding healthy gets ◌>>=◌
  healthy_up slot id specs names h up here all =
      rw
        (subst
          (λ o.
            is_some o
              && all_of (has_entry o)
                  (Dict.keys (Local.named_paths (child slot.host_root id) specs []))
            ≡ true)
          (sym here) all)
        (is_running_up slot h up)

  attached :
      (slot : WarmSlot) (id : String) (specs : List RepositorySpec) (names : List String) (h : Host)
      → IsObeyed machine
      → IsUp slot
      → Dict.get (child settings.local.workspace_root id) h.directories ≡ some names
      → exists (child slot.host_root id) h ≡ false
      → all_of
          (λ n. contains n names)
          (Dict.keys (Local.named_paths (child slot.host_root id) specs []))
        ≡ true
      → attach_in machine settings slot id specs h ≡ (
        ok (recovered slot id specs),
        moved (child settings.local.workspace_root id) (child slot.host_root id) names h,
      )
  unfolding attach_in on_failure catching healthy gets pure ◌>>=◌
  attached slot id specs names h obeyed up here free all =
      rw
        (move_eq machine id (child settings.local.workspace_root id) (child slot.host_root id) names
          h here free (obeyed.refuses _ h))
        (rw
          (healthy_up slot id specs names
            (moved (child settings.local.workspace_root id) (child slot.host_root id) names h) up
            (get-moved (child settings.local.workspace_root id) (child slot.host_root id) names h)
            all)
          refl)

  -- A workspace that is released and kept, and then attached in a free slot whose container runs, is
  -- found with the repositories that were in its directory, if these have the names asked for, the
  -- directory is not below the place where it is parked, and the file system carries out every call.
  pub attach_in-park :
      (w : Workspace) (slot : WarmSlot) (specs : List RepositorySpec) (names : List String)
      (h : Host)
      → IsObeyed machine
      → IsUp slot
      → Dict.get w.root h.directories ≡ some names
      → in_tree (child settings.local.workspace_root w.environment_id) w.root ≡ false
      → exists (child slot.host_root w.environment_id) (park machine settings w h).1 ≡ false
      → all_of
          (λ n. contains n names)
          (Dict.keys (Local.named_paths (child slot.host_root w.environment_id) specs []))
        ≡ true
      → let (r, h') =
          attach_in machine settings slot w.environment_id specs (park machine settings w h).1 in
        (r ≡ ok (recovered slot w.environment_id specs))
        × (Dict.get (child slot.host_root w.environment_id) h'.directories ≡ some names)
  attach_in-park w slot specs names h obeyed up here apart free all =
      rw
        (attached slot w.environment_id specs names (park machine settings w h).1 obeyed up
          (parked w names h obeyed here apart) free all)
        (
          refl,
          get-moved (child settings.local.workspace_root w.environment_id)
              (child slot.host_root w.environment_id) names (park machine settings w h).1,
        )
