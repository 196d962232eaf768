-- ===== src/Runtime/Workspace/Docker/Releases.antt =====
-- src/minion/runtime/workspace.py: what `release` does to the slots.
use mathlib.Core.List.{append-nil}
use software_engineering_age.Prelude.{
  String, ◌≡◌, refl, Bool, Option, none, [], ◌∷◌, ◌++◌, arith, eq_iff, if◌then◌else◌,
}
use software_engineering_age.Prelude.Dict
use software_engineering_age.Prelude.Dict.{Dict}
use software_engineering_age.Effects.{ok, pure, modify, gets, ◌>>=◌, ◌>>◌}
use software_engineering_age.Runtime.Workspace.{Workspace, WarmSlot}
use software_engineering_age.Runtime.Workspace.Host.{
  Host, Machine, child, without_tree, remove_tree, put_slot, removing,
}
use software_engineering_age.Runtime.Workspace.Docker.Slots.{DockerSettings}
use software_engineering_age.Runtime.Workspace.Docker.{slot_of, put_back, release, park}
use software_engineering_age.Runtime.Workspace.Docker.Pool.{
  SamePool, IsObeyed, move-SamePool, remove_tree-SamePool,
}
use software_engineering_age.Runtime.Workspace.Docker.Returns.{move_ok}
use software_engineering_age.Runtime.Workspace.Docker.Clients.{optional}

pub get-without_tree :
    {A : Type 0} (path : String) (d : Dict A) → Dict.get path (without_tree path d) ≡ none
get-without_tree path [] = refl
get-without_tree path ((p, a) ∷ rest) = ground (arith, get-without_tree path rest, eq_iff p path)

module _ (machine : Machine) (settings : DockerSettings) where
  pub park_ok :
      (w : Workspace) (h : Host) → IsObeyed machine → (park machine settings w h).0 ≡ ok tt
  unfolding park remove_tree gets modify pure ◌>>=◌
  park_ok w h obeyed =
      let target = child settings.local.workspace_root w.environment_id in
      ground (
        arith,
        get-without_tree target h.directories,
        obeyed.refuses (removing target) h,
        move_ok machine w.environment_id w.root target h obeyed,
        move_ok machine w.environment_id w.root target
            (record h { directories = without_tree target h.directories }) obeyed,
      )

  pub park-SamePool : (w : Workspace) (h : Host) → SamePool h (park machine settings w h).1
  unfolding park remove_tree gets modify pure ◌>>=◌
  park-SamePool w h =
      let target = child settings.local.workspace_root w.environment_id in
      let tree = remove_tree machine target h in
      ground (
        arith,
        (remove_tree-SamePool machine target).at h,
        (move-SamePool machine w.environment_id w.root target).at h,
        (move-SamePool machine w.environment_id w.root target).at tree.1,
      )

  pub release_back :
      (w : Workspace) (destroy : Bool) (h : Host)
      → IsObeyed machine
      → let h' = (release machine settings w destroy h).1 in
        (h'.pool ≡ h.pool ++ optional (slot_of h.slots w)) × (h'.slots ≡ h.slots)
  unfolding release remove_tree put_slot gets modify pure ◌>>=◌
  release_back w destroy h obeyed = by_case destroy (slot_of h.slots w)
    where
      by_case :
          (d : Bool) (o : Option WarmSlot)
          → let h' =
              (((if d then remove_tree machine w.root else park machine settings w) >> put_back o)
                h).1 in
            (h'.pool ≡ h.pool ++ optional o) × (h'.slots ≡ h.slots)
      by_case d o = ground (
        arith,
        (remove_tree-SamePool machine w.root).at h,
        park_ok w h obeyed,
        park-SamePool w h,
        append-nil h.pool,
      )
