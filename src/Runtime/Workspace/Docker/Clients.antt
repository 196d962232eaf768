-- ===== src/Runtime/Workspace/Docker/Clients.antt =====
-- src/minion/runtime/workspace.py: the clients of the Docker provider. `Step` is one call by a client
-- that gives a workspace back at most once.
use software_engineering_age.Prelude.{
  String, ◌≡◌, Bool, false, Option, none, some, List, [], ◌∷◌, ◌++◌, All,
}
use software_engineering_age.Prelude.Dict
use software_engineering_age.Prelude.Dict.{Dict}
use software_engineering_age.Domain.{RepositorySpec}
use software_engineering_age.Effects.{Result, ok, err}
use software_engineering_age.Runtime.Workspace.{Workspace, WarmSlot}
use software_engineering_age.Runtime.Workspace.Host.{Host, Machine, exists}
use software_engineering_age.Runtime.Workspace.Docker.Slots.{DockerSettings}
use software_engineering_age.Runtime.Workspace.Docker.{slot_of, allocate, attach, release}
use software_engineering_age.Runtime.Workspace.Docker.Returns.{next_root}

pub record Clients : Type 0 where
  pub host : Host
  pub leased : List Workspace

abbrev pub optional : Option WarmSlot → List WarmSlot
optional none = []
optional (some slot) = slot ∷ []

abbrev pub leased_slots : Dict WarmSlot → List Workspace → List WarmSlot
leased_slots slots [] = []
leased_slots slots (w ∷ ws) = optional (slot_of slots w) ++ leased_slots slots ws

-- The slots that are free and those of the workspaces that are leased.
abbrev pub owned : Clients → List WarmSlot
owned c = c.host.pool ++ leased_slots c.host.slots c.leased

-- The table of slots has each slot under its own name, and the free ones are in it.
pub record IsRegistered (h : Host) : Type 0 where
  pub keyed :
      (key : String) (slot : WarmSlot) → Dict.get key h.slots ≡ some slot → slot.slot_id ≡ key
  pub free : All (λ slot. Dict.get slot.slot_id h.slots ≡ some slot) h.pool

-- The identifier that is drawn next names no directory in a free slot.
abbrev pub IsNew : Host → Type 0
IsNew h = All (λ slot. exists (next_root slot h) h ≡ false) h.pool

abbrev pub after : Result (Option Workspace) × Host → List Workspace → Clients
after (ok (some w), h) leased = record { host = h; leased = w ∷ leased }
after (ok none, h) leased = record { host = h; leased = leased }
after (err e, h) leased = record { host = h; leased = leased }

-- a workspace that was got is leased
abbrev pub leasing : Result Workspace × Host → Result (Option Workspace) × Host
leasing (ok w, h) = (ok (some w), h)
leasing (err e, h) = (err e, h)

module _ (machine : Machine) (settings : DockerSettings) where
  pub data Step : Clients → Clients → Type 0 where
    allocates :
        {c : Clients} (task_id : String) (specs : List RepositorySpec)
        → IsNew c.host
        → Step c (after (allocate machine settings task_id specs c.host) c.leased)
    attaches :
        {c : Clients} (id : String) (specs : List RepositorySpec)
        → Step c (after (attach machine settings id specs c.host) c.leased)
    releases :
        {c : Clients} (others rest : List Workspace) (w : Workspace) (destroy : Bool)
        → c.leased ≡ others ++ w ∷ rest
        → Step c (record {
          host = (release machine settings w destroy c.host).1;
          leased = others ++ rest;
        })
