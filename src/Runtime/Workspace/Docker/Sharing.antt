-- ===== src/Runtime/Workspace/Docker/Sharing.antt =====
-- src/minion/runtime/workspace.py: no slot is handed out twice, also where the file system refuses a
-- call and a slot is lost.
use mathlib.Core.List.{Perm}
use mathlib.Core.List.Perm
use software_engineering_age.Prelude.{List, ◌++◌}
use software_engineering_age.Prelude.Dict
use software_engineering_age.Runtime.Workspace.{Workspace, WarmSlot}
use software_engineering_age.Runtime.Workspace.Host.{Host}
use software_engineering_age.Effects.Ensures.{Ensures}
use software_engineering_age.Runtime.Workspace.Docker.Clients.{Clients, owned, IsRegistered}

-- No slot is owned more often than before, for what was lost makes up the difference.
Shared : Clients → Clients → Type 0
Shared c c' = IsRegistered c'.host × ((lost : List WarmSlot) × Perm (lost ++ owned c') (owned c))
