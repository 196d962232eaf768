-- ===== src/Runtime/Workspace/Docker/Conservation.antt =====
-- src/minion/runtime/workspace.py: no slot is lost, and none is handed out twice.
use mathlib.Core.List.{Perm, append_assoc, perm_middle, append-nil}
use mathlib.Core.List.Perm
use software_engineering_age.Prelude.{
  ◌≡◌, refl, sym, ap, ◌∙◌, subst, false, Bool-cases, inl, inr, Option, none, some, List, [], ◌∷◌,
  ◌++◌, All,
}
use software_engineering_age.Prelude.Dict
use software_engineering_age.Prelude.Dict.{Dict}
use software_engineering_age.Effects.{pure, gets, ◌>>=◌}
use software_engineering_age.Runtime.Workspace.{Workspace, WarmSlot}
use software_engineering_age.Runtime.Workspace.Host.{Host, Machine, child, exists}
use software_engineering_age.Runtime.Workspace.Docker.Slots.{DockerSettings}
use software_engineering_age.Runtime.Workspace.Docker.{
  slot_key, slot_of, allocate, allocate_in, attach, attach_in, release,
}
use software_engineering_age.Runtime.Workspace.Docker.Pool.{IsConfined, IsObeyed}
use software_engineering_age.Runtime.Workspace.Docker.Returns.{
  next_root, allocate_in-GivesBack, attach_in-GivesBack,
}
use software_engineering_age.Runtime.Workspace.Docker.Clients.{
  allocates, attaches, releases, Clients, optional, leased_slots, owned, IsRegistered, Step,
}
use software_engineering_age.Runtime.Workspace.Docker.Claims.{
  allocated_slot, attached_slot, All-snoc, same_table, both, taken,
}
use software_engineering_age.Runtime.Workspace.Docker.Releases.{release_back}

module _ (machine : Machine) (settings : DockerSettings) where
  pub leased_slots-append :
      (slots : Dict WarmSlot) (xs ys : List Workspace)
      → leased_slots slots (xs ++ ys) ≡ leased_slots slots xs ++ leased_slots slots ys
  leased_slots-append slots [] ys = refl
  leased_slots-append slots (w ∷ ws) ys =
      ap (λ l. optional (slot_of slots w) ++ l) (leased_slots-append slots ws ys)
      ∙ sym (
          append_assoc (optional (slot_of slots w)) (leased_slots slots ws) (leased_slots slots ys))

  given_back :
      (pool xs ys : List WarmSlot) (o : Option WarmSlot)
      → Perm ((pool ++ optional o) ++ (xs ++ ys)) (pool ++ (xs ++ (optional o ++ ys)))
  given_back pool xs ys none = both (ap (λ l. l ++ (xs ++ ys)) (append-nil pool)) refl Perm.rfl
  given_back pool xs ys (some s) =
      both (append_assoc pool (s ∷ []) (xs ++ ys)) refl
        (Perm.append_left pool (Perm.symm (perm_middle xs ys)))

  -- A workspace that is given back, with its slot.
  pub released :
      (c : Clients) (others rest : List Workspace) (w : Workspace)
      → c.leased ≡ others ++ w ∷ rest
      → IsRegistered c.host
      → (h' : Host) → h'.pool ≡ c.host.pool ++ optional (slot_of c.host.slots w)
      → h'.slots ≡ c.host.slots
      → IsRegistered h' × Perm (owned (record { host = h'; leased = others ++ rest })) (owned c)
  released c others rest w e reg h' pool slots = (
    same_table c.host h' slots reg
        (subst (All (λ s. Dict.get s.slot_id c.host.slots ≡ some s)) (sym pool) known),
    both
        (ap (λ t. h'.pool ++ leased_slots t (others ++ rest)) slots
          ∙ ap (λ l. l ++ leased_slots c.host.slots (others ++ rest)) pool
          ∙ ap (λ l. (c.host.pool ++ optional (slot_of c.host.slots w)) ++ l)
              (leased_slots-append c.host.slots others rest))
        (ap (λ l. c.host.pool ++ leased_slots c.host.slots l) e
          ∙ ap (λ l. c.host.pool ++ l) (leased_slots-append c.host.slots others (w ∷ rest)))
        (given_back c.host.pool (leased_slots c.host.slots others) (leased_slots c.host.slots rest)
          (slot_of c.host.slots w)),
  )
    where
      known :
          All
            (λ s. Dict.get s.slot_id c.host.slots ≡ some s)
            (c.host.pool ++ optional (slot_of c.host.slots w))
      known = with_optional (slot_of c.host.slots w) refl
        where
          with_optional :
              (o : Option WarmSlot)
              → slot_of c.host.slots w ≡ o
              → All (λ s. Dict.get s.slot_id c.host.slots ≡ some s) (c.host.pool ++ optional o)
          with_optional none _ = rw (append-nil c.host.pool) reg.free
          with_optional (some s) found =
              All-snoc (λ s. Dict.get s.slot_id c.host.slots ≡ some s) c.host.pool s reg.free
                (ap (λ k. Dict.get k c.host.slots) (reg.keyed (slot_key w.slot_id) s found) ∙ found)

  -- A call of the provider by a client that gives a workspace back at most once neither loses a slot
  -- nor hands one out twice: the slots that are free and those that are worked in are the same
  -- afterwards, each as often as before, if the file system carries out every call, a process and a
  -- lock touch neither, and drawn names are new.
  pub Step-owned :
      {c c' : Clients}
      → IsConfined machine
      → IsObeyed machine
      → Step machine settings c c'
      → IsRegistered c.host
      → IsRegistered c'.host × Perm (owned c') (owned c)
  unfolding allocate attach gets pure ◌>>=◌
  Step-owned {c} confined obeyed (allocates task_id specs new) reg =
      taken (λ slot. allocate_in machine settings slot task_id specs) c c.host.pool refl reg
        (λ slot rest e.
          allocate_in-GivesBack machine settings slot task_id specs (record c.host { pool = rest })
            confined obeyed
            ((subst (All (λ s. exists (next_root s c.host) c.host ≡ false)) e new).0))
        (λ slot. allocated_slot machine settings slot task_id specs)
  Step-owned {c} confined obeyed (attaches id specs) reg =
      elim (Bool-cases (exists (child settings.local.workspace_root id) c.host)) [
        | inl parked ↦ rw parked (
            taken (λ slot. attach_in machine settings slot id specs) c c.host.pool refl reg
              (λ slot rest e.
                attach_in-GivesBack machine settings slot id specs (record c.host { pool = rest })
                  confined obeyed)
              (λ slot. attached_slot machine settings slot id specs))
        | inr absent ↦ rw absent (reg, Perm.rfl)
      ]
  Step-owned {c} confined obeyed (releases others rest w destroy e) reg =
      released c others rest w e reg (release machine settings w destroy c.host).1
        (release_back machine settings w destroy c.host obeyed).0
        (release_back machine settings w destroy c.host obeyed).1

  -- The calls of any number of clients, one after the other.
  pub data Steps : Clients → Clients → Type 0 where
    nothing : {c : Clients} → Steps c c
    then_steps : {c d e : Clients} → Step machine settings c d → Steps d e → Steps c e

  -- Whatever calls clients make that give each workspace back at most once, and whatever a process
  -- or a lock raises in them: the slots that are free and those that are worked in are the ones from
  -- before, each as often, if the file system carries out every call, a process and a lock touch no
  -- slot, the table has each slot under its name, and drawn names are new.
  pub slots_conserved :
      {c c' : Clients}
      → IsConfined machine
      → IsObeyed machine
      → Steps c c'
      → IsRegistered c.host
      → IsRegistered c'.host × Perm (owned c') (owned c)
  slots_conserved confined obeyed nothing reg = (reg, Perm.rfl)
  slots_conserved confined obeyed (then_steps s rest) reg =
      let (reg', p) = Step-owned confined obeyed s reg in
      let (reg'', q) = slots_conserved confined obeyed rest reg' in (reg'', Perm.trans q p)
