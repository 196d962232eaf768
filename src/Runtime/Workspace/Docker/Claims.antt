-- ===== src/Runtime/Workspace/Docker/Claims.antt =====
-- src/minion/runtime/workspace.py: what a call that claims a slot does to the slots.
use mathlib.Core.List.{Perm, append_assoc, perm_middle}
use mathlib.Core.List.Perm
use software_engineering_age.Prelude.{
  String, ◌≡◌, refl, sym, ap, ◌∙◌, subst, none, some, List, [], ◌∷◌, ◌++◌, All,
}
use software_engineering_age.Prelude.Dict
use software_engineering_age.Prelude.Dict.{Dict}
use software_engineering_age.Domain.{RepositorySpec}
use software_engineering_age.Effects.{Action, Result, ok, err, pure, and_then, ◌>>=◌}
use software_engineering_age.Effects.Ensures.{
  Ensures, Ensures-bind, Ensures-pure, Ensures-raise, Ensures-if, Ensures-catching,
}
use software_engineering_age.Runtime.Workspace.{Workspace, WarmSlot}
use software_engineering_age.Runtime.Workspace.Host.{Host, Machine, claim, on_failure}
use software_engineering_age.Runtime.Workspace.Docker.Slots.{DockerSettings}
use software_engineering_age.Runtime.Workspace.Docker.{
  slot_key, slot_of, allocate_in, occupy, attach_in, with_slot,
}
use software_engineering_age.Runtime.Workspace.Docker.Pool.{SamePool}
use software_engineering_age.Runtime.Workspace.Docker.Returns.{Back, GivesBack}
use software_engineering_age.Runtime.Workspace.Docker.Clients.{
  Clients, optional, leased_slots, owned, IsRegistered, after, leasing,
}

module _ (machine : Machine) (settings : DockerSettings) where
  pub allocated_slot :
      (slot : WarmSlot) (task_id : String) (specs : List RepositorySpec)
      → Ensures
          (λ w (h : Host). w.slot_id ≡ some slot.slot_id)
          (allocate_in machine settings slot task_id specs)
  unfolding allocate_in occupy
  allocated_slot slot task_id specs =
      Ensures-bind _ _
        (λ id. Ensures-bind _ _ (λ _. Ensures-bind _ _ (λ repos. Ensures-pure _ (λ h. refl))))

  pub attached_slot :
      (slot : WarmSlot) (id : String) (specs : List RepositorySpec)
      → Ensures
          (λ w (h : Host). w.slot_id ≡ some slot.slot_id)
          (attach_in machine settings slot id specs)
  unfolding attach_in on_failure
  attached_slot slot id specs =
      Ensures-catching _ _
        (Ensures-bind _ _ (λ _.
          Ensures-bind _ _
            (λ well. Ensures-if well _ _ (Ensures-pure _ (λ h. refl)) (Ensures-raise _))))
        (λ e. Ensures-bind _ _ (λ _. Ensures-raise e))

pub All-snoc :
    (P : WarmSlot → Type 0) (xs : List WarmSlot) (x : WarmSlot)
    → All P xs
    → P x
    → All P (xs ++ x ∷ [])
All-snoc P [] x h p = (p, tt)
All-snoc P (y ∷ ys) x h p = (h.0, All-snoc P ys x h.1 p)

pub same_table :
    (h h' : Host)
    → h'.slots ≡ h.slots
    → IsRegistered h
    → All (λ slot. Dict.get slot.slot_id h.slots ≡ some slot) h'.pool
    → IsRegistered h'
same_table h h' e reg free = record {
  keyed = λ key slot found. reg.keyed key slot (ap (Dict.get key) (sym e) ∙ found);
  free = subst (λ t. All (λ slot. Dict.get slot.slot_id t ≡ some slot) h'.pool) (sym e) free;
}

pub both : {xs xs' ys ys' : List WarmSlot} → xs ≡ xs' → ys ≡ ys' → Perm xs' ys' → Perm xs ys
both {xs = xs} {ys' = ys'} p q h = subst (Perm xs) (sym q) (subst (λ l. Perm l ys') (sym p) h)

-- A call that took the first free slot, and what it does to the slots.
pub settled :
    (slot : WarmSlot) (rest : List WarmSlot) (leased : List Workspace) (h : Host)
    (r : Result Workspace × Host)
    → h.pool ≡ slot ∷ rest
    → IsRegistered h
    → GivesBack slot (record h { pool = rest }) r
    → ((w : Workspace) → r.0 ≡ ok w → w.slot_id ≡ some slot.slot_id)
    → IsRegistered (after (leasing r) leased).host
      × Perm (owned (after (leasing r) leased)) (owned (record { host = h; leased = leased }))
settled slot rest leased h (ok w, h') e reg same named =
    let free = subst (All (λ s. Dict.get s.slot_id h.slots ≡ some s)) e reg.free in
    let found : slot_of h.slots w ≡ some slot =
      ap (λ o. Dict.get (slot_key o) h.slots) (named w refl) ∙ free.0 in
    (
      same_table h h' same.slots reg
          (subst (All (λ s. Dict.get s.slot_id h.slots ≡ some s)) (sym same.pool) free.1),
      both (moved same found) (ap (λ l. l ++ leased_slots h.slots leased) e)
          (perm_middle rest (leased_slots h.slots leased)),
    )
  where
    moved :
        SamePool (record h { pool = rest }) h'
        → slot_of h.slots w ≡ some slot
        → h'.pool ++ leased_slots h'.slots (w ∷ leased) ≡ rest ++ slot ∷ leased_slots h.slots leased
    moved same found =
        ap (λ t. h'.pool ++ leased_slots t (w ∷ leased)) same.slots
        ∙ ap (λ l. l ++ leased_slots h.slots (w ∷ leased)) same.pool
        ∙ ap (λ o. rest ++ (optional o ++ leased_slots h.slots leased)) found
settled slot rest leased h (err x, h') e reg back named =
    let free = subst (All (λ s. Dict.get s.slot_id h.slots ≡ some s)) e reg.free in
    (
      same_table h h' back.slots reg (
          subst (All (λ s. Dict.get s.slot_id h.slots ≡ some s)) (sym back.pool)
            (All-snoc _ rest slot free.1 free.0)),
      both (moved back) (ap (λ l. l ++ leased_slots h.slots leased) e)
          (perm_middle rest (leased_slots h.slots leased)),
    )
  where
    moved :
        Back slot (record h { pool = rest }) h'
        → h'.pool ++ leased_slots h'.slots leased ≡ rest ++ slot ∷ leased_slots h.slots leased
    moved back =
        ap (λ t. h'.pool ++ leased_slots t leased) back.slots
        ∙ ap (λ l. l ++ leased_slots h.slots leased) back.pool
        ∙ append_assoc rest (slot ∷ []) (leased_slots h.slots leased)

module _ (f : WarmSlot → Action Host Workspace) where
  -- a call that claims a slot first
  pub claims_first :
      (h : Host) (slot : WarmSlot) (rest : List WarmSlot)
      → h.pool ≡ slot ∷ rest
      → (claim >>= with_slot f) h ≡ leasing (f slot (record h { pool = rest }))
  unfolding claim with_slot pure ◌>>=◌
  claims_first h slot rest e = rw e (by_result (f slot (record h { pool = rest })))
    where
      by_result :
          (r : Result Workspace × Host) → and_then r.0 (λ w h. (ok (some w), h)) r.1 ≡ leasing r
      by_result (ok w, h) = refl
      by_result (err x, h) = refl

  pub waits : (h : Host) → h.pool ≡ [] → (claim >>= with_slot f) h ≡ (ok none, h)
  unfolding claim with_slot pure ◌>>=◌
  waits h e = rw e refl

pub taken :
    (f : WarmSlot → Action Host Workspace) (c : Clients) (pool : List WarmSlot)
    → c.host.pool ≡ pool
    → IsRegistered c.host
    → ((slot : WarmSlot) (rest : List WarmSlot)
        → c.host.pool ≡ slot ∷ rest
        → GivesBack slot (record c.host { pool = rest }) (f slot (record c.host { pool = rest })))
    → ((slot : WarmSlot) → Ensures (λ w (h : Host). w.slot_id ≡ some slot.slot_id) (f slot))
    → let c' = after ((claim >>= with_slot f) c.host) c.leased in
      IsRegistered c'.host × Perm (owned c') (owned c)
taken f c [] e reg gives named = rw (waits f c.host e) (reg, Perm.rfl)
taken f c (slot ∷ rest) e reg gives named = rw (claims_first f c.host slot rest e) (
    settled slot rest c.leased c.host (f slot (record c.host { pool = rest })) e reg
      (gives slot rest e)
      (λ w r. (named slot).returned (record c.host { pool = rest }) _ w (pair_of _ w r)))
  where
    pair_of : (r : Result Workspace × Host) (w : Workspace) → r.0 ≡ ok w → r ≡ (ok w, r.1)
    pair_of (x, h) w e = ap (λ y. (y, h)) e
