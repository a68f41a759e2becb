-- ===== src/Scheduler/Registry/Agree.antt =====
-- manager.ts and drivers/memory.ts: which tasks the registry and its driver know.
use extra.Prelude.{ℕ, ◌≡◌, refl, sym, subst, Bool, inl, inr, ◌⊎◌, none, some, lookup, arith}
use extra.Scheduler.Task.{ScheduledTaskDefinition}
use extra.Scheduler.Driver.{close}
use extra.Scheduler.Registry.{SchedulerRegistry, RegistryAction, removes, closes, step}
use extra.Scheduler.Registry.Views.{removals, View, view, Moves, stays, sets, begins, ends}
use extra.Scheduler.Registry.Moves.{step-Moves}

-- No removal waits, and all have the same task and job; or one waits, the registry lists the task
-- and the driver has none; or no removal waits and the driver has none.
abbrev Alike : View → Type 0
Alike (o, (b, n)) = (n ≡ 0) × (b ≡ (o, o))

abbrev Leaving : View → Type 0
Leaving (o, (b, n)) = (n ≡ 1) × (b ≡ (none, none)) × ((h : ℕ) × (o ≡ some h))

abbrev Dropped : View → Type 0
Dropped (o, (b, n)) = (n ≡ 0) × (b ≡ (none, none))

abbrev pub IsShared : ℕ → SchedulerRegistry → Type 0
IsShared id r = Alike (view id r) ⊎ Leaving (view id r)

abbrev pub IsKnown : ℕ → SchedulerRegistry → Type 0
IsKnown id r = IsShared id r ⊎ Dropped (view id r)

Alike-Moves : (v w : View) → Moves v w → Alike v → Alike w ⊎ Leaving w
Alike-Moves v w stays h = inl h
Alike-Moves v w (sets o) h = inl (h.0, refl)
Alike-Moves v w (begins {h = k}) h = inr (refl, refl, (k, refl))
Alike-Moves v w ends h = absurd (omega (arith, h.0))

Leaving-Moves : (v w : View) → Moves v w → Leaving v → Alike w ⊎ Leaving w
Leaving-Moves v w stays h = inr h
Leaving-Moves v w (sets o) (c, d, (k, e)) = absurd (clash e)
  where
    clash : none ≡ some k → ⊥
    clash p = cc
Leaving-Moves v w begins h = absurd (omega (arith, h.0))
Leaving-Moves v w ends (c, d, k) = inl (omega (arith, c), d)

Dropped-Moves : (v w : View) → Moves v w → Dropped v → (Alike w ⊎ Leaving w) ⊎ Dropped w
Dropped-Moves v w stays h = inr h
Dropped-Moves v w (sets o) h = inl (inl (h.0, refl))
Dropped-Moves v w (begins {h = k}) h = inl (inr (refl, refl, (k, refl)))
Dropped-Moves v w ends h = absurd (omega (arith, h.0))

module _ (accepts : ScheduledTaskDefinition → Bool) (id now : ℕ) (a : RegistryAction)
    (r : SchedulerRegistry) (alone : a ≡ removes id → removals id r.waiting ≡ 0) where
  -- Every action but `close`, where `remove` of an id is not called while another removal of it
  -- waits for the driver, keeps the registry and its driver in step at that id: if no removal of
  -- it waits, then the tasks that the registry lists, the tasks of the driver and the jobs of
  -- croner have the same handle or none there, also after an operation that fails; while one waits,
  -- the registry lists the task and the driver has neither task nor job.
  pub step-IsShared : (a ≡ closes → ⊥) → IsShared id r → IsShared id (step accepts now a r)
  step-IsShared n k = elim (step-Moves accepts id now a r alone) [
    | inr c ↦ absurd (n c)
    | inl m ↦ elim k [ inl h ↦ Alike-Moves _ _ m h | inr h ↦ Leaving-Moves _ _ m h ]
  ]

  closed-IsKnown : IsKnown id r → IsKnown id (step accepts now closes r)
  unfolding step close lookup
  closed-IsKnown (inl (inl h)) = inr (h.0, refl)
  closed-IsKnown (inl (inr h)) = inl (inr (h.0, refl, h.2))
  closed-IsKnown (inr h) = inr (h.0, refl)

  -- Whatever happens, `close` included, where `remove` of an id is not called while another removal
  -- of it waits for the driver: the driver never has a task or a job there of which the registry
  -- has not the same handle, and it has none while a removal waits, when the registry still lists
  -- the task.
  pub step-IsKnown : IsKnown id r → IsKnown id (step accepts now a r)
  step-IsKnown k = elim (step-Moves accepts id now a r alone) [
    | inr c ↦ subst (λ b. IsKnown id (step accepts now b r)) (sym c) (closed-IsKnown k)
    | inl m ↦ elim k [
      | inl (inl h) ↦ inl (Alike-Moves _ _ m h)
      | inl (inr h) ↦ inl (Leaving-Moves _ _ m h)
      | inr h ↦ Dropped-Moves _ _ m h
    ]
  ]
