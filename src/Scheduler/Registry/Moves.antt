-- ===== src/Scheduler/Registry/Moves.antt =====
-- manager.ts and drivers/memory.ts: every action but `close` is a move at each id.
use extra.Prelude.{
  ◌+◌, List, [], ◌∷◌, ℕ, ◌≡◌, refl, ap, ◌∙◌, Bool, inl, inr, ◌⊎◌, Option, none, some, ◌==◌,
  if◌then◌else◌, Bool-cases, Option-cases, lookup, lookup-remove_key, arith,
}
use extra.Scheduler.Task.{ScheduledTaskDefinition}
use extra.Scheduler.Driver.{MemorySchedulerDriver, start, pause, remove}
use extra.Scheduler.Registry.{
  Continuation, to_resume, to_pause, to_remove, await_driver, continue, continue_next, continues,
  SchedulerRegistry, SchedulerError, require_task, resume, pause_task, remove_task, remove_orphan,
  RegistryAction, adds, intervals, crons, resumes, pauses, removes, removes_orphan, closes,
  activates, runs_queued, triggers, overlaps, settles, step, Answer,
}
use extra.Scheduler.Driver.Bindings.{bound, activate-bound, start-bound, pause-bound, remove-bound}
use extra.Scheduler.Registry.Views.{
  removals, removals-append, View, view, Moves, stays, begins, ends, Moves-by, stays_at, Moves-if,
  absent_at, add_interval-Moves, add_cron-Moves, add-Moves,
}

by_task :
    (id i : ℕ) (r : SchedulerRegistry) (f : SchedulerRegistry → Answer)
    → ((e : SchedulerError) → require_task i r ≡ inl e → (f r).0 ≡ r)
    → ((h : ℕ) → require_task i r ≡ inr h → Moves (view id r) (view id (f r).0))
    → Moves (view id r) (view id (f r).0)
by_task id i r f fails works = go (require_task i r) refl
  where
    go : (o : SchedulerError ⊎ ℕ) → require_task i r ≡ o → Moves (view id r) (view id (f r).0)
    go (inl e) p = stays_at (ap (view id) (fails e p))
    go (inr h) p = works h p

require_task-lookup :
    (i h : ℕ) (r : SchedulerRegistry) → require_task i r ≡ inr h → lookup i r.tasks ≡ some h
unfolding require_task
require_task-lookup i h r p = elim (Option-cases (lookup i r.tasks)) [
  | inl e ↦ ground (arith, e, p)
  | inr (k, e) ↦ ground (arith, e, p)
]

module _ (id i : ℕ) (r : SchedulerRegistry) where
  -- A call that waits changes the driver and adds what is left of it.
  awaited :
      (h n : ℕ) (f : MemorySchedulerDriver → MemorySchedulerDriver) (c : Continuation)
      {b : Option ℕ × Option ℕ}
      → bound id (f r.driver) ≡ b
      → removals id (c ∷ []) ≡ n
      → view id (await_driver f c r) ≡ (lookup id r.tasks, (b, removals id r.waiting + n))
  awaited h n f c p q = rw (removals-append id r.waiting (c ∷ []), p, q) refl

  same_count :
      {b : Option ℕ × Option ℕ} (n : ℕ)
      → Path View (lookup id r.tasks, (b, n + 0)) (lookup id r.tasks, (b, n))
  same_count {b} n = ap (λ m. (lookup id r.tasks, (b, m))) (omega arith)

  resume-Moves : Moves (view id r) (view id (resume i r).0)
  unfolding resume removals
  resume-Moves =
      by_task id i r (resume i) (λ e p. rw (p, resume) refl)
        (λ h p.
          rw (p, resume)
            (stays_at (
              awaited h 0 (start i) (to_resume h) (start-bound id i r.driver) refl
              ∙ same_count (removals id r.waiting))))

  pause_task-Moves : Moves (view id r) (view id (pause_task i r).0)
  unfolding pause_task removals
  pause_task-Moves =
      by_task id i r (pause_task i) (λ e p. rw (p, pause_task) refl)
        (λ h p.
          rw (p, pause_task)
            (stays_at (
              awaited h 0 (pause i) (to_pause h) (pause-bound id i r.driver) refl
              ∙ same_count (removals id r.waiting))))

  remove_task-Moves :
      (i ≡ id → removals id r.waiting ≡ 0) → Moves (view id r) (view id (remove_task i r).0)
  unfolding remove_task removals
  remove_task-Moves alone =
      by_task id i r (remove_task i) (λ e p. rw (p, remove_task) refl)
        (λ h p. rw (p, remove_task) (removed_at h p))
    where
      removed_at :
          (h : ℕ)
          → require_task i r ≡ inr h
          → Moves (view id r) (view id (await_driver (remove i) (to_remove i h) r))
      removed_at h p = elim (Bool-cases (i == id)) [
        | inr other ↦ stays_at (
            awaited h 0 (remove i) (to_remove i h)
              (remove-bound id i r.driver ∙ ground (arith, other)) (ground (arith, other))
            ∙ same_count (removals id r.waiting))
        | inl same ↦
            let none_waits : removals id r.waiting ≡ 0 = alone (ground (arith, same)) in
            let listed : lookup id r.tasks ≡ some h =
              ground (arith, same, require_task-lookup i h r p) in
            let gone : bound id (remove i r.driver) ≡ (none, none) =
              remove-bound id i r.driver ∙ rw same refl in
            Moves-by (rw (listed, none_waits) refl)
              (awaited h 1 (remove i) (to_remove i h) gone (ground (arith, same))
                ∙ rw (listed, none_waits) refl)
              (begins {h = h} {b = bound id r.driver})
      ]

  remove_orphan-Moves : Moves (view id r) (view id (remove_orphan i r).0)
  unfolding remove_orphan
  remove_orphan-Moves = elim (Option-cases (lookup i r.tasks)) [
    | inr (h, e) ↦ rw (e, remove_orphan) stays
    | inl e ↦
        rw (e, remove_orphan)
          (Moves-if (i == id) none (absent_at id i r e) (absent_key e) (remove-bound id i r.driver))
  ]
    where
      absent_key :
          lookup i r.tasks ≡ none
          → lookup id r.tasks ≡ (if i == id then none else lookup id r.tasks)
      absent_key e = ground (arith, e)

continue_next-Moves :
    (id : ℕ) (r : SchedulerRegistry) (cs : List Continuation)
    → r.waiting ≡ cs
    → Moves (view id r) (view id (continue_next cs r))
unfolding continue_next continue removals
continue_next-Moves id r [] w = stays
continue_next-Moves id r (to_resume h ∷ cs) w =
    Moves-by (ap (λ c. (lookup id r.tasks, (bound id r.driver, removals id c))) w) refl stays
continue_next-Moves id r (to_pause h ∷ cs) w =
    Moves-by (ap (λ c. (lookup id r.tasks, (bound id r.driver, removals id c))) w) refl stays
continue_next-Moves id r (to_remove i h ∷ cs) w =
    Moves-by (ap (λ c. (lookup id r.tasks, (bound id r.driver, removals id c))) w)
      (ap (λ o. (o, (bound id r.driver, removals id cs))) (lookup-remove_key id i r.tasks))
      (elim (Bool-cases (i == id)) [
        | inl same ↦ rw (same, if◌then◌else◌) ends
        | inr other ↦ rw (other, if◌then◌else◌) stays
      ])

-- Every action but `close`, where no two removals of the id overlap.
pub step-Moves :
    (accepts : ScheduledTaskDefinition → Bool) (id now : ℕ) (a : RegistryAction)
    (r : SchedulerRegistry)
    → (a ≡ removes id → removals id r.waiting ≡ 0)
    → Moves (view id r) (view id (step accepts now a r)) ⊎ (a ≡ closes)
unfolding step
step-Moves accepts id now (adds i s o) r q = inl (add-Moves accepts id now i s o r)
step-Moves accepts id now (intervals i e o) r q = inl (add_interval-Moves accepts id now i e o r)
step-Moves accepts id now (crons i e o) r q = inl (add_cron-Moves accepts id now i e o r)
step-Moves accepts id now (resumes i) r q = inl (resume-Moves id i r)
step-Moves accepts id now (pauses i) r q = inl (pause_task-Moves id i r)
step-Moves accepts id now (removes i) r q = inl (remove_task-Moves id i r (λ e. q (ap removes e)))
step-Moves accepts id now (removes_orphan i) r q = inl (remove_orphan-Moves id i r)
step-Moves accepts id now closes r q = inr refl
step-Moves accepts id now activates r q = inl (
    stays_at
      (ap (λ b. (lookup id r.tasks, (b, removals id r.waiting))) (activate-bound id r.driver)))
step-Moves accepts id now runs_queued r q = inl stays
step-Moves accepts id now continues r q = inl (continue_next-Moves id r r.waiting refl)
step-Moves accepts id now (triggers h) r q = inl stays
step-Moves accepts id now (overlaps h) r q = inl stays
step-Moves accepts id now (settles h x y) r q = inl stays
