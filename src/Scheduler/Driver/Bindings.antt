-- ===== src/Scheduler/Driver/Bindings.antt =====
-- drivers/memory.ts: the task and the job that the driver has for an id.
use extra.Prelude.{
  ℕ, ◌≡◌, refl, ◌∙◌, inl, inr, Option, none, some, List, [], ◌∷◌, ◌==◌, if◌then◌else◌, Option-cases,
  lookup, lookup-insert, lookup-remove_key, arith,
}
use extra.Scheduler.Task.{ScheduledTaskDefinition}
use extra.Scheduler.Driver.{
  MemorySchedulerDriver, activate_ids, activate, launch, schedule, start, pause, remove,
}

-- What the driver has for an id: the handles of its task and of its job.
abbrev pub bound : ℕ → MemorySchedulerDriver → Option ℕ × Option ℕ
bound id d = (lookup id d.tasks, lookup id d.jobs)

pub activate_ids-bound :
    (id : ℕ) (ids : List ℕ) (d : MemorySchedulerDriver) → bound id (activate_ids ids d) ≡ bound id d
unfolding activate_ids
activate_ids-bound id [] d = refl
activate_ids-bound id (i ∷ ids) d = elim (Option-cases (lookup i d.tasks)) [
  | inl e ↦ rw (e, activate_ids) (activate_ids-bound id ids d)
  | inr (h, e) ↦ elim (Option-cases (lookup i d.jobs)) [
    | inl f ↦ rw (e, f, activate_ids) (activate_ids-bound id ids d)
    | inr (j, f) ↦ rw (e, f, activate_ids) (activate_ids-bound id ids _)
  ]
]

pub activate-bound : (id : ℕ) (d : MemorySchedulerDriver) → bound id (activate d) ≡ bound id d
unfolding activate
activate-bound id d = activate_ids-bound id d.immediate_task_ids _

pub launch-bound :
    (id h : ℕ) (def : ScheduledTaskDefinition) (d : MemorySchedulerDriver)
    → bound id (launch def h d) ≡ bound id d
unfolding launch
launch-bound id h def d = ground arith

pub schedule-bound :
    (now id : ℕ) (def : ScheduledTaskDefinition) (d : MemorySchedulerDriver)
    → bound id (schedule now def d).0 ≡ (
        if def.id == id
        then (some (schedule now def d).1, some (schedule now def d).1)
        else bound id d)
unfolding schedule
schedule-bound now id def d =
    let h = d.host.next_handle in
    launch-bound id h def _
    ∙ ground (arith, lookup-insert id def.id h d.tasks, lookup-insert id def.id h d.jobs)

pub start-bound : (id i : ℕ) (d : MemorySchedulerDriver) → bound id (start i d) ≡ bound id d
unfolding start
start-bound id i d = ground arith

pub pause-bound : (id i : ℕ) (d : MemorySchedulerDriver) → bound id (pause i d) ≡ bound id d
unfolding pause
pause-bound id i d = ground arith

pub remove-bound :
    (id i : ℕ) (d : MemorySchedulerDriver)
    → bound id (remove i d) ≡ (if i == id then (none, none) else bound id d)
unfolding remove
remove-bound id i d = go (lookup i d.jobs) refl
  where
    go :
        (o : Option ℕ)
        → lookup i d.jobs ≡ o
        → bound id (remove i d) ≡ (if i == id then (none, none) else bound id d)
    go none e = ground (arith, lookup-remove_key id i d.tasks, lookup-remove_key id i d.jobs)
    go (some h) e = ground (arith, lookup-remove_key id i d.tasks, lookup-remove_key id i d.jobs)
