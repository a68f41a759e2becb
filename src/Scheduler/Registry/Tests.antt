-- ===== src/Scheduler/Registry/Tests.antt =====
-- manager.ts at concrete inputs.
use extra.Prelude.{
  remove_key, ◌≡◌, refl, Bool, true, false, inl, Option, none, some, [], ◌∷◌, lookup, insert,
  occurrences,
}
use extra.Scheduler.Task.{ScheduledTaskDefinition, TaskStatus, paused, ScheduledTask, set_status}
use extra.Scheduler.Task.Counts.{tally, IsTallied}
use extra.Scheduler.Driver.{activate, schedule, pause, remove, run_immediately_soon}
use extra.Scheduler.Registry.{
  continues, continue, continue_next, remove_task, SchedulerRegistry, ScheduledTaskOptions,
  intervals, pauses, activates, removes, closes, step, define, add_interval, pause_task,
}
use extra.Scheduler.Registry.Agree.{IsShared, IsKnown, step-IsShared, step-IsKnown}
use extra.Scheduler.Registry.Views.{removals}
use extra.Scheduler.Registry.Runs.{step-IsCounted}

abbrev empty : SchedulerRegistry
empty = record {
  tasks = [];
  driver = record {
    tasks = [];
    jobs = [];
    immediate_task_ids = [];
    ready = false;
    host = record { objects = []; next_handle = 0; queued = []; in_progress = []; out = [] };
  };
  waiting = [];
}

abbrev any_definition : ScheduledTaskDefinition → Bool
any_definition d = true

abbrev at_once : ScheduledTaskOptions
at_once = record { timezone = none; skips_overlap = true; run_immediately = true }

abbrev one_task : SchedulerRegistry
one_task = record {
  tasks = (7, 0) ∷ [];
  driver = record {
    tasks = (7, 0) ∷ [];
    jobs = (7, 0) ∷ [];
    immediate_task_ids = 7 ∷ [];
    ready = false;
    host = record { objects = []; next_handle = 1; queued = []; in_progress = []; out = [] };
  };
  waiting = [];
}

step-IsShared_example : IsShared 7 (step any_definition 5 (removes 7) one_task)
unfolding lookup removals
step-IsShared_example =
    step-IsShared any_definition 7 5 (removes 7) one_task (λ e. refl) (λ c. cc) (inl (refl, refl))

step-IsKnown_example : IsKnown 7 (step any_definition 5 closes one_task)
unfolding lookup removals
step-IsKnown_example =
    step-IsKnown any_definition 7 5 closes one_task (λ e. refl) (inl (inl (refl, refl)))

abbrev defined : SchedulerRegistry → SchedulerRegistry
defined r = step any_definition 5 (intervals 7 (some 1000) at_once) r

empty-IsTallied : IsTallied 0 (tally 0 empty.driver.host)
unfolding lookup occurrences
empty-IsTallied = (refl, refl, λ p. refl)

step-IsCounted_example : IsTallied 0 (tally 0 (defined empty).driver.host)
step-IsCounted_example =
    step-IsCounted 0 any_definition 5 (intervals 7 (some 1000) at_once) empty empty-IsTallied

abbrev continued : SchedulerRegistry → SchedulerRegistry
continued r = step any_definition 5 continues r

-- A task that is paused before the activation is resumed by it, and keeps the status `paused`.
abbrev paused_early : SchedulerRegistry
paused_early =
    continued (
      step any_definition 6 activates
        (continued (step any_definition 5 (pauses 7) (defined empty))))

abbrev status_of : Option ScheduledTask → Option TaskStatus
status_of none = none
status_of (some t) = some t.status

paused_but_resumed :
    (status_of (lookup 0 paused_early.driver.host.objects) ≡ some paused)
    × (paused_early.driver.host.queued ≡ 0 ∷ [])
unfolding step define add_interval pause_task schedule activate pause set_status lookup insert
    run_immediately_soon continue continue_next
paused_but_resumed = (refl, refl)

-- Two overlapping removals, with a task of the same id defined between their continuations: the
-- second takes the new task out of the registry, and the driver keeps it.
abbrev removed_twice : SchedulerRegistry
removed_twice = continued (
    defined
      (continued (step any_definition 5 (removes 7) (step any_definition 5 (removes 7) one_task))))

removed_but_driven :
    (lookup 7 removed_twice.tasks ≡ none) × (lookup 7 removed_twice.driver.jobs ≡ some 1)
unfolding step define add_interval remove_task continue continue_next schedule remove set_status
    lookup insert remove_key
removed_but_driven = (refl, refl)
