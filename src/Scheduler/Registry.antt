-- ===== src/Scheduler/Registry.antt =====
-- packages/scheduler/src/manager.ts: the class SchedulerRegistry over the driver in memory. `resume`,
-- `pause` and `remove` wait for the driver: what they do after `await` is a continuation, and these
-- run in the order in which they began to wait, each in a turn of its own. A duration is what
-- `parseDuration` answers, `none` for its error, and an expression is `none` where nothing is left of
-- it after `trim`. The croner library accepts or refuses a definition: `accepts`.
pub mod Agree
pub mod Moves
pub mod Runs
mod Tests
pub mod Views
use extra.Prelude.{
  ℕ, ◌+◌, Bool, true, false, inl, inr, ◌⊎◌, Option, none, some, List, [], ◌∷◌, ◌++◌, map, ltb, ◌==◌,
  if◌then◌else◌, lookup, insert, remove_key,
}
use extra.Scheduler.Task.{
  TaskStatus, scheduled, paused, removed, ScheduleKind, interval, cron, ScheduledTaskDefinition,
  EventName, on_scheduled, on_resumed, on_paused, on_removed, on_skipped, SchedulerEvent, emitted,
  Host, say, set_status, start_run, RunOutcome, end_run,
}
use extra.Scheduler.Driver.{
  MemorySchedulerDriver, in_host, activate, schedule, start, pause, remove, close, run_queued,
}

-- What is left of a call after its `await`, for a task found before it.
pub data Continuation : Type 0 where
  to_resume to_pause : (handle : ℕ) → Continuation
  to_remove : (id handle : ℕ) → Continuation

pub record SchedulerRegistry : Type 0 where
  pub tasks : List (ℕ × ℕ)
  pub driver : MemorySchedulerDriver
  pub waiting : List Continuation

pub data SchedulerError : Type 0 where
  invalid_duration not_positive no_expression refused_expression already_registered : SchedulerError
  not_registered registered not_a_method : SchedulerError
  not_a_schedule : SchedulerError → SchedulerError

abbrev pub Answer : Type 0
Answer = SchedulerRegistry × (SchedulerError ⊎ ℕ)

abbrev pub in_driver :
    (MemorySchedulerDriver → MemorySchedulerDriver) → SchedulerRegistry → SchedulerRegistry
in_driver f r = record r { driver = f r.driver }

-- The options of a task. The runner is the environment's, and `explicitId`, `source` and `data` are
-- not read by this driver.
pub record ScheduledTaskOptions : Type 0 where
  pub timezone : Option ℕ
  pub skips_overlap : Bool
  pub run_immediately : Bool

-- The schedule of `add`: its duration, and its expression if it is a text.
pub record ScheduleInput : Type 0 where
  pub duration : Option ℕ
  pub is_text : Bool
  pub expression : Option ℕ

module _ (accepts : ScheduledTaskDefinition → Bool) where
  unfoldable pub define : ℕ → ScheduledTaskDefinition → SchedulerRegistry → Answer
  define now definition r = elim (lookup definition.id r.tasks) [
    | some h ↦ (r, inl already_registered)
    | none ↦
        if accepts definition
        then (let (d, h) = schedule now definition r.driver in
            (
              record r {
                tasks = insert definition.id h r.tasks;
                driver = in_host (say (emitted on_scheduled h)) d;
              },
              inr h,
            ))
        else (r, inl refused_expression)
  ]

  unfoldable pub add_interval :
      ℕ → ℕ → (every : Option ℕ) → ScheduledTaskOptions → SchedulerRegistry → Answer
  add_interval now id none options r = (r, inl invalid_duration)
  add_interval now id (some interval_ms) options r =
      if interval_ms == 0
      then (r, inl not_positive)
      else define now
          (record {
            id = id;
            kind = interval;
            interval_ms = interval_ms;
            expression = 0;
            timezone = options.timezone;
            skips_overlap = options.skips_overlap;
            run_immediately = options.run_immediately;
          })
          r

  unfoldable pub add_cron :
      ℕ → ℕ → (expression : Option ℕ) → ScheduledTaskOptions → SchedulerRegistry → Answer
  add_cron now id none options r = (r, inl no_expression)
  add_cron now id (some expression) options r =
      define now
        (record {
          id = id;
          kind = cron;
          interval_ms = 0;
          expression = expression;
          timezone = options.timezone;
          skips_overlap = options.skips_overlap;
          run_immediately = options.run_immediately;
        })
        r

  -- The `catch` of `add`, for the answer of `interval`.
  abbrev or_cron : Answer → Answer → ScheduleInput → Answer
  or_cron (r, inl invalid_duration) as_cron schedule =
      if schedule.is_text
      then elim as_cron.1 [ inl e ↦ (as_cron.0, inl (not_a_schedule e)) | inr h ↦ as_cron ]
      else (r, inl invalid_duration)
  or_cron a as_cron schedule = a

  unfoldable pub add : ℕ → ℕ → ScheduleInput → ScheduledTaskOptions → SchedulerRegistry → Answer
  add now id schedule options r =
      or_cron (add_interval now id schedule.duration options r)
        (add_cron now id schedule.expression options r) schedule

  -- A method with metadata: `explicit_id` is a given id that is not empty.
  pub record TaskMetadata : Type 0 where
    pub kind : ScheduleKind
    pub schedule : ScheduleInput
    pub property_key : ℕ
    pub explicit_id : Option ℕ
    pub is_method : Bool
    pub options : ScheduledTaskOptions

  abbrev id_of : Option ℕ → ℕ → ℕ
  id_of none key = key
  id_of (some id) key = id

  unfoldable pub register_one : ℕ → TaskMetadata → SchedulerRegistry → Answer
  register_one now m r =
      if m.is_method
      then elim m.kind [
        | interval ↦
            add_interval now (id_of m.explicit_id m.property_key) m.schedule.duration m.options r
        | cron ↦ add_cron now (id_of m.explicit_id m.property_key) m.schedule.expression m.options r
      ]
      else (r, inl not_a_method)

  -- The loops of `register`, over all definitions: an error leaves them.
  unfoldable pub register :
      ℕ → List TaskMetadata → SchedulerRegistry → SchedulerRegistry × Option SchedulerError
  register now [] r = (r, none)
  register now (m ∷ ms) r =
      let (r', answer) = register_one now m r in
      let rest = register now ms r' in elim answer [ inl e ↦ (r', some e) | inr h ↦ rest ]

unfoldable pub require_task : ℕ → SchedulerRegistry → SchedulerError ⊎ ℕ
require_task id r = elim (lookup id r.tasks) [ none ↦ inl not_registered | some h ↦ inr h ]

abbrev pub mark : TaskStatus → EventName → ℕ → MemorySchedulerDriver → MemorySchedulerDriver
mark s e h d = in_host (λ w. say (emitted e h) (set_status s h w)) d

-- A call up to its `await`: the driver has done its part, and `c` is left.
abbrev pub await_driver :
    (MemorySchedulerDriver → MemorySchedulerDriver)
    → Continuation
    → SchedulerRegistry
    → SchedulerRegistry
await_driver f c r = record r { driver = f r.driver; waiting = r.waiting ++ c ∷ [] }

unfoldable pub resume : ℕ → SchedulerRegistry → Answer
unfolding require_task
resume id r = elim (require_task id r) [
  | inl e ↦ (r, inl e)
  | inr h ↦ (await_driver (start id) (to_resume h) r, inr h)
]

unfoldable pub pause_task : ℕ → SchedulerRegistry → Answer
unfolding require_task
pause_task id r = elim (require_task id r) [
  | inl e ↦ (r, inl e)
  | inr h ↦ (await_driver (pause id) (to_pause h) r, inr h)
]

unfoldable pub remove_task : ℕ → SchedulerRegistry → Answer
unfolding require_task
remove_task id r = elim (require_task id r) [
  | inl e ↦ (r, inl e)
  | inr h ↦ (await_driver (remove id) (to_remove id h) r, inr h)
]

-- The rest of `resume`, `pause` and `remove`.
unfoldable pub continue : Continuation → SchedulerRegistry → SchedulerRegistry
continue (to_resume h) r = in_driver (mark scheduled on_resumed h) r
continue (to_pause h) r = in_driver (mark paused on_paused h) r
continue (to_remove id h) r = record r {
  tasks = remove_key id r.tasks;
  driver = mark removed on_removed h r.driver;
}

unfoldable pub continue_next : List Continuation → SchedulerRegistry → SchedulerRegistry
unfolding continue
continue_next [] r = r
continue_next (c ∷ cs) r = continue c (record r { waiting = cs })

unfoldable pub remove_orphan : ℕ → SchedulerRegistry → SchedulerRegistry × Option SchedulerError
remove_orphan id r = elim (lookup id r.tasks) [
  | some h ↦ (r, some registered)
  | none ↦ (in_driver (remove id) r, none)
]

-- What can happen: a call, the continuation of one that waited for the driver, a job of croner that
-- fires or is held back by `protect`, a microtask of the driver, the end of a run.
pub data RegistryAction : Type 0 where
  adds : ℕ → ScheduleInput → ScheduledTaskOptions → RegistryAction
  intervals crons : ℕ → Option ℕ → ScheduledTaskOptions → RegistryAction
  resumes pauses removes removes_orphan : ℕ → RegistryAction
  closes activates runs_queued continues : RegistryAction
  triggers overlaps : (handle : ℕ) → RegistryAction
  settles : (handle : ℕ) → RunOutcome → (next_run : Option ℕ) → RegistryAction

unfoldable pub step :
    (ScheduledTaskDefinition → Bool) → ℕ → RegistryAction → SchedulerRegistry → SchedulerRegistry
step accepts now (adds id schedule options) r = (add accepts now id schedule options r).0
step accepts now (intervals id every options) r = (add_interval accepts now id every options r).0
step accepts now (crons id expression options) r = (add_cron accepts now id expression options r).0
step accepts now (resumes id) r = (resume id r).0
step accepts now (pauses id) r = (pause_task id r).0
step accepts now (removes id) r = (remove_task id r).0
step accepts now (removes_orphan id) r = (remove_orphan id r).0
step accepts now closes r = in_driver close r
step accepts now activates r = in_driver activate r
step accepts now runs_queued r = in_driver (in_host (run_queued now)) r
step accepts now continues r = continue_next r.waiting r
step accepts now (triggers h) r = in_driver (in_host (start_run now h)) r
step accepts now (overlaps h) r = in_driver (in_host (say (emitted on_skipped h))) r
step accepts now (settles h outcome next) r = in_driver (in_host (end_run h outcome next)) r
