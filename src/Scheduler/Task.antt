-- ===== src/Scheduler/Task.antt =====
-- packages/scheduler/src/task.ts: a task, and a run of it. Ids are numbers, since the code only
-- compares them. A `ScheduledTask` is an object that the registry, the driver and its runs share: it
-- stands in the `objects` of a `Host` under a handle. `queued` holds the handles whose run waits in a
-- microtask, `in_progress` those of the runs that have not ended, and `out` what was emitted to
-- listeners and called of croner's jobs, the latest first.
pub mod Counts
use extra.Prelude.{
  ℕ, suc, ◌+◌, ◌<◌, Bool, true, false, Option, none, some, List, [], ◌∷◌, ltb, if◌then◌else◌,
  lookup, insert, occurrences, remove_first,
}

pub data TaskStatus : Type 0 where
  scheduled running completed failed paused removed : TaskStatus

pub data ScheduleKind : Type 0 where
  interval cron : ScheduleKind

-- The timezone and the expression of a cron task stand as numbers.
pub record ScheduledTaskDefinition : Type 0 where
  pub id : ℕ
  pub kind : ScheduleKind
  pub interval_ms : ℕ
  pub expression : ℕ
  pub timezone : Option ℕ
  pub skips_overlap : Bool
  pub run_immediately : Bool

pub record ScheduledTask : Type 0 where
  pub definition : ScheduledTaskDefinition
  pub created_at : ℕ
  pub last_error : Option ℕ
  pub last_run_at : Option ℕ
  pub next_run_at : Option ℕ
  pub run_count : ℕ
  pub status : TaskStatus

-- The options given to the factory of croner: an interval, or a timezone, and `protect`.
pub record CronerFactoryOptions : Type 0 where
  pub interval : Option ℕ
  pub timezone : Option ℕ
  pub protect : Bool

pub data EventName : Type 0 where
  on_scheduled on_resumed on_paused on_removed on_started on_completed on_failed on_skipped :
      EventName

pub data SchedulerEvent : Type 0 where
  emitted : EventName → ℕ → SchedulerEvent
  created : ℕ → CronerFactoryOptions → SchedulerEvent
  resumed_job paused_job stopped_job : ℕ → SchedulerEvent

pub record Host : Type 0 where
  pub objects : List (ℕ × ScheduledTask)
  pub next_handle : ℕ
  pub queued : List ℕ
  pub in_progress : List ℕ
  pub out : List SchedulerEvent

abbrev pub say : SchedulerEvent → Host → Host
say e w = record w { out = e ∷ w.out }

-- The constructor of `ScheduledTask`.
abbrev pub scheduled_task : ℕ → ScheduledTaskDefinition → ScheduledTask
scheduled_task now definition = record {
  definition = definition;
  created_at = now;
  last_error = none;
  last_run_at = none;
  next_run_at = none;
  run_count = 0;
  status = scheduled;
}

unfoldable pub new_object : ScheduledTask → Host → Host
new_object t w = record w {
  objects = insert w.next_handle t w.objects;
  next_handle = suc w.next_handle;
}

unfoldable pub set_status : TaskStatus → ℕ → Host → Host
set_status s h w = elim (lookup h w.objects) [
  | none ↦ w
  | some t ↦ record w { objects = insert h (record t { status = s }) w.objects }
]

abbrev pub begun : ℕ → ScheduledTask → ScheduledTask
begun now t = record t {
  status = running;
  run_count = suc t.run_count;
  last_run_at = some now;
  last_error = none;
}

-- `runTask` up to the call of the runner, without the option `alreadyStarted`, which only the
-- persistent driver passes.
unfoldable pub start_run : ℕ → ℕ → Host → Host
start_run now h w = elim (lookup h w.objects) [
  | none ↦ w
  | some t ↦ record w {
    objects = insert h (begun now t) w.objects;
    in_progress = h ∷ w.in_progress;
    out = emitted on_started h ∷ w.out;
  }
]

-- What the runner of a task did.
pub data RunOutcome : Type 0 where
  returned threw : ℕ → RunOutcome

abbrev pub ended : RunOutcome → (next_run : Option ℕ) → ScheduledTask → ScheduledTask
ended (returned r) next_run t = record t { status = completed; next_run_at = next_run }
ended (threw e) next_run t = record t {
  status = failed;
  last_error = some e;
  next_run_at = next_run;
}

abbrev pub end_event : RunOutcome → EventName
end_event (returned r) = on_completed
end_event (threw e) = on_failed

-- `runTask` from the answer of the runner on, for a run that is in progress.
unfoldable pub end_run : ℕ → RunOutcome → (next_run : Option ℕ) → Host → Host
end_run h outcome next_run w = elim (lookup h w.objects) [
  | none ↦ w
  | some t ↦
      if ltb 0 (occurrences h w.in_progress)
      then record w {
        objects = insert h (ended outcome next_run t) w.objects;
        in_progress = remove_first h w.in_progress;
        out = emitted (end_event outcome) h ∷ w.out;
      }
      else w
]
