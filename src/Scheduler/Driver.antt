-- ===== src/Scheduler/Driver.antt =====
-- packages/scheduler/src/drivers/memory.ts: the driver that keeps its tasks in memory. A task and the
-- job that croner made for it have one handle. What croner does is not modelled: a job runs whenever
-- the environment says, and the driver's calls of a job are events.
pub mod Bindings
pub mod Tallies
use extra.Prelude.{
  ℕ, Bool, true, false, none, some, List, [], ◌∷◌, ◌++◌, ◌==◌, if◌then◌else◌, lookup, insert,
  remove_key,
}
use extra.Scheduler.Task.{
  interval, cron, ScheduledTaskDefinition, CronerFactoryOptions, SchedulerEvent, created,
  resumed_job, paused_job, stopped_job, Host, say, scheduled_task, new_object, start_run,
}

pub record MemorySchedulerDriver : Type 0 where
  pub tasks : List (ℕ × ℕ)
  pub jobs : List (ℕ × ℕ)
  pub immediate_task_ids : List ℕ
  pub ready : Bool
  pub host : Host

abbrev pub in_host : (Host → Host) → MemorySchedulerDriver → MemorySchedulerDriver
in_host f d = record d { host = f d.host }

-- `for (const job of this.jobs.values()) job.resume?.()`, and the like.
unfoldable pub for_each_job : (ℕ → SchedulerEvent) → List (ℕ × ℕ) → Host → Host
for_each_job call [] w = w
for_each_job call ((id, h) ∷ jobs) w = for_each_job call jobs (say (call h) w)

unfoldable pub run_immediately_soon : ℕ → Host → Host
run_immediately_soon h w = record w { queued = w.queued ++ h ∷ [] }

-- The loop of `activate` over the ids that wait for it.
unfoldable pub activate_ids : List ℕ → MemorySchedulerDriver → MemorySchedulerDriver
activate_ids [] d = d
activate_ids (id ∷ ids) d = activate_ids ids (elim (lookup id d.tasks) [
  | none ↦ d
  | some h ↦ elim (lookup id d.jobs) [ none ↦ d | some j ↦ in_host (run_immediately_soon h) d ]
])

unfoldable pub activate : MemorySchedulerDriver → MemorySchedulerDriver
unfolding for_each_job activate_ids
activate d =
    let d' = record d {
      ready = true;
      immediate_task_ids = [];
      host = for_each_job resumed_job d.jobs d.host;
    } in
    activate_ids d.immediate_task_ids d'

abbrev pub croner_options : ScheduledTaskDefinition → CronerFactoryOptions
croner_options definition = record {
  interval = elim definition.kind [ interval ↦ some definition.interval_ms | cron ↦ none ];
  timezone = elim definition.kind [ interval ↦ none | cron ↦ definition.timezone ];
  protect = definition.skips_overlap;
}

-- `Set.add`.
unfoldable pub add_id : ℕ → List ℕ → List ℕ
add_id id [] = id ∷ []
add_id id (x ∷ xs) = if x == id then x ∷ xs else x ∷ add_id id xs

-- The part of `schedule` behind the making of the job `h`.
unfoldable pub launch : ScheduledTaskDefinition → ℕ → MemorySchedulerDriver → MemorySchedulerDriver
unfolding run_immediately_soon add_id
launch definition h d =
    if d.ready
    then (let d' = in_host (say (resumed_job h)) d in
        if definition.run_immediately then in_host (run_immediately_soon h) d' else d')
    else if definition.run_immediately
    then record d { immediate_task_ids = add_id definition.id d.immediate_task_ids }
    else d

-- `schedule`, where croner takes the expression: the driver and the handle of the task.
unfoldable pub schedule :
    ℕ → ScheduledTaskDefinition → MemorySchedulerDriver → MemorySchedulerDriver × ℕ
unfolding new_object launch
schedule now definition d =
    let h = d.host.next_handle in
    let d' = record d {
      tasks = insert definition.id h d.tasks;
      jobs = insert definition.id h d.jobs;
      host =
          say (created h (croner_options definition))
            (new_object (scheduled_task now definition) d.host);
    } in
    (launch definition h d', h)

-- A call of a job, if there is one of that id.
unfoldable pub call_job : (ℕ → SchedulerEvent) → ℕ → MemorySchedulerDriver → MemorySchedulerDriver
call_job call id d = elim (lookup id d.jobs) [ none ↦ d | some h ↦ in_host (say (call h)) d ]

unfoldable pub start : ℕ → MemorySchedulerDriver → MemorySchedulerDriver
unfolding call_job
start id d = call_job resumed_job id d

unfoldable pub pause : ℕ → MemorySchedulerDriver → MemorySchedulerDriver
unfolding call_job
pause id d = call_job paused_job id d

-- `Set.delete`.
unfoldable pub drop_id : ℕ → List ℕ → List ℕ
drop_id id [] = []
drop_id id (x ∷ xs) = let rest = drop_id id xs in if x == id then rest else x ∷ rest

unfoldable pub remove : ℕ → MemorySchedulerDriver → MemorySchedulerDriver
unfolding drop_id call_job
remove id d =
    let d' = call_job stopped_job id d in
    record d' {
      jobs = remove_key id d'.jobs;
      tasks = remove_key id d'.tasks;
      immediate_task_ids = drop_id id d'.immediate_task_ids;
    }

unfoldable pub close : MemorySchedulerDriver → MemorySchedulerDriver
unfolding for_each_job
close d = record d {
  jobs = [];
  tasks = [];
  immediate_task_ids = [];
  ready = false;
  host = for_each_job stopped_job d.jobs d.host;
}

-- The microtask of `runImmediately` that stands first.
unfoldable pub run_queued : ℕ → Host → Host
unfolding start_run
run_queued now w = elim w.queued [ [] ↦ w | h ∷ hs ↦ start_run now h (record w { queued = hs }) ]
