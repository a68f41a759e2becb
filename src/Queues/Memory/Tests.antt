-- ===== src/Queues/Memory/Tests.antt =====
-- memory.ts at concrete inputs.
use extra.Prelude.{ℕ, ◌+◌, ◌≤◌, ◌≡◌, refl, true, false, none, some, List, [], ◌∷◌, ◌++◌, All, arith}
use extra.Queues.Retry.{duration}
use extra.Queues.Memory.{QueueJob, QueueEntry, waiting, MemoryQueue, sort_entries, schedule}
use extra.Queues.Memory.Operations.{JobOptions, adds, step}
use extra.Queues.Memory.Ids.{HasDistinctIds}
use extra.Queues.Memory.Ids.Steps.{step-HasDistinctIds}
use extra.Queues.Memory.Limits.{IsWithinLimits}
use extra.Queues.Memory.Limits.Steps.{step-IsWithinLimits}
use extra.Queues.Memory.Ready.{IsOrdered, IsServed, schedule-front, schedule-IsServed}

abbrev job_at : ℕ → ℕ → QueueJob
job_at id run_at = record {
  id = id;
  payload = 0;
  max_attempts = 2;
  priority = 0;
  created_at = 0;
  run_at = run_at;
  attempts_made = 0;
  status = waiting;
  updated_at = 0;
  result = none;
  error = none;
  retry_delay = duration (some 5);
}

-- One job at a time; the job of time 3 stands behind the one of time 9.
abbrev two_jobs : MemoryQueue
two_jobs = record {
  concurrency = 1;
  default_attempts = 1;
  retry_delay = duration (some 5);
  retention = 2;
  queue =
      record { job = job_at 1 9; sequence = 0 } ∷ record { job = job_at 2 3; sequence = 1 } ∷ [];
  active_jobs = [];
  completed_jobs = [];
  failed_jobs = [];
  has_processor = true;
  sequence = 2;
  generated = 2;
  idle = false;
  running = true;
  closed = false;
  timer = none;
  out = [];
}

abbrev plain : JobOptions
plain = record { id = none; attempts = none; priority = none; retry_delay = none }

two_jobs-HasDistinctIds : HasDistinctIds two_jobs
two_jobs-HasDistinctIds id = ground arith

two_jobs-IsWithinLimits : IsWithinLimits two_jobs
two_jobs-IsWithinLimits = record {
  running_jobs = omega arith;
  kept_completed = omega arith;
  kept_failed = omega arith;
}

step-HasDistinctIds_example : HasDistinctIds (step (λ n. n + 1) 4 (adds 0 (some 0) plain) two_jobs)
step-HasDistinctIds_example =
    step-HasDistinctIds (λ n. n + 1) 4 (adds 0 (some 0) plain) two_jobs two_jobs-HasDistinctIds

step-IsWithinLimits_example : IsWithinLimits (step (λ n. n + 1) 4 (adds 0 (some 0) plain) two_jobs)
step-IsWithinLimits_example =
    step-IsWithinLimits (λ n. n + 1) 4 (adds 0 (some 0) plain) two_jobs two_jobs-IsWithinLimits

schedule-front_example :
    IsOrdered 4 (sort_entries 4 two_jobs.queue)
    × ((started : List QueueEntry) × (sort_entries 4 two_jobs.queue
          ≡ started ++ (schedule 4 two_jobs).queue)
        × All (λ e. e.job.run_at ≤ 4) started)
schedule-front_example = schedule-front 4 two_jobs refl

schedule-IsServed_example : IsServed 1 (schedule 1 two_jobs)
schedule-IsServed_example = schedule-IsServed 1 two_jobs refl
