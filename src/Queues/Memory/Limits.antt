-- ===== src/Queues/Memory/Limits.antt =====
-- memory.ts: the limits on running jobs and on kept results.
pub mod Steps
use extra.Prelude.{
  ℕ, zero, suc, ◌+◌, ◌≤◌, ◌<◌, ◌≡◌, refl, ap, ◌∙◌, Bool, true, false, inl, inr, ◌⊎◌, Option, none,
  some, List, [], ◌∷◌, ◌++◌, length, ltb, leb, ◌==◌, if◌then◌else◌, Option-cases, Bool-cases, ◌&&◌,
  arith,
}
use extra.Queues.Retry.{RetryDelay}
use extra.Queues.Memory.{
  QueueJob, QueueEntry, MemoryQueue, emit, find_job, put_job, delete_job, get_job, sort_entries,
  new_entry, active, completed, failed, waiting, retrying, added, gave_up, finished, enqueue,
  begin_run, drain_ready_jobs, await_next, schedule,
}
use extra.Queues.Memory.Operations.{
  JobOptions, or_default, RunResult, returned, rejected, rejected_resolving, Outcome,
  generate_job_id, add_with_id, add_generated, add_checked, add, process, start, pause, clear,
  close, trim, retain_job, fail_job, delay_for, drop_active, fail_or_retry, complete_job,
  finish_run, QueueAction, adds, processes, starts, pauses, clears, closes, fires, settles, step,
}

-- At most `concurrency` jobs run, and at most `retention` completed and failed jobs are kept each.
pub record IsWithinLimits (q : MemoryQueue) : Type 0 where
  pub running_jobs : length q.active_jobs ≤ q.concurrency
  pub kept_completed : length q.completed_jobs ≤ q.retention
  pub kept_failed : length q.failed_jobs ≤ q.retention

put_job-length : (j : QueueJob) (js : List QueueJob) → length (put_job j js) ≤ suc (length js)
unfolding put_job
put_job-length j [] = omega arith
put_job-length j (k ∷ ks) = ground (arith, put_job-length j ks)

pub delete_job-length : (id : ℕ) (js : List QueueJob) → length (delete_job id js) ≤ length js
unfolding delete_job
delete_job-length id [] = omega arith
delete_job-length id (k ∷ ks) = ground (arith, delete_job-length id ks)

trim-length : (retention : ℕ) (js : List QueueJob) → length (trim retention js) ≤ retention
unfolding trim
trim-length retention [] = omega arith
trim-length retention (j ∷ js) = ground (arith, trim-length retention js)

retain_job-length :
    (retention : ℕ) (j : QueueJob) (js : List QueueJob)
    → length js ≤ retention
    → length (retain_job retention j js) ≤ retention
unfolding retain_job
retain_job-length retention j js h = ground (arith, trim-length retention (put_job j js))

drain_ready_jobs-IsWithinLimits :
    (now : ℕ) (es : List QueueEntry) (q : MemoryQueue)
    → IsWithinLimits q
    → IsWithinLimits (drain_ready_jobs now es q)
unfolding drain_ready_jobs
drain_ready_jobs-IsWithinLimits now [] q h = ground arith
drain_ready_jobs-IsWithinLimits now (e ∷ es) q h =
    elim (Bool-cases (ltb (length q.active_jobs) q.concurrency && leb e.job.run_at now)) [
      | inr stop ↦ rw (stop, drain_ready_jobs) (ground arith)
      | inl go ↦
          rw (go, drain_ready_jobs)
            (drain_ready_jobs-IsWithinLimits now es (begin_run now e.job q) (begun e go))
    ]
  where
    begun :
        (e : QueueEntry)
        → (ltb (length q.active_jobs) q.concurrency && leb e.job.run_at now) ≡ true
        → IsWithinLimits (begin_run now e.job q)
    begun e go =
        unfold begin_run in
        ground (
          arith,
          put_job-length
              (record (e.job) {
                status = active;
                attempts_made = suc e.job.attempts_made;
                updated_at = now;
              })
              q.active_jobs,
        )

await_next-IsWithinLimits :
    (now : ℕ) (es : List QueueEntry) (q : MemoryQueue)
    → IsWithinLimits q
    → IsWithinLimits (await_next now es q)
unfolding await_next
await_next-IsWithinLimits now [] q h = ground arith
await_next-IsWithinLimits now (e ∷ es) q h = ground arith

pub schedule-IsWithinLimits :
    (now : ℕ) (q : MemoryQueue) → IsWithinLimits q → IsWithinLimits (schedule now q)
unfolding schedule
schedule-IsWithinLimits now q h =
    let q₀ = record q { timer = none } in
    let q₁ = drain_ready_jobs now (sort_entries now q.queue) q₀ in
    let h₀ : IsWithinLimits q₀ = ground arith in
    let h₁ = drain_ready_jobs-IsWithinLimits now (sort_entries now q.queue) q₀ h₀ in
    ground (arith, h₀, h₁, await_next-IsWithinLimits now q₁.queue q₁ h₁)

pub enqueue-IsWithinLimits :
    (now : ℕ) (j : QueueJob) (q : MemoryQueue) → IsWithinLimits q → IsWithinLimits (enqueue now j q)
unfolding enqueue
enqueue-IsWithinLimits now j q h = ground arith

pub complete_job-IsWithinLimits :
    (now r : ℕ) (j : QueueJob) (q : MemoryQueue)
    → IsWithinLimits q
    → IsWithinLimits (complete_job now j r q)
unfolding complete_job
complete_job-IsWithinLimits now r j q h = record {
  running_jobs = h.running_jobs;
  kept_completed = retain_job-length q.retention _ q.completed_jobs h.kept_completed;
  kept_failed = h.kept_failed;
}

fail_job-IsWithinLimits :
    (now error : ℕ) (j : QueueJob) (q : MemoryQueue)
    → IsWithinLimits q
    → IsWithinLimits (fail_job now j error q)
unfolding fail_job
fail_job-IsWithinLimits now error j q h = record {
  running_jobs = h.running_jobs;
  kept_completed = h.kept_completed;
  kept_failed = retain_job-length q.retention _ q.failed_jobs h.kept_failed;
}

pub fail_or_retry-IsWithinLimits :
    (now error : ℕ) (r : Option RetryDelay) (j : QueueJob) (q : MemoryQueue)
    → IsWithinLimits q
    → IsWithinLimits (fail_or_retry now j error r q)
unfolding fail_or_retry
fail_or_retry-IsWithinLimits now error r j q h =
    let f = fail_job-IsWithinLimits now error j q h in
    elim (Bool-cases (ltb j.attempts_made j.max_attempts)) [
      | inr last ↦ rw (last, fail_or_retry) (ground (arith, f))
      | inl again ↦ elim (Option-cases (delay_for j r)) [
        | inl e ↦ rw (again, fail_or_retry, e) (ground (arith, f))
        | inr (d, e) ↦
            rw (again, fail_or_retry, e)
              (enqueue-IsWithinLimits now _ (emit (retrying j.id d) (record q { idle = false }))
                (ground arith))
      ]
    ]
