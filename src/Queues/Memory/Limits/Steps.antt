-- ===== src/Queues/Memory/Limits/Steps.antt =====
-- memory.ts: every operation keeps the queue within its limits.
use extra.Prelude.{
  ℕ, zero, suc, ◌≡◌, refl, true, false, inl, inr, Option, none, some, Option-cases, arith,
}
use extra.Queues.Memory.{QueueJob, MemoryQueue, emit, added, find_job, get_job, schedule}
use extra.Queues.Memory.Operations.{
  JobOptions, or_default, RunResult, returned, rejected, rejected_resolving, drop_active,
  generate_job_id, add_with_id, add_generated, add_checked, add, process, start, pause, clear,
  close, finish_run, QueueAction, adds, processes, starts, pauses, clears, closes, fires, settles,
  step,
}
use extra.Queues.Memory.Limits.{
  IsWithinLimits, delete_job-length, schedule-IsWithinLimits, enqueue-IsWithinLimits,
  complete_job-IsWithinLimits, fail_or_retry-IsWithinLimits,
}

dropped :
    (id now : ℕ) (q : MemoryQueue)
    → IsWithinLimits q
    → IsWithinLimits (schedule now (drop_active id q))
dropped id now q h = schedule-IsWithinLimits now (drop_active id q) (record {
  running_jobs = omega (arith, h.running_jobs, delete_job-length id q.active_jobs);
  kept_completed = h.kept_completed;
  kept_failed = h.kept_failed;
})

finish_run-IsWithinLimits :
    (now k : ℕ) (r : RunResult) (q : MemoryQueue)
    → IsWithinLimits q
    → IsWithinLimits (finish_run now k r q)
unfolding finish_run
finish_run-IsWithinLimits now k r q h = go (find_job k q.active_jobs) refl r
  where
    go :
        (o : Option QueueJob)
        → find_job k q.active_jobs ≡ o
        → (r : RunResult) → IsWithinLimits (finish_run now k r q)
    go none e r = rw (e, finish_run) h
    go (some j) e (returned v) =
        rw (e, finish_run) (dropped k now _ (complete_job-IsWithinLimits now v j q h))
    go (some j) e (rejected error) =
        rw (e, finish_run)
          (dropped k now _ (fail_or_retry-IsWithinLimits now error (some j.retry_delay) j q h))
    go (some j) e (rejected_resolving error d) =
        rw (e, finish_run) (dropped k now _ (fail_or_retry-IsWithinLimits now error d j q h))

module _ (ids : ℕ → ℕ) where
  generate_job_id-IsWithinLimits :
      (left : ℕ) (q : MemoryQueue)
      → IsWithinLimits q
      → IsWithinLimits (generate_job_id ids left q).0
  unfolding generate_job_id
  generate_job_id-IsWithinLimits zero q h = h
  generate_job_id-IsWithinLimits (suc left) q h =
      let q' = record q { generated = suc q.generated } in
      elim (Option-cases (get_job q' (ids q.generated))) [
        | inl e ↦ rw (e, generate_job_id) (ground (arith, h))
        | inr (j, e) ↦
            rw (e, generate_job_id) (generate_job_id-IsWithinLimits left q' (ground (arith, h)))
      ]

  add_with_id-IsWithinLimits :
      (now payload attempts delay : ℕ) (o : JobOptions) (k : ℕ) (q : MemoryQueue)
      → IsWithinLimits q
      → IsWithinLimits (add_with_id ids now payload attempts delay o k q).0
  unfolding add_with_id
  add_with_id-IsWithinLimits now payload attempts delay o k q h =
      elim (Option-cases (get_job q k)) [
        | inr (j, e) ↦ rw (e, add_with_id) h
        | inl e ↦
            rw (e, add_with_id)
              (schedule-IsWithinLimits now _ (
                queued
                  (enqueue-IsWithinLimits now _ (record q { idle = false }) (ground (arith, h)))))
      ]
    where
      queued : {q' : MemoryQueue} → IsWithinLimits q' → IsWithinLimits (emit (added k) q')
      queued h = record {
        running_jobs = h.running_jobs;
        kept_completed = h.kept_completed;
        kept_failed = h.kept_failed;
      }

  add_checked-IsWithinLimits :
      (now payload attempts delay : ℕ) (o : JobOptions) (k : Option ℕ) (q : MemoryQueue)
      → IsWithinLimits q
      → IsWithinLimits (add_checked ids now payload attempts delay o k q).0
  unfolding add_checked
  add_checked-IsWithinLimits now payload attempts delay o (some k) q h =
      add_with_id-IsWithinLimits now payload attempts delay o k q h
  add_checked-IsWithinLimits now payload attempts delay o none q h =
      generated (generate_job_id ids 1000 q) (generate_job_id-IsWithinLimits 1000 q h)
    where
      generated :
          (r : MemoryQueue × Option ℕ)
          → IsWithinLimits r.0
          → IsWithinLimits (add_generated ids now payload attempts delay o r).0
      generated (q', none) k = unfold add_generated in k
      generated (q', some id) k =
          unfold add_generated in add_with_id-IsWithinLimits now payload attempts delay o id q' k

  add-IsWithinLimits :
      (now payload : ℕ) (delay : Option ℕ) (o : JobOptions) (q : MemoryQueue)
      → IsWithinLimits q
      → IsWithinLimits (add ids now payload delay o q).0
  unfolding add
  add-IsWithinLimits now payload none o q h = h
  add-IsWithinLimits now payload (some d) o q h =
      let attempts = or_default o.attempts q.default_attempts in
      ground (arith, h, add_checked-IsWithinLimits now payload attempts d o o.id q h)

  -- Whatever call, timer or end of a run comes next: a queue with at most `concurrency` running jobs
  -- and at most `retention` completed and as many failed jobs kept stays so.
  pub step-IsWithinLimits :
      (now : ℕ) (a : QueueAction) (q : MemoryQueue)
      → IsWithinLimits q
      → IsWithinLimits (step ids now a q)
  unfolding step
  step-IsWithinLimits now (adds payload delay o) q h = add-IsWithinLimits now payload delay o q h
  step-IsWithinLimits now processes q h =
      unfold process in
      ground (arith, h, schedule-IsWithinLimits now (record q { has_processor = true }))
  step-IsWithinLimits now starts q h =
      unfold start in ground (arith, h, schedule-IsWithinLimits now (record q { running = true }))
  step-IsWithinLimits now pauses q h = unfold pause in ground (arith, h)
  step-IsWithinLimits now clears q h = unfold clear in ground (arith, h)
  step-IsWithinLimits now closes q h = unfold close in ground (arith, h)
  step-IsWithinLimits now fires q h = schedule-IsWithinLimits now q h
  step-IsWithinLimits now (settles k r) q h = finish_run-IsWithinLimits now k r q h
