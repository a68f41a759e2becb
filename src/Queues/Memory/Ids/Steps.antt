-- ===== src/Queues/Memory/Ids/Steps.antt =====
-- memory.ts: every operation keeps the ids of jobs distinct.
use extra.Prelude.{
  ℕ, zero, suc, ◌+◌, ◌≤◌, ◌≡◌, refl, true, false, inl, inr, Option, none, some, Option-cases, arith,
}
use extra.Queues.Memory.{QueueJob, MemoryQueue, emit, added, waiting, get_job, enqueue}
use extra.Queues.Memory.Operations.{
  JobOptions, or_default, generate_job_id, add_with_id, add_generated, add_checked, add, process,
  start, pause, clear, close, QueueAction, adds, processes, starts, pauses, clears, closes, fires,
  settles, step,
}
use extra.Queues.Memory.Ids.{
  id_count, HasDistinctIds, get_job-none, enqueue-id_count, schedule-id_count, finish_run-id_count,
}

module _ (ids : ℕ → ℕ) where
  generate_job_id-id_count :
      (left id : ℕ) (q : MemoryQueue) → id_count id (generate_job_id ids left q).0 ≡ id_count id q
  unfolding generate_job_id
  generate_job_id-id_count zero id q = refl
  generate_job_id-id_count (suc left) id q =
      let q' = record q { generated = suc q.generated } in
      elim (Option-cases (get_job q' (ids q.generated))) [
        | inl e ↦ rw (e, generate_job_id) refl
        | inr (j, e) ↦ rw (e, generate_job_id) (generate_job_id-id_count left id q')
      ]

  add_with_id-HasDistinctIds :
      (now payload attempts delay : ℕ) (o : JobOptions) (k : ℕ) (q : MemoryQueue)
      → HasDistinctIds q
      → HasDistinctIds (add_with_id ids now payload attempts delay o k q).0
  unfolding add_with_id
  add_with_id-HasDistinctIds now payload attempts delay o k q h id =
      elim (Option-cases (get_job q k)) [
        | inr (j, e) ↦ rw (e, add_with_id) (h id)
        | inl e ↦
            let job : QueueJob = record {
              id = k;
              payload = payload;
              max_attempts = attempts;
              priority = or_default o.priority 0;
              created_at = now;
              run_at = now + delay;
              attempts_made = 0;
              status = waiting;
              updated_at = now;
              result = none;
              error = none;
              retry_delay = or_default o.retry_delay q.retry_delay;
            } in
            let q' = record q { idle = false } in
            rw (e, add_with_id)
              (ground (
                arith,
                schedule-id_count id now (emit (added k) (enqueue now job q')),
                enqueue-id_count id now job q',
                get_job-none k q e,
                h id,
              ))
      ]

  add_checked-HasDistinctIds :
      (now payload attempts delay : ℕ) (o : JobOptions) (k : Option ℕ) (q : MemoryQueue)
      → HasDistinctIds q
      → HasDistinctIds (add_checked ids now payload attempts delay o k q).0
  unfolding add_checked
  add_checked-HasDistinctIds now payload attempts delay o (some k) q h =
      add_with_id-HasDistinctIds now payload attempts delay o k q h
  add_checked-HasDistinctIds now payload attempts delay o none q h =
      generated (generate_job_id ids 1000 q)
        (λ i. omega (arith, generate_job_id-id_count 1000 i q, h i))
    where
      generated :
          (r : MemoryQueue × Option ℕ)
          → HasDistinctIds r.0
          → HasDistinctIds (add_generated ids now payload attempts delay o r).0
      generated (q', none) k = unfold add_generated in k
      generated (q', some id) k =
          unfold add_generated in add_with_id-HasDistinctIds now payload attempts delay o id q' k

  add-HasDistinctIds :
      (now payload : ℕ) (delay : Option ℕ) (o : JobOptions) (q : MemoryQueue)
      → HasDistinctIds q
      → HasDistinctIds (add ids now payload delay o q).0
  unfolding add
  add-HasDistinctIds now payload none o q h id = h id
  add-HasDistinctIds now payload (some d) o q h id =
      let attempts = or_default o.attempts q.default_attempts in
      ground (arith, h id, add_checked-HasDistinctIds now payload attempts d o o.id q h id)

  process-id_count : (id now : ℕ) (q : MemoryQueue) → id_count id (process now q).0 ≤ id_count id q
  unfolding process
  process-id_count id now q =
      ground (arith, schedule-id_count id now (record q { has_processor = true }))

  start-id_count : (id now : ℕ) (q : MemoryQueue) → id_count id (start now q).0 ≤ id_count id q
  unfolding start
  start-id_count id now q = ground (arith, schedule-id_count id now (record q { running = true }))

  -- Whatever call, timer or end of a run comes next: if no job id is at two places of the queue (two
  -- waiting entries, or two of waiting, active, completed and failed), none is afterwards.
  pub step-HasDistinctIds :
      (now : ℕ) (a : QueueAction) (q : MemoryQueue)
      → HasDistinctIds q
      → HasDistinctIds (step ids now a q)
  unfolding step
  step-HasDistinctIds now (adds payload delay o) q h id =
      add-HasDistinctIds now payload delay o q h id
  step-HasDistinctIds now processes q h id = omega (arith, process-id_count id now q, h id)
  step-HasDistinctIds now starts q h id = omega (arith, start-id_count id now q, h id)
  step-HasDistinctIds now pauses q h id = unfold pause in ground (arith, h id)
  step-HasDistinctIds now clears q h id = unfold clear in ground (arith, h id)
  step-HasDistinctIds now closes q h id = unfold close in ground (arith, h id)
  step-HasDistinctIds now fires q h id = omega (arith, schedule-id_count id now q, h id)
  step-HasDistinctIds now (settles k r) q h id =
      omega (arith, finish_run-id_count id now k r q, h id)
