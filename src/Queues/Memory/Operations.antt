-- ===== src/Queues/Memory/Operations.antt =====
-- packages/queues/src/memory.ts: the operations of MemoryQueue, the end of a run, and the timer.
use extra.Prelude.{
  ℕ, zero, suc, ◌+◌, Bool, true, false, Option, none, some, List, [], ◌∷◌, length, ltb, ◌==◌,
  if◌then◌else◌,
}
use extra.Queues.Retry.{RetryDelay, resolve_retry_delay_value}
use extra.Queues.Memory.{
  waiting, completed, failed, QueueJob, added, finished, gave_up, retrying, MemoryQueue, emit,
  find_job, put_job, delete_job, get_job, enqueue, schedule,
}

pub data QueueError : Type 0 where
  bad_concurrency bad_attempts bad_retention queue_closed bad_delay duplicate_id no_unique_id :
      QueueError
  has_processor_already clear_while_active : QueueError

pub data Outcome : Type 0 where
  done : Outcome
  new_job : ℕ → Outcome
  threw : QueueError → Outcome

-- The constructor, with its defaults given: numbers that are no integers are refused like 0.
unfoldable pub memory_queue :
    (concurrency attempts : ℕ) (retention : Option ℕ)
    → RetryDelay
    → (autostart : Bool) → Option MemoryQueue
memory_queue concurrency attempts retention retry_delay autostart = elim retention [
  | none ↦ none
  | some kept ↦
      if concurrency == 0
      then none
      else if attempts == 0
      then none
      else some (record {
        concurrency = concurrency;
        default_attempts = attempts;
        retry_delay = retry_delay;
        retention = kept;
        queue = [];
        active_jobs = [];
        completed_jobs = [];
        failed_jobs = [];
        has_processor = false;
        sequence = 0;
        generated = 0;
        idle = true;
        running = autostart;
        closed = false;
        timer = none;
        out = [];
      })
]

pub record JobOptions : Type 0 where
  pub id : Option ℕ
  pub attempts : Option ℕ
  pub priority : Option ℕ
  pub retry_delay : Option RetryDelay

abbrev pub or_default {ℓ} : {A : Type ℓ} → Option A → A → A
or_default none d = d
or_default (some a) d = a

module _ (id_generator : ℕ → ℕ) where
  -- The loop of `generateJobId`, over the attempts left; `idGenerator` is a function of the number
  -- of its calls.
  unfoldable pub generate_job_id : ℕ → MemoryQueue → MemoryQueue × Option ℕ
  generate_job_id zero q = (q, none)
  generate_job_id (suc left) q =
      let id = id_generator q.generated in
      let q' = record q { generated = suc q.generated } in
      let rest = generate_job_id left q' in
      elim (get_job q' id) [ none ↦ (q', some id) | some j ↦ rest ]

  unfoldable pub add_with_id :
      ℕ → (payload attempts delay : ℕ) → JobOptions → ℕ → MemoryQueue → MemoryQueue × Outcome
  add_with_id now payload attempts delay options id q = elim (get_job q id) [
    | some j ↦ (q, threw duplicate_id)
    | none ↦ (
      schedule now (
          emit (added id) (
            enqueue now
              (record {
                id = id;
                payload = payload;
                max_attempts = attempts;
                priority = or_default options.priority 0;
                created_at = now;
                run_at = now + delay;
                attempts_made = 0;
                status = waiting;
                updated_at = now;
                result = none;
                error = none;
                retry_delay = or_default options.retry_delay q.retry_delay;
              })
              (record q { idle = false }))),
      new_job id,
    )
  ]

  -- With the id that `generateJobId` answers.
  unfoldable pub add_generated :
      ℕ → (payload attempts delay : ℕ) → JobOptions → MemoryQueue × Option ℕ → MemoryQueue × Outcome
  add_generated now payload attempts delay options (q, none) = (q, threw no_unique_id)
  add_generated now payload attempts delay options (q, some id) =
      add_with_id now payload attempts delay options id q

  unfoldable pub add_checked :
      ℕ → (payload attempts delay : ℕ) → JobOptions → Option ℕ → MemoryQueue → MemoryQueue × Outcome
  add_checked now payload attempts delay options (some id) q =
      add_with_id now payload attempts delay options id q
  add_checked now payload attempts delay options none q =
      add_generated now payload attempts delay options (generate_job_id 1000 q)

  -- `delay` is `parseDuration(options.delay ?? 0)`, `none` for a duration that is no duration.
  unfoldable pub add :
      ℕ → (payload : ℕ) → (delay : Option ℕ) → JobOptions → MemoryQueue → MemoryQueue × Outcome
  add now payload none options q = (q, threw (if q.closed then queue_closed else bad_delay))
  add now payload (some delay) options q =
      let attempts = or_default options.attempts q.default_attempts in
      if q.closed
      then (q, threw queue_closed)
      else if attempts == 0
      then (q, threw bad_attempts)
      else add_checked now payload attempts delay options options.id q

unfoldable pub process : ℕ → MemoryQueue → MemoryQueue × Outcome
process now q =
    if q.closed
    then (q, threw queue_closed)
    else if q.has_processor
    then (q, threw has_processor_already)
    else (schedule now (record q { has_processor = true }), done)

unfoldable pub start : ℕ → MemoryQueue → MemoryQueue × Outcome
start now q =
    if q.closed then (q, threw queue_closed) else (schedule now (record q { running = true }), done)

unfoldable pub pause : MemoryQueue → MemoryQueue × Outcome
pause q =
    if q.closed then (q, threw queue_closed) else (record q { running = false; timer = none }, done)

unfoldable pub clear : MemoryQueue → MemoryQueue × Outcome
clear q =
    if q.closed
    then (q, threw queue_closed)
    else if ltb 0 (length q.active_jobs)
    then (q, threw clear_while_active)
    else (
      record q { queue = []; completed_jobs = []; failed_jobs = []; idle = true; timer = none },
      done,
    )

unfoldable pub close : MemoryQueue → MemoryQueue
close q =
    if q.closed
    then q
    else record q { closed = true; running = false; has_processor = false; timer = none }

-- `while (store.size > retention)` delete the oldest.
unfoldable pub trim : ℕ → List QueueJob → List QueueJob
trim retention [] = []
trim retention (j ∷ js) = if ltb retention (length (j ∷ js)) then trim retention js else j ∷ js

unfoldable pub retain_job : ℕ → QueueJob → List QueueJob → List QueueJob
retain_job retention job store =
    if retention == 0 then store else trim retention (put_job job store)

unfoldable pub fail_job : ℕ → QueueJob → ℕ → MemoryQueue → MemoryQueue
fail_job now job error q = record q {
  failed_jobs =
      retain_job q.retention (record job { error = some error; status = failed; updated_at = now })
        q.failed_jobs;
}

-- What the processor of a run did. `resolved` is what the retry delay of the job resolves to, where
-- it is a function; `none` where that function throws.
pub data RunResult : Type 0 where
  returned : ℕ → RunResult
  rejected : (error : ℕ) → RunResult
  rejected_resolving : (error : ℕ) → Option RetryDelay → RunResult

abbrev pub delay_for : QueueJob → Option RetryDelay → Option ℕ
delay_for job none = none
delay_for job (some d) = resolve_retry_delay_value d job.attempts_made

-- The body of the `catch`.
unfoldable pub fail_or_retry : ℕ → QueueJob → ℕ → Option RetryDelay → MemoryQueue → MemoryQueue
fail_or_retry now job error resolver q =
    if ltb job.attempts_made job.max_attempts
    then elim (delay_for job resolver) [
      | none ↦ emit (gave_up job.id) (fail_job now job error q)
      | some delay ↦
          enqueue now (record job { run_at = now + delay; error = some error })
            (emit (retrying job.id delay) (record q { idle = false }))
    ]
    else emit (gave_up job.id) (fail_job now job error q)

abbrev pub drop_active : ℕ → MemoryQueue → MemoryQueue
drop_active id q = record q { active_jobs = delete_job id q.active_jobs }

unfoldable pub complete_job : ℕ → QueueJob → ℕ → MemoryQueue → MemoryQueue
complete_job now job result q = emit (finished job.id) (record q {
  completed_jobs =
      retain_job q.retention
        (record job { status = completed; error = none; result = some result; updated_at = now })
        q.completed_jobs;
})

-- The part of `run` from the answer of the processor on.
unfoldable pub finish_run : ℕ → ℕ → RunResult → MemoryQueue → MemoryQueue
finish_run now id r q = elim (find_job id q.active_jobs) [
  | none ↦ q
  | some job ↦ schedule now (
      drop_active id (elim r [
        | returned result ↦ complete_job now job result q
        | rejected error ↦ fail_or_retry now job error (some job.retry_delay) q
        | rejected_resolving error resolver ↦ fail_or_retry now job error resolver q
      ]))
]

-- What can happen to a queue: a call, the end of a run, the timer.
pub data QueueAction : Type 0 where
  adds : (payload : ℕ) (delay : Option ℕ) → JobOptions → QueueAction
  processes starts pauses clears closes fires : QueueAction
  settles : (id : ℕ) → RunResult → QueueAction

unfoldable pub step : (ℕ → ℕ) → ℕ → QueueAction → MemoryQueue → MemoryQueue
step ids now (adds payload delay options) q = (add ids now payload delay options q).0
step ids now processes q = (process now q).0
step ids now starts q = (start now q).0
step ids now pauses q = (pause q).0
step ids now clears q = (clear q).0
step ids now closes q = close q
step ids now fires q = schedule now q
step ids now (settles id r) q = finish_run now id r q
