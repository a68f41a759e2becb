-- ===== src/Queues/Memory/Ids.antt =====
-- memory.ts: a job is at one place at a time.
pub mod Steps
use extra.Prelude.{
  ℕ, zero, suc, ◌+◌, ◌≤◌, ◌<◌, ◌≡◌, refl, ap, ◌∙◌, Bool, true, false, inl, inr, ◌⊎◌, Option, none,
  some, List, [], ◌∷◌, ◌++◌, length, ltb, leb, ◌==◌, if◌then◌else◌, Option-cases, Bool-cases, ◌&&◌,
  arith,
}
use extra.Queues.Retry.{RetryDelay}
use extra.Queues.Memory.{
  QueueJob, QueueEntry, MemoryQueue, emit, find_job, put_job, delete_job, find_entry, get_job,
  comes_first, insert_entry, sort_entries, new_entry, active, completed, failed, retrying, enqueue,
  begin_run, drain_ready_jobs, await_next, schedule,
}
use extra.Queues.Memory.Operations.{
  JobOptions, RunResult, returned, rejected, rejected_resolving, Outcome, generate_job_id,
  add_with_id, add, process, start, pause, clear, close, trim, retain_job, fail_job, delay_for,
  drop_active, fail_or_retry, complete_job, finish_run, QueueAction, adds, processes, starts,
  pauses, clears, closes, fires, settles, step,
}

abbrev pub one_if : Bool → ℕ
one_if true = 1
one_if false = 0

-- How often a job with this id is in a list, and in the queue at all.
abbrev pub job_count : ℕ → List QueueJob → ℕ
job_count id [] = 0
job_count id (j ∷ js) = one_if (j.id == id) + job_count id js

abbrev pub entry_count : ℕ → List QueueEntry → ℕ
entry_count id [] = 0
entry_count id (e ∷ es) = one_if (e.job.id == id) + entry_count id es

abbrev pub id_count : ℕ → MemoryQueue → ℕ
id_count id q =
    entry_count id q.queue
    + job_count id q.active_jobs
    + job_count id q.completed_jobs
    + job_count id q.failed_jobs

-- No id is at two places, or twice at one.
abbrev pub HasDistinctIds : MemoryQueue → Type 0
HasDistinctIds q = (id : ℕ) → id_count id q ≤ 1

entry_count-append :
    (id : ℕ) (xs ys : List QueueEntry)
    → entry_count id (xs ++ ys) ≡ entry_count id xs + entry_count id ys
entry_count-append id [] ys = omega arith
entry_count-append id (x ∷ xs) ys = omega (arith, entry_count-append id xs ys)

entry_count-insert_entry :
    (id now : ℕ) (e : QueueEntry) (es : List QueueEntry)
    → entry_count id (insert_entry now e es) ≡ one_if (e.job.id == id) + entry_count id es
unfolding insert_entry
entry_count-insert_entry id now e [] = refl
entry_count-insert_entry id now e (f ∷ fs) = elim (Bool-cases (comes_first now e f)) [
  | inl first ↦ rw first
  | inr later ↦ rw later (omega (arith, entry_count-insert_entry id now e fs))
]

pub entry_count-sort_entries :
    (id now : ℕ) (es : List QueueEntry) → entry_count id (sort_entries now es) ≡ entry_count id es
unfolding sort_entries
entry_count-sort_entries id now [] = refl
entry_count-sort_entries id now (e ∷ es) =
    entry_count-insert_entry id now e (sort_entries now es)
    ∙ omega (arith, entry_count-sort_entries id now es)

-- `Map.set` adds at most one place for the id, and none for others.
job_count-put_job :
    (id : ℕ) (j : QueueJob) (js : List QueueJob)
    → job_count id (put_job j js) ≤ one_if (j.id == id) + job_count id js
unfolding put_job
job_count-put_job id j [] = omega arith
job_count-put_job id j (k ∷ ks) = ground (arith, job_count-put_job id j ks)

job_count-trim :
    (id retention : ℕ) (js : List QueueJob) → job_count id (trim retention js) ≤ job_count id js
unfolding trim
job_count-trim id retention [] = omega arith
job_count-trim id retention (j ∷ js) = ground (arith, job_count-trim id retention js)

job_count-retain_job :
    (id retention : ℕ) (j : QueueJob) (js : List QueueJob)
    → job_count id (retain_job retention j js) ≤ one_if (j.id == id) + job_count id js
unfolding retain_job
job_count-retain_job id retention j js =
    ground (arith, job_count-trim id retention (put_job j js), job_count-put_job id j js)

-- `Map.delete` takes the job away that `Map.get` finds.
job_count-delete_job :
    (id k : ℕ) (js : List QueueJob) (j : QueueJob)
    → find_job k js ≡ some j
    → (job_count id (delete_job k js) + one_if (j.id == id) ≡ job_count id js) × (j.id ≡ k)
unfolding delete_job find_job
job_count-delete_job id k [] j h = cc
job_count-delete_job id k (i ∷ is) j h = ground (arith, job_count-delete_job id k is j)

find_job-none : (id : ℕ) (js : List QueueJob) → find_job id js ≡ none → job_count id js ≡ 0
unfolding find_job
find_job-none id [] h = refl
find_job-none id (j ∷ js) h = ground (arith, find_job-none id js)

find_entry-none : (id : ℕ) (es : List QueueEntry) → find_entry id es ≡ none → entry_count id es ≡ 0
unfolding find_entry
find_entry-none id [] h = refl
find_entry-none id (e ∷ es) h = ground (arith, find_entry-none id es)

pub get_job-none : (id : ℕ) (q : MemoryQueue) → get_job q id ≡ none → id_count id q ≡ 0
unfolding get_job
get_job-none id q h = ground (
  arith,
  find_job-none id q.active_jobs,
  find_job-none id q.completed_jobs,
  find_job-none id q.failed_jobs,
  find_entry-none id q.queue,
)

pub enqueue-id_count :
    (id now : ℕ) (j : QueueJob) (q : MemoryQueue)
    → id_count id (enqueue now j q) ≡ one_if (j.id == id) + id_count id q
unfolding enqueue
enqueue-id_count id now j q = omega (
  arith,
  entry_count-sort_entries id now (q.queue ++ new_entry now j q.sequence ∷ []),
  entry_count-append id q.queue (new_entry now j q.sequence ∷ []),
)

-- The places of an id outside of the waiting entries.
abbrev elsewhere : ℕ → MemoryQueue → ℕ
elsewhere id q =
    job_count id q.active_jobs + job_count id q.completed_jobs + job_count id q.failed_jobs

begin_run-elsewhere :
    (id now : ℕ) (j : QueueJob) (q : MemoryQueue)
    → elsewhere id (begin_run now j q) ≤ one_if (j.id == id) + elsewhere id q
unfolding begin_run
begin_run-elsewhere id now j q = omega (
  arith,
  job_count-put_job id
      (record j { status = active; attempts_made = suc j.attempts_made; updated_at = now })
      q.active_jobs,
)

drain_ready_jobs-id_count :
    (id now : ℕ) (es : List QueueEntry) (q : MemoryQueue)
    → id_count id (drain_ready_jobs now es q) ≤ entry_count id es + elsewhere id q
unfolding drain_ready_jobs
drain_ready_jobs-id_count id now [] q = omega arith
drain_ready_jobs-id_count id now (e ∷ es) q = ground (
  arith,
  drain_ready_jobs-id_count id now es (begin_run now e.job q),
  begin_run-elsewhere id now e.job q,
)

await_next-id_count :
    (id now : ℕ) (es : List QueueEntry) (q : MemoryQueue)
    → id_count id (await_next now es q) ≡ id_count id q
unfolding await_next
await_next-id_count id now [] q = ground arith
await_next-id_count id now (e ∷ es) q = refl

pub schedule-id_count :
    (id now : ℕ) (q : MemoryQueue) → id_count id (schedule now q) ≤ id_count id q
unfolding schedule
schedule-id_count id now q =
    let drained = drain_ready_jobs now (sort_entries now q.queue) (record q { timer = none }) in
    ground (
      arith,
      drain_ready_jobs-id_count id now (sort_entries now q.queue) (record q { timer = none }),
      entry_count-sort_entries id now q.queue,
      await_next-id_count id now drained.queue drained,
    )

complete_job-id_count :
    (id now r : ℕ) (j : QueueJob) (q : MemoryQueue)
    → (id_count id (complete_job now j r q) ≤ one_if (j.id == id) + id_count id q)
      × ((complete_job now j r q).active_jobs ≡ q.active_jobs)
unfolding complete_job
complete_job-id_count id now r j q = (
  omega (
    arith,
    job_count-retain_job id q.retention
        (record j { status = completed; error = none; result = some r; updated_at = now })
        q.completed_jobs,
  ),
  refl,
)

fail_job-id_count :
    (id now error : ℕ) (j : QueueJob) (q : MemoryQueue)
    → (id_count id (fail_job now j error q) ≤ one_if (j.id == id) + id_count id q)
      × ((fail_job now j error q).active_jobs ≡ q.active_jobs)
unfolding fail_job
fail_job-id_count id now error j q = (
  omega (
    arith,
    job_count-retain_job id q.retention
        (record j { error = some error; status = failed; updated_at = now }) q.failed_jobs,
  ),
  refl,
)

enqueue-active :
    (now : ℕ) (j : QueueJob) (q : MemoryQueue) → (enqueue now j q).active_jobs ≡ q.active_jobs
unfolding enqueue
enqueue-active now j q = refl

fail_or_retry-id_count :
    (id now error : ℕ) (r : Option RetryDelay) (j : QueueJob) (q : MemoryQueue)
    → (id_count id (fail_or_retry now j error r q) ≤ one_if (j.id == id) + id_count id q)
      × ((fail_or_retry now j error r q).active_jobs ≡ q.active_jobs)
unfolding fail_or_retry
fail_or_retry-id_count id now error r j q = elim (Bool-cases (ltb j.attempts_made j.max_attempts)) [
  | inr last ↦ rw last (fail_job-id_count id now error j q)
  | inl again ↦ elim (Option-cases (delay_for j r)) [
    | inl e ↦ rw (again, e) (fail_job-id_count id now error j q)
    | inr (d, e) ↦
        let job = record j { run_at = now + d; error = some error } in
        let q' = emit (retrying j.id d) (record q { idle = false }) in
        rw (again, e) (omega (arith, enqueue-id_count id now job q'), enqueue-active now job q')
  ]
]

-- The end of a run moves its job, or drops it.
pub finish_run-id_count :
    (id now k : ℕ) (r : RunResult) (q : MemoryQueue)
    → id_count id (finish_run now k r q) ≤ id_count id q
unfolding finish_run
finish_run-id_count id now k r q = go (find_job k q.active_jobs) refl r
  where
    moved :
        (j : QueueJob) (q' : MemoryQueue)
        → find_job k q.active_jobs ≡ some j
        → (id_count id q' ≤ one_if (j.id == id) + id_count id q) × (q'.active_jobs ≡ q.active_jobs)
        → id_count id (schedule now (drop_active k q')) ≤ id_count id q
    moved j q' e (n, a) = omega (
      arith,
      schedule-id_count id now (drop_active k q'),
      ap (λ l. job_count id (delete_job k l)) a,
      ap (job_count id) a,
      job_count-delete_job id k q.active_jobs j e,
    )

    go :
        (o : Option QueueJob)
        → find_job k q.active_jobs ≡ o
        → (r : RunResult) → id_count id (finish_run now k r q) ≤ id_count id q
    go none e r = rw (e, finish_run) (omega arith)
    go (some j) e (returned v) =
        rw (e, finish_run) (moved j _ e (complete_job-id_count id now v j q))
    go (some j) e (rejected error) =
        rw (e, finish_run)
          (moved j _ e (fail_or_retry-id_count id now error (some j.retry_delay) j q))
    go (some j) e (rejected_resolving error d) =
        rw (e, finish_run) (moved j _ e (fail_or_retry-id_count id now error d j q))
