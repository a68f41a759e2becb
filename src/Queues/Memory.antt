-- ===== src/Queues/Memory.antt =====
-- packages/queues/src/memory.ts: the class MemoryQueue. Job ids are numbers, as `createJobIdGenerator`
-- makes them, priorities are natural numbers, and times are milliseconds. The payload, the result and
-- the error of a job stand as numbers. One time `now` is read in each synchronous turn. A processor
-- settles in a later turn, also one that throws at once. What listeners see is the list `out`, the
-- latest first.
pub mod Operations
pub mod Ids
pub mod Limits
pub mod Ready
mod Tests
use extra.Prelude.{
  ℕ, suc, ◌+◌, ◌-◌, max, Bool, true, false, not, ◌&&◌, ◌||◌, Option, none, some, List, [], ◌∷◌,
  ◌++◌, length, ltb, leb, ◌==◌, if◌then◌else◌,
}
use extra.Queues.Retry.{RetryDelay}

pub data JobStatus : Type 0 where
  waiting delayed active completed failed : JobStatus

pub record QueueJob : Type 0 where
  pub id : ℕ
  pub payload : ℕ
  pub max_attempts : ℕ
  pub priority : ℕ
  pub created_at : ℕ
  pub run_at : ℕ
  pub attempts_made : ℕ
  pub status : JobStatus
  pub updated_at : ℕ
  pub result : Option ℕ
  pub error : Option ℕ
  pub retry_delay : RetryDelay

pub record QueueEntry : Type 0 where
  pub job : QueueJob
  pub sequence : ℕ

pub data QueueEvent : Type 0 where
  added activated finished gave_up : ℕ → QueueEvent
  retrying : (id delay : ℕ) → QueueEvent
  idled : QueueEvent

pub record MemoryQueue : Type 0 where
  pub concurrency : ℕ
  pub default_attempts : ℕ
  pub retry_delay : RetryDelay
  pub retention : ℕ
  pub queue : List QueueEntry
  pub active_jobs : List QueueJob
  pub completed_jobs : List QueueJob
  pub failed_jobs : List QueueJob
  pub has_processor : Bool
  pub sequence : ℕ
  pub generated : ℕ
  pub idle : Bool
  pub running : Bool
  pub closed : Bool
  pub timer : Option ℕ
  pub out : List QueueEvent

abbrev pub emit : QueueEvent → MemoryQueue → MemoryQueue
emit e q = record q { out = e ∷ q.out }

-- `Map.get`, `Map.set` and `Map.delete`, by the id of a job.
unfoldable pub find_job : ℕ → List QueueJob → Option QueueJob
find_job id [] = none
find_job id (j ∷ js) = if j.id == id then some j else find_job id js

unfoldable pub put_job : QueueJob → List QueueJob → List QueueJob
put_job j [] = j ∷ []
put_job j (k ∷ ks) = if k.id == j.id then j ∷ ks else k ∷ put_job j ks

unfoldable pub delete_job : ℕ → List QueueJob → List QueueJob
delete_job id [] = []
delete_job id (j ∷ js) = if j.id == id then js else j ∷ delete_job id js

unfoldable pub find_entry : ℕ → List QueueEntry → Option QueueJob
find_entry id [] = none
find_entry id (e ∷ es) = if e.job.id == id then some e.job else find_entry id es

abbrev or_job : Option QueueJob → Option QueueJob → Option QueueJob
or_job none b = b
or_job (some a) b = some a

unfoldable pub get_job : MemoryQueue → ℕ → Option QueueJob
get_job q id = or_job (find_job id q.active_jobs) (
    or_job (find_job id q.completed_jobs)
      (or_job (find_job id q.failed_jobs) (find_entry id q.queue)))

-- The comparison of `sortQueue`: `a` stands before `b`, or may.
unfoldable pub comes_first : ℕ → QueueEntry → QueueEntry → Bool
comes_first now a b =
    let a_ready = leb a.job.run_at now in
    let b_ready = leb b.job.run_at now in
    let by_priority =
      if a.job.priority == b.job.priority
      then leb a.sequence b.sequence
      else ltb a.job.priority b.job.priority in
    if a_ready && b_ready
    then by_priority
    else if a_ready
    then true
    else if b_ready
    then false
    else if a.job.run_at == b.job.run_at
    then by_priority
    else ltb a.job.run_at b.job.run_at

-- `Array.prototype.sort` is stable: insertion sort.
unfoldable pub insert_entry : ℕ → QueueEntry → List QueueEntry → List QueueEntry
insert_entry now e [] = e ∷ []
insert_entry now e (f ∷ fs) = if comes_first now e f then e ∷ f ∷ fs else f ∷ insert_entry now e fs

unfoldable pub sort_entries : ℕ → List QueueEntry → List QueueEntry
sort_entries now [] = []
sort_entries now (e ∷ es) = insert_entry now e (sort_entries now es)

abbrev pub new_entry : ℕ → QueueJob → ℕ → QueueEntry
new_entry now job sequence = record {
  job = record job { status = if ltb now job.run_at then delayed else waiting; updated_at = now };
  sequence = sequence;
}

unfoldable pub enqueue : ℕ → QueueJob → MemoryQueue → MemoryQueue
enqueue now job q = record q {
  queue = sort_entries now (q.queue ++ new_entry now job q.sequence ∷ []);
  sequence = suc q.sequence;
}

-- The part of `run` up to the call of the processor.
unfoldable pub begin_run : ℕ → QueueJob → MemoryQueue → MemoryQueue
begin_run now job q = emit (activated job.id) (record q {
  active_jobs =
      put_job
        (record job { status = active; attempts_made = suc job.attempts_made; updated_at = now })
        q.active_jobs;
})

-- The loop of `drainReadyJobs`, over the queue.
unfoldable pub drain_ready_jobs : ℕ → List QueueEntry → MemoryQueue → MemoryQueue
drain_ready_jobs now [] q = record q { queue = [] }
drain_ready_jobs now (e ∷ es) q =
    let rest = drain_ready_jobs now es (begin_run now e.job q) in
    if ltb (length q.active_jobs) q.concurrency && leb e.job.run_at now
    then rest
    else record q { queue = e ∷ es }

-- The last lines of `schedule`.
unfoldable pub await_next : ℕ → List QueueEntry → MemoryQueue → MemoryQueue
await_next now [] q =
    if length q.active_jobs == 0 && not q.idle then emit idled (record q { idle = true }) else q
await_next now (e ∷ es) q = record q { timer = some (now + (e.job.run_at - now)) }

unfoldable pub schedule : ℕ → MemoryQueue → MemoryQueue
schedule now q =
    let q₀ = record q { timer = none } in
    if q.running && q.has_processor
    then (let q₁ = drain_ready_jobs now (sort_entries now q.queue) q₀ in
        if leb q₁.concurrency (length q₁.active_jobs) then q₁ else await_next now q₁.queue q₁)
    else q₀

pub record QueueCounts : Type 0 where
  pub waiting_count : ℕ
  pub delayed_count : ℕ
  pub active_count : ℕ
  pub completed_count : ℕ
  pub failed_count : ℕ
  pub total : ℕ

-- The loop of `counts`: the waiting and the delayed entries.
unfoldable pub count_entries : ℕ → List QueueEntry → ℕ × ℕ
count_entries now [] = (0, 0)
count_entries now (e ∷ es) =
    let (w, d) = count_entries now es in if ltb now e.job.run_at then (w, suc d) else (suc w, d)

unfoldable pub counts : ℕ → MemoryQueue → QueueCounts
unfolding count_entries
counts now q = record {
  waiting_count = (count_entries now q.queue).0;
  delayed_count = (count_entries now q.queue).1;
  active_count = length q.active_jobs;
  completed_count = length q.completed_jobs;
  failed_count = length q.failed_jobs;
  total = length q.queue + length q.active_jobs + length q.completed_jobs + length q.failed_jobs;
}
