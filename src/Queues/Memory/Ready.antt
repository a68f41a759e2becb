-- ===== src/Queues/Memory/Ready.antt =====
-- memory.ts: `schedule` starts the jobs that come first, and leaves none that it could start.
use extra.Prelude.{
  ℕ, ◌+◌, ◌-◌, ◌≤◌, ◌<◌, ◌≡◌, refl, sym, ap, subst, ◌∙◌, true, false, inl, inr, ◌⊎◌, none, some,
  List, [], ◌∷◌, ◌++◌, length, All, ltb, leb, ◌&&◌, if◌then◌else◌, Bool-cases, arith,
}
use extra.Queues.Memory.{
  QueueEntry, MemoryQueue, comes_first, insert_entry, sort_entries, begin_run, drain_ready_jobs,
  await_next, schedule,
}

-- Each entry comes before all behind it, by the comparison of `sortQueue`.
abbrev pub IsOrdered : ℕ → List QueueEntry → Type 0
IsOrdered now [] = Unit {0}
IsOrdered now (e ∷ es) = All (λ f. comes_first now e f ≡ true) es × IsOrdered now es

comes_first_total :
    (now : ℕ) (a b : QueueEntry) → comes_first now a b ≡ false → comes_first now b a ≡ true
unfolding comes_first
comes_first_total now a b h = ground arith

comes_first_trans :
    (now : ℕ) (a b c : QueueEntry)
    → comes_first now a b ≡ true
    → comes_first now b c ≡ true
    → comes_first now a c ≡ true
unfolding comes_first
comes_first_trans now a b c h k = ground arith

All-comes_first_trans :
    (now : ℕ) (a b : QueueEntry) (es : List QueueEntry)
    → comes_first now a b ≡ true
    → All (λ f. comes_first now b f ≡ true) es
    → All (λ f. comes_first now a f ≡ true) es
All-comes_first_trans now a b [] h k = tt
All-comes_first_trans now a b (e ∷ es) h k =
    (comes_first_trans now a b e h k.0, All-comes_first_trans now a b es h k.1)

All-insert_entry :
    (now : ℕ) (a e : QueueEntry) (es : List QueueEntry)
    → comes_first now a e ≡ true
    → All (λ f. comes_first now a f ≡ true) es
    → All (λ f. comes_first now a f ≡ true) (insert_entry now e es)
unfolding insert_entry
All-insert_entry now a e [] h k = (h, tt)
All-insert_entry now a e (f ∷ fs) h k = elim (Bool-cases (comes_first now e f)) [
  | inl first ↦ rw first (h, k)
  | inr later ↦ rw later (k.0, All-insert_entry now a e fs h k.1)
]

insert_entry-IsOrdered :
    (now : ℕ) (e : QueueEntry) (es : List QueueEntry)
    → IsOrdered now es
    → IsOrdered now (insert_entry now e es)
unfolding insert_entry
insert_entry-IsOrdered now e [] h = (tt, tt)
insert_entry-IsOrdered now e (f ∷ fs) h = elim (Bool-cases (comes_first now e f)) [
  | inl first ↦ rw first ((first, All-comes_first_trans now e f fs first h.0), h)
  | inr later ↦ rw later (
    All-insert_entry now f e fs (comes_first_total now e f later) h.0,
    insert_entry-IsOrdered now e fs h.1,
  )
]

sort_entries-IsOrdered : (now : ℕ) (es : List QueueEntry) → IsOrdered now (sort_entries now es)
unfolding sort_entries
sort_entries-IsOrdered now [] = tt
sort_entries-IsOrdered now (e ∷ es) =
    insert_entry-IsOrdered now e (sort_entries now es) (sort_entries-IsOrdered now es)

All-late :
    (now : ℕ) (e : QueueEntry) (es : List QueueEntry)
    → now < e.job.run_at
    → All (λ f. comes_first now e f ≡ true) es
    → All (λ f. e.job.run_at ≤ f.job.run_at) es
unfolding comes_first
All-late now e [] h k = tt
All-late now e (f ∷ fs) h k = (ground arith, All-late now e fs h k.1)

-- What `drainReadyJobs` took is the front of the sorted queue.
drain_ready_jobs-front :
    (now : ℕ) (es : List QueueEntry) (q : MemoryQueue)
    → (started : List QueueEntry) × (es ≡ started ++ (drain_ready_jobs now es q).queue)
      × All (λ e. e.job.run_at ≤ now) started
unfolding drain_ready_jobs
drain_ready_jobs-front now [] q = ([], refl, tt)
drain_ready_jobs-front now (e ∷ es) q =
    elim (Bool-cases (ltb (length q.active_jobs) q.concurrency && leb e.job.run_at now)) [
      | inr stop ↦ rw (stop, drain_ready_jobs) ([], refl, tt)
      | inl go ↦
          let (started, split, ready) = drain_ready_jobs-front now es (begin_run now e.job q) in
          rw (go, drain_ready_jobs) (e ∷ started, ap (λ l. e ∷ l) split, (ready_of go, ready))
    ]
  where
    ready_of :
        (ltb (length q.active_jobs) q.concurrency && leb e.job.run_at now) ≡ true
        → e.job.run_at ≤ now
    ready_of go = ground arith

All-late_first :
    (now : ℕ) (e : QueueEntry) (es : List QueueEntry)
    → now < e.job.run_at
    → All (λ f. comes_first now e f ≡ true) es
    → All (λ f. now < f.job.run_at) es
unfolding comes_first
All-late_first now e [] h k = tt
All-late_first now e (f ∷ fs) h k = (ground arith, All-late_first now e fs h k.1)

-- The loop of `drainReadyJobs` ends with a full queue, or with nothing that is ready.
abbrev pub IsDrained : ℕ → MemoryQueue → Type 0
IsDrained now q = (q.concurrency ≤ length q.active_jobs) ⊎ All (λ e. now < e.job.run_at) q.queue

stopped-IsDrained :
    (now : ℕ) (e : QueueEntry) (es : List QueueEntry) (q : MemoryQueue)
    → IsOrdered now (e ∷ es)
    → (ltb (length q.active_jobs) q.concurrency && leb e.job.run_at now) ≡ false
    → (q.concurrency ≤ length q.active_jobs) ⊎ All (λ f. now < f.job.run_at) (e ∷ es)
stopped-IsDrained now e es q h s = elim (Bool-cases (ltb (length q.active_jobs) q.concurrency)) [
  | inr full ↦ inl (ground arith)
  | inl free ↦
      let late : now < e.job.run_at = ground arith in inr (late, All-late_first now e es late h.0)
]

drain_ready_jobs-IsDrained :
    (now : ℕ) (es : List QueueEntry) (q : MemoryQueue)
    → IsOrdered now es
    → IsDrained now (drain_ready_jobs now es q)
unfolding drain_ready_jobs
drain_ready_jobs-IsDrained now [] q h = inr tt
drain_ready_jobs-IsDrained now (e ∷ es) q h =
    elim (Bool-cases (ltb (length q.active_jobs) q.concurrency && leb e.job.run_at now)) [
      | inl go ↦
          rw (go, drain_ready_jobs) (drain_ready_jobs-IsDrained now es (begin_run now e.job q) h.1)
      | inr stop ↦ rw (stop, drain_ready_jobs) (stopped-IsDrained now e es q h stop)
    ]

drain_ready_jobs-IsOrdered :
    (now : ℕ) (es : List QueueEntry) (q : MemoryQueue)
    → IsOrdered now es
    → IsOrdered now (drain_ready_jobs now es q).queue
unfolding drain_ready_jobs
drain_ready_jobs-IsOrdered now [] q h = tt
drain_ready_jobs-IsOrdered now (e ∷ es) q h =
    elim (Bool-cases (ltb (length q.active_jobs) q.concurrency && leb e.job.run_at now)) [
      | inl go ↦
          rw (go, drain_ready_jobs) (drain_ready_jobs-IsOrdered now es (begin_run now e.job q) h.1)
      | inr stop ↦ rw (stop, drain_ready_jobs) h
    ]

-- The timer of the queue fires later than `now`, and no later than the entry can start.
abbrev pub IsAwaited : ℕ → MemoryQueue → QueueEntry → Type 0
IsAwaited now q e = (t : ℕ) × (q.timer ≡ some t) × (now < t) × (t ≤ e.job.run_at)

awaited :
    (now t : ℕ) (q : MemoryQueue) (es : List QueueEntry)
    → q.timer ≡ some t
    → now < t
    → All (λ f. t ≤ f.job.run_at) es
    → All (IsAwaited now q) es
awaited now t q [] h k l = tt
awaited now t q (e ∷ es) h k l = ((t, h, k, l.0), awaited now t q es h k l.1)

await_next-IsAwaited :
    (now : ℕ) (es : List QueueEntry) (q : MemoryQueue)
    → IsOrdered now es
    → All (λ f. now < f.job.run_at) es
    → All (IsAwaited now (await_next now es q)) es
unfolding await_next
await_next-IsAwaited now [] q h k = tt
await_next-IsAwaited now (e ∷ es) q h k =
    awaited now (now + (e.job.run_at - now))
      (record q { timer = some (now + (e.job.run_at - now)) }) (e ∷ es) refl (omega (arith, k.0))
      (omega (arith, k.0), later es (All-late now e es k.0 h.0))
  where
    later :
        (l : List QueueEntry)
        → All (λ f. e.job.run_at ≤ f.job.run_at) l
        → All (λ f. now + (e.job.run_at - now) ≤ f.job.run_at) l
    later [] a = tt
    later (f ∷ fs) a = (omega (arith, a.0, k.0), later fs a.1)

await_next_queue :
    (now : ℕ) (es : List QueueEntry) (q : MemoryQueue) → (await_next now es q).queue ≡ q.queue
unfolding await_next
await_next_queue now [] q = ground arith
await_next_queue now (e ∷ es) q = refl

await_next_active_jobs :
    (now : ℕ) (es : List QueueEntry) (q : MemoryQueue)
    → (await_next now es q).active_jobs ≡ q.active_jobs
unfolding await_next
await_next_active_jobs now [] q = ground arith
await_next_active_jobs now (e ∷ es) q = refl

-- Where `schedule` starts from, and what its loop leaves.
abbrev sorted : ℕ → MemoryQueue → List QueueEntry
sorted now q = sort_entries now q.queue

abbrev drained : ℕ → MemoryQueue → MemoryQueue
drained now q = drain_ready_jobs now (sorted now q) (record q { timer = none })

drained-IsDrained : (now : ℕ) (q : MemoryQueue) → IsDrained now (drained now q)
drained-IsDrained now q =
    drain_ready_jobs-IsDrained now (sorted now q) (record q { timer = none })
      (sort_entries-IsOrdered now q.queue)

schedule_eq :
    (now : ℕ) (q : MemoryQueue)
    → (q.running && q.has_processor) ≡ true
    → schedule now q ≡ (
        if leb (drained now q).concurrency (length (drained now q).active_jobs)
        then drained now q
        else await_next now (drained now q).queue (drained now q))
unfolding schedule
schedule_eq now q h = rw (h, schedule) refl

schedule-queue :
    (now : ℕ) (q : MemoryQueue)
    → (q.running && q.has_processor) ≡ true
    → (schedule now q).queue ≡ (drained now q).queue
schedule-queue now q h =
    ap (λ r. r.queue) (schedule_eq now q h)
    ∙ ground (arith, await_next_queue now (drained now q).queue (drained now q))

-- For a running queue that has a processor, `sortQueue` puts each entry before those it comes first
-- of, and `schedule` takes entries off the front of the sorted queue only, each of which is ready.
pub schedule-front :
    (now : ℕ) (q : MemoryQueue)
    → (q.running && q.has_processor) ≡ true
    → IsOrdered now (sort_entries now q.queue)
      × ((started : List QueueEntry) × (sort_entries now q.queue
            ≡ started ++ (schedule now q).queue)
          × All (λ e. e.job.run_at ≤ now) started)
schedule-front now q h =
    let (started, split, ready) =
      drain_ready_jobs-front now (sorted now q) (record q { timer = none }) in
    (
      sort_entries-IsOrdered now q.queue,
      (started, split ∙ ap (λ l. started ++ l) (sym (schedule-queue now q h)), ready),
    )

abbrev pub IsServed : ℕ → MemoryQueue → Type 0
IsServed now q = (q.concurrency ≤ length q.active_jobs) ⊎ All (IsAwaited now q) q.queue

await_next-IsServed :
    (now : ℕ) (q : MemoryQueue)
    → IsOrdered now q.queue
    → IsDrained now q
    → leb q.concurrency (length q.active_jobs) ≡ false
    → IsServed now (await_next now q.queue q)
await_next-IsServed now q h (inl full) free = ground arith
await_next-IsServed now q h (inr late) free =
    let q' = await_next now q.queue q in
    inr (
      subst (λ l. All (IsAwaited now q') l) (sym (await_next_queue now q.queue q))
        (await_next-IsAwaited now q.queue q h late))

-- After `schedule`, a running queue that has a processor runs as many jobs as it may, or every entry
-- that waits is for a later time and the timer is set to fire after now and by that time.
pub schedule-IsServed :
    (now : ℕ) (q : MemoryQueue)
    → (q.running && q.has_processor) ≡ true
    → IsServed now (schedule now q)
schedule-IsServed now q h =
    let d = drained now q in
    subst (IsServed now) (sym (schedule_eq now q h))
      (elim (Bool-cases (leb d.concurrency (length d.active_jobs))) [
        | inl full ↦ rw full (inl (leb_at full))
        | inr free ↦ rw free (
            await_next-IsServed now d
              (drain_ready_jobs-IsOrdered now (sorted now q) (record q { timer = none })
                (sort_entries-IsOrdered now q.queue))
              (drained-IsDrained now q) free)
      ])
  where
    leb_at :
        leb (drained now q).concurrency (length (drained now q).active_jobs) ≡ true
        → (drained now q).concurrency ≤ length (drained now q).active_jobs
    leb_at full = ground arith
