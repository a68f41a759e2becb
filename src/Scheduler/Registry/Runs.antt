-- ===== src/Scheduler/Registry/Runs.antt =====
-- manager.ts and drivers/memory.ts: every operation keeps the count of a task's runs.
use extra.Prelude.{
  ℕ, ◌≡◌, refl, sym, ap, subst, ◌∙◌, Bool, true, false, inl, inr, ◌⊎◌, Option, none, some, List, [],
  ◌∷◌, ◌==◌, Bool-cases, Option-cases, lookup,
}
use extra.Scheduler.Task.{
  ScheduledTaskDefinition, resumed_job, paused_job, stopped_job, EventName, on_scheduled,
  on_skipped, on_resumed, on_paused, on_removed, TaskStatus, Host, scheduled_task, set_status,
}
use extra.Scheduler.Task.Counts.{
  tally, is_start, is_end, say-tally, IsTallied, set_status-tally, new_object-IsTallied,
  start_run-IsTallied, end_run-IsTallied,
}
use extra.Scheduler.Driver.{MemorySchedulerDriver, schedule, start, pause, remove, run_queued}
use extra.Scheduler.Registry.{
  Continuation, to_resume, to_pause, to_remove, continue, continue_next, continues,
  SchedulerRegistry, SchedulerError, ScheduledTaskOptions, ScheduleInput, invalid_duration, Answer,
  define, or_cron, add_interval, add_cron, add, require_task, resume, pause_task, remove_task,
  remove_orphan, mark, RegistryAction, adds, intervals, crons, resumes, pauses, removes,
  removes_orphan, closes, activates, runs_queued, triggers, overlaps, settles, step,
}
use extra.Scheduler.Driver.Tallies.{activate-tally, close-tally, launch-tally, call_job-tally}

module _ (h : ℕ) where
  -- The tally of a registry's host.
  abbrev IsCounted : SchedulerRegistry → Type 0
  IsCounted r = IsTallied h (tally h r.driver.host)

  same-IsCounted :
      (r r' : SchedulerRegistry)
      → tally h r'.driver.host ≡ tally h r.driver.host
      → IsCounted r
      → IsCounted r'
  same-IsCounted r r' e c = subst (IsTallied h) (sym e) c

  schedule-IsTallied :
      (now : ℕ) (def : ScheduledTaskDefinition) (d : MemorySchedulerDriver)
      → IsTallied h (tally h d.host)
      → IsTallied h (tally h (schedule now def d).0.host)
  unfolding schedule
  schedule-IsTallied now def d c =
      subst (IsTallied h) (sym (launch-tally h def d.host.next_handle _))
        (new_object-IsTallied h (scheduled_task now def) d.host refl c)

  module _ (accepts : ScheduledTaskDefinition → Bool) where
    define-IsCounted :
        (now : ℕ) (def : ScheduledTaskDefinition) (r : SchedulerRegistry)
        → IsCounted r
        → IsCounted (define accepts now def r).0
    unfolding define
    define-IsCounted now def r c = elim (Option-cases (lookup def.id r.tasks)) [
      | inr (k, e) ↦ rw (e, define) c
      | inl e ↦ elim (Bool-cases (accepts def)) [
        | inr refused ↦ rw (e, refused, define) c
        | inl taken ↦
            rw (e, taken, define)
              (subst (IsTallied h)
                (sym (
                  say-tally on_scheduled h (schedule now def r.driver).1
                    (schedule now def r.driver).0.host refl refl))
                (schedule-IsTallied now def r.driver c))
      ]
    ]

    add_interval-IsCounted :
        (now i : ℕ) (every : Option ℕ) (o : ScheduledTaskOptions) (r : SchedulerRegistry)
        → IsCounted r
        → IsCounted (add_interval accepts now i every o r).0
    unfolding add_interval
    add_interval-IsCounted now i none o r c = c
    add_interval-IsCounted now i (some ms) o r c = elim (Bool-cases (ms == 0)) [
      | inl zero_ms ↦ rw (zero_ms, add_interval) c
      | inr positive ↦ rw (positive, add_interval) (define-IsCounted now _ r c)
    ]

    add_cron-IsCounted :
        (now i : ℕ) (expression : Option ℕ) (o : ScheduledTaskOptions) (r : SchedulerRegistry)
        → IsCounted r
        → IsCounted (add_cron accepts now i expression o r).0
    unfolding add_cron
    add_cron-IsCounted now i none o r c = c
    add_cron-IsCounted now i (some e) o r c = define-IsCounted now _ r c

    or_cron-IsCounted :
        (a b : Answer) (s : ScheduleInput)
        → IsCounted a.0
        → IsCounted b.0
        → IsCounted (or_cron accepts a b s).0
    or_cron-IsCounted (a, inr x) b s p q = p
    or_cron-IsCounted (a, inl invalid_duration) (b, answer) s p q = go answer (Bool-cases s.is_text)
      where
        go :
            (answer : SchedulerError ⊎ ℕ)
            → (s.is_text ≡ true) ⊎ (s.is_text ≡ false)
            → IsCounted (or_cron accepts (a, inl invalid_duration) (b, answer) s).0
        go answer (inr number) = rw (number, or_cron) p
        go (inl e) (inl text) = rw (text, or_cron) q
        go (inr x) (inl text) = rw (text, or_cron) q
    or_cron-IsCounted (a, inl e) b s p q = p

  with_task :
      (id : ℕ) (r : SchedulerRegistry) (f : SchedulerRegistry → Answer)
      → ((e : SchedulerError) → require_task id r ≡ inl e → (f r).0 ≡ r)
      → ((k : ℕ) → require_task id r ≡ inr k → tally h (f r).0.driver.host ≡ tally h r.driver.host)
      → tally h (f r).0.driver.host ≡ tally h r.driver.host
  with_task id r f fails works = go (require_task id r) refl
    where
      go :
          (o : SchedulerError ⊎ ℕ)
          → require_task id r ≡ o
          → tally h (f r).0.driver.host ≡ tally h r.driver.host
      go (inl e) p = ap (λ r'. tally h r'.driver.host) (fails e p)
      go (inr k) p = works k p

  mark-tally :
      (s : TaskStatus) (e : EventName) (k : ℕ) (d : MemorySchedulerDriver)
      → is_start e ≡ 0
      → is_end e ≡ 0
      → tally h (mark s e k d).host ≡ tally h d.host
  mark-tally s e k d p q =
      say-tally e h k (set_status s k d.host) p q ∙ set_status-tally s h k d.host

  resume-tally :
      (id : ℕ) (r : SchedulerRegistry) → tally h (resume id r).0.driver.host ≡ tally h r.driver.host
  unfolding resume start
  resume-tally id r =
      with_task id r (resume id) (λ e p. rw (p, resume) refl)
        (λ k p. rw (p, resume) (call_job-tally h resumed_job id r.driver (λ k v. refl)))

  pause_task-tally :
      (id : ℕ) (r : SchedulerRegistry)
      → tally h (pause_task id r).0.driver.host ≡ tally h r.driver.host
  unfolding pause_task pause
  pause_task-tally id r =
      with_task id r (pause_task id) (λ e p. rw (p, pause_task) refl)
        (λ k p. rw (p, pause_task) (call_job-tally h paused_job id r.driver (λ k v. refl)))

  continue_next-tally :
      (cs : List Continuation) (r : SchedulerRegistry)
      → tally h (continue_next cs r).driver.host ≡ tally h r.driver.host
  unfolding continue_next continue
  continue_next-tally [] r = refl
  continue_next-tally (to_resume k ∷ cs) r = mark-tally _ on_resumed k r.driver refl refl
  continue_next-tally (to_pause k ∷ cs) r = mark-tally _ on_paused k r.driver refl refl
  continue_next-tally (to_remove i k ∷ cs) r = mark-tally _ on_removed k r.driver refl refl

  remove-tally : (id : ℕ) (d : MemorySchedulerDriver) → tally h (remove id d).host ≡ tally h d.host
  unfolding remove
  remove-tally id d = call_job-tally h stopped_job id d (λ k v. refl)

  remove_task-tally :
      (id : ℕ) (r : SchedulerRegistry)
      → tally h (remove_task id r).0.driver.host ≡ tally h r.driver.host
  unfolding remove_task
  remove_task-tally id r =
      with_task id r (remove_task id) (λ e p. rw (p, remove_task) refl)
        (λ k p. rw (p, remove_task) (remove-tally id r.driver))

  remove_orphan-tally :
      (id : ℕ) (r : SchedulerRegistry)
      → tally h (remove_orphan id r).0.driver.host ≡ tally h r.driver.host
  unfolding remove_orphan
  remove_orphan-tally id r = elim (Option-cases (lookup id r.tasks)) [
    | inr (k, e) ↦ rw (e, remove_orphan) refl
    | inl e ↦ rw (e, remove_orphan) (remove-tally id r.driver)
  ]

  run_queued-IsTallied :
      (now : ℕ) (w : Host) → IsTallied h (tally h w) → IsTallied h (tally h (run_queued now w))
  unfolding run_queued
  run_queued-IsTallied now w c = go w.queued refl
    where
      go : (q : List ℕ) → w.queued ≡ q → IsTallied h (tally h (run_queued now w))
      go [] e = rw (e, run_queued) c
      go (k ∷ ks) e = rw (e, run_queued) (start_run-IsTallied h now k (record w { queued = ks }) c)

  -- Whatever happens, for every task: if its `runCount` is the number of its `started` events, and
  -- each of these has a `completed` or `failed` event or a run in progress, so it is afterwards, and
  -- a new task starts from none.
  pub step-IsCounted :
      (accepts : ScheduledTaskDefinition → Bool) (now : ℕ) (a : RegistryAction)
      (r : SchedulerRegistry)
      → IsTallied h (tally h r.driver.host)
      → IsTallied h (tally h (step accepts now a r).driver.host)
  unfolding step
  step-IsCounted accepts now (adds i s o) r c =
      unfold add in
      or_cron-IsCounted accepts _ _ s (add_interval-IsCounted accepts now i s.duration o r c)
        (add_cron-IsCounted accepts now i s.expression o r c)
  step-IsCounted accepts now (intervals i e o) r c = add_interval-IsCounted accepts now i e o r c
  step-IsCounted accepts now (crons i e o) r c = add_cron-IsCounted accepts now i e o r c
  step-IsCounted accepts now (resumes i) r c = same-IsCounted r (resume i r).0 (resume-tally i r) c
  step-IsCounted accepts now (pauses i) r c =
      same-IsCounted r (pause_task i r).0 (pause_task-tally i r) c
  step-IsCounted accepts now (removes i) r c =
      same-IsCounted r (remove_task i r).0 (remove_task-tally i r) c
  step-IsCounted accepts now (removes_orphan i) r c =
      same-IsCounted r (remove_orphan i r).0 (remove_orphan-tally i r) c
  step-IsCounted accepts now closes r c =
      same-IsCounted r (step accepts now closes r) (close-tally h r.driver) c
  step-IsCounted accepts now activates r c =
      same-IsCounted r (step accepts now activates r) (activate-tally h r.driver) c
  step-IsCounted accepts now runs_queued r c = run_queued-IsTallied now r.driver.host c
  step-IsCounted accepts now continues r c =
      same-IsCounted r (step accepts now continues r) (continue_next-tally r.waiting r) c
  step-IsCounted accepts now (triggers k) r c = start_run-IsTallied h now k r.driver.host c
  step-IsCounted accepts now (overlaps k) r c =
      same-IsCounted r (step accepts now (overlaps k) r)
        (say-tally on_skipped h k r.driver.host refl refl) c
  step-IsCounted accepts now (settles k o next) r c = end_run-IsTallied h k o next r.driver.host c
