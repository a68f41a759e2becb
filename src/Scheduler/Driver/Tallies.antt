-- ===== src/Scheduler/Driver/Tallies.antt =====
-- drivers/memory.ts: the driver begins and ends no run by itself.
use extra.Prelude.{
  ℕ, ◌≡◌, refl, ◌∙◌, inl, inr, Option, none, some, List, [], ◌∷◌, Bool-cases, Option-cases, lookup,
  arith,
}
use extra.Scheduler.Task.{
  ScheduledTaskDefinition, SchedulerEvent, resumed_job, stopped_job, Host, say,
}
use extra.Scheduler.Task.Counts.{tally}
use extra.Scheduler.Driver.{
  MemorySchedulerDriver, for_each_job, run_immediately_soon, activate_ids, activate, launch,
  call_job, close,
}

module _ (h : ℕ) where
  pub for_each_job-tally :
      (call : ℕ → SchedulerEvent) (jobs : List (ℕ × ℕ)) (w : Host)
      → ((k : ℕ) (v : Host) → tally h (say (call k) v) ≡ tally h v)
      → tally h (for_each_job call jobs w) ≡ tally h w
  unfolding for_each_job
  for_each_job-tally call [] w q = refl
  for_each_job-tally call ((id, k) ∷ jobs) w q = for_each_job-tally call jobs _ q ∙ q k w

  pub activate_ids-tally :
      (ids : List ℕ) (d : MemorySchedulerDriver)
      → tally h (activate_ids ids d).host ≡ tally h d.host
  unfolding activate_ids run_immediately_soon
  activate_ids-tally [] d = refl
  activate_ids-tally (i ∷ ids) d = elim (Option-cases (lookup i d.tasks)) [
    | inl e ↦ rw (e, activate_ids) (activate_ids-tally ids d)
    | inr (k, e) ↦ elim (Option-cases (lookup i d.jobs)) [
      | inl f ↦ rw (e, f, activate_ids) (activate_ids-tally ids d)
      | inr (j, f) ↦ rw (e, f, activate_ids) (activate_ids-tally ids _)
    ]
  ]

  pub activate-tally : (d : MemorySchedulerDriver) → tally h (activate d).host ≡ tally h d.host
  unfolding activate
  activate-tally d =
      activate_ids-tally d.immediate_task_ids _
      ∙ for_each_job-tally resumed_job d.jobs d.host (λ k v. refl)

  pub close-tally : (d : MemorySchedulerDriver) → tally h (close d).host ≡ tally h d.host
  unfolding close
  close-tally d = for_each_job-tally stopped_job d.jobs d.host (λ k v. refl)

  pub launch-tally :
      (def : ScheduledTaskDefinition) (k : ℕ) (d : MemorySchedulerDriver)
      → tally h (launch def k d).host ≡ tally h d.host
  unfolding launch
  launch-tally def k d = elim (Bool-cases d.ready) [
    | inl ready ↦ ground arith
    | inr waits ↦ ground arith
  ]

  pub call_job-tally :
      (call : ℕ → SchedulerEvent) (id : ℕ) (d : MemorySchedulerDriver)
      → ((k : ℕ) (v : Host) → tally h (say (call k) v) ≡ tally h v)
      → tally h (call_job call id d).host ≡ tally h d.host
  unfolding call_job
  call_job-tally call id d q = go (lookup id d.jobs) refl
    where
      go :
          (o : Option ℕ) → lookup id d.jobs ≡ o → tally h (call_job call id d).host ≡ tally h d.host
      go none e = rw (e, call_job) refl
      go (some k) e = rw (e, call_job) (q k d.host)
