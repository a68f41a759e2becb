-- ===== src/Scheduler/Task/Counts.antt =====
-- task.ts: how often a task has started, ended, and been counted.
use extra.Prelude.{
  ℕ, ◌+◌, ◌≤◌, ◌<◌, ◌≡◌, refl, inl, inr, Option, none, some, List, [], ◌∷◌, ltb, ◌==◌,
  if◌then◌else◌, Bool-cases, lookup, insert, lookup-insert, occurrences, remove_first,
  occurrences-remove_first, arith,
}
use extra.Scheduler.Task.{
  TaskStatus, ScheduledTask, EventName, on_started, on_completed, on_failed, SchedulerEvent,
  emitted, Host, say, new_object, set_status, begun, start_run, RunOutcome, returned, threw, ended,
  end_event, end_run,
}

abbrev pub is_start : EventName → ℕ
is_start on_started = 1
is_start _ = 0

abbrev pub is_end : EventName → ℕ
is_end on_completed = 1
is_end on_failed = 1
is_end _ = 0

-- The events of a kind that a log has for a task.
abbrev pub starts : ℕ → List SchedulerEvent → ℕ
starts h [] = 0
starts h (emitted e k ∷ l) = (if k == h then is_start e else 0) + starts h l
starts h (_ ∷ l) = starts h l

abbrev pub ends : ℕ → List SchedulerEvent → ℕ
ends h [] = 0
ends h (emitted e k ∷ l) = (if k == h then is_end e else 0) + ends h l
ends h (_ ∷ l) = ends h l

abbrev count_of : Option ScheduledTask → Option ℕ
count_of none = none
count_of (some t) = some t.run_count

abbrev or_zero : Option ℕ → ℕ
or_zero none = 0
or_zero (some n) = n

-- The `runCount` of an object, its starts and ends, its runs in progress, and the next handle.
pub record Tally : Type 0 where
  pub run_count : Option ℕ
  pub started : ℕ
  pub finished : ℕ
  pub going : ℕ
  pub next : ℕ

abbrev pub tally : ℕ → Host → Tally
tally h w = record {
  run_count = count_of (lookup h w.objects);
  started = starts h w.out;
  finished = ends h w.out;
  going = occurrences h w.in_progress;
  next = w.next_handle;
}

-- `runCount` is the number of starts, each start has ended or is in progress, and handles to come
-- have no object.
abbrev pub IsTallied : ℕ → Tally → Type 0
IsTallied h t =
    (or_zero t.run_count ≡ t.started)
    × (t.started ≡ t.finished + t.going)
    × (t.next ≤ h → t.run_count ≡ none)

pub say-tally :
    (e : EventName) (h k : ℕ) (w : Host)
    → is_start e ≡ 0
    → is_end e ≡ 0
    → tally h (say (emitted e k) w) ≡ tally h w
say-tally e h k w p q = ground (arith, p, q)

pub set_status-tally :
    (s : TaskStatus) (h k : ℕ) (w : Host) → tally h (set_status s k w) ≡ tally h w
unfolding set_status
set_status-tally s h k w = go (lookup k w.objects) refl
  where
    go :
        (o : Option ScheduledTask) → lookup k w.objects ≡ o → tally h (set_status s k w) ≡ tally h w
    go none e = rw (e, set_status) refl
    go (some t) e = ground (arith, lookup-insert h k (record t { status = s }) w.objects)

pub new_object-IsTallied :
    (h : ℕ) (t : ScheduledTask) (w : Host)
    → t.run_count ≡ 0
    → IsTallied h (tally h w)
    → IsTallied h (tally h (new_object t w))
unfolding new_object
new_object-IsTallied h t w z c = ground (arith, lookup-insert h w.next_handle t w.objects)

pub start_run-IsTallied :
    (h now k : ℕ) (w : Host) → IsTallied h (tally h w) → IsTallied h (tally h (start_run now k w))
unfolding start_run occurrences
start_run-IsTallied h now k w c = go (lookup k w.objects) refl
  where
    go :
        (o : Option ScheduledTask)
        → lookup k w.objects ≡ o
        → IsTallied h (tally h (start_run now k w))
    go none e = rw (e, start_run) c
    go (some t) e =
        rw (e, start_run) (ground (arith, c, e, lookup-insert h k (begun now t) w.objects))

pub end_run-IsTallied :
    (h k : ℕ) (o : RunOutcome) (next : Option ℕ) (w : Host)
    → IsTallied h (tally h w)
    → IsTallied h (tally h (end_run k o next w))
unfolding end_run
end_run-IsTallied h k o next w c = go (lookup k w.objects) refl
  where
    over :
        (t : ScheduledTask) (o : RunOutcome)
        → lookup k w.objects ≡ some t
        → 0 < occurrences k w.in_progress
        → IsTallied h (
            tally h (record w {
              objects = insert k (ended o next t) w.objects;
              in_progress = remove_first k w.in_progress;
              out = emitted (end_event o) k ∷ w.out;
            }))
    over t (returned r) e p = ground (
      arith,
      c,
      e,
      lookup-insert h k (ended (returned r) next t) w.objects,
      occurrences-remove_first h k w.in_progress p,
    )
    over t (threw x) e p = ground (
      arith,
      c,
      e,
      lookup-insert h k (ended (threw x) next t) w.objects,
      occurrences-remove_first h k w.in_progress p,
    )

    go :
        (s : Option ScheduledTask)
        → lookup k w.objects ≡ s
        → IsTallied h (tally h (end_run k o next w))
    go none e = rw (e, end_run) c
    go (some t) e = elim (Bool-cases (ltb 0 (occurrences k w.in_progress))) [
      | inl going ↦ rw (e, going, end_run) (over t o e (ground arith))
      | inr idle ↦ rw (e, idle, end_run) c
    ]
