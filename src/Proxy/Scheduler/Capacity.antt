-- ===== src/Proxy/Scheduler/Capacity.antt =====
-- scheduler.ts: the scheduler never admits more than `maxAdmittedRequests`.
use extra.Prelude.{
  ℕ, suc, ◌+◌, ◌≤◌, ◌≡◌, Bool, true, false, Option, none, some, List, [], ◌∷◌, ◌++◌, length,
  length-append, arith,
}
use extra.Proxy.Scheduler.{
  notified, PendingEntry, RequestScheduler, emit, admitted_count, put_in_flight, dispatch, Verdict,
  abort, quarantine, skip, open_gate, blocked, Scan, scan, settle_round, round, pump, schedule_pump,
  invalid_budget_blocked, reserve, delete, release_reservation, has,
}
use extra.Proxy.Scheduler.Induction.{At, GoesOn, advance, scan_inv, pump_loop_inv}
use extra.Proxy.Scheduler.Operations.{
  enqueue, submit_reserved, start_draining, fire_gate_timer, on_timeout, on_abort, finish,
  record_invalid, quarantine_context, reject_pending_for_drain, reject_context, reject_all,
  remove_pending, step, Action, reserves, releases, timeouts, aborts, finishes, quarantines,
  submits, fires, invalid, drains, gives_up,
}

-- What a scan leaves alone.
pub record Frame (s s' : RequestScheduler) : Type 0 where
  pub same_reservations : s'.reservations ≡ s.reservations
  pub same_in_flight : s'.in_flight ≡ s.in_flight
  pub same_quarantined : s'.quarantined ≡ s.quarantined
  pub same_max : s'.max_admitted ≡ s.max_admitted

abbrev chosen_length : Option (PendingEntry × List PendingEntry) → ℕ
chosen_length none = 0
chosen_length (some (e, rest)) = suc (length rest)

record Fits (s : RequestScheduler) (a : At) : Type 0 where
  frame : Frame s a.sched
  size : length a.before + length a.rest ≤ length s.pending

record Scanned (s : RequestScheduler) (r : Scan) : Type 0 where
  frame : Frame s r.sched
  size : length r.before + chosen_length r.chosen ≤ length s.pending

advance-Fits :
    (s : RequestScheduler) (a : At) (e : PendingEntry) (rest : List PendingEntry) (v : Verdict)
    → Fits s (record a { rest = e ∷ rest })
    → GoesOn v
    → Fits s (advance a e rest v)
advance-Fits s a e rest abort f g = ground arith
advance-Fits s a e rest quarantine f g = ground arith
advance-Fits s a e rest skip f g = ground (arith, length-append a.before (e ∷ []))
advance-Fits s a e rest (open_gate x) f g = absurd g
advance-Fits s a e rest (blocked x d) f g = ground (arith, length-append a.before (e ∷ []))

put_in_flight-length :
    (e : PendingEntry) (es : List PendingEntry) → length (put_in_flight e es) ≤ length es + 1
unfolding put_in_flight
put_in_flight-length e [] = omega arith
put_in_flight-length e (f ∷ fs) = ground (arith, put_in_flight-length e fs)

-- The number of admitted requests is within the limit.
abbrev pub IsWithin : RequestScheduler → Type 0
IsWithin s = admitted_count s ≤ s.max_admitted

schedule_pump-IsWithin :
    (now d : ℕ) (n : Bool) (s : RequestScheduler) → IsWithin s → IsWithin (schedule_pump now d n s)
unfolding schedule_pump
schedule_pump-IsWithin now d n s h = ground arith

module _ (aborted : ℕ → Bool) (now : ℕ) where
  scan-Scanned : (s : RequestScheduler) → Scanned s (scan aborted now [] [] none s.pending s)
  scan-Scanned s =
      scan_inv aborted now (Fits s) (Scanned s) (λ a e rest f g. advance-Fits s a e rest _ f g)
        (λ a f. ground arith) (λ a e rest g f j. ground arith) [] [] none s.pending s (ground arith)

  settle_round-IsWithin :
      (s t : RequestScheduler) (before : List PendingEntry)
      (chosen : Option (PendingEntry × List PendingEntry)) (next : Option ℕ)
      → Frame s t
      → length before + chosen_length chosen ≤ length s.pending
      → IsWithin s
      → IsWithin (settle_round aborted now t before chosen next).0
  unfolding settle_round dispatch schedule_pump
  settle_round-IsWithin s t before none none f l h = ground arith
  settle_round-IsWithin s t before none (some d) f l h = ground arith
  settle_round-IsWithin s t before (some (e, rest)) next f l h =
      ground (arith, length-append before rest, put_in_flight-length e t.in_flight)

  round-IsWithin : (s : RequestScheduler) → IsWithin s → IsWithin (round aborted now s).0
  unfolding round
  round-IsWithin s = let r = scan-Scanned s in settle_round-IsWithin s _ _ _ _ r.frame r.size

  pump-IsWithin : (s : RequestScheduler) → IsWithin s → IsWithin (pump aborted now s)
  unfolding pump invalid_budget_blocked
  pump-IsWithin s h = ground (
    arith,
    schedule_pump-IsWithin now (invalid_budget_blocked s now).1 true
        (invalid_budget_blocked s now).0,
    pump_loop_inv aborted now IsWithin round-IsWithin (length s.pending)
        (invalid_budget_blocked s now).0,
  )

delete-length : (k : ℕ) (ks : List ℕ) → has ks k ≡ true → suc (length (delete k ks)) ≤ length ks
unfolding delete
delete-length k [] h = cc
delete-length k (j ∷ js) h = ground (arith, delete-length k js)

delete-length-le : (k : ℕ) (ks : List ℕ) → length (delete k ks) ≤ length ks
unfolding delete
delete-length-le k [] = omega arith
delete-length-le k (j ∷ js) = ground (arith, delete-length-le k js)

remove_pending-length-le :
    (k : ℕ) (es : List PendingEntry) → length (remove_pending k es) ≤ length es
unfolding remove_pending
remove_pending-length-le k [] = omega arith
remove_pending-length-le k (e ∷ es) = ground (arith, remove_pending-length-le k es)

reserve-IsWithin : (s : RequestScheduler) (now : ℕ) → IsWithin s → IsWithin (reserve s now).0
unfolding reserve invalid_budget_blocked
reserve-IsWithin s now h = ground arith

record_invalid-IsWithin :
    (now : ℕ) (s : RequestScheduler) → IsWithin s → IsWithin (record_invalid now s)
unfolding record_invalid invalid_budget_blocked schedule_pump
record_invalid-IsWithin now s h = ground arith

reject_context-IsWithin :
    (key : ℕ) (es : List PendingEntry) (s : RequestScheduler)
    → IsWithin s
    → IsWithin (reject_context key es s)
unfolding reject_context
reject_context-IsWithin key [] s h = h
reject_context-IsWithin key (e ∷ es) s h =
    reject_context-IsWithin key es _
      (ground (arith, remove_pending-length-le e.operation_id s.pending))

reject_all-IsWithin :
    (es : List PendingEntry) (s : RequestScheduler) → IsWithin s → IsWithin (reject_all es s)
unfolding reject_all
reject_all-IsWithin [] s h = h
reject_all-IsWithin (e ∷ es) s h = reject_all-IsWithin es _ h

module _ (aborted : ℕ → Bool) (now : ℕ) where
  submit_reserved-IsWithin :
      (e : PendingEntry) (s : RequestScheduler)
      → IsWithin s
      → IsWithin (submit_reserved aborted now e s)
  unfolding submit_reserved enqueue
  submit_reserved-IsWithin e s h = ground (
    arith,
    delete-length e.operation_id s.reservations,
    length-append s.pending (e ∷ []),
    pump-IsWithin aborted now (record s {
      reservations = delete e.operation_id s.reservations;
      pending = s.pending ++ e ∷ [];
    }),
  )

  fire_gate_timer-IsWithin :
      (s : RequestScheduler) → IsWithin s → IsWithin (fire_gate_timer aborted now s)
  unfolding fire_gate_timer invalid_budget_blocked
  fire_gate_timer-IsWithin s h =
      ground (
        arith,
        pump-IsWithin aborted now (record s { notify_recovery = false; gate_timer = none }) h,
      )

  -- No call, timer, signal or end of a request takes the scheduler over its admission limit.
  pub step-IsWithin :
      (a : Action) (s : RequestScheduler) → IsWithin s → IsWithin (step aborted now a s)
  unfolding step
  step-IsWithin reserves s h = reserve-IsWithin s now h
  step-IsWithin (releases id) s h =
      unfold release_reservation in omega (arith, delete-length-le id s.reservations)
  step-IsWithin (timeouts id) s h =
      unfold on_timeout in ground (arith, remove_pending-length-le id s.pending)
  step-IsWithin (aborts id) s h =
      unfold on_abort in ground (arith, remove_pending-length-le id s.pending)
  step-IsWithin (finishes id) s h =
      unfold finish in ground (arith, remove_pending-length-le id s.in_flight)
  step-IsWithin (quarantines key) s h =
      unfold quarantine_context in
      ground (
        arith,
        reject_context-IsWithin key s.pending (record s { quarantined = key ∷ s.quarantined }) h,
      )
  step-IsWithin (submits e) s h = submit_reserved-IsWithin e s h
  step-IsWithin fires s h = fire_gate_timer-IsWithin s h
  step-IsWithin invalid s h = record_invalid-IsWithin now s h
  step-IsWithin drains s h =
      unfold start_draining in
      ground (arith, pump-IsWithin aborted now (emit notified (record s { accepting = false })) h)
  step-IsWithin gives_up s h =
      unfold reject_pending_for_drain in
      reject_all-IsWithin s.pending (record s { pending = [] }) (omega arith)
