-- ===== src/Proxy/Scheduler/Settle.antt =====
-- scheduler.ts: the promise of each submitted request is settled once.
use extra.Prelude.{
  ℕ, ◌+◌, ◌≡◌, refl, ◌∙◌, Bool, true, false, Option, none, some, length, List, [], ◌∷◌, ◌++◌, ◌==◌,
  arith,
}
use extra.Proxy.Scheduler.{
  draining, Event, rejected, disconnected, dispatched, notified, PendingEntry, RequestScheduler,
  emit, dispatch, Verdict, abort, quarantine, skip, open_gate, blocked, Scan, scan, settle_round,
  round, pump, schedule_pump, invalid_budget_blocked, reserve, delete, release_reservation,
}
use extra.Proxy.Scheduler.Induction.{At, GoesOn, advance, scan_inv, pump_loop_inv}
use extra.Proxy.Scheduler.Operations.{
  enqueue, submit_reserved, start_draining, fire_gate_timer, on_timeout, on_abort, finish,
  record_invalid, quarantine_context, reject_pending_for_drain, reject_context, reject_all,
  remove_pending, is_pending, step, Action, reserves, releases, timeouts, aborts, finishes,
  quarantines, submits, fires, invalid, drains, gives_up,
}

abbrev pub one_if : Bool → ℕ
one_if true = 1
one_if false = 0

-- How often operation `id` waits, and how often it was handed to `run` or rejected.
abbrev pub waits : ℕ → List PendingEntry → ℕ
waits id [] = 0
waits id (e ∷ es) = one_if (e.operation_id == id) + waits id es

abbrev pub answers : ℕ → List Event → ℕ
answers id [] = 0
answers id (rejected i c ∷ es) = one_if (i == id) + answers id es
answers id (disconnected i ∷ es) = one_if (i == id) + answers id es
answers id (dispatched i k t ∷ es) = one_if (i == id) + answers id es
answers id (notified ∷ es) = answers id es

abbrev pub accounted : ℕ → RequestScheduler → ℕ
accounted id s = answers id s.out + waits id s.pending

waits-append :
    (id : ℕ) (xs ys : List PendingEntry) → waits id (xs ++ ys) ≡ waits id xs + waits id ys
waits-append id [] ys = omega arith
waits-append id (x ∷ xs) ys = omega (arith, waits-append id xs ys)

waits-remove_pending :
    (id k : ℕ) (es : List PendingEntry)
    → is_pending k es ≡ true
    → waits id (remove_pending k es) + one_if (k == id) ≡ waits id es
unfolding remove_pending
waits-remove_pending id k [] h = cc
waits-remove_pending id k (e ∷ es) h = ground (arith, waits-remove_pending id k es)

abbrev chosen_waits : ℕ → Option (PendingEntry × List PendingEntry) → ℕ
chosen_waits id none = 0
chosen_waits id (some (e, rest)) = one_if (e.operation_id == id) + waits id rest

module _ (aborted : ℕ → Bool) (now id n : ℕ) where
  abbrev Counts : At → Type 0
  Counts a = answers id a.sched.out + waits id a.before + waits id a.rest ≡ n

  abbrev ScanCounts : Scan → Type 0
  ScanCounts r = answers id r.sched.out + waits id r.before + chosen_waits id r.chosen ≡ n

  advance-Counts :
      (a : At) (e : PendingEntry) (rest : List PendingEntry) (v : Verdict)
      → Counts (record a { rest = e ∷ rest })
      → GoesOn v
      → Counts (advance a e rest v)
  advance-Counts a e rest abort c g = omega arith
  advance-Counts a e rest quarantine c g = omega arith
  advance-Counts a e rest skip c g = omega (arith, waits-append id a.before (e ∷ []))
  advance-Counts a e rest (open_gate x) c g = absurd g
  advance-Counts a e rest (blocked x d) c g = omega (arith, waits-append id a.before (e ∷ []))

  scan-ScanCounts :
      (s : RequestScheduler)
      → accounted id s ≡ n
      → ScanCounts (scan aborted now [] [] none s.pending s)
  scan-ScanCounts s h =
      scan_inv aborted now Counts ScanCounts (λ a e rest c g. advance-Counts a e rest _ c g)
        (λ a c. omega arith) (λ a e rest g c j. omega arith) [] [] none s.pending s (omega arith)

  settle_round-accounted :
      (t : RequestScheduler) (before : List PendingEntry)
      (chosen : Option (PendingEntry × List PendingEntry)) (next : Option ℕ)
      → answers id t.out + waits id before + chosen_waits id chosen ≡ n
      → accounted id (settle_round aborted now t before chosen next).0 ≡ n
  unfolding settle_round dispatch schedule_pump
  settle_round-accounted t before none none h = omega arith
  settle_round-accounted t before none (some d) h = ground arith
  settle_round-accounted t before (some (e, rest)) next h =
      omega (arith, waits-append id before rest)

  round-accounted :
      (s : RequestScheduler) → accounted id s ≡ n → accounted id (round aborted now s).0 ≡ n
  unfolding round
  round-accounted s h =
      let r = scan aborted now [] [] none s.pending s in
      settle_round-accounted r.sched r.before r.chosen r.next_delay (scan-ScanCounts s h)

  pump-accounted :
      (s : RequestScheduler) → accounted id s ≡ n → accounted id (pump aborted now s) ≡ n
  unfolding pump invalid_budget_blocked schedule_pump
  pump-accounted s h = ground (
    arith,
    pump_loop_inv aborted now (λ u. accounted id u ≡ n) round-accounted (length s.pending)
        (invalid_budget_blocked s now).0,
  )

-- The loop of `quarantineContext` answers what it takes out.
reject_context-accounted :
    (id key : ℕ) (es : List PendingEntry) (s : RequestScheduler)
    → accounted id (reject_context key es s) ≡ accounted id s
unfolding reject_context
reject_context-accounted id key [] s = refl
reject_context-accounted id key (e ∷ es) s =
    reject_context-accounted id key es _
    ∙ ground (arith, waits-remove_pending id e.operation_id s.pending)

reject_all-accounted :
    (id : ℕ) (es : List PendingEntry) (s : RequestScheduler)
    → accounted id (reject_all es s) ≡ accounted id s + waits id es
unfolding reject_all
reject_all-accounted id [] s = omega arith
reject_all-accounted id (e ∷ es) s =
    omega (arith, reject_all-accounted id es (emit (rejected e.operation_id draining) s))

reserve-accounted :
    (id now : ℕ) (s : RequestScheduler) → accounted id (reserve s now).0 ≡ accounted id s
unfolding reserve invalid_budget_blocked
reserve-accounted id now s = ground arith

record_invalid-accounted :
    (id now : ℕ) (s : RequestScheduler) → accounted id (record_invalid now s) ≡ accounted id s
unfolding record_invalid invalid_budget_blocked schedule_pump
record_invalid-accounted id now s = ground arith

-- 1 for the submission of operation `id`.
abbrev pub submissions : ℕ → Action → ℕ
submissions id (submits e) = one_if (e.operation_id == id)
submissions id _ = 0

module _ (aborted : ℕ → Bool) (now id : ℕ) where
  submit_reserved-accounted :
      (e : PendingEntry) (s : RequestScheduler)
      → accounted id (submit_reserved aborted now e s)
        ≡ one_if (e.operation_id == id) + accounted id s
  unfolding submit_reserved enqueue
  submit_reserved-accounted e s =
      let s' = record s {
        reservations = delete e.operation_id s.reservations;
        pending = s.pending ++ e ∷ [];
      } in
      ground (
        arith,
        waits-append id s.pending (e ∷ []),
        pump-accounted aborted now id (accounted id s') s',
      )

  fire_gate_timer-accounted :
      (s : RequestScheduler) → accounted id (fire_gate_timer aborted now s) ≡ accounted id s
  unfolding fire_gate_timer invalid_budget_blocked
  fire_gate_timer-accounted s =
      let s' = record s { notify_recovery = false; gate_timer = none } in
      ground (arith, pump-accounted aborted now id (accounted id s) s')

  -- Each submission of a request adds one to the number of its answers and of its places in the
  -- queue together, and nothing else changes that number: a submitted request waits until it is
  -- dispatched or rejected, and none of this happens to it twice.
  pub step-accounted :
      (a : Action) (s : RequestScheduler)
      → accounted id (step aborted now a s) ≡ submissions id a + accounted id s
  unfolding step
  step-accounted reserves s = omega (arith, reserve-accounted id now s)
  step-accounted (releases k) s = unfold release_reservation in omega arith
  step-accounted (timeouts k) s =
      unfold on_timeout in ground (arith, waits-remove_pending id k s.pending)
  step-accounted (aborts k) s =
      unfold on_abort in ground (arith, waits-remove_pending id k s.pending)
  step-accounted (finishes k) s = unfold finish in omega arith
  step-accounted (quarantines key) s =
      unfold quarantine_context in
      ground (
        arith,
        reject_context-accounted id key s.pending (record s { quarantined = key ∷ s.quarantined }),
      )
  step-accounted (submits e) s = submit_reserved-accounted e s
  step-accounted fires s = omega (arith, fire_gate_timer-accounted s)
  step-accounted invalid s = omega (arith, record_invalid-accounted id now s)
  step-accounted drains s =
      unfold start_draining in
      ground (
        arith,
        pump-accounted aborted now id (accounted id s)
            (emit notified (record s { accepting = false })),
      )
  step-accounted gives_up s =
      unfold reject_pending_for_drain in
      omega (arith, reject_all-accounted id s.pending (record s { pending = [] }))
