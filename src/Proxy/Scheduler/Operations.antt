-- ===== src/Proxy/Scheduler/Operations.antt =====
-- packages/proxy/src/scheduler.ts: the other operations of RequestScheduler, its timers and signals,
-- and the scheduler as a machine whose steps the environment orders.
use extra.Prelude.{
  ℕ, ◌≤◌, none, ◌++◌, Bool, true, false, not, ◌&&◌, List, [], ◌∷◌, ltb, ◌==◌, if◌then◌else◌,
}
use extra.Proxy.Gate.{SlidingWindow, record_at}
use extra.Proxy.Scheduler.{
  draining, internal, token_rejected, queue_timeout, rejected, disconnected, notified, PendingEntry,
  RequestScheduler, has, emit, invalid_budget_blocked, reserve, delete, release_reservation,
  schedule_pump, pump,
}

-- `pending.indexOf(entry)` and the cut: an entry is known by its operation, which is fresh.
unfoldable pub remove_pending : ℕ → List PendingEntry → List PendingEntry
remove_pending id [] = []
remove_pending id (e ∷ es) = if e.operation_id == id then es else e ∷ remove_pending id es

abbrev pub is_pending : ℕ → List PendingEntry → Bool
is_pending id [] = false
is_pending id (e ∷ es) = if e.operation_id == id then true else is_pending id es

module _ (aborted : ℕ → Bool) (now : ℕ) where
  unfoldable pub enqueue : PendingEntry → RequestScheduler → RequestScheduler
  unfolding pump
  enqueue e s =
      if aborted e.operation_id
      then emit (disconnected e.operation_id) s
      else pump aborted now (record s { pending = s.pending ++ e ∷ [] })

  unfoldable pub submit_reserved : PendingEntry → RequestScheduler → RequestScheduler
  unfolding enqueue delete
  submit_reserved e s =
      if has s.reservations e.operation_id
      then (let s' = record s { reservations = delete e.operation_id s.reservations } in
          if has s.quarantined e.context_key
          then emit (rejected e.operation_id token_rejected) s'
          else enqueue e s')
      else emit (rejected e.operation_id internal) s

  unfoldable pub start_draining : RequestScheduler → RequestScheduler
  unfolding pump
  start_draining s =
      if s.accepting then pump aborted now (emit notified (record s { accepting = false })) else s

  -- The callback of `gateTimer`.
  unfoldable pub fire_gate_timer : RequestScheduler → RequestScheduler
  unfolding pump invalid_budget_blocked
  fire_gate_timer s =
      let s₁ = pump aborted now (record s { notify_recovery = false; gate_timer = none }) in
      if s.notify_recovery
      then (let (s₂, blocked) = invalid_budget_blocked s₁ now in
          if ltb 0 blocked then s₂ else emit notified s₂)
      else s₁

-- The callbacks of an entry's own timer and of its abort signal.
unfoldable pub on_timeout : ℕ → RequestScheduler → RequestScheduler
unfolding remove_pending
on_timeout id s =
    if is_pending id s.pending
    then emit (rejected id queue_timeout) (record s { pending = remove_pending id s.pending })
    else s

unfoldable pub on_abort : ℕ → RequestScheduler → RequestScheduler
unfolding remove_pending
on_abort id s =
    if is_pending id s.pending
    then emit (disconnected id) (record s { pending = remove_pending id s.pending })
    else s

-- `Map.delete` when the promise of `run` settles.
unfoldable pub finish : ℕ → RequestScheduler → RequestScheduler
unfolding remove_pending
finish id s = record s { in_flight = remove_pending id s.in_flight }

unfoldable pub record_invalid : ℕ → RequestScheduler → RequestScheduler
unfolding invalid_budget_blocked schedule_pump
record_invalid now s =
    let (s₁, before) = invalid_budget_blocked s now in
    let (s₂, delay) =
      invalid_budget_blocked (record s₁ { invalid_budget = record_at s₁.invalid_budget now }) now in
    let s₃ = if ltb 0 delay then schedule_pump now delay true s₂ else s₂ in
    if not (ltb 0 before) && ltb 0 delay then emit notified s₃ else s₃

-- The loops of `quarantineContext` and `rejectPendingForDrain`, over a copy of `pending`.
unfoldable pub reject_context : ℕ → List PendingEntry → RequestScheduler → RequestScheduler
unfolding remove_pending
reject_context key [] s = s
reject_context key (e ∷ es) s = reject_context key es (
    if e.context_key == key && is_pending e.operation_id s.pending
    then emit (rejected e.operation_id token_rejected)
        (record s { pending = remove_pending e.operation_id s.pending })
    else s)

unfoldable pub quarantine_context : ℕ → RequestScheduler → RequestScheduler
unfolding reject_context
quarantine_context key s =
    if has s.quarantined key
    then s
    else emit notified
        (reject_context key s.pending (record s { quarantined = key ∷ s.quarantined }))

unfoldable pub reject_all : List PendingEntry → RequestScheduler → RequestScheduler
reject_all [] s = s
reject_all (e ∷ es) s = reject_all es (emit (rejected e.operation_id draining) s)

unfoldable pub reject_pending_for_drain : RequestScheduler → RequestScheduler
unfolding reject_all
reject_pending_for_drain s = reject_all s.pending (record s { pending = [] })

-- What can happen to a scheduler: a call of the server, a timer, a signal, the end of a request.
pub data Action : Type 0 where
  reserves : Action
  releases timeouts aborts finishes quarantines : ℕ → Action
  submits : PendingEntry → Action
  fires invalid drains gives_up : Action

module _ (aborted : ℕ → Bool) (now : ℕ) where
  unfoldable pub step : Action → RequestScheduler → RequestScheduler
  unfolding reserve release_reservation submit_reserved on_timeout on_abort fire_gate_timer finish
      record_invalid quarantine_context start_draining reject_pending_for_drain
  step reserves s = (reserve s now).0
  step (releases id) s = release_reservation s id
  step (timeouts id) s = on_timeout id s
  step (aborts id) s = on_abort id s
  step (finishes id) s = finish id s
  step (quarantines key) s = quarantine_context key s
  step (submits e) s = submit_reserved aborted now e s
  step fires s = fire_gate_timer aborted now s
  step invalid s = record_invalid now s
  step drains s = start_draining aborted now s
  step gives_up s = reject_pending_for_drain s

-- A new scheduler, for gates that the context manager configures.
unfoldable pub request_scheduler : ℕ → SlidingWindow → (ℕ → SlidingWindow) → RequestScheduler
request_scheduler max_admitted invalid_budget gates = record {
  pending = [];
  reservations = [];
  in_flight = [];
  quarantined = [];
  gates = gates;
  invalid_budget = invalid_budget;
  gate_timer = none;
  notify_recovery = false;
  accepting = true;
  max_admitted = max_admitted;
  next_id = 0;
  out = [];
}

-- One synchronous turn of the event loop.
pub record Turn : Type 0 where
  pub clock : ℕ
  pub aborted : ℕ → Bool
  pub action : Action

unfoldable pub run : List Turn → RequestScheduler → RequestScheduler
run [] s = s
run (t ∷ ts) s = run ts (step t.aborted t.clock t.action s)

-- The clock does not go back.
abbrev pub InTime : ℕ → List Turn → Type 0
InTime now [] = Unit {0}
InTime now (t ∷ ts) = (now ≤ t.clock) × InTime t.clock ts
