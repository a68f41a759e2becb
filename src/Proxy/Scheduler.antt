-- ===== src/Proxy/Scheduler.antt =====
-- packages/proxy/src/scheduler.ts: the class RequestScheduler, admission and dispatch of requests.
-- Symbols, request ids and context keys are numbers: the code only compares them. The promises that
-- it settles, the calls of `run` and of `notifyLifecycleChange` are the events of `out`, the latest
-- first. What the environment chooses is an argument: the time `now`, one for each synchronous call,
-- and `aborted`, which signals are aborted. A context is its key, with one gate for each key.
pub mod Operations
pub mod Induction
pub mod Capacity
pub mod Settle
pub mod Order
pub mod Rate
pub mod Progress
mod Tests
use extra.Prelude.{
  ℕ, zero, suc, ◌+◌, ◌<◌, min, Bool, true, false, not, ◌||◌, Option, none, some, List, [], ◌∷◌,
  ◌++◌, length, any, select, ltb, leb, ◌==◌, if◌then◌else◌, ◌⊎◌, inl, inr,
}
use extra.Proxy.Gate.{SlidingWindow, record_at, blocked_for}

pub data ErrorCode : Type 0 where
  draining invalid_budget_exhausted overloaded internal token_rejected queue_timeout : ErrorCode

pub data Event : Type 0 where
  rejected : ℕ → ErrorCode → Event
  disconnected : ℕ → Event
  dispatched : (operation_id context_key at_time : ℕ) → Event
  notified : Event

pub record PendingEntry : Type 0 where
  pub operation_id : ℕ
  pub request_id : ℕ
  pub context_key : ℕ

pub record RequestScheduler : Type 0 where
  pub pending : List PendingEntry
  pub reservations : List ℕ
  pub in_flight : List PendingEntry
  pub quarantined : List ℕ
  pub gates : ℕ → SlidingWindow
  pub invalid_budget : SlidingWindow
  pub gate_timer : Option ℕ
  pub notify_recovery : Bool
  pub accepting : Bool
  pub max_admitted : ℕ
  pub next_id : ℕ
  pub out : List Event

abbrev pub has : List ℕ → ℕ → Bool
has ks k = any (λ j. j == k) ks

abbrev pub emit : Event → RequestScheduler → RequestScheduler
emit e s = record s { out = e ∷ s.out }

abbrev pub set_gate : ℕ → SlidingWindow → RequestScheduler → RequestScheduler
set_gate key g s = record s { gates = λ k. if k == key then g else s.gates k }

abbrev pub pending_count : RequestScheduler → ℕ
pending_count s = length s.pending + length s.reservations

abbrev pub admitted_count : RequestScheduler → ℕ
admitted_count s = pending_count s + length s.in_flight

pub invalid_budget_blocked : RequestScheduler → ℕ → RequestScheduler × ℕ
invalid_budget_blocked s now =
    let (g, d) = blocked_for s.invalid_budget now in (record s { invalid_budget = g }, d)

-- What is thrown, or the new reservation.
pub reserve : RequestScheduler → ℕ → RequestScheduler × (ErrorCode ⊎ ℕ)
unfolding invalid_budget_blocked
reserve s now =
    if s.accepting
    then (let (s', blocked) = invalid_budget_blocked s now in
        if ltb 0 blocked
        then (s', inl invalid_budget_exhausted)
        else if leb s'.max_admitted (admitted_count s')
        then (s', inl overloaded)
        else (
          record s' { reservations = s'.next_id ∷ s'.reservations; next_id = suc s'.next_id },
          inr s'.next_id,
        ))
    else (s, inl draining)

-- `Set.delete` for a set without repetitions.
pub delete : ℕ → List ℕ → List ℕ
delete k [] = []
delete k (j ∷ js) = if j == k then js else j ∷ delete k js

pub release_reservation : RequestScheduler → ℕ → RequestScheduler
unfolding delete
release_reservation s id = record s { reservations = delete id s.reservations }

pub schedule_pump : ℕ → ℕ → Bool → RequestScheduler → RequestScheduler
schedule_pump now delay notify s =
    if delay == 0
    then s
    else record s { notify_recovery = s.notify_recovery || notify; gate_timer = some (now + delay) }

-- `Map.set`: a known key keeps its place.
pub put_in_flight : PendingEntry → List PendingEntry → List PendingEntry
put_in_flight e [] = e ∷ []
put_in_flight e (f ∷ fs) =
    if f.operation_id == e.operation_id then e ∷ fs else f ∷ put_in_flight e fs

pub dispatch : ℕ → PendingEntry → RequestScheduler → RequestScheduler
unfolding put_in_flight
dispatch now e s =
    emit (dispatched e.operation_id e.context_key now)
      (record s { in_flight = put_in_flight e s.in_flight })

-- What one round of the inner loop of `pump` makes of an entry.
pub data Verdict : Type 0 where
  abort quarantine skip : Verdict
  open_gate : SlidingWindow → Verdict
  blocked : SlidingWindow → ℕ → Verdict

pub judge : (ℕ → Bool) → ℕ → List ℕ → PendingEntry → RequestScheduler → Verdict
judge aborted now seen e s =
    if aborted e.operation_id
    then abort
    else if has s.quarantined e.context_key
    then quarantine
    else if has seen e.context_key
    then skip
    else let (g, delay) = blocked_for (s.gates e.context_key) now in
      if delay == 0 then open_gate g else blocked g delay

abbrev pub min_delay : Option ℕ → ℕ → Option ℕ
min_delay none d = some d
min_delay (some m) d = some (min m d)

-- The entries before the place where the loop stopped, the entry selected there with those behind
-- it, and the least delay of a blocked gate.
pub record Scan : Type 0 where
  pub sched : RequestScheduler
  pub before : List PendingEntry
  pub chosen : Option (PendingEntry × List PendingEntry)
  pub next_delay : Option ℕ

module _ (aborted : ℕ → Bool) (now : ℕ) where
  -- The inner loop of `pump`, over the rest of `pending`.
  pub scan : List ℕ → List PendingEntry → Option ℕ → List PendingEntry → RequestScheduler → Scan
  scan seen before next [] s = record {
    sched = s;
    before = before;
    chosen = none;
    next_delay = next;
  }
  scan seen before next (e ∷ rest) s = elim (judge aborted now seen e s) [
    | abort ↦ scan seen before next rest (emit (disconnected e.operation_id) s)
    | quarantine ↦ scan seen before next rest (emit (rejected e.operation_id token_rejected) s)
    | skip ↦ scan seen (before ++ e ∷ []) next rest s
    | open_gate g ↦ record {
      sched = set_gate e.context_key g s;
      before = before;
      chosen = some (e, rest);
      next_delay = next;
    }
    | blocked g d ↦
        scan (e.context_key ∷ seen) (before ++ e ∷ []) (min_delay next d) rest
          (set_gate e.context_key g s)
  ]

  -- The end of a round of the outer loop: `false` leaves the loop.
  pub settle_round :
      RequestScheduler
      → List PendingEntry
      → Option (PendingEntry × List PendingEntry)
      → Option ℕ
      → RequestScheduler × Bool
  unfolding dispatch schedule_pump
  settle_round s before none none = (record s { pending = before }, false)
  settle_round s before none (some d) =
      (schedule_pump now d false (record s { pending = before }), false)
  settle_round s before (some (e, rest)) next = (
    dispatch now e (
        set_gate e.context_key (record_at (s.gates e.context_key) now)
          (record s { pending = before ++ rest })),
    true,
  )

  pub round : RequestScheduler → RequestScheduler × Bool
  unfolding scan settle_round
  round s =
      let r = scan [] [] none s.pending s in settle_round r.sched r.before r.chosen r.next_delay

  -- The outer loop, on fuel. Each round that goes on takes an entry out of `pending`.
  pub pump_loop : ℕ → RequestScheduler → RequestScheduler
  unfolding round
  pump_loop zero s = s
  pump_loop (suc fuel) s = elim s.pending [
    | [] ↦ s
    | _ ∷ _ ↦ elim (round s).1 [ true ↦ pump_loop fuel (round s).0 | false ↦ (round s).0 ]
  ]

  pub pump : RequestScheduler → RequestScheduler
  unfolding pump_loop invalid_budget_blocked schedule_pump
  pump s =
      let (s', delay) = invalid_budget_blocked s now in
      if ltb 0 delay then schedule_pump now delay true s' else pump_loop (length s'.pending) s'
