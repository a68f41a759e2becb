-- ===== src/Proxy/Scheduler/Tests.antt =====
-- scheduler.ts at concrete inputs.
use extra.Prelude.{
  ℕ, ◌≡◌, ◌+◌, refl, Bool, true, false, none, List, [], ◌∷◌, ◌++◌, length, All, arith,
}
use extra.Proxy.Gate.{record_at, sliding_window, blocked_for}
use extra.Proxy.Scheduler.{PendingEntry, RequestScheduler, pump, invalid_budget_blocked, judge}
use extra.Proxy.Scheduler.Operations.{reserves, submits, fires, step, request_scheduler, Turn, run}
use extra.Proxy.Scheduler.Capacity.{IsWithin, step-IsWithin}
use extra.Proxy.Scheduler.Settle.{accounted, submissions, step-accounted}
use extra.Proxy.Scheduler.Order.{sent, waiting, pump-order}
use extra.Proxy.Scheduler.Rate.{Respects}
use extra.Proxy.Scheduler.Rate.Steps.{run-Respects}
use extra.Proxy.Scheduler.Progress.{HasToWait, pump-IsIdle}

-- A scheduler for two requests; each context may dispatch one request per 10 ms.
abbrev small : RequestScheduler
small = record {
  pending = record { operation_id = 0; request_id = 7; context_key = 1 } ∷ [];
  reservations = 1 ∷ [];
  in_flight = [];
  quarantined = [];
  gates = λ k. record { entries = []; start = 0; blocked_until = 0; limit = 1; per_ms = 10 };
  invalid_budget = record { entries = []; start = 0; blocked_until = 0; limit = 5; per_ms = 100 };
  gate_timer = none;
  notify_recovery = false;
  accepting = true;
  max_admitted = 2;
  next_id = 2;
  out = [];
}

abbrev second : PendingEntry
second = record { operation_id = 1; request_id = 8; context_key = 1 }

abbrev nobody : ℕ → Bool
nobody id = false

budget_open : (invalid_budget_blocked small 0).1 ≡ 0
unfolding invalid_budget_blocked blocked_for
budget_open = refl

-- The second request of the context has to wait for the first.
second_waits : length (step nobody 0 (submits second) small).pending ≡ 1
unfolding step pump judge blocked_for record_at
second_waits = refl

step-IsWithin_example : IsWithin (step nobody 0 (submits second) small)
step-IsWithin_example = step-IsWithin nobody 0 (submits second) small (omega arith)

step-accounted_example :
    accounted 1 (step nobody 0 (submits second) small)
    ≡ submissions 1 (submits second) + accounted 1 small
step-accounted_example = step-accounted nobody 0 1 (submits second) small

pump-order_example :
    sent 1 (pump nobody 0 small).out ++ waiting nobody 1 (pump nobody 0 small).pending ≡ 0 ∷ []
pump-order_example = pump-order nobody 0 1 small refl

abbrev turns : List Turn
turns =
    record { clock = 0; aborted = nobody; action = reserves }
    ∷ record {
      clock = 1;
      aborted = nobody;
      action = submits (record { operation_id = 0; request_id = 9; context_key = 3 });
    }
    ∷ record { clock = 12; aborted = nobody; action = fires }
    ∷ []

run-Respects_example :
    Respects
      (λ _. 1)
      (λ _. 10)
      (run turns (request_scheduler 2 small.invalid_budget (λ _. sliding_window 1 10))).out
run-Respects_example =
    run-Respects (λ _. 1) (λ _. 10) 2 small.invalid_budget turns
      (omega arith, (omega arith, (omega arith, tt)))

pump-IsIdle_example : All (HasToWait nobody 0 (pump nobody 0 small)) (pump nobody 0 small).pending
pump-IsIdle_example = pump-IsIdle nobody 0 small budget_open
