-- ===== src/Proxy/Scheduler/Rate/Steps.antt =====
-- scheduler.ts: every step of the scheduler keeps its contexts within their gates.
use extra.Prelude.{
  ℕ, ◌≤◌, ◌≡◌, Bool, false, ◌⊎◌, inl, inr, none, List, [], ◌∷◌, ◌==◌, ◌&&◌, ltb, Bool-cases, arith,
}
use extra.Proxy.Gate.{SlidingWindow, sliding_window}
use extra.Proxy.Gate.Log.{Tracks-mono, sliding_window-Tracks, sliding_window_frame}
use extra.Proxy.Scheduler.{
  ErrorCode, draining, Event, rejected, disconnected, notified, PendingEntry, RequestScheduler,
  invalid_budget_blocked, reserve, release_reservation, schedule_pump, pump, has, internal,
  token_rejected, queue_timeout,
}
use extra.Proxy.Scheduler.Operations.{
  enqueue, submit_reserved, start_draining, fire_gate_timer, on_timeout, on_abort, finish,
  record_invalid, quarantine_context, reject_pending_for_drain, reject_context, reject_all,
  is_pending, step, Action, reserves, releases, timeouts, aborts, finishes, quarantines, submits,
  fires, invalid, drains, gives_up, request_scheduler, Turn, run, InTime,
}
use extra.Proxy.Scheduler.Rate.{Paced, HasGate, Respects, pump-Paced}

module _ (limit per_ms : ℕ → ℕ) where
  abbrev pub IsPaced : ℕ → RequestScheduler → Type 0
  IsPaced t s = Paced limit per_ms t s.gates s.out

  Paced-mono :
      {t now : ℕ} (gates : ℕ → SlidingWindow) (out : List Event)
      → t ≤ now
      → Paced limit per_ms t gates out
      → Paced limit per_ms now gates out
  Paced-mono gates out h p = record {
    gate = λ k.
        let g = p.gate k in
        record {
          same_limit = g.same_limit;
          same_per = g.same_per;
          tracks = Tracks-mono h g.tracks;
        };
    respects = p.respects;
  }

  -- A change that leaves the gates and dispatches nothing.
  Paced-same :
      {t : ℕ} (s s' : RequestScheduler)
      → s'.gates ≡ s.gates
      → s'.out ≡ s.out
      → IsPaced t s
      → IsPaced t s'
  Paced-same s s' g o p = rw (g, o) p

  Paced-rejected :
      {t : ℕ} (gates : ℕ → SlidingWindow) (out : List Event) (i : ℕ) (c : ErrorCode)
      → Paced limit per_ms t gates out
      → Paced limit per_ms t gates (rejected i c ∷ out)
  Paced-rejected gates out i c p = record { gate = p.gate; respects = p.respects }

  Paced-disconnected :
      {t : ℕ} (gates : ℕ → SlidingWindow) (out : List Event) (i : ℕ)
      → Paced limit per_ms t gates out
      → Paced limit per_ms t gates (disconnected i ∷ out)
  Paced-disconnected gates out i p = record { gate = p.gate; respects = p.respects }

  Paced-notified :
      {t : ℕ} (gates : ℕ → SlidingWindow) (out : List Event)
      → Paced limit per_ms t gates out
      → Paced limit per_ms t gates (notified ∷ out)
  Paced-notified gates out p = record { gate = p.gate; respects = p.respects }

  reject_context-Paced :
      {t : ℕ} (key : ℕ) (es : List PendingEntry) (s : RequestScheduler)
      → IsPaced t s
      → IsPaced t (reject_context key es s)
  unfolding reject_context
  reject_context-Paced key [] s p = p
  reject_context-Paced key (e ∷ es) s p =
      reject_context-Paced key es _
        (elim (Bool-cases (e.context_key == key && is_pending e.operation_id s.pending)) [
          | inl hit ↦ rw hit (Paced-rejected s.gates s.out e.operation_id token_rejected p)
          | inr miss ↦ rw miss p
        ])

  reject_all-Paced :
      {t : ℕ} (es : List PendingEntry) (s : RequestScheduler)
      → IsPaced t s
      → IsPaced t (reject_all es s)
  unfolding reject_all
  reject_all-Paced [] s p = p
  reject_all-Paced (e ∷ es) s p =
      reject_all-Paced es _ (Paced-rejected s.gates s.out e.operation_id draining p)

  reserve-Paced :
      {t : ℕ} (s : RequestScheduler) (now : ℕ) → IsPaced t s → IsPaced t (reserve s now).0
  unfolding reserve invalid_budget_blocked
  reserve-Paced s now p = Paced-same s (reserve s now).0 (ground arith) (ground arith) p

  record_invalid-Paced :
      {t : ℕ} (now : ℕ) (s : RequestScheduler) → IsPaced t s → IsPaced t (record_invalid now s)
  unfolding record_invalid invalid_budget_blocked schedule_pump
  record_invalid-Paced now s p =
      let same : (record_invalid now s).gates ≡ s.gates = ground arith in
      let said : ((record_invalid now s).out ≡ s.out)
          ⊎ ((record_invalid now s).out ≡ notified ∷ s.out) =
        ground arith in
      elim said [ inl o ↦ rw (same, o) p | inr o ↦ rw (same, o) (Paced-notified s.gates s.out p) ]

  module _ (aborted : ℕ → Bool) (now : ℕ) where
    submit_reserved-Paced :
        (e : PendingEntry) (s : RequestScheduler)
        → IsPaced now s
        → IsPaced now (submit_reserved aborted now e s)
    unfolding submit_reserved enqueue
    submit_reserved-Paced e s p = elim (Bool-cases (has s.reservations e.operation_id)) [
      | inr gone ↦ rw gone (Paced-rejected s.gates s.out e.operation_id internal p)
      | inl held ↦ elim (Bool-cases (has s.quarantined e.context_key)) [
        | inl bad ↦ rw (held, bad) (Paced-rejected s.gates s.out e.operation_id token_rejected p)
        | inr good ↦ elim (Bool-cases (aborted e.operation_id)) [
          | inl left ↦ rw (held, good, left) (Paced-disconnected s.gates s.out e.operation_id p)
          | inr here ↦ rw (held, good, here) (pump-Paced limit per_ms aborted now _ p)
        ]
      ]
    ]

    fire_gate_timer-Paced :
        (s : RequestScheduler) → IsPaced now s → IsPaced now (fire_gate_timer aborted now s)
    unfolding fire_gate_timer invalid_budget_blocked
    fire_gate_timer-Paced s p =
        let s' = record s { notify_recovery = false; gate_timer = none } in
        let q = pump-Paced limit per_ms aborted now s' p in
        elim (Bool-cases s.notify_recovery) [
          | inr quiet ↦ rw quiet q
          | inl asked ↦
              elim (Bool-cases (ltb 0 (invalid_budget_blocked (pump aborted now s') now).1)) [
                | inl still ↦ rw (asked, still) q
                | inr over ↦ rw (asked, over) (Paced-notified _ _ q)
              ]
        ]

    step-Paced-now :
        (a : Action) (s : RequestScheduler) → IsPaced now s → IsPaced now (step aborted now a s)
    unfolding step
    step-Paced-now reserves s p = reserve-Paced s now p
    step-Paced-now (releases id) s p = unfold release_reservation in p
    step-Paced-now (timeouts id) s p =
        unfold on_timeout in
        elim (Bool-cases (is_pending id s.pending)) [
          | inl hit ↦ rw hit (Paced-rejected s.gates s.out id queue_timeout p)
          | inr miss ↦ rw miss p
        ]
    step-Paced-now (aborts id) s p =
        unfold on_abort in
        elim (Bool-cases (is_pending id s.pending)) [
          | inl hit ↦ rw hit (Paced-disconnected s.gates s.out id p)
          | inr miss ↦ rw miss p
        ]
    step-Paced-now (finishes id) s p = unfold finish in p
    step-Paced-now (quarantines key) s p =
        unfold quarantine_context in
        elim (Bool-cases (has s.quarantined key)) [
          | inl known ↦ rw known p
          | inr new ↦ rw new (
              Paced-notified _ _ (
                reject_context-Paced key s.pending (record s { quarantined = key ∷ s.quarantined })
                  p))
        ]
    step-Paced-now (submits e) s p = submit_reserved-Paced e s p
    step-Paced-now fires s p = fire_gate_timer-Paced s p
    step-Paced-now invalid s p = record_invalid-Paced now s p
    step-Paced-now drains s p =
        unfold start_draining in
        elim (Bool-cases s.accepting) [
          | inl on ↦ rw on (pump-Paced limit per_ms aborted now _ (Paced-notified s.gates s.out p))
          | inr off ↦ rw off p
        ]
    step-Paced-now gives_up s p =
        unfold reject_pending_for_drain in reject_all-Paced s.pending (record s { pending = [] }) p

    step-Paced :
        {t : ℕ} (a : Action) (s : RequestScheduler)
        → t ≤ now
        → IsPaced t s
        → IsPaced now (step aborted now a s)
    step-Paced a s h p = step-Paced-now a s (Paced-mono s.gates s.out h p)

  run-Paced :
      (t : ℕ) (turns : List Turn) (s : RequestScheduler)
      → InTime t turns
      → IsPaced t s
      → Respects limit per_ms (run turns s).out
  unfolding run
  run-Paced t [] s h p = p.respects
  run-Paced t (u ∷ us) s h p =
      run-Paced u.clock us _ h.1 (step-Paced u.aborted u.clock u.action s h.0 p)

  -- Whatever calls, timers and signals follow on one another, in a time that does not go back: at
  -- each dispatch, the requests of its context that were dispatched in the last `per_ms`
  -- milliseconds, the new one counted, are at most the `limit` of the context's gate.
  pub run-Respects :
      (max_admitted : ℕ) (budget : SlidingWindow) (turns : List Turn)
      → InTime 0 turns
      → Respects limit per_ms
          (run turns
            (request_scheduler max_admitted budget (λ k. sliding_window (limit k) (per_ms k)))).out
  unfolding request_scheduler
  run-Respects max_admitted budget turns h =
      run-Paced 0 turns _ h (record { gate = λ k. fresh k; respects = tt })
    where
      fresh : (k : ℕ) → HasGate limit per_ms 0 [] k (sliding_window (limit k) (per_ms k))
      fresh k =
          let f = sliding_window_frame (limit k) (per_ms k) in
          record {
            same_limit = f.0;
            same_per = f.1;
            tracks = sliding_window-Tracks (limit k) (per_ms k);
          }
