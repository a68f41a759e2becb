-- ===== src/Proxy/Scheduler/Rate.antt =====
-- scheduler.ts: no context is dispatched more often than its gate allows.
pub mod Steps
use extra.Prelude.{
  ℕ, zero, suc, ◌+◌, ◌≤◌, ◌≡◌, refl, sym, ap, ◌∙◌, subst, Bool, true, false, ◌⊎◌, inl, inr, Option,
  none, some, List, [], ◌∷◌, ◌++◌, ◌==◌, if◌then◌else◌, Bool-cases, ==_iff, length, ltb, arith,
}
use extra.Proxy.Gate.{SlidingWindow, record_at, blocked_for}
use extra.Proxy.Gate.View.{in_window}
use extra.Proxy.Gate.Log.{
  Tracks, Tracks-mono, record_at-Tracks, record_at_frame, blocked_for-Tracks, blocked_for_frame,
}
use extra.Proxy.Gate.Delay.{blocked_for_again, record_at-in_window-le}
use extra.Proxy.Scheduler.{
  Event, rejected, disconnected, dispatched, notified, PendingEntry, RequestScheduler, set_gate,
  dispatch, Verdict, abort, quarantine, skip, open_gate, blocked, judge, Scan, scan, settle_round,
  round, pump_loop, pump, schedule_pump, invalid_budget_blocked, has,
}
use extra.Proxy.Scheduler.Induction.{
  At, at, GoesOn, advance, Says, judge-Says, judge_open, scan_inv, pump_loop_inv,
}

-- The times at which requests of context `key` were dispatched, the earliest first.
abbrev pub times : ℕ → List Event → List ℕ
times key [] = []
times key (dispatched i k t ∷ es) = if k == key then times key es ++ t ∷ [] else times key es
times key (rejected i c ∷ es) = times key es
times key (disconnected i ∷ es) = times key es
times key (notified ∷ es) = times key es

-- At each dispatch, the context had at most `limit` dispatches in the last `per_ms` milliseconds,
-- the new one counted.
module _ (limit per_ms : ℕ → ℕ) where
  abbrev pub Respects : List Event → Type 0
  Respects [] = Unit {0}
  Respects (dispatched i k t ∷ es) =
      (length (in_window (per_ms k) t (times k es ++ t ∷ [])) ≤ limit k) × Respects es
  Respects (rejected i c ∷ es) = Respects es
  Respects (disconnected i ∷ es) = Respects es
  Respects (notified ∷ es) = Respects es

  pub record HasGate (t : ℕ) (log : List ℕ) (k : ℕ) (g : SlidingWindow) : Type 0 where
    pub same_limit : g.limit ≡ limit k
    pub same_per : g.per_ms ≡ per_ms k
    pub tracks : Tracks g log t

  pub record Paced (t : ℕ) (gates : ℕ → SlidingWindow) (out : List Event) : Type 0 where
    pub gate : (k : ℕ) → HasGate t (times k out) k (gates k)
    pub respects : Respects out

  module _ (aborted : ℕ → Bool) (now : ℕ) where
    prune_gate :
        (s : RequestScheduler) (key : ℕ) (g : SlidingWindow)
        → Paced now s.gates s.out
        → g ≡ (blocked_for (s.gates key) now).0
        → Paced now (set_gate key g s).gates s.out
    prune_gate s key g p e = record {
      gate = λ k. new k (Bool-cases (k == key));
      respects = p.respects;
    }
      where
        pruned : HasGate now (times key s.out) key g
        pruned =
            let f = blocked_for_frame (s.gates key) now in
            rw e (record {
              same_limit = f.0 ∙ (p.gate key).same_limit;
              same_per = f.1 ∙ (p.gate key).same_per;
              tracks = blocked_for-Tracks (p.gate key).tracks now (omega arith);
            })

        new :
            (k : ℕ)
            → ((k == key) ≡ true) ⊎ ((k == key) ≡ false)
            → HasGate now (times k s.out) k (if k == key then g else s.gates k)
        new k (inl e) = rw (e, (==_iff k key).0 e) pruned
        new k (inr e) = rw e (p.gate k)

    advance-Paced :
        (a : At) (e : PendingEntry) (rest : List PendingEntry) (v : Verdict)
        → Paced now a.sched.gates a.sched.out
        → Says aborted now a.seen e a.sched v
        → GoesOn v
        → (let b = advance a e rest v in Paced now b.sched.gates b.sched.out)
    advance-Paced a e rest abort p j g = record { gate = p.gate; respects = p.respects }
    advance-Paced a e rest quarantine p j g = record { gate = p.gate; respects = p.respects }
    advance-Paced a e rest skip p j g = p
    advance-Paced a e rest (open_gate x) p j g = absurd g
    advance-Paced a e rest (blocked x d) p j g = prune_gate a.sched e.context_key x p j.1

    -- A selected entry stands behind an open gate.
    abbrev IsOpen : RequestScheduler → Option (PendingEntry × List PendingEntry) → Type 0
    IsOpen s none = Unit {0}
    IsOpen s (some (e, rest)) = (blocked_for (s.gates e.context_key) now).1 ≡ 0

    record Found (r : Scan) : Type 0 where
      paced : Paced now r.sched.gates r.sched.out
      opened : IsOpen r.sched r.chosen

    opened_again :
        (s : RequestScheduler) (key : ℕ) (g : SlidingWindow)
        → g ≡ (blocked_for (s.gates key) now).0
        → (blocked_for (s.gates key) now).1 ≡ 0
        → (blocked_for ((set_gate key g s).gates key) now).1 ≡ 0
    opened_again s key g e z =
        rw ((==_iff key key).1 refl, e) (blocked_for_again (s.gates key) now ∙ z)

    scan-Found :
        (s : RequestScheduler)
        → Paced now s.gates s.out
        → Found (scan aborted now [] [] none s.pending s)
    scan-Found s p =
        scan_inv aborted now (λ a. Paced now a.sched.gates a.sched.out) Found
          (λ a e rest f g. advance-Paced a e rest _ f (judge-Says aborted now a.seen e a.sched) g)
          (λ a f. record { paced = f; opened = tt })
          (λ a e rest g f j.
            let says = judge_open aborted now a.seen e a.sched g j in
            record {
              paced = prune_gate a.sched e.context_key g f says.1;
              opened = opened_again a.sched e.context_key g says.1 says.2;
            })
          [] [] none s.pending s p

    dispatch-Paced :
        (s : RequestScheduler) (i key : ℕ)
        → Paced now s.gates s.out
        → (blocked_for (s.gates key) now).1 ≡ 0
        → Paced now
            (set_gate key (record_at (s.gates key) now) s).gates
            (dispatched i key now ∷ s.out)
    dispatch-Paced s i key p z = record {
      gate = λ k. new k (Bool-cases (k == key));
      respects = (within, p.respects);
    }
      where
        own : HasGate now (times key s.out) key (s.gates key)
        own = p.gate key

        within : length (in_window (per_ms key) now (times key s.out ++ now ∷ [])) ≤ limit key
        within =
            rw (← own.same_per, ← own.same_limit)
              (record_at-in_window-le own.tracks now (omega arith) z)

        new :
            (k : ℕ)
            → ((k == key) ≡ true) ⊎ ((k == key) ≡ false)
            → HasGate now
                (times k (dispatched i key now ∷ s.out))
                k
                (if k == key then record_at (s.gates key) now else s.gates k)
        new k (inl e) =
            let f = record_at_frame (s.gates key) now in
            subst
              (λ j.
                HasGate now (times j (dispatched i key now ∷ s.out)) j
                  (if j == key then record_at (s.gates key) now else s.gates j))
              (sym ((==_iff k key).0 e))
              (rw ((==_iff key key).1 refl) (record {
                same_limit = f.0 ∙ own.same_limit;
                same_per = f.1 ∙ own.same_per;
                tracks = record_at-Tracks own.tracks now (omega arith);
              }))
        new k (inr e) = let other : (key == k) ≡ false = ground arith in rw (e, other) (p.gate k)

    abbrev IsPaced : RequestScheduler → Type 0
    IsPaced s = Paced now s.gates s.out

    settle_round-Paced :
        (t : RequestScheduler) (before : List PendingEntry)
        (chosen : Option (PendingEntry × List PendingEntry)) (next : Option ℕ)
        → IsPaced t
        → IsOpen t chosen
        → IsPaced (settle_round aborted now t before chosen next).0
    unfolding settle_round dispatch schedule_pump
    settle_round-Paced t before none none p z = p
    settle_round-Paced t before none (some d) p z = elim (Bool-cases (d == 0)) [
      | inl e ↦ rw e p
      | inr e ↦ rw e p
    ]
    settle_round-Paced t before (some (e, rest)) next p z =
        dispatch-Paced t e.operation_id e.context_key p z

    round-Paced : (s : RequestScheduler) → IsPaced s → IsPaced (round aborted now s).0
    unfolding round
    round-Paced s p =
        let r = scan aborted now [] [] none s.pending s in
        let f = scan-Found s p in
        settle_round-Paced r.sched r.before r.chosen r.next_delay f.paced f.opened

    pump-Paced : (s : RequestScheduler) → IsPaced s → IsPaced (pump aborted now s)
    unfolding pump invalid_budget_blocked schedule_pump
    pump-Paced s p =
        let (s', delay) = invalid_budget_blocked s now in
        elim (Bool-cases (ltb 0 delay)) [
          | inl e ↦ rw e (elim (Bool-cases (delay == 0)) [ inl z ↦ rw z p | inr z ↦ rw z p ])
          | inr e ↦ rw e (pump_loop_inv aborted now IsPaced round-Paced (length s'.pending) s' p)
        ]
