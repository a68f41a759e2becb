-- ===== src/Proxy/Scheduler/Progress.antt =====
-- scheduler.ts: `pump` leaves nothing waiting that it could dispatch, and sets its timer in time.
use extra.Prelude.{
  ℕ, zero, suc, ◌+◌, ◌≤◌, ◌≡◌, ◌≢◌, refl, sym, ◌∙◌, subst, Bool, true, false, ◌⊎◌, inl, inr, Option,
  none, some, List, [], ◌∷◌, ◌==◌, Bool-cases, length, length-append, All, All-append, arith,
}
use extra.Proxy.Gate.{blocked_for}
use extra.Proxy.Gate.Delay.{blocked_for_again}
use extra.Proxy.Scheduler.{
  PendingEntry, RequestScheduler, dispatch, Verdict, abort, quarantine, skip, open_gate, blocked,
  scan, min_delay, settle_round, round, pump_loop, pump, schedule_pump, invalid_budget_blocked, has,
}
use extra.Proxy.Scheduler.Induction.{At, GoesOn, advance, Says, judge-Says, scan_inv}

-- A time that is set, and is not after another.
abbrev pub IsSetBy : Option ℕ → ℕ → Type 0
IsSetBy none t = ⊥
IsSetBy (some m) t = m ≤ t

abbrev IsPositive : Option ℕ → Type 0
IsPositive none = Unit {0}
IsPositive (some d) = d ≢ 0

module _ (aborted : ℕ → Bool) (now : ℕ) where
  abbrev pub gate_delay : RequestScheduler → ℕ → ℕ
  gate_delay s key = (blocked_for (s.gates key) now).1

  -- An entry that has to wait: its client is there, its context is not quarantined, the gate of its
  -- context is blocked, and the timer fires by the time at which that gate opens.
  abbrev pub HasToWait : RequestScheduler → PendingEntry → Type 0
  HasToWait s e =
      (aborted e.operation_id ≡ false)
      × (has s.quarantined e.context_key ≡ false)
      × (gate_delay s e.context_key ≢ 0)
      × IsSetBy s.gate_timer (now + gate_delay s e.context_key)

  abbrev Passed : At → PendingEntry → Type 0
  Passed a e =
      (aborted e.operation_id ≡ false)
      × (has a.sched.quarantined e.context_key ≡ false)
      × (has a.seen e.context_key ≡ true)

  record Looked (n : ℕ) (a : At) : Type 0 where
    closed :
        (k : ℕ)
        → has a.seen k ≡ true
        → (gate_delay a.sched k ≢ 0) × IsSetBy a.next (gate_delay a.sched k)
    passed : All (Passed a) a.before
    positive : IsPositive a.next
    size : length a.before + length a.rest ≤ n

  min_delay-IsSetBy : (o : Option ℕ) (d t : ℕ) → IsSetBy o t → IsSetBy (min_delay o d) t
  min_delay-IsSetBy none d t h = absurd h
  min_delay-IsSetBy (some m) d t h = omega arith

  min_delay_self : (o : Option ℕ) (d : ℕ) → IsSetBy (min_delay o d) d
  min_delay_self none d = omega arith
  min_delay_self (some m) d = omega arith

  min_delay-IsPositive : (o : Option ℕ) (d : ℕ) → IsPositive o → d ≢ 0 → IsPositive (min_delay o d)
  min_delay-IsPositive none d p q = q
  min_delay-IsPositive (some m) d p q = omega arith

  Passed-cons :
      (seen : List ℕ) (q : List ℕ) (key : ℕ) (es : List PendingEntry)
      → All
          (λ e.
            (aborted e.operation_id ≡ false)
            × (has q e.context_key ≡ false)
            × (has seen e.context_key ≡ true))
          es
      → All
          (λ e.
            (aborted e.operation_id ≡ false)
            × (has q e.context_key ≡ false)
            × (has (key ∷ seen) e.context_key ≡ true))
          es
  Passed-cons seen q key [] h = tt
  Passed-cons seen q key (e ∷ es) h = ((h.0.0, h.0.1, ground arith), Passed-cons seen q key es h.1)

  advance-Looked :
      (n : ℕ) (a : At) (e : PendingEntry) (rest : List PendingEntry) (v : Verdict)
      → Looked n (record a { rest = e ∷ rest })
      → Says aborted now a.seen e a.sched v
      → GoesOn v
      → Looked n (advance a e rest v)
  unfolding blocked_for
  advance-Looked n a e rest abort f j g = record {
    closed = f.closed;
    passed = f.passed;
    positive = f.positive;
    size = omega (arith, f.size);
  }
  advance-Looked n a e rest quarantine f j g = record {
    closed = f.closed;
    passed = f.passed;
    positive = f.positive;
    size = omega (arith, f.size);
  }
  advance-Looked n a e rest skip f j g = record {
    closed = f.closed;
    passed = All-append _ a.before (e ∷ []) (j, tt) f.passed;
    positive = f.positive;
    size = omega (arith, f.size, length-append a.before (e ∷ []));
  }
  advance-Looked n a e rest (open_gate x) f j g = absurd g
  advance-Looked n a e rest (blocked x d) f j g = record {
    closed = λ k h. shut k h (Bool-cases (k == e.context_key));
    passed =
        All-append _ a.before (e ∷ []) ((j.0.0, j.0.1, ground arith), tt)
          (Passed-cons a.seen a.sched.quarantined e.context_key a.before f.passed);
    positive = min_delay-IsPositive a.next d f.positive j.3;
    size = omega (arith, f.size, length-append a.before (e ∷ []));
  }
    where
      b : At
      b = advance a e rest (blocked x d)

      own : (blocked_for x now).1 ≡ d
      own = rw j.1 (blocked_for_again (a.sched.gates e.context_key) now ∙ j.2)

      shut :
          (k : ℕ)
          → has (e.context_key ∷ a.seen) k ≡ true
          → ((k == e.context_key) ≡ true) ⊎ ((k == e.context_key) ≡ false)
          → (gate_delay b.sched k ≢ 0) × IsSetBy b.next (gate_delay b.sched k)
      shut k h (inl same) = rw (same, own) (j.3, min_delay_self a.next d)
      shut k h (inr other) =
          let (c, m) = f.closed k (ground arith) in
          rw other (c, min_delay-IsSetBy a.next d (gate_delay a.sched k) m)

  -- What a scan leaves for the end of the round.
  abbrev Rests :
      ℕ
      → RequestScheduler
      → List PendingEntry
      → Option (PendingEntry × List PendingEntry)
      → Option ℕ
      → Type 0
  Rests n s before none next =
      All
        (λ e.
          (aborted e.operation_id ≡ false)
          × (has s.quarantined e.context_key ≡ false)
          × (gate_delay s e.context_key ≢ 0)
          × IsSetBy next (gate_delay s e.context_key))
        before
      × IsPositive next
  Rests n s before (some (e, rest)) next = suc (length before + length rest) ≤ n

  Passed-Rests :
      (n : ℕ) (a : At) (es : List PendingEntry)
      → Looked n a
      → All (Passed a) es
      → All
          (λ e.
            (aborted e.operation_id ≡ false)
            × (has a.sched.quarantined e.context_key ≡ false)
            × (gate_delay a.sched e.context_key ≢ 0)
            × IsSetBy a.next (gate_delay a.sched e.context_key))
          es
  Passed-Rests n a [] f h = tt
  Passed-Rests n a (e ∷ es) f h =
      let (c, m) = f.closed e.context_key h.0.2 in ((h.0.0, h.0.1, c, m), Passed-Rests n a es f h.1)

  scan-Rests :
      (s : RequestScheduler)
      → let r = scan aborted now [] [] none s.pending s in
        Rests (length s.pending) r.sched r.before r.chosen r.next_delay
  scan-Rests s =
      scan_inv aborted now (Looked (length s.pending))
        (λ r. Rests (length s.pending) r.sched r.before r.chosen r.next_delay)
        (λ a e rest f g. advance-Looked _ a e rest _ f (judge-Says aborted now a.seen e a.sched) g)
        (λ a f. (Passed-Rests _ _ a.before f f.passed, f.positive))
        (λ a e rest g f j. omega (arith, f.size)) [] [] none s.pending s
        (record { closed = λ k h. cc; passed = tt; positive = tt; size = omega arith })

  Rests-HasToWait :
      (s : RequestScheduler) (d : ℕ) (es : List PendingEntry)
      → All
          (λ e.
            (aborted e.operation_id ≡ false)
            × (has s.quarantined e.context_key ≡ false)
            × (gate_delay s e.context_key ≢ 0)
            × (d ≤ gate_delay s e.context_key))
          es
      → All (HasToWait (record s { gate_timer = some (now + d) })) es
  Rests-HasToWait s d [] h = tt
  Rests-HasToWait s d (e ∷ es) h =
      ((h.0.0, h.0.1, h.0.2, omega (arith, h.0.3)), Rests-HasToWait s d es h.1)

  abbrev IsSettled : ℕ → RequestScheduler → Bool → Type 0
  IsSettled n s true = suc (length s.pending) ≤ n
  IsSettled n s false = All (HasToWait s) s.pending

  settle_round-IsSettled :
      (n : ℕ) (t : RequestScheduler) (before : List PendingEntry)
      (chosen : Option (PendingEntry × List PendingEntry)) (next : Option ℕ)
      → Rests n t before chosen next
      → (let r = settle_round aborted now t before chosen next in IsSettled n r.0 r.1)
  unfolding settle_round dispatch schedule_pump
  settle_round-IsSettled n t [] none none r = tt
  settle_round-IsSettled n t (e ∷ es) none none r = absurd r.0.0.3
  settle_round-IsSettled n t before none (some d) r =
      let nonzero : (d == 0) ≡ false = ground arith in rw nonzero (Rests-HasToWait t d before r.0)
  settle_round-IsSettled n t before (some (e, rest)) next r =
      omega (arith, length-append before rest)

  abbrev IsIdle : RequestScheduler → Type 0
  IsIdle s = All (HasToWait s) s.pending

  IsIdle-of_empty : (s : RequestScheduler) → s.pending ≡ [] → IsIdle s
  IsIdle-of_empty s e = subst (All (HasToWait s)) (sym e) tt

  empty_of_length : (es : List PendingEntry) → length es ≤ 0 → es ≡ []
  empty_of_length [] h = refl
  empty_of_length (e ∷ es) h = absurd (omega arith)

  round-IsSettled :
      (s : RequestScheduler) → (let r = round aborted now s in IsSettled (length s.pending) r.0 r.1)
  unfolding round
  round-IsSettled s =
      let r = scan aborted now [] [] none s.pending s in
      settle_round-IsSettled (length s.pending) r.sched r.before r.chosen r.next_delay
        (scan-Rests s)

  pump_loop-IsIdle :
      (fuel : ℕ) (s : RequestScheduler)
      → length s.pending ≤ fuel
      → IsIdle (pump_loop aborted now fuel s)
  unfolding pump_loop
  pump_loop-IsIdle zero s h = IsIdle-of_empty s (empty_of_length s.pending h)
  pump_loop-IsIdle (suc fuel) s h =
      go s.pending refl (round-IsSettled s) (pump_loop-IsIdle fuel (round aborted now s).0)
    where
      go :
          (l : List PendingEntry)
          → s.pending ≡ l
          → (let r = round aborted now s in IsSettled (length s.pending) r.0 r.1)
          → (length (round aborted now s).0.pending ≤ fuel
              → IsIdle (pump_loop aborted now fuel (round aborted now s).0))
          → IsIdle (pump_loop aborted now (suc fuel) s)
      go [] e i ih = rw (e, pump_loop) (IsIdle-of_empty s e)
      go (x ∷ l) e i ih = elim (Bool-cases (round aborted now s).1) [
        | inl on ↦
            let less : suc (length (round aborted now s).0.pending) ≤ length s.pending =
              rw on at i in
            rw (e, pump_loop, on) (ih (omega arith))
        | inr off ↦ rw (e, pump_loop, off) (rw off at i)
      ]

-- `pump` ends, and serves all that can be served: unless the budget of invalid requests blocks it,
-- each entry that still waits has its client and an accepted token, the gate of its context is
-- blocked, and the timer is set to fire by the time at which that gate opens.
pub pump-IsIdle :
    (aborted : ℕ → Bool) (now : ℕ) (s : RequestScheduler)
    → (invalid_budget_blocked s now).1 ≡ 0
    → (let s' = pump aborted now s in All (HasToWait aborted now s') s'.pending)
unfolding pump
pump-IsIdle aborted now s h =
    rw h (pump_loop-IsIdle aborted now _ (invalid_budget_blocked s now).0 (omega arith))
