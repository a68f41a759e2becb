-- ===== src/Proxy/Scheduler/Induction.antt =====
-- scheduler.ts: the invariant rules for the two loops of `pump`.
use extra.Prelude.{
  ℕ, zero, suc, ◌≡◌, refl, subst, ◌≢◌, ◌==◌, Bool, true, false, inl, inr, Option, none, some, List,
  [], ◌∷◌, ◌++◌, Bool-cases, arith,
}
use extra.Proxy.Gate.{SlidingWindow, blocked_for}
use extra.Proxy.Scheduler.{
  disconnected, rejected, token_rejected, PendingEntry, RequestScheduler, emit, set_gate, Verdict,
  has, abort, quarantine, skip, open_gate, blocked, judge, Scan, scan, min_delay, round, pump_loop,
}

-- The parts of the inner loop's state.
pub record At : Type 0 where
  pub seen : List ℕ
  pub before : List PendingEntry
  pub next : Option ℕ
  pub rest : List PendingEntry
  pub sched : RequestScheduler

abbrev pub at : List ℕ → List PendingEntry → Option ℕ → List PendingEntry → RequestScheduler → At
at seen before next rest s = record {
  seen = seen;
  before = before;
  next = next;
  rest = rest;
  sched = s;
}

-- One round of the inner loop that goes on, by what `judge` says of the entry.
abbrev pub advance : At → PendingEntry → List PendingEntry → Verdict → At
advance a e rest abort = record a {
  rest = rest;
  sched = emit (disconnected e.operation_id) a.sched;
}
advance a e rest quarantine = record a {
  rest = rest;
  sched = emit (rejected e.operation_id token_rejected) a.sched;
}
advance a e rest skip = record a { before = a.before ++ e ∷ []; rest = rest }
advance a e rest (open_gate g) = a
advance a e rest (blocked g d) = record {
  seen = e.context_key ∷ a.seen;
  before = a.before ++ e ∷ [];
  next = min_delay a.next d;
  rest = rest;
  sched = set_gate e.context_key g a.sched;
}

-- The results of the inner loop: at its end, and at a selected entry.
abbrev pub scan_end : At → Scan
scan_end a = record { sched = a.sched; before = a.before; chosen = none; next_delay = a.next }

abbrev pub scan_found : At → PendingEntry → List PendingEntry → SlidingWindow → Scan
scan_found a e rest g = record {
  sched = set_gate e.context_key g a.sched;
  before = a.before;
  chosen = some (e, rest);
  next_delay = a.next;
}

abbrev pub GoesOn : Verdict → Type 0
GoesOn (open_gate g) = ⊥
GoesOn _ = Unit {0}

-- What the tests of `judge` have found.
abbrev pub Passes : (ℕ → Bool) → ℕ → List ℕ → PendingEntry → RequestScheduler → Type 0
Passes aborted now seen e s =
    (aborted e.operation_id ≡ false)
    × (has s.quarantined e.context_key ≡ false)
    × (has seen e.context_key ≡ false)

abbrev pub Says : (ℕ → Bool) → ℕ → List ℕ → PendingEntry → RequestScheduler → Verdict → Type 0
Says aborted now seen e s abort = aborted e.operation_id ≡ true
Says aborted now seen e s quarantine = has s.quarantined e.context_key ≡ true
Says aborted now seen e s skip =
    (aborted e.operation_id ≡ false)
    × (has s.quarantined e.context_key ≡ false)
    × (has seen e.context_key ≡ true)
Says aborted now seen e s (open_gate g) =
    Passes aborted now seen e s
    × (g ≡ (blocked_for (s.gates e.context_key) now).0)
    × ((blocked_for (s.gates e.context_key) now).1 ≡ 0)
Says aborted now seen e s (blocked g d) =
    Passes aborted now seen e s
    × (g ≡ (blocked_for (s.gates e.context_key) now).0)
    × ((blocked_for (s.gates e.context_key) now).1 ≡ d)
    × (d ≢ 0)

module _ (aborted : ℕ → Bool) (now : ℕ) (seen : List ℕ) (e : PendingEntry)
    (s : RequestScheduler) where
  pub judge-Says : Says aborted now seen e s (judge aborted now seen e s)
  unfolding judge
  judge-Says = elim (Bool-cases (aborted e.operation_id)) [
    | inl a ↦ rw a a
    | inr a ↦ elim (Bool-cases (has s.quarantined e.context_key)) [
      | inl q ↦ rw (a, q) q
      | inr q ↦ elim (Bool-cases (has seen e.context_key)) [
        | inl v ↦ rw (a, q, v) (a, q, v)
        | inr v ↦ elim (Bool-cases ((blocked_for (s.gates e.context_key) now).1 == 0)) [
          | inl o ↦ rw (a, q, v, o) ((a, q, v), refl, ground arith)
          | inr o ↦ rw (a, q, v, o) ((a, q, v), refl, refl, ground arith)
        ]
      ]
    ]
  ]

  pub judge_open :
      (g : SlidingWindow)
      → judge aborted now seen e s ≡ open_gate g
      → Says aborted now seen e s (open_gate g)
  judge_open g j = subst (Says aborted now seen e s) j judge-Says

module _ {κ μ} (aborted : ℕ → Bool) (now : ℕ) (I : At → Type κ) (Q : Scan → Type μ)
    (keep : (a : At) (e : PendingEntry) (rest : List PendingEntry)
      → I (record a { rest = e ∷ rest })
      → GoesOn (judge aborted now a.seen e a.sched)
      → I (advance a e rest (judge aborted now a.seen e a.sched)))
    (ends : (a : At) → I (record a { rest = [] }) → Q (scan_end a))
    (finds : (a : At) (e : PendingEntry) (rest : List PendingEntry) (g : SlidingWindow)
      → I (record a { rest = e ∷ rest })
      → judge aborted now a.seen e a.sched ≡ open_gate g
      → Q (scan_found a e rest g)) where
  pub scan_inv :
      (seen : List ℕ) (before : List PendingEntry) (next : Option ℕ) (rest : List PendingEntry)
      (s : RequestScheduler)
      → I (at seen before next rest s)
      → Q (scan aborted now seen before next rest s)
  unfolding scan
  scan_inv seen before next [] s h = ends (at seen before next [] s) h
  scan_inv seen before next (e ∷ rest) s h =
      go (judge aborted now seen e s) refl (keep (at seen before next rest s) e rest h)
        (λ g. finds (at seen before next rest s) e rest g h)
        (λ s' se be ne. scan_inv se be ne rest s')
    where
      go :
          (v : Verdict)
          → judge aborted now seen e s ≡ v
          → (GoesOn (judge aborted now seen e s)
              → I (advance (at seen before next rest s) e rest (judge aborted now seen e s)))
          → ((g : SlidingWindow)
              → judge aborted now seen e s ≡ open_gate g
              → Q (scan_found (at seen before next rest s) e rest g))
          → ((s' : RequestScheduler) (se : List ℕ) (be : List PendingEntry) (ne : Option ℕ)
              → I (at se be ne rest s')
              → Q (scan aborted now se be ne rest s'))
          → Q (scan aborted now seen before next (e ∷ rest) s)
      go abort p k f ih = rw (p, scan) (ih _ _ _ _ (rw p at k tt))
      go quarantine p k f ih = rw (p, scan) (ih _ _ _ _ (rw p at k tt))
      go skip p k f ih = rw (p, scan) (ih _ _ _ _ (rw p at k tt))
      go (open_gate g) p k f ih = rw (p, scan) (f g p)
      go (blocked g d) p k f ih = rw (p, scan) (ih _ _ _ _ (rw p at k tt))

-- The outer loop keeps what a round keeps.
module _ {κ} (aborted : ℕ → Bool) (now : ℕ) (P : RequestScheduler → Type κ)
    (keep : (s : RequestScheduler) → P s → P (round aborted now s).0) where
  pub pump_loop_inv : (fuel : ℕ) (s : RequestScheduler) → P s → P (pump_loop aborted now fuel s)
  unfolding pump_loop
  pump_loop_inv zero s h = h
  pump_loop_inv (suc fuel) s h =
      go s.pending refl (pump_loop_inv fuel (round aborted now s).0 (keep s h))
    where
      go :
          (l : List PendingEntry)
          → s.pending ≡ l
          → P (pump_loop aborted now fuel (round aborted now s).0)
          → P (pump_loop aborted now (suc fuel) s)
      go [] e ih = rw (e, pump_loop) h
      go (x ∷ l) e ih = elim (Bool-cases (round aborted now s).1) [
        | inl goes_on ↦ rw (e, pump_loop, goes_on) ih
        | inr ends ↦ rw (e, pump_loop, ends) (keep s h)
      ]
