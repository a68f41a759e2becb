-- ===== src/Proxy/Scheduler/Order.antt =====
-- scheduler.ts: requests of one context are dispatched in the order of their submission.
use extra.Prelude.{
  ℕ, ◌≡◌, refl, sym, ap, ◌∙◌, Bool, true, false, not, ◌&&◌, inl, inr, Option, none, some, List, [],
  ◌∷◌, ◌++◌, ◌==◌, if◌then◌else◌, Bool-cases, length, arith,
}
use mathlib.Core.List.{append_assoc, append-nil}
use extra.Proxy.Scheduler.{
  Event, rejected, disconnected, dispatched, notified, PendingEntry, RequestScheduler, dispatch,
  Verdict, abort, quarantine, skip, open_gate, blocked, Scan, scan, settle_round, round, pump,
  schedule_pump, invalid_budget_blocked, has,
}
use extra.Proxy.Scheduler.Induction.{
  At, GoesOn, advance, Says, judge-Says, judge_open, scan_inv, pump_loop_inv,
}

-- The operations of context `key` that were handed to `run`, the earliest first.
abbrev pub sent : ℕ → List Event → List ℕ
sent key [] = []
sent key (dispatched i k t ∷ es) = if k == key then sent key es ++ i ∷ [] else sent key es
sent key (rejected i c ∷ es) = sent key es
sent key (disconnected i ∷ es) = sent key es
sent key (notified ∷ es) = sent key es

module _ (aborted : ℕ → Bool) (key : ℕ) where
  -- The waiting operations of context `key` whose client is still there, in queue order.
  abbrev pub waiting : List PendingEntry → List ℕ
  waiting [] = []
  waiting (e ∷ es) =
      if e.context_key == key && not (aborted e.operation_id)
      then e.operation_id ∷ waiting es
      else waiting es

  waiting-append : (xs ys : List PendingEntry) → waiting (xs ++ ys) ≡ waiting xs ++ waiting ys
  waiting-append [] ys = refl
  waiting-append (x ∷ xs) ys = ground (arith, waiting-append xs ys)

  -- Moving an entry from the rest of the queue to the part behind the loop.
  waiting-shift :
      (l : List ℕ) (before : List PendingEntry) (e : PendingEntry) (rest : List PendingEntry)
      → l ++ waiting (before ++ e ∷ []) ++ waiting rest ≡ l ++ waiting before ++ waiting (e ∷ rest)
  waiting-shift l before e rest =
      rw (waiting-append before (e ∷ []), waiting-append (e ∷ []) rest) (simp append_assoc)

module _ (aborted : ℕ → Bool) (now key : ℕ) (line : List ℕ) where
  record InLine (a : At) : Type 0 where
    valid : has a.sched.quarantined key ≡ false
    order :
        sent key a.sched.out ++ waiting aborted key a.before ++ waiting aborted key a.rest ≡ line
    unseen : has a.seen key ≡ false → waiting aborted key a.before ≡ []

  advance-InLine :
      (a : At) (e : PendingEntry) (rest : List PendingEntry) (v : Verdict)
      → InLine (record a { rest = e ∷ rest })
      → Says aborted now a.seen e a.sched v
      → GoesOn v
      → InLine (advance a e rest v)
  advance-InLine a e rest abort f j g = ground arith
  advance-InLine a e rest quarantine f j g = ground arith
  advance-InLine a e rest skip f j g = record {
    valid = f.valid;
    order = waiting-shift aborted key (sent key a.sched.out) a.before e rest ∙ f.order;
    unseen = λ u. ground (arith, f.unseen u, waiting-append aborted key a.before (e ∷ []));
  }
  advance-InLine a e rest (open_gate x) f j g = absurd g
  advance-InLine a e rest (blocked x d) f j g = record {
    valid = f.valid;
    order = waiting-shift aborted key (sent key a.sched.out) a.before e rest ∙ f.order;
    unseen = λ u. ground (arith, f.unseen, waiting-append aborted key a.before (e ∷ []));
  }

  -- The selected entry, if it is of this context, is the first of it in the queue.
  abbrev ChosenOrder :
      RequestScheduler → List PendingEntry → Option (PendingEntry × List PendingEntry) → Type 0
  ChosenOrder s before none = sent key s.out ++ waiting aborted key before ≡ line
  ChosenOrder s before (some (e, rest)) =
      (sent key s.out ++ waiting aborted key before ++ waiting aborted key (e ∷ rest) ≡ line)
      × (aborted e.operation_id ≡ false)
      × ((e.context_key == key) ≡ true → waiting aborted key before ≡ [])

  record Selected (r : Scan) : Type 0 where
    valid : has r.sched.quarantined key ≡ false
    order : ChosenOrder r.sched r.before r.chosen

  scan-Selected :
      (s : RequestScheduler)
      → has s.quarantined key ≡ false
      → sent key s.out ++ waiting aborted key s.pending ≡ line
      → Selected (scan aborted now [] [] none s.pending s)
  scan-Selected s q h =
      scan_inv aborted now InLine Selected
        (λ a e rest f g. advance-InLine a e rest _ f (judge-Says aborted now a.seen e a.sched) g)
        (λ a f. record { valid = f.valid; order = sym (append-nil _) ∙ f.order })
        (λ a e rest g f j.
          let says = judge_open aborted now a.seen e a.sched g j in
          record {
            valid = f.valid;
            order = (f.order, says.0.0, λ k. f.unseen (ground (arith, says.0.2)));
          })
        [] [] none s.pending s
        (record {
          valid = q;
          order = ap (λ l. l ++ waiting aborted key s.pending) (append-nil (sent key s.out)) ∙ h;
          unseen = λ _. refl;
        })

  -- The state between two rounds.
  record Queued (s : RequestScheduler) : Type 0 where
    valid : has s.quarantined key ≡ false
    order : sent key s.out ++ waiting aborted key s.pending ≡ line

  settle_round-Queued :
      (t : RequestScheduler) (before : List PendingEntry)
      (chosen : Option (PendingEntry × List PendingEntry)) (next : Option ℕ)
      → has t.quarantined key ≡ false
      → ChosenOrder t before chosen
      → Queued (settle_round aborted now t before chosen next).0
  unfolding settle_round dispatch schedule_pump
  settle_round-Queued t before none none q h = ground arith
  settle_round-Queued t before none (some d) q h = ground arith
  settle_round-Queued t before (some (e, rest)) next q h =
      elim (Bool-cases (e.context_key == key)) [
        | inl mine ↦ record {
          valid = q;
          order =
              rw (mine, waiting-append aborted key before rest, h.2 mine)
                (sym (order_here mine) ∙ h.0);
        }
        | inr other ↦ record {
          valid = q;
          order =
              rw (other, waiting-append aborted key before rest)
                (sym (append_assoc (sent key t.out) _ _) ∙ order_there other);
        }
      ]
    where
      order_here :
          (e.context_key == key) ≡ true
          → sent key t.out ++ waiting aborted key before ++ waiting aborted key (e ∷ rest)
            ≡ (sent key t.out ++ e.operation_id ∷ []) ++ waiting aborted key rest
      order_here mine = rw (h.2 mine, mine, h.1) (simp (append_assoc, append-nil))

      order_there :
          (e.context_key == key) ≡ false
          → sent key t.out ++ waiting aborted key before ++ waiting aborted key rest ≡ line
      order_there other = rw other at h.0

  round-Queued : (s : RequestScheduler) → Queued s → Queued (round aborted now s).0
  unfolding round
  round-Queued s h =
      let r = scan aborted now [] [] none s.pending s in
      let f = scan-Selected s h.valid h.order in
      settle_round-Queued r.sched r.before r.chosen r.next_delay f.valid f.order

-- First in, first out for each context that is not quarantined: the operations that `pump` hands to
-- `run`, behind those handed over before it and before those that still wait, stand in the order of
-- the queue. Operations whose client has gone are left out.
pub pump-order :
    (aborted : ℕ → Bool) (now key : ℕ) (s : RequestScheduler)
    → has s.quarantined key ≡ false
    → let s' = pump aborted now s in
      sent key s'.out ++ waiting aborted key s'.pending
      ≡ sent key s.out ++ waiting aborted key s.pending
unfolding pump invalid_budget_blocked schedule_pump
pump-order aborted now key s q =
    let line = sent key s.out ++ waiting aborted key s.pending in
    ground (
      arith,
      pump_loop_inv aborted now (Queued aborted now key line) (round-Queued aborted now key line)
          (length s.pending) (invalid_budget_blocked s now).0 (record { valid = q; order = refl }),
    )
