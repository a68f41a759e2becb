-- ===== src/Scaler/Placement/Cover.antt =====
-- placement.ts: a plan has each worker once.
use extra.Prelude.{
  ℕ, zero, suc, ◌+◌, ◌-◌, ◌≤◌, ◌≡◌, refl, sym, ap, ◌∙◌, Bool, inl, inr, ◌⊎◌, none, List, [], ◌∷◌,
  ◌++◌, length, ltb, leb, ◌==◌, if◌then◌else◌, Option-cases, Bool-cases, arith,
}
use extra.Scaler.Placement.{
  Text, LogicalWorker, ConnectedScalerHost, PlannedAssignment, PlacementStrategy, spread_out, fill,
  PlacementError, Comparison, insert_by, sort_by, assignment, bad_worker_ids, has_valid_ids,
  canonical_workers, validate_hosts, sum_capacity, placement_capacity, fill_host, fill_hosts,
  Loaded, with_room, add_load, fill_first, less_loaded, spread_over, spread, plan_placement,
}
use extra.Scaler.Placement.Made.{chosen, plan_placement-IsMade}

abbrev pub planned_ids : List PlannedAssignment → List ℕ
planned_ids [] = []
planned_ids (a ∷ p) = a.worker_id ∷ planned_ids p

abbrev pub ids : List LogicalWorker → List ℕ
ids [] = []
ids (w ∷ ws) = w.worker_id ∷ ids ws

planned_ids-append :
    (p q : List PlannedAssignment) → planned_ids (p ++ q) ≡ planned_ids p ++ planned_ids q
planned_ids-append [] q = refl
planned_ids-append (a ∷ p) q = ap (λ l. a.worker_id ∷ l) (planned_ids-append p q)

fill_host-ids :
    (h : ConnectedScalerHost) (n : ℕ) (ws : List LogicalWorker)
    → planned_ids (fill_host h n ws).0 ++ ids (fill_host h n ws).1 ≡ ids ws
unfolding fill_host assignment
fill_host-ids h zero ws = refl
fill_host-ids h (suc n) [] = refl
fill_host-ids h (suc n) (w ∷ ws) = ap (λ l. w.worker_id ∷ l) (fill_host-ids h n ws)

fill_host-length :
    (h : ConnectedScalerHost) (n : ℕ) (ws : List LogicalWorker)
    → length (fill_host h n ws).1 ≡ length ws - n
unfolding fill_host
fill_host-length h zero ws = omega arith
fill_host-length h (suc n) [] = omega arith
fill_host-length h (suc n) (w ∷ ws) = omega (arith, fill_host-length h n ws)

abbrev pub room : List ConnectedScalerHost → ℕ
room [] = 0
room (h ∷ hs) = (h.max_workers - h.observed) + room hs

append_nil : (l : List ℕ) → l ++ [] ≡ l
append_nil [] = refl
append_nil (x ∷ l) = ap (λ m. x ∷ m) (append_nil l)

fill_hosts-ids :
    (ws : List LogicalWorker) (hs : List ConnectedScalerHost)
    → length ws ≤ room hs
    → planned_ids (fill_hosts ws hs) ≡ ids ws
unfolding fill_hosts
fill_hosts-ids [] [] n = refl
fill_hosts-ids (w ∷ ws) [] n = ground arith
fill_hosts-ids ws (h ∷ hs) n =
    go (fill_host h places ws).1 refl
      (fill_hosts-ids (fill_host h places ws).1 hs (omega (arith, n, fill_host-length h places ws)))
  where
    places : ℕ
    places = h.max_workers - h.observed

    front : List ℕ
    front = planned_ids (fill_host h places ws).0

    go :
        (rest : List LogicalWorker)
        → (fill_host h places ws).1 ≡ rest
        → planned_ids (fill_hosts (fill_host h places ws).1 hs) ≡ ids (fill_host h places ws).1
        → planned_ids (fill_hosts ws (h ∷ hs)) ≡ ids ws
    go [] e ih =
        rw (e, fill_hosts)
          (sym (append_nil front) ∙ (ap (λ r. front ++ ids r) (sym e) ∙ fill_host-ids h places ws))
    go (w ∷ rest) e ih =
        rw (e, fill_hosts)
          (planned_ids-append (fill_host h places ws).0 (fill_hosts (fill_host h places ws).1 hs)
            ∙ (ap (λ l. front ++ l) ih ∙ fill_host-ids h places ws))

insert_by-room :
    (f : ConnectedScalerHost → ConnectedScalerHost → Bool) (h : ConnectedScalerHost)
    (hs : List ConnectedScalerHost)
    → room (insert_by f h hs) ≡ room (h ∷ hs)
unfolding insert_by
insert_by-room f h [] = refl
insert_by-room f h (g ∷ hs) = ground (arith, insert_by-room f h hs)

pub sort_by-room :
    (f : ConnectedScalerHost → ConnectedScalerHost → Bool) (hs : List ConnectedScalerHost)
    → room (sort_by f hs) ≡ room hs
unfolding sort_by
sort_by-room f [] = refl
sort_by-room f (h ∷ hs) = omega (arith, insert_by-room f h (sort_by f hs), sort_by-room f hs)

sum_capacity-room :
    (t n : ℕ) (hs : List ConnectedScalerHost) → sum_capacity t hs ≡ inr n → n ≡ t + room hs
unfolding sum_capacity
sum_capacity-room t n [] e = ground arith
sum_capacity-room t n (h ∷ hs) e =
    elim (Bool-cases (ltb 9007199254740991 (t + (h.max_workers - h.observed)))) [
      | inl big ↦ absurd (refused (rw (big, sum_capacity) at e))
      | inr small ↦ omega (
        arith,
        sum_capacity-room (t + (h.max_workers - h.observed)) n hs (rw (small, sum_capacity) at e),
      )
    ]
  where
    refused : {x : PlacementError} → inl x ≡ inr n → ⊥
    refused p = cc

abbrev pub count : ℕ → List ℕ → ℕ
count i [] = 0
count i (x ∷ l) = (if x == i then 1 else 0) + count i l

insert_by-count :
    (f : LogicalWorker → LogicalWorker → Bool) (i : ℕ) (w : LogicalWorker) (ws : List LogicalWorker)
    → count i (ids (insert_by f w ws)) ≡ count i (ids (w ∷ ws))
unfolding insert_by
insert_by-count f i w [] = refl
insert_by-count f i w (v ∷ ws) = ground (arith, insert_by-count f i w ws)

sort_by-count :
    (f : LogicalWorker → LogicalWorker → Bool) (i : ℕ) (ws : List LogicalWorker)
    → count i (ids (sort_by f ws)) ≡ count i (ids ws)
unfolding sort_by
sort_by-count f i [] = refl
sort_by-count f i (w ∷ ws) =
    omega (arith, insert_by-count f i w (sort_by f ws), sort_by-count f i ws)

abbrev worker_ids_of : PlacementError ⊎ List LogicalWorker → List ℕ
worker_ids_of (inl x) = []
worker_ids_of (inr ws) = ids ws

abbrev planned_ids_of : PlacementError ⊎ List PlannedAssignment → List ℕ
planned_ids_of (inl x) = []
planned_ids_of (inr p) = planned_ids p

canonical_workers-count :
    (workers ws : List LogicalWorker) (i : ℕ)
    → canonical_workers workers ≡ inr ws
    → count i (ids ws) ≡ count i (ids workers)
unfolding canonical_workers
canonical_workers-count [] ws i e = ground arith
canonical_workers-count (w ∷ workers) ws i e =
    let f : LogicalWorker → LogicalWorker → Bool = λ a b. leb a.worker_id b.worker_id in
    elim (Bool-cases (has_valid_ids none (sort_by f (w ∷ workers)))) [
      | inr bad ↦ absurd (refused (rw (bad, canonical_workers) at e))
      | inl good ↦
          ap (λ r. count i (worker_ids_of r)) (sym (rw (good, canonical_workers) at e))
          ∙ sort_by-count f i (w ∷ workers)
    ]
  where
    refused : inl bad_worker_ids ≡ inr ws → ⊥
    refused p = cc

module _ (locale_compare : Text → Text → Comparison) where
  spread_over-ids :
      (ws : List LogicalWorker) (loads : List Loaded) (plan : List PlannedAssignment)
      → spread_over locale_compare ws loads ≡ inr plan
      → planned_ids plan ≡ ids ws
  unfolding spread_over assignment
  spread_over-ids [] loads plan e = sym (ap planned_ids_of e)
  spread_over-ids (w ∷ ws) loads plan e =
      go (sort_by (less_loaded locale_compare) (with_room loads)) refl
        (λ ls p q. spread_over-ids ws ls p q)
    where
      refused : {x : PlacementError} → inl x ≡ inr plan → ⊥
      refused p = cc

      go :
          (l : List Loaded)
          → sort_by (less_loaded locale_compare) (with_room loads) ≡ l
          → ((ls : List Loaded) (p : List PlannedAssignment)
              → spread_over locale_compare ws ls ≡ inr p
              → planned_ids p ≡ ids ws)
          → planned_ids plan ≡ ids (w ∷ ws)
      go [] s ih = absurd (refused (rw (s, spread_over) at e))
      go (l ∷ ls) s ih = placed (spread_over locale_compare ws (add_load l.host.host_id loads)) refl
        where
          placed :
              (r : PlacementError ⊎ List PlannedAssignment)
              → spread_over locale_compare ws (add_load l.host.host_id loads) ≡ r
              → planned_ids plan ≡ ids (w ∷ ws)
          placed (inl x) q = absurd (refused (rw (s, q, spread_over) at e))
          placed (inr p) q =
              sym (ap planned_ids_of (rw (s, q, spread_over) at e))
              ∙ ap (λ m. w.worker_id ∷ m) (ih (add_load l.host.host_id loads) p q)

  fill_first-ids :
      (ws : List LogicalWorker) (hosts : List ConnectedScalerHost)
      → length ws ≤ room hosts
      → planned_ids (fill_first locale_compare ws hosts) ≡ ids ws
  unfolding fill_first
  fill_first-ids ws hosts n = fill_hosts-ids ws _ (omega (arith, n, sort_by-room _ hosts))

  pub placement_capacity-room :
      (hosts : List ConnectedScalerHost) (n : ℕ) → placement_capacity hosts ≡ inr n → n ≡ room hosts
  unfolding placement_capacity
  placement_capacity-room hosts n e = elim (Option-cases (validate_hosts [] hosts)) [
    | inl valid ↦ omega (arith, sum_capacity-room 0 n hosts (rw (valid, placement_capacity) at e))
    | inr (x, wrong) ↦ absurd (refused x (rw (wrong, placement_capacity) at e))
  ]
    where
      refused : (x : PlacementError) → inl x ≡ inr n → ⊥
      refused x p = cc

  chosen-ids :
      (ws : List LogicalWorker) (hosts : List ConnectedScalerHost) (s : PlacementStrategy)
      (plan : List PlannedAssignment)
      → length ws ≤ room hosts
      → chosen locale_compare ws hosts s ≡ inr plan
      → planned_ids plan ≡ ids ws
  unfolding spread
  chosen-ids ws hosts fill plan n e = sym (ap planned_ids_of e) ∙ fill_first-ids ws hosts n
  chosen-ids ws hosts spread_out plan n e = spread_over-ids ws _ plan e

  -- In every plan that is made, by either strategy, each worker id stands as often as among the
  -- workers given: no worker is left out, and none is placed once more than it was given.
  pub plan_placement-count :
      (workers : List LogicalWorker) (hosts : List ConnectedScalerHost) (s : PlacementStrategy)
      (plan : List PlannedAssignment)
      → plan_placement locale_compare workers hosts s ≡ inr plan
      → (i : ℕ) → count i (planned_ids plan) ≡ count i (ids workers)
  plan_placement-count workers hosts s plan e i =
      let m = plan_placement-IsMade locale_compare workers hosts s plan e in
      let fits : length m.sorted ≤ m.capacity = ground (arith, m.fits) in
      ap (count i) (
        chosen-ids m.sorted hosts s plan
          (omega (arith, fits, placement_capacity-room hosts m.capacity m.counted)) m.made)
      ∙ canonical_workers-count workers m.sorted i m.canonical
