-- ===== src/Scaler/Placement/Made.antt =====
-- placement.ts: what a plan that is made has passed.
use extra.Prelude.{ℕ, ◌≡◌, refl, false, inl, inr, ◌⊎◌, List, length, ltb, Bool-cases}
use extra.Scaler.Placement.{
  Text, LogicalWorker, ConnectedScalerHost, PlannedAssignment, PlacementStrategy, spread_out, fill,
  PlacementError, insufficient_capacity, Comparison, canonical_workers, placement_capacity,
  fill_first, spread, plan_placement,
}

module _ (locale_compare : Text → Text → Comparison) where
  -- The plan of a strategy.
  abbrev pub chosen :
      List LogicalWorker
      → List ConnectedScalerHost
      → PlacementStrategy
      → PlacementError ⊎ List PlannedAssignment
  chosen ws hosts fill = inr (fill_first locale_compare ws hosts)
  chosen ws hosts spread_out = spread locale_compare ws hosts

  pub record IsMade (workers : List LogicalWorker) (hosts : List ConnectedScalerHost)
      (s : PlacementStrategy) (plan : List PlannedAssignment) : Type 0 where
    pub sorted : List LogicalWorker
    pub capacity : ℕ
    pub canonical : canonical_workers workers ≡ inr sorted
    pub counted : placement_capacity hosts ≡ inr capacity
    pub fits : ltb capacity (length sorted) ≡ false
    pub made : chosen sorted hosts s ≡ inr plan

  pub plan_placement-IsMade :
      (workers : List LogicalWorker) (hosts : List ConnectedScalerHost) (s : PlacementStrategy)
      (plan : List PlannedAssignment)
      → plan_placement locale_compare workers hosts s ≡ inr plan
      → IsMade workers hosts s plan
  unfolding plan_placement
  plan_placement-IsMade workers hosts s plan e =
      go (canonical_workers workers) refl (placement_capacity hosts) refl
    where
      refused : (x : PlacementError) → inl x ≡ inr plan → ⊥
      refused x p = cc

      by_strategy :
          (ws : List LogicalWorker) (r : PlacementStrategy)
          → (elim r [
            | fill ↦ inr (fill_first locale_compare ws hosts)
            | spread_out ↦ spread locale_compare ws hosts
          ])
            ≡ inr plan
          → chosen ws hosts r ≡ inr plan
      by_strategy ws fill p = p
      by_strategy ws spread_out p = p

      go :
          (c : PlacementError ⊎ List LogicalWorker)
          → canonical_workers workers ≡ c
          → (r : PlacementError ⊎ ℕ) → placement_capacity hosts ≡ r
          → IsMade workers hosts s plan
      go (inl x) p r q = absurd (refused x (rw (p, plan_placement) at e))
      go (inr ws) p (inl x) q = absurd (refused x (rw (p, q, plan_placement) at e))
      go (inr ws) p (inr n) q = elim (Bool-cases (ltb n (length ws))) [
        | inl few ↦ absurd (refused insufficient_capacity (rw (p, q, few, plan_placement) at e))
        | inr enough ↦ record {
          sorted = ws;
          capacity = n;
          canonical = p;
          counted = q;
          fits = enough;
          made = by_strategy ws s (rw (p, q, enough, plan_placement) at e);
        }
      ]
