-- ===== src/Scaler/Placement/Bounds.antt =====
-- placement.ts: no host gets more workers than it has places for.
pub mod Plans
use extra.Prelude.{
  ℕ, zero, suc, ◌+◌, ◌-◌, ◌≤◌, ◌≡◌, refl, sym, subst, Bool, true, not, ◌||◌, inl, inr, ◌⊎◌, List,
  [], ◌∷◌, ◌++◌, ltb, if◌then◌else◌, Bool-cases, All, arith,
}
use extra.Scaler.Placement.{
  Text, LogicalWorker, ConnectedScalerHost, PlannedAssignment, PlacementStrategy, spread_out, fill,
  PlacementError, Comparison, insert_by, sort_by, assignment, same_text, Loaded, fill_host,
  fill_hosts, with_room, add_load, initial_loads, fill_first, less_loaded, compare_host,
  spread_over, spread, plan_placement,
}
use extra.Scaler.Placement.Distinct.{
  IsNew, IsDistinct, same_text_sym, same_text_refl, sort_by-IsDistinct,
}
use extra.Scaler.Placement.Made.{chosen, plan_placement-IsMade}
use extra.Scaler.Placement.Enough.{
  hosts_of, with_room-IsNew, add_load-hosts_of, initial_loads-hosts_of,
  placement_capacity-IsDistinct, sort_by-All,
}

-- How many workers a plan puts at a host.
abbrev pub planned_at : Text → List PlannedAssignment → ℕ
planned_at id [] = 0
planned_at id (a ∷ p) = (if same_text a.host_id id then 1 else 0) + planned_at id p

planned_at-append :
    (id : Text) (p q : List PlannedAssignment)
    → planned_at id (p ++ q) ≡ planned_at id p + planned_at id q
planned_at-append id [] q = omega arith
planned_at-append id (a ∷ p) q = ground (arith, planned_at-append id p q)

-- The plan puts no more workers at a host than it has places for beside those observed there.
abbrev pub IsWithin : List PlannedAssignment → ConnectedScalerHost → Type 0
IsWithin plan h = planned_at h.host_id plan ≤ h.max_workers - h.observed

fill_host-planned_at :
    (h : ConnectedScalerHost) (n : ℕ) (ws : List LogicalWorker) (id : Text)
    → planned_at id (fill_host h n ws).0 ≤ (if same_text h.host_id id then n else 0)
unfolding fill_host assignment
fill_host-planned_at h zero ws id = omega arith
fill_host-planned_at h (suc n) [] id = omega arith
fill_host-planned_at h (suc n) (w ∷ ws) id = ground (arith, fill_host-planned_at h n ws id)

fill_hosts-cons :
    (ws : List LogicalWorker) (h : ConnectedScalerHost) (hs : List ConnectedScalerHost) (id : Text)
    → planned_at id (fill_hosts ws (h ∷ hs))
      ≤ planned_at id (fill_host h (h.max_workers - h.observed) ws).0
        + planned_at id (fill_hosts (fill_host h (h.max_workers - h.observed) ws).1 hs)
unfolding fill_hosts
fill_hosts-cons ws h hs id = go (fill_host h places ws).1 refl _ (omega arith)
  where
    places : ℕ
    places = h.max_workers - h.observed

    front : List PlannedAssignment
    front = (fill_host h places ws).0

    next : List PlannedAssignment
    next = fill_hosts (fill_host h places ws).1 hs

    go :
        (rest : List LogicalWorker)
        → (fill_host h places ws).1 ≡ rest
        → (m : ℕ) → planned_at id front + planned_at id next ≤ m
        → planned_at id (fill_hosts ws (h ∷ hs)) ≤ m
    go [] e m l = rw (e, fill_hosts) (omega (arith, l))
    go (w ∷ rest) e m l = rw (e, fill_hosts) (omega (arith, l, planned_at-append id front next))

fill_hosts-other :
    (ws : List LogicalWorker) (hs : List ConnectedScalerHost) (id : Text)
    → IsNew id hs
    → planned_at id (fill_hosts ws hs) ≡ 0
unfolding fill_hosts
fill_hosts-other ws [] id n = refl
fill_hosts-other ws (h ∷ hs) id n =
    let places = h.max_workers - h.observed in
    ground (
      arith,
      n.0,
      fill_hosts-cons ws h hs id,
      fill_host-planned_at h places ws id,
      fill_hosts-other (fill_host h places ws).1 hs id n.1,
    )

fill_hosts-tail :
    (ws : List LogicalWorker) (h : ConnectedScalerHost) (hs gs : List ConnectedScalerHost)
    → IsNew h.host_id gs
    → All (IsWithin (fill_hosts (fill_host h (h.max_workers - h.observed) ws).1 hs)) gs
    → All (IsWithin (fill_hosts ws (h ∷ hs))) gs
fill_hosts-tail ws h hs [] n a = tt
fill_hosts-tail ws h hs (g ∷ gs) n a = (
  ground (
    arith,
    n.0,
    a.0,
    same_text_sym h.host_id g.host_id,
    fill_hosts-cons ws h hs g.host_id,
    fill_host-planned_at h (h.max_workers - h.observed) ws g.host_id,
  ),
  fill_hosts-tail ws h hs gs n.1 a.1,
)

pub fill_hosts-IsWithin :
    (ws : List LogicalWorker) (hs : List ConnectedScalerHost)
    → IsDistinct hs
    → All (IsWithin (fill_hosts ws hs)) hs
fill_hosts-IsWithin ws [] d = tt
fill_hosts-IsWithin ws (h ∷ hs) d =
    let places = h.max_workers - h.observed in
    let rest = (fill_host h places ws).1 in
    (
      ground (
        arith,
        fill_hosts-cons ws h hs h.host_id,
        fill_host-planned_at h places ws h.host_id,
        same_text_refl h.host_id,
        fill_hosts-other rest hs h.host_id d.0,
      ),
      fill_hosts-tail ws h hs hs d.0 (fill_hosts-IsWithin rest hs d.1),
    )
