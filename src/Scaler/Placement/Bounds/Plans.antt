-- ===== src/Scaler/Placement/Bounds/Plans.antt =====
-- placement.ts: no host gets more workers than it has places for, in any plan.
use extra.Prelude.{
  ◌-◌, ◌≤◌, ◌≡◌, refl, sym, subst, Bool, true, not, ◌||◌, inl, inr, ◌⊎◌, List, [], ◌∷◌, ltb,
  Bool-cases, All, arith,
}
use extra.Scaler.Placement.{
  Text, LogicalWorker, ConnectedScalerHost, PlannedAssignment, PlacementStrategy, spread_out, fill,
  PlacementError, Comparison, insert_by, sort_by, assignment, same_text, Loaded, with_room,
  add_load, initial_loads, fill_first, less_loaded, compare_host, spread_over, spread,
  plan_placement,
}
use extra.Scaler.Placement.Distinct.{IsNew, IsDistinct, same_text_sym, sort_by-IsDistinct}
use extra.Scaler.Placement.Made.{chosen, plan_placement-IsMade}
use extra.Scaler.Placement.Enough.{
  hosts_of, with_room-IsNew, add_load-hosts_of, initial_loads-hosts_of,
  placement_capacity-IsDistinct, sort_by-All,
}
use extra.Scaler.Placement.Bounds.{fill_hosts-IsWithin, planned_at, IsWithin}

-- Each entry with the id of `m` has a place left.
abbrev HasRoom : List Loaded → Loaded → Type 0
HasRoom ls m =
    All
      (λ l. (not (same_text m.host.host_id l.host.host_id) || ltb l.load l.host.max_workers) ≡ true)
      ls

HasRoom-other : (m : Loaded) (ls : List Loaded) → IsNew m.host.host_id (hosts_of ls) → HasRoom ls m
HasRoom-other m [] n = tt
HasRoom-other m (l ∷ ls) n =
    (ground (arith, n.0, same_text_sym m.host.host_id l.host.host_id), HasRoom-other m ls n.1)

HasRoom-tail :
    (l : Loaded) (ls ms : List Loaded)
    → IsNew l.host.host_id (hosts_of ms)
    → All (HasRoom ls) ms
    → All (HasRoom (l ∷ ls)) ms
HasRoom-tail l ls [] n a = tt
HasRoom-tail l ls (m ∷ ms) n a = ((ground (arith, n.0), a.0), HasRoom-tail l ls ms n.1 a.1)

with_room-HasRoom : (ls : List Loaded) → IsDistinct (hosts_of ls) → All (HasRoom ls) (with_room ls)
unfolding with_room
with_room-HasRoom [] d = tt
with_room-HasRoom (l ∷ ls) d =
    let rest =
      HasRoom-tail l ls (with_room ls) (with_room-IsNew l.host.host_id ls d.0)
        (with_room-HasRoom ls d.1) in
    elim (Bool-cases (ltb l.load l.host.max_workers)) [
      | inl e ↦ rw (e, with_room) ((ground (arith, e), HasRoom-other l ls d.0), rest)
      | inr e ↦ rw (e, with_room) rest
    ]

-- The same bound, with the load for the observed workers.
abbrev HoldsWithin : List PlannedAssignment → Loaded → Type 0
HoldsWithin plan l = planned_at l.host.host_id plan ≤ l.host.max_workers - l.load

add_load-HoldsWithin :
    (w : LogicalWorker) (m : Loaded) (plan : List PlannedAssignment) (ls : List Loaded)
    → HasRoom ls m
    → All (HoldsWithin plan) (add_load m.host.host_id ls)
    → All (HoldsWithin (assignment w m.host ∷ plan)) ls
unfolding add_load assignment
add_load-HoldsWithin w m plan [] r a = tt
add_load-HoldsWithin w m plan (l ∷ ls) r a =
    elim (Bool-cases (same_text l.host.host_id m.host.host_id)) [
      | inl e ↦
          let b = rw (e, add_load) at a in
          (
            ground (arith, e, r.0, b.0, same_text_sym l.host.host_id m.host.host_id),
            add_load-HoldsWithin w m plan ls r.1 b.1,
          )
      | inr e ↦
          let b = rw (e, add_load) at a in
          (
            ground (arith, e, b.0, same_text_sym l.host.host_id m.host.host_id),
            add_load-HoldsWithin w m plan ls r.1 b.1,
          )
    ]

module _ (f : ConnectedScalerHost → ConnectedScalerHost → Bool)
    (P : ConnectedScalerHost → Type 0) where
  insert_by-back :
      (h : ConnectedScalerHost) (hs : List ConnectedScalerHost)
      → All P (insert_by f h hs)
      → All P (h ∷ hs)
  unfolding insert_by
  insert_by-back h [] a = a
  insert_by-back h (g ∷ hs) a = elim (Bool-cases (f h g)) [
    | inl b ↦ rw (b, insert_by) at a
    | inr b ↦ let c = rw (b, insert_by) at a in let r = insert_by-back h hs c.1 in (r.0, (c.0, r.1))
  ]

  sort_by-back : (hs : List ConnectedScalerHost) → All P (sort_by f hs) → All P hs
  unfolding sort_by
  sort_by-back [] a = tt
  sort_by-back (h ∷ hs) a = let r = insert_by-back h (sort_by f hs) a in (r.0, sort_by-back hs r.1)

module _ (locale_compare : Text → Text → Comparison) where
  initial_loads-back :
      (plan : List PlannedAssignment) (hs : List ConnectedScalerHost)
      → All (HoldsWithin plan) (initial_loads locale_compare hs)
      → All (IsWithin plan) hs
  initial_loads-back plan [] a = tt
  initial_loads-back plan (h ∷ hs) a = (a.0, initial_loads-back plan hs a.1)

  nothing-HoldsWithin : (ls : List Loaded) → All (HoldsWithin []) ls
  nothing-HoldsWithin [] = tt
  nothing-HoldsWithin (l ∷ ls) = (omega arith, nothing-HoldsWithin ls)

  abbrev plan_of : PlacementError ⊎ List PlannedAssignment → List PlannedAssignment
  plan_of (inl x) = []
  plan_of (inr p) = p

  spread_over-HoldsWithin :
      (ws : List LogicalWorker) (loads : List Loaded)
      → IsDistinct (hosts_of loads)
      → All (HoldsWithin (plan_of (spread_over locale_compare ws loads))) loads
  unfolding spread_over
  spread_over-HoldsWithin [] loads d = nothing-HoldsWithin loads
  spread_over-HoldsWithin (w ∷ ws) loads d =
      go (sort_by (less_loaded locale_compare) (with_room loads)) refl
        (sort_by-All (less_loaded locale_compare) (HasRoom loads) (with_room loads)
          (with_room-HasRoom loads d))
        (λ l.
          spread_over-HoldsWithin ws (add_load l.host.host_id loads)
            (subst IsDistinct (sym (add_load-hosts_of l.host.host_id loads)) d))
    where
      go :
          (ls : List Loaded)
          → sort_by (less_loaded locale_compare) (with_room loads) ≡ ls
          → All (HasRoom loads) (sort_by (less_loaded locale_compare) (with_room loads))
          → ((l : Loaded)
              → All
                  (HoldsWithin
                    (plan_of (spread_over locale_compare ws (add_load l.host.host_id loads))))
                  (add_load l.host.host_id loads))
          → All (HoldsWithin (plan_of (spread_over locale_compare (w ∷ ws) loads))) loads
      go [] e r next = rw (e, spread_over) (nothing-HoldsWithin loads)
      go (l ∷ ls) e r next =
          placed (spread_over locale_compare ws (add_load l.host.host_id loads)) refl
        where
          placed :
              (q : PlacementError ⊎ List PlannedAssignment)
              → spread_over locale_compare ws (add_load l.host.host_id loads) ≡ q
              → All (HoldsWithin (plan_of (spread_over locale_compare (w ∷ ws) loads))) loads
          placed (inl x) q = rw (e, q, spread_over) (nothing-HoldsWithin loads)
          placed (inr p) q =
              rw (e, q, spread_over)
                (add_load-HoldsWithin w l p loads (subst (All (HasRoom loads)) e r).0 (
                  subst (λ x. All (HoldsWithin (plan_of x)) (add_load l.host.host_id loads)) q
                    (next l)))

  chosen-IsWithin :
      (ws : List LogicalWorker) (hosts : List ConnectedScalerHost) (s : PlacementStrategy)
      → IsDistinct hosts
      → All (IsWithin (plan_of (chosen locale_compare ws hosts s))) hosts
  unfolding fill_first spread
  chosen-IsWithin ws hosts fill d =
      sort_by-back _ _ hosts (fill_hosts-IsWithin ws _ (sort_by-IsDistinct _ hosts d))
  chosen-IsWithin ws hosts spread_out d =
      let f = compare_host locale_compare in
      sort_by-back f _ hosts (
        initial_loads-back _ (sort_by f hosts) (
          spread_over-HoldsWithin ws (initial_loads locale_compare (sort_by f hosts)) (
            subst IsDistinct (sym (initial_loads-hosts_of locale_compare (sort_by f hosts)))
              (sort_by-IsDistinct f hosts d))))

  -- In a plan that is made, by either strategy, no host is given more workers than it has places
  -- left beside the workers observed there.
  pub plan_placement-IsWithin :
      (workers : List LogicalWorker) (hosts : List ConnectedScalerHost) (s : PlacementStrategy)
      (plan : List PlannedAssignment)
      → plan_placement locale_compare workers hosts s ≡ inr plan
      → All (IsWithin plan) hosts
  plan_placement-IsWithin workers hosts s plan e =
      let m = plan_placement-IsMade locale_compare workers hosts s plan e in
      subst (λ r. All (IsWithin (plan_of r)) hosts) m.made
        (chosen-IsWithin m.sorted hosts s
          (placement_capacity-IsDistinct locale_compare hosts m.capacity m.counted))
