-- ===== src/Scaler/Placement/Tests.antt =====
-- placement.ts at concrete inputs.
use extra.Prelude.{ℕ, ◌≡◌, refl, inr, List, [], ◌∷◌, All, arith}
use extra.Scaler.Placement.{
  Text, LogicalWorker, ConnectedScalerHost, PlannedAssignment, spread_out, Comparison, same,
  insert_by, sort_by, assignment, canonical_workers, has_valid_ids, validate_hosts, same_text,
  sum_capacity, placement_capacity, with_room, add_load, less_loaded, compare_host, spread_over,
  spread, plan_placement,
}
use extra.Scaler.Placement.Enough.{IsPlan, plan_placement-IsPlan}
use extra.Scaler.Placement.Bounds.{IsWithin}
use extra.Scaler.Placement.Bounds.Plans.{plan_placement-IsWithin}
use extra.Scaler.Placement.Cover.{planned_ids, ids, count, plan_placement-count}

-- No comparison tells ids apart.
abbrev undecided : Text → Text → Comparison
undecided a b = same

abbrev host_of : ℕ → ℕ → ConnectedScalerHost
host_of id places = record {
  host_id = id ∷ [];
  boot_id = id ∷ [];
  max_workers = places;
  connected_at = id;
  observed = 0;
}

abbrev two_hosts : List ConnectedScalerHost
two_hosts = host_of 65 1 ∷ host_of 66 2 ∷ []

abbrev three_workers : List LogicalWorker
three_workers = record { worker_id = 2 } ∷ record { worker_id = 0 } ∷ record { worker_id = 1 } ∷ []

abbrev placed : ℕ → ℕ → PlannedAssignment
placed worker host = record { worker_id = worker; host_id = host ∷ []; boot_id = host ∷ [] }

-- A host with more places takes the second worker too, since its share is smaller.
spread_plan :
    plan_placement undecided three_workers two_hosts spread_out
    ≡ inr (placed 0 65 ∷ placed 1 66 ∷ placed 2 66 ∷ [])
unfolding plan_placement canonical_workers sort_by insert_by has_valid_ids placement_capacity
    validate_hosts same_text sum_capacity spread spread_over with_room add_load less_loaded
    compare_host assignment
spread_plan = refl

plan_placement-count_example :
    count 2 (planned_ids (placed 0 65 ∷ placed 1 66 ∷ placed 2 66 ∷ []))
    ≡ count 2 (ids three_workers)
plan_placement-count_example =
    plan_placement-count undecided three_workers two_hosts spread_out
      (placed 0 65 ∷ placed 1 66 ∷ placed 2 66 ∷ []) spread_plan 2

abbrev sorted_workers : List LogicalWorker
sorted_workers = record { worker_id = 0 } ∷ record { worker_id = 1 } ∷ record { worker_id = 2 } ∷ []

three_workers_sorted : canonical_workers three_workers ≡ inr sorted_workers
unfolding canonical_workers sort_by insert_by has_valid_ids
three_workers_sorted = refl

two_hosts_capacity : placement_capacity two_hosts ≡ inr 3
unfolding placement_capacity validate_hosts same_text sum_capacity
two_hosts_capacity = refl

plan_placement-IsPlan_example :
    IsPlan undecided (plan_placement undecided three_workers two_hosts spread_out)
plan_placement-IsPlan_example =
    plan_placement-IsPlan undecided three_workers sorted_workers two_hosts 3 spread_out
      three_workers_sorted two_hosts_capacity (omega arith)

plan_placement-IsWithin_example :
    All (IsWithin (placed 0 65 ∷ placed 1 66 ∷ placed 2 66 ∷ [])) two_hosts
plan_placement-IsWithin_example =
    plan_placement-IsWithin undecided three_workers two_hosts spread_out
      (placed 0 65 ∷ placed 1 66 ∷ placed 2 66 ∷ []) spread_plan
