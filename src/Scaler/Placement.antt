-- ===== src/Scaler/Placement.antt =====
-- packages/scaler/src/placement.ts: the plan of a placement. Ids of workers are natural numbers, and
-- others are refused by the source. What `localeCompare` answers is a parameter, and the loads of two
-- hosts are compared as fractions. A host has as many observed workers as `observed` tells. The map
-- of loads is a list of hosts with their loads, whose ids differ after `validateHosts`.
pub mod Cover
pub mod Distinct
pub mod Enough
pub mod Bounds
pub mod Made
mod Tests
use extra.Prelude.{
  ℕ, zero, suc, ◌+◌, ◌-◌, ◌*◌, Bool, true, false, not, ◌&&◌, ◌||◌, inl, inr, ◌⊎◌, Option, none,
  some, List, [], ◌∷◌, ◌++◌, length, ltb, leb, ◌==◌, if◌then◌else◌,
}

abbrev pub Text : Type 0
Text = List ℕ

pub record LogicalWorker : Type 0 where
  pub worker_id : ℕ

pub record ConnectedScalerHost : Type 0 where
  pub host_id : Text
  pub boot_id : Text
  pub max_workers : ℕ
  pub connected_at : ℕ
  pub observed : ℕ

pub record PlannedAssignment : Type 0 where
  pub worker_id : ℕ
  pub host_id : Text
  pub boot_id : Text

pub data PlacementStrategy : Type 0 where
  spread_out fill : PlacementStrategy

pub data PlacementError : Type 0 where
  no_worker bad_worker_ids no_identity host_id_twice bad_max_workers unsafe_capacity :
      PlacementError
  insufficient_capacity no_capacity : PlacementError

-- What `localeCompare` answers: a number below, at or above 0.
pub data Comparison : Type 0 where
  before same after : Comparison

abbrev max_safe_integer : ℕ
max_safe_integer = 9007199254740991

-- `Array.prototype.sort` is stable: insertion sort by a test that the first may stand first.
unfoldable pub insert_by {ℓ} : {A : Type ℓ} → (A → A → Bool) → A → List A → List A
insert_by goes_first a [] = a ∷ []
insert_by goes_first a (b ∷ bs) =
    let rest = insert_by goes_first a bs in if goes_first a b then a ∷ b ∷ bs else b ∷ rest

unfoldable pub sort_by {ℓ} : {A : Type ℓ} → (A → A → Bool) → List A → List A
sort_by goes_first [] = []
sort_by goes_first (a ∷ bs) = insert_by goes_first a (sort_by goes_first bs)

unfoldable pub assignment : LogicalWorker → ConnectedScalerHost → PlannedAssignment
assignment w h = record { worker_id = w.worker_id; host_id = h.host_id; boot_id = h.boot_id }

-- The loop of `canonicalWorkers`, with the id before.
unfoldable pub has_valid_ids : Option ℕ → List LogicalWorker → Bool
has_valid_ids previous [] = true
has_valid_ids none (w ∷ ws) =
    leb w.worker_id max_safe_integer && has_valid_ids (some w.worker_id) ws
has_valid_ids (some p) (w ∷ ws) =
    leb w.worker_id max_safe_integer
    && not (w.worker_id == p)
    && has_valid_ids (some w.worker_id) ws

unfoldable pub canonical_workers : List LogicalWorker → PlacementError ⊎ List LogicalWorker
canonical_workers [] = inl no_worker
canonical_workers (w ∷ ws) =
    let sorted = sort_by (λ a b. leb a.worker_id b.worker_id) (w ∷ ws) in
    if has_valid_ids none sorted then inr sorted else inl bad_worker_ids

unfoldable pub same_text : Text → Text → Bool
same_text [] [] = true
same_text [] (b ∷ ys) = false
same_text (a ∷ xs) [] = false
same_text (a ∷ xs) (b ∷ ys) = a == b && same_text xs ys

abbrev is_empty : Text → Bool
is_empty [] = true
is_empty (a ∷ xs) = false

abbrev pub holds_id : Text → List Text → Bool
holds_id t [] = false
holds_id t (x ∷ xs) = same_text x t || holds_id t xs

-- The error of `validateHosts`, with the ids seen.
unfoldable pub validate_hosts : List Text → List ConnectedScalerHost → Option PlacementError
validate_hosts seen [] = none
validate_hosts seen (h ∷ hs) =
    let rest = validate_hosts (h.host_id ∷ seen) hs in
    if is_empty h.host_id || is_empty h.boot_id
    then some no_identity
    else if holds_id h.host_id seen
    then some host_id_twice
    else if h.max_workers == 0 || ltb max_safe_integer h.max_workers
    then some bad_max_workers
    else rest

-- The `reduce` of `placementCapacity`.
unfoldable pub sum_capacity : ℕ → List ConnectedScalerHost → PlacementError ⊎ ℕ
sum_capacity total [] = inr total
sum_capacity total (h ∷ hs) =
    let capacity = total + (h.max_workers - h.observed) in
    let rest = sum_capacity capacity hs in
    if ltb max_safe_integer capacity then inl unsafe_capacity else rest

unfoldable pub placement_capacity : List ConnectedScalerHost → PlacementError ⊎ ℕ
placement_capacity hosts = elim (validate_hosts [] hosts) [
  | some e ↦ inl e
  | none ↦ sum_capacity 0 hosts
]

-- The inner loop of `fillFirst`, over the places of a host: the assignments and the other workers.
unfoldable pub fill_host :
    ConnectedScalerHost → ℕ → List LogicalWorker → List PlannedAssignment × List LogicalWorker
fill_host h zero ws = ([], ws)
fill_host h (suc places) [] = ([], [])
fill_host h (suc places) (w ∷ ws) =
    let (plan, rest) = fill_host h places ws in (assignment w h ∷ plan, rest)

unfoldable pub fill_hosts : List LogicalWorker → List ConnectedScalerHost → List PlannedAssignment
fill_hosts ws [] = []
fill_hosts ws (h ∷ hs) =
    let (plan, rest) = fill_host h (h.max_workers - h.observed) ws in
    let next = fill_hosts rest hs in elim rest [ [] ↦ plan | _ ∷ _ ↦ plan ++ next ]

pub record Loaded : Type 0 where
  pub host : ConnectedScalerHost
  pub load : ℕ

-- `loads.set(host, loads.get(host) + 1)`.
unfoldable pub add_load : Text → List Loaded → List Loaded
add_load id [] = []
add_load id (l ∷ ls) =
    let rest = add_load id ls in
    if same_text l.host.host_id id then record l { load = suc l.load } ∷ rest else l ∷ rest

unfoldable pub with_room : List Loaded → List Loaded
with_room [] = []
with_room (l ∷ ls) =
    let rest = with_room ls in if ltb l.load l.host.max_workers then l ∷ rest else rest

module _ (locale_compare : Text → Text → Comparison) where
  -- `compareHost` is not above 0.
  unfoldable pub compare_host : ConnectedScalerHost → ConnectedScalerHost → Bool
  compare_host a b = elim (locale_compare a.host_id b.host_id) [
    | before ↦ true
    | after ↦ false
    | same ↦ elim (locale_compare a.boot_id b.boot_id) [
      | before ↦ true
      | same ↦ true
      | after ↦ false
    ]
  ]

  unfoldable pub fill_first : List LogicalWorker → List ConnectedScalerHost → List PlannedAssignment
  fill_first ws hosts = fill_hosts ws (
      sort_by
        (λ a b.
          if a.connected_at == b.connected_at
          then compare_host a b
          else ltb a.connected_at b.connected_at)
        hosts)

  unfoldable pub less_loaded : Loaded → Loaded → Bool
  less_loaded a b =
      let left = a.load * b.host.max_workers in
      let right = b.load * a.host.max_workers in
      if left == right then compare_host a.host b.host else ltb left right

  -- The `map` of `spread`, over the workers.
  unfoldable pub spread_over :
      List LogicalWorker → List Loaded → PlacementError ⊎ List PlannedAssignment
  spread_over [] loads = inr []
  spread_over (w ∷ ws) loads = elim (sort_by less_loaded (with_room loads)) [
    | [] ↦ inl no_capacity
    | l ∷ _ ↦ elim (spread_over ws (add_load l.host.host_id loads)) [
      | inl e ↦ inl e
      | inr plan ↦ inr (assignment w l.host ∷ plan)
    ]
  ]

  abbrev pub initial_loads : List ConnectedScalerHost → List Loaded
  initial_loads [] = []
  initial_loads (h ∷ hs) = record { host = h; load = h.observed } ∷ initial_loads hs

  unfoldable pub spread :
      List LogicalWorker → List ConnectedScalerHost → PlacementError ⊎ List PlannedAssignment
  spread ws hosts = spread_over ws (initial_loads (sort_by compare_host hosts))

  unfoldable pub plan_placement :
      List LogicalWorker
      → List ConnectedScalerHost
      → PlacementStrategy
      → PlacementError ⊎ List PlannedAssignment
  plan_placement workers hosts strategy = elim (canonical_workers workers) [
    | inl e ↦ inl e
    | inr ws ↦ elim (placement_capacity hosts) [
      | inl e ↦ inl e
      | inr capacity ↦
          if ltb capacity (length ws)
          then inl insufficient_capacity
          else elim strategy [ fill ↦ inr (fill_first ws hosts) | spread_out ↦ spread ws hosts ]
    ]
  ]
