-- ===== src/Scaler/Placement/Enough.antt =====
-- placement.ts: a plan is made whenever the capacity is enough.
use extra.Prelude.{
  ℕ, suc, ◌+◌, ◌-◌, ◌≤◌, ◌<◌, ◌≡◌, ◌≢◌, refl, sym, ap, subst, Bool, true, false, inl, inr, ◌⊎◌,
  List, [], ◌∷◌, length, ltb, Option-cases, Bool-cases, All, arith,
}
use extra.Scaler.Placement.{
  Text, LogicalWorker, ConnectedScalerHost, PlannedAssignment, PlacementStrategy, spread_out, fill,
  PlacementError, Comparison, insert_by, sort_by, assignment, same_text, canonical_workers,
  validate_hosts, placement_capacity, Loaded, with_room, add_load, initial_loads, fill_first,
  less_loaded, compare_host, spread_over, spread, plan_placement,
}
use extra.Scaler.Placement.Cover.{room, sort_by-room, placement_capacity-room}
use extra.Scaler.Placement.Distinct.{
  IsNew, IsDistinct, same_text_sym, same_text_refl, validate_hosts-IsDistinct, sort_by-IsDistinct,
}

-- The places that are left.
abbrev left : List Loaded → ℕ
left [] = 0
left (l ∷ ls) = (l.host.max_workers - l.load) + left ls

abbrev pub hosts_of : List Loaded → List ConnectedScalerHost
hosts_of [] = []
hosts_of (l ∷ ls) = l.host ∷ hosts_of ls

pub add_load-hosts_of : (id : Text) (ls : List Loaded) → hosts_of (add_load id ls) ≡ hosts_of ls
unfolding add_load
add_load-hosts_of id [] = refl
add_load-hosts_of id (l ∷ ls) = elim (Bool-cases (same_text l.host.host_id id)) [
  | inl e ↦ rw (e, add_load) (ap (λ r. l.host ∷ r) (add_load-hosts_of id ls))
  | inr e ↦ rw (e, add_load) (ap (λ r. l.host ∷ r) (add_load-hosts_of id ls))
]

add_load-other :
    (id : Text) (ls : List Loaded) → IsNew id (hosts_of ls) → left (add_load id ls) ≡ left ls
unfolding add_load
add_load-other id [] n = refl
add_load-other id (l ∷ ls) n = ground (arith, n.0, add_load-other id ls n.1)

-- One more worker takes one place, at each host that has room.
abbrev TakesOne : List Loaded → Loaded → Type 0
TakesOne ls m = suc (left (add_load m.host.host_id ls)) ≡ left ls

head_TakesOne :
    (l : Loaded) (ls : List Loaded)
    → ltb l.load l.host.max_workers ≡ true
    → IsNew l.host.host_id (hosts_of ls)
    → TakesOne (l ∷ ls) l
unfolding add_load
head_TakesOne l ls e n =
    ground (arith, e, same_text_refl l.host.host_id, add_load-other l.host.host_id ls n)

-- A host of the tail takes one in the whole list too.
TakesOne-tail :
    (l : Loaded) (ls ms : List Loaded)
    → IsNew l.host.host_id (hosts_of ms)
    → All (TakesOne ls) ms
    → All (TakesOne (l ∷ ls)) ms
unfolding add_load
TakesOne-tail l ls [] n a = tt
TakesOne-tail l ls (m ∷ ms) n a = (
  ground (arith, n.0, a.0, same_text_sym l.host.host_id m.host.host_id),
  TakesOne-tail l ls ms n.1 a.1,
)

pub with_room-IsNew :
    (id : Text) (ls : List Loaded) → IsNew id (hosts_of ls) → IsNew id (hosts_of (with_room ls))
unfolding with_room
with_room-IsNew id [] n = tt
with_room-IsNew id (l ∷ ls) n = elim (Bool-cases (ltb l.load l.host.max_workers)) [
  | inl e ↦ rw (e, with_room) (n.0, with_room-IsNew id ls n.1)
  | inr e ↦ rw (e, with_room) (with_room-IsNew id ls n.1)
]

with_room-TakesOne :
    (ls : List Loaded) → IsDistinct (hosts_of ls) → All (TakesOne ls) (with_room ls)
unfolding with_room
with_room-TakesOne [] d = tt
with_room-TakesOne (l ∷ ls) d =
    let rest =
      TakesOne-tail l ls (with_room ls) (with_room-IsNew l.host.host_id ls d.0)
        (with_room-TakesOne ls d.1) in
    elim (Bool-cases (ltb l.load l.host.max_workers)) [
      | inl e ↦ rw (e, with_room) (head_TakesOne l ls e d.0, rest)
      | inr e ↦ rw (e, with_room) rest
    ]

with_room-some : (ls : List Loaded) → 0 < left ls → with_room ls ≢ []
unfolding with_room
with_room-some [] p e = ground arith
with_room-some (l ∷ ls) p e = ground (arith, with_room-some ls)

module _ (f : Loaded → Loaded → Bool) (P : Loaded → Type 0) where
  insert_by-All : (l : Loaded) (ls : List Loaded) → P l → All P ls → All P (insert_by f l ls)
  unfolding insert_by
  insert_by-All l [] p a = (p, tt)
  insert_by-All l (m ∷ ls) p a = elim (Bool-cases (f l m)) [
    | inl b ↦ rw (b, insert_by) (p, a)
    | inr b ↦ rw (b, insert_by) (a.0, insert_by-All l ls p a.1)
  ]

  pub sort_by-All : (ls : List Loaded) → All P ls → All P (sort_by f ls)
  unfolding sort_by
  sort_by-All [] a = tt
  sort_by-All (l ∷ ls) a = insert_by-All l (sort_by f ls) a.0 (sort_by-All ls a.1)

insert_by-some :
    (f : Loaded → Loaded → Bool) (l : Loaded) (ls : List Loaded) → insert_by f l ls ≢ []
unfolding insert_by
insert_by-some f l [] e = cc
insert_by-some f l (m ∷ ls) e = ground arith

sort_by-nil : (f : Loaded → Loaded → Bool) (ls : List Loaded) → sort_by f ls ≡ [] → ls ≡ []
unfolding sort_by
sort_by-nil f [] e = refl
sort_by-nil f (l ∷ ls) e = absurd (insert_by-some f l (sort_by f ls) e)

module _ (locale_compare : Text → Text → Comparison) where
  initial_loads-left :
      (hs : List ConnectedScalerHost) → left (initial_loads locale_compare hs) ≡ room hs
  initial_loads-left [] = refl
  initial_loads-left (h ∷ hs) = omega (arith, initial_loads-left hs)

  pub initial_loads-hosts_of :
      (hs : List ConnectedScalerHost) → hosts_of (initial_loads locale_compare hs) ≡ hs
  initial_loads-hosts_of [] = refl
  initial_loads-hosts_of (h ∷ hs) = ap (λ r. h ∷ r) (initial_loads-hosts_of hs)

  abbrev pub IsPlan : PlacementError ⊎ List PlannedAssignment → Type 0
  IsPlan r = (plan : List PlannedAssignment) × (r ≡ inr plan)

  spread_over-IsPlan :
      (ws : List LogicalWorker) (loads : List Loaded)
      → IsDistinct (hosts_of loads)
      → length ws ≤ left loads
      → IsPlan (spread_over locale_compare ws loads)
  unfolding spread_over
  spread_over-IsPlan [] loads d n = ([], refl)
  spread_over-IsPlan (w ∷ ws) loads d n =
      go (sort_by (less_loaded locale_compare) (with_room loads)) refl
        (sort_by-All (less_loaded locale_compare) (TakesOne loads) (with_room loads)
          (with_room-TakesOne loads d))
        (λ l e.
          spread_over-IsPlan ws (add_load l.host.host_id loads)
            (subst IsDistinct (sym (add_load-hosts_of l.host.host_id loads)) d)
            (omega (arith, n, e)))
    where
      go :
          (ls : List Loaded)
          → sort_by (less_loaded locale_compare) (with_room loads) ≡ ls
          → All (TakesOne loads) (sort_by (less_loaded locale_compare) (with_room loads))
          → ((l : Loaded)
              → TakesOne loads l
              → IsPlan (spread_over locale_compare ws (add_load l.host.host_id loads)))
          → IsPlan (spread_over locale_compare (w ∷ ws) loads)
      go [] e a next = absurd (
          with_room-some loads (omega (arith, n))
            (sort_by-nil (less_loaded locale_compare) (with_room loads) e))
      go (l ∷ ls) e a next =
          let (plan, q) = next l (subst (All (TakesOne loads)) e a).0 in
          rw (e, q, spread_over) (assignment w l.host ∷ plan, refl)

  pub placement_capacity-IsDistinct :
      (hosts : List ConnectedScalerHost) (n : ℕ)
      → placement_capacity hosts ≡ inr n
      → IsDistinct hosts
  unfolding placement_capacity
  placement_capacity-IsDistinct hosts n e = elim (Option-cases (validate_hosts [] hosts)) [
    | inl valid ↦ validate_hosts-IsDistinct [] hosts valid
    | inr (x, wrong) ↦ absurd (refused x (rw (wrong, placement_capacity) at e))
  ]
    where
      refused : (x : PlacementError) → inl x ≡ inr n → ⊥
      refused x p = cc

  -- Where the workers and the hosts pass their checks and the capacity is not below the number of the
  -- workers, both strategies make a plan: `spread` never runs out of room.
  pub plan_placement-IsPlan :
      (workers ws : List LogicalWorker) (hosts : List ConnectedScalerHost) (n : ℕ)
      (s : PlacementStrategy)
      → canonical_workers workers ≡ inr ws
      → placement_capacity hosts ≡ inr n
      → length ws ≤ n
      → IsPlan (plan_placement locale_compare workers hosts s)
  unfolding plan_placement spread
  plan_placement-IsPlan workers ws hosts n s c p l =
      let enough : ltb n (length ws) ≡ false = ground (arith, l) in
      elim s as (λ k. IsPlan (plan_placement locale_compare workers hosts k)) [
        | fill ↦ rw (c, p, enough, plan_placement) (fill_first locale_compare ws hosts, refl)
        | spread_out ↦
            rw (c, p, enough, plan_placement, spread)
              (spread_over-IsPlan ws (initial_loads locale_compare sorted) distinct fits)
      ]
    where
      sorted : List ConnectedScalerHost
      sorted = sort_by (compare_host locale_compare) hosts

      distinct : IsDistinct (hosts_of (initial_loads locale_compare sorted))
      distinct = subst IsDistinct (sym (initial_loads-hosts_of sorted)) (
          sort_by-IsDistinct (compare_host locale_compare) hosts
            (placement_capacity-IsDistinct hosts n p))

      fits : length ws ≤ left (initial_loads locale_compare sorted)
      fits = omega (
        arith,
        l,
        placement_capacity-room locale_compare hosts n p,
        initial_loads-left sorted,
        sort_by-room (compare_host locale_compare) hosts,
      )
