-- ===== src/Cooldown/Bucket/Allowance.antt =====
-- manager.ts: what a bucket allows, when, and how much.
use extra.Prelude.{
  ℕ, ◌+◌, ◌-◌, ◌≤◌, ◌<◌, ◌≡◌, ◌↔◌, refl, true, false, inl, inr, Option, none, some, List, [], ◌∷◌,
  All, if◌then◌else◌, ltb, Option-cases, Bool-cases, arith,
}
use extra.Cooldown.Numbers.{Num, nat, negsuc, max_safe_integer}
use extra.Cooldown.Resource.{CooldownData, CooldownPatch, Key, Cache, merge}
use extra.Cooldown.Bucket.{
  check_data, check_bucket, consume_data, consume_stored_bucket, reset_bucket,
}

-- The bucket was last filled at `start` and has `left` uses.
abbrev pub HasLeft : (c : Cache) → Key → ℕ → ℕ → c.Store → Type 0
HasLeft c key start left s =
    (d : CooldownData) × (c.get key s ≡ some d)
    × (d.remaining ≡ nat left)
    × (d.last_drip ≡ nat start)

refused_empty :
    (c : Cache) (key : Key) (limit interval cost now : ℕ)
    → ¬ ((check_data c key limit interval cost now none).allowed ≡ false)
unfolding check_data
refused_empty c key limit interval cost now h = cc

module _ (c : Cache) (key : Key) (limit interval cost : ℕ) where
  check_data-consume_data :
      (now : ℕ) (o : Option CooldownData) (s : c.Store)
      → (consume_data c key limit interval cost now o s).1
        ≡ check_data c key limit interval cost now o
  unfolding consume_data check_data
  check_data-consume_data now none s = refl
  check_data-consume_data now (some d) s = ground arith

  -- `check` answers what `consume` would answer at the same time.
  pub check_bucket-consume_stored_bucket :
      (now : ℕ) (s : c.Store)
      → (consume_stored_bucket c key limit interval cost now s).1
        ≡ check_bucket c key limit interval cost now s
  unfolding consume_stored_bucket check_bucket
  check_bucket-consume_stored_bucket now s = check_data-consume_data now (c.get key s) s

  module _ (now later : ℕ) (order : now ≤ later) where
    retry_data :
        (d : CooldownData) (r l : Num)
        → d.remaining ≡ r
        → d.last_drip ≡ l
        → (check_data c key limit interval cost now (some d)).allowed ≡ false
        → ((check_data c key limit interval cost later (some d)).allowed ≡ true)
          ↔ ((check_data c key limit interval cost now (some d)).retry_after ≤ later)
    unfolding check_data
    retry_data d (nat r) (nat l) e f h = ground arith
    retry_data d (nat r) (negsuc l) e f h = ground arith
    retry_data d r l e f h = ground arith

    denied_keeps :
        (o : Option CooldownData) (s : c.Store)
        → (consume_data c key limit interval cost now o s).1.allowed ≡ false
        → (consume_data c key limit interval cost now o s).0 ≡ s
    unfolding consume_data
    denied_keeps none s h = cc
    denied_keeps (some d) s h = ground arith

    -- The time that a refusal names is exact: a refused `consume` leaves the cache as it was, and the
    -- same request made later is allowed if and only if `retryAfter` has come.
    pub consume_stored_bucket_retry :
        (s : c.Store)
        → (consume_stored_bucket c key limit interval cost now s).1.allowed ≡ false
        → (let (s', refusal) = consume_stored_bucket c key limit interval cost now s in
            (s' ≡ s)
            × (((consume_stored_bucket c key limit interval cost later s').1.allowed ≡ true)
                ↔ (refusal.retry_after ≤ later)))
    unfolding consume_stored_bucket
    consume_stored_bucket_retry s h = elim (Option-cases (c.get key s)) [
      | inl e ↦ absurd (
          refused_empty c key limit interval cost now
            (rw (check_data-consume_data now (c.get key s) s, e) at h))
      | inr (d, e) ↦
          let same = denied_keeps (c.get key s) s h in
          let refused = rw (check_data-consume_data now (c.get key s) s, e) at h in
          (
            same,
            rw
                (
                  same,
                  check_data-consume_data now (c.get key s) s,
                  check_data-consume_data later (c.get key s) s,
                  e,
                )
                (retry_data d d.remaining d.last_drip refl refl refused),
          )
    ]

  consume-HasLeft :
      (start left now : ℕ) (s : c.Store)
      → left ≤ limit
      → limit ≤ max_safe_integer
      → start ≤ max_safe_integer
      → start ≤ now
      → now < start + interval
      → HasLeft c key start left s
      → (let (s', r) = consume_stored_bucket c key limit interval cost now s in
          (left' : ℕ) × (left' + (if r.allowed then cost else 0) ≡ left)
          × HasLeft c key start left' s')
  unfolding consume_stored_bucket consume_data
  consume-HasLeft start left now s h₁ h₂ h₃ h₄ h₅ (d, e, r, l) = elim (Bool-cases (ltb left cost)) [
    | inl short ↦
        let store : (consume_stored_bucket c key limit interval cost now s).0 ≡ s = ground arith in
        let no_use : (consume_stored_bucket c key limit interval cost now s).1.allowed ≡ false =
          ground arith in
        (left, rw no_use (omega arith), rw store (d, e, r, l))
    | inr enough ↦
        let p : CooldownPatch = record {
          remaining = nat (left - cost);
          interval = interval;
          last_drip = none;
        } in
        let store : (consume_stored_bucket c key limit interval cost now s).0 ≡ c.patch key p s =
          ground arith in
        let used : (consume_stored_bucket c key limit interval cost now s).1.allowed ≡ true =
          ground arith in
        (
          left - cost,
          rw used (ground arith),
          rw store (merge p d, c.get-patch key p s d e, refl, l),
        )
  ]

-- A row of requests for one bucket, each a cost and a time, and the uses that it grants.
pub spend : (c : Cache) (key : Key) (limit interval : ℕ) → List (ℕ × ℕ) → c.Store → c.Store × ℕ
unfolding consume_stored_bucket
spend c key limit interval [] s = (s, 0)
spend c key limit interval ((cost, now) ∷ row) s =
    let (s₁, r) = consume_stored_bucket c key limit interval cost now s in
    let (s₂, n) = spend c key limit interval row s₁ in (s₂, (if r.allowed then cost else 0) + n)

-- Between one filling of a bucket and the end of its interval, whatever requests arrive, the uses
-- granted are the uses that the bucket had and no longer has. So they are at most `limit`.
pub spend-HasLeft :
    (c : Cache) (key : Key) (limit interval start left : ℕ) (row : List (ℕ × ℕ)) (s : c.Store)
    → left ≤ limit
    → limit ≤ max_safe_integer
    → start ≤ max_safe_integer
    → All (λ q. (start ≤ q.1) × (q.1 < start + interval)) row
    → HasLeft c key start left s
    → (let (s', granted) = spend c key limit interval row s in
        (left' : ℕ) × (left' + granted ≡ left) × HasLeft c key start left' s')
unfolding spend
spend-HasLeft c key limit interval start left [] s h₁ h₂ h₃ a b = (left, omega arith, b)
spend-HasLeft c key limit interval start left ((cost, now) ∷ row) s h₁ h₂ h₃ a b =
    let (mid, paid, b₁) =
      consume-HasLeft c key limit interval cost start left now s h₁ h₂ h₃ a.0.0 a.0.1 b in
    let (end, rest, b₂) =
      spend-HasLeft c key limit interval start mid row _ (omega arith) h₂ h₃ a.1 b₁ in
    (end, omega arith, b₂)

-- After `reset` a bucket is full again: of a request whose cost is within the limit, and of whatever
-- requests follow in one interval from its time, the uses granted and the uses left are together the
-- limit, where the limit and that time are safe integers.
pub reset_bucket-spend :
    (c : Cache) (key : Key) (limit interval cost start : ℕ) (row : List (ℕ × ℕ)) (s : c.Store)
    → cost ≤ limit
    → limit ≤ max_safe_integer
    → start ≤ max_safe_integer
    → All (λ q. (start ≤ q.1) × (q.1 < start + interval)) row
    → (let (s', granted) =
          spend c key limit interval ((cost, start) ∷ row) (reset_bucket c key s).0 in
        (left : ℕ) × (left + granted ≡ limit) × HasLeft c key start left s')
unfolding spend consume_stored_bucket consume_data reset_bucket
reset_bucket-spend c key limit interval cost start row s h₁ h₂ h₃ a =
    let d : CooldownData = record {
      remaining = nat (limit - cost);
      interval = interval;
      last_drip = nat start;
    } in
    let filled : HasLeft c key start (limit - cost) (c.put key d (c.remove key s)) =
      (d, c.get-put key d (c.remove key s), refl, refl) in
    let (left, rest, b) =
      spend-HasLeft c key limit interval start (limit - cost) row (c.put key d (c.remove key s))
        (omega arith) h₂ h₃ a filled in
    rw (c.get-remove key s, consume_data) (left, omega arith, b)
