-- ===== src/Cooldown/Manager/Agrees.antt =====
-- manager.ts: the orders that are carried out, and the two ways to carry them out.
use extra.Prelude.{◌^◌, ℕ, ◌+◌, ◌≤◌, ◌<◌, ◌≡◌, refl, true, false, Option, none, some, arith}
use extra.Cooldown.Numbers.{Num, nat, max_safe_integer}
use extra.Cooldown.Resource.{Cache, Key}
use extra.Cooldown.Bucket.{CooldownResult}
use extra.Cooldown.Script.Agrees.{PrintsShort, consume_atomic_agrees}
use extra.Cooldown.Commands.{CooldownProps, Environment, Resolved, bucket}
use extra.Cooldown.Manager.{
  Outcome, ok, err, ◌>>=◌, Order, prepare, resolve_bucket, CooldownOptions, cost_of, consume,
  consume_order, resolve_limit, resolve_interval, assert_cost_within_limit,
}

-- An order that passed the tests.
pub record IsPayable (q : Order) : Type 0 where
  pub positive : 0 < q.cost
  pub within : q.cost ≤ q.limit
  pub safe : q.limit ≤ max_safe_integer
  pub ticking : 0 < q.interval

resolve_limit-bounds :
    (p : CooldownProps) (u : Option Num) (n : ℕ)
    → p.uses ≡ u
    → resolve_limit p ≡ ok n
    → n ≤ max_safe_integer
unfolding resolve_limit
resolve_limit-bounds p none n e h = ground arith
resolve_limit-bounds p (some (nat u)) n e h = ground arith
resolve_limit-bounds p (some u) n e h = ground arith

resolve_interval-bounds :
    (p : CooldownProps) (i : Num) (n : ℕ) → p.interval ≡ i → resolve_interval p ≡ ok n → 0 < n
unfolding resolve_interval
resolve_interval-bounds p (nat i) n e h = ground arith
resolve_interval-bounds p i n e h = ground arith

assert_cost-bounds :
    (cost : Num) (limit n : ℕ) → assert_cost_within_limit cost limit ≡ ok n → (0 < n) × (n ≤ limit)
unfolding assert_cost_within_limit
assert_cost-bounds (nat k) limit n h = ground arith
assert_cost-bounds k limit n h = ground arith

passed_test :
    {A B : Type 0} (test : Outcome A) {next : A → Outcome B} {end : B}
    → (test >>= next) ≡ ok end
    → (value : A) × (next value ≡ ok end) × (test ≡ ok value)
passed_test (err e) h = cc
passed_test (ok value) h = (value, h, refl)

-- Every order that `check` and `consume` carry out has a positive cost that its bucket can hold, a
-- limit that is a safe integer, and a positive interval.
pub prepare-IsPayable :
    (r : Resolved) (cost : Num) (q : Order) → prepare r cost ≡ ok (some q) → IsPayable q
unfolding prepare
prepare-IsPayable (bucket p key) cost q h =
    let (limit, h₁, e₁) = passed_test (resolve_limit p) h in
    let (interval, h₂, e₂) = passed_test (resolve_interval p) h₁ in
    let (n, h₃, e₃) = passed_test (assert_cost_within_limit cost limit) h₂ in
    let b₁ = resolve_limit-bounds p p.uses limit refl e₁ in
    let b₂ = resolve_interval-bounds p p.interval interval refl e₂ in
    let b₃ = assert_cost-bounds cost limit n e₃ in ground arith
prepare-IsPayable r cost q h = cc

module _ (c : Cache) (printed : ℕ → ℕ) (env : Environment) (now : ℕ) (s : c.Store)
    (prints : PrintsShort printed) where
  abbrev Agree :
      c.Store × Outcome (Option CooldownResult) → c.Store × Outcome (Option CooldownResult) → Type 0
  Agree a b = (a.1 ≡ b.1) × ((j : Key) → c.get j a.0 ≡ c.get j b.0)

  consume_order_agrees :
      (q : Order)
      → IsPayable q
      → q.limit < 10 ^ 14
      → now + q.interval < 10 ^ 14
      → Agree (consume_order c printed env now true q s) (consume_order c printed env now false q s)
  unfolding consume_order
  consume_order_agrees q p h l =
      let (same, stores) =
        consume_atomic_agrees c printed q.key q.limit q.interval q.cost now prints h l s p.positive
          p.within in
      rw (same, consume_order) (refl, stores)

  -- For any options, where Redis' Lua prints numbers below 10 ^ 14 with all their digits, and where
  -- the limit, and the time at the end of an interval that starts now, are below 10 ^ 14: `consume`
  -- through the script of an atomic adapter and `consume` through reads and writes give the same
  -- answer or the same error, and leave the same record under every key.
  pub consume_agrees :
      (options : CooldownOptions)
      → ((q : Order)
          → prepare (resolve_bucket env options) (cost_of options) ≡ ok (some q)
          → (q.limit < 10 ^ 14) × (now + q.interval < 10 ^ 14))
      → ((consume c printed env now true options s).1
          ≡ (consume c printed env now false options s).1)
        × ((j : Key)
            → c.get j (consume c printed env now true options s).0
              ≡ c.get j (consume c printed env now false options s).0)
  unfolding consume
  consume_agrees options h = go (prepare (resolve_bucket env options) (cost_of options)) refl
    where
      go :
          (o : Outcome (Option Order))
          → prepare (resolve_bucket env options) (cost_of options) ≡ o
          → Agree
              (consume c printed env now true options s)
              (consume c printed env now false options s)
      go (err e) p = rw (p, consume) (refl, λ j. refl)
      go (ok none) p = rw (p, consume) (refl, λ j. refl)
      go (ok (some q)) p =
          rw (p, consume) (consume_order_agrees q (prepare-IsPayable _ _ q p) (h q p).0 (h q p).1)
