-- ===== src/Cooldown/Manager.antt =====
-- packages/cooldown/src/manager.ts: `check`, `consume` and `reset` of CooldownManager. An interval
-- is an integer here: the fractions that JavaScript allows are left out. The queue `pendingMutations`
-- is not modelled: a call runs alone on its key, which is what that queue is for. How Lua prints a
-- number in Redis is the parameter `printed`.
pub mod Agrees
mod Tests
use extra.Prelude.{ℕ, Bool, true, false, Option, none, some, ltb, leb, if◌then◌else◌}
use extra.Cooldown.Numbers.{Num, nat, is_safe_integer, to_ℕ, above}
use extra.Cooldown.Resource.{Cache}
use extra.Cooldown.Bucket.{CooldownResult, check_bucket, consume_stored_bucket, reset_bucket}
use extra.Cooldown.Script.{consume_atomic}
use extra.Cooldown.Key.{Text, KeyError, empty_name, empty_target}
use extra.Cooldown.Commands.{
  CooldownProps, Environment, Resolved, no_cooldown, no_context, bad_key, bucket,
  resolve_explicit_bucket, resolve_scoped_bucket,
}

pub data CooldownError : Type 0 where
  outside_scope bad_uses bad_interval bad_cost cost_above_limit invalid_result : CooldownError
  in_key : KeyError → CooldownError

pub data Outcome (A : Type 0) : Type 0 where
  ok : A → Outcome A
  err : CooldownError → Outcome A

infixl 5 ◌>>=◌
abbrev pub ◌>>=◌ : {A B : Type 0} (first : Outcome A) (next : A → Outcome B) → Outcome B
first >>= next = elim first [ err e ↦ err e | ok value ↦ next value ]

-- `Number.isSafeInteger(n) && n > 0`.
abbrev pub is_positive_safe : Num → Bool
is_positive_safe n = if is_safe_integer n then above n 0 else false

abbrev pub or_one : Option Num → Num
or_one none = nat 1
or_one (some n) = n

pub resolve_limit : CooldownProps → Outcome ℕ
resolve_limit p =
    let limit = or_one p.uses in if is_positive_safe limit then ok (to_ℕ limit) else err bad_uses

pub resolve_interval : CooldownProps → Outcome ℕ
resolve_interval p = if above p.interval 0 then ok (to_ℕ p.interval) else err bad_interval

pub assert_cost_within_limit : Num → ℕ → Outcome ℕ
assert_cost_within_limit cost limit =
    if is_positive_safe cost
    then (if above cost limit then err cost_above_limit else ok (to_ℕ cost))
    else err bad_cost

-- The options of a call: with a name and a target, or for the running command.
pub data CooldownOptions : Type 0 where
  explicit : (name target : Text) (guild_id : Option Text) (cost : Option Num) → CooldownOptions
  implicit : (cost : Option Num) → CooldownOptions

abbrev pub cost_of : CooldownOptions → Num
cost_of (explicit name target guild_id cost) = or_one cost
cost_of (implicit cost) = or_one cost

pub resolve_bucket : Environment → CooldownOptions → Resolved
unfolding resolve_explicit_bucket resolve_scoped_bucket
resolve_bucket env (explicit name target guild_id cost) =
    resolve_explicit_bucket env name target guild_id
resolve_bucket env (implicit cost) = resolve_scoped_bucket env

-- A bucket that is named and a cost that it can pay: key, limit, interval, cost.
pub record Order : Type 0 where
  pub key : Text
  pub limit : ℕ
  pub interval : ℕ
  pub cost : ℕ

-- The first lines of `check` and `consume`. `ok none` is the answer `undefined`.
pub prepare : Resolved → Num → Outcome (Option Order)
prepare no_cooldown cost = ok none
prepare no_context cost = err outside_scope
prepare (bad_key e) cost = err (in_key e)
prepare (bucket p key) cost = do
  limit ← resolve_limit p
  interval ← resolve_interval p
  n ← assert_cost_within_limit cost limit
  ok (some (record { key = key; limit = limit; interval = interval; cost = n }))

module _ (c : Cache) (env : Environment) (now : ℕ) where
  pub check : CooldownOptions → c.Store → Outcome (Option CooldownResult)
  unfolding prepare resolve_bucket check_bucket
  check options s = prepare (resolve_bucket env options) (cost_of options) >>= λ o. elim o [
    | none ↦ ok none
    | some q ↦ ok (some (check_bucket c q.key q.limit q.interval q.cost now s))
  ]

module _ (c : Cache) (printed : ℕ → ℕ) (env : Environment) (now : ℕ) where
  -- `atomic` tells that the adapter supports the script.
  pub consume_order : (atomic : Bool) → Order → c.Store → c.Store × Outcome (Option CooldownResult)
  unfolding consume_atomic consume_stored_bucket
  consume_order true q s =
      let (s', r) = consume_atomic c printed q.key q.limit q.interval q.cost now s in
      elim r [ none ↦ (s', err invalid_result) | some a ↦ (s', ok (some a)) ]
  consume_order false q s =
      let (s', r) = consume_stored_bucket c q.key q.limit q.interval q.cost now s in
      (s', ok (some r))

  pub consume :
      (atomic : Bool) → CooldownOptions → c.Store → c.Store × Outcome (Option CooldownResult)
  unfolding prepare resolve_bucket consume_order
  consume atomic options s = elim (prepare (resolve_bucket env options) (cost_of options)) [
    | err e ↦ (s, err e)
    | ok none ↦ (s, ok none)
    | ok (some q) ↦ consume_order atomic q s
  ]

module _ (c : Cache) (env : Environment) where
  -- `reset`: false where no cooldown is configured.
  pub reset : CooldownOptions → c.Store → c.Store × Outcome Bool
  unfolding resolve_bucket reset_bucket
  reset options s = elim (resolve_bucket env options) [
    | no_cooldown ↦ (s, ok false)
    | no_context ↦ (s, err outside_scope)
    | bad_key e ↦ (s, err (in_key e))
    | bucket p key ↦ let (s', b) = reset_bucket c key s in (s', ok b)
  ]
