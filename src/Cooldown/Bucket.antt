-- ===== src/Cooldown/Bucket.antt =====
-- packages/cooldown/src/manager.ts: `check`, `consume` and `reset` of one bucket, without Redis'
-- script. `Date.now()` is the argument `now`. Limits, costs and intervals
-- are checked before (Manager): `limit - cost` is reached only with a cost of at most the limit, where
-- the subtraction that stops at 0 is the one of the source.
pub mod Allowance
use extra.Prelude.{
  ℕ, suc, ◌+◌, ◌-◌, Bool, true, false, not, ◌||◌, Option, none, some, ltb, leb, if◌then◌else◌,
}
use extra.Cooldown.Numbers.{Num, nat, negsuc, other, is_safe_integer, above, is_negative, to_ℕ}
use extra.Cooldown.Resource.{CooldownData, CooldownPatch, Key, Cache, set}

pub record CooldownResult : Type 0 where
  pub allowed : Bool
  pub limit : ℕ
  pub remaining_uses : ℕ
  pub key : Key
  pub remaining_ms : ℕ
  pub retry_after : ℕ

unfoldable pub rate_limited_result : Key → ℕ → ℕ → ℕ → ℕ → CooldownResult
rate_limited_result key limit remaining_uses now remaining_ms = record {
  allowed = false;
  limit = limit;
  remaining_uses = remaining_uses;
  key = key;
  remaining_ms = remaining_ms;
  retry_after = now + remaining_ms;
}

unfoldable pub allowed_result : Key → ℕ → ℕ → ℕ → CooldownResult
allowed_result key limit remaining_uses now = record {
  allowed = true;
  limit = limit;
  remaining_uses = remaining_uses;
  key = key;
  remaining_ms = 0;
  retry_after = now;
}

pub record BucketState : Type 0 where
  pub elapsed : ℕ
  pub expired : Bool
  pub remaining : ℕ

-- `now - lastDrip`, for an integer that is not after `now`.
abbrev pub elapsed_since : Num → ℕ → ℕ
elapsed_since (nat t) now = now - t
elapsed_since (negsuc t) now = now + suc t
elapsed_since other now = 0

unfoldable pub resolve_stored_bucket : CooldownData → ℕ → ℕ → ℕ → BucketState
resolve_stored_bucket d limit interval now =
    if not (is_safe_integer d.last_drip)
      || above d.last_drip now
      || not (is_safe_integer d.remaining)
      || is_negative d.remaining
      || above d.remaining limit
    then record { elapsed = interval; expired = true; remaining = limit }
    else let elapsed : ℕ = elapsed_since d.last_drip now in
      record { elapsed = elapsed; expired = leb interval elapsed; remaining = to_ℕ d.remaining }

module _ (c : Cache) (key : Key) (limit interval cost now : ℕ) where
  -- The answer of `check` for what the cache holds.
  unfoldable pub check_data : Option CooldownData → CooldownResult
  unfolding resolve_stored_bucket allowed_result rate_limited_result
  check_data none = allowed_result key limit (limit - cost) now
  check_data (some d) =
      let state = resolve_stored_bucket d limit interval now in
      if state.expired
      then allowed_result key limit (limit - cost) now
      else if leb cost state.remaining
      then allowed_result key limit (state.remaining - cost) now
      else rate_limited_result key limit state.remaining now (interval - state.elapsed)

  unfoldable pub check_bucket : c.Store → CooldownResult
  unfolding check_data
  check_bucket s = check_data (c.get key s)

  abbrev refill : CooldownPatch
  refill = record {
    remaining = nat (limit - cost);
    interval = interval;
    last_drip = some (nat now);
  }

  unfoldable pub consume_data : Option CooldownData → c.Store → c.Store × CooldownResult
  unfolding set resolve_stored_bucket allowed_result rate_limited_result
  consume_data none s = (set c key refill now s, allowed_result key limit (limit - cost) now)
  consume_data (some d) s =
      let state = resolve_stored_bucket d limit interval now in
      if state.expired
      then (c.patch key refill s, allowed_result key limit (limit - cost) now)
      else if ltb state.remaining cost
      then (s, rate_limited_result key limit state.remaining now (interval - state.elapsed))
      else (
        c.patch key
            (record {
              remaining = nat (state.remaining - cost);
              interval = interval;
              last_drip = none;
            })
            s,
        allowed_result key limit (state.remaining - cost) now,
      )

  unfoldable pub consume_stored_bucket : c.Store → c.Store × CooldownResult
  unfolding consume_data
  consume_stored_bucket s = consume_data (c.get key s) s

-- `reset` of a bucket that exists.
unfoldable pub reset_bucket : (c : Cache) → Key → c.Store → c.Store × Bool
reset_bucket c key s = (c.remove key s, true)
