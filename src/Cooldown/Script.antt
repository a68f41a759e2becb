-- ===== src/Cooldown/Script.antt =====
-- packages/cooldown/src/manager.ts: the Lua script that Redis runs for `consume`, and the checks of
-- its answer. HGET of a missing hash or field, or of text that is no number, is `other`; Redis keeps
-- the hashes in the cache's store, and its clock is the argument `now`. The set of keys that SADD
-- keeps for the namespace is the cache's own bookkeeping and left out. Lua's `tostring` rounds: the
-- number that the text it makes of a number reads back as is the parameter `printed`.
pub mod Agrees
use extra.Prelude.{
  ℕ, suc, ◌+◌, ◌-◌, ◌*◌, Bool, true, false, not, ◌||◌, ◌&&◌, Option, none, some, ltb, leb, ◌==◌,
  if◌then◌else◌,
}
use extra.Cooldown.Numbers.{Num, nat, negsuc, other, max_safe_integer, above, is_negative, to_ℕ}
use extra.Cooldown.Resource.{CooldownData, Key, Cache}
use extra.Cooldown.Bucket.{CooldownResult, allowed_result}

-- `x % 1 ~= 0` or nil, and `math.abs(x) > n`.
abbrev is_fraction : Num → Bool
is_fraction other = true
is_fraction _ = false

abbrev abs_above : Num → ℕ → Bool
abs_above (nat x) n = ltb n x
abs_above (negsuc x) n = ltb n (suc x)
abs_above other n = false

pub record AtomicCooldownResult : Type 0 where
  pub allowed_value : ℕ
  pub remaining_ms : ℕ
  pub retry_after_ms : ℕ
  pub limit : ℕ
  pub remaining_uses : ℕ

abbrev pub hget_remaining : Option CooldownData → Num
hget_remaining none = other
hget_remaining (some d) = d.remaining

abbrev hget_last_drip : Option CooldownData → Num
hget_last_drip none = other
hget_last_drip (some d) = d.last_drip

-- `now - lastDrip`.
abbrev time_since : Num → ℕ → ℕ
time_since (nat t) now = now - t
time_since (negsuc t) now = now + suc t
time_since other now = 0

module _ (c : Cache) (printed : ℕ → ℕ) (key : Key) (limit interval cost now : ℕ) where
  abbrev pub hset_all : c.Store → c.Store
  hset_all = c.put key (record {
    remaining = nat (printed (limit - cost));
    interval = printed interval;
    last_drip = nat (printed now);
  })

  abbrev pub hset_remaining : ℕ → c.Store → c.Store
  hset_remaining r =
      c.patch key
        (record { remaining = nat (printed r); interval = printed interval; last_drip = none })

  pub atomic_consume_script : c.Store → c.Store × AtomicCooldownResult
  atomic_consume_script s =
      let remaining = hget_remaining (c.get key s) in
      let last_drip = hget_last_drip (c.get key s) in
      let invalid_remaining =
        is_fraction remaining
        || is_negative remaining
        || above remaining limit
        || abs_above remaining max_safe_integer in
      let invalid_last_drip =
        is_fraction last_drip || above last_drip now || abs_above last_drip max_safe_integer in
      if invalid_remaining || invalid_last_drip || leb interval (time_since last_drip now)
      then (
        hset_all s,
        record {
          allowed_value = 1;
          remaining_ms = 0;
          retry_after_ms = now;
          limit = limit;
          remaining_uses = limit - cost;
        },
      )
      else if ltb (to_ℕ remaining) cost
      then (
        s,
        record {
          allowed_value = 0;
          remaining_ms = interval - time_since last_drip now;
          retry_after_ms = now + (interval - time_since last_drip now);
          limit = limit;
          remaining_uses = to_ℕ remaining;
        },
      )
      else (
        hset_remaining (to_ℕ remaining - cost) s,
        record {
          allowed_value = 1;
          remaining_ms = 0;
          retry_after_ms = now;
          limit = limit;
          remaining_uses = to_ℕ remaining - cost;
        },
      )

-- `none` is the TypeError.
pub from_atomic_result : Key → AtomicCooldownResult → Option CooldownResult
unfolding allowed_result
from_atomic_result key r =
    if not (r.allowed_value == 0 || r.allowed_value == 1)
      || not (leb r.retry_after_ms max_safe_integer)
      || not (leb r.limit max_safe_integer && ltb 0 r.limit)
      || not (leb r.remaining_uses max_safe_integer && leb r.remaining_uses r.limit)
    then none
    else if r.allowed_value == 1
    then some (allowed_result key r.limit r.remaining_uses r.retry_after_ms)
    else some (record {
      allowed = false;
      limit = r.limit;
      remaining_uses = r.remaining_uses;
      key = key;
      remaining_ms = r.remaining_ms;
      retry_after = r.retry_after_ms;
    })

unfoldable pub consume_atomic :
    (c : Cache)
    → (printed : ℕ → ℕ) → Key
    → (limit interval cost now : ℕ) → c.Store
    → c.Store × Option CooldownResult
unfolding atomic_consume_script from_atomic_result
consume_atomic c printed key limit interval cost now s =
    let (s', r) = atomic_consume_script c printed key limit interval cost now s in
    (s', from_atomic_result key r)
