-- ===== src/Cooldown/Resource.antt =====
-- packages/cooldown/src/resource.ts, and what manager.ts relies on of the cache below it. The cache
-- is a package of its own: a store with `get`, `set`, `patch` and `remove` is a parameter, with the
-- laws of a map from keys to records.
use extra.Prelude.{ℕ, ◌≡◌, ◌≢◌, List, Option, none, some}
use native.Mathlib.Decide.{ℕ_discrete}
use extra.Cooldown.Numbers.{Num, nat}

pub record CooldownData : Type 0 where
  pub remaining : Num
  pub interval : ℕ
  pub last_drip : Num

-- The fields of a `patch`; `lastDrip` may be left out.
pub record CooldownPatch : Type 0 where
  pub remaining : Num
  pub interval : ℕ
  pub last_drip : Option Num

abbrev pub Key : Type 0
Key = List ℕ

abbrev pub or_else : Option Num → Num → Num
or_else none d = d
or_else (some n) d = n

abbrev pub merge : CooldownPatch → CooldownData → CooldownData
merge p d = record {
  remaining = p.remaining;
  interval = p.interval;
  last_drip = or_else p.last_drip d.last_drip;
}

pub record Cache : Type 1 where
  pub Store : Type 0
  pub get : Key → Store → Option CooldownData
  pub put : Key → CooldownData → Store → Store
  pub patch : Key → CooldownPatch → Store → Store
  pub remove : Key → Store → Store
  pub get-put : (k : Key) (d : CooldownData) (s : Store) → get k (put k d s) ≡ some d
  pub get-patch :
      (k : Key) (p : CooldownPatch) (s : Store) (d : CooldownData)
      → get k s ≡ some d
      → get k (patch k p s) ≡ some (merge p d)
  pub get-remove : (k : Key) (s : Store) → get k (remove k s) ≡ none
  pub get-put_ne : (k j : Key) (d : CooldownData) (s : Store) → k ≢ j → get j (put k d s) ≡ get j s
  pub get-patch_ne :
      (k j : Key) (p : CooldownPatch) (s : Store) → k ≢ j → get j (patch k p s) ≡ get j s
  pub get-remove_ne : (k j : Key) (s : Store) → k ≢ j → get j (remove k s) ≡ get j s

-- `CooldownResource.set`: a missing `lastDrip` is the current time.
module _ (c : Cache) where
  unfoldable pub set : Key → CooldownPatch → ℕ → c.Store → c.Store
  set k p now s =
      c.put k
        (record {
          remaining = p.remaining;
          interval = p.interval;
          last_drip = or_else p.last_drip (nat now);
        })
        s

pub Key-discrete : Discrete Key
Key-discrete = hlevel ℕ_discrete
