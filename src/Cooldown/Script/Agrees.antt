-- ===== src/Cooldown/Script/Agrees.antt =====
-- manager.ts: consuming by the script and consuming by reads and writes of the cache agree.
use extra.Prelude.{
  ◌^◌, ltb, Bool-cases, Option, refl, ℕ, ◌+◌, ◌-◌, ◌≤◌, ◌<◌, ◌≡◌, sym, ap, ◌∙◌, ◌⊎◌, inl, inr, none,
  some, Option-cases, arith,
}
use extra.Cooldown.Numbers.{Num, nat, negsuc, max_safe_integer}
use extra.Cooldown.Resource.{CooldownData, Key, Key-discrete, Cache}
use extra.Cooldown.Bucket.{consume_stored_bucket}
use extra.Cooldown.Script.{hset_all, hset_remaining, consume_atomic}

-- Printing without rounding.
abbrev exactly : ℕ → ℕ
exactly n = n

module _ (c : Cache) (key : Key) (limit interval cost now : ℕ) (paid : 0 < cost)
    (enough : cost ≤ limit) (safe : limit ≤ max_safe_integer)
    (in_time : now + interval ≤ max_safe_integer) where
  results_none :
      (s : c.Store)
      → c.get key s ≡ none
      → ((consume_atomic c exactly key limit interval cost now s).1
          ≡ some (consume_stored_bucket c key limit interval cost now s).1)
  unfolding consume_atomic consume_stored_bucket
  results_none s e = ground arith

  results_some :
      (s : c.Store) (r l : Num) (i : ℕ)
      → c.get key s ≡ some (record { remaining = r; interval = i; last_drip = l })
      → ((consume_atomic c exactly key limit interval cost now s).1
          ≡ some (consume_stored_bucket c key limit interval cost now s).1)
  unfolding consume_atomic consume_stored_bucket
  results_some s (nat r) (nat l) i e = ground arith
  results_some s (nat r) (negsuc l) i e = ground arith
  results_some s r l i e = ground arith

  -- Both write the same, or both refill the bucket, as a new record and as a patch.
  abbrev refilled : CooldownData
  refilled = record { remaining = nat (limit - cost); interval = interval; last_drip = nat now }

  abbrev Writes : c.Store → CooldownData → Type 0
  Writes s d =
      let a = (consume_atomic c exactly key limit interval cost now s).0 in
      let b = (consume_stored_bucket c key limit interval cost now s).0 in
      (a ≡ b)
      ⊎ ((a ≡ c.put key refilled s)
          × (b
              ≡ c.patch key
                  (record {
                    remaining = nat (limit - cost);
                    interval = interval;
                    last_drip = some (nat now);
                  })
                  s))

  stores_none :
      (s : c.Store)
      → c.get key s ≡ none
      → (consume_atomic c exactly key limit interval cost now s).0
        ≡ (consume_stored_bucket c key limit interval cost now s).0
  unfolding consume_atomic consume_stored_bucket
  stores_none s e = ground arith

  stores_some :
      (s : c.Store) (r l : Num) (i : ℕ)
      → c.get key s ≡ some (record { remaining = r; interval = i; last_drip = l })
      → Writes s (record { remaining = r; interval = i; last_drip = l })
  unfolding consume_atomic consume_stored_bucket
  stores_some s (nat r) (nat l) i e = ground arith
  stores_some s (nat r) (negsuc l) i e = ground arith
  stores_some s r l i e = ground arith

  same_store :
      (s : c.Store) (d : CooldownData) (j : Key)
      → c.get key s ≡ some d
      → Writes s d
      → c.get j (consume_atomic c exactly key limit interval cost now s).0
        ≡ c.get j (consume_stored_bucket c key limit interval cost now s).0
  same_store s d j e (inl w) = ap (c.get j) w
  same_store s d j e (inr (a, b)) = elim (Key-discrete key j) [
    | yes p ↦ rw (a, b, ← p) (c.get-put key refilled s ∙ sym (c.get-patch key _ s d e))
    | no n ↦ rw (a, b) (c.get-put_ne key j _ s n ∙ sym (c.get-patch_ne key j _ s n))
  ]

  consume_exactly_agrees :
      (s : c.Store)
      → ((consume_atomic c exactly key limit interval cost now s).1
          ≡ some (consume_stored_bucket c key limit interval cost now s).1)
        × ((j : Key)
            → c.get j (consume_atomic c exactly key limit interval cost now s).0
              ≡ c.get j (consume_stored_bucket c key limit interval cost now s).0)
  consume_exactly_agrees s = elim (Option-cases (c.get key s)) [
    | inl e ↦ (results_none s e, λ j. ap (c.get j) (stores_none s e))
    | inr (d, e) ↦ (
      results_some s d.remaining d.last_drip d.interval e,
      λ j. same_store s d j e (stores_some s d.remaining d.last_drip d.interval e),
    )
  ]

-- Numbers below 10 ^ 14 are printed with all their digits.
abbrev pub PrintsShort : (ℕ → ℕ) → Type 0
PrintsShort printed = (n : ℕ) → n < 10 ^ 14 → printed n ≡ n

module _ (c : Cache) (printed : ℕ → ℕ) (key : Key) (limit interval cost now : ℕ)
    (prints : PrintsShort printed) (short : limit < 10 ^ 14)
    (early : now + interval < 10 ^ 14) where
  left : printed (limit - cost) ≡ limit - cost
  left = prints (limit - cost) (omega arith)

  every : printed interval ≡ interval
  every = prints interval (omega arith)

  time : printed now ≡ now
  time = prints now (omega arith)

  printed_consume :
      (s : c.Store) (o : Option CooldownData)
      → c.get key s ≡ o
      → consume_atomic c printed key limit interval cost now s
        ≡ consume_atomic c exactly key limit interval cost now s
  unfolding consume_atomic
  printed_consume s none e =
      rw (e, hset_all, hset_remaining, left, every, time, consume_atomic) refl
  printed_consume s (some d) e = go d.remaining d.last_drip d.interval e
    where
      go :
          (r l : Num) (i : ℕ)
          → c.get key s ≡ some (record { remaining = r; interval = i; last_drip = l })
          → consume_atomic c printed key limit interval cost now s
            ≡ consume_atomic c exactly key limit interval cost now s
      go (nat r) l i e = elim (Bool-cases (ltb limit r)) [
        | inl above ↦
            rw (e, hset_all, hset_remaining, left, every, time, above, consume_atomic)
              (ground arith)
        | inr within ↦
            let kept : printed (r - cost) ≡ r - cost = prints (r - cost) (ground arith) in
            rw (e, hset_all, left, every, time, consume_atomic)
              (ground (arith, kept, within, every))
      ]
      go r l i e =
          rw (e, hset_all, hset_remaining, left, every, time, consume_atomic) (ground arith)

  -- For a valid cost, a limit below 10 ^ 14 and times that stay below it, where numbers below
  -- 10 ^ 14 are printed exactly, consuming by Redis' script gives the same answer as consuming by
  -- reads and writes of the cache, and leaves the same record under every key.
  pub consume_atomic_agrees :
      (s : c.Store)
      → 0 < cost
      → cost ≤ limit
      → ((consume_atomic c printed key limit interval cost now s).1
          ≡ some (consume_stored_bucket c key limit interval cost now s).1)
        × ((j : Key)
            → c.get j (consume_atomic c printed key limit interval cost now s).0
              ≡ c.get j (consume_stored_bucket c key limit interval cost now s).0)
  consume_atomic_agrees s paid enough = rw (printed_consume s (c.get key s) refl) (
      consume_exactly_agrees c key limit interval cost now paid enough (omega arith) (omega arith)
        s)
