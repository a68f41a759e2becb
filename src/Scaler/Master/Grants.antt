-- ===== src/Scaler/Master/Grants.antt =====
-- master.ts: the grants of a bucket are spaced out.
pub mod Steps
use extra.Prelude.{
  ℕ, ◌+◌, ◌≤◌, ◌≡◌, ◌≢◌, refl, sym, ap, subst, ◌∙◌, Bool, true, false, Option, none, some, List, [],
  ◌∷◌, ltb, ◌==◌, ==_iff, if◌then◌else◌, Bool-cases, Option-cases, inl, inr, ◌⊎◌, ◌&&◌, lookup,
  insert, lookup-insert, arith,
}
use extra.Scaler.Master.{
  AllocationIdentity, ShardTopology, PlacementLocation, PendingIdentifyGrant, IdentifyBucket,
  granted, ScalerMaster,
}
use extra.Scaler.Master.Identify.{
  identify_gate_ms, schedule_identify, next_grantable, can_grant_identify, put_bucket,
  send_next_identify, fire_identify, sent_identify, enqueue_identify,
}
use extra.Scaler.Master.Agents.{AgentMessage, receive}
use extra.Scaler.Master.Calls.{request, launch, stop}
use extra.Scaler.Master.Operations.{
  MasterAction, launches_worker, stops_worker, posts, closes, catches, checks, accepts, receives,
  pongs, disconnects, handshake_timer, acknowledges, request_timer, send_fails, identify_timer,
  identify_sent, step,
}
use extra.Scaler.Master.Kept.{view, grants, times, answer_request-view}
use extra.Scaler.Master.Kept.Agents.{receive-Moves}
use extra.Scaler.Master.Kept.Calls.{
  acknowledge-view, catch_launch-view, post_message-view, time_out-view, handshake_time_out-view,
  accept-view, see_pong-view, check_hosts-view, disconnected-view,
}

-- The time from which the next grant may follow the latest.
abbrev pub free_at : List ℕ → ℕ
free_at [] = 0
free_at (t ∷ ts) = t + identify_gate_ms

-- Each grant follows the one before by `identify_gate_ms` at least.
abbrev pub IsSpaced : List ℕ → Type 0
IsSpaced [] = Unit
IsSpaced (t ∷ ts) = (free_at ts ≤ t) × IsSpaced ts

abbrev due_or : ℕ → Option ℕ → ℕ
due_or a none = a
due_or a (some due) = due

-- A bucket that sends has no timer; another is not free, and its timer is not due, before `n`.
abbrev pub Fits : (now n : ℕ) → Option IdentifyBucket → Type 0
Fits now n none = n ≤ now
Fits now n (some b) =
    ((b.sending ≡ true) × (b.timer ≡ none) × (n ≤ now + identify_gate_ms))
    ⊎ ((b.sending ≡ false) × (n ≤ b.available_at) × (n ≤ due_or b.available_at b.timer))

abbrev pub IsPaced : (now : ℕ) → Option IdentifyBucket × List ℕ → Type 0
IsPaced now (o, ts) = IsSpaced ts × Fits now (free_at ts) o

pub Fits-mono : (t now n : ℕ) (o : Option IdentifyBucket) → t ≤ now → Fits t n o → Fits now n o
Fits-mono t now n none l f = omega (arith, l, f)
Fits-mono t now n (some b) l f = ground (arith, l, f)

-- A bucket that does not send and may be used from `n` on.
abbrev IsFree : ℕ → IdentifyBucket → Type 0
IsFree n b = (b.sending ≡ false) × (n ≤ b.available_at) × (n ≤ due_or b.available_at b.timer)

schedule_identify-IsFree :
    (now n : ℕ) (b : IdentifyBucket) → IsFree n b → IsFree n (schedule_identify now b)
unfolding schedule_identify
schedule_identify-IsFree now n b f = ground (arith, f)

module _ (k now : ℕ) where
  put_bucket-IsPaced :
      (j : ℕ) (b : IdentifyBucket) (s : ScalerMaster)
      → IsPaced now (grants k s)
      → ((j == k) ≡ true → Fits now (free_at (times k s.out)) (some b))
      → IsPaced now (grants k (put_bucket j b s))
  put_bucket-IsPaced j b s p f = (
    p.0,
    subst (Fits now (free_at (times k s.out))) (sym (lookup-insert k j b s.identify_buckets))
        (go (j == k) refl),
  )
    where
      go :
          (c : Bool)
          → (j == k) ≡ c
          → Fits now (free_at (times k s.out)) (if c then some b else lookup k s.identify_buckets)
      go true e = f e
      go false e = p.1

  same_lookup :
      (j : ℕ) (s : ScalerMaster)
      → (j == k) ≡ true
      → lookup j s.identify_buckets ≡ lookup k s.identify_buckets
  same_lookup j s e = ap (λ i. lookup i s.identify_buckets) ((==_iff j k).0 e)

  -- What the invariant says of the bucket of an action.
  Fits-at :
      (j : ℕ) (b : IdentifyBucket) (s : ScalerMaster)
      → IsPaced now (grants k s)
      → lookup j s.identify_buckets ≡ some b
      → (j == k) ≡ true
      → Fits now (free_at (times k s.out)) (some b)
  Fits-at j b s p e q = subst (Fits now (free_at (times k s.out))) (sym (same_lookup j s q) ∙ e) p.1

  -- A grant at `now`, for a bucket that is free.
  granted-IsPaced :
      (j r : ℕ) (b : IdentifyBucket) (s : ScalerMaster)
      → b.timer ≡ none
      → IsPaced now (grants k s)
      → ((j == k) ≡ true → free_at (times k s.out) ≤ now)
      → IsPaced now (
        lookup k (insert j (record b { sending = true }) s.identify_buckets),
        times k (granted j now r ∷ s.out),
      )
  granted-IsPaced j r b s n p free =
      subst (λ o. IsPaced now (o, times k (granted j now r ∷ s.out)))
        (sym (lookup-insert k j (record b { sending = true }) s.identify_buckets))
        (go (j == k) refl)
    where
      go :
          (c : Bool)
          → (j == k) ≡ c
          → IsPaced now (
            if c then some (record b { sending = true }) else lookup k s.identify_buckets,
            if c then now ∷ times k s.out else times k s.out,
          )
      go true e = ((free e, p.0), inl (refl, n, omega arith))
      go false e = p

  send_next_identify-IsPaced :
      (is_open : ℕ → Bool) (j : ℕ) (b : IdentifyBucket) (s : ScalerMaster)
      → b.timer ≡ none
      → IsPaced now (grants k s)
      → ((j == k) ≡ true
          → (free_at (times k s.out) ≤ now) × (free_at (times k s.out) ≤ b.available_at))
      → IsPaced now (grants k (send_next_identify is_open now j b s))
  unfolding send_next_identify
  send_next_identify-IsPaced is_open j b s n p free =
      elim (Option-cases (next_grantable (can_grant_identify is_open s.hosts) b.queue).0) [
        | inl e ↦
            rw (e, send_next_identify)
              (put_bucket-IsPaced j (schedule_identify now rested) s p (λ q. inr (
                schedule_identify-IsFree now _ rested
                  (refl, (free q).1, ground (arith, n, free q)))))
        | inr (g, e) ↦
            rw (e, send_next_identify)
              (granted-IsPaced j g.request_id (record b { queue = rest }) s n p (λ q. (free q).0))
      ]
    where
      rest : List PendingIdentifyGrant
      rest = (next_grantable (can_grant_identify is_open s.hosts) b.queue).1

      rested : IdentifyBucket
      rested = record b { queue = rest; sending = false }

  pub fire_identify-IsPaced :
      (is_open : ℕ → Bool) (j : ℕ) (s : ScalerMaster)
      → IsPaced now (grants k s)
      → IsPaced now (grants k (fire_identify is_open now j s))
  unfolding fire_identify
  fire_identify-IsPaced is_open j s p = elim (Option-cases (lookup j s.identify_buckets)) [
    | inl e ↦ rw (e, fire_identify) p
    | inr (b, e) ↦ elim (Option-cases b.timer) [
      | inl n ↦ rw (e, n, fire_identify) p
      | inr (due, n) ↦ elim (Bool-cases (ltb now due)) [
        | inl early ↦ rw (e, n, early, fire_identify) p
        | inr late ↦ elim (Bool-cases b.sending) [
          | inl busy ↦
              rw (e, n, late, busy, fire_identify)
                (put_bucket-IsPaced j (record b { timer = none; sending = true }) s p
                  (λ q. ground (arith, Fits-at j b s p e q, busy, n)))
          | inr idle ↦
              rw (e, n, late, idle, fire_identify)
                (send_next_identify-IsPaced is_open j (record b { timer = none; sending = false }) s
                  refl p (λ q. ground (arith, Fits-at j b s p e q, idle, n, late)))
        ]
      ]
    ]
  ]

  pub sent_identify-IsPaced :
      (j handle : ℕ) (sends : Bool) (s : ScalerMaster)
      → IsPaced now (grants k s)
      → IsPaced now (grants k (sent_identify now j handle sends s))
  unfolding sent_identify
  sent_identify-IsPaced j handle sends s p = elim (Option-cases (lookup j s.identify_buckets)) [
    | inl e ↦ rw (e, sent_identify) p
    | inr (b, e) ↦ elim (Bool-cases (b.handle == handle && b.sending)) [
      | inr other ↦ rw (e, other, sent_identify) p
      | inl same ↦
          let rested = record b { available_at = now + identify_gate_ms; sending = false } in
          let fits : (j == k) ≡ true
              → Fits now (free_at (times k s.out)) (some (schedule_identify now rested)) =
            λ q.
              inr (
                schedule_identify-IsFree now _ rested
                  (ground (arith, Fits-at j b s p e q, same))) in
          elim (Bool-cases sends) [
            | inl ok ↦
                rw (e, same, ok, sent_identify)
                  (put_bucket-IsPaced j (schedule_identify now rested) s p fits)
            | inr ko ↦
                rw (e, same, ko, sent_identify)
                  (put_bucket-IsPaced j (schedule_identify now rested) s p fits)
          ]
    ]
  ]

  pub enqueue_identify-IsPaced :
      (j : ℕ) (g : PendingIdentifyGrant) (s : ScalerMaster)
      → IsPaced now (grants k s)
      → IsPaced now (grants k (enqueue_identify now j g s))
  unfolding enqueue_identify schedule_identify
  enqueue_identify-IsPaced j g s p = elim (Option-cases (lookup j s.identify_buckets)) [
    | inl e ↦
        rw (e, enqueue_identify)
          (put_bucket-IsPaced j _ s p (λ q. ground (arith, p.1, e, same_lookup j s q)))
    | inr (b, e) ↦
        rw (e, enqueue_identify)
          (put_bucket-IsPaced j _ s p (λ q. ground (arith, Fits-at j b s p e q)))
  ]
