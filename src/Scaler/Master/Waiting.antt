-- ===== src/Scaler/Master/Waiting.antt =====
-- master.ts: no request to identify is stranded.
use extra.Prelude.{
  ℕ, ◌+◌, ◌≡◌, refl, sym, ap, subst, Bool, true, false, Option, none, some, List, [], ◌∷◌, ◌++◌,
  ltb, ◌==◌, if◌then◌else◌, Bool-cases, Option-cases, inl, inr, ◌&&◌, lookup, lookup-insert, arith,
}
use extra.Scaler.Master.{PendingIdentifyGrant, IdentifyBucket, ScalerMaster}
use extra.Scaler.Master.Identify.{
  identify_gate_ms, schedule_identify, next_grantable, can_grant_identify, put_bucket,
  send_next_identify, fire_identify, sent_identify, bucket_or_new, enqueue_identify,
}
use extra.Scaler.Master.Agents.{AgentMessage, receive}
use extra.Scaler.Master.Calls.{launch, stop, terminate_all, close}
use extra.Scaler.Master.Operations.{
  MasterAction, launches_worker, stops_worker, posts, closes, catches, checks, accepts, receives,
  pongs, disconnects, handshake_timer, acknowledges, request_timer, send_fails, identify_timer,
  identify_sent, step,
}
use extra.Scaler.Master.Grants.Steps.{launch-grants, stop-grants}
use extra.Scaler.Master.Kept.{view, grants, answer_request-view}
use extra.Scaler.Master.Kept.Agents.{receive-Moves}
use extra.Scaler.Master.Kept.Calls.{
  acknowledge-view, catch_launch-view, post_message-view, time_out-view, handshake_time_out-view,
  accept-view, see_pong-view, check_hosts-view, disconnected-view,
}

-- If a request waits in the queue, the timer is set or a grant is being sent.
abbrev pub awaits : IdentifyBucket → Bool
awaits b = elim b.queue [ [] ↦ true | _ ∷ _ ↦ elim b.timer [ none ↦ b.sending | some due ↦ true ] ]

abbrev pub IsAwaited : Option IdentifyBucket → Type 0
IsAwaited none = Unit
IsAwaited (some b) = awaits b ≡ true

schedule_identify-awaits : (now : ℕ) (b : IdentifyBucket) → awaits (schedule_identify now b) ≡ true
unfolding schedule_identify
schedule_identify-awaits now b = ground arith

module _ (k : ℕ) where
  abbrev pub bucket : ScalerMaster → Option IdentifyBucket
  bucket s = lookup k s.identify_buckets

  put_bucket-IsAwaited :
      (j : ℕ) (b : IdentifyBucket) (s : ScalerMaster)
      → awaits b ≡ true
      → IsAwaited (bucket s)
      → IsAwaited (bucket (put_bucket j b s))
  put_bucket-IsAwaited j b s w p =
      subst IsAwaited (sym (lookup-insert k j b s.identify_buckets)) (go (j == k))
    where
      go : (c : Bool) → IsAwaited (if c then some b else bucket s)
      go true = w
      go false = p

  module _ (now : ℕ) where
    send_next_identify-IsAwaited :
        (is_open : ℕ → Bool) (j : ℕ) (b : IdentifyBucket) (s : ScalerMaster)
        → b.timer ≡ none
        → IsAwaited (bucket s)
        → IsAwaited (bucket (send_next_identify is_open now j b s))
    unfolding send_next_identify
    send_next_identify-IsAwaited is_open j b s n p =
        elim (Option-cases (next_grantable (can_grant_identify is_open s.hosts) b.queue).0) [
          | inl e ↦
              rw (e, send_next_identify)
                (put_bucket-IsAwaited j (schedule_identify now rested) s
                  (schedule_identify-awaits now rested) p)
          | inr (g, e) ↦
              rw (e, send_next_identify)
                (put_bucket-IsAwaited j (record b { queue = rest; sending = true }) s
                  (ground (arith, n)) p)
        ]
      where
        rest : List PendingIdentifyGrant
        rest = (next_grantable (can_grant_identify is_open s.hosts) b.queue).1

        rested : IdentifyBucket
        rested = record b { queue = rest; sending = false }

    fire_identify-IsAwaited :
        (is_open : ℕ → Bool) (j : ℕ) (s : ScalerMaster)
        → IsAwaited (bucket s)
        → IsAwaited (bucket (fire_identify is_open now j s))
    unfolding fire_identify
    fire_identify-IsAwaited is_open j s p = elim (Option-cases (lookup j s.identify_buckets)) [
      | inl e ↦ rw (e, fire_identify) p
      | inr (b, e) ↦ elim (Option-cases b.timer) [
        | inl n ↦ rw (e, n, fire_identify) p
        | inr (due, n) ↦ elim (Bool-cases (ltb now due)) [
          | inl early ↦ rw (e, n, early, fire_identify) p
          | inr late ↦ elim (Bool-cases b.sending) [
            | inl busy ↦
                rw (e, n, late, busy, fire_identify)
                  (put_bucket-IsAwaited j (record b { timer = none; sending = true }) s
                    (ground arith) p)
            | inr idle ↦
                rw (e, n, late, idle, fire_identify)
                  (send_next_identify-IsAwaited is_open j
                    (record b { timer = none; sending = false }) s refl p)
          ]
        ]
      ]
    ]

    sent_identify-IsAwaited :
        (j handle : ℕ) (sends : Bool) (s : ScalerMaster)
        → IsAwaited (bucket s)
        → IsAwaited (bucket (sent_identify now j handle sends s))
    unfolding sent_identify
    sent_identify-IsAwaited j handle sends s p = elim (Option-cases (lookup j s.identify_buckets)) [
      | inl e ↦ rw (e, sent_identify) p
      | inr (b, e) ↦ elim (Bool-cases (b.handle == handle && b.sending)) [
        | inr other ↦ rw (e, other, sent_identify) p
        | inl same ↦
            let rested = record b { available_at = now + identify_gate_ms; sending = false } in
            let q =
              put_bucket-IsAwaited j (schedule_identify now rested) s
                (schedule_identify-awaits now rested) p in
            elim (Bool-cases sends) [
              | inl ok ↦ rw (e, same, ok, sent_identify) q
              | inr ko ↦ rw (e, same, ko, sent_identify) q
            ]
      ]
    ]

    enqueue_identify-IsAwaited :
        (j : ℕ) (g : PendingIdentifyGrant) (s : ScalerMaster)
        → IsAwaited (bucket s)
        → IsAwaited (bucket (enqueue_identify now j g s))
    unfolding enqueue_identify
    enqueue_identify-IsAwaited j g s p =
        let b = bucket_or_new now s.next_handle (lookup j s.identify_buckets) in
        put_bucket-IsAwaited j _ s
          (schedule_identify-awaits now (record b { queue = b.queue ++ g ∷ [] })) p

    receive-IsAwaited :
        (h : ℕ) (m : AgentMessage) (s : ScalerMaster)
        → IsAwaited (bucket s)
        → IsAwaited (bucket (receive now h m s))
    receive-IsAwaited h m s p = elim (receive-Moves 0 k now h m s) [
      | inl e ↦ subst IsAwaited (sym (ap (λ v. v.1.0) e)) p
      | inr (j, g, t, e, q) ↦
          subst (λ r. IsAwaited (bucket r)) (sym q)
            (enqueue_identify-IsAwaited j g t (subst IsAwaited (sym (ap (λ v. v.1.0) e)) p))
    ]

terminate_all-bucket :
    (k : ℕ) (hs : List ℕ) (s : ScalerMaster) → bucket k (terminate_all hs s) ≡ bucket k s
unfolding terminate_all
terminate_all-bucket k [] s = refl
terminate_all-bucket k (h ∷ hs) s = terminate_all-bucket k hs _

closed-IsAwaited : (k : ℕ) (s : ScalerMaster) → IsAwaited (bucket k (close s))
unfolding close lookup
closed-IsAwaited k s = subst IsAwaited (sym (terminate_all-bucket k s.connections _)) tt

-- Whatever happens: if a request to identify waits in a bucket, the bucket has a timer, or a grant is
-- being sent whose end looks at the queue again, so that no request is stranded.
pub step-IsAwaited :
    (k : ℕ) (is_open : ℕ → Bool) (now : ℕ) (a : MasterAction) (s : ScalerMaster)
    → IsAwaited (bucket k s)
    → IsAwaited (bucket k (step is_open now a s))
unfolding step
step-IsAwaited k is_open now a s p = go a
  where
    same : (x : Option IdentifyBucket × List ℕ) → x ≡ grants k s → IsAwaited x.0
    same x e = subst IsAwaited (sym (ap (λ v. v.0) e)) p

    kept : (x : ℕ × (Option IdentifyBucket × List ℕ)) → x ≡ view 0 k s → IsAwaited x.1.0
    kept x e = same x.1 (ap (λ v. v.1) e)

    go : (b : MasterAction) → IsAwaited (bucket k (step is_open now b s))
    go (launches_worker target w i topology j) =
        same (grants k (launch is_open now target w i topology j s).0)
          (launch-grants k now is_open target w i topology j s)
    go (stops_worker target w i j) =
        same (grants k (stop is_open now target w i j s).0)
          (stop-grants k now is_open target w i j s)
    go (posts target w i) = kept _ (post_message-view 0 k is_open target w i s)
    go closes = closed-IsAwaited k s
    go catches = kept _ (catch_launch-view 0 k s)
    go checks = kept _ (check_hosts-view 0 k now s.connections s)
    go (accepts header) = kept _ (accept-view 0 k now header s)
    go (receives h m) = receive-IsAwaited k now h m s p
    go (pongs h) = kept _ (see_pong-view 0 k now h s)
    go (disconnects h) = kept _ (disconnected-view 0 k h s)
    go (handshake_timer h) = kept _ (handshake_time_out-view 0 k now h s)
    go (acknowledges h sends) = kept _ (acknowledge-view 0 k h sends s)
    go (request_timer i) = kept _ (time_out-view 0 k now i s)
    go (send_fails i) = kept _ (answer_request-view 0 k i false s)
    go (identify_timer j) = fire_identify-IsAwaited k now is_open j s p
    go (identify_sent j h sends) = sent_identify-IsAwaited k now j h sends s p
