-- ===== src/Scaler/Master/Grants/Steps.antt =====
-- master.ts: the grants of a bucket are spaced out, whatever happens.
use extra.Prelude.{
  ℕ, ◌≤◌, ◌≡◌, ◌≢◌, refl, sym, ap, subst, Bool, false, Option, List, inl, inr, lookup, arith,
}
use extra.Scaler.Master.{
  AllocationIdentity, ShardTopology, PlacementLocation, IdentifyBucket, ScalerMaster,
}
use extra.Scaler.Master.Agents.{AgentMessage, receive}
use extra.Scaler.Master.Calls.{request, launch, stop}
use extra.Scaler.Master.Operations.{
  MasterAction, launches_worker, stops_worker, posts, closes, catches, checks, accepts, receives,
  pongs, disconnects, handshake_timer, acknowledges, request_timer, send_fails, identify_timer,
  identify_sent, step,
}
use extra.Scaler.Master.Kept.{view, grants, times, answer_request-view}
use extra.Scaler.Master.Kept.Agents.{receive-Moves}
use extra.Scaler.Master.Kept.Calls.{
  acknowledge-view, catch_launch-view, post_message-view, time_out-view, handshake_time_out-view,
  accept-view, see_pong-view, check_hosts-view, disconnected-view,
}
use extra.Scaler.Master.Grants.{
  Fits-mono, enqueue_identify-IsPaced, fire_identify-IsPaced, sent_identify-IsPaced, IsPaced,
  free_at,
}

module _ (k now : ℕ) where
  receive-IsPaced :
      (h : ℕ) (m : AgentMessage) (s : ScalerMaster)
      → IsPaced now (grants k s)
      → IsPaced now (grants k (receive now h m s))
  receive-IsPaced h m s p = elim (receive-Moves 0 k now h m s) [
    | inl e ↦ subst (IsPaced now) (sym (ap (λ v. v.1) e)) p
    | inr (j, g, t, e, q) ↦
        subst (λ r. IsPaced now (grants k r)) (sym q)
          (enqueue_identify-IsPaced k now j g t (subst (IsPaced now) (sym (ap (λ v. v.1) e)) p))
  ]

  pub launch-grants :
      (is_open : ℕ → Bool) (t : PlacementLocation) (w : ℕ) (i : AllocationIdentity)
      (topology : ShardTopology) (j : ℕ) (s : ScalerMaster)
      → grants k (launch is_open now t w i topology j s).0 ≡ grants k s
  unfolding launch request
  launch-grants is_open t w i topology j s = ground arith

  pub stop-grants :
      (is_open : ℕ → Bool) (t : PlacementLocation) (w : ℕ) (i : AllocationIdentity) (j : ℕ)
      (s : ScalerMaster)
      → grants k (stop is_open now t w i j s).0 ≡ grants k s
  unfolding stop request
  stop-grants is_open t w i j s = ground arith

-- In a time that does not go back, whatever happens until the master closes: each grant to identify
-- in a bucket is sent 5500 milliseconds or more after the one before it. In between the bucket is
-- sending, or neither it nor its timer is free before that.
pub step-IsPaced :
    (k : ℕ) (is_open : ℕ → Bool) (t now : ℕ) (a : MasterAction) (s : ScalerMaster)
    → t ≤ now
    → a ≢ closes
    → IsPaced t (grants k s)
    → IsPaced now (grants k (step is_open now a s))
unfolding step
step-IsPaced k is_open t now a s l still p = go a still
  where
    q : IsPaced now (grants k s)
    q = (p.0, Fits-mono t now (free_at (times k s.out)) (lookup k s.identify_buckets) l p.1)

    same : (x : Option IdentifyBucket × List ℕ) → x ≡ grants k s → IsPaced now x
    same x e = subst (IsPaced now) (sym e) q

    kept : (x : ℕ × (Option IdentifyBucket × List ℕ)) → x ≡ view 0 k s → IsPaced now x.1
    kept x e = same x.1 (ap (λ v. v.1) e)

    go : (b : MasterAction) → b ≢ closes → IsPaced now (grants k (step is_open now b s))
    go (launches_worker target w i topology j) n =
        same (grants k (launch is_open now target w i topology j s).0)
          (launch-grants k now is_open target w i topology j s)
    go (stops_worker target w i j) n =
        same (grants k (stop is_open now target w i j s).0)
          (stop-grants k now is_open target w i j s)
    go (posts target w i) n = kept _ (post_message-view 0 k is_open target w i s)
    go closes n = absurd (n refl)
    go catches n = kept _ (catch_launch-view 0 k s)
    go checks n = kept _ (check_hosts-view 0 k now s.connections s)
    go (accepts header) n = kept _ (accept-view 0 k now header s)
    go (receives h m) n = receive-IsPaced k now h m s q
    go (pongs h) n = kept _ (see_pong-view 0 k now h s)
    go (disconnects h) n = kept _ (disconnected-view 0 k h s)
    go (handshake_timer h) n = kept _ (handshake_time_out-view 0 k now h s)
    go (acknowledges h sends) n = kept _ (acknowledge-view 0 k h sends s)
    go (request_timer i) n = kept _ (time_out-view 0 k now i s)
    go (send_fails i) n = kept _ (answer_request-view 0 k i false s)
    go (identify_timer j) n = fire_identify-IsPaced k now is_open j s q
    go (identify_sent j h sends) n = sent_identify-IsPaced k now j h sends s q
