-- ===== src/Scaler/Master/Requests.antt =====
-- master.ts: every request is answered once.
use extra.Prelude.{
  ℕ, ◌+◌, ◌≡◌, refl, ap, ◌∙◌, Bool, true, false, Option, none, some, List, [], ◌∷◌, ◌==◌,
  if◌then◌else◌, Bool-cases, Option-cases, inl, inr, ◌⊎◌, lookup, insert, remove_key, lookup-insert,
  lookup-remove_key, length, arith,
}
use extra.Scaler.Master.{
  AllocationIdentity, ShardTopology, PlacementLocation, HostConnection, IdentifyBucket, launches,
  stops, RequestKind, PendingIdentifyGrant, PendingRequest, ScalerMaster, answer_request,
  reject_requests, put_host,
}
use extra.Scaler.Master.Identify.{
  send_next_identify, fire_identify, sent_identify, enqueue_identify,
}
use extra.Scaler.Master.Agents.{AgentMessage, receive, drop_route}
use extra.Scaler.Master.Calls.{
  MasterError, require_host, request, launch, launch_error, is_observed, stop, terminate_all, close,
}
use extra.Scaler.Master.Operations.{
  MasterAction, launches_worker, stops_worker, posts, closes, catches, checks, accepts, receives,
  pongs, disconnects, handshake_timer, acknowledges, request_timer, send_fails, identify_timer,
  identify_sent, step,
}
use extra.Scaler.Master.Kept.{account, one_if_some, answer_request-view, reject_requests-view}
use extra.Scaler.Master.Kept.Agents.{drop_route-view, drop_route-waits, receive-Moves}
use extra.Scaler.Master.Kept.Calls.{
  acknowledge-view, catch_launch-view, post_message-view, time_out-view, handshake_time_out-view,
  accept-view, see_pong-view, check_hosts-view, disconnected-view,
}

module _ (id : ℕ) where
  kept : {x y : ℕ × (Option IdentifyBucket × List ℕ)} → x ≡ y → x.0 ≡ y.0
  kept e = ap (λ v. v.0) e

  send_next_identify-account :
      (is_open : ℕ → Bool) (now k : ℕ) (b : IdentifyBucket) (s : ScalerMaster)
      → account id (send_next_identify is_open now k b s) ≡ account id s
  unfolding send_next_identify
  send_next_identify-account is_open now k b s = ground arith

  enqueue_identify-account :
      (now k : ℕ) (g : PendingIdentifyGrant) (s : ScalerMaster)
      → account id (enqueue_identify now k g s) ≡ account id s
  unfolding enqueue_identify
  enqueue_identify-account now k g s = refl

  fire_identify-account :
      (is_open : ℕ → Bool) (now k : ℕ) (s : ScalerMaster)
      → account id (fire_identify is_open now k s) ≡ account id s
  unfolding fire_identify
  fire_identify-account is_open now k s =
      ground (arith, λ (b : IdentifyBucket). send_next_identify-account is_open now k b s)

  sent_identify-account :
      (now k h : ℕ) (sends : Bool) (s : ScalerMaster)
      → account id (sent_identify now k h sends s) ≡ account id s
  unfolding sent_identify
  sent_identify-account now k h sends s = ground arith

  receive-account :
      (now h : ℕ) (m : AgentMessage) (s : ScalerMaster)
      → account id (receive now h m s) ≡ account id s
  receive-account now h m s = elim (receive-Moves id 0 now h m s) [
    | inl e ↦ kept e
    | inr (j, g, t, e, q) ↦ ap (account id) q ∙ (enqueue_identify-account now j g t ∙ kept e)
  ]

  answer_request-waits :
      (i : ℕ) (r : Bool) (s : ScalerMaster)
      → lookup id (answer_request i r s).pending ≡ (if i == id then none else lookup id s.pending)
  unfolding answer_request
  answer_request-waits i r s = ground (arith, lookup-remove_key id i s.pending)

  reject_all-waits :
      (m : List (ℕ × PendingRequest)) (s : ScalerMaster)
      → (lookup id m ≡ none → lookup id s.pending ≡ none)
      → lookup id (reject_requests (λ p. true) m s).pending ≡ none
  unfolding reject_requests lookup
  reject_all-waits [] s c = c refl
  reject_all-waits ((i, p) ∷ m) s c =
      reject_all-waits m (answer_request i false s)
        (λ e. ground (arith, c, e, answer_request-waits i false s))

  terminate_all-account :
      (hs : List ℕ) (s : ScalerMaster) → account id (terminate_all hs s) ≡ account id s
  unfolding terminate_all
  terminate_all-account [] s = refl
  terminate_all-account (h ∷ hs) s = terminate_all-account hs _

  close-account : (s : ScalerMaster) → account id (close s) ≡ account id s
  unfolding close lookup
  close-account s =
      terminate_all-account s.connections _
      ∙ omega (
        arith,
        kept (reject_requests-view id 0 (λ p. true) s.pending s),
        ap one_if_some (reject_all-waits s.pending s (λ e. e)),
      )

  -- One for a request that begins under the id.
  abbrev begins : (kept : Option MasterError) → (request : ℕ) → ℕ
  begins none i = if i == id then 1 else 0
  begins (some e) i = 0

  request-account :
      (now h w : ℕ) (i : AllocationIdentity) (j : ℕ) (k : RequestKind) (s : ScalerMaster)
      → ((j == id) ≡ true → lookup id s.pending ≡ none)
      → account id (request now h w i j k s) ≡ (if j == id then 1 else 0) + account id s
  unfolding request
  request-account now h w i j k s fresh = ground (arith, fresh, lookup-insert id j p s.pending)
    where
      p : PendingRequest
      p = record {
        host = h;
        worker_id = w;
        identity = i;
        kind = k;
        timer = now + s.request_timeout_ms;
      }

  launch-account :
      (is_open : ℕ → Bool) (now : ℕ) (t : PlacementLocation) (w : ℕ) (i : AllocationIdentity)
      (topology : ShardTopology) (j : ℕ) (s : ScalerMaster)
      → ((j == id) ≡ true → lookup id s.pending ≡ none)
      → account id (launch is_open now t w i topology j s).0
        ≡ begins (launch is_open now t w i topology j s).1 j + account id s
  unfolding launch
  launch-account is_open now t w i topology j s fresh = go (require_host is_open t s) refl
    where
      begun : ℕ → HostConnection → HostConnection
      begun h host = record host {
        respawns = remove_key w host.respawns;
        observed =
            insert w (record { worker_id = w; identity = i; topology = topology; ready = false })
              host.observed;
      }

      go :
          (r : MasterError ⊎ (ℕ × HostConnection))
          → require_host is_open t s ≡ r
          → account id (launch is_open now t w i topology j s).0
            ≡ begins (launch is_open now t w i topology j s).1 j + account id s
      go (inl x) e = rw (e, launch) (omega arith)
      go (inr (h, host)) e =
          elim (Option-cases
            (launch_error i (lookup w host.observed) (length host.observed) host.descriptor)) [
              | inl n ↦
                  rw (e, n, launch)
                    (request-account now h w i j launches (put_host h (begun h host) s) fresh)
              | inr (x, n) ↦ rw (e, n, launch) (omega arith)
            ]

  stop-account :
      (is_open : ℕ → Bool) (now : ℕ) (t : PlacementLocation) (w : ℕ) (i : AllocationIdentity)
      (j : ℕ) (s : ScalerMaster)
      → ((j == id) ≡ true → lookup id s.pending ≡ none)
      → account id (stop is_open now t w i j s).0
        ≡ begins (stop is_open now t w i j s).1 j + account id s
  unfolding stop
  stop-account is_open now t w i j s fresh = go (require_host is_open t s) refl
    where
      go :
          (r : MasterError ⊎ (ℕ × HostConnection))
          → require_host is_open t s ≡ r
          → account id (stop is_open now t w i j s).0
            ≡ begins (stop is_open now t w i j s).1 j + account id s
      go (inl x) e = rw (e, stop) (omega arith)
      go (inr (h, host)) e = elim (Bool-cases (is_observed i (lookup w host.observed))) [
        | inl n ↦
            rw (e, n, stop)
              (ground (
                arith,
                fresh,
                kept (drop_route-view id 0 h w i s),
                drop_route-waits id 0 h w i s,
                request-account now h w i j stops (drop_route h w i s),
              ))
        | inr n ↦ rw (e, n, stop) (omega arith)
      ]

  -- One for a call of `launch` or `stop` that begins a request under the id.
  abbrev pub asks : (is_open : ℕ → Bool) → (now : ℕ) → MasterAction → ScalerMaster → ℕ
  asks is_open now (launches_worker t w i topology j) s =
      begins (launch is_open now t w i topology j s).1 j
  asks is_open now (stops_worker t w i j) s = begins (stop is_open now t w i j s).1 j
  asks is_open now a s = 0

  -- Whether the action would begin a request under the id.
  abbrev pub uses_id : MasterAction → Bool
  uses_id (launches_worker t w i topology j) = j == id
  uses_id (stops_worker t w i j) = j == id
  uses_id a = false

  -- Where a new request has an id that no request waits under: whatever happens, the answers of a
  -- request and its place among those that wait are together one more exactly when it begins, and the
  -- same otherwise. So each request waits until it is answered, and is answered at most once.
  pub step-account :
      (is_open : ℕ → Bool) (now : ℕ) (a : MasterAction) (s : ScalerMaster)
      → (uses_id a ≡ true → lookup id s.pending ≡ none)
      → account id (step is_open now a s) ≡ asks is_open now a s + account id s
  unfolding step
  step-account is_open now (launches_worker t w i topology j) s fresh =
      launch-account is_open now t w i topology j s fresh
  step-account is_open now (stops_worker t w i j) s fresh = stop-account is_open now t w i j s fresh
  step-account is_open now (posts t w i) s fresh =
      omega (arith, kept (post_message-view id 0 is_open t w i s))
  step-account is_open now closes s fresh = omega (arith, close-account s)
  step-account is_open now catches s fresh = omega (arith, kept (catch_launch-view id 0 s))
  step-account is_open now checks s fresh =
      omega (arith, kept (check_hosts-view id 0 now s.connections s))
  step-account is_open now (accepts header) s fresh =
      omega (arith, kept (accept-view id 0 now header s))
  step-account is_open now (receives h m) s fresh = omega (arith, receive-account now h m s)
  step-account is_open now (pongs h) s fresh = omega (arith, kept (see_pong-view id 0 now h s))
  step-account is_open now (disconnects h) s fresh =
      omega (arith, kept (disconnected-view id 0 h s))
  step-account is_open now (handshake_timer h) s fresh =
      omega (arith, kept (handshake_time_out-view id 0 now h s))
  step-account is_open now (acknowledges h sends) s fresh =
      omega (arith, kept (acknowledge-view id 0 h sends s))
  step-account is_open now (request_timer i) s fresh =
      omega (arith, kept (time_out-view id 0 now i s))
  step-account is_open now (send_fails i) s fresh =
      omega (arith, kept (answer_request-view id 0 i false s))
  step-account is_open now (identify_timer k) s fresh =
      omega (arith, fire_identify-account is_open now k s)
  step-account is_open now (identify_sent k h sends) s fresh =
      omega (arith, sent_identify-account now k h sends s)
