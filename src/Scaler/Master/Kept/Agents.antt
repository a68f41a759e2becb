-- ===== src/Scaler/Master/Kept/Agents.antt =====
-- master.ts: what the messages of an agent keep.
use extra.Prelude.{
  ℕ, ◌≡◌, refl, ◌∙◌, Bool, true, false, Option, none, some, List, Bool-cases, Option-cases, inl,
  inr, ◌⊎◌, lookup, insert, ◌%◌, arith,
}
use extra.Scaler.Master.{
  AllocationIdentity, ShardTopology, HostDescriptor, ObservedWorker, HostConnection, launches,
  stops, PendingIdentifyGrant, ScalerMaster, fail_receive, put_host,
}
use extra.Scaler.Master.Identify.{
  IdentifyRequest, enqueue_identify, is_current, observed_at, adopt_respawn, judge_identify,
  identify,
}
use extra.Scaler.Master.Agents.{
  AgentMessage, hello_from, worker_is_ready, worker_exited, identify_request, worker_says,
  agent_fails, master_only, greet, close_previous, hello, accept_ready, accept_exit, agent_error,
  receive_known, receive_first, receive_from, receive, same_option, drop_route, observe_workers,
}
use extra.Scaler.Master.Kept.{
  view, answer_request-view, settle-view, emit_snapshot-view, route_worker-view, route_workers-view,
}

module _ (id k : ℕ) where
  pub close_previous-view :
      (h : ℕ) (o : Option ℕ) (s : ScalerMaster) → view id k (close_previous h o s) ≡ view id k s
  close_previous-view h none s = refl
  close_previous-view h (some p) s = ground arith

  pub greet-view :
      (h : ℕ) (host : HostConnection) (d : HostDescriptor) (ws : List ObservedWorker)
      (s : ScalerMaster)
      → view id k (greet h host d ws s) ≡ view id k s
  unfolding greet
  greet-view h host d ws s =
      let observed = observe_workers ws host.observed in
      let s' =
        put_host h
          (record host { descriptor = some d; handshake_timer = none; observed = observed }) s in
      let previous = lookup d.host_id s.hosts_by_id in
      let s'' = close_previous h previous s' in
      route_workers-view id k h observed
        (record s'' { hosts_by_id = insert d.host_id h s.hosts_by_id })
      ∙ close_previous-view h previous s'

  pub hello-view :
      (h : ℕ) (host : HostConnection) (d : HostDescriptor) (ws : List ObservedWorker)
      (s : ScalerMaster)
      → view id k (hello h host d ws s) ≡ view id k s
  unfolding hello fail_receive
  hello-view h host d ws s = ground (arith, greet-view h host d ws s)

  pub accept_ready-view :
      (h : ℕ) (host : HostConnection) (w : ℕ) (i : AllocationIdentity) (t : ShardTopology)
      (r : Bool) (s : ScalerMaster)
      → view id k (accept_ready h host w i t r s) ≡ view id k s
  unfolding accept_ready
  accept_ready-view h host w i t r s =
      emit_snapshot-view id k h host.descriptor _
      ∙ (settle-view id k launches h w i true _ ∙ route_worker-view id k h w i _)

  pub drop_route-view :
      (h w : ℕ) (i : AllocationIdentity) (s : ScalerMaster)
      → view id k (drop_route h w i s) ≡ view id k s
  drop_route-view h w i s = ground arith

  pub drop_route-waits :
      (h w : ℕ) (i : AllocationIdentity) (s : ScalerMaster)
      → (drop_route h w i s).pending ≡ s.pending
  drop_route-waits h w i s = ground arith

  pub accept_exit-view :
      (h : ℕ) (host : HostConnection) (w : ℕ) (i : AllocationIdentity) (s : ScalerMaster)
      → view id k (accept_exit h host w i s) ≡ view id k s
  unfolding accept_exit
  accept_exit-view h host w i s =
      emit_snapshot-view id k h host.descriptor _
      ∙ (settle-view id k launches h w i false _
          ∙ (settle-view id k stops h w i true _ ∙ drop_route-view h w i _))

  pub agent_error-view :
      (r : Option ℕ) (s : ScalerMaster) → view id k (agent_error r s) ≡ view id k s
  unfolding agent_error
  agent_error-view none s = refl
  agent_error-view (some i) s = ground (arith, answer_request-view id k i false s)

  -- A message keeps the view, or its request to identify is put into a queue.
  abbrev pub Moves : ℕ → ScalerMaster → ScalerMaster → Type 0
  Moves now s s' =
      (view id k s' ≡ view id k s)
      ⊎ ((j : ℕ) × (g : PendingIdentifyGrant) × (t : ScalerMaster) × (view id k t ≡ view id k s)
          × (s' ≡ enqueue_identify now j g t))

  pub adopt_respawn-view :
      (h : ℕ) (host : HostConnection) (m : IdentifyRequest) (s : ScalerMaster)
      → view id k (adopt_respawn h host m s) ≡ view id k s
  unfolding adopt_respawn
  adopt_respawn-view h host m s = ground (arith, emit_snapshot-view id k h host.descriptor)

  judge_identify-Moves :
      (now h : ℕ) (m : IdentifyRequest) (s t : ScalerMaster)
      → view id k t ≡ view id k s
      → Moves now s (judge_identify now h m t)
  unfolding judge_identify
  judge_identify-Moves now h m s t e =
      elim (Bool-cases (is_current m (observed_at h m.worker_id t))) [
        | inl c ↦ rw (c, judge_identify) (inr (m.shard_id % m.max_concurrency, _, t, e, refl))
        | inr c ↦ rw (c, judge_identify) (inl e)
      ]

  identify-Moves :
      (now h : ℕ) (host : HostConnection) (m : IdentifyRequest) (s : ScalerMaster)
      → Moves now s (identify now h host m s)
  unfolding identify
  identify-Moves now h host m s = elim (Option-cases (lookup m.worker_id host.observed)) [
    | inl e ↦
        rw (e, identify)
          (judge_identify-Moves now h m s (adopt_respawn h host m s)
            (adopt_respawn-view h host m s))
    | inr (o, e) ↦ rw (e, identify) (judge_identify-Moves now h m s s refl)
  ]

  receive_known-Moves :
      (now h : ℕ) (host : HostConnection) (m : AgentMessage) (s : ScalerMaster)
      → Moves now s (receive_known now h host m s)
  unfolding receive_known fail_receive
  receive_known-Moves now h host (hello_from d ws) s = inl refl
  receive_known-Moves now h host (worker_is_ready w i t r) s =
      inl (ground (arith, accept_ready-view h host w i t r s))
  receive_known-Moves now h host (worker_exited w i) s = inl (accept_exit-view h host w i s)
  receive_known-Moves now h host (identify_request m) s = identify-Moves now h host m s
  receive_known-Moves now h host (worker_says w i) s = inl (ground arith)
  receive_known-Moves now h host (agent_fails r) s = inl (agent_error-view r s)
  receive_known-Moves now h host master_only s = inl refl

  pub receive_first-view :
      (h : ℕ) (host : HostConnection) (m : AgentMessage) (s : ScalerMaster)
      → view id k (receive_first h host m s) ≡ view id k s
  unfolding receive_first fail_receive
  receive_first-view h host (hello_from d ws) s = hello-view h host d ws s
  receive_first-view h host (worker_is_ready w i t r) s = refl
  receive_first-view h host (worker_exited w i) s = refl
  receive_first-view h host (identify_request m) s = refl
  receive_first-view h host (worker_says w i) s = refl
  receive_first-view h host (agent_fails r) s = refl
  receive_first-view h host master_only s = refl

  receive_from-Moves :
      (now h : ℕ) (host : HostConnection) (m : AgentMessage) (s : ScalerMaster)
      → Moves now s (receive_from now h host m s)
  unfolding receive_from
  receive_from-Moves now h host m s = elim (Option-cases host.descriptor) [
    | inl e ↦ rw (e, receive_from) (inl (receive_first-view h host m s))
    | inr (d, e) ↦ elim (Bool-cases (same_option (lookup d.host_id s.hosts_by_id) (some h))) [
      | inl b ↦ rw (e, b, receive_from) (receive_known-Moves now h host m s)
      | inr b ↦ rw (e, b, receive_from) (inl refl)
    ]
  ]

  pub receive-Moves :
      (now h : ℕ) (m : AgentMessage) (s : ScalerMaster) → Moves now s (receive now h m s)
  unfolding receive
  receive-Moves now h m s = elim (Option-cases (lookup h s.hosts)) [
    | inl e ↦ rw (e, receive) (inl refl)
    | inr (host, e) ↦
        let host' = record host { last_seen_at = now } in
        rw (e, receive) (receive_from-Moves now h host' m (put_host h host' s))
  ]
