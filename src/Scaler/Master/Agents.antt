-- ===== src/Scaler/Master/Agents.antt =====
-- packages/scaler/src/master.ts: what the master does with the messages of an agent.
use extra.Prelude.{
  ℕ, Bool, true, false, not, ◌&&◌, ◌||◌, Option, none, some, List, [], ◌∷◌, length, ltb, ◌==◌,
  if◌then◌else◌, lookup, insert, remove_key,
}
use extra.Scaler.Master.{
  AllocationIdentity, ShardTopology, HostDescriptor, ObservedWorker, Respawn, HostConnection, Route,
  launches, stops, PendingRequest, host_connected, acknowledged, closed_connection, worker_ready,
  worker_exit, worker_message, failure, ScalerMaster, same_identity, tell, put_host, fail_receive,
  emit_snapshot, answer_request, is_for, settle,
}
use extra.Scaler.Master.Identify.{IdentifyRequest, identify}

pub data AgentMessage : Type 0 where
  hello_from : HostDescriptor → List ObservedWorker → AgentMessage
  worker_is_ready :
      (worker : ℕ) → AllocationIdentity → ShardTopology → (restarted : Bool) → AgentMessage
  worker_exited : (worker : ℕ) → AllocationIdentity → AgentMessage
  identify_request : IdentifyRequest → AgentMessage
  worker_says : (worker : ℕ) → AllocationIdentity → AgentMessage
  agent_fails : (request : Option ℕ) → AgentMessage
  master_only : AgentMessage

unfoldable pub same_option : Option ℕ → Option ℕ → Bool
same_option none none = true
same_option none (some b) = false
same_option (some a) none = false
same_option (some a) (some b) = a == b

abbrev id_of : Option HostDescriptor → Option ℕ
id_of none = none
id_of (some d) = some d.host_id

-- `host.descriptor?.hostId`.
unfoldable pub host_id_of : ℕ → ScalerMaster → Option ℕ
host_id_of h s = elim (lookup h s.hosts) [ none ↦ none | some host ↦ id_of host.descriptor ]

unfoldable pub route_worker : (host worker : ℕ) → AllocationIdentity → ScalerMaster → ScalerMaster
unfolding same_option host_id_of
route_worker h w identity s =
    let routed = record s {
      routes = insert w (record { host = h; identity = identity }) s.routes;
    } in
    elim (lookup w s.routes) [
      | none ↦ routed
      | some r ↦
          if not (r.host == h) && not (same_option (host_id_of r.host s) (host_id_of h s))
          then s
          else routed
    ]

-- The two loops of `hello` over the workers.
unfoldable pub observe_workers :
    List ObservedWorker → List (ℕ × ObservedWorker) → List (ℕ × ObservedWorker)
observe_workers [] m = m
observe_workers (o ∷ os) m = observe_workers os (insert o.worker_id o m)

unfoldable pub route_workers : ℕ → List (ℕ × ObservedWorker) → ScalerMaster → ScalerMaster
unfolding route_worker
route_workers h [] s = s
route_workers h ((w, o) ∷ m) s =
    route_workers h m (if o.ready then route_worker h o.worker_id o.identity s else s)

unfoldable pub has_worker : ℕ → List ObservedWorker → Bool
has_worker w [] = false
has_worker w (o ∷ os) = o.worker_id == w || has_worker w os

unfoldable pub has_duplicates : List ObservedWorker → Bool
unfolding has_worker
has_duplicates [] = false
has_duplicates (o ∷ os) = has_worker o.worker_id os || has_duplicates os

abbrev pub close_previous : ℕ → Option ℕ → ScalerMaster → ScalerMaster
close_previous h none s = s
close_previous h (some previous) s =
    if previous == h then s else tell (closed_connection previous) s

-- `hello` up to its wait for the connection, behind its checks.
unfoldable pub greet :
    ℕ → HostConnection → HostDescriptor → List ObservedWorker → ScalerMaster → ScalerMaster
unfolding observe_workers route_workers
greet h host d workers s =
    let observed = observe_workers workers host.observed in
    let s' =
      put_host h (record host { descriptor = some d; handshake_timer = none; observed = observed })
        s in
    let s'' = close_previous h (lookup d.host_id s.hosts_by_id) s' in
    tell (acknowledged h)
      (route_workers h observed (record s'' { hosts_by_id = insert d.host_id h s.hosts_by_id }))

unfoldable pub hello :
    ℕ → HostConnection → HostDescriptor → List ObservedWorker → ScalerMaster → ScalerMaster
unfolding fail_receive has_duplicates greet same_option
hello h host d workers s =
    if not (same_option (some d.host_id) host.header_host_id)
    then fail_receive h s
    else if ltb d.max_workers (length workers)
    then fail_receive h s
    else if has_duplicates workers
    then fail_receive h s
    else greet h host d workers s

-- `hello` once HELLO_ACK is sent, or not.
unfoldable pub acknowledge : ℕ → (sends : Bool) → ScalerMaster → ScalerMaster
unfolding fail_receive emit_snapshot
acknowledge h false s = fail_receive h s
acknowledge h true s = elim (lookup h s.hosts) [
  | none ↦ s
  | some host ↦ emit_snapshot h host.descriptor (tell (host_connected h) s)
]

-- `workerStatus` for a worker that is ready.
unfoldable pub accept_ready :
    ℕ
    → HostConnection
    → (worker : ℕ) → AllocationIdentity
    → ShardTopology
    → (restarted : Bool) → ScalerMaster
    → ScalerMaster
unfolding route_worker settle emit_snapshot
accept_ready h host w identity topology restarted s =
    let s' =
      put_host h
        (record host {
          observed =
              insert w
                (record { worker_id = w; identity = identity; topology = topology; ready = true })
                host.observed;
          respawns = remove_key w host.respawns;
        })
        s in
    emit_snapshot h host.descriptor (
      tell (worker_ready w h restarted)
        (settle launches h w identity true (route_worker h w identity s')))

unfoldable pub changes_slot : AllocationIdentity → Option ObservedWorker → Bool
changes_slot identity none = false
changes_slot identity (some o) = not (o.identity.slot == identity.slot)

unfoldable pub is_stopping : (PendingRequest → Bool) → List (ℕ × PendingRequest) → Bool
is_stopping test [] = false
is_stopping test ((id, p) ∷ m) = test p || is_stopping test m

unfoldable pub has_respawn : ℕ → Option Respawn → Bool
has_respawn slot none = false
has_respawn slot (some r) = r.slot == slot

-- What an exit makes of the observed worker and of its respawn.
unfoldable pub forget_observed :
    (stopping : Bool)
    → (worker : ℕ) → AllocationIdentity
    → Option ObservedWorker
    → HostConnection
    → HostConnection
unfolding same_identity has_respawn
forget_observed stopping w identity none host = host
forget_observed stopping w identity (some o) host =
    if same_identity o.identity identity
    then record host {
      respawns =
          if not stopping && (o.ready || has_respawn identity.slot (lookup w host.respawns))
          then insert w
              (record {
                slot = identity.slot;
                previous_token = identity.token;
                topology = o.topology;
              })
              host.respawns
          else remove_key w host.respawns;
      observed = remove_key w host.observed;
    }
    else host

unfoldable pub is_route_of : (host : ℕ) → AllocationIdentity → Option Route → Bool
unfolding same_identity
is_route_of h identity none = false
is_route_of h identity (some r) = r.host == h && same_identity r.identity identity

abbrev pub drop_route : (host worker : ℕ) → AllocationIdentity → ScalerMaster → ScalerMaster
drop_route h w identity s =
    if is_route_of h identity (lookup w s.routes)
    then record s { routes = remove_key w s.routes }
    else s

-- `workerStatus` for a worker that exited.
unfoldable pub accept_exit :
    ℕ → HostConnection → (worker : ℕ) → AllocationIdentity → ScalerMaster → ScalerMaster
unfolding is_stopping forget_observed is_route_of settle emit_snapshot
accept_exit h host w identity s =
    let stopping = is_stopping (is_for stops h w identity) s.pending in
    let host' = forget_observed stopping w identity (lookup w host.observed) host in
    let s' = drop_route h w identity (put_host h host' s) in
    emit_snapshot h host.descriptor (
      tell (worker_exit w h)
        (settle launches h w identity false (settle stops h w identity true s')))

-- `agentError`.
unfoldable pub agent_error : Option ℕ → ScalerMaster → ScalerMaster
unfolding answer_request
agent_error none s = tell failure s
agent_error (some id) s = elim (lookup id s.pending) [
  | none ↦ tell failure s
  | some p ↦ answer_request id false s
]

-- The `switch` of `receive`.
unfoldable pub receive_known :
    (now host : ℕ) → HostConnection → AgentMessage → ScalerMaster → ScalerMaster
unfolding fail_receive accept_ready accept_exit identify agent_error changes_slot is_route_of
receive_known now h host (hello_from d workers) s = fail_receive h s
receive_known now h host (worker_is_ready w identity topology restarted) s =
    if changes_slot identity (lookup w host.observed)
    then fail_receive h s
    else accept_ready h host w identity topology restarted s
receive_known now h host (worker_exited w identity) s = accept_exit h host w identity s
receive_known now h host (identify_request m) s = identify now h host m s
receive_known now h host (worker_says w identity) s =
    if is_route_of h identity (lookup w s.routes) then tell (worker_message w h) s else s
receive_known now h host (agent_fails request) s = agent_error request s
receive_known now h host master_only s = fail_receive h s

unfoldable pub receive_first : ℕ → HostConnection → AgentMessage → ScalerMaster → ScalerMaster
unfolding fail_receive hello
receive_first h host (hello_from d workers) s = hello h host d workers s
receive_first h host (worker_is_ready w identity topology restarted) s = fail_receive h s
receive_first h host (worker_exited w identity) s = fail_receive h s
receive_first h host (identify_request m) s = fail_receive h s
receive_first h host (worker_says w identity) s = fail_receive h s
receive_first h host (agent_fails request) s = fail_receive h s
receive_first h host master_only s = fail_receive h s

unfoldable pub receive_from :
    (now host : ℕ) → HostConnection → AgentMessage → ScalerMaster → ScalerMaster
unfolding receive_first receive_known same_option
receive_from now h host m s = elim host.descriptor [
  | none ↦ receive_first h host m s
  | some d ↦
      if same_option (lookup d.host_id s.hosts_by_id) (some h)
      then receive_known now h host m s
      else s
]

-- The listener of `message` that `accept` sets, and `receive`.
unfoldable pub receive : (now host : ℕ) → AgentMessage → ScalerMaster → ScalerMaster
unfolding receive_from
receive now h m s = elim (lookup h s.hosts) [
  | none ↦ s
  | some host ↦
      let host' = record host { last_seen_at = now } in
      receive_from now h host' m (put_host h host' s)
]
