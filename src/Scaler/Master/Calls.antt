-- ===== src/Scaler/Master/Calls.antt =====
-- packages/scaler/src/master.ts: the calls of the master's user, and the life of a connection.
use extra.Prelude.{
  ℕ, suc, ◌+◌, ◌-◌, Bool, true, false, ◌&&◌, Option, none, some, List, [], ◌∷◌, ◌++◌, length, ltb,
  ◌==◌, if◌then◌else◌, inl, inr, ◌⊎◌, lookup, insert, remove_key,
}
use extra.Scaler.Master.{
  AllocationIdentity, ShardTopology, HostDescriptor, PlacementLocation, ObservedWorker,
  HostConnection, RequestKind, launches, stops, PendingRequest, host_disconnected,
  closed_connection, terminated, pinged, posted, asked, ScalerMaster, same_identity, tell, put_host,
  answer_request, reject_requests, drop_routes, drop_connection,
}
use extra.Scaler.Master.Agents.{same_option, is_route_of, drop_route}

pub data MasterError : Type 0 where
  not_connected already_runs at_capacity stale_token not_routed : MasterError

unfoldable pub is_boot : (boot : ℕ) → Option HostDescriptor → Bool
is_boot boot none = false
is_boot boot (some d) = d.boot_id == boot

-- `requireHost`, with the connections that are open.
unfoldable pub require_host :
    (is_open : ℕ → Bool) → PlacementLocation → ScalerMaster → MasterError ⊎ (ℕ × HostConnection)
unfolding is_boot
require_host is_open target s = elim (lookup target.host_id s.hosts_by_id) [
  | none ↦ inl not_connected
  | some h ↦ elim (lookup h s.hosts) [
    | none ↦ inl not_connected
    | some host ↦
        if is_boot target.boot_id host.descriptor && is_open h
        then inr (h, host)
        else inl not_connected
  ]
]

-- `request`, whose message the connection takes.
unfoldable pub request :
    (now host worker : ℕ)
    → AllocationIdentity
    → (request : ℕ) → RequestKind
    → ScalerMaster
    → ScalerMaster
request now h w identity id kind s = tell (asked id) (record s {
  pending =
      insert id
        (record {
          host = h;
          worker_id = w;
          identity = identity;
          kind = kind;
          timer = now + s.request_timeout_ms;
        })
        s.pending;
})

-- The guards of `launch`, for the worker that the host has under the id.
unfoldable pub launch_error :
    AllocationIdentity
    → Option ObservedWorker
    → (size : ℕ) → Option HostDescriptor
    → Option MasterError
unfolding same_identity
launch_error identity (some o) size d =
    if same_identity o.identity identity then none else some already_runs
launch_error identity none size none = some at_capacity
launch_error identity none size (some d) = if ltb size d.max_workers then none else some at_capacity

-- `launch` up to its wait for the answer; `id` is what `randomId` makes.
unfoldable pub launch :
    (is_open : ℕ → Bool)
    → (now : ℕ) → PlacementLocation
    → (worker : ℕ) → AllocationIdentity
    → ShardTopology
    → (id : ℕ) → ScalerMaster
    → ScalerMaster × Option MasterError
unfolding require_host launch_error request
launch is_open now target w identity topology id s = elim (require_host is_open target s) [
  | inl e ↦ (s, some e)
  | inr (h, host) ↦
      let host' = record host { respawns = remove_key w host.respawns } in
      elim (launch_error identity (lookup w host.observed) (length host.observed) host.descriptor) [
        | some e ↦ (put_host h host' s, some e)
        | none ↦ (
          request now h w identity id launches (
              put_host h
                (record host' {
                  observed =
                      insert w
                        (record {
                          worker_id = w;
                          identity = identity;
                          topology = topology;
                          ready = false;
                        })
                        host.observed;
                })
                s),
          none,
        )
      ]
]

unfoldable pub is_observed : AllocationIdentity → Option ObservedWorker → Bool
unfolding same_identity
is_observed identity none = false
is_observed identity (some o) = same_identity o.identity identity

-- The `catch` of `launch`.
unfoldable pub forget_launch : PendingRequest → ScalerMaster → ScalerMaster
unfolding is_observed
forget_launch p s = elim (lookup p.host s.hosts) [
  | none ↦ s
  | some host ↦
      if is_observed p.identity (lookup p.worker_id host.observed)
      then put_host p.host (record host { observed = remove_key p.worker_id host.observed }) s
      else s
]

unfoldable pub catch_launch : ScalerMaster → ScalerMaster
unfolding forget_launch
catch_launch s = elim s.rejected [ [] ↦ s | p ∷ ps ↦ forget_launch p (record s { rejected = ps }) ]

-- `stop` up to its wait for the answer.
unfoldable pub stop :
    (is_open : ℕ → Bool)
    → (now : ℕ) → PlacementLocation
    → (worker : ℕ) → AllocationIdentity
    → (id : ℕ) → ScalerMaster
    → ScalerMaster × Option MasterError
unfolding require_host is_observed is_route_of request
stop is_open now target w identity id s = elim (require_host is_open target s) [
  | inl e ↦ (s, some e)
  | inr (h, host) ↦
      if is_observed identity (lookup w host.observed)
      then (request now h w identity id stops (drop_route h w identity s), none)
      else (s, some stale_token)
]

unfoldable pub post_message :
    (is_open : ℕ → Bool)
    → PlacementLocation
    → (worker : ℕ) → AllocationIdentity
    → ScalerMaster
    → ScalerMaster × Option MasterError
unfolding require_host is_route_of
post_message is_open target w identity s = elim (require_host is_open target s) [
  | inl e ↦ (s, some e)
  | inr (h, host) ↦
      if is_route_of h identity (lookup w s.routes)
      then (tell (posted w h) s, none)
      else (s, some not_routed)
]

-- The timer of a request.
unfoldable pub time_out : (now request : ℕ) → ScalerMaster → ScalerMaster
unfolding answer_request
time_out now id s = elim (lookup id s.pending) [
  | none ↦ s
  | some p ↦ if ltb now p.timer then s else answer_request id false s
]

-- `accept`, for a connection with this header.
unfoldable pub accept : (now : ℕ) → (header : Option ℕ) → ScalerMaster → ScalerMaster
accept now header s =
    let host : HostConnection = record {
      header_host_id = header;
      descriptor = none;
      connected_at = now;
      last_seen_at = now;
      observed = [];
      respawns = [];
      handshake_timer = some (now + s.handshake_timeout_ms);
    } in
    record s {
      hosts = insert s.next_handle host s.hosts;
      next_handle = suc s.next_handle;
      connections = s.connections ++ s.next_handle ∷ [];
    }

unfoldable pub handshake_time_out : (now host : ℕ) → ScalerMaster → ScalerMaster
handshake_time_out now h s = elim (lookup h s.hosts) [
  | none ↦ s
  | some host ↦ elim host.handshake_timer [
    | none ↦ s
    | some due ↦
        if ltb now due
        then s
        else tell (closed_connection h) (put_host h (record host { handshake_timer = none }) s)
  ]
]

unfoldable pub see_pong : (now host : ℕ) → ScalerMaster → ScalerMaster
see_pong now h s = elim (lookup h s.hosts) [
  | none ↦ s
  | some host ↦ put_host h (record host { last_seen_at = now }) s
]

unfoldable pub check_host : (now host : ℕ) → ScalerMaster → ScalerMaster
check_host now h s = elim (lookup h s.hosts) [
  | none ↦ s
  | some host ↦
      if ltb s.host_timeout_ms (now - host.last_seen_at)
      then tell (terminated h) s
      else tell (pinged h) s
]

-- The loop of `checkHosts`.
unfoldable pub check_hosts : (now : ℕ) → List ℕ → ScalerMaster → ScalerMaster
unfolding check_host
check_hosts now [] s = s
check_hosts now (h ∷ hs) s = check_hosts now hs (check_host now h s)

-- `disconnected`, behind its test that the host is the one known by its id.
unfoldable pub forget_host : (host id : ℕ) → ScalerMaster → ScalerMaster
unfolding reject_requests drop_routes
forget_host h id s = tell (host_disconnected h) (
    reject_requests (λ p. p.host == h) s.pending
      (record s { hosts_by_id = remove_key id s.hosts_by_id; routes = drop_routes h s.routes }))

unfoldable pub disconnected : (host : ℕ) → ScalerMaster → ScalerMaster
unfolding forget_host drop_connection same_option
disconnected h s = elim (lookup h s.hosts) [
  | none ↦ s
  | some host ↦
      let s' = record (put_host h (record host { handshake_timer = none }) s) {
        connections = drop_connection h s.connections;
      } in
      elim host.descriptor [
        | none ↦ s'
        | some d ↦
            if same_option (lookup d.host_id s.hosts_by_id) (some h)
            then forget_host h d.host_id s'
            else s'
      ]
]

unfoldable pub terminate_all : List ℕ → ScalerMaster → ScalerMaster
terminate_all [] s = s
terminate_all (h ∷ hs) s = terminate_all hs (tell (terminated h) s)

-- `close` up to its wait for the server.
unfoldable pub close : ScalerMaster → ScalerMaster
unfolding reject_requests terminate_all
close s =
    let s' = reject_requests (λ p. true) s.pending s in
    record (terminate_all s.connections (record s' { pending = []; identify_buckets = [] })) {
      connections = [];
      hosts_by_id = [];
      routes = [];
    }
