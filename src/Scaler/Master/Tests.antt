-- ===== src/Scaler/Master/Tests.antt =====
-- master.ts at concrete inputs.
use extra.Prelude.{
  ℕ, ◌+◌, ◌≡◌, refl, inr, Bool, true, false, none, some, [], ◌∷◌, lookup, insert, remove_key, arith,
}
use extra.Scaler.Master.{
  AllocationIdentity, ShardTopology, HostDescriptor, HostConnection, IdentifyBucket, ScalerMaster,
  emit_snapshot, settle, find_request, is_for, drop_routes, drop_connection, reject_requests,
}
use extra.Scaler.Master.Agents.{
  hello_from, worker_is_ready, receive, receive_from, receive_first, receive_known, hello, greet,
  same_option, has_duplicates, has_worker, observe_workers, route_workers, route_worker, host_id_of,
  accept_ready, changes_slot,
}
use extra.Scaler.Master.Calls.{disconnected, forget_host, accept}
use extra.Scaler.Master.Operations.{
  MasterAction, launches_worker, identify_timer, accepts, receives, disconnects, step,
}
use extra.Scaler.Master.Kept.{account, grants}
use extra.Scaler.Master.Requests.{asks, step-account}
use extra.Scaler.Master.Grants.{IsPaced}
use extra.Scaler.Master.Grants.Steps.{step-IsPaced}
use extra.Scaler.Master.Gone.{IsGone, disconnected-IsGone}
use extra.Scaler.Master.Waiting.{IsAwaited, bucket, step-IsAwaited}

abbrev all_open : ℕ → Bool
all_open h = true

abbrev first_allocation : AllocationIdentity
first_allocation = record { slot = 1; token = 2 }

abbrev two_shards : ShardTopology
two_shards = record { shard_start = 0; shard_end = 2; total_shards = 4 }

abbrev descriptor_of : ℕ → HostDescriptor
descriptor_of id = record { host_id = id; boot_id = 1; max_workers = 2 }

-- A host with the id 30 and a worker 5 whose request to identify shard 0 waits.
abbrev connected : HostConnection
connected = record {
  header_host_id = some 30;
  descriptor = some (descriptor_of 30);
  connected_at = 0;
  last_seen_at = 0;
  observed =
      (
        5,
        record { worker_id = 5; identity = first_allocation; topology = two_shards; ready = true },
      )
      ∷ [];
  respawns = [];
  handshake_timer = none;
}

abbrev waiting_bucket : IdentifyBucket
waiting_bucket = record {
  handle = 1;
  available_at = 100;
  queue =
      record { host = 0; request_id = 9; worker_id = 5; identity = first_allocation; shard_id = 0 }
      ∷ [];
  timer = some 100;
  sending = false;
}

abbrev one_host : ScalerMaster
one_host = record {
  host_timeout_ms = 20000;
  request_timeout_ms = 300000;
  handshake_timeout_ms = 10000;
  hosts = (0, connected) ∷ [];
  next_handle = 2;
  connections = 0 ∷ [];
  hosts_by_id = (30, 0) ∷ [];
  routes = (5, record { host = 0; identity = first_allocation }) ∷ [];
  pending = [];
  identify_buckets = (0, waiting_bucket) ∷ [];
  rejected = [];
  out = [];
}

abbrev launch_six : MasterAction
launch_six =
    launches_worker (record { host_id = 30; boot_id = 1 }) 6 (record { slot = 3; token = 4 })
      two_shards 7

step-account_example :
    account 7 (step all_open 50 launch_six one_host)
    ≡ asks 7 all_open 50 launch_six one_host + account 7 one_host
unfolding lookup
step-account_example = step-account 7 all_open 50 launch_six one_host (λ u. refl)

step-IsPaced_example : IsPaced 100 (grants 0 (step all_open 100 (identify_timer 0) one_host))
unfolding lookup
step-IsPaced_example =
    step-IsPaced 0 all_open 50 100 (identify_timer 0) one_host (omega arith) (λ e. cc)
      (tt, inr (refl, omega arith, omega arith))

step-IsAwaited_example : IsAwaited (bucket 0 (step all_open 100 (identify_timer 0) one_host))
unfolding lookup
step-IsAwaited_example = step-IsAwaited 0 all_open 100 (identify_timer 0) one_host refl

disconnected-IsGone_example : IsGone 0 30 5 7 (disconnected 0 one_host)
unfolding lookup same_option
disconnected-IsGone_example =
    disconnected-IsGone 0 5 7 connected (descriptor_of 30) one_host refl refl refl

-- A host that connects again without its worker, whose old connection then closes, leaves the route of
-- that worker behind: once the worker is ready at another host, it is not routed there.
abbrev reconnected : ScalerMaster
reconnected = step all_open 4 (disconnects 0) (
    step all_open 3 (receives 2 (hello_from (descriptor_of 30) []))
      (step all_open 2 (accepts (some 30)) one_host))

abbrev ready_elsewhere : ScalerMaster
ready_elsewhere =
    step all_open 7
      (receives 3 (worker_is_ready 5 (record { slot = 8; token = 8 }) two_shards false))
      (step all_open 6 (receives 3 (hello_from (descriptor_of 31) []))
        (step all_open 5 (accepts (some 31)) reconnected))

stale_route :
    lookup 5 ready_elsewhere.routes ≡ some (record { host = 0; identity = first_allocation })
unfolding step lookup insert remove_key accept receive receive_from receive_first receive_known
    hello greet same_option has_duplicates has_worker observe_workers route_workers route_worker
    host_id_of accept_ready changes_slot settle find_request is_for emit_snapshot disconnected
    forget_host drop_routes drop_connection reject_requests
stale_route = refl
