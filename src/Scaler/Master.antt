-- ===== src/Scaler/Master.antt =====
-- packages/scaler/src/master.ts: the class ScalerMaster, its state and the settling of requests. Ids,
-- slots and tokens are numbers. A connection is known by a handle, under which `hosts` has its object;
-- the handle stays when the maps forget it. What the master sends, emits or answers is the list `out`,
-- the latest first. A timer is the time at which it is due.
pub mod Agents
pub mod Identify
pub mod Calls
pub mod Operations
pub mod Kept
pub mod Requests
pub mod Grants
pub mod Waiting
pub mod Gone
mod Tests
use extra.Prelude.{
  ℕ, Bool, true, false, not, ◌&&◌, Option, none, some, List, [], ◌∷◌, leb, ◌==◌, if◌then◌else◌,
  lookup, insert, remove_key,
}

pub record AllocationIdentity : Type 0 where
  pub slot : ℕ
  pub token : ℕ

pub record ShardTopology : Type 0 where
  pub shard_start : ℕ
  pub shard_end : ℕ
  pub total_shards : ℕ

pub record HostDescriptor : Type 0 where
  pub host_id : ℕ
  pub boot_id : ℕ
  pub max_workers : ℕ

pub record PlacementLocation : Type 0 where
  pub host_id : ℕ
  pub boot_id : ℕ

pub record ObservedWorker : Type 0 where
  pub worker_id : ℕ
  pub identity : AllocationIdentity
  pub topology : ShardTopology
  pub ready : Bool

-- A worker that exited and that its host may start again by itself.
pub record Respawn : Type 0 where
  pub slot : ℕ
  pub previous_token : ℕ
  pub topology : ShardTopology

pub record HostConnection : Type 0 where
  pub header_host_id : Option ℕ
  pub descriptor : Option HostDescriptor
  pub connected_at : ℕ
  pub last_seen_at : ℕ
  pub observed : List (ℕ × ObservedWorker)
  pub respawns : List (ℕ × Respawn)
  pub handshake_timer : Option ℕ

pub record Route : Type 0 where
  pub host : ℕ
  pub identity : AllocationIdentity

pub data RequestKind : Type 0 where
  launches stops : RequestKind

pub record PendingRequest : Type 0 where
  pub host : ℕ
  pub worker_id : ℕ
  pub identity : AllocationIdentity
  pub kind : RequestKind
  pub timer : ℕ

pub record PendingIdentifyGrant : Type 0 where
  pub host : ℕ
  pub request_id : ℕ
  pub worker_id : ℕ
  pub identity : AllocationIdentity
  pub shard_id : ℕ

-- `handle` tells a bucket from one that `close` threw away.
pub record IdentifyBucket : Type 0 where
  pub handle : ℕ
  pub available_at : ℕ
  pub queue : List PendingIdentifyGrant
  pub timer : Option ℕ
  pub sending : Bool

pub data Signal : Type 0 where
  host_connected host_disconnected snapshot acknowledged refused_identify : ℕ → Signal
  closed_connection terminated pinged : ℕ → Signal
  worker_ready : (worker host : ℕ) → (restarted : Bool) → Signal
  worker_exit worker_message posted : (worker host : ℕ) → Signal
  asked : (request : ℕ) → Signal
  failure : Signal

pub data MasterEvent : Type 0 where
  answered : (request : ℕ) → (resolves : Bool) → MasterEvent
  granted : (bucket time request : ℕ) → MasterEvent
  signal : Signal → MasterEvent

-- `rejected` has the requests of `launch` that were rejected and whose `catch` has not run yet.
pub record ScalerMaster : Type 0 where
  pub host_timeout_ms : ℕ
  pub request_timeout_ms : ℕ
  pub handshake_timeout_ms : ℕ
  pub hosts : List (ℕ × HostConnection)
  pub next_handle : ℕ
  pub connections : List ℕ
  pub hosts_by_id : List (ℕ × ℕ)
  pub routes : List (ℕ × Route)
  pub pending : List (ℕ × PendingRequest)
  pub identify_buckets : List (ℕ × IdentifyBucket)
  pub rejected : List PendingRequest
  pub out : List MasterEvent

unfoldable pub same_identity : AllocationIdentity → AllocationIdentity → Bool
same_identity a b = a.slot == b.slot && a.token == b.token

abbrev pub tell : Signal → ScalerMaster → ScalerMaster
tell e s = record s { out = signal e ∷ s.out }

abbrev pub put_host : ℕ → HostConnection → ScalerMaster → ScalerMaster
put_host h c s = record s { hosts = insert h c s.hosts }

-- An error in `receive` is emitted, and the connection is closed.
unfoldable pub fail_receive : ℕ → ScalerMaster → ScalerMaster
fail_receive h s = tell (closed_connection h) (tell failure s)

-- `emitSnapshot`.
unfoldable pub emit_snapshot : ℕ → Option HostDescriptor → ScalerMaster → ScalerMaster
emit_snapshot h none s = s
emit_snapshot h (some d) s = tell (snapshot h) s

abbrev pub is_launch : RequestKind → Bool
is_launch launches = true
is_launch stops = false

-- A request leaves the map, its timer is cleared, and its promise resolves or is rejected.
unfoldable pub answer_request : (request : ℕ) → (resolves : Bool) → ScalerMaster → ScalerMaster
answer_request id resolves s = elim (lookup id s.pending) [
  | none ↦ s
  | some p ↦ record s {
    pending = remove_key id s.pending;
    rejected = if is_launch p.kind && not resolves then p ∷ s.rejected else s.rejected;
    out = answered id resolves ∷ s.out;
  }
]

-- The first request that `settle` and `rejectLaunch` look for.
unfoldable pub find_request : (PendingRequest → Bool) → List (ℕ × PendingRequest) → Option ℕ
find_request test [] = none
find_request test ((id, p) ∷ m) = if test p then some id else find_request test m

unfoldable pub same_kind : RequestKind → RequestKind → Bool
same_kind launches launches = true
same_kind launches stops = false
same_kind stops launches = false
same_kind stops stops = true

unfoldable pub is_for : RequestKind → (host worker : ℕ) → AllocationIdentity → PendingRequest → Bool
unfolding same_kind same_identity
is_for kind h w identity p =
    same_kind p.kind kind && p.host == h && p.worker_id == w && same_identity p.identity identity

-- `settle`, and `rejectLaunch` for `launches` and false.
unfoldable pub settle :
    RequestKind
    → (host worker : ℕ) → AllocationIdentity
    → (resolves : Bool) → ScalerMaster
    → ScalerMaster
unfolding answer_request find_request is_for
settle kind h w identity resolves s = elim (find_request (is_for kind h w identity) s.pending) [
  | none ↦ s
  | some id ↦ answer_request id resolves s
]

-- The loops of `disconnected` and `close` over the requests.
unfoldable pub reject_requests :
    (PendingRequest → Bool) → List (ℕ × PendingRequest) → ScalerMaster → ScalerMaster
unfolding answer_request
reject_requests test [] s = s
reject_requests test ((id, p) ∷ m) s =
    reject_requests test m (if test p then answer_request id false s else s)

unfoldable pub drop_routes : (host : ℕ) → List (ℕ × Route) → List (ℕ × Route)
drop_routes h [] = []
drop_routes h ((w, r) ∷ m) =
    let rest = drop_routes h m in if r.host == h then rest else (w, r) ∷ rest

unfoldable pub drop_connection : ℕ → List ℕ → List ℕ
drop_connection h [] = []
drop_connection h (x ∷ xs) = let rest = drop_connection h xs in if x == h then rest else x ∷ rest
