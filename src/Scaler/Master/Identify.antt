-- ===== src/Scaler/Master/Identify.antt =====
-- packages/scaler/src/master.ts: requests to identify a shard, and the buckets that space them out.
use extra.Prelude.{
  ℕ, suc, ◌+◌, ◌%◌, max, Bool, true, false, not, ◌&&◌, Option, none, some, List, [], ◌∷◌, ◌++◌, ltb,
  leb, ◌==◌, if◌then◌else◌, lookup, insert,
}
use extra.Scaler.Master.{
  AllocationIdentity, ShardTopology, ObservedWorker, Respawn, HostConnection, PendingIdentifyGrant,
  IdentifyBucket, refused_identify, failure, granted, ScalerMaster, same_identity, tell, put_host,
  emit_snapshot,
}

abbrev pub identify_gate_ms : ℕ
identify_gate_ms = 5500

unfoldable pub has_shard : ShardTopology → ℕ → Bool
has_shard t shard = leb t.shard_start shard && ltb shard t.shard_end

-- `scheduleIdentify` for a bucket of the map.
unfoldable pub schedule_identify : (now : ℕ) → IdentifyBucket → IdentifyBucket
schedule_identify now b = elim b.timer [
  | some due ↦ b
  | none ↦
      if b.sending
      then b
      else elim b.queue [ [] ↦ b | _ ∷ _ ↦ record b { timer = some (max now b.available_at) } ]
]

-- `canGrantIdentify`, where `is_open` tells which connections are open.
unfoldable pub can_grant_identify :
    (is_open : ℕ → Bool) → List (ℕ × HostConnection) → PendingIdentifyGrant → Bool
unfolding same_identity
can_grant_identify is_open hosts g = elim (lookup g.host hosts) [
  | none ↦ false
  | some host ↦ elim (lookup g.worker_id host.observed) [
    | none ↦ false
    | some worker ↦ is_open g.host && same_identity worker.identity g.identity
  ]
]

-- The loop of `sendNextIdentify` that takes requests off the queue.
unfoldable pub next_grantable :
    (PendingIdentifyGrant → Bool)
    → List PendingIdentifyGrant
    → Option PendingIdentifyGrant × List PendingIdentifyGrant
next_grantable test [] = (none, [])
next_grantable test (g ∷ gs) =
    let rest = next_grantable test gs in if test g then (some g, gs) else rest

abbrev pub put_bucket : ℕ → IdentifyBucket → ScalerMaster → ScalerMaster
put_bucket k b s = record s { identify_buckets = insert k b s.identify_buckets }

-- `sendNextIdentify` up to its wait for the connection, for a bucket that is not sending.
unfoldable pub send_next_identify :
    (is_open : ℕ → Bool) → (now bucket_id : ℕ) → IdentifyBucket → ScalerMaster → ScalerMaster
unfolding next_grantable can_grant_identify schedule_identify
send_next_identify is_open now k b s =
    let (pending, queue) = next_grantable (can_grant_identify is_open s.hosts) b.queue in
    elim pending [
      | none ↦ put_bucket k (schedule_identify now (record b { queue = queue; sending = false })) s
      | some g ↦
          let s' = put_bucket k (record b { queue = queue; sending = true }) s in
          record s' { out = granted k now g.request_id ∷ s.out }
    ]

-- The timer of a bucket.
unfoldable pub fire_identify :
    (is_open : ℕ → Bool) → (now bucket_id : ℕ) → ScalerMaster → ScalerMaster
unfolding send_next_identify
fire_identify is_open now k s = elim (lookup k s.identify_buckets) [
  | none ↦ s
  | some b ↦ elim b.timer [
    | none ↦ s
    | some due ↦
        let b' = record b { timer = none } in
        if ltb now due
        then s
        else if b.sending
        then put_bucket k b' s
        else send_next_identify is_open now k b' s
  ]
]

-- `sendNextIdentify` once the connection has sent the grant, or failed to.
unfoldable pub sent_identify :
    (now bucket_id handle : ℕ) → (sends : Bool) → ScalerMaster → ScalerMaster
unfolding schedule_identify
sent_identify now k handle sends s = elim (lookup k s.identify_buckets) [
  | none ↦ s
  | some b ↦
      if b.handle == handle && b.sending
      then (let s' =
            put_bucket k
              (schedule_identify now
                (record b { available_at = now + identify_gate_ms; sending = false }))
              s in
          if sends then s' else tell failure s')
      else s
]

abbrev pub new_bucket : (now handle : ℕ) → IdentifyBucket
new_bucket now handle = record {
  handle = handle;
  available_at = now;
  queue = [];
  timer = none;
  sending = false;
}

abbrev pub bucket_or_new : (now handle : ℕ) → Option IdentifyBucket → IdentifyBucket
bucket_or_new now handle none = new_bucket now handle
bucket_or_new now handle (some b) = b

-- The end of `identify`.
unfoldable pub enqueue_identify :
    (now bucket_id : ℕ) → PendingIdentifyGrant → ScalerMaster → ScalerMaster
unfolding schedule_identify
enqueue_identify now k g s =
    let b = bucket_or_new now s.next_handle (lookup k s.identify_buckets) in
    let b' = schedule_identify now (record b { queue = b.queue ++ g ∷ [] }) in
    record (put_bucket k b' s) { next_handle = suc s.next_handle }

pub record IdentifyRequest : Type 0 where
  pub request_id : ℕ
  pub worker_id : ℕ
  pub identity : AllocationIdentity
  pub shard_id : ℕ
  pub max_concurrency : ℕ

-- A worker that its host started again comes in its place among the observed.
unfoldable pub respawned : IdentifyRequest → Option Respawn → Bool
unfolding has_shard
respawned m none = false
respawned m (some r) =
    r.slot == m.identity.slot
    && not (r.previous_token == m.identity.token)
    && has_shard r.topology m.shard_id

abbrev respawn_topology : IdentifyRequest → Option Respawn → ShardTopology
respawn_topology m none = record { shard_start = 0; shard_end = 0; total_shards = 0 }
respawn_topology m (some r) = r.topology

unfoldable pub adopt_respawn : ℕ → HostConnection → IdentifyRequest → ScalerMaster → ScalerMaster
unfolding emit_snapshot respawned
adopt_respawn h host m s =
    let respawn = lookup m.worker_id host.respawns in
    let topology = respawn_topology m respawn in
    if respawned m respawn
    then emit_snapshot h host.descriptor (
        put_host h
          (record host {
            respawns =
                insert m.worker_id
                  (record {
                    slot = m.identity.slot;
                    previous_token = m.identity.token;
                    topology = topology;
                  })
                  host.respawns;
            observed =
                insert m.worker_id
                  (record {
                    worker_id = m.worker_id;
                    identity = m.identity;
                    topology = topology;
                    ready = false;
                  })
                  host.observed;
          })
          s)
    else s

unfoldable pub observed_at : (host worker : ℕ) → ScalerMaster → Option ObservedWorker
observed_at h w s = elim (lookup h s.hosts) [ none ↦ none | some host ↦ lookup w host.observed ]

unfoldable pub is_current : IdentifyRequest → Option ObservedWorker → Bool
unfolding has_shard same_identity
is_current m none = false
is_current m (some o) = same_identity o.identity m.identity && has_shard o.topology m.shard_id

-- The part of `identify` behind the look-up of a respawn.
unfoldable pub judge_identify : (now host : ℕ) → IdentifyRequest → ScalerMaster → ScalerMaster
unfolding is_current observed_at enqueue_identify
judge_identify now h m s =
    if is_current m (observed_at h m.worker_id s)
    then enqueue_identify now (m.shard_id % m.max_concurrency)
        (record {
          host = h;
          request_id = m.request_id;
          worker_id = m.worker_id;
          identity = m.identity;
          shard_id = m.shard_id;
        })
        s
    else tell (refused_identify m.request_id) s

unfoldable pub identify :
    (now host : ℕ) → HostConnection → IdentifyRequest → ScalerMaster → ScalerMaster
unfolding adopt_respawn judge_identify
identify now h host m s =
    judge_identify now h m
      (elim (lookup m.worker_id host.observed) [ some o ↦ s | none ↦ adopt_respawn h host m s ])
