-- ===== src/Scaler/Master/Kept.antt =====
-- master.ts: what most operations keep, of a request and of a bucket.
pub mod Agents
pub mod Calls
use extra.Prelude.{
  ℕ, zero, suc, ◌+◌, ◌≡◌, refl, sym, ap, ◌∙◌, Bool, true, false, Option, none, some, List, [], ◌∷◌,
  ◌==◌, if◌then◌else◌, Bool-cases, Option-cases, inl, inr, ◌⊎◌, lookup, insert, remove_key,
  lookup-insert, lookup-remove_key, length, arith,
}
use extra.Scaler.Master.{
  AllocationIdentity, HostDescriptor, ObservedWorker, HostConnection, RequestKind, PendingRequest,
  MasterEvent, answered, granted, signal, IdentifyBucket, ScalerMaster, answer_request,
  find_request, is_for, settle, reject_requests, emit_snapshot, fail_receive,
}
use extra.Scaler.Master.Identify.{
  IdentifyRequest, next_grantable, can_grant_identify, send_next_identify, fire_identify,
  sent_identify, enqueue_identify, adopt_respawn, respawned, judge_identify, is_current,
  observed_at, identify,
}
use extra.Scaler.Master.Agents.{
  AgentMessage, hello_from, worker_is_ready, worker_exited, identify_request, worker_says,
  agent_fails, master_only, route_worker, route_workers, greet, hello, acknowledge, accept_ready,
  accept_exit, agent_error, receive_known, receive_first, receive_from, receive, same_option,
  host_id_of, has_duplicates, observe_workers, is_route_of, changes_slot, drop_route, is_stopping,
  forget_observed,
}
use extra.Scaler.Master.Calls.{
  MasterError, require_host, request, launch, launch_error, forget_launch, catch_launch,
  is_observed, stop, post_message, time_out, accept, handshake_time_out, see_pong, check_host,
  check_hosts, forget_host, disconnected, terminate_all, close,
}
use extra.Scaler.Master.Operations.{
  MasterAction, launches_worker, stops_worker, posts, closes, catches, checks, accepts, receives,
  pongs, disconnects, handshake_timer, acknowledges, request_timer, send_fails, identify_timer,
  identify_sent, step,
}

abbrev pub one_if_some : Option PendingRequest → ℕ
one_if_some none = 0
one_if_some (some p) = 1

abbrev pub answers : ℕ → List MasterEvent → ℕ
answers id [] = 0
answers id (answered i r ∷ es) = (if i == id then 1 else 0) + answers id es
answers id (granted k t r ∷ es) = answers id es
answers id (signal e ∷ es) = answers id es

-- The times at which a bucket was granted, the latest first.
abbrev pub times : ℕ → List MasterEvent → List ℕ
times k [] = []
times k (answered i r ∷ es) = times k es
times k (granted j t r ∷ es) = if j == k then t ∷ times k es else times k es
times k (signal e ∷ es) = times k es

-- How often a request waits for its answer or got one.
abbrev pub account : ℕ → ScalerMaster → ℕ
account id s = one_if_some (lookup id s.pending) + answers id s.out

-- A bucket and the times of its grants.
abbrev pub grants : ℕ → ScalerMaster → Option IdentifyBucket × List ℕ
grants k s = (lookup k s.identify_buckets, times k s.out)

-- What most operations keep.
module _ (id k : ℕ) where
  abbrev pub view : ScalerMaster → ℕ × (Option IdentifyBucket × List ℕ)
  view s = (account id s, grants k s)

  pub answer_request-view :
      (i : ℕ) (r : Bool) (s : ScalerMaster) → view (answer_request i r s) ≡ view s
  unfolding answer_request
  answer_request-view i r s = ground (arith, lookup-remove_key id i s.pending)

  pub settle-view :
      (c : RequestKind) (h w : ℕ) (i : AllocationIdentity) (r : Bool) (s : ScalerMaster)
      → view (settle c h w i r s) ≡ view s
  unfolding settle
  settle-view c h w i r s = elim (Option-cases (find_request (is_for c h w i) s.pending)) [
    | inl e ↦ rw (e, settle) refl
    | inr (j, e) ↦ rw (e, settle) (answer_request-view j r s)
  ]

  pub reject_requests-view :
      (f : PendingRequest → Bool) (m : List (ℕ × PendingRequest)) (s : ScalerMaster)
      → view (reject_requests f m s) ≡ view s
  unfolding reject_requests
  reject_requests-view f [] s = refl
  reject_requests-view f ((i, p) ∷ m) s = elim (Bool-cases (f p)) [
    | inl e ↦
        rw (e, reject_requests)
          (reject_requests-view f m (answer_request i false s) ∙ answer_request-view i false s)
    | inr e ↦ rw (e, reject_requests) (reject_requests-view f m s)
  ]

  pub emit_snapshot-view :
      (h : ℕ) (d : Option HostDescriptor) (s : ScalerMaster) → view (emit_snapshot h d s) ≡ view s
  unfolding emit_snapshot
  emit_snapshot-view h none s = refl
  emit_snapshot-view h (some d) s = refl

  pub fail_receive-view : (h : ℕ) (s : ScalerMaster) → view (fail_receive h s) ≡ view s
  unfolding fail_receive
  fail_receive-view h s = refl

  pub route_worker-view :
      (h w : ℕ) (i : AllocationIdentity) (s : ScalerMaster) → view (route_worker h w i s) ≡ view s
  unfolding route_worker
  route_worker-view h w i s = ground arith

  pub route_workers-view :
      (h : ℕ) (m : List (ℕ × ObservedWorker)) (s : ScalerMaster)
      → view (route_workers h m s) ≡ view s
  unfolding route_workers
  route_workers-view h [] s = refl
  route_workers-view h ((w, o) ∷ m) s = elim (Bool-cases o.ready) [
    | inl e ↦
        rw (e, route_workers)
          (route_workers-view h m (route_worker h o.worker_id o.identity s)
            ∙ route_worker-view h o.worker_id o.identity s)
    | inr e ↦ rw (e, route_workers) (route_workers-view h m s)
  ]
