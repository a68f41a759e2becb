-- ===== src/Scaler/Master/Kept/Calls.antt =====
-- master.ts: what the calls and the life of a connection keep.
use extra.Prelude.{
  ℕ, ◌≡◌, refl, ◌∙◌, Bool, true, false, Option, some, List, [], ◌∷◌, ◌==◌, Bool-cases, Option-cases,
  inl, inr, lookup, arith,
}
use extra.Scaler.Master.{
  AllocationIdentity, PlacementLocation, ScalerMaster, emit_snapshot, fail_receive,
}
use extra.Scaler.Master.Agents.{acknowledge, same_option}
use extra.Scaler.Master.Calls.{
  forget_launch, catch_launch, post_message, time_out, accept, handshake_time_out, see_pong,
  check_host, check_hosts, forget_host, disconnected,
}
use extra.Scaler.Master.Kept.{view, answer_request-view, reject_requests-view}

module _ (id k : ℕ) where
  pub acknowledge-view :
      (h : ℕ) (sends : Bool) (s : ScalerMaster) → view id k (acknowledge h sends s) ≡ view id k s
  unfolding acknowledge fail_receive emit_snapshot
  acknowledge-view h false s = refl
  acknowledge-view h true s = ground arith

  pub catch_launch-view : (s : ScalerMaster) → view id k (catch_launch s) ≡ view id k s
  unfolding catch_launch forget_launch
  catch_launch-view s = ground arith

  pub post_message-view :
      (is_open : ℕ → Bool) (t : PlacementLocation) (w : ℕ) (i : AllocationIdentity)
      (s : ScalerMaster)
      → view id k (post_message is_open t w i s).0 ≡ view id k s
  unfolding post_message
  post_message-view is_open t w i s = ground arith

  pub time_out-view : (now i : ℕ) (s : ScalerMaster) → view id k (time_out now i s) ≡ view id k s
  unfolding time_out
  time_out-view now i s = ground (arith, answer_request-view id k i false s)

  pub handshake_time_out-view :
      (now h : ℕ) (s : ScalerMaster) → view id k (handshake_time_out now h s) ≡ view id k s
  unfolding handshake_time_out
  handshake_time_out-view now h s = ground arith

  pub accept-view :
      (now : ℕ) (header : Option ℕ) (s : ScalerMaster)
      → view id k (accept now header s) ≡ view id k s
  unfolding accept
  accept-view now header s = refl

  pub see_pong-view : (now h : ℕ) (s : ScalerMaster) → view id k (see_pong now h s) ≡ view id k s
  unfolding see_pong
  see_pong-view now h s = ground arith

  pub check_host-view :
      (now h : ℕ) (s : ScalerMaster) → view id k (check_host now h s) ≡ view id k s
  unfolding check_host
  check_host-view now h s = ground arith

  pub check_hosts-view :
      (now : ℕ) (hs : List ℕ) (s : ScalerMaster) → view id k (check_hosts now hs s) ≡ view id k s
  unfolding check_hosts
  check_hosts-view now [] s = refl
  check_hosts-view now (h ∷ hs) s =
      check_hosts-view now hs (check_host now h s) ∙ check_host-view now h s

  pub forget_host-view : (h i : ℕ) (s : ScalerMaster) → view id k (forget_host h i s) ≡ view id k s
  unfolding forget_host
  forget_host-view h i s = reject_requests-view id k (λ p. p.host == h) s.pending _

  pub disconnected-view : (h : ℕ) (s : ScalerMaster) → view id k (disconnected h s) ≡ view id k s
  unfolding disconnected
  disconnected-view h s = elim (Option-cases (lookup h s.hosts)) [
    | inl e ↦ rw (e, disconnected) refl
    | inr (host, e) ↦ elim (Option-cases host.descriptor) [
      | inl n ↦ rw (e, n, disconnected) refl
      | inr (d, n) ↦ elim (Bool-cases (same_option (lookup d.host_id s.hosts_by_id) (some h))) [
        | inl b ↦ rw (e, n, b, disconnected) (forget_host-view h d.host_id _)
        | inr b ↦ rw (e, n, b, disconnected) refl
      ]
    ]
  ]
