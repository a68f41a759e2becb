-- ===== src/Scaler/Master/Gone.antt =====
-- master.ts: what is left of a host that disconnects.
use extra.Prelude.{
  ℕ, ◌≡◌, refl, ap, ◌∙◌, Bool, true, false, Option, none, some, List, [], ◌∷◌, ◌==◌, if◌then◌else◌,
  Bool-cases, inl, inr, ◌⊎◌, lookup, remove_key, lookup-remove_key, occurrences, arith,
}
use extra.Scaler.Master.{
  HostDescriptor, HostConnection, Route, PendingRequest, ScalerMaster, answer_request,
  reject_requests, drop_routes, drop_connection, put_host,
}
use extra.Scaler.Master.Agents.{same_option}
use extra.Scaler.Master.Calls.{forget_host, disconnected}

abbrev pub is_routed_to : ℕ → Option Route → Bool
is_routed_to h none = false
is_routed_to h (some r) = r.host == h

abbrev pub is_asked_of : ℕ → Option PendingRequest → Bool
is_asked_of h none = false
is_asked_of h (some p) = p.host == h

module _ (h : ℕ) where
  drop_routes-is_routed_to :
      (w : ℕ) (m : List (ℕ × Route)) → is_routed_to h (lookup w (drop_routes h m)) ≡ false
  unfolding drop_routes lookup
  drop_routes-is_routed_to w [] = refl
  drop_routes-is_routed_to w ((v, r) ∷ m) = ground (arith, drop_routes-is_routed_to w m)

  drop_connection-occurrences : (xs : List ℕ) → occurrences h (drop_connection h xs) ≡ 0
  unfolding drop_connection occurrences
  drop_connection-occurrences [] = refl
  drop_connection-occurrences (x ∷ xs) = ground (arith, drop_connection-occurrences xs)

  answer_request-pending :
      (id i : ℕ) (r : Bool) (s : ScalerMaster)
      → lookup id (answer_request i r s).pending ≡ (if i == id then none else lookup id s.pending)
  unfolding answer_request
  answer_request-pending id i r s = ground (arith, lookup-remove_key id i s.pending)

  -- The loop has answered the request of this id, or comes to it.
  reject_requests-is_asked_of :
      (id : ℕ) (m : List (ℕ × PendingRequest)) (s : ScalerMaster)
      → (is_asked_of h (lookup id s.pending) ≡ false) ⊎ (lookup id s.pending ≡ lookup id m)
      → is_asked_of h (lookup id (reject_requests (λ p. p.host == h) m s).pending) ≡ false
  unfolding reject_requests lookup
  reject_requests-is_asked_of id [] s c = ground (arith, c)
  reject_requests-is_asked_of id ((i, p) ∷ m) s c =
      reject_requests-is_asked_of id m (if p.host == h then answer_request i false s else s)
        (ground (arith, c, answer_request-pending id i false s))

abbrev known : ScalerMaster → List (ℕ × ℕ) × (List ℕ × List (ℕ × Route))
known s = (s.hosts_by_id, (s.connections, s.routes))

answer_request-known :
    (i : ℕ) (r : Bool) (s : ScalerMaster) → known (answer_request i r s) ≡ known s
unfolding answer_request
answer_request-known i r s = ground arith

reject_requests-known :
    (f : PendingRequest → Bool) (m : List (ℕ × PendingRequest)) (s : ScalerMaster)
    → known (reject_requests f m s) ≡ known s
unfolding reject_requests
reject_requests-known f [] s = refl
reject_requests-known f ((i, p) ∷ m) s = elim (Bool-cases (f p)) [
  | inl e ↦
      rw (e, reject_requests)
        (reject_requests-known f m (answer_request i false s) ∙ answer_request-known i false s)
  | inr e ↦ rw (e, reject_requests) (reject_requests-known f m s)
]

-- The host is not known by its id any more, its connection is not checked, the worker `w` is not
-- routed to it, and the request `id` does not wait for it.
pub record IsGone (h host_id w id : ℕ) (s : ScalerMaster) : Type 0 where
  pub unknown : lookup host_id s.hosts_by_id ≡ none
  pub unchecked : occurrences h s.connections ≡ 0
  pub unrouted : is_routed_to h (lookup w s.routes) ≡ false
  pub unasked : is_asked_of h (lookup id s.pending) ≡ false

forget_host-IsGone :
    (h i w id : ℕ) (s : ScalerMaster)
    → occurrences h s.connections ≡ 0
    → IsGone h i w id (forget_host h i s)
unfolding forget_host
forget_host-IsGone h i w id s c =
    let f : PendingRequest → Bool = λ p. p.host == h in
    let s' = record s {
      hosts_by_id = remove_key i s.hosts_by_id;
      routes = drop_routes h s.routes;
    } in
    let k = reject_requests-known f s.pending s' in
    record {
      unknown = ap (λ x. lookup i x.0) k ∙ (lookup-remove_key i i s.hosts_by_id ∙ ground arith);
      unchecked = ap (λ x. occurrences h x.1.0) k ∙ c;
      unrouted =
          ap (λ x. is_routed_to h (lookup w x.1.1)) k ∙ drop_routes-is_routed_to h w s.routes;
      unasked = reject_requests-is_asked_of h id s.pending s' (inr refl);
    }

-- When the connection closes under which a host is known, the host is known no more, `checkHosts` does
-- not look at the connection, no worker is routed to it, and no request waits for it.
pub disconnected-IsGone :
    (h w id : ℕ) (host : HostConnection) (d : HostDescriptor) (s : ScalerMaster)
    → lookup h s.hosts ≡ some host
    → host.descriptor ≡ some d
    → same_option (lookup d.host_id s.hosts_by_id) (some h) ≡ true
    → IsGone h d.host_id w id (disconnected h s)
unfolding disconnected
disconnected-IsGone h w id host d s e n b =
    rw (e, n, b, disconnected)
      (forget_host-IsGone h d.host_id w id s' (drop_connection-occurrences h s.connections))
  where
    s' : ScalerMaster
    s' = record (put_host h (record host { handshake_timer = none }) s) {
      connections = drop_connection h s.connections;
    }
