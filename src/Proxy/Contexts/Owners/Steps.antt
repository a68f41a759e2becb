-- ===== src/Proxy/Contexts/Owners/Steps.antt =====
-- contexts.ts: every operation keeps the handlers of contexts apart.
use extra.Prelude.{
  ℕ, ◌≡◌, refl, sym, ◌∙◌, Bool, true, false, inl, inr, Option, none, some, List, [], ◌∷◌,
  if◌then◌else◌, Option-cases, lookup, remove_key, arith,
}
use extra.Proxy.Contexts.{
  ContextKey, unauthenticated_key, fingerprint_key, RestContext, Creation, RestContextManager,
  resolve, or_token,
}
use extra.Proxy.Contexts.Operations.{
  CreatedHandler, take_handler, settle_creation, creation_returns, forget_creation, through, retain,
  release, quarantine, block_global, sum_occupancy, authenticated_gate_occupancy, ContextAction,
  resolves, creates_handler, forgets, retains, releases, quarantines, blocks, measures,
  rotates_token, step,
}
use extra.Proxy.Contexts.Owners.{
  rest_at, IsOwned, written-Owns, resolve_token-IsOwned, Takes, take_handler-Takes,
  add_context-IsOwned,
}

settle_creation-IsOwned :
    (now key : ℕ) (p : Creation) (s : RestContextManager) (t : RestContextManager × Option ℕ)
    → Takes key s t
    → IsOwned (settle_creation now key p t)
unfolding settle_creation
settle_creation-IsOwned now key p s (s', none) (same, h, own) = h
settle_creation-IsOwned now key p s (s', some rest) (same, h, own) =
    add_context-IsOwned now key rest p s' (own rest refl) h

creation_returns-IsOwned :
    (now key : ℕ) (c : CreatedHandler) (s : RestContextManager)
    → IsOwned s
    → IsOwned (creation_returns now key c s)
unfolding creation_returns
creation_returns-IsOwned now key c s h = elim (Option-cases (lookup key s.creating)) [
  | inl e ↦ rw (e, creation_returns) h
  | inr (p, e) ↦ rw (e, creation_returns) (go p p.settled)
]
  where
    go :
        (p : Creation) (b : Bool)
        → IsOwned (if b then s else settle_creation now key p (take_handler key c s))
    go p true = h
    go p false =
        settle_creation-IsOwned now key p s (take_handler key c s) (take_handler-Takes key c s h)

forget_creation-IsOwned :
    (key : ℕ) (s : RestContextManager) → IsOwned s → IsOwned (forget_creation key s)
unfolding forget_creation
forget_creation-IsOwned key s h = elim (Option-cases (lookup key s.creating)) [
  | inl e ↦ rw (e, forget_creation) h
  | inr (p, e) ↦ rw (e, forget_creation) (go p.settled)
]
  where
    go : (b : Bool) → IsOwned (if b then record s { creating = remove_key key s.creating } else s)
    go true = h
    go false = h

sum_occupancy-rest_at :
    (now k : ℕ) (m : List (ℕ × RestContext)) → rest_at k (sum_occupancy now m).0 ≡ rest_at k m
unfolding sum_occupancy lookup
sum_occupancy-rest_at now k [] = refl
sum_occupancy-rest_at now k ((j, c) ∷ m) = ground (arith, sum_occupancy-rest_at now k m)

quarantine-IsOwned :
    (key : ContextKey) (s : RestContextManager) → IsOwned s → IsOwned (quarantine key s)
unfolding quarantine
quarantine-IsOwned unauthenticated_key s h = h
quarantine-IsOwned (fingerprint_key k) s h = λ j r e. ground (arith, h j r, e)

-- Whatever happens: if the handler of each context has the key of the context for its owner, this
-- stays so. A handler has one owner, so the contexts of two tokens never share a handler.
pub step-IsOwned :
    (f : ℕ → ℕ) (limited : (rest now : ℕ) → Bool) (now : ℕ) (a : ContextAction)
    (s : RestContextManager)
    → IsOwned s
    → IsOwned (step f limited now a s)
unfolding step resolve retain release through block_global authenticated_gate_occupancy
step-IsOwned f limited now (resolves false token) s h = h
step-IsOwned f limited now (resolves true token) s h =
    resolve_token-IsOwned f limited now (or_token f token s.default_token) s h
step-IsOwned f limited now (creates_handler key c) s h = creation_returns-IsOwned now key c s h
step-IsOwned f limited now (forgets key) s h = forget_creation-IsOwned key s h
step-IsOwned f limited now (retains key handle) s h =
    written-Owns key _ s.contexts s.handler_owners (λ c. ground arith) h
step-IsOwned f limited now (releases key handle) s h =
    written-Owns key _ s.contexts s.handler_owners (λ c. ground arith) h
step-IsOwned f limited now (quarantines key) s h = quarantine-IsOwned key s h
step-IsOwned f limited now (blocks unauthenticated_key delay) s h = h
step-IsOwned f limited now (blocks (fingerprint_key k) delay) s h =
    written-Owns k _ s.contexts s.handler_owners (λ c. refl) h
step-IsOwned f limited now measures s h =
    λ k r e. h k r (sym (sum_occupancy-rest_at now k s.contexts) ∙ e)
step-IsOwned f limited now (rotates_token token) s h = h
