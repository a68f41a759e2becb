-- ===== src/Proxy/Contexts/Operations.antt =====
-- packages/proxy/src/contexts.ts: the end of a creation, the remaining methods, and the manager as a
-- machine.
use extra.Prelude.{
  ℕ, suc, ◌+◌, ◌-◌, Bool, true, false, not, ◌&&◌, ◌||◌, Option, none, some, List, [], ◌∷◌, length,
  ◌==◌, if◌then◌else◌, lookup, insert, remove_key,
}
use extra.Proxy.Gate.{occupancy, block_for}
use extra.Proxy.Contexts.{
  ContextKey, unauthenticated_key, fingerprint_key, RestContext, Creation, RestContextManager,
  holds, initialize, create_context, update_context, demote_default, resolve,
}

-- What `createRestForToken` came to: an error, or a handler that `isCompatibleApiHandler` takes or not,
-- and for which `initializeHandler` throws or not.
pub data CreatedHandler : Type 0 where
  failed : CreatedHandler
  handler : (rest : ℕ) → (compatible throws : Bool) → CreatedHandler

unfoldable pub owns_handler : ℕ → List (ℕ × ℕ) → Bool
owns_handler rest owners = elim (lookup rest owners) [ none ↦ false | some k ↦ true ]

-- `createDistinctHandler` behind its wait: the manager, and the handler if there is one.
unfoldable pub take_handler :
    (key : ℕ) → CreatedHandler → RestContextManager → RestContextManager × Option ℕ
unfolding initialize owns_handler
take_handler key failed s = (s, none)
take_handler key (handler rest compatible throws) s =
    if not compatible
    then (s, none)
    else if rest == s.default_rest || owns_handler rest s.handler_owners
    then (s, none)
    else let (handlers, threw) = initialize rest throws s.initialized_handlers in
      (
        record s {
          initialized_handlers = handlers;
          handler_owners =
              if threw
              then remove_key rest (insert rest key s.handler_owners)
              else insert rest key s.handler_owners;
        },
        if threw then none else some rest,
      )

-- `createOverrideContext` and `createRotatedDefaultContext` with their handler.
unfoldable pub add_context :
    ℕ → (key : ℕ) → Creation → (rest : ℕ) → RestContextManager → RestContextManager
unfolding create_context demote_default
add_context now key p rest s =
    let still_default = p.rotates && s.default_token == p.token in
    let s' = if still_default then record (demote_default s) { current_default_key = key } else s in
    record s' {
      contexts =
          insert key
            (create_context now s.next_handle rest (not still_default) (some p.token)
              s.authenticated_gate)
            s'.contexts;
      next_handle = suc s.next_handle;
    }

unfoldable pub settle_creation :
    ℕ → (key : ℕ) → Creation → RestContextManager × Option ℕ → RestContextManager
unfolding add_context
settle_creation now key p (s, none) = record s {
  creating = insert key (record p { settled = true }) s.creating;
}
settle_creation now key p (s, some rest) =
    let s' = add_context now key p rest s in
    record s' { creating = insert key (record p { settled = true }) s'.creating }

-- A creation that waits for `createRestForToken` goes on.
unfoldable pub creation_returns :
    ℕ → (key : ℕ) → CreatedHandler → RestContextManager → RestContextManager
unfolding settle_creation take_handler
creation_returns now key h s = elim (lookup key s.creating) [
  | none ↦ s
  | some p ↦ if p.settled then s else settle_creation now key p (take_handler key h s)
]

-- The `finally` of `resolve`, once the creation has settled.
unfoldable pub forget_creation : (key : ℕ) → RestContextManager → RestContextManager
forget_creation key s = elim (lookup key s.creating) [
  | none ↦ s
  | some p ↦ if p.settled then record s { creating = remove_key key s.creating } else s
]

-- Writes a context through a reference to it: one that was evicted is not in the map any more.
unfoldable pub through :
    (key handle : ℕ) → (RestContext → RestContext) → RestContextManager → RestContextManager
unfolding update_context
through key handle f s = record s {
  contexts = update_context key (λ c. if c.handle == handle then f c else c) s.contexts;
}

unfoldable pub retain : ℕ → (key handle : ℕ) → RestContextManager → RestContextManager
unfolding through
retain now key handle s =
    through key handle
      (λ c. record c { active_requests = suc c.active_requests; last_used_at = now }) s

unfoldable pub release : ℕ → (key handle : ℕ) → RestContextManager → RestContextManager
unfolding through
release now key handle s =
    through key handle
      (λ c. record c { active_requests = c.active_requests - 1; last_used_at = now }) s

unfoldable pub quarantine : ContextKey → RestContextManager → RestContextManager
unfolding holds
quarantine unauthenticated_key s = s
quarantine (fingerprint_key k) s =
    if holds k s.quarantined then s else record s { quarantined = k ∷ s.quarantined }

unfoldable pub is_quarantined : ContextKey → RestContextManager → Bool
unfolding holds
is_quarantined unauthenticated_key s = false
is_quarantined (fingerprint_key k) s = holds k s.quarantined

pub data ContextIssue : Type 0 where
  token_context_unavailable token_rejected : ContextIssue

unfoldable pub default_context_issue : (ℕ → ℕ) → RestContextManager → Option ContextIssue
unfolding holds
default_context_issue token_fingerprint s =
    let key = token_fingerprint s.default_token in
    if holds key s.quarantined then some token_rejected else elim (lookup key s.contexts) [
      | some c ↦ none
      | none ↦ if s.can_create then none else some token_context_unavailable
    ]

unfoldable pub block_global : ℕ → ContextKey → (delay : ℕ) → RestContextManager → RestContextManager
unfolding update_context
block_global now unauthenticated_key delay s = record s {
  unauthenticated = record s.unauthenticated { gate = block_for s.unauthenticated.gate delay now };
}
block_global now (fingerprint_key k) delay s = record s {
  contexts = update_context k (λ c. record c { gate = block_for c.gate delay now }) s.contexts;
}

unfoldable pub token_context_count : RestContextManager → ℕ
token_context_count s = length s.contexts

-- The loop of `authenticatedGateOccupancy`, which prunes each gate.
unfoldable pub sum_occupancy : ℕ → List (ℕ × RestContext) → List (ℕ × RestContext) × ℕ
sum_occupancy now [] = ([], 0)
sum_occupancy now ((k, c) ∷ m) =
    let (gate, n) = occupancy c.gate now in
    let (rest, total) = sum_occupancy now m in ((k, record c { gate = gate }) ∷ rest, n + total)

unfoldable pub authenticated_gate_occupancy : ℕ → RestContextManager → RestContextManager × ℕ
unfolding sum_occupancy
authenticated_gate_occupancy now s =
    let (m, n) = sum_occupancy now s.contexts in (record s { contexts = m }, n)

unfoldable pub unauthenticated_gate_occupancy : ℕ → RestContextManager → RestContextManager × ℕ
unauthenticated_gate_occupancy now s =
    let (gate, n) = occupancy s.unauthenticated.gate now in
    (record s { unauthenticated = record s.unauthenticated { gate = gate } }, n)

-- What can happen: a call, a step of a creation, another token of the default handler.
pub data ContextAction : Type 0 where
  resolves : (auth : Bool) → (token : Option ℕ) → ContextAction
  creates_handler : (key : ℕ) → CreatedHandler → ContextAction
  forgets : (key : ℕ) → ContextAction
  retains releases : (key handle : ℕ) → ContextAction
  quarantines : ContextKey → ContextAction
  blocks : ContextKey → (delay : ℕ) → ContextAction
  measures : ContextAction
  rotates_token : (token : ℕ) → ContextAction

unfoldable pub step :
    (token_fingerprint : ℕ → ℕ)
    → (limited : (rest now : ℕ) → Bool) → ℕ
    → ContextAction
    → RestContextManager
    → RestContextManager
step f limited now (resolves auth token) s = (resolve f limited now auth token s).0
step f limited now (creates_handler key h) s = creation_returns now key h s
step f limited now (forgets key) s = forget_creation key s
step f limited now (retains key handle) s = retain now key handle s
step f limited now (releases key handle) s = release now key handle s
step f limited now (quarantines key) s = quarantine key s
step f limited now (blocks key delay) s = block_global now key delay s
step f limited now measures s = (authenticated_gate_occupancy now s).0
step f limited now (rotates_token token) s = record s { default_token = token }
