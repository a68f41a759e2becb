-- ===== src/Proxy/Contexts/Owners.antt =====
-- contexts.ts: which context has which handler.
pub mod Steps
use extra.Prelude.{
  ℕ, suc, ◌+◌, ◌-◌, ◌<◌, ◌≡◌, refl, sym, ap, subst, ◌∙◌, Bool, true, false, not, ◌&&◌, ◌||◌, inl,
  inr, ◌⊎◌, Option, none, some, List, [], ◌∷◌, length, ltb, ◌==◌, if◌then◌else◌, Bool-cases,
  Option-cases, lookup, insert, remove_key, lookup-insert, lookup-remove_key, arith,
}
use extra.Proxy.Contexts.{
  ContextKey, unauthenticated_key, fingerprint_key, RestContext, Creation, RestContextManager,
  initialize, update_context, set_override, demote_default, promote_default, least_recent,
  is_evictable, evict_override_context, assert_context_capacity, create, await_creation,
  resolve_token, resolve, create_context, or_token, override_count,
}
use extra.Proxy.Contexts.Operations.{
  CreatedHandler, failed, handler, owns_handler, take_handler, add_context, settle_creation,
  creation_returns, forget_creation, through, retain, release, quarantine, block_global,
  sum_occupancy, authenticated_gate_occupancy, ContextAction, resolves, creates_handler, forgets,
  retains, releases, quarantines, blocks, measures, rotates_token, step,
}

abbrev pub rest_of : Option RestContext → Option ℕ
rest_of none = none
rest_of (some c) = some c.rest

-- The handler of a key's context.
abbrev pub rest_at : ℕ → List (ℕ × RestContext) → Option ℕ
rest_at k m = rest_of (lookup k m)

-- The handler of each context has the context's key for its owner.
abbrev pub Owns : List (ℕ × RestContext) → List (ℕ × ℕ) → Type 0
Owns m owners = (k r : ℕ) → rest_at k m ≡ some r → lookup r owners ≡ some k

abbrev pub IsOwned : RestContextManager → Type 0
IsOwned s = Owns s.contexts s.handler_owners

update_context-rest_at :
    (j k : ℕ) (f : RestContext → RestContext) (m : List (ℕ × RestContext))
    → ((c : RestContext) → (f c).rest ≡ c.rest)
    → rest_at j (update_context k f m) ≡ rest_at j m
unfolding update_context
update_context-rest_at j k f m keeps = go (lookup k m) refl
  where
    go : (o : Option RestContext) → lookup k m ≡ o → rest_at j (update_context k f m) ≡ rest_at j m
    go none e = rw (e, update_context) refl
    go (some c) e = rw (e, update_context) (ground (arith, e, keeps c, lookup-insert j k (f c) m))

pub written-Owns :
    (key : ℕ) (f : RestContext → RestContext) (m : List (ℕ × RestContext)) (owners : List (ℕ × ℕ))
    → ((c : RestContext) → (f c).rest ≡ c.rest)
    → Owns m owners
    → Owns (update_context key f m) owners
written-Owns key f m owners keeps h k r e = h k r (sym (update_context-rest_at k key f m keeps) ∙ e)

removed-Owns :
    (key : ℕ) (m : List (ℕ × RestContext)) (owners : List (ℕ × ℕ))
    → Owns m owners
    → Owns (remove_key key m) owners
removed-Owns key m owners h k r e = h k r (ground (arith, e, lookup-remove_key k key m))

promote_default-IsOwned :
    (key : ℕ) (s : RestContextManager) → IsOwned s → IsOwned (promote_default key s)
unfolding promote_default demote_default
promote_default-IsOwned key s h =
    written-Owns key (set_override false) (demote_default s).contexts s.handler_owners (λ c. refl)
      (written-Owns s.current_default_key (set_override true) s.contexts s.handler_owners
        (λ c. refl) h)

module _ (f : ℕ → ℕ) (limited : (rest now : ℕ) → Bool) where
  evict_override_context-IsOwned :
      (now : ℕ) (s : RestContextManager)
      → IsOwned s
      → IsOwned (evict_override_context f limited now s)
  unfolding evict_override_context
  evict_override_context-IsOwned now s h =
      elim (Bool-cases (ltb (override_count s.contexts) s.max_token_contexts)) [
        | inl room ↦ rw (room, evict_override_context) h
        | inr full ↦ elim (Option-cases (least_recent (is_evictable f limited now s) s.contexts)) [
          | inl e ↦ rw (full, e, evict_override_context) h
          | inr ((k, c), e) ↦
              rw (full, e, evict_override_context) (removed-Owns k s.contexts s.handler_owners h)
        ]
      ]

  create-IsOwned :
      (now key token : ℕ) (s : RestContextManager)
      → IsOwned s
      → IsOwned (create f limited now key token s).0
  unfolding create assert_context_capacity
  create-IsOwned now key token s h =
      let s' = evict_override_context f limited now s in
      let h' = evict_override_context-IsOwned now s h in
      elim (Bool-cases
        (ltb (override_count s'.contexts + length s'.creating) s'.max_token_contexts)) [
          | inr full ↦ rw (full, create) h'
          | inl free ↦ rw (free, create) h'
        ]

  await_creation-IsOwned :
      (b : Bool) (now key token : ℕ) (s : RestContextManager)
      → IsOwned s
      → IsOwned (await_creation f limited b now key token s).0
  unfolding await_creation
  await_creation-IsOwned false now key token s h = h
  await_creation-IsOwned true now key token s h = elim (Option-cases (lookup key s.creating)) [
    | inr (p, w) ↦ rw (w, await_creation) h
    | inl w ↦ rw (w, await_creation) (create-IsOwned now key token s h)
  ]

  pub resolve_token-IsOwned :
      (now token : ℕ) (s : RestContextManager)
      → IsOwned s
      → IsOwned (resolve_token f limited now token s).0
  unfolding resolve_token
  resolve_token-IsOwned now token s h = go (lookup (f token) s.contexts) refl
    where
      go :
          (o : Option RestContext)
          → lookup (f token) s.contexts ≡ o
          → IsOwned (resolve_token f limited now token s).0
      go none e =
          rw (e, resolve_token) (await_creation-IsOwned s.can_create now (f token) token s h)
      go (some c) e =
          elim (Bool-cases (token == s.default_token && not (f token == s.current_default_key))) [
            | inr stays ↦
                rw (e, stays, resolve_token)
                  (written-Owns (f token) _ s.contexts s.handler_owners (λ d. refl) h)
            | inl promoted ↦
                rw (e, promoted, resolve_token)
                  (written-Owns (f token) _ (promote_default (f token) s).contexts
                    (promote_default (f token) s).handler_owners (λ d. refl)
                    (promote_default-IsOwned (f token) s h))
          ]

new_owner-Owns :
    (rest key : ℕ) (m : List (ℕ × RestContext)) (owners : List (ℕ × ℕ))
    → lookup rest owners ≡ none
    → Owns m owners
    → Owns m (insert rest key owners) × Owns m (remove_key rest (insert rest key owners))
new_owner-Owns rest key m owners n h = (λ k r e. kept k r (h k r e), λ k r e. still k r (h k r e))
  where
    kept : (k r : ℕ) → lookup r owners ≡ some k → lookup r (insert rest key owners) ≡ some k
    kept k r e = ground (arith, e, n, lookup-insert r rest key owners)

    still :
        (k r : ℕ)
        → lookup r owners ≡ some k
        → lookup r (remove_key rest (insert rest key owners)) ≡ some k
    still k r e = ground (
      arith,
      e,
      n,
      lookup-insert r rest key owners,
      lookup-remove_key r rest (insert rest key owners),
    )

-- Whether it is taken or not: the other contexts keep their handlers' owner, and a handler that is
-- taken has the key for its owner.
abbrev pub Takes : ℕ → RestContextManager → RestContextManager × Option ℕ → Type 0
Takes key s (s', o) =
    (s'.contexts ≡ s.contexts)
    × IsOwned s'
    × ((rest : ℕ) → o ≡ some rest → lookup rest s'.handler_owners ≡ some key)

pub take_handler-Takes :
    (key : ℕ) (c : CreatedHandler) (s : RestContextManager)
    → IsOwned s
    → Takes key s (take_handler key c s)
unfolding take_handler owns_handler
take_handler-Takes key failed s h = (refl, h, λ r e. cc)
take_handler-Takes key (handler rest false throws) s h = (refl, h, λ r e. cc)
take_handler-Takes key (handler rest true throws) s h =
    elim (Bool-cases (rest == s.default_rest || owns_handler rest s.handler_owners)) [
      | inl taken ↦ rw (taken, take_handler) (refl, h, λ r e. cc)
      | inr free ↦
          rw (free, take_handler)
            (go (initialize rest throws s.initialized_handlers).1
              (initialize rest throws s.initialized_handlers).0 (new free))
    ]
  where
    new :
        (rest == s.default_rest || owns_handler rest s.handler_owners) ≡ false
        → lookup rest s.handler_owners ≡ none
    new free = ground arith

    own :
        (r : ℕ)
        → ◌≡◌ {A = Option ℕ} (some rest) (some r)
        → lookup r (insert rest key s.handler_owners) ≡ some key
    own r e = ground (arith, e, lookup-insert r rest key s.handler_owners)

    go :
        (threw : Bool) (handlers : List ℕ)
        → lookup rest s.handler_owners ≡ none
        → Takes key s (
          record s {
            initialized_handlers = handlers;
            handler_owners =
                if threw
                then remove_key rest (insert rest key s.handler_owners)
                else insert rest key s.handler_owners;
          },
          if threw then none else some rest,
        )
    go true handlers n =
        (refl, (new_owner-Owns rest key s.contexts s.handler_owners n h).1, λ r e. cc)
    go false handlers n = (refl, (new_owner-Owns rest key s.contexts s.handler_owners n h).0, own)

pub add_context-IsOwned :
    (now key rest : ℕ) (p : Creation) (s : RestContextManager)
    → lookup rest s.handler_owners ≡ some key
    → IsOwned s
    → IsOwned (add_context now key p rest s)
unfolding add_context create_context
add_context-IsOwned now key rest p s n h =
    elim (Bool-cases (p.rotates && s.default_token == p.token)) [
      | inr other ↦ rw (other, add_context) (new s.contexts h _ refl)
      | inl still ↦ rw (still, add_context) (new (demote_default s).contexts demoted _ refl)
    ]
  where
    demoted : Owns (demote_default s).contexts s.handler_owners
    demoted =
        unfold demote_default in
        written-Owns s.current_default_key (set_override true) s.contexts s.handler_owners
          (λ c. refl) h

    new :
        (m : List (ℕ × RestContext))
        → Owns m s.handler_owners
        → (c : RestContext) → c.rest ≡ rest
        → Owns (insert key c m) s.handler_owners
    new m o c q k r e = ground (arith, n, q, e, lookup-insert k key c m, o k r)
