-- ===== src/Proxy/Contexts.antt =====
-- packages/proxy/src/contexts.ts: the class RestContextManager. Tokens, handlers and the fingerprints
-- of tokens are numbers; the fingerprint of a token is a parameter, as is the test that a handler has
-- an exhausted bucket. A context is known by `handle` once it may have been evicted. A creation that
-- waits for `createRestForToken` is in `creating`; once it has settled it stays there until the
-- `finally` of its call. A creation that finds no capacity is never seen in `creating`, where the
-- source has it for one microtask.
pub mod Operations
pub mod Flags
pub mod Bounds
pub mod Owners
mod Tests
use extra.Prelude.{
  ℕ, zero, suc, ◌+◌, ◌-◌, ◌<◌, Bool, true, false, not, ◌&&◌, ◌||◌, Option, none, some, List, [],
  ◌∷◌, length, ltb, leb, ◌==◌, if◌then◌else◌, lookup, insert, remove_key,
}
use extra.Proxy.Gate.{SlidingWindow, sliding_window, occupancy, block_for}

pub data ContextKey : Type 0 where
  unauthenticated_key : ContextKey
  fingerprint_key : ℕ → ContextKey

pub record RestContext : Type 0 where
  pub handle : ℕ
  pub rest : ℕ
  pub gate : SlidingWindow
  pub override : Bool
  pub token : Option ℕ
  pub active_requests : ℕ
  pub last_used_at : ℕ

pub record Creation : Type 0 where
  pub token : ℕ
  pub rotates : Bool
  pub settled : Bool

pub record GateOptions : Type 0 where
  pub max : ℕ
  pub per_ms : ℕ

pub record RestContextManager : Type 0 where
  pub default_rest : ℕ
  pub default_token : ℕ
  pub can_create : Bool
  pub max_token_contexts : ℕ
  pub authenticated_gate : GateOptions
  pub unauthenticated : RestContext
  pub contexts : List (ℕ × RestContext)
  pub creating : List (ℕ × Creation)
  pub quarantined : List ℕ
  pub initialized_handlers : List ℕ
  pub handler_owners : List (ℕ × ℕ)
  pub current_default_key : ℕ
  pub next_handle : ℕ

unfoldable pub holds : ℕ → List ℕ → Bool
holds x [] = false
holds x (y ∷ ys) = if y == x then true else holds x ys

-- `initialize`, where `initializeHandler` throws or not: the handlers after it, and whether it threw.
unfoldable pub initialize : ℕ → (throws : Bool) → List ℕ → List ℕ × Bool
unfolding holds
initialize rest throws handlers =
    if holds rest handlers
    then (handlers, false)
    else if throws
    then (handlers, true)
    else (rest ∷ handlers, false)

unfoldable pub create_context :
    ℕ → (handle rest : ℕ) → (override : Bool) → (token : Option ℕ) → GateOptions → RestContext
create_context now handle rest override token gate = record {
  handle = handle;
  rest = rest;
  gate = sliding_window gate.max gate.per_ms;
  override = override;
  token = token;
  active_requests = 0;
  last_used_at = now;
}

-- The contexts of `[...this.contexts.values()].filter(context => context.override)`.
unfoldable pub override_count : List (ℕ × RestContext) → ℕ
override_count [] = 0
override_count ((k, c) ∷ m) = if c.override then suc (override_count m) else override_count m

-- The candidate of `evictOverrideContext` that was used least recently, the first of these.
unfoldable pub least_recent :
    (ℕ → RestContext → Bool) → List (ℕ × RestContext) → Option (ℕ × RestContext)
least_recent evictable [] = none
least_recent evictable ((k, c) ∷ m) =
    let rest = least_recent evictable m in
    if evictable k c
    then elim rest [
      | none ↦ some (k, c)
      | some (j, d) ↦ if ltb d.last_used_at c.last_used_at then some (j, d) else some (k, c)
    ]
    else rest

abbrev pub set_override : Bool → RestContext → RestContext
set_override b c = record c { override = b }

-- Writes a context that is there, as through a reference to it.
unfoldable pub update_context :
    ℕ → (RestContext → RestContext) → List (ℕ × RestContext) → List (ℕ × RestContext)
update_context k f m = elim (lookup k m) [ none ↦ m | some c ↦ insert k (f c) m ]

-- `promoteDefault`, for a context that is in the map or comes into it next.
unfoldable pub demote_default : RestContextManager → RestContextManager
unfolding update_context
demote_default s = record s {
  contexts = update_context s.current_default_key (set_override true) s.contexts;
}

unfoldable pub promote_default : ℕ → RestContextManager → RestContextManager
unfolding demote_default update_context
promote_default key s =
    let s' = demote_default s in
    record s' {
      contexts = update_context key (set_override false) s'.contexts;
      current_default_key = key;
    }

pub data TokenContextUnavailable : Type 0 where
  rotation_unsupported override_unsupported all_active incompatible not_distinct :
      TokenContextUnavailable

pub data Resolution : Type 0 where
  resolved : ContextKey → Resolution
  waits creates : (key : ℕ) → Resolution
  unavailable : TokenContextUnavailable → Resolution

module _ (token_fingerprint : ℕ → ℕ) where
  -- The constructor, after `initializeHandler` has taken the default handler.
  unfoldable pub rest_context_manager :
      ℕ
      → (default_rest default_token : ℕ) → (can_create : Bool) → (max_token_contexts : ℕ)
      → (authenticated unauthenticated : GateOptions) → RestContextManager
  unfolding create_context
  rest_context_manager now rest token can_create max authenticated unauthenticated =
      let key = token_fingerprint token in
      record {
        default_rest = rest;
        default_token = token;
        can_create = can_create;
        max_token_contexts = max;
        authenticated_gate = authenticated;
        unauthenticated = create_context now 0 rest false none unauthenticated;
        contexts = (key, create_context now 1 rest false (some token) authenticated) ∷ [];
        creating = [];
        quarantined = [];
        initialized_handlers = rest ∷ [];
        handler_owners = (rest, key) ∷ [];
        current_default_key = key;
        next_handle = 2;
      }

  abbrev or_token : Option ℕ → ℕ → ℕ
  or_token none d = d
  or_token (some t) d = t

  unfoldable pub identity : (auth : Bool) → (token : Option ℕ) → RestContextManager → ContextKey
  identity false token s = unauthenticated_key
  identity true token s = fingerprint_key (token_fingerprint (or_token token s.default_token))

  unfoldable pub request_identity :
      (auth : Bool) → (token : Option ℕ) → (rest_token : ℕ) → ContextKey
  request_identity false token rest_token = unauthenticated_key
  request_identity true token rest_token =
      fingerprint_key (token_fingerprint (or_token token rest_token))

  module _ (limited : (rest now : ℕ) → Bool) where
    unfoldable pub is_evictable : ℕ → RestContextManager → ℕ → RestContext → Bool
    unfolding holds
    is_evictable now s k c =
        c.override
        && c.active_requests == 0
        && not (holds k s.quarantined)
        && not (limited c.rest now)

    unfoldable pub evict_override_context : ℕ → RestContextManager → RestContextManager
    unfolding override_count least_recent is_evictable
    evict_override_context now s =
        if ltb (override_count s.contexts) s.max_token_contexts
        then s
        else elim (least_recent (is_evictable now s) s.contexts) [
          | none ↦ s
          | some (k, c) ↦ record s { contexts = remove_key k s.contexts }
        ]

    -- `assertContextCapacity`: false is the error.
    unfoldable pub assert_context_capacity : ℕ → RestContextManager → RestContextManager × Bool
    unfolding evict_override_context override_count
    assert_context_capacity now s =
        let s' = evict_override_context now s in
        (s', ltb (override_count s'.contexts + length s'.creating) s'.max_token_contexts)

    -- The part of `resolve` behind the look-up, where no context and no creation has the key.
    unfoldable pub create :
        ℕ → (key token : ℕ) → RestContextManager → RestContextManager × Resolution
    unfolding assert_context_capacity
    create now key token s =
        let (s', free) = assert_context_capacity now s in
        if free
        then (
          record s' {
            creating =
                insert key
                  (record { token = token; rotates = token == s'.default_token; settled = false })
                  s'.creating;
          },
          creates key,
        )
        else (s', unavailable all_active)

    -- The same part from the test of `createRestForToken` on.
    unfoldable pub await_creation :
        (can_create : Bool)
        → ℕ
        → (key token : ℕ) → RestContextManager
        → RestContextManager × Resolution
    await_creation false now key token s = (
      s,
      unavailable (if token == s.default_token then rotation_unsupported else override_unsupported),
    )
    await_creation true now key token s = elim (lookup key s.creating) [
      | some p ↦ (s, waits key)
      | none ↦ create now key token s
    ]

    -- `resolve` with a token, up to its first wait.
    unfoldable pub resolve_token :
        ℕ → (token : ℕ) → RestContextManager → RestContextManager × Resolution
    unfolding promote_default update_context
    resolve_token now token s =
        let key = token_fingerprint token in
        elim (lookup key s.contexts) [
          | some c ↦
              let s' =
                if token == s.default_token && not (key == s.current_default_key)
                then promote_default key s
                else s in
              (
                record s' {
                  contexts = update_context key (λ d. record d { last_used_at = now }) s'.contexts;
                },
                resolved (fingerprint_key key),
              )
          | none ↦ await_creation s.can_create now key token s
        ]

    unfoldable pub resolve :
        ℕ
        → (auth : Bool) → (token : Option ℕ) → RestContextManager
        → RestContextManager × Resolution
    resolve now false token s = (
      record s { unauthenticated = record s.unauthenticated { last_used_at = now } },
      resolved unauthenticated_key,
    )
    resolve now true token s = resolve_token now (or_token token s.default_token) s
