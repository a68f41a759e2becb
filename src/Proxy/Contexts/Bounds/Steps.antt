-- ===== src/Proxy/Contexts/Bounds/Steps.antt =====
-- contexts.ts: every operation keeps the manager in order.
use extra.Prelude.{
  ℕ, ◌≡◌, refl, sym, ap, subst, ◌∙◌, Bool, true, false, not, ◌&&◌, inl, inr, Option, none, some,
  List, [], ◌∷◌, ◌==◌, if◌then◌else◌, Bool-cases, Option-cases, lookup, remove_key,
  lookup-remove_key, HasDistinctKeys, arith,
}
use extra.Proxy.Contexts.{
  ContextKey, unauthenticated_key, fingerprint_key, RestContext, Creation, RestContextManager,
  GateOptions, override_count, promote_default, await_creation, resolve_token, resolve,
  create_context, or_token, rest_context_manager,
}
use extra.Proxy.Contexts.Operations.{
  CreatedHandler, failed, handler, take_handler, settle_creation, creation_returns, forget_creation,
  through, retain, release, quarantine, block_global, sum_occupancy, authenticated_gate_occupancy,
  ContextAction, resolves, creates_handler, forgets, retains, releases, quarantines, blocks,
  measures, rotates_token, step,
}
use extra.Proxy.Contexts.Flags.{flag, flag_of, running, running-remove_key}
use extra.Proxy.Contexts.Bounds.Created.{settled-IsManaged, add_context-IsManaged}
use extra.Proxy.Contexts.Bounds.{
  IsFlagged, IsManaged, is_running, promote_default-IsManaged, update_context-IsManaged,
  create-IsManaged,
}

module _ (f : ℕ → ℕ) (limited : (rest now : ℕ) → Bool) where
  await_creation-IsManaged :
      (b : Bool) (now key token : ℕ) (s : RestContextManager)
      → lookup key s.contexts ≡ none
      → IsManaged s
      → IsManaged (await_creation f limited b now key token s).0
  unfolding await_creation
  await_creation-IsManaged false now key token s e h = h
  await_creation-IsManaged true now key token s e h = elim (Option-cases (lookup key s.creating)) [
    | inr (p, w) ↦ rw (w, await_creation) h
    | inl w ↦ rw (w, await_creation) (create-IsManaged f limited now key token s e h)
  ]

  resolve_token-IsManaged :
      (now token : ℕ) (s : RestContextManager)
      → IsManaged s
      → IsManaged (resolve_token f limited now token s).0
  unfolding resolve_token
  resolve_token-IsManaged now token s h = go (lookup (f token) s.contexts) refl
    where
      key : ℕ
      key = f token

      known :
          (c : RestContext)
          → lookup key s.contexts ≡ some c
          → (key == s.current_default_key) ≡ false
          → flag key s.contexts ≡ some true
      known c e n = ground (arith, e, h.flagged key)

      go :
          (o : Option RestContext)
          → lookup key s.contexts ≡ o
          → IsManaged (resolve_token f limited now token s).0
      go (some c) e =
          elim (Bool-cases (token == s.default_token && not (key == s.current_default_key))) [
            | inr stays ↦
                rw (e, stays, resolve_token) (update_context-IsManaged key _ s (λ d. refl) h)
            | inl promoted ↦
                rw (e, promoted, resolve_token)
                  (update_context-IsManaged key _ (promote_default key s) (λ d. refl)
                    (promote_default-IsManaged key s (known c e (ground arith)) h))
          ]
      go none e = rw (e, resolve_token) (await_creation-IsManaged s.can_create now key token s e h)

take_handler_keeps :
    (key : ℕ) (h : CreatedHandler) (s : RestContextManager)
    → IsManaged s
    → (let s' = (take_handler key h s).0 in (s'.creating ≡ s.creating) × IsManaged s')
unfolding take_handler
take_handler_keeps key failed s m = (refl, m)
take_handler_keeps key (handler rest compatible throws) s m = ground (arith, m)

settle_creation-IsManaged :
    (now key : ℕ) (p : Creation) (s : RestContextManager) (o : Option ℕ)
    → lookup key s.creating ≡ some p
    → p.settled ≡ false
    → IsManaged s
    → IsManaged (settle_creation now key p (s, o))
unfolding settle_creation
settle_creation-IsManaged now key p s none e r h =
    settled-IsManaged key p s s e r h.flagged (λ k n q. q) h.distinct (omega arith) refl refl h
settle_creation-IsManaged now key p s (some rest) e r h =
    add_context-IsManaged now key rest p s e r h

creation_returns-IsManaged :
    (now key : ℕ) (c : CreatedHandler) (s : RestContextManager)
    → IsManaged s
    → IsManaged (creation_returns now key c s)
unfolding creation_returns
creation_returns-IsManaged now key c s h = elim (Option-cases (lookup key s.creating)) [
  | inl e ↦ rw (e, creation_returns) h
  | inr (p, e) ↦ rw (e, creation_returns) (go p e p.settled refl)
]
  where
    go :
        (p : Creation)
        → lookup key s.creating ≡ some p
        → (b : Bool) → p.settled ≡ b
        → IsManaged (if b then s else settle_creation now key p (take_handler key c s))
    go p e true q = h
    go p e false q =
        let (same, h') = take_handler_keeps key c s h in
        settle_creation-IsManaged now key p (take_handler key c s).0 (take_handler key c s).1
          (ap (lookup key) same ∙ e) q h'

forget_creation-IsManaged :
    (key : ℕ) (s : RestContextManager) → IsManaged s → IsManaged (forget_creation key s)
unfolding forget_creation
forget_creation-IsManaged key s h = elim (Option-cases (lookup key s.creating)) [
  | inl e ↦ rw (e, forget_creation) h
  | inr (p, e) ↦ rw (e, forget_creation) (go p.settled)
]
  where
    absent :
        (k : ℕ)
        → is_running (lookup k (remove_key key s.creating)) ≡ true
        → flag k s.contexts ≡ none
    absent k r = ground (arith, r, lookup-remove_key k key s.creating, h.absent k)

    go : (b : Bool) → IsManaged (if b then record s { creating = remove_key key s.creating } else s)
    go false = h
    go true = record {
      flagged = h.flagged;
      distinct = h.distinct;
      absent = absent;
      bounded = omega (arith, h.bounded, running-remove_key key s.creating);
    }

sum_occupancy-flag :
    (now k : ℕ) (m : List (ℕ × RestContext)) → flag k (sum_occupancy now m).0 ≡ flag k m
unfolding sum_occupancy lookup
sum_occupancy-flag now k [] = refl
sum_occupancy-flag now k ((j, c) ∷ m) = ground (arith, sum_occupancy-flag now k m)

sum_occupancy-override_count :
    (now : ℕ) (m : List (ℕ × RestContext))
    → override_count (sum_occupancy now m).0 ≡ override_count m
unfolding sum_occupancy override_count
sum_occupancy-override_count now [] = refl
sum_occupancy-override_count now ((j, c) ∷ m) = ground (arith, sum_occupancy-override_count now m)

none_of_flag : (o : Option RestContext) → flag_of o ≡ none → o ≡ none
none_of_flag none e = refl
none_of_flag (some c) e = cc

sum_occupancy-HasDistinctKeys :
    (now : ℕ) (m : List (ℕ × RestContext))
    → HasDistinctKeys m
    → HasDistinctKeys (sum_occupancy now m).0
unfolding sum_occupancy
sum_occupancy-HasDistinctKeys now [] d = tt
sum_occupancy-HasDistinctKeys now ((j, c) ∷ m) d = (
  none_of_flag _ (sum_occupancy-flag now j m ∙ ap flag_of d.0),
  sum_occupancy-HasDistinctKeys now m d.1,
)

block_global-IsManaged :
    (now : ℕ) (key : ContextKey) (delay : ℕ) (s : RestContextManager)
    → IsManaged s
    → IsManaged (block_global now key delay s)
unfolding block_global
block_global-IsManaged now unauthenticated_key delay s h = record {
  flagged = h.flagged;
  distinct = h.distinct;
  absent = h.absent;
  bounded = h.bounded;
}
block_global-IsManaged now (fingerprint_key k) delay s h =
    update_context-IsManaged k _ s (λ c. refl) h

quarantine-IsManaged :
    (key : ContextKey) (s : RestContextManager) → IsManaged s → IsManaged (quarantine key s)
unfolding quarantine
quarantine-IsManaged unauthenticated_key s h = h
quarantine-IsManaged (fingerprint_key k) s h = ground (arith, h)

through-IsManaged :
    (key handle : ℕ) (f : RestContext → RestContext) (s : RestContextManager)
    → ((c : RestContext) → (f c).override ≡ c.override)
    → IsManaged s
    → IsManaged (through key handle f s)
unfolding through
through-IsManaged key handle f s keeps h =
    update_context-IsManaged key _ s (λ c. ground (arith, keeps c)) h

measured-IsManaged :
    (now : ℕ) (s : RestContextManager)
    → IsManaged s
    → IsManaged (authenticated_gate_occupancy now s).0
unfolding authenticated_gate_occupancy
measured-IsManaged now s h = record {
  flagged = λ k.
      subst (IsFlagged s.current_default_key k) (sym (sum_occupancy-flag now k s.contexts))
        (h.flagged k);
  distinct = sum_occupancy-HasDistinctKeys now s.contexts h.distinct;
  absent = λ k r. sum_occupancy-flag now k s.contexts ∙ h.absent k r;
  bounded = omega (arith, h.bounded, sum_occupancy-override_count now s.contexts);
}

-- Whatever calls, ends of creations and rotations of the default token follow: with the creations
-- that run, the contexts that are overrides stay at most `maxTokenContexts`; the default's context is
-- always there, and never evicted; it is the only one that is no override; and no key has both a
-- context and a creation that runs.
pub step-IsManaged :
    (f : ℕ → ℕ) (limited : (rest now : ℕ) → Bool) (now : ℕ) (a : ContextAction)
    (s : RestContextManager)
    → IsManaged s
    → IsManaged (step f limited now a s)
unfolding step resolve retain release
step-IsManaged f limited now (resolves false token) s h = record {
  flagged = h.flagged;
  distinct = h.distinct;
  absent = h.absent;
  bounded = h.bounded;
}
step-IsManaged f limited now (resolves true token) s h =
    resolve_token-IsManaged f limited now (or_token f token s.default_token) s h
step-IsManaged f limited now (creates_handler key c) s h = creation_returns-IsManaged now key c s h
step-IsManaged f limited now (forgets key) s h = forget_creation-IsManaged key s h
step-IsManaged f limited now (retains key handle) s h =
    through-IsManaged key handle _ s (λ c. refl) h
step-IsManaged f limited now (releases key handle) s h =
    through-IsManaged key handle _ s (λ c. refl) h
step-IsManaged f limited now (quarantines key) s h = quarantine-IsManaged key s h
step-IsManaged f limited now (blocks key delay) s h = block_global-IsManaged now key delay s h
step-IsManaged f limited now measures s h = measured-IsManaged now s h
step-IsManaged f limited now (rotates_token token) s h = record {
  flagged = h.flagged;
  distinct = h.distinct;
  absent = h.absent;
  bounded = h.bounded;
}

-- A new manager is in order.
pub rest_context_manager-IsManaged :
    (f : ℕ → ℕ) (now rest token : ℕ) (can_create : Bool) (max : ℕ) (a u : GateOptions)
    → IsManaged (rest_context_manager f now rest token can_create max a u)
unfolding rest_context_manager create_context lookup override_count running
rest_context_manager-IsManaged f now rest token can_create max a u = record {
  flagged = λ k. ground arith;
  distinct = (refl, tt);
  absent = λ k r. cc;
  bounded = omega arith;
}
