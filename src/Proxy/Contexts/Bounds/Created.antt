-- ===== src/Proxy/Contexts/Bounds/Created.antt =====
-- contexts.ts: a creation that ends keeps the manager in order.
use extra.Prelude.{
  ℕ, suc, ◌≤◌, ◌≡◌, ap, true, false, not, ◌&&◌, inl, inr, none, some, ◌==◌, if◌then◌else◌,
  Bool-cases, lookup, insert, lookup-insert, HasDistinctKeys, insert-HasDistinctKeys, arith,
}
use extra.Proxy.Contexts.{
  Creation, RestContextManager, override_count, demote_default, create_context,
}
use extra.Proxy.Contexts.Operations.{add_context}
use extra.Proxy.Contexts.Flags.{flag, override_count-insert, running, running-insert}
use extra.Proxy.Contexts.Bounds.{
  IsFlagged, IsManaged, is_running, update_context-HasDistinctKeys, default-flag,
  demote_default-count, demote_default-flag,
}

-- The manager with the creation of a key settled, from one that differs in its contexts.
pub settled-IsManaged :
    (key : ℕ) (p : Creation) (s s' : RestContextManager)
    → lookup key s.creating ≡ some p
    → p.settled ≡ false
    → ((k : ℕ) → IsFlagged s'.current_default_key k (flag k s'.contexts))
    → ((k : ℕ) → (key == k) ≡ false → flag k s.contexts ≡ none → flag k s'.contexts ≡ none)
    → HasDistinctKeys s'.contexts
    → override_count s'.contexts ≤ suc (override_count s.contexts)
    → s'.creating ≡ s.creating
    → s'.max_token_contexts ≡ s.max_token_contexts
    → IsManaged s
    → IsManaged (record s' { creating = insert key (record p { settled = true }) s'.creating })
settled-IsManaged key p s s' e r flagged others distinct count same max h = record {
  flagged = flagged;
  distinct = distinct;
  absent = absent;
  bounded = ground (
    arith,
    h.bounded,
    count,
    max,
    r,
    running-insert key (record p { settled = true }) s.creating,
    ap (λ m. running (insert key (record p { settled = true }) m)) same,
    e,
  );
}
  where
    absent :
        (k : ℕ)
        → is_running (lookup k (insert key (record p { settled = true }) s'.creating)) ≡ true
        → flag k s'.contexts ≡ none
    absent k q = ground (
      arith,
      q,
      lookup-insert k key (record p { settled = true }) s.creating,
      ap (λ m. lookup k (insert key (record p { settled = true }) m)) same,
      others k,
      h.absent k,
    )

module _ (now key rest : ℕ) (p : Creation) (s : RestContextManager) where
  add_context-count :
      IsManaged s
      → override_count (add_context now key p rest s).contexts ≤ suc (override_count s.contexts)
  unfolding add_context create_context
  add_context-count h = elim (Bool-cases (p.rotates && s.default_token == p.token)) [
    | inl still ↦
        rw (still, add_context)
          (ground (
            arith,
            demote_default-count s h,
            override_count-insert key
                (create_context now s.next_handle rest false (some p.token) s.authenticated_gate)
                (demote_default s).contexts,
          ))
    | inr other ↦
        rw (other, add_context)
          (ground (
            arith,
            override_count-insert key
                (create_context now s.next_handle rest true (some p.token) s.authenticated_gate)
                s.contexts,
          ))
  ]

  add_context-flag :
      (k : ℕ)
      → IsManaged s
      → flag k (add_context now key p rest s).contexts ≡ (
          if key == k
          then some (not (p.rotates && s.default_token == p.token))
          else if (p.rotates && s.default_token == p.token) && s.current_default_key == k
          then some true
          else flag k s.contexts)
  unfolding add_context create_context
  add_context-flag k h = elim (Bool-cases (p.rotates && s.default_token == p.token)) [
    | inl still ↦
        rw (still, add_context)
          (ground (
            arith,
            demote_default-flag s k h,
            lookup-insert k key
                (create_context now s.next_handle rest false (some p.token) s.authenticated_gate)
                (demote_default s).contexts,
          ))
    | inr other ↦
        rw (other, add_context)
          (ground (
            arith,
            lookup-insert k key
                (create_context now s.next_handle rest true (some p.token) s.authenticated_gate)
                s.contexts,
          ))
  ]

  add_context-current_default_key :
      (add_context now key p rest s).current_default_key
      ≡ (if p.rotates && s.default_token == p.token then key else s.current_default_key)
  unfolding add_context
  add_context-current_default_key = ground arith

  add_context-HasDistinctKeys :
      IsManaged s → HasDistinctKeys (add_context now key p rest s).contexts
  unfolding add_context demote_default
  add_context-HasDistinctKeys h = elim (Bool-cases (p.rotates && s.default_token == p.token)) [
    | inl still ↦
        rw (still, add_context)
          (insert-HasDistinctKeys key _ _
            (update_context-HasDistinctKeys s.current_default_key _ s.contexts h.distinct))
    | inr other ↦ rw (other, add_context) (insert-HasDistinctKeys key _ _ h.distinct)
  ]

  add_context-creating : (add_context now key p rest s).creating ≡ s.creating
  unfolding add_context demote_default
  add_context-creating = ground arith

  add_context-max : (add_context now key p rest s).max_token_contexts ≡ s.max_token_contexts
  unfolding add_context demote_default
  add_context-max = ground arith

  pub add_context-IsManaged :
      lookup key s.creating ≡ some p
      → p.settled ≡ false
      → IsManaged s
      → (let s' = add_context now key p rest s in
          IsManaged (record s' { creating = insert key (record p { settled = true }) s'.creating }))
  add_context-IsManaged e r h =
      settled-IsManaged key p s (add_context now key p rest s) e r flagged others
        (add_context-HasDistinctKeys h) (add_context-count h) add_context-creating add_context-max h
    where
      missing : flag key s.contexts ≡ none
      missing = h.absent key (ground (arith, e, r))

      flagged :
          (k : ℕ)
          → IsFlagged
              (add_context now key p rest s).current_default_key
              k
              (flag k (add_context now key p rest s).contexts)
      flagged k = ground (
        arith,
        add_context-flag k h,
        add_context-current_default_key,
        h.flagged k,
        h.flagged key,
        missing,
      )

      others :
          (k : ℕ)
          → (key == k) ≡ false
          → flag k s.contexts ≡ none
          → flag k (add_context now key p rest s).contexts ≡ none
      others k n q = ground (arith, n, q, add_context-flag k h, default-flag s h)
