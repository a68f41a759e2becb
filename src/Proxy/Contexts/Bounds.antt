-- ===== src/Proxy/Contexts/Bounds.antt =====
-- contexts.ts: the number of contexts, and which one is the default.
pub mod Created
pub mod Steps
use extra.Prelude.{
  ℕ, zero, suc, ◌+◌, ◌-◌, ◌≤◌, ◌<◌, ◌≡◌, refl, sym, ap, subst, ◌∙◌, Bool, true, false, not, ◌&&◌,
  inl, inr, ◌⊎◌, Option, none, some, List, [], ◌∷◌, length, ltb, ◌==◌, if◌then◌else◌, Bool-cases,
  Option-cases, lookup, insert, remove_key, lookup-insert, lookup-remove_key, HasDistinctKeys,
  insert-HasDistinctKeys, remove_key-HasDistinctKeys, arith,
}
use extra.Proxy.Contexts.{
  RestContext, Creation, RestContextManager, override_count, update_context, set_override,
  demote_default, promote_default, least_recent, is_evictable, evict_override_context,
  assert_context_capacity, create, resolve_token, resolve, create_context, or_token,
}
use extra.Proxy.Contexts.Flags.{
  flag, flag_of, one, bit, override_count-insert, override_count-remove_key, running, one_running,
  running-insert, running-remove_key, running-le-length, update_context-flag,
  override_count-update_context, marked, set_override-flag, override_count-set_override,
}

-- A key has a context that is an override unless it is the default's, or it has none and is not the
-- default's.
abbrev pub IsFlagged : ℕ → ℕ → Option Bool → Type 0
IsFlagged current k o = (o ≡ some (not (k == current))) ⊎ ((o ≡ none) × ((k == current) ≡ false))

-- Whether a creation of the key runs.
abbrev pub is_running : Option Creation → Bool
is_running none = false
is_running (some p) = not p.settled

-- The context of the current default key is there, and the overrides are all others. Together with
-- the creations that run they are at most `maxTokenContexts`. A key whose creation runs has none yet.
pub record IsManaged (s : RestContextManager) : Type 0 where
  pub flagged : (k : ℕ) → IsFlagged s.current_default_key k (flag k s.contexts)
  pub distinct : HasDistinctKeys s.contexts
  pub absent : (k : ℕ) → is_running (lookup k s.creating) ≡ true → flag k s.contexts ≡ none
  pub bounded : override_count s.contexts + running s.creating ≤ s.max_token_contexts

pub update_context-HasDistinctKeys :
    (k : ℕ) (f : RestContext → RestContext) (m : List (ℕ × RestContext))
    → HasDistinctKeys m
    → HasDistinctKeys (update_context k f m)
unfolding update_context
update_context-HasDistinctKeys k f m d = elim (Option-cases (lookup k m)) [
  | inl e ↦ rw (e, update_context) d
  | inr (c, e) ↦ rw (e, update_context) (insert-HasDistinctKeys k (f c) m d)
]

pub default-flag :
    (s : RestContextManager) → IsManaged s → flag s.current_default_key s.contexts ≡ some false
default-flag s h = ground (arith, h.flagged s.current_default_key)

pub demote_default-count :
    (s : RestContextManager)
    → IsManaged s
    → override_count (demote_default s).contexts ≡ suc (override_count s.contexts)
unfolding demote_default
demote_default-count s h =
    ground
      (arith, override_count-set_override true s.current_default_key s.contexts, default-flag s h)

pub demote_default-flag :
    (s : RestContextManager) (j : ℕ)
    → IsManaged s
    → flag j (demote_default s).contexts
      ≡ (if s.current_default_key == j then some true else flag j s.contexts)
unfolding demote_default
demote_default-flag s j h =
    ground (arith, set_override-flag true j s.current_default_key s.contexts, default-flag s h)

pub promote_default-IsManaged :
    (key : ℕ) (s : RestContextManager)
    → flag key s.contexts ≡ some true
    → IsManaged s
    → IsManaged (promote_default key s)
unfolding promote_default demote_default
promote_default-IsManaged key s p h = record {
  flagged = flagged;
  distinct = distinct;
  absent = absent;
  bounded = bounded;
}
  where
    s' : RestContextManager
    s' = demote_default s

    distinct : HasDistinctKeys (promote_default key s).contexts
    distinct = update_context-HasDistinctKeys key (set_override false) s'.contexts (
        update_context-HasDistinctKeys s.current_default_key (set_override true) s.contexts
          h.distinct)

    differs : (s.current_default_key == key) ≡ false
    differs = ground (arith, h.flagged key)

    bounded :
        override_count (promote_default key s).contexts + running s.creating ≤ s.max_token_contexts
    bounded = ground (
      arith,
      h.bounded,
      override_count-set_override false key s'.contexts,
      demote_default-count s h,
      demote_default-flag s key h,
      differs,
    )

    absent :
        (k : ℕ)
        → is_running (lookup k s.creating) ≡ true
        → flag k (promote_default key s).contexts ≡ none
    absent k r = ground (
      arith,
      h.absent k r,
      h.flagged k,
      default-flag s h,
      set_override-flag false k key s'.contexts,
      demote_default-flag s k h,
    )

    flagged : (k : ℕ) → IsFlagged key k (flag k (promote_default key s).contexts)
    flagged k = ground (
      arith,
      h.flagged k,
      set_override-flag false k key s'.contexts,
      demote_default-flag s k h,
      differs,
      demote_default-flag s key h,
    )

least_recent-lookup :
    (evictable : ℕ → RestContext → Bool) (m : List (ℕ × RestContext)) (k : ℕ) (c : RestContext)
    → HasDistinctKeys m
    → least_recent evictable m ≡ some (k, c)
    → (lookup k m ≡ some c) × (evictable k c ≡ true)
unfolding least_recent lookup
least_recent-lookup evictable [] k c d e = ground arith
least_recent-lookup evictable ((j, b) ∷ m) k c d e =
    elim (Option-cases (least_recent evictable m)) [
      | inl p ↦ ground (arith, p, e)
      | inr ((i, a), p) ↦ ground (arith, p, e, d, least_recent-lookup evictable m i a d.1 p)
    ]

-- Writes that keep every flag.
pub update_context-IsManaged :
    (key : ℕ) (f : RestContext → RestContext) (s : RestContextManager)
    → ((c : RestContext) → (f c).override ≡ c.override)
    → IsManaged s
    → IsManaged (record s { contexts = update_context key f s.contexts })
update_context-IsManaged key f s keeps h = record {
  flagged = λ k.
      subst (IsFlagged s.current_default_key k) (sym (update_context-flag key f keeps k s.contexts))
        (h.flagged k);
  distinct = update_context-HasDistinctKeys key f s.contexts h.distinct;
  absent = λ k r. update_context-flag key f keeps k s.contexts ∙ h.absent k r;
  bounded = omega (arith, h.bounded, override_count-update_context key f keeps s.contexts);
}

module _ (token_fingerprint : ℕ → ℕ) (limited : (rest now : ℕ) → Bool) where
  remove_override-IsManaged :
      (key : ℕ) (s : RestContextManager)
      → flag key s.contexts ≡ some true
      → IsManaged s
      → IsManaged (record s { contexts = remove_key key s.contexts })
  remove_override-IsManaged key s p h = record {
    flagged = λ k. gone k;
    distinct = remove_key-HasDistinctKeys key s.contexts h.distinct;
    absent = λ k r. still_none k (h.absent k r);
    bounded = omega (arith, h.bounded, override_count-remove_key key s.contexts);
  }
    where
      still_none : (k : ℕ) → flag k s.contexts ≡ none → flag k (remove_key key s.contexts) ≡ none
      still_none k e = ground (arith, e, lookup-remove_key k key s.contexts)

      gone : (k : ℕ) → IsFlagged s.current_default_key k (flag k (remove_key key s.contexts))
      gone k = ground (arith, p, h.flagged k, h.flagged key, lookup-remove_key k key s.contexts)

  evict_override_context-IsManaged :
      (now : ℕ) (s : RestContextManager)
      → IsManaged s
      → IsManaged (evict_override_context token_fingerprint limited now s)
  unfolding evict_override_context is_evictable
  evict_override_context-IsManaged now s h =
      elim (Bool-cases (ltb (override_count s.contexts) s.max_token_contexts)) [
        | inl room ↦ rw (room, evict_override_context) h
        | inr full ↦
            elim (Option-cases
              (least_recent (is_evictable token_fingerprint limited now s) s.contexts)) [
                | inl e ↦ rw (full, e, evict_override_context) h
                | inr ((k, c), e) ↦
                    rw (full, e, evict_override_context)
                      (remove_override-IsManaged k s (flagged k c e) h)
              ]
      ]
    where
      flagged :
          (k : ℕ) (c : RestContext)
          → least_recent (is_evictable token_fingerprint limited now s) s.contexts ≡ some (k, c)
          → flag k s.contexts ≡ some true
      flagged k c e = ground (
        arith,
        least_recent-lookup (is_evictable token_fingerprint limited now s) s.contexts k c h.distinct
            e,
      )

  evict_override_context-none :
      (now k : ℕ) (s : RestContextManager)
      → flag k s.contexts ≡ none
      → flag k (evict_override_context token_fingerprint limited now s).contexts ≡ none
  unfolding evict_override_context
  evict_override_context-none now k s e =
      elim (Bool-cases (ltb (override_count s.contexts) s.max_token_contexts)) [
        | inl room ↦ rw (room, evict_override_context) e
        | inr full ↦
            elim (Option-cases
              (least_recent (is_evictable token_fingerprint limited now s) s.contexts)) [
                | inl x ↦ rw (full, x, evict_override_context) e
                | inr ((j, c), x) ↦
                    rw (full, x, evict_override_context)
                      (ground (arith, e, lookup-remove_key k j s.contexts))
              ]
      ]

  pub create-IsManaged :
      (now key token : ℕ) (s : RestContextManager)
      → lookup key s.contexts ≡ none
      → IsManaged s
      → IsManaged (create token_fingerprint limited now key token s).0
  unfolding create assert_context_capacity
  create-IsManaged now key token s missing h =
      let s' = evict_override_context token_fingerprint limited now s in
      let h' = evict_override_context-IsManaged now s h in
      elim (Bool-cases
        (ltb (override_count s'.contexts + length s'.creating) s'.max_token_contexts)) [
          | inr full ↦ rw (full, create) h'
          | inl free ↦
              rw (free, create)
                (record {
                  flagged = h'.flagged;
                  distinct = h'.distinct;
                  absent = absent _;
                  bounded = one_more s' _ free;
                })
        ]
    where
      one_more :
          (s' : RestContextManager) (p : Creation)
          → ltb (override_count s'.contexts + length s'.creating) s'.max_token_contexts ≡ true
          → override_count s'.contexts + running (insert key p s'.creating) ≤ s'.max_token_contexts
      one_more s' p free =
          ground (arith, running-insert key p s'.creating, running-le-length s'.creating)

      absent :
          (p : Creation) (k : ℕ)
          → (let s' = evict_override_context token_fingerprint limited now s in
              is_running (lookup k (insert key p s'.creating)) ≡ true → flag k s'.contexts ≡ none)
      absent p k r =
          let s' = evict_override_context token_fingerprint limited now s in
          let h' = evict_override_context-IsManaged now s h in
          let key_none = evict_override_context-none now key s (ap flag_of missing) in
          ground (arith, r, lookup-insert k key p s'.creating, h'.absent k, key_none)
