-- ===== src/Proxy/Deduplication/InFlight/Claims.antt =====
-- deduplication.ts: how claims and completions leave a request in flight.
use extra.Prelude.{
  ◌⊎◌, ℕ, ◌≡◌, ◌≢◌, refl, sym, ap, subst, ◌∙◌, true, false, inl, inr, none, some, List, [], ◌∷◌,
  ◌++◌, length, All-append, leb, ◌==◌, if◌then◌else◌, Option-cases, Bool-cases, arith,
}
use extra.Proxy.Deduplication.{
  Text, DeduplicationEntry, DeduplicationClaim, owner, duplicate, conflict, capacity, Registered,
  RequestDeduplicator, same_text, find_entry, prune_entries, make_room, register, claim,
  mark_completed,
}
use extra.Proxy.Deduplication.InFlight.{
  IsOnly, IsInFlight, same_text_eq, prune_entries-find_entry, prune_entries-IsOnly,
  make_room-find_entry, make_room-IsOnly,
}

find_entry-append :
    (k : Text) (e : DeduplicationEntry) (rs ss : List Registered)
    → find_entry k rs ≡ some e
    → find_entry k (rs ++ ss) ≡ some e
unfolding find_entry
find_entry-append k e [] ss h = cc
find_entry-append k e (r ∷ rs) ss h = ground (arith, find_entry-append k e rs ss)

module _ (k : Text) (e : DeduplicationEntry) where
  pub pruned :
      (ttl now : ℕ) (d : RequestDeduplicator)
      → IsInFlight k e d
      → IsInFlight k e (record d { entries = prune_entries ttl now d.entries })
  pruned ttl now d (f, o, a) = (
    prune_entries-find_entry k e ttl now d.entries a o f,
    prune_entries-IsOnly k e ttl now d.entries o,
    a,
  )

  register-IsInFlight :
      (j f : Text) (d : RequestDeduplicator)
      → same_text j k ≡ false
      → IsInFlight k e d
      → IsInFlight k e (register j f d).0
  unfolding register
  register-IsInFlight j f d n (found, o, a) =
      let room = make_room d.max_entries d.entries in
      let found' : find_entry k room ≡ some e =
        make_room-find_entry k e d.max_entries d.entries a o ∙ found in
      let o' = make_room-IsOnly k e d.max_entries d.entries o in
      elim (Bool-cases (leb d.max_entries (length room))) [
        | inl full ↦ rw (full, register) (found', o', a)
        | inr free ↦
            rw (free, register)
              (find_entry-append k e room _ found', All-append _ room _ ((λ s. cc), tt) o', a)
      ]

  pub claim-IsInFlight :
      (j f : Text) (now : ℕ) (d : RequestDeduplicator)
      → IsInFlight k e d
      → IsInFlight k e (claim j f now d).0
  unfolding claim
  claim-IsInFlight j f now d h =
      let d' = record d { entries = prune_entries d.ttl now d.entries } in
      let h' = pruned d.ttl now d h in
      elim (Option-cases (find_entry j d'.entries)) [
        | inl x ↦ rw (x, claim) (register-IsInFlight j f d' (other x) h')
        | inr (y, x) ↦ rw (x, claim) (ground (arith, h'))
      ]
    where
      other : find_entry j (prune_entries d.ttl now d.entries) ≡ none → same_text j k ≡ false
      other x = elim (Bool-cases (same_text j k)) [
        | inr differs ↦ differs
        | inl same ↦ absurd (
            found_none (
              ap (λ i. find_entry i (prune_entries d.ttl now d.entries))
                (sym (same_text_eq j k same))
              ∙ x))
      ]
        where
          found_none : find_entry k (prune_entries d.ttl now d.entries) ≡ none → ⊥
          found_none y = clash (sym y ∙ (pruned d.ttl now d h).0)
            where
              clash : none ≡ some e → ⊥
              clash z = cc

  -- An entry of another promise has another key.
  other_key :
      (p : ℕ) (r : Registered)
      → p ≢ e.promise
      → (same_text r.key k ≡ true → r.entry ≡ e)
      → (r.entry.promise == p) ≡ true
      → same_text r.key k ≡ false
  other_key p r n o hit = elim (Bool-cases (same_text r.key k)) [
    | inr differs ↦ differs
    | inl same ↦ absurd (n (sym (ground arith) ∙ ap (λ x. x.promise) (o same)))
  ]

  pub mark_completed-find_entry :
      (p now : ℕ) (rs : List Registered)
      → p ≢ e.promise
      → IsOnly k e rs
      → find_entry k (mark_completed p now rs) ≡ find_entry k rs
  unfolding mark_completed find_entry
  mark_completed-find_entry p now [] n o = refl
  mark_completed-find_entry p now (r ∷ rs) n o = elim (Bool-cases (r.entry.promise == p)) [
    | inl hit ↦
        rw (hit, mark_completed, other_key p r n o.0 hit) (mark_completed-find_entry p now rs n o.1)
    | inr miss ↦ ground (arith, mark_completed-find_entry p now rs n o.1)
  ]

  pub mark_completed-IsOnly :
      (p now : ℕ) (rs : List Registered)
      → p ≢ e.promise
      → IsOnly k e rs
      → IsOnly k e (mark_completed p now rs)
  unfolding mark_completed
  mark_completed-IsOnly p now [] n o = tt
  mark_completed-IsOnly p now (r ∷ rs) n o = elim (Bool-cases (r.entry.promise == p)) [
    | inl hit ↦
        rw (hit, mark_completed)
          ((λ s. clash s (other_key p r n o.0 hit)), mark_completed-IsOnly p now rs n o.1)
    | inr miss ↦ rw (miss, mark_completed) (o.0, mark_completed-IsOnly p now rs n o.1)
  ]
    where
      clash : {A : Type 0} → same_text r.key k ≡ true → same_text r.key k ≡ false → A
      clash s f = cc

  pub claim_in_flight :
      (f : Text) (now : ℕ) (d : RequestDeduplicator)
      → IsInFlight k e d
      → (claim k f now d).1 ≡ (if same_text e.fingerprint f then duplicate e.promise else conflict)
  unfolding claim
  claim_in_flight f now d h = rw ((pruned d.ttl now d h).0, claim) (ground arith)

same_text_refl : (k : Text) → same_text k k ≡ true
unfolding same_text
same_text_refl [] = refl
same_text_refl (x ∷ xs) = ground (arith, same_text_refl xs)

find_entry-none-append :
    (k : Text) (rs : List Registered) (r : Registered)
    → r.key ≡ k
    → find_entry k rs ≡ none
    → find_entry k (rs ++ r ∷ []) ≡ some r.entry
unfolding find_entry
find_entry-none-append k [] r s h =
    rw (ap (λ x. same_text x k) s ∙ same_text_refl k, find_entry) refl
find_entry-none-append k (x ∷ rs) r s h = ground (arith, find_entry-none-append k rs r s)

find_entry-none-IsOnly :
    (k : Text) (e : DeduplicationEntry) (rs : List Registered)
    → find_entry k rs ≡ none
    → IsOnly k e rs
unfolding find_entry
find_entry-none-IsOnly k e [] h = tt
find_entry-none-IsOnly k e (r ∷ rs) h = elim (Bool-cases (same_text r.key k)) [
  | inl same ↦ ground arith
  | inr differs ↦ (λ s. clash s differs, find_entry-none-IsOnly k e rs (ground arith))
]
  where
    clash : {A : Type 0} → same_text r.key k ≡ true → same_text r.key k ≡ false → A
    clash s f = cc

abbrev pub entry_of : (fingerprint : Text) (promise : ℕ) → DeduplicationEntry
entry_of f p = record { fingerprint = f; promise = p; completed_at = none }

register_owner :
    (k f : Text) (p : ℕ) (d : RequestDeduplicator)
    → find_entry k d.entries ≡ none
    → (register k f d).1 ≡ owner p
    → IsInFlight k (entry_of f p) (register k f d).0
unfolding register
register_owner k f p d x h =
    let room = make_room d.max_entries d.entries in
    elim (Bool-cases (leb d.max_entries (length room))) [
      | inl full ↦ absurd (refused (rw (full, register) at h))
      | inr free ↦
          let number : d.next_promise ≡ p = promise_of (rw (free, register) at h) in
          subst (λ q. IsInFlight k (entry_of f q) (register k f d).0) number
            (rw (free, register)
              (
                find_entry-none-append k room (record { key = k; entry = fresh }) refl
                    (make_room-find_entry k fresh d.max_entries d.entries refl vacuous ∙ x),
                All-append _ room _ ((λ s. refl), tt)
                    (make_room-IsOnly k fresh d.max_entries d.entries vacuous),
                refl,
              ))
    ]
  where
    fresh : DeduplicationEntry
    fresh = entry_of f d.next_promise

    vacuous : IsOnly k fresh d.entries
    vacuous = find_entry-none-IsOnly k fresh d.entries x

    refused : capacity ≡ owner p → ⊥
    refused c = cc

    promise_of : owner d.next_promise ≡ owner p → d.next_promise ≡ p
    promise_of c = cc

pub claim_owner :
    (k f : Text) (now p : ℕ) (d : RequestDeduplicator)
    → (claim k f now d).1 ≡ owner p
    → IsInFlight k (entry_of f p) (claim k f now d).0
unfolding claim
claim_owner k f now p d h =
    let d' = record d { entries = prune_entries d.ttl now d.entries } in
    elim (Option-cases (find_entry k d'.entries)) [
      | inl x ↦ rw (x, claim) (register_owner k f p d' x (rw (x, claim) at h))
      | inr (e, x) ↦ absurd (never e d' (rw (x, claim) at h))
    ]
  where
    never :
        (e : DeduplicationEntry) (a : RequestDeduplicator)
        → (if◌then◌else◌ {A = RequestDeduplicator × DeduplicationClaim}
            (same_text e.fingerprint f)
            (a, duplicate e.promise)
            (a, conflict)).1
          ≡ owner p
        → ⊥
    never e a c = ground arith

-- A claim makes no owner, or the next one, and ends none.
abbrev pub Grows : Text → RequestDeduplicator → RequestDeduplicator × DeduplicationClaim → Type 0
Grows k d (d', answer) =
    (d'.owners ≡ d.owners)
    ⊎ ((answer ≡ owner d.next_promise) × (d'.owners ≡ (d.next_promise, k) ∷ d.owners))

pub claim-Grows :
    (k f : Text) (now : ℕ) (d : RequestDeduplicator)
    → Grows k d (claim k f now d) × ((claim k f now d).0.settled ≡ d.settled)
unfolding claim register
claim-Grows k f now d = elim (Option-cases (find_entry k (prune_entries d.ttl now d.entries))) [
  | inl x ↦
      elim (Bool-cases (
        leb d.max_entries (length (make_room d.max_entries (prune_entries d.ttl now d.entries))))) [
          | inl full ↦ rw (x, claim, full, register) (inl refl, refl)
          | inr free ↦ rw (x, claim, free, register) (inr (refl, refl), refl)
        ]
  | inr (e, x) ↦ elim (Bool-cases (same_text e.fingerprint f)) [
    | inl same ↦ rw (x, claim, same) (inl refl, refl)
    | inr differs ↦ rw (x, claim, differs) (inl refl, refl)
  ]
]
