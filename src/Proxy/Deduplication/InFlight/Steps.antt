-- ===== src/Proxy/Deduplication/InFlight/Steps.antt =====
-- deduplication.ts: what is claimed while a request is in flight.
use extra.Prelude.{
  ℕ, ◌≡◌, ◌≢◌, sym, ap, subst, ◌∙◌, false, inl, inr, some, List, [], ◌∷◌, All, ◌==◌, if◌then◌else◌,
  Option-cases, Bool-cases, lookup, arith,
}
use extra.Proxy.Deduplication.{
  Text, DeduplicationEntry, owner, duplicate, conflict, RequestDeduplicator, request_deduplicator,
  same_text, find_entry, claim, is_settled, complete, abort, size, RegistryAction, claims,
  completes, aborts, measures, step,
}
use extra.Proxy.Deduplication.InFlight.{
  IsInFlight, same_text_eq, delete_entry-IsOnly, delete_entry-find_entry,
}
use extra.Proxy.Deduplication.InFlight.Claims.{
  pruned, claim-IsInFlight, mark_completed-find_entry, mark_completed-IsOnly, claim_in_flight,
  entry_of, claim_owner, claim-Grows,
}

-- Every owner that has not ended its request has it in flight under its key.
abbrev pub IsSound : RequestDeduplicator → Type 0
IsSound d =
    (p : ℕ) (k : Text)
    → lookup p d.owners ≡ some k
    → is_settled p d.settled ≡ false
    → (f : Text) × IsInFlight k (entry_of f p) d

-- The action is no end of the request of the owner `p`.
abbrev pub IsElsewhere : ℕ → RegistryAction → Type 0
IsElsewhere p (claims j f) = Unit {0}
IsElsewhere p (completes q v) = q ≢ p
IsElsewhere p (aborts q v) = q ≢ p
IsElsewhere p measures = Unit {0}

module _ (k : Text) (e : DeduplicationEntry) where
  -- Two requests in flight have different keys.
  keys_differ :
      (j : Text) (e' : DeduplicationEntry) (d : RequestDeduplicator)
      → e'.promise ≢ e.promise
      → IsInFlight j e' d
      → IsInFlight k e d
      → same_text j k ≡ false
  keys_differ j e' d n (found', _, _) (found, _, _) = elim (Bool-cases (same_text j k)) [
    | inr differs ↦ differs
    | inl same ↦ absurd (
        n (
          promises (sym found' ∙ ap (λ i. find_entry i d.entries) (same_text_eq j k same) ∙ found)))
  ]
    where
      promises : some e' ≡ some e → e'.promise ≡ e.promise
      promises h = cc

  complete-IsInFlight :
      (p v now : ℕ) (d : RequestDeduplicator)
      → p ≢ e.promise
      → IsInFlight k e d
      → IsInFlight k e (complete p v now d)
  unfolding complete
  complete-IsInFlight p v now d n (found, o, a) = elim (Option-cases (lookup p d.owners)) [
    | inl x ↦ rw (x, complete) (found, o, a)
    | inr (j, x) ↦ elim (Bool-cases (is_settled p d.settled)) [
      | inl ended ↦ rw (x, ended, complete) (found, o, a)
      | inr runs ↦
          rw (x, runs, complete)
            (
              mark_completed-find_entry k e p now d.entries n o ∙ found,
              mark_completed-IsOnly k e p now d.entries n o,
              a,
            )
    ]
  ]

  abort-IsInFlight :
      (p v : ℕ) (d : RequestDeduplicator)
      → IsSound d
      → p ≢ e.promise
      → IsInFlight k e d
      → IsInFlight k e (abort p v d)
  unfolding abort
  abort-IsInFlight p v d sound n (found, o, a) = elim (Option-cases (lookup p d.owners)) [
    | inl x ↦ rw (x, abort) (found, o, a)
    | inr (j, x) ↦ elim (Bool-cases (is_settled p d.settled)) [
      | inl ended ↦ rw (x, ended, abort) (found, o, a)
      | inr runs ↦
          let (f, flying) = sound p j x runs in
          rw (x, runs, abort)
            (
              delete_entry-find_entry k e j d.entries
                    (keys_differ j (entry_of f p) d n flying (found, o, a))
                  ∙ found,
              delete_entry-IsOnly k e j d.entries o,
              a,
            )
    ]
  ]

  step-IsInFlight :
      (now : ℕ) (a : RegistryAction) (d : RequestDeduplicator)
      → IsSound d
      → IsElsewhere e.promise a
      → IsInFlight k e d
      → IsInFlight k e (step now a d)
  unfolding step
  step-IsInFlight now (claims j f) d sound n h = claim-IsInFlight k e j f now d h
  step-IsInFlight now (completes p v) d sound n h = complete-IsInFlight p v now d n h
  step-IsInFlight now (aborts p v) d sound n h = abort-IsInFlight p v d sound n h
  step-IsInFlight now measures d sound n h = unfold size in pruned k e d.ttl now d h

-- An owner that has not ended after a step had not before, and the step does not end it.
abbrev StillRuns : RegistryAction → RequestDeduplicator → RequestDeduplicator → Type 0
StillRuns a d d' =
    (p : ℕ) (k : Text)
    → lookup p d'.owners ≡ some k
    → is_settled p d'.settled ≡ false
    → (lookup p d.owners ≡ some k) × (is_settled p d.settled ≡ false) × IsElsewhere p a

complete-StillRuns :
    (q v now : ℕ) (d : RequestDeduplicator) → StillRuns (completes q v) d (complete q v now d)
unfolding complete is_settled
complete-StillRuns q v now d p k o s = elim (Option-cases (lookup q d.owners)) [
  | inl x ↦ ground (arith, x, o, s)
  | inr (j, x) ↦ ground (arith, x, o, s)
]

abort-StillRuns : (q v : ℕ) (d : RequestDeduplicator) → StillRuns (aborts q v) d (abort q v d)
unfolding abort is_settled
abort-StillRuns q v d p k o s = elim (Option-cases (lookup q d.owners)) [
  | inl x ↦ ground (arith, x, o, s)
  | inr (j, x) ↦ ground (arith, x, o, s)
]

claim-IsSound :
    (j g : Text) (now : ℕ) (d : RequestDeduplicator) → IsSound d → IsSound (claim j g now d).0
unfolding lookup
claim-IsSound j g now d sound p k o s =
    let (grows, kept) = claim-Grows j g now d in
    elim grows [
      | inl same ↦ old (ap (lookup p) (sym same) ∙ o) (ap (is_settled p) (sym kept) ∙ s)
      | inr (answer, more) ↦
          let found : lookup p ((d.next_promise, j) ∷ d.owners) ≡ some k =
            ap (lookup p) (sym more) ∙ o in
          elim (Bool-cases (d.next_promise == p)) [
            | inl fresh ↦
                let number : d.next_promise ≡ p = ground (arith, fresh) in
                let key : j ≡ k = ground (arith, fresh, found) in
                (
                  g,
                  subst (λ q. IsInFlight k (entry_of g q) (claim j g now d).0) number
                      (subst (λ i. IsInFlight i (entry_of g d.next_promise) (claim j g now d).0) key
                        (claim_owner j g now d.next_promise d answer)),
                )
            | inr other ↦ old (ground (arith, other, found)) (ap (is_settled p) (sym kept) ∙ s)
          ]
    ]
  where
    old :
        lookup p d.owners ≡ some k
        → is_settled p d.settled ≡ false
        → (f : Text) × IsInFlight k (entry_of f p) (claim j g now d).0
    old o' s' = let (f, h) = sound p k o' s' in (f, claim-IsInFlight k (entry_of f p) j g now d h)

step-IsSound :
    (now : ℕ) (a : RegistryAction) (d : RequestDeduplicator) → IsSound d → IsSound (step now a d)
unfolding step
step-IsSound now (claims j g) d sound p k o s = claim-IsSound j g now d sound p k o s
step-IsSound now (completes q v) d sound p k o s =
    let (o', s', n) = complete-StillRuns q v now d p k o s in
    let (f, h) = sound p k o' s' in (f, complete-IsInFlight k (entry_of f p) q v now d n h)
step-IsSound now (aborts q v) d sound p k o s =
    let (o', s', n) = abort-StillRuns q v d p k o s in
    let (f, h) = sound p k o' s' in (f, abort-IsInFlight k (entry_of f p) q v d sound n h)
step-IsSound now measures d sound p k o s =
    unfold size in let (f, h) = sound p k o s in (f, pruned k (entry_of f p) d.ttl now d h)

-- Each action, with its time.
abbrev pub steps : List (ℕ × RegistryAction) → RequestDeduplicator → RequestDeduplicator
steps [] d = d
steps ((now, a) ∷ row) d = steps row (step now a d)

steps-IsSound :
    (row : List (ℕ × RegistryAction)) (d : RequestDeduplicator) → IsSound d → IsSound (steps row d)
steps-IsSound [] d sound = sound
steps-IsSound ((t, a) ∷ row) d sound = steps-IsSound row (step t a d) (step-IsSound t a d sound)

steps_in_flight :
    (k : Text) (e : DeduplicationEntry) (f : Text) (now : ℕ) (row : List (ℕ × RegistryAction))
    (d : RequestDeduplicator)
    → All (λ x. IsElsewhere e.promise x.1) row
    → IsSound d
    → IsInFlight k e d
    → (claim k f now (steps row d)).1
      ≡ (if same_text e.fingerprint f then duplicate e.promise else conflict)
steps_in_flight k e f now [] d n sound h = claim_in_flight k e f now d h
steps_in_flight k e f now ((t, a) ∷ row) d n sound h =
    steps_in_flight k e f now row (step t a d) n.1 (step-IsSound t a d sound)
      (step-IsInFlight k e t a d sound n.0 h)

new-IsSound : (ttl max_entries : ℕ) → IsSound (request_deduplicator ttl max_entries)
unfolding lookup
new-IsSound ttl max_entries p k o s = cc

-- A claim that is answered as the owner makes its request run once. In a registry that has done
-- anything since it was made: whatever other claims, completions and aborts follow at whatever
-- times, late and repeated ones of other owners of the same key included, as long as the owner has
-- not ended it, a later claim of its key gets the promise of the owner if it has the same
-- fingerprint, and else a conflict.
pub steps-claim :
    (ttl max_entries : ℕ) (before row : List (ℕ × RegistryAction)) (k f g : Text) (start now p : ℕ)
    → (claim k f start (steps before (request_deduplicator ttl max_entries))).1 ≡ owner p
    → All (λ x. IsElsewhere p x.1) row
    → (claim k g now
        (steps row (claim k f start (steps before (request_deduplicator ttl max_entries))).0)).1
      ≡ (if same_text f g then duplicate p else conflict)
steps-claim ttl max_entries before row k f g start now p h n =
    let d = steps before (request_deduplicator ttl max_entries) in
    let sound =
      steps-IsSound before (request_deduplicator ttl max_entries) (new-IsSound ttl max_entries) in
    steps_in_flight k (entry_of f p) g now row (claim k f start d).0 n
      (claim-IsSound k f start d sound) (claim_owner k f start p d h)
