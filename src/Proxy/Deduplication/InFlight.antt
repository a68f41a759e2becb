-- ===== src/Proxy/Deduplication/InFlight.antt =====
-- deduplication.ts: a request in flight stays registered.
pub mod Claims
pub mod Steps
use extra.Prelude.{
  ℕ, suc, ◌+◌, ◌≤◌, ◌≡◌, ◌≢◌, refl, sym, ap, subst, ◌∙◌, Bool, true, false, inl, inr, ◌⊎◌, Option,
  none, some, List, [], ◌∷◌, ◌++◌, length, All, All-append, ltb, leb, ◌==◌, if◌then◌else◌,
  Option-cases, Bool-cases, arith,
}
use extra.Proxy.Deduplication.{
  Text, DeduplicationEntry, DeduplicationClaim, owner, duplicate, conflict, capacity, Registered,
  RequestDeduplicator, same_text, find_entry, delete_entry, is_expired, prune_entries, earlier,
  room_candidate, make_room, register, claim, mark_completed, complete, abort, size, RegistryAction,
  claims, completes, aborts, measures, step,
}

pub same_text_eq : (a b : Text) → same_text a b ≡ true → a ≡ b
unfolding same_text
same_text_eq [] [] h = refl
same_text_eq [] (y ∷ ys) h = cc
same_text_eq (x ∷ xs) [] h = cc
same_text_eq (x ∷ xs) (y ∷ ys) h = elim (Bool-cases (x == y)) [
  | inl e ↦
      let head : x ≡ y = ground arith in
      let tail : xs ≡ ys = same_text_eq xs ys (ground arith) in rw (head, tail) refl
  | inr e ↦ ground arith
]

abbrev key_of : Option (Text × ℕ) → Text
key_of none = []
key_of (some c) = c.0

module _ (k : Text) (e : DeduplicationEntry) where
  -- The entry of the key is `e`, and no other entry has that key.
  abbrev pub IsOnly : List Registered → Type 0
  IsOnly rs = All (λ r. same_text r.key k ≡ true → r.entry ≡ e) rs

  abbrev pub IsInFlight : RequestDeduplicator → Type 0
  IsInFlight d = (find_entry k d.entries ≡ some e) × IsOnly d.entries × (e.completed_at ≡ none)

  pub prune_entries-find_entry :
      (ttl now : ℕ) (rs : List Registered)
      → e.completed_at ≡ none
      → IsOnly rs
      → find_entry k rs ≡ some e
      → find_entry k (prune_entries ttl now rs) ≡ some e
  unfolding find_entry prune_entries is_expired
  prune_entries-find_entry ttl now [] a o h = cc
  prune_entries-find_entry ttl now (r ∷ rs) a o h = elim (Bool-cases (same_text r.key k)) [
    | inl s ↦
        let kept : is_expired ttl now r.entry.completed_at ≡ false =
          ap (λ x. is_expired ttl now x.completed_at) (o.0 s) ∙ ap (is_expired ttl now) a in
        rw (kept, prune_entries, s, find_entry) (ap some (o.0 s))
    | inr s ↦ ground (arith, prune_entries-find_entry ttl now rs a o.1)
  ]

  pub prune_entries-IsOnly :
      (ttl now : ℕ) (rs : List Registered) → IsOnly rs → IsOnly (prune_entries ttl now rs)
  unfolding prune_entries
  prune_entries-IsOnly ttl now [] o = tt
  prune_entries-IsOnly ttl now (r ∷ rs) o =
      elim (Bool-cases (is_expired ttl now r.entry.completed_at)) [
        | inl x ↦ rw (x, prune_entries) (prune_entries-IsOnly ttl now rs o.1)
        | inr x ↦ rw (x, prune_entries) (o.0, prune_entries-IsOnly ttl now rs o.1)
      ]

  pub delete_entry-IsOnly :
      (j : Text) (rs : List Registered) → IsOnly rs → IsOnly (delete_entry j rs)
  unfolding delete_entry
  delete_entry-IsOnly j [] o = tt
  delete_entry-IsOnly j (r ∷ rs) o = elim (Bool-cases (same_text r.key j)) [
    | inl x ↦ rw (x, delete_entry) o.1
    | inr x ↦ rw (x, delete_entry) (o.0, delete_entry-IsOnly j rs o.1)
  ]

  pub delete_entry-find_entry :
      (j : Text) (rs : List Registered)
      → same_text j k ≡ false
      → find_entry k (delete_entry j rs) ≡ find_entry k rs
  unfolding delete_entry find_entry
  delete_entry-find_entry j [] n = refl
  delete_entry-find_entry j (r ∷ rs) n = elim (Bool-cases (same_text r.key j)) [
    | inl x ↦
        let other : same_text r.key k ≡ false =
          ap (λ t. same_text t k) (same_text_eq r.key j x) ∙ n in
        rw (x, delete_entry, other) refl
    | inr x ↦ ground (arith, delete_entry-find_entry j rs n)
  ]

  -- The candidate of `makeRoom` is no entry in flight.
  room_candidate-other :
      (rs : List Registered) (c : Option (Text × ℕ)) (j : Text) (t : ℕ)
      → e.completed_at ≡ none
      → IsOnly rs
      → ((i : Text) (u : ℕ) → c ≡ some (i, u) → same_text i k ≡ false)
      → room_candidate rs c ≡ some (j, t)
      → same_text j k ≡ false
  unfolding room_candidate
  room_candidate-other [] c j t a o n h = n j t h
  room_candidate-other (r ∷ rs) c j t a o n h =
      room_candidate-other rs _ j t a o.1 (later r.entry.completed_at c refl n) h
    where
      other : (v : ℕ) → r.entry.completed_at ≡ some v → same_text r.key k ≡ false
      other v x = elim (Bool-cases (same_text r.key k)) [
        | inr differs ↦ differs
        | inl same ↦ absurd (none_some (sym a ∙ sym (ap (λ y. y.completed_at) (o.0 same)) ∙ x))
      ]
        where
          none_some : {w : ℕ} → none ≡ some w → ⊥
          none_some p = cc

      later :
          (m : Option ℕ) (c : Option (Text × ℕ))
          → r.entry.completed_at ≡ m
          → ((i : Text) (u : ℕ) → c ≡ some (i, u) → same_text i k ≡ false)
          → (i : Text) (u : ℕ) → earlier r.key m c ≡ some (i, u)
          → same_text i k ≡ false
      later none c x n i u p = n i u p
      later (some v) none x n i u p = subst (λ y. same_text y k ≡ false) (ap key_of p) (other v x)
      later (some v) (some (l, w)) x n i u p = elim (Bool-cases (ltb v w)) [
        | inl first ↦ subst (λ y. same_text y k ≡ false) (ap key_of (rw first at p)) (other v x)
        | inr after ↦ subst (λ y. same_text y k ≡ false) (ap key_of (rw after at p)) (n l w refl)
      ]

  pub make_room-find_entry :
      (n : ℕ) (rs : List Registered)
      → e.completed_at ≡ none
      → IsOnly rs
      → find_entry k (make_room n rs) ≡ find_entry k rs
  unfolding make_room
  make_room-find_entry n rs a o = elim (Bool-cases (ltb (length rs) n)) [
    | inl room ↦ rw (room, make_room) refl
    | inr full ↦ elim (Option-cases (room_candidate rs none)) [
      | inl x ↦ rw (full, x, make_room) refl
      | inr (c, x) ↦
          rw (full, x, make_room)
            (delete_entry-find_entry c.0 rs
              (room_candidate-other rs none c.0 c.1 a o (λ i u p. cc) x))
    ]
  ]

  pub make_room-IsOnly : (n : ℕ) (rs : List Registered) → IsOnly rs → IsOnly (make_room n rs)
  unfolding make_room
  make_room-IsOnly n rs o = elim (Bool-cases (ltb (length rs) n)) [
    | inl room ↦ rw (room, make_room) o
    | inr full ↦ elim (Option-cases (room_candidate rs none)) [
      | inl x ↦ rw (full, x, make_room) o
      | inr (c, x) ↦ rw (full, x, make_room) (delete_entry-IsOnly c.0 rs o)
    ]
  ]
