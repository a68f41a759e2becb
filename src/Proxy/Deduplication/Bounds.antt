-- ===== src/Proxy/Deduplication/Bounds.antt =====
-- deduplication.ts: the registry stays within its bound.
use extra.Prelude.{
  ℕ, ◌≤◌, ◌≡◌, refl, false, inl, inr, none, List, [], ◌∷◌, ◌++◌, length, length-append, ltb, leb,
  Option-cases, Bool-cases, lookup, arith,
}
use extra.Proxy.Deduplication.{
  Text, Registered, RequestDeduplicator, find_entry, delete_entry, prune_entries, room_candidate,
  make_room, register, claim, mark_completed, complete, abort, size, RegistryAction, claims,
  completes, aborts, measures, step,
}

abbrev pub IsBounded : RequestDeduplicator → Type 0
IsBounded d = length d.entries ≤ d.max_entries

prune_entries-length :
    (ttl now : ℕ) (rs : List Registered) → length (prune_entries ttl now rs) ≤ length rs
unfolding prune_entries
prune_entries-length ttl now [] = omega arith
prune_entries-length ttl now (r ∷ rs) = ground (arith, prune_entries-length ttl now rs)

delete_entry-length : (k : Text) (rs : List Registered) → length (delete_entry k rs) ≤ length rs
unfolding delete_entry
delete_entry-length k [] = omega arith
delete_entry-length k (r ∷ rs) = ground (arith, delete_entry-length k rs)

make_room-length : (n : ℕ) (rs : List Registered) → length (make_room n rs) ≤ length rs
unfolding make_room
make_room-length n rs = elim (Bool-cases (ltb (length rs) n)) [
  | inl room ↦ rw (room, make_room) (omega arith)
  | inr full ↦ elim (Option-cases (room_candidate rs none)) [
    | inl e ↦ rw (full, e, make_room) (omega arith)
    | inr (c, e) ↦ rw (full, e, make_room) (delete_entry-length c.0 rs)
  ]
]

mark_completed-length :
    (p now : ℕ) (rs : List Registered) → length (mark_completed p now rs) ≡ length rs
unfolding mark_completed
mark_completed-length p now [] = refl
mark_completed-length p now (r ∷ rs) = ground (arith, mark_completed-length p now rs)

register-IsBounded :
    (k f : Text) (d : RequestDeduplicator) → IsBounded d → IsBounded (register k f d).0
unfolding register
register-IsBounded k f d h =
    elim (Bool-cases (leb d.max_entries (length (make_room d.max_entries d.entries)))) [
      | inl full ↦ rw (full, register) (omega (arith, make_room-length d.max_entries d.entries, h))
      | inr room ↦ rw (room, register) (grown _ room)
    ]
  where
    grown :
        (e : Registered)
        → leb d.max_entries (length (make_room d.max_entries d.entries)) ≡ false
        → length (make_room d.max_entries d.entries ++ e ∷ []) ≤ d.max_entries
    grown e room = ground (arith, length-append (make_room d.max_entries d.entries) (e ∷ []))

claim-IsBounded :
    (k f : Text) (now : ℕ) (d : RequestDeduplicator) → IsBounded d → IsBounded (claim k f now d).0
unfolding claim
claim-IsBounded k f now d h =
    let d' = record d { entries = prune_entries d.ttl now d.entries } in
    let b : IsBounded d' = omega (arith, h, prune_entries-length d.ttl now d.entries) in
    elim (Option-cases (find_entry k d'.entries)) [
      | inl e ↦ rw (e, claim) (register-IsBounded k f d' b)
      | inr (x, e) ↦ rw (e, claim) (ground (arith, b))
    ]

-- Whatever is claimed, completed, aborted or measured, the registry never holds more than
-- `maxEntries` requests, active and completed ones counted.
pub step-IsBounded :
    (now : ℕ) (a : RegistryAction) (d : RequestDeduplicator)
    → IsBounded d
    → IsBounded (step now a d)
unfolding step
step-IsBounded now (claims k f) d h = claim-IsBounded k f now d h
step-IsBounded now (completes p v) d h =
    unfold complete in ground (arith, h, mark_completed-length p now d.entries)
step-IsBounded now (aborts p v) d h =
    unfold abort in
    elim (Option-cases (lookup p d.owners)) [
      | inl e ↦ rw (e, abort) h
      | inr (k, e) ↦ rw (e, abort) (ground (arith, h, delete_entry-length k d.entries))
    ]
step-IsBounded now measures d h =
    unfold size in omega (arith, h, prune_entries-length d.ttl now d.entries)
