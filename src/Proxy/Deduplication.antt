-- ===== src/Proxy/Deduplication.antt =====
-- packages/proxy/src/deduplication.ts: the class RequestDeduplicator. A text is a list of UTF-16 code
-- units. The promise of an entry is the number of the claim that made it, and a claim's own number
-- stands for its `complete` and `abort`, and `owners` holds the keys of the claims that have these
-- closures; `settled` holds the numbers of the claims that called one of them, and `answers` what
-- each promise was resolved with. The iteration order of the map is the order of the list.
pub mod Bounds
pub mod InFlight
pub mod Keys
mod Tests
use extra.Prelude.{
  ℕ, suc, ◌+◌, ◌≡◌, Bool, true, false, not, ◌&&◌, Option, none, some, List, [], ◌∷◌, ◌++◌, length,
  ltb, leb, ◌==◌, if◌then◌else◌, lookup,
}

abbrev pub Text : Type 0
Text = List ℕ

-- `===` on texts.
unfoldable pub same_text : Text → Text → Bool
same_text [] [] = true
same_text [] (b ∷ ys) = false
same_text (a ∷ xs) [] = false
same_text (a ∷ xs) (b ∷ ys) = a == b && same_text xs ys

pub record DeduplicationEntry : Type 0 where
  pub fingerprint : Text
  pub promise : ℕ
  pub completed_at : Option ℕ

pub record Registered : Type 0 where
  pub key : Text
  pub entry : DeduplicationEntry

pub record RequestDeduplicator : Type 0 where
  pub ttl : ℕ
  pub max_entries : ℕ
  pub entries : List Registered
  pub next_promise : ℕ
  pub owners : List (ℕ × Text)
  pub settled : List ℕ
  pub answers : List (ℕ × ℕ)

-- A new registry.
abbrev pub request_deduplicator : (ttl max_entries : ℕ) → RequestDeduplicator
request_deduplicator ttl max_entries = record {
  ttl = ttl;
  max_entries = max_entries;
  entries = [];
  next_promise = 0;
  owners = [];
  settled = [];
  answers = [];
}

pub data DeduplicationClaim : Type 0 where
  owner duplicate : (promise : ℕ) → DeduplicationClaim
  conflict capacity : DeduplicationClaim

-- `Map.get`, and `Map.delete` for a map.
unfoldable pub find_entry : Text → List Registered → Option DeduplicationEntry
find_entry k [] = none
find_entry k (r ∷ rs) = if same_text r.key k then some r.entry else find_entry k rs

unfoldable pub delete_entry : Text → List Registered → List Registered
delete_entry k [] = []
delete_entry k (r ∷ rs) = if same_text r.key k then rs else r ∷ delete_entry k rs

unfoldable pub is_expired : ℕ → ℕ → Option ℕ → Bool
is_expired ttl now none = false
is_expired ttl now (some t) = leb (t + ttl) now

unfoldable pub prune_entries : ℕ → ℕ → List Registered → List Registered
prune_entries ttl now [] = []
prune_entries ttl now (r ∷ rs) =
    let rest = prune_entries ttl now rs in
    if is_expired ttl now r.entry.completed_at then rest else r ∷ rest

-- The loop of `makeRoom`: the entry that completed first, the first of these.
abbrev pub earlier : Text → Option ℕ → Option (Text × ℕ) → Option (Text × ℕ)
earlier k none c = c
earlier k (some t) none = some (k, t)
earlier k (some t) (some (j, u)) = if ltb t u then some (k, t) else some (j, u)

unfoldable pub room_candidate : List Registered → Option (Text × ℕ) → Option (Text × ℕ)
room_candidate [] c = c
room_candidate (r ∷ rs) c = room_candidate rs (earlier r.key r.entry.completed_at c)

unfoldable pub make_room : ℕ → List Registered → List Registered
make_room max_entries rs =
    if ltb (length rs) max_entries
    then rs
    else elim (room_candidate rs none) [ none ↦ rs | some (k, t) ↦ delete_entry k rs ]

-- The key, for the decimal digits of a number.
unfoldable pub claim_key : (ℕ → Text) → (service_id request_id : Text) → Text
claim_key digits service_id request_id =
    digits (length service_id) ++ 58 ∷ (service_id ++ request_id)

-- A claim without an entry for its key, over the entries that are not expired.
unfoldable pub register :
    Text → (fingerprint : Text) → RequestDeduplicator → RequestDeduplicator × DeduplicationClaim
register k fingerprint d =
    let rs = make_room d.max_entries d.entries in
    if leb d.max_entries (length rs) then (record d { entries = rs }, capacity) else (
      record d {
        entries =
            rs
            ++ record {
              key = k;
              entry = record {
                fingerprint = fingerprint;
                promise = d.next_promise;
                completed_at = none;
              };
            }
              ∷ [];
        next_promise = suc d.next_promise;
        owners = (d.next_promise, k) ∷ d.owners;
      },
      owner d.next_promise,
    )

unfoldable pub claim :
    Text → (fingerprint : Text) → ℕ → RequestDeduplicator → RequestDeduplicator × DeduplicationClaim
claim k fingerprint now d =
    let d' = record d { entries = prune_entries d.ttl now d.entries } in
    elim (find_entry k d'.entries) [
      | none ↦ register k fingerprint d'
      | some e ↦
          if same_text e.fingerprint fingerprint then (d', duplicate e.promise) else (d', conflict)
    ]

unfoldable pub is_settled : ℕ → List ℕ → Bool
is_settled p [] = false
is_settled p (x ∷ xs) = if x == p then true else is_settled p xs

unfoldable pub mark_completed : ℕ → ℕ → List Registered → List Registered
mark_completed p now [] = []
mark_completed p now (r ∷ rs) =
    let rest = mark_completed p now rs in
    if r.entry.promise == p
    then record r { entry = record r.entry { completed_at = some now } } ∷ rest
    else r ∷ rest

-- `complete` and `abort` of the claim `p`, if it is an owner.
unfoldable pub complete : (p : ℕ) → (value now : ℕ) → RequestDeduplicator → RequestDeduplicator
complete p value now d = elim (lookup p d.owners) [
  | none ↦ d
  | some k ↦ if is_settled p d.settled then d else record d {
    settled = p ∷ d.settled;
    entries = mark_completed p now d.entries;
    answers = (p, value) ∷ d.answers;
  }
]

unfoldable pub abort : (p : ℕ) → (value : ℕ) → RequestDeduplicator → RequestDeduplicator
abort p value d = elim (lookup p d.owners) [
  | none ↦ d
  | some k ↦ if is_settled p d.settled then d else record d {
    settled = p ∷ d.settled;
    entries = delete_entry k d.entries;
    answers = (p, value) ∷ d.answers;
  }
]

unfoldable pub size : ℕ → RequestDeduplicator → RequestDeduplicator × ℕ
size now d = let rs = prune_entries d.ttl now d.entries in (record d { entries = rs }, length rs)

-- What can happen to the registry, at a time.
pub data RegistryAction : Type 0 where
  claims : Text → (fingerprint : Text) → RegistryAction
  completes : (p value : ℕ) → RegistryAction
  aborts : (p value : ℕ) → RegistryAction
  measures : RegistryAction

unfoldable pub step : ℕ → RegistryAction → RequestDeduplicator → RequestDeduplicator
unfolding claim complete abort size
step now (claims k f) d = (claim k f now d).0
step now (completes p v) d = complete p v now d
step now (aborts p v) d = abort p v d
step now measures d = (size now d).0
