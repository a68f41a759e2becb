-- ===== src/Proxy/Contexts/Flags.antt =====
-- contexts.ts: which contexts are overrides, and how many.
use extra.Prelude.{
  ℕ, suc, ◌+◌, ◌≤◌, ◌≡◌, refl, Bool, true, false, not, Option, none, some, List, [], ◌∷◌, length,
  ◌==◌, if◌then◌else◌, lookup, insert, remove_key, lookup-insert, arith,
}
use extra.Proxy.Contexts.{RestContext, Creation, override_count, update_context, set_override}

abbrev pub flag_of : Option RestContext → Option Bool
flag_of none = none
flag_of (some c) = some c.override

-- Whether a key has a context, and whether this is an override.
abbrev pub flag : ℕ → List (ℕ × RestContext) → Option Bool
flag k m = flag_of (lookup k m)

abbrev pub one : Option Bool → ℕ
one none = 0
one (some false) = 0
one (some true) = 1

abbrev pub bit : Bool → ℕ
bit true = 1
bit false = 0

pub override_count-insert :
    (k : ℕ) (c : RestContext) (m : List (ℕ × RestContext))
    → override_count (insert k c m) + one (flag k m) ≡ override_count m + bit c.override
unfolding override_count insert lookup
override_count-insert k c [] = ground arith
override_count-insert k c ((j, d) ∷ m) = ground (arith, override_count-insert k c m)

pub override_count-remove_key :
    (k : ℕ) (m : List (ℕ × RestContext)) → override_count (remove_key k m) ≤ override_count m
unfolding override_count remove_key
override_count-remove_key k [] = omega arith
override_count-remove_key k ((j, d) ∷ m) = ground (arith, override_count-remove_key k m)

-- The creations that have not settled.
unfoldable pub running : List (ℕ × Creation) → ℕ
running [] = 0
running ((k, p) ∷ m) = if p.settled then running m else suc (running m)

abbrev pub one_running : Option Creation → ℕ
one_running none = 0
one_running (some p) = bit (not p.settled)

pub running-insert :
    (k : ℕ) (p : Creation) (m : List (ℕ × Creation))
    → running (insert k p m) + one_running (lookup k m) ≡ running m + bit (not p.settled)
unfolding running insert lookup
running-insert k p [] = ground arith
running-insert k p ((j, q) ∷ m) = ground (arith, running-insert k p m)

pub running-remove_key : (k : ℕ) (m : List (ℕ × Creation)) → running (remove_key k m) ≤ running m
unfolding running remove_key
running-remove_key k [] = omega arith
running-remove_key k ((j, q) ∷ m) = ground (arith, running-remove_key k m)

pub running-le-length : (m : List (ℕ × Creation)) → running m ≤ length m
unfolding running
running-le-length [] = omega arith
running-le-length ((j, q) ∷ m) = ground (arith, running-le-length m)

-- A write that keeps the flag.
module _ (k : ℕ) (f : RestContext → RestContext)
    (keeps : (c : RestContext) → (f c).override ≡ c.override) where
  pub update_context-flag :
      (j : ℕ) (m : List (ℕ × RestContext)) → flag j (update_context k f m) ≡ flag j m
  unfolding update_context
  update_context-flag j m = go (lookup k m) refl
    where
      go : (o : Option RestContext) → lookup k m ≡ o → flag j (update_context k f m) ≡ flag j m
      go none e = rw (e, update_context) refl
      go (some c) e = rw (e, update_context) (ground (arith, e, keeps c, lookup-insert j k (f c) m))

  pub override_count-update_context :
      (m : List (ℕ × RestContext)) → override_count (update_context k f m) ≡ override_count m
  unfolding update_context
  override_count-update_context m = go (lookup k m) refl
    where
      go :
          (o : Option RestContext)
          → lookup k m ≡ o
          → override_count (update_context k f m) ≡ override_count m
      go none e = rw (e, update_context) refl
      go (some c) e =
          rw (e, update_context) (ground (arith, e, keeps c, override_count-insert k (f c) m))

abbrev pub marked : Bool → Option Bool → Option Bool
marked b none = none
marked b (some a) = some b

pub set_override-flag :
    (b : Bool) (j k : ℕ) (m : List (ℕ × RestContext))
    → flag j (update_context k (set_override b) m)
      ≡ (if k == j then marked b (flag j m) else flag j m)
unfolding update_context
set_override-flag b j k m = go (lookup k m) refl
  where
    go :
        (o : Option RestContext)
        → lookup k m ≡ o
        → flag j (update_context k (set_override b) m)
          ≡ (if k == j then marked b (flag j m) else flag j m)
    go none e = rw (e, update_context) (ground (arith, e))
    go (some c) e =
        rw (e, update_context) (ground (arith, e, lookup-insert j k (set_override b c) m))

pub override_count-set_override :
    (b : Bool) (k : ℕ) (m : List (ℕ × RestContext))
    → override_count (update_context k (set_override b) m) + one (flag k m)
      ≡ override_count m + one (marked b (flag k m))
unfolding update_context
override_count-set_override b k m = go (lookup k m) refl
  where
    go :
        (o : Option RestContext)
        → lookup k m ≡ o
        → override_count (update_context k (set_override b) m) + one (flag k m)
          ≡ override_count m + one (marked b (flag k m))
    go none e = rw (e, update_context) (ground (arith, e))
    go (some c) e =
        rw (e, update_context) (ground (arith, e, override_count-insert k (set_override b c) m))
