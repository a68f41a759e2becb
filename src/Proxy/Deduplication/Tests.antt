-- ===== src/Proxy/Deduplication/Tests.antt =====
-- deduplication.ts at concrete inputs.
use extra.Prelude.{
  List, lookup, ℕ, zero, suc, ap, sym, ◌∙◌, ◌≡◌, refl, [], ◌∷◌, length, if◌then◌else◌, arith,
}
use extra.Proxy.Deduplication.{
  Text, RequestDeduplicator, request_deduplicator, RegistryAction, aborts, abort, is_settled,
  delete_entry, duplicate, conflict, owner, claim, register, same_text, claims, completes, step,
  find_entry, prune_entries, make_room,
}
use extra.Proxy.Deduplication.Bounds.{IsBounded, step-IsBounded}
use extra.Proxy.Deduplication.Keys.{HasNoColon, claim_key_injective}
use extra.Proxy.Deduplication.InFlight.Steps.{steps, steps-claim}

-- Room for two requests; answers are kept for 10 ms.
abbrev fresh : RequestDeduplicator
fresh = request_deduplicator 10 2

-- The keys "a" and "b", and two fingerprints.
abbrev a : Text
a = 97 ∷ []

abbrev b : Text
b = 98 ∷ []

-- The first owner of "a" aborts, and "a" is claimed again.
abbrev before : List (ℕ × RegistryAction)
before = (0, claims a b) ∷ (1, aborts 0 5) ∷ []

a_owned : (claim a a 2 (steps before fresh)).1 ≡ owner 1
unfolding step claim register abort lookup is_settled delete_entry prune_entries find_entry
    make_room same_text
a_owned = refl

-- The first owner aborts once more; the owner of "b" completes, and its entry gives way for a claim.
abbrev after : List (ℕ × RegistryAction)
after = (3, aborts 0 6) ∷ (3, claims b b) ∷ (4, completes 2 7) ∷ (5, claims (99 ∷ []) b) ∷ []

steps-claim_example :
    (claim a a 9 (steps after (claim a a 2 (steps before fresh)).0)).1
    ≡ (if same_text a a then duplicate 1 else conflict)
steps-claim_example =
    steps-claim 10 2 before after a a a 2 9 1 a_owned (omega arith, (tt, (omega arith, (tt, tt))))

step-IsBounded_example : IsBounded (step 1 (claims b b) fresh)
step-IsBounded_example = step-IsBounded 1 (claims b b) fresh (omega arith)

-- Numbers in strokes.
abbrev strokes : ℕ → Text
strokes zero = []
strokes (suc n) = 49 ∷ strokes n

strokes-HasNoColon : (n : ℕ) → HasNoColon (strokes n)
strokes-HasNoColon zero = tt
strokes-HasNoColon (suc n) = (refl, strokes-HasNoColon n)

length-strokes : (n : ℕ) → length (strokes n) ≡ n
length-strokes zero = refl
length-strokes (suc n) = omega (arith, length-strokes n)

claim_key_injective_example : (a ≡ a) × (b ≡ b)
claim_key_injective_example =
    claim_key_injective strokes strokes-HasNoColon
      (λ m n h. sym (length-strokes m) ∙ (ap length h ∙ length-strokes n)) a a b b refl
