-- ===== src/Proxy/Deduplication/Keys.antt =====
-- deduplication.ts: the key of a claim.
use extra.Prelude.{ℕ, ◌≡◌, refl, ap, false, [], ◌∷◌, ◌++◌, length, All, ◌==◌, arith}
use extra.Proxy.Deduplication.{Text, claim_key}

-- Each character is another one than `:`.
abbrev pub HasNoColon : Text → Type 0
HasNoColon t = All (λ c. (c == 58) ≡ false) t

uncons : (x y : ℕ) (xs ys : Text) → (x ∷ xs) ≡ (y ∷ ys) → (x ≡ y) × (xs ≡ ys)
uncons x y xs ys h = (ap (first 0) h, ap rest h)
  where
    first : ℕ → Text → ℕ
    first d [] = d
    first d (c ∷ cs) = c

    rest : Text → Text
    rest [] = []
    rest (c ∷ cs) = cs

split_at_colon :
    (xs ys front back : Text)
    → HasNoColon xs
    → HasNoColon ys
    → (xs ++ 58 ∷ front) ≡ (ys ++ 58 ∷ back)
    → (xs ≡ ys) × (front ≡ back)
split_at_colon [] [] front back a b h = (refl, (uncons 58 58 front back h).1)
split_at_colon [] (y ∷ ys) front back a b h =
    let (e, _) = uncons 58 y front (ys ++ 58 ∷ back) h in ground (arith, e, b.0)
split_at_colon (x ∷ xs) [] front back a b h =
    let (e, _) = uncons x 58 (xs ++ 58 ∷ front) back h in ground (arith, e, a.0)
split_at_colon (x ∷ xs) (y ∷ ys) front back a b h =
    let (e, t) = uncons x y (xs ++ 58 ∷ front) (ys ++ 58 ∷ back) h in
    let (same, r) = split_at_colon xs ys front back a.1 b.1 t in (rw (e, same) refl, r)

split_at_length :
    (xs ys front back : Text)
    → length xs ≡ length ys
    → (xs ++ front) ≡ (ys ++ back)
    → (xs ≡ ys) × (front ≡ back)
split_at_length [] [] front back n h = (refl, h)
split_at_length [] (y ∷ ys) front back n h = ground arith
split_at_length (x ∷ xs) [] front back n h = ground arith
split_at_length (x ∷ xs) (y ∷ ys) front back n h =
    let (e, t) = uncons x y (xs ++ front) (ys ++ back) h in
    let (same, r) = split_at_length xs ys front back (omega (arith, n)) t in (rw (e, same) refl, r)

-- Where the digits of a number have no colon and determine it, the key determines the service and the
-- request: no two different pairs share an entry of the registry.
pub claim_key_injective :
    (digits : ℕ → Text)
    → ((n : ℕ) → HasNoColon (digits n))
    → ((m n : ℕ) → digits m ≡ digits n → m ≡ n)
    → (s t : Text) (q r : Text) → claim_key digits s q ≡ claim_key digits t r
    → (s ≡ t) × (q ≡ r)
unfolding claim_key
claim_key_injective digits plain inj s t q r h =
    let (d, b) =
      split_at_colon (digits (length s)) (digits (length t)) (s ++ q) (t ++ r) (plain (length s))
        (plain (length t)) h in
    split_at_length s t q r (inj (length s) (length t) d) b
