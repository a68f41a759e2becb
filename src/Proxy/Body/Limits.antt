-- ===== src/Proxy/Body/Limits.antt =====
-- internal.ts: a body keeps within its limit and within the budget.
use extra.Prelude.{
  ℕ, ◌+◌, ◌≡◌, refl, false, Option, none, some, List, [], ◌∷◌, ◌++◌, length, Bool-cases,
  Option-cases, subst, inl, inr, length-append, arith,
}
use extra.Proxy.Body.{
  Body, BodyError, reading, resolved, rejected, BufferedBytesBudget, exceeds, reserve, concat,
  StreamEvent, arrives, ends, aborts, fails, on_data, receive_event,
}

length-concat_snoc :
    (cs : List (List ℕ)) (c : List ℕ)
    → length (concat (cs ++ c ∷ [])) ≡ length (concat cs) + length c
unfolding concat
length-concat_snoc [] c = omega (arith, length-append c [])
length-concat_snoc (d ∷ cs) c = omega (
  arith,
  length-append d (concat (cs ++ c ∷ [])),
  length-append d (concat cs),
  length-concat_snoc cs c,
)

-- The bytes that a body holds.
abbrev pub held : Body → ℕ
held (reading chunks size) = length (concat chunks)
held (resolved body) = length body
held (rejected e) = 0

-- The size that is counted is the length of the chunks.
abbrev pub IsCounted : Body → Type 0
IsCounted (reading chunks size) = size ≡ length (concat chunks)
IsCounted (resolved body) = Unit
IsCounted (rejected e) = Unit

-- What a body holds is within its limit, and what the budget has given out is within the budget's.
pub record IsWithinLimits (max_bytes : Option ℕ) (s : Body × BufferedBytesBudget) : Type 0 where
  pub counted : IsCounted s.0
  pub short : exceeds max_bytes (held s.0) ≡ false
  pub budgeted : exceeds s.1.limit s.1.used ≡ false

none_over : (m : Option ℕ) → exceeds m 0 ≡ false
none_over none = refl
none_over (some m) = ground arith

reserve-budgeted :
    (n : ℕ) (b c : BufferedBytesBudget) → reserve n b ≡ some c → exceeds c.limit c.used ≡ false
unfolding reserve
reserve-budgeted n b c e = elim (Bool-cases (exceeds b.limit (b.used + n))) [
  | inl over ↦ absurd (none_ne (rw (over, reserve) at e))
  | inr fits ↦
      subst (λ x. exceeds x.limit x.used ≡ false) (some_injective (rw (fits, reserve) at e)) fits
]
  where
    none_ne : none ≡ some c → ⊥
    none_ne p = cc

    some_injective : {x : BufferedBytesBudget} → some x ≡ some c → x ≡ c
    some_injective p = cc

module _ (max_bytes : Option ℕ) where
  on_data-IsWithinLimits :
      (chunk : List ℕ) (chunks : List (List ℕ)) (size : ℕ) (b : BufferedBytesBudget)
      → IsWithinLimits max_bytes (reading chunks size, b)
      → IsWithinLimits max_bytes (on_data max_bytes chunk chunks size b)
  unfolding on_data
  on_data-IsWithinLimits chunk chunks size b w =
      elim (Bool-cases (exceeds max_bytes (size + length chunk))) [
        | inl over ↦ rw (over, on_data) (gone w.budgeted)
        | inr fits ↦ elim (Option-cases (reserve (length chunk) b)) [
          | inl n ↦ rw (fits, n, on_data) (gone w.budgeted)
          | inr (c, e) ↦
              rw (fits, e, on_data)
                (record {
                  counted = sized;
                  short = subst (λ n. exceeds max_bytes n ≡ false) sized fits;
                  budgeted = reserve-budgeted (length chunk) b c e;
                })
        ]
      ]
    where
      sized : size + length chunk ≡ length (concat (chunks ++ chunk ∷ []))
      sized = omega (arith, w.counted, length-concat_snoc chunks chunk)

      gone :
          {c : BufferedBytesBudget} {e : BodyError}
          → exceeds c.limit c.used ≡ false
          → IsWithinLimits max_bytes (rejected e, c)
      gone f = record { counted = tt; short = none_over max_bytes; budgeted = f }

  -- Whatever comes on the stream, in whatever order: the bytes that are collected, and the body that
  -- is answered, never exceed the limit of a request, and the bytes taken from the budget never exceed
  -- the budget's.
  pub receive_event-IsWithinLimits :
      (e : StreamEvent) (s : Body × BufferedBytesBudget)
      → IsWithinLimits max_bytes s
      → IsWithinLimits max_bytes (receive_event max_bytes e s)
  unfolding receive_event
  receive_event-IsWithinLimits (arrives chunk) (reading chunks size, b) w =
      on_data-IsWithinLimits chunk chunks size b w
  receive_event-IsWithinLimits ends (reading chunks size, b) w = record {
    counted = tt;
    short = w.short;
    budgeted = w.budgeted;
  }
  receive_event-IsWithinLimits aborts (reading chunks size, b) w = record {
    counted = tt;
    short = none_over max_bytes;
    budgeted = w.budgeted;
  }
  receive_event-IsWithinLimits fails (reading chunks size, b) w = record {
    counted = tt;
    short = none_over max_bytes;
    budgeted = w.budgeted;
  }
  receive_event-IsWithinLimits (arrives chunk) (resolved body, b) w = w
  receive_event-IsWithinLimits ends (resolved body, b) w = w
  receive_event-IsWithinLimits aborts (resolved body, b) w = w
  receive_event-IsWithinLimits fails (resolved body, b) w = w
  receive_event-IsWithinLimits (arrives chunk) (rejected x, b) w = w
  receive_event-IsWithinLimits ends (rejected x, b) w = w
  receive_event-IsWithinLimits aborts (rejected x, b) w = w
  receive_event-IsWithinLimits fails (rejected x, b) w = w
