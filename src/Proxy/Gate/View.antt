-- ===== src/Proxy/Gate/View.antt =====
-- gates.ts: the window as the list of the times that are still in it, and as a full log.
use extra.Prelude.{
  ℕ, zero, suc, ◌+◌, ◌≤◌, ◌<◌, ◌≡◌, refl, sym, ap, ◌∙◌, inl, inr, List, [], ◌∷◌, ◌++◌, length, drop,
  select, All, drop-drop, ltb, leb, Bool-cases, ltb_of_leb, ltb_of_not_leb, arith,
}
use extra.Proxy.Gate.{SlidingWindow, expired_prefix, compact, prune}

-- The entries from `start` on.
abbrev pub live : SlidingWindow → List ℕ
live g = drop g.start g.entries

-- Every time of the list is at most `t`, and none is after its successor.
abbrev pub Ascending : List ℕ → ℕ → Type 0
Ascending [] t = Unit {0}
Ascending (x ∷ xs) t = (x ≤ t) × All (λ y. x ≤ y) xs × Ascending xs t

-- The recorded times that a limiter with a perfect memory would count at `now`.
abbrev pub in_window : ℕ → ℕ → List ℕ → List ℕ
in_window per_ms now = select λ t. ltb now (t + per_ms)

live-compact : (g : SlidingWindow) → live (compact g) ≡ live g
unfolding compact
live-compact g = ground arith

pub live-prune :
    (g : SlidingWindow) (now : ℕ)
    → live (prune g now) ≡ drop (expired_prefix g.per_ms now (live g)) (live g)
unfolding prune
live-prune g now =
    live-compact (record g { start = g.start + expired_prefix g.per_ms now (live g) })
    ∙ sym (drop-drop g.start (expired_prefix g.per_ms now (live g)) g.entries)

-- What pruning leaves alone.
pub prune_frame :
    (g : SlidingWindow) (now : ℕ)
    → ((prune g now).blocked_until ≡ g.blocked_until)
      × ((prune g now).limit ≡ g.limit)
      × ((prune g now).per_ms ≡ g.per_ms)
unfolding prune compact
prune_frame g now = ground arith

pub expired_prefix-le : (per now : ℕ) (xs : List ℕ) → expired_prefix per now xs ≤ length xs
unfolding expired_prefix
expired_prefix-le per now [] = omega arith
expired_prefix-le per now (x ∷ xs) = ground (arith, expired_prefix-le per now xs)

in_window_of_later :
    (per now x : ℕ) (xs : List ℕ) → now < x + per → All (λ y. x ≤ y) xs → in_window per now xs ≡ xs
in_window_of_later per now x [] h a = refl
in_window_of_later per now x (y ∷ ys) h a = ground (arith, in_window_of_later per now x ys h a.1)

-- On ordered times the loop drops exactly those that have left the window.
pub drop-expired_prefix :
    (per now t : ℕ) (xs : List ℕ)
    → Ascending xs t
    → drop (expired_prefix per now xs) xs ≡ in_window per now xs
unfolding expired_prefix
drop-expired_prefix per now t [] a = refl
drop-expired_prefix per now t (x ∷ xs) a = elim (Bool-cases (leb (x + per) now)) [
  | inl out ↦ rw (out, ltb_of_leb (x + per) now out) (drop-expired_prefix per now t xs a.2)
  | inr stays ↦
      let later : now < x + per = ground arith in
      rw (stays, ltb_of_not_leb (x + per) now stays)
        (ap (λ l. x ∷ l) (sym (in_window_of_later per now x xs later a.1)))
]

pub in_window-append :
    (per now : ℕ) (xs ys : List ℕ)
    → All (λ x. x + per ≤ now) xs
    → in_window per now (xs ++ ys) ≡ in_window per now ys
in_window-append per now [] ys a = refl
in_window-append per now (x ∷ xs) ys a = ground (arith, in_window-append per now xs ys a.1)

-- On one list, what is dropped has left the window.
pub expired_prefix-All :
    (per now : ℕ) (xs : List ℕ)
    → (old : List ℕ) × (xs ≡ old ++ drop (expired_prefix per now xs) xs)
      × All (λ x. x + per ≤ now) old
unfolding expired_prefix
expired_prefix-All per now [] = ([], refl, tt)
expired_prefix-All per now (x ∷ xs) = elim (Bool-cases (leb (x + per) now)) [
  | inl out ↦
      let (old, e, a) = expired_prefix-All per now xs in
      rw out (x ∷ old, ap (λ l. x ∷ l) e, (ground arith, a))
  | inr stays ↦ rw stays ([], refl, tt)
]

pub All-le_trans :
    (per t now : ℕ) (xs : List ℕ)
    → t ≤ now
    → All (λ x. x + per ≤ t) xs
    → All (λ x. x + per ≤ now) xs
All-le_trans per t now [] h a = tt
All-le_trans per t now (x ∷ xs) h a = (omega arith, All-le_trans per t now xs h a.1)

pub Ascending-drop : (n t : ℕ) (xs : List ℕ) → Ascending xs t → Ascending (drop n xs) t
Ascending-drop zero t xs a = a
Ascending-drop (suc n) t [] a = a
Ascending-drop (suc n) t (x ∷ xs) a = Ascending-drop n t xs a.2

pub Ascending-mono : (t now : ℕ) (xs : List ℕ) → t ≤ now → Ascending xs t → Ascending xs now
Ascending-mono t now [] h a = tt
Ascending-mono t now (x ∷ xs) h a = (omega arith, a.1, Ascending-mono t now xs h a.2)

All-le_snoc :
    (x t now : ℕ) (xs : List ℕ) → x ≤ now → All (λ y. x ≤ y) xs → All (λ y. x ≤ y) (xs ++ now ∷ [])
All-le_snoc x t now [] h a = (h, tt)
All-le_snoc x t now (y ∷ ys) h a = (a.0, All-le_snoc x t now ys h a.1)

pub Ascending-snoc : (now : ℕ) (xs : List ℕ) → Ascending xs now → Ascending (xs ++ now ∷ []) now
Ascending-snoc now [] a = (omega arith, tt, tt)
Ascending-snoc now (x ∷ xs) a = (a.0, All-le_snoc x now now xs a.0 a.1, Ascending-snoc now xs a.2)

pub length-in_window-snoc :
    (per now : ℕ) (xs : List ℕ) (x : ℕ)
    → length (in_window per now (xs ++ x ∷ [])) ≤ length (in_window per now xs) + 1
length-in_window-snoc per now [] x = ground arith
length-in_window-snoc per now (y ∷ ys) x = ground (arith, length-in_window-snoc per now ys x)
