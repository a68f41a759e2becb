-- ===== src/Proxy/Gate/Delay.antt =====
-- gates.ts: how long a window blocks, and what the guard of the callers keeps.
use extra.Prelude.{
  ℕ, zero, suc, ◌+◌, ◌-◌, ◌≤◌, ◌<◌, ◌≡◌, refl, ap, ◌∙◌, ◌↔◌, inl, inr, List, [], ◌∷◌, ◌++◌, length,
  drop, get_or, All, length-drop, ltb, leb, if◌then◌else◌, max, Bool-cases, arith,
}
use extra.Proxy.Gate.{SlidingWindow, expired_prefix, prune, delay_of, blocked_for}
use extra.Proxy.Gate.View.{
  live, Ascending, in_window, live-prune, prune_frame, expired_prefix-le, length-in_window-snoc,
}
use extra.Proxy.Gate.Log.{Tracks, prune-Tracks, in_window-log}

get_or-drop : (s i d : ℕ) (xs : List ℕ) → get_or xs (s + i) d ≡ get_or (drop s xs) i d
get_or-drop zero i d xs = ap (λ k. get_or xs k d) (omega arith)
get_or-drop (suc s) i d [] = refl
get_or-drop (suc s) i d (x ∷ xs) =
    let e : suc s + i ≡ suc (s + i) = omega arith in
    ap (λ k. get_or (x ∷ xs) k d) e ∙ get_or-drop s i d xs

get_or-All : (x i : ℕ) (xs : List ℕ) → All (λ y. x ≤ y) xs → i < length xs → x ≤ get_or xs i 0
get_or-All x i [] a h = elim h [ ]
get_or-All x zero (y ∷ ys) a h = a.0
get_or-All x (suc i) (y ∷ ys) a h = get_or-All x i ys a.1 (omega arith)

-- On ordered times, the entry at `i` has left the window exactly when the loop passes it.
expired_prefix-get_or :
    (per now t i : ℕ) (xs : List ℕ)
    → Ascending xs t
    → i < length xs
    → (i < expired_prefix per now xs) ↔ (get_or xs i 0 + per ≤ now)
unfolding expired_prefix
expired_prefix-get_or per now t i [] a h = elim h [ ]
expired_prefix-get_or per now t zero (x ∷ xs) a h = ground arith
expired_prefix-get_or per now t (suc i) (x ∷ xs) a h =
    ground (arith, expired_prefix-get_or per now t i xs a.2, get_or-All x i xs a.1)

-- The delay in terms of the live entries.
abbrev delay : ℕ → ℕ → ℕ → List ℕ → ℕ → ℕ
delay limit per blocked xs now =
    if ltb (length xs) limit
    then blocked - now
    else max (max (blocked - now) 1) (get_or xs (length xs - limit) 0 + per - now)

delay_of-live :
    (g : SlidingWindow) (now : ℕ)
    → delay_of g now ≡ delay g.limit g.per_ms g.blocked_until (live g) now
unfolding delay_of
delay_of-live g now = elim (Bool-cases (ltb (length g.entries - g.start) g.limit)) [
  | inl e ↦ rw (length-drop g.start g.entries, e)
  | inr e ↦
      let add : g.start + (length g.entries - g.start) - g.limit
          ≡ g.start + (length g.entries - g.start - g.limit) =
        ground arith in
      rw (
        length-drop g.start g.entries,
        e,
        add,
        get_or-drop g.start (length g.entries - g.start - g.limit) 0 g.entries,
      )
]

expired_prefix-drop :
    (per now : ℕ) (xs : List ℕ) → expired_prefix per now (drop (expired_prefix per now xs) xs) ≡ 0
unfolding expired_prefix
expired_prefix-drop per now [] = refl
expired_prefix-drop per now (x ∷ xs) = elim (Bool-cases (leb (x + per) now)) [
  | inl e ↦ rw e (expired_prefix-drop per now xs)
  | inr e ↦ rw (e, e)
]

module _ (limit per blocked now t : ℕ) (xs : List ℕ) (a : Ascending xs t) (pos : 0 < limit)
    (fresh : expired_prefix per now xs ≡ 0) (j : ℕ) where
  abbrev later : List ℕ
  later = drop (expired_prefix per (now + j) xs) xs

  delay-le : (delay limit per blocked xs now ≤ j) ↔ (delay limit per blocked later (now + j) ≡ 0)
  delay-le = elim (Bool-cases (ltb (length xs) limit)) [
    | inl e ↦ ground (arith, length-drop (expired_prefix per (now + j) xs) xs)
    | inr e ↦ ground (
      arith,
      length-drop (expired_prefix per (now + j) xs) xs,
      expired_prefix-le per (now + j) xs,
      expired_prefix-get_or per now t (length xs - limit) xs a,
      expired_prefix-get_or per (now + j) t (length xs - limit) xs a,
    )
  ]

module _ {g : SlidingWindow} {log : List ℕ} {t : ℕ} (k : Tracks g log t) (now : ℕ) (h : t ≤ now)
    (pos : 0 < g.limit) (j : ℕ) where
  -- For a window with a positive limit that tracks a log of the recorded times, recorded in order
  -- and none after the time `t`, and that is asked at a time not before `t`: the delay that
  -- `blockedFor` answers is exact. Asked again `j` milliseconds later, with no recording between,
  -- the window is open if and only if that delay has passed.
  pub blocked_for_exact :
      ((blocked_for g now).1 ≤ j) ↔ ((blocked_for (blocked_for g now).0 (now + j)).1 ≡ 0)
  unfolding blocked_for
  blocked_for_exact =
      let g₁ = prune g now in
      let f₁ = prune_frame g now in
      let f₂ = prune_frame g₁ (now + j) in
      let p = prune-Tracks k now h in
      let fresh : expired_prefix g.per_ms now (live g₁) ≡ 0 =
        rw (live-prune g now) (expired_prefix-drop g.per_ms now (live g)) in
      rw
        (
          delay_of-live g₁ now,
          delay_of-live (prune g₁ (now + j)) (now + j),
          live-prune g₁ (now + j),
          f₂.0,
          f₂.1,
          f₂.2,
          f₁.0,
          f₁.1,
          f₁.2,
        )
        (delay-le g.limit g.per_ms g.blocked_until now now (live g₁) p.ordered pos fresh j)

module _ {g : SlidingWindow} {log : List ℕ} {t : ℕ} (k : Tracks g log t) (now : ℕ)
    (h : t ≤ now) where
  -- Where `blockedFor` answers 0, the log with the new time holds at most `limit` times of the
  -- last `per_ms`.
  pub record_at-in_window-le :
      (blocked_for g now).1 ≡ 0 → length (in_window g.per_ms now (log ++ now ∷ [])) ≤ g.limit
  unfolding blocked_for
  record_at-in_window-le open_now =
      let f = prune_frame g now in
      ground (
        arith,
        f,
        length-in_window-snoc g.per_ms now log now,
        ap length (in_window-log k now h),
        delay_of-live (prune g now) now,
      )

-- Asking again at the same time changes nothing.
pub blocked_for_again :
    (g : SlidingWindow) (now : ℕ)
    → (blocked_for (blocked_for g now).0 now).1 ≡ (blocked_for g now).1
unfolding blocked_for
blocked_for_again g now =
    let g₁ = prune g now in
    let f = prune_frame g₁ now in
    let fresh : expired_prefix g₁.per_ms now (live g₁) ≡ 0 =
      rw ((prune_frame g now).2, live-prune g now) (expired_prefix-drop g.per_ms now (live g)) in
    let same : live (prune g₁ now) ≡ live g₁ =
      live-prune g₁ now ∙ ap (λ n. drop n (live g₁)) fresh in
    rw (delay_of-live (prune g₁ now) now, delay_of-live g₁ now, same, f.0, f.1, f.2)
