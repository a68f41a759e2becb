-- ===== src/Proxy/Gate/Log.antt =====
-- gates.ts: the window against a full log of the recorded times.
use extra.Prelude.{
  ℕ, ◌+◌, ◌≤◌, ◌≡◌, refl, sym, ap, ◌∙◌, List, [], ◌∷◌, ◌++◌, length, All, length-append,
  length-drop, drop-append, All-append, arith,
}
use mathlib.Core.List.{append_assoc}
use extra.Proxy.Gate.{
  SlidingWindow, sliding_window, blocked_for, compact, prune, occupancy, record_at,
}
use extra.Proxy.Gate.View.{
  live, Ascending, in_window, live-prune, prune_frame, expired_prefix-le, drop-expired_prefix,
  in_window-append, expired_prefix-All, All-le_trans, Ascending-drop, Ascending-mono,
  Ascending-snoc,
}

-- The window `g` stands for the log: what it forgot has left the window for good.
pub record Tracks (g : SlidingWindow) (log : List ℕ) (t : ℕ) : Type 0 where
  pub within : g.start ≤ length g.entries
  pub forgotten : List ℕ
  pub split : log ≡ forgotten ++ live g
  pub expired : All (λ x. x + g.per_ms ≤ t) forgotten
  pub ordered : Ascending (live g) t

prune-within :
    (g : SlidingWindow) (now : ℕ)
    → g.start ≤ length g.entries
    → (prune g now).start ≤ length (prune g now).entries
unfolding prune compact
prune-within g now h =
    ground (arith, expired_prefix-le g.per_ms now (live g), length-drop g.start g.entries)

module _ {g : SlidingWindow} {log : List ℕ} {t : ℕ} (k : Tracks g log t) (now : ℕ)
    (h : t ≤ now) where
  pub live-prune-in_window : live (prune g now) ≡ in_window g.per_ms now (live g)
  live-prune-in_window = live-prune g now ∙ drop-expired_prefix g.per_ms now t (live g) k.ordered

  pub in_window-log : in_window g.per_ms now log ≡ live (prune g now)
  in_window-log =
      ap (in_window g.per_ms now) k.split
      ∙ in_window-append g.per_ms now k.forgotten (live g)
          (All-le_trans g.per_ms t now k.forgotten h k.expired)
      ∙ sym live-prune-in_window

  pub prune-Tracks : Tracks (prune g now) log now
  prune-Tracks =
      let (old, e, a) = expired_prefix-All g.per_ms now (live g) in
      let later = All-le_trans g.per_ms t now k.forgotten h k.expired in
      record {
        within = prune-within g now k.within;
        forgotten = k.forgotten ++ old;
        split =
            k.split
            ∙ ap (◌++◌ k.forgotten) (e ∙ ap (◌++◌ old) (sym (live-prune g now)))
            ∙ sym (append_assoc k.forgotten old _);
        expired = rw ((prune_frame g now).2) (All-append _ k.forgotten old a later);
        ordered =
            rw (live-prune g now)
              (Ascending-drop _ now (live g) (Ascending-mono t now (live g) h k.ordered));
      }

  -- Recording at `now` adds `now` to the log.
  pub record_at-Tracks : Tracks (record_at g now) (log ++ now ∷ []) now
  unfolding record_at
  record_at-Tracks =
      let p = prune-Tracks in
      let entry = drop-append (prune g now).start (prune g now).entries (now ∷ []) p.within in
      record {
        within = omega (arith, p.within, length-append (prune g now).entries (now ∷ []));
        forgotten = p.forgotten;
        split =
            ap (λ l. l ++ now ∷ []) p.split
            ∙ append_assoc p.forgotten _ _
            ∙ ap (◌++◌ p.forgotten) (sym entry);
        expired = p.expired;
        ordered = rw entry (Ascending-snoc now _ p.ordered);
      }

  -- For a window that tracks a log of recorded times up to `t`, `occupancy` at a later time is the
  -- number of logged times within the last `per_ms`, whatever was pruned or compacted away.
  pub occupancy-log : (occupancy g now).1 ≡ length (in_window g.per_ms now log)
  unfolding occupancy
  occupancy-log = rw in_window-log (sym (length-drop (prune g now).start (prune g now).entries))

-- Time may pass.
pub Tracks-mono :
    {g : SlidingWindow} {log : List ℕ} {t now : ℕ} → t ≤ now → Tracks g log t → Tracks g log now
Tracks-mono {g} {log} {t} {now} h k = record {
  within = k.within;
  forgotten = k.forgotten;
  split = k.split;
  expired = All-le_trans g.per_ms t now k.forgotten h k.expired;
  ordered = Ascending-mono t now (live g) h k.ordered;
}

pub record_at_frame :
    (g : SlidingWindow) (now : ℕ)
    → ((record_at g now).limit ≡ g.limit) × ((record_at g now).per_ms ≡ g.per_ms)
unfolding record_at
record_at_frame g now = let f = prune_frame g now in (f.1, f.2)

pub blocked_for-Tracks :
    {g : SlidingWindow} {log : List ℕ} {t : ℕ} (k : Tracks g log t) (now : ℕ)
    → t ≤ now
    → Tracks (blocked_for g now).0 log now
unfolding blocked_for
blocked_for-Tracks k now h = prune-Tracks k now h

pub blocked_for_frame :
    (g : SlidingWindow) (now : ℕ)
    → ((blocked_for g now).0.limit ≡ g.limit) × ((blocked_for g now).0.per_ms ≡ g.per_ms)
unfolding blocked_for
blocked_for_frame g now = let f = prune_frame g now in (f.1, f.2)

pub sliding_window-Tracks : (limit per_ms : ℕ) → Tracks (sliding_window limit per_ms) [] 0
unfolding sliding_window
sliding_window-Tracks limit per_ms = record {
  within = omega arith;
  forgotten = [];
  split = refl;
  expired = tt;
  ordered = tt;
}

pub sliding_window_frame :
    (limit per_ms : ℕ)
    → ((sliding_window limit per_ms).limit ≡ limit)
      × ((sliding_window limit per_ms).per_ms ≡ per_ms)
unfolding sliding_window
sliding_window_frame limit per_ms = (refl, refl)
