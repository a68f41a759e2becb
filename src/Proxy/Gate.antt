-- ===== src/Proxy/Gate.antt =====
-- packages/proxy/src/gates.ts: the sliding window that limits requests per period.
-- Times are milliseconds, natural numbers. `entry <= now - perMs` is written `entry + per_ms ≤ now`,
-- since `-` on natural numbers stops at 0. A caller passes the current time. A limit is
-- positive, as the server validates it: for 0 the delay of the source is NaN.
pub mod View
pub mod Log
pub mod Delay
mod Tests
use extra.Prelude.{
  ℕ, suc, ◌+◌, ◌-◌, ◌*◌, max, ◌&&◌, ◌||◌, List, [], ◌∷◌, ◌++◌, length, drop, get_or, ltb, leb, ◌==◌,
  if◌then◌else◌,
}

pub record SlidingWindow : Type 0 where
  pub entries : List ℕ
  pub start : ℕ
  pub blocked_until : ℕ
  pub limit : ℕ
  pub per_ms : ℕ

pub sliding_window : ℕ → ℕ → SlidingWindow
sliding_window limit per_ms = record {
  entries = [];
  start = 0;
  blocked_until = 0;
  limit = limit;
  per_ms = per_ms;
}

-- The rounds of `prune`'s loop: how many entries from `start` on have left the window.
pub expired_prefix : ℕ → ℕ → List ℕ → ℕ
expired_prefix per_ms now [] = 0
expired_prefix per_ms now (t ∷ ts) =
    if leb (t + per_ms) now then suc (expired_prefix per_ms now ts) else 0

pub compact : SlidingWindow → SlidingWindow
compact g =
    if g.start == 0 || (ltb g.start 1024 && ltb (g.start * 2) (length g.entries))
    then g
    else record g { entries = drop g.start g.entries; start = 0 }

pub prune : SlidingWindow → ℕ → SlidingWindow
unfolding compact expired_prefix
prune g now =
    compact (record g { start = g.start + expired_prefix g.per_ms now (drop g.start g.entries) })

pub occupancy : SlidingWindow → ℕ → SlidingWindow × ℕ
unfolding prune
occupancy g now = let g' = prune g now in (g', length g'.entries - g'.start)

unfoldable pub record_at : SlidingWindow → ℕ → SlidingWindow
unfolding prune
record_at g now = let g' = prune g now in record g' { entries = g'.entries ++ now ∷ [] }

-- A delay that is not finite or not positive is 0 here, and changes nothing.
pub block_for : SlidingWindow → ℕ → ℕ → SlidingWindow
block_for g delay now =
    if delay == 0 then g else record g { blocked_until = max g.blocked_until (now + delay) }

pub remaining : SlidingWindow → ℕ → SlidingWindow × ℕ
unfolding occupancy
remaining g now = let (g', n) = occupancy g now in (g', g.limit - n)

-- `blockedFor` on a pruned window. Where `limit` is 0 the read is out of range and the source
-- compares with NaN; the theorems ask for a positive limit.
pub delay_of : SlidingWindow → ℕ → ℕ
delay_of g now =
    let manual_block : ℕ = g.blocked_until - now in
    let size : ℕ = length g.entries - g.start in
    if ltb size g.limit
    then manual_block
    else max (max manual_block 1) (get_or g.entries (g.start + size - g.limit) 0 + g.per_ms - now)

unfoldable pub blocked_for : SlidingWindow → ℕ → SlidingWindow × ℕ
unfolding prune delay_of
blocked_for g now = let g' = prune g now in (g', delay_of g' now)
