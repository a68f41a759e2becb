-- ===== src/Proxy/Gate/Tests.antt =====
-- gates.ts at concrete inputs.
use extra.Prelude.{◌≤◌, ◌≡◌, ◌↔◌, ◌+◌, refl, [], ◌∷◌, length, arith}
use extra.Proxy.Gate.{SlidingWindow, occupancy, blocked_for}
use extra.Proxy.Gate.View.{in_window}
use extra.Proxy.Gate.Log.{Tracks, occupancy-log}
use extra.Proxy.Gate.Delay.{blocked_for_exact}

-- A window of two requests per 10 ms, with requests at 1 and 5.
abbrev two_requests : SlidingWindow
two_requests = record { entries = 1 ∷ 5 ∷ []; start = 0; blocked_until = 0; limit = 2; per_ms = 10 }

two_requests-Tracks : Tracks two_requests (1 ∷ 5 ∷ []) 5
two_requests-Tracks = record {
  within = omega arith;
  forgotten = [];
  split = refl;
  expired = tt;
  ordered = (omega arith, (omega arith, tt), (omega arith, tt, tt));
}

blocked_until_eleven : (blocked_for two_requests 6).1 ≡ 5
unfolding blocked_for
blocked_until_eleven = refl

occupancy-log_example : (occupancy two_requests 11).1 ≡ length (in_window 10 11 (1 ∷ 5 ∷ []))
occupancy-log_example = occupancy-log two_requests-Tracks 11 (omega arith)

blocked_for_exact_example :
    ((blocked_for two_requests 6).1 ≤ 4)
    ↔ ((blocked_for (blocked_for two_requests 6).0 (6 + 4)).1 ≡ 0)
blocked_for_exact_example = blocked_for_exact two_requests-Tracks 6 (omega arith) (omega arith) 4
