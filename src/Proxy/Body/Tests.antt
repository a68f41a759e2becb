-- ===== src/Proxy/Body/Tests.antt =====
-- internal.ts at concrete inputs.
use extra.Prelude.{refl, some, [], ◌∷◌}
use extra.Proxy.Body.{Body, reading, BufferedBytesBudget, concat, arrives, receive_event}
use extra.Proxy.Body.Limits.{IsWithinLimits, receive_event-IsWithinLimits}

-- Two bytes are read, of four that are allowed, and the budget has five.
abbrev two_bytes : Body × BufferedBytesBudget
two_bytes = (reading ((1 ∷ 2 ∷ []) ∷ []) 2, record { used = 2; limit = some 5 })

receive_event-IsWithinLimits_example :
    IsWithinLimits (some 4) (receive_event (some 4) (arrives (3 ∷ 4 ∷ [])) two_bytes)
unfolding concat
receive_event-IsWithinLimits_example =
    receive_event-IsWithinLimits (some 4) (arrives (3 ∷ 4 ∷ [])) two_bytes
      (record { counted = refl; short = refl; budgeted = refl })
