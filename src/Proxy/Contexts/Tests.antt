-- ===== src/Proxy/Contexts/Tests.antt =====
-- contexts.ts at concrete inputs.
use extra.Prelude.{ℕ, ◌+◌, Bool, true, false, some, lookup, arith}
use extra.Proxy.Contexts.{GateOptions, RestContextManager, rest_context_manager, create_context}
use extra.Proxy.Contexts.Operations.{handler, resolves, creates_handler, step}
use extra.Proxy.Contexts.Bounds.{IsManaged}
use extra.Proxy.Contexts.Bounds.Steps.{step-IsManaged, rest_context_manager-IsManaged}
use extra.Proxy.Contexts.Owners.{IsOwned}
use extra.Proxy.Contexts.Owners.Steps.{step-IsOwned}

abbrev fifty : GateOptions
fifty = record { max = 50; per_ms = 1000 }

-- The fingerprint of a token.
abbrev mark : ℕ → ℕ
mark t = t + 100

abbrev never : ℕ → ℕ → Bool
never rest now = false

abbrev fresh : RestContextManager
fresh = rest_context_manager mark 0 3 7 true 2 fifty fifty

abbrev asked : RestContextManager
asked = step mark never 1 (resolves true (some 8)) fresh

asked-IsManaged : IsManaged asked
asked-IsManaged =
    step-IsManaged mark never 1 (resolves true (some 8)) fresh
      (rest_context_manager-IsManaged mark 0 3 7 true 2 fifty fifty)

step-IsManaged_example :
    IsManaged (step mark never 2 (creates_handler 108 (handler 4 true false)) asked)
step-IsManaged_example =
    step-IsManaged mark never 2 (creates_handler 108 (handler 4 true false)) asked asked-IsManaged

fresh-IsOwned : IsOwned fresh
unfolding rest_context_manager create_context lookup
fresh-IsOwned k r e = ground arith

asked-IsOwned : IsOwned asked
asked-IsOwned = step-IsOwned mark never 1 (resolves true (some 8)) fresh fresh-IsOwned

step-IsOwned_example :
    IsOwned (step mark never 2 (creates_handler 108 (handler 4 true false)) asked)
step-IsOwned_example =
    step-IsOwned mark never 2 (creates_handler 108 (handler 4 true false)) asked asked-IsOwned
