-- ===== src/Queues/Retry.antt =====
-- packages/queues/src/helpers.ts: the delay before a retry. Durations are natural numbers of
-- milliseconds here; their texts are parsed elsewhere (`parseDuration`), and `none` is its error.
use extra.Prelude.{ℕ, ◌-◌, ◌*◌, ◌^◌, Option, none, some}

pub data BackoffType : Type 0 where
  fixed exponential : BackoffType

-- A delay, or backoff options whose delay may be left out.
pub data RetryDelay : Type 0 where
  duration : Option ℕ → RetryDelay
  backoff : BackoffType → Option (Option ℕ) → RetryDelay

abbrev given_or_zero : Option (Option ℕ) → Option ℕ
given_or_zero none = some 0
given_or_zero (some d) = d

unfoldable pub resolve_retry_delay_value : RetryDelay → ℕ → Option ℕ
resolve_retry_delay_value (duration d) attempts_made = d
resolve_retry_delay_value (backoff fixed d) attempts_made = given_or_zero d
resolve_retry_delay_value (backoff exponential d) attempts_made = elim (given_or_zero d) [
  | none ↦ none
  | some n ↦ some (n * 2 ^ (attempts_made - 1))
]
