-- ===== src/Proxy/Body.antt =====
-- packages/proxy/src/internal.ts: readRequestBody and BufferedBytesBudget. A chunk is a list of bytes.
-- Once the promise has settled, the listeners are off and nothing more changes it.
pub mod Limits
mod Tests
use extra.Prelude.{
  ℕ, ◌+◌, ◌-◌, Bool, true, false, ◌&&◌, Option, none, some, List, [], ◌∷◌, ◌++◌, length, ltb,
  if◌then◌else◌,
}

pub data BodyError : Type 0 where
  payload_too_large aborted stream_failed : BodyError

pub data Body : Type 0 where
  reading : (chunks : List (List ℕ)) → (size : ℕ) → Body
  resolved : List ℕ → Body
  rejected : BodyError → Body

pub record BufferedBytesBudget : Type 0 where
  pub used : ℕ
  pub limit : Option ℕ

-- `limit !== undefined && n > limit`.
abbrev pub exceeds : Option ℕ → ℕ → Bool
exceeds none n = false
exceeds (some m) n = ltb m n

unfoldable pub reserve : ℕ → BufferedBytesBudget → Option BufferedBytesBudget
reserve bytes b =
    if exceeds b.limit (b.used + bytes) then none else some (record b { used = b.used + bytes })

unfoldable pub release : ℕ → BufferedBytesBudget → BufferedBytesBudget
release bytes b = record b { used = b.used - bytes }

unfoldable pub concat : List (List ℕ) → List ℕ
concat [] = []
concat (c ∷ cs) = c ++ concat cs

pub data StreamEvent : Type 0 where
  arrives : List ℕ → StreamEvent
  ends aborts fails : StreamEvent

-- The first lines: `declared` is the length of the header, if it is a number.
unfoldable pub start_body : (max_bytes declared : Option ℕ) → Body
start_body max_bytes none = reading [] 0
start_body max_bytes (some n) =
    if exceeds max_bytes n then rejected payload_too_large else reading [] 0

module _ (max_bytes : Option ℕ) where
  -- `onData`, with the chunks and the size so far.
  unfoldable pub on_data :
      List ℕ → List (List ℕ) → ℕ → BufferedBytesBudget → Body × BufferedBytesBudget
  unfolding reserve
  on_data chunk chunks size b =
      let size' = size + length chunk in
      if exceeds max_bytes size'
      then (rejected payload_too_large, b)
      else elim (reserve (length chunk) b) [
        | none ↦ (rejected payload_too_large, b)
        | some b' ↦ (reading (chunks ++ chunk ∷ []) size', b')
      ]

  unfoldable pub receive_event :
      StreamEvent → Body × BufferedBytesBudget → Body × BufferedBytesBudget
  unfolding on_data concat
  receive_event (arrives chunk) (reading chunks size, b) = on_data chunk chunks size b
  receive_event ends (reading chunks size, b) = (resolved (concat chunks), b)
  receive_event aborts (reading chunks size, b) = (rejected aborted, b)
  receive_event fails (reading chunks size, b) = (rejected stream_failed, b)
  receive_event e (resolved body, b) = (resolved body, b)
  receive_event e (rejected x, b) = (rejected x, b)
