-- ===== src/Cooldown/Numbers.antt =====
-- JavaScript numbers as manager.ts tests them.
use extra.Prelude.{ℕ, suc, Bool, true, false, leb, ltb}

-- An integer, or any other value: a fraction, NaN, an infinity, `undefined`; Lua's `nil`.
pub data Num : Type 0 where
  nat : ℕ → Num
  negsuc : ℕ → Num
  other : Num

abbrev pub max_safe_integer : ℕ
max_safe_integer = 9007199254740991

abbrev pub is_safe_integer : Num → Bool
is_safe_integer (nat n) = leb n max_safe_integer
is_safe_integer (negsuc n) = leb (suc n) max_safe_integer
is_safe_integer other = false

-- `x > n` and `x < 0`.
abbrev pub above : Num → ℕ → Bool
above (nat x) n = ltb n x
above (negsuc x) n = false
above other n = false

abbrev pub is_negative : Num → Bool
is_negative (nat x) = false
is_negative (negsuc x) = true
is_negative other = false

-- `x` as a natural number, where it is one.
abbrev pub to_ℕ : Num → ℕ
to_ℕ (nat x) = x
to_ℕ _ = 0
