-- ===== src/Cooldown/Key.antt =====
-- packages/cooldown/src/manager.ts: the key of a bucket. A text is the list of its UTF-8 bytes, and
-- `encodeURIComponent` and the test `!text.trim()` of JavaScript are written over bytes. A text with
-- a lone surrogate, for which `encodeURIComponent` throws, has no such bytes.
pub mod Reading
use extra.Prelude.{
  ℕ, ◌+◌, ◌/◌, ◌%◌, Bool, true, false, ◌&&◌, ◌||◌, Option, none, some, List, [], ◌∷◌, ◌++◌, any,
  ltb, leb, ◌==◌, if◌then◌else◌,
}

abbrev pub Text : Type 0
Text = List ℕ

-- A-Z a-z 0-9 and - _ . ! ~ * ' ( )
unfoldable pub is_unreserved : ℕ → Bool
is_unreserved b =
    (leb b'A' b && leb b b'Z')
    || (leb b'a' b && leb b b'z')
    || (leb b'0' b && leb b b'9')
    || any (λ m. m == b) (45 ∷ 95 ∷ 46 ∷ 33 ∷ 126 ∷ 42 ∷ 39 ∷ 40 ∷ 41 ∷ [])

unfoldable pub hex_digit : ℕ → ℕ
hex_digit d = if ltb d 10 then b'0' + d else 55 + d

unfoldable pub encode_byte : ℕ → Text
encode_byte b =
    if is_unreserved b then b ∷ [] else 37 ∷ hex_digit (b / 16) ∷ hex_digit (b % 16) ∷ []

unfoldable pub encode_uri_component : Text → Text
encode_uri_component [] = []
encode_uri_component (b ∷ bs) = encode_byte b ++ encode_uri_component bs

-- The white space of `String.prototype.trim`: how many bytes at the front make up one such character.
pub data Width : Type 0 where
  one two three not_space : Width

is_space : ℕ → Bool
is_space b = (leb 9 b && leb b 13) || b == 32

-- U+00A0
is_space₂ : ℕ → ℕ → Bool
is_space₂ a b = a == 194 && b == 160

-- U+1680, U+2000 to U+200A, U+2028, U+2029, U+202F, U+205F, U+3000, U+FEFF
is_space₃ : ℕ → ℕ → ℕ → Bool
is_space₃ a b c =
    (a == 225 && b == 154 && c == 128)
    || (a == 226 && b == 128 && ((leb 128 c && leb c 138) || c == 168 || c == 169 || c == 175))
    || (a == 226 && b == 129 && c == 159)
    || (a == 227 && b == 128 && c == 128)
    || (a == 239 && b == 187 && c == 191)

width : ℕ → ℕ → ℕ → Width
unfolding is_space is_space₂ is_space₃
width a b c =
    if is_space a
    then one
    else if is_space₂ a b
    then two
    else if is_space₃ a b c
    then three
    else not_space

-- `!text.trim()`.
unfoldable pub is_blank : Text → Bool
unfolding width is_space is_space₂
is_blank [] = true
is_blank (a ∷ []) = is_space a
is_blank (a ∷ b ∷ []) = (is_space a && is_space b) || is_space₂ a b
is_blank (a ∷ b ∷ c ∷ r) = elim (width a b c) [
  | one ↦ is_blank (b ∷ c ∷ r)
  | two ↦ is_blank (c ∷ r)
  | three ↦ is_blank r
  | not_space ↦ false
]

pub data CooldownTarget : Type 0 where
  user guild channel global : CooldownTarget
  custom : ℕ → CooldownTarget

-- "user", "guild", "channel", "global" and "custom".
unfoldable pub type_label : CooldownTarget → Text
type_label user = 117 ∷ 115 ∷ 101 ∷ 114 ∷ []
type_label guild = 103 ∷ 117 ∷ 105 ∷ 108 ∷ 100 ∷ []
type_label channel = 99 ∷ 104 ∷ 97 ∷ 110 ∷ 110 ∷ 101 ∷ 108 ∷ []
type_label global = 103 ∷ 108 ∷ 111 ∷ 98 ∷ 97 ∷ 108 ∷ []
type_label (custom f) = 99 ∷ 117 ∷ 115 ∷ 116 ∷ 111 ∷ 109 ∷ []

abbrev pub colon : ℕ
colon = 58

pub data KeyError : Type 0 where
  empty_name empty_target : KeyError

pub data KeyResult : Type 0 where
  key : Text → KeyResult
  refused : KeyError → KeyResult

-- The last lines of `buildKey`, once the texts are known not to be blank.
unfoldable pub join_key : Text → CooldownTarget → Text → Text
join_key namespace global target =
    encode_uri_component namespace ++ colon ∷ (type_label global ++ colon ∷ type_label global)
join_key namespace type target =
    encode_uri_component namespace
    ++ colon ∷ (type_label type ++ colon ∷ encode_uri_component target)

abbrev is_global : CooldownTarget → Bool
is_global global = true
is_global _ = false

-- `buildKey` for the namespace `props.group ?? resolvedName` and the type `props.type ?? 'user'`.
unfoldable pub build_key : Text → CooldownTarget → Text → KeyResult
build_key namespace type target =
    if is_blank namespace
    then refused empty_name
    else if is_global type
    then key (join_key namespace type target)
    else if is_blank target
    then refused empty_target
    else key (join_key namespace type target)
