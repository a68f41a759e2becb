-- ===== src/Cooldown/Key/Reading.antt =====
-- manager.ts: a key can be read back, so different buckets have different keys.
use extra.Prelude.{
  ℕ, ◌+◌, ◌*◌, ◌-◌, ◌/◌, ◌%◌, ◌<◌, ◌≡◌, refl, ap, ◌∙◌, true, false, inl, inr, [], ◌∷◌, ◌++◌, All,
  Bool-cases, ltb, ◌==◌, if◌then◌else◌, arith,
}
use mathlib.Core.List.{append_assoc}
use extra.Cooldown.Key.{
  Text, is_unreserved, hex_digit, encode_byte, encode_uri_component, CooldownTarget, user, guild,
  channel, global, custom, type_label, colon, key, join_key, build_key,
}

-- A reader of keys: it decodes up to a colon, and answers the text and what is behind the colon.
data Mode : Type 0 where
  plain percent : Mode
  high : ℕ → Mode

hex_value : ℕ → ℕ
hex_value c = if ltb c 65 then c - 48 else c - 55

abbrev add_first : ℕ → Text × Text → Text × Text
add_first b (t, r) = (b ∷ t, r)

read : Mode → Text → Text × Text
unfolding hex_value
read mode [] = ([], [])
read plain (c ∷ r) = elim (c == colon) [
  | true ↦ ([], r)
  | false ↦ elim (c == 37) [ true ↦ read percent r | false ↦ add_first c (read plain r) ]
]
read percent (c ∷ r) = read (high (hex_value c)) r
read (high h) (c ∷ r) = add_first (16 * h + hex_value c) (read plain r)

pub read_part : Text → Text × Text
unfolding read
read_part = read plain

unreserved_plain : (b : ℕ) → is_unreserved b ≡ true → ((b == colon) ≡ false) × ((b == 37) ≡ false)
unfolding is_unreserved
unreserved_plain b h = ground arith

hex_value-hex_digit : (d : ℕ) → d < 16 → hex_value (hex_digit d) ≡ d
unfolding hex_value hex_digit
hex_value-hex_digit d h = ground arith

read-plain :
    (b : ℕ) (r : Text)
    → (b == colon) ≡ false
    → (b == 37) ≡ false
    → read plain (b ∷ r) ≡ add_first b (read plain r)
unfolding read
read-plain b r h k = rw (h, read, k)

read_escape :
    (d e : ℕ) (r : Text)
    → read plain (37 ∷ d ∷ e ∷ r) ≡ add_first (16 * hex_value d + hex_value e) (read plain r)
unfolding read
read_escape d e r = refl

read-encode_byte :
    (b : ℕ) (r : Text) → b < 256 → read plain (encode_byte b ++ r) ≡ add_first b (read plain r)
unfolding encode_byte
read-encode_byte b r h = elim (Bool-cases (is_unreserved b)) [
  | inl u ↦ let p = unreserved_plain b u in rw u (read-plain b r p.0 p.1)
  | inr u ↦
      let split : 16 * (b / 16) + b % 16 ≡ b = omega arith in
      rw (
        u,
        read_escape (hex_digit (b / 16)) (hex_digit (b % 16)) r,
        hex_value-hex_digit (b / 16) (omega arith),
        hex_value-hex_digit (b % 16) (omega arith),
        split,
      )
]

abbrev pub IsBytes : Text → Type 0
IsBytes t = All (λ b. b < 256) t

-- A text in front of a colon is read back; so is one at the end.
read-encode_uri_component :
    (t r : Text) → IsBytes t → read_part (encode_uri_component t ++ colon ∷ r) ≡ (t, r)
unfolding encode_uri_component read_part
read-encode_uri_component [] r h = refl
read-encode_uri_component (b ∷ t) r h =
    ap (read plain) (append_assoc (encode_byte b) (encode_uri_component t) (colon ∷ r))
    ∙ read-encode_byte b _ h.0
    ∙ ap (add_first b) (read-encode_uri_component t r h.1)

read-encode_uri_component_end :
    (t : Text) → IsBytes t → read_part (encode_uri_component t) ≡ (t, [])
unfolding encode_uri_component read_part
read-encode_uri_component_end [] h = refl
read-encode_uri_component_end (b ∷ t) h =
    read-encode_byte b _ h.0 ∙ ap (add_first b) (read-encode_uri_component_end t h.1)

read-type_label :
    (type : CooldownTarget) (r : Text)
    → read_part (type_label type ++ colon ∷ r) ≡ (type_label type, r)
unfolding read_part read type_label
read-type_label user r = refl
read-type_label guild r = refl
read-type_label channel r = refl
read-type_label global r = refl
read-type_label (custom f) r = refl

-- The parts of a key: the namespace, the label of the type, the target.
pub read_key : Text → Text × Text × Text
unfolding read_part
read_key t =
    let (namespace, rest) = read_part t in
    let (label, last) = read_part rest in (namespace, label, (read_part last).0)

abbrev target_part : CooldownTarget → Text → Text
target_part global target = type_label global
target_part _ target = target

read_key_parts :
    (namespace label last target : Text)
    → IsBytes namespace
    → read_part (label ++ colon ∷ last) ≡ (label, last)
    → read_part last ≡ (target, [])
    → read_key (encode_uri_component namespace ++ colon ∷ (label ++ colon ∷ last))
      ≡ (namespace, label, target)
unfolding read_key
read_key_parts namespace label last target h e f =
    rw (read-encode_uri_component namespace (label ++ colon ∷ last) h, e, f)

read_key-join_key :
    (namespace target : Text) (type : CooldownTarget)
    → IsBytes namespace
    → IsBytes target
    → read_key (join_key namespace type target)
      ≡ (namespace, type_label type, target_part type target)
unfolding join_key
read_key-join_key namespace target global h k =
    read_key_parts namespace _ _ _ h (read-type_label global _) read_global
  where
    read_global : read_part (type_label global) ≡ (type_label global, [])
    read_global = unfold read_part read type_label in refl
read_key-join_key namespace target type h k =
    read_key_parts namespace _ _ _ h (read-type_label type _)
      (read-encode_uri_component_end target k)

-- The key of a bucket determines its namespace, the label of its type (`custom` for every function)
-- and, unless it is global, its target: whenever `buildKey` of byte texts succeeds, these are read
-- back from the key.
pub read_key-build_key :
    (namespace target k : Text) (type : CooldownTarget)
    → IsBytes namespace
    → IsBytes target
    → build_key namespace type target ≡ key k
    → read_key k ≡ (namespace, type_label type, target_part type target)
unfolding build_key
read_key-build_key namespace target k type h b e =
    let made : join_key namespace type target ≡ k = ground arith in
    rw (← made) (read_key-join_key namespace target type h b)
