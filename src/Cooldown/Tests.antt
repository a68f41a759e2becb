-- ===== src/Cooldown/Tests.antt =====
-- The cooldown models at concrete inputs, over a cache that is a function.
use extra.Prelude.{
  ℕ, ◌+◌, ◌≤◌, ◌≡◌, ◌≢◌, ◌↔◌, refl, ap, ◌∙◌, true, false, Option, none, some, [], ◌∷◌, arith,
}
use mathlib.Core.Logic.{ite, if_pos, if_neg}
use mathlib.Core.Option
use extra.Cooldown.Numbers.{nat}
use extra.Cooldown.Resource.{CooldownData, CooldownPatch, Key, Key-discrete, Cache, merge}
use extra.Cooldown.Bucket.{consume_stored_bucket, check_bucket, reset_bucket}
use extra.Cooldown.Bucket.Allowance.{
  check_bucket-consume_stored_bucket, consume_stored_bucket_retry, HasLeft, spend, spend-HasLeft,
  reset_bucket-spend,
}
use extra.Cooldown.Key.{
  Text, user, build_key, key, join_key, encode_uri_component, encode_byte, is_unreserved, hex_digit,
  type_label, is_blank,
}
use extra.Cooldown.Key.Reading.{read_key, read_key-build_key}

abbrev pub write :
    Key → Option CooldownData → (Key → Option CooldownData) → Key → Option CooldownData
write k o s j = ite (Key-discrete k j) o (s j)

pub write_self :
    (k : Key) (o : Option CooldownData) (s : Key → Option CooldownData) → write k o s k ≡ o
write_self k o s = if_pos (Key-discrete k k) refl _ _

pub write_ne :
    (k j : Key) (o : Option CooldownData) (s : Key → Option CooldownData)
    → k ≢ j
    → write k o s j ≡ s j
write_ne k j o s n = if_neg (Key-discrete k j) n _ _

pub write_patched :
    (k : Key) (p : CooldownPatch) (s : Key → Option CooldownData) (d : CooldownData)
    → s k ≡ some d
    → write k (Option.map (merge p) (s k)) s k ≡ some (merge p d)
write_patched k p s d e = write_self k (Option.map (merge p) (s k)) s ∙ ap (Option.map (merge p)) e

-- A cache kept as a function from keys.
abbrev pub function_cache : Cache
function_cache = record {
  Store = Key → Option CooldownData;
  get = λ k s. s k;
  put = λ k d s. write k (some d) s;
  patch = λ k p s. write k (Option.map (merge p) (s k)) s;
  remove = λ k s. write k none s;
  get-put = λ k d s. write_self k (some d) s;
  get-patch = write_patched;
  get-remove = λ k s. write_self k none s;
  get-put_ne = λ k j d s n. write_ne k j (some d) s n;
  get-patch_ne = λ k j p s n. write_ne k j (Option.map (merge p) (s k)) s n;
  get-remove_ne = λ k j s n. write_ne k j none s n;
}

abbrev pub ping : Key
ping = 112 ∷ []

-- Two uses are left of three, since time 10.
abbrev pub filled : CooldownData
filled = record { remaining = nat 2; interval = 100; last_drip = nat 10 }

abbrev pub one_bucket : Key → Option CooldownData
one_bucket j = some filled

check_bucket-consume_stored_bucket_example :
    (consume_stored_bucket function_cache ping 3 100 2 40 one_bucket).1
    ≡ check_bucket function_cache ping 3 100 2 40 one_bucket
check_bucket-consume_stored_bucket_example =
    check_bucket-consume_stored_bucket function_cache ping 3 100 2 40 one_bucket

three_refused : (consume_stored_bucket function_cache ping 3 100 3 40 one_bucket).1.allowed ≡ false
unfolding consume_stored_bucket
three_refused = refl

consume_stored_bucket_retry_example :
    (let (s', refusal) = consume_stored_bucket function_cache ping 3 100 3 40 one_bucket in
      (s' ≡ one_bucket)
      × (((consume_stored_bucket function_cache ping 3 100 3 110 s').1.allowed ≡ true)
          ↔ (refusal.retry_after ≤ 110)))
consume_stored_bucket_retry_example =
    consume_stored_bucket_retry function_cache ping 3 100 3 40 110 (omega arith) one_bucket
      three_refused

spend-HasLeft_example :
    (let (s', granted) =
        spend function_cache ping 3 100 ((1, 20) ∷ (2, 30) ∷ (1, 99) ∷ []) one_bucket in
      (left' : ℕ) × (left' + granted ≡ 2) × HasLeft function_cache ping 10 left' s')
spend-HasLeft_example =
    spend-HasLeft function_cache ping 3 100 10 2 ((1, 20) ∷ (2, 30) ∷ (1, 99) ∷ []) one_bucket
      (omega arith) (omega arith) (omega arith)
      ((omega arith, omega arith), ((omega arith, omega arith), ((omega arith, omega arith), tt)))
      (filled, refl, refl, refl)

reset_bucket-spend_example :
    (let (s', granted) =
        spend function_cache ping 3 100
          ((1, 20) ∷ (3, 30) ∷ (2, 99) ∷ [])
          (reset_bucket function_cache ping one_bucket).0 in
      (left : ℕ) × (left + granted ≡ 3) × HasLeft function_cache ping 20 left s')
reset_bucket-spend_example =
    reset_bucket-spend function_cache ping 3 100 1 20 ((3, 30) ∷ (2, 99) ∷ []) one_bucket
      (omega arith) (omega arith) (omega arith)
      ((omega arith, omega arith), ((omega arith, omega arith), tt))

-- "a b" for the user "u:1".
abbrev a_b : Text
a_b = 97 ∷ 32 ∷ 98 ∷ []

abbrev pub u_1 : Text
u_1 = 117 ∷ 58 ∷ 49 ∷ []

abbrev a_b_key : Text
a_b_key = 97 ∷ 37 ∷ 50 ∷ 48 ∷ 98 ∷ 58 ∷ 117 ∷ 115 ∷ 101 ∷ 114 ∷ 58 ∷ 117 ∷ 37 ∷ 51 ∷ 65 ∷ 49 ∷ []

a_b_built : build_key a_b user u_1 ≡ key a_b_key
unfolding build_key join_key encode_uri_component encode_byte is_unreserved hex_digit type_label
    is_blank
a_b_built = refl

read_key-build_key_example : read_key a_b_key ≡ (a_b, type_label user, u_1)
read_key-build_key_example =
    read_key-build_key a_b u_1 a_b_key user (omega arith) (omega arith) a_b_built
