-- ===== src/Commands/Amount.antt =====
-- `parse_amount` and `format_amount` of src/commands.rs, with the decimal text of an integer.
pub mod Digits
pub mod RoundTrip
use solx.Common.{
  ℕ, zero, suc, ◌+◌, ◌-◌, ◌*◌, ◌/◌, ◌%◌, ◌^◌, ◌≤◌, ◌<◌, ◌≡◌, refl, Bool, true, false, not, ◌&&◌,
  ◌||◌, List, [], ◌∷◌, ◌++◌, Option, none, some, Bytes, ascii, length, all, ltb, leb, Result, ok,
  err, ◌>>=◌, ◌>>◌, fail_if, ok_or, if◌then◌else◌, String, arith,
}
use solx.Common.Eq.{◌==◌, nat_eq}
use solx.Common.Numbers.{is_digit, value}
use solx.Common.Text.{starts_with, is_nil}

-- `parse::<u64>()` of a text of digits
unfoldable pub parse_u64 : Bytes → Result ℕ
unfolding value
parse_u64 text = do
  fail_if (is_nil text) "cannot parse integer from empty string"
  fail_if (not (ltb (value 0 text) (2 ^ 64))) "number too large to fit in target type"
  ok (value 0 text)

-- `checked_mul`, `checked_add` and `checked_pow` of u64
abbrev pub checked : ℕ → Option ℕ
checked n = if ltb n (2 ^ 64) then some n else none

-- `split_once('.')`, where the text after is empty if there is no dot
unfoldable pub split_dot : Bytes → Bytes × Bytes
split_dot [] = ([], [])
split_dot (b ∷ text) =
    let (whole, fractional) = split_dot text in
    if b == 46 then ([], text) else (b ∷ whole, fractional)

unfoldable pub parse_parts : Bytes → Bytes → ℕ → Result ℕ
unfolding parse_u64
parse_parts whole fractional decimals = do
  fail_if
      (is_nil whole
        || not (all is_digit whole)
        || not (all is_digit fractional)
        || ltb decimals (length fractional))
      "invalid amount or too many decimal places"
  scale ← ok_or (checked (10 ^ decimals)) "amount precision overflow"
  units ← parse_u64 whole
  fraction ← if is_nil fractional then ok 0 else parse_u64 fractional
  high ← ok_or (checked (units * scale)) "amount overflow"
  low ← ok_or (checked (fraction * 10 ^ (decimals - length fractional))) "amount overflow"
  ok_or (checked (high + low)) "amount overflow"

unfoldable pub parse_amount : Bytes → ℕ → Result ℕ
unfolding split_dot parse_parts
parse_amount input decimals = do
  fail_if (ltb 19 decimals) "token precision exceeds u64 decimal range"
  fail_if (is_nil input || starts_with input (ascii "-") || starts_with input (ascii "+"))
      "invalid amount"
  parse_parts (split_dot input).0 (split_dot input).1 decimals

-- The decimal digits of a number, at most as many as the first argument says.
unfoldable pub digits : ℕ → ℕ → Bytes
digits zero n = []
digits (suc most) n =
    let before = digits most (n / 10) in
    if ltb n 10 then (48 + n) ∷ [] else before ++ (48 + n % 10) ∷ []

-- `to_string()` of a u64, which has at most 20 digits
unfoldable pub to_string : ℕ → Bytes
unfolding digits
to_string n = digits 20 n

abbrev pub zeros : ℕ → Bytes
zeros zero = []
zeros (suc n) = 48 ∷ zeros n

-- `{:0width$}`
unfoldable pub padded : ℕ → ℕ → Bytes
unfolding to_string
padded width n = zeros (width - length (to_string n)) ++ to_string n

-- `trim_end_matches('0')`
unfoldable pub trim_zeros : Bytes → Bytes
trim_zeros [] = []
trim_zeros (b ∷ text) =
    let rest = trim_zeros text in if is_nil rest && b == 48 then [] else b ∷ rest

unfoldable pub format_amount : ℕ → ℕ → Bytes
unfolding to_string padded trim_zeros
format_amount amount decimals =
    let scale = 10 ^ decimals in
    let trimmed = trim_zeros (padded decimals (amount % scale)) in
    if ltb 19 decimals
    then to_string amount ++ ascii " base units (decimals " ++ to_string decimals ++ ascii ")"
    else (if decimals == 0
        then to_string amount
        else (if is_nil trimmed
            then to_string (amount / scale)
            else to_string (amount / scale) ++ ascii "." ++ trimmed))
