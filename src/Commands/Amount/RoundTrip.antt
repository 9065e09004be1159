-- ===== src/Commands/Amount/RoundTrip.antt =====
-- Reading the texts of amounts, for `parse_amount` and `format_amount` of src/commands.rs.
use solx.Common.{
  ℕ, zero, suc, ◌+◌, ◌-◌, ◌*◌, ◌/◌, ◌%◌, ◌^◌, ◌≤◌, ◌<◌, ◌≡◌, refl, sym, ◌∙◌, ap, inl, inr,
  append-nil, append_assoc, Bool-cases, length-append, true, false, ◌||◌, [], ◌∷◌, ◌++◌, some,
  Bytes, ascii, length, all, ltb, lt→ltb, ge→ltb, ok, if◌then◌else◌, arith,
}
use solx.Common.Eq.{◌==◌, nat_eq}
use solx.Common.Text.{is_nil, starts_with}
use solx.Commands.Amount.Digits.{
  value-digits, digits-all, length-digits, all-append, zeros-all, value-zeros, length-zeros,
  length-trim_zeros, trim_zeros-all, value-trim_zeros, split_dot-digits, split_dot-append,
  is_nil-append,
}
use solx.Common.Numbers.{is_digit, value}
use solx.Commands.Amount.{
  parse_u64, checked, parse_parts, parse_amount, digits, to_string, padded, zeros, trim_zeros,
  format_amount,
}
use native.Mathlib.Nat.{pow-suc, mod-lt, one-le-pow, div-add-mod'}

parse_u64_eq :
    (text : Bytes)
    → is_nil text ≡ false
    → value 0 text < 2 ^ 64
    → parse_u64 text ≡ ok (value 0 text)
unfolding parse_u64
parse_u64_eq text filled low = rw (filled, lt→ltb (value 0 text) (2 ^ 64) low)

fraction_eq :
    (text : Bytes)
    → value 0 text < 2 ^ 64
    → (if is_nil text then ok 0 else parse_u64 text) ≡ ok (value 0 text)
unfolding value
fraction_eq [] low = refl
fraction_eq (b ∷ text) low = parse_u64_eq (b ∷ text) refl low

checked_eq : (n : ℕ) → n < 2 ^ 64 → checked n ≡ some n
checked_eq n low = rw (lt→ltb n (2 ^ 64) low) refl

scale_small : (n k : ℕ) → n + k ≡ 19 → 10 ^ n ≤ 10 ^ 19
scale_small n zero e = let same : n ≡ 19 = omega arith in rw same (omega arith)
scale_small n (suc k) e = omega (arith, pow-suc 10 n, scale_small (suc n) k (omega arith))

factor_le : (a n : ℕ) → a ≤ a * 10 ^ n
factor_le a zero = omega arith
factor_le a (suc n) = rw (pow-suc 10 n) (omega (arith, factor_le a n))

parse_parts_eq :
    (whole fractional : Bytes) (decimals : ℕ)
    → is_nil whole ≡ false
    → all is_digit whole ≡ true
    → all is_digit fractional ≡ true
    → length fractional ≤ decimals
    → decimals ≤ 19
    → value 0 whole * 10 ^ decimals + value 0 fractional * 10 ^ (decimals - length fractional)
      < 2 ^ 64
    → parse_parts whole fractional decimals
      ≡ ok
          (value 0 whole * 10 ^ decimals + value 0 fractional * 10 ^ (decimals - length fractional))
unfolding parse_parts
parse_parts_eq whole fractional decimals filled hw hf short few low =
    let padding = decimals - length fractional in
    let units = factor_le (value 0 whole) decimals in
    let part = factor_le (value 0 fractional) padding in
    rw (
      parse_u64_eq whole filled (omega (arith, units)),
      fraction_eq fractional (omega (arith, part)),
      filled,
      hw,
      hf,
      ge→ltb decimals (length fractional) short,
      checked_eq (10 ^ decimals)
          (omega (arith, scale_small decimals (19 - decimals) (omega arith))),
      checked_eq (value 0 whole * 10 ^ decimals) (omega arith),
      checked_eq (value 0 fractional * 10 ^ padding) (omega arith),
      checked_eq (value 0 whole * 10 ^ decimals + value 0 fractional * 10 ^ padding) low,
    )

starts_digit :
    (whole rest : Bytes)
    → is_nil whole ≡ false
    → all is_digit whole ≡ true
    → (is_nil (whole ++ rest)
        || starts_with (whole ++ rest) (ascii "-")
        || starts_with (whole ++ rest) (ascii "+"))
      ≡ false
unfolding starts_with
starts_digit [] rest filled digit = cc
starts_digit (b ∷ whole) rest filled digit =
    let minus : (b == 45) ≡ false = ground (arith, digit) in
    let plus : (b == 43) ≡ false = ground (arith, digit) in rw (minus, plus)

parse_dotted :
    (whole fractional : Bytes) (decimals : ℕ)
    → is_nil whole ≡ false
    → all is_digit whole ≡ true
    → decimals ≤ 19
    → parse_amount (whole ++ 46 ∷ fractional) decimals ≡ parse_parts whole fractional decimals
unfolding parse_amount
parse_dotted whole fractional decimals filled digit few = rw (
  ge→ltb 19 decimals few,
  starts_digit whole (46 ∷ fractional) filled digit,
  split_dot-append whole fractional digit,
)

parse_whole :
    (whole : Bytes) (decimals : ℕ)
    → is_nil whole ≡ false
    → all is_digit whole ≡ true
    → decimals ≤ 19
    → parse_amount whole decimals ≡ parse_parts whole [] decimals
unfolding parse_amount
parse_whole whole decimals filled digit few =
    let start = rw (append-nil whole) at (starts_digit whole [] filled digit) in
    rw (ge→ltb 19 decimals few, start, split_dot-digits whole digit)

to_string-filled : (n : ℕ) → is_nil (to_string n) ≡ false
unfolding to_string digits
to_string-filled n = elim (Bool-cases (ltb n 10)) [
  | inl low ↦ rw low
  | inr high ↦ rw high (is_nil-append (digits 19 (n / 10)) (48 + n % 10))
]

to_string-all : (n : ℕ) → all is_digit (to_string n) ≡ true
unfolding to_string
to_string-all n = digits-all 20 n

value-to_string : (n : ℕ) → n < 2 ^ 64 → value 0 (to_string n) ≡ n
unfolding to_string
value-to_string n low = value-digits 20 n (omega arith)

module _ (width n : ℕ) (few : width ≤ 19) (pos : 0 < width) (low : n < 10 ^ width) where
  padded-all : all is_digit (padded width n) ≡ true
  unfolding padded
  padded-all =
      all-append (zeros (width - length (to_string n))) (to_string n)
        (zeros-all (width - length (to_string n))) (to_string-all n)

  value-padded : value 0 (padded width n) ≡ n
  unfolding padded
  value-padded =
      value-zeros (width - length (to_string n)) (to_string n)
      ∙ value-to_string n (omega (arith, low, scale_small width (19 - width) (omega (arith, few))))

  length-padded : length (padded width n) ≡ width
  unfolding padded to_string
  length-padded =
      let short = length-digits 20 width n pos low in
      rw
        (
          length-append (zeros (width - length (digits 20 n))) (digits 20 n),
          length-zeros (width - length (digits 20 n)),
        )
        (omega (arith, short))

is_nil-eq : (text : Bytes) → is_nil text ≡ true → text ≡ []
is_nil-eq [] h = refl
is_nil-eq (b ∷ text) h = cc

parse_parts_sum :
    (amount : ℕ) (whole fractional : Bytes) (decimals : ℕ)
    → is_nil whole ≡ false
    → all is_digit whole ≡ true
    → all is_digit fractional ≡ true
    → length fractional ≤ decimals
    → decimals ≤ 19
    → amount < 2 ^ 64
    → value 0 whole * 10 ^ decimals + value 0 fractional * 10 ^ (decimals - length fractional)
      ≡ amount
    → parse_parts whole fractional decimals ≡ ok amount
parse_parts_sum amount whole fractional decimals filled hw hf short few low sum =
    parse_parts_eq whole fractional decimals filled hw hf short few (omega (arith, sum, low))
    ∙ ap ok sum

module _ (amount decimals : ℕ) (low : amount < 2 ^ 64) (few : decimals ≤ 19)
    (pos : 0 < decimals) where
  abbrev fraction : Bytes
  fraction = padded decimals (amount % 10 ^ decimals)

  abbrev trimmed : Bytes
  trimmed = trim_zeros fraction

  part_low : amount % 10 ^ decimals < 10 ^ decimals
  part_low = mod-lt amount (omega (arith, one-le-pow decimals 10 (omega arith)))

  whole_low : amount / 10 ^ decimals < 2 ^ 64
  whole_low =
      omega (
        arith,
        low,
        div-add-mod' amount (10 ^ decimals),
        factor_le (amount / 10 ^ decimals) decimals,
      )

  length-trimmed : length trimmed ≤ decimals
  length-trimmed = omega (
    arith,
    length-trim_zeros fraction,
    length-padded decimals (amount % 10 ^ decimals) few pos part_low,
  )

  value-trimmed : value 0 trimmed * 10 ^ (decimals - length trimmed) ≡ amount % 10 ^ decimals
  value-trimmed =
      let full : length fraction ≡ decimals =
        length-padded decimals (amount % 10 ^ decimals) few pos part_low in
      ap (λ n. value 0 trimmed * 10 ^ (n - length trimmed)) (sym full)
      ∙ value-trim_zeros 0 fraction
      ∙ value-padded decimals (amount % 10 ^ decimals) few pos part_low

  parts-amount : parse_parts (to_string (amount / 10 ^ decimals)) trimmed decimals ≡ ok amount
  parts-amount =
      let units = value-to_string (amount / 10 ^ decimals) whole_low in
      parse_parts_sum amount (to_string (amount / 10 ^ decimals)) trimmed decimals
        (to_string-filled (amount / 10 ^ decimals)) (to_string-all (amount / 10 ^ decimals))
        (trim_zeros-all fraction (padded-all decimals (amount % 10 ^ decimals) few pos part_low))
        length-trimmed few low (rw (units, value-trimmed) (div-add-mod' amount (10 ^ decimals)))

  text_whole :
      is_nil trimmed ≡ true → format_amount amount decimals ≡ to_string (amount / 10 ^ decimals)
  unfolding format_amount
  text_whole none_left =
      let some_places : (decimals == 0) ≡ false = ground (arith, pos) in
      rw (ge→ltb 19 decimals few, some_places, none_left)

  text_parts :
      is_nil trimmed ≡ false
      → format_amount amount decimals ≡ to_string (amount / 10 ^ decimals) ++ 46 ∷ trimmed
  unfolding format_amount
  text_parts places =
      let some_places : (decimals == 0) ≡ false = ground (arith, pos) in
      rw (ge→ltb 19 decimals few, some_places, places)
        (append_assoc (to_string (amount / 10 ^ decimals)) (46 ∷ []) trimmed)

  fractional_amount : parse_amount (format_amount amount decimals) decimals ≡ ok amount
  fractional_amount = elim (Bool-cases (is_nil trimmed)) [
    | inl none_left ↦ rw (text_whole none_left) (
        parse_whole (to_string (amount / 10 ^ decimals)) decimals
          (to_string-filled (amount / 10 ^ decimals)) (to_string-all (amount / 10 ^ decimals)) few
        ∙ ap (λ t. parse_parts (to_string (amount / 10 ^ decimals)) t decimals)
            (sym (is_nil-eq trimmed none_left))
        ∙ parts-amount)
    | inr places ↦ rw (text_parts places) (
        parse_dotted (to_string (amount / 10 ^ decimals)) trimmed decimals
          (to_string-filled (amount / 10 ^ decimals)) (to_string-all (amount / 10 ^ decimals)) few
        ∙ parts-amount)
  ]

no_fraction : (amount : ℕ) → amount * 10 ^ 0 + value 0 [] * 10 ^ (0 - 0) ≡ amount
unfolding value
no_fraction amount = omega arith

whole_amount : (amount : ℕ) → amount < 2 ^ 64 → parse_amount (format_amount amount 0) 0 ≡ ok amount
unfolding format_amount
whole_amount amount low =
    parse_whole (to_string amount) 0 (to_string-filled amount) (to_string-all amount) (omega arith)
    ∙ parse_parts_sum amount (to_string amount) [] 0 (to_string-filled amount)
        (to_string-all amount) refl (omega arith) (omega arith) low
        (rw (value-to_string amount low) (no_fraction amount))

-- For at most 19 decimals, every u64 amount is read back from its text.
pub parse_amount-format_amount :
    (amount decimals : ℕ)
    → amount < 2 ^ 64
    → decimals ≤ 19
    → parse_amount (format_amount amount decimals) decimals ≡ ok amount
parse_amount-format_amount amount zero low few = whole_amount amount low
parse_amount-format_amount amount (suc decimals) low few =
    fractional_amount amount (suc decimals) low few (omega arith)
