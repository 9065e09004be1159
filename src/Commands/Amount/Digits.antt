-- ===== src/Commands/Amount/Digits.antt =====
-- The digits of a number, and the number that digits write.
use solx.Common.{
  ℕ, zero, suc, ◌+◌, ◌-◌, ◌*◌, ◌/◌, ◌%◌, ◌^◌, ◌≤◌, ◌<◌, ◌≡◌, refl, ap, ◌⊎◌, inl, inr, true, false,
  ◌&&◌, [], ◌∷◌, ◌++◌, Bytes, length, length-append, all, ltb, if◌then◌else◌, arith, Bool-cases,
}
use solx.Common.Eq.{◌==◌, nat_eq, beq-cases}
use solx.Common.Text.{is_nil}
use solx.Common.Numbers.{is_digit, value}
use solx.Commands.Amount.{digits, zeros, trim_zeros, split_dot}
use native.Mathlib.Nat.{pow-suc}

value-append : (before : ℕ) (xs ys : Bytes) → value before (xs ++ ys) ≡ value (value before xs) ys
unfolding value
value-append before [] ys = refl
value-append before (x ∷ xs) ys = value-append (before * 10 + (x - 48)) xs ys

pub value-digits : (most n : ℕ) → n < 10 ^ most → value 0 (digits most n) ≡ n
unfolding digits value
value-digits zero n h = omega arith
value-digits (suc most) n h = elim (Bool-cases (ltb n 10)) [
  | inl low ↦ rw low (omega arith)
  | inr high ↦
      let small : n / 10 < 10 ^ most = omega (arith, pow-suc 10 most) in
      rw
        (
          high,
          value-append 0 (digits most (n / 10)) ((48 + n % 10) ∷ []),
          value-digits most (n / 10) small,
        )
        (omega arith)
]

pub all-append :
    (xs ys : Bytes)
    → all is_digit xs ≡ true
    → all is_digit ys ≡ true
    → all is_digit (xs ++ ys) ≡ true
all-append [] ys hx hy = hy
all-append (x ∷ xs) ys hx hy =
    let tail = all-append xs ys (ground (arith, hx)) hy in ground (arith, hx, tail)

low_digit : (n : ℕ) → n < 10 → is_digit (48 + n) ≡ true
low_digit n h = ground arith

pub digits-all : (most n : ℕ) → all is_digit (digits most n) ≡ true
unfolding digits
digits-all zero n = refl
digits-all (suc most) n = elim (Bool-cases (ltb n 10)) [
  | inl low ↦ rw low (rw (low_digit n (ground (arith, low))) refl)
  | inr high ↦ rw high (
      all-append (digits most (n / 10)) ((48 + n % 10) ∷ []) (digits-all most (n / 10))
        (rw (low_digit (n % 10) (omega arith)) refl))
]

tens : (width n : ℕ) → n < 10 ^ suc width → ltb n 10 ≡ false → 0 < width
tens zero n h high = absurd (ground (arith, h, high))
tens (suc width) n h high = omega arith

pub length-digits : (most width n : ℕ) → 0 < width → n < 10 ^ width → length (digits most n) ≤ width
unfolding digits
length-digits zero width n pos h = omega arith
length-digits (suc most) zero n pos h = absurd (omega arith)
length-digits (suc most) (suc width) n pos h = elim (Bool-cases (ltb n 10)) [
  | inl low ↦ rw low (omega arith)
  | inr high ↦
      let wide : 0 < width = tens width n h high in
      let small : n / 10 < 10 ^ width = omega (arith, pow-suc 10 width) in
      let inner = length-digits most width (n / 10) wide small in
      rw (high, length-append (digits most (n / 10)) ((48 + n % 10) ∷ [])) (omega (arith, inner))
]

pub zeros-all : (n : ℕ) → all is_digit (zeros n) ≡ true
zeros-all zero = refl
zeros-all (suc n) = zeros-all n

pub value-zeros : (n : ℕ) (text : Bytes) → value 0 (zeros n ++ text) ≡ value 0 text
unfolding value
value-zeros zero text = refl
value-zeros (suc n) text = value-zeros n text

pub length-zeros : (n : ℕ) → length (zeros n) ≡ n
length-zeros zero = refl
length-zeros (suc n) = ap suc (length-zeros n)

trimmed-cases :
    (b : ℕ) (rest : Bytes)
    → (let trimmed = if is_nil rest && b == 48 then [] else b ∷ rest in
        ((b ≡ 48) × (rest ≡ []) × (trimmed ≡ [])) ⊎ (trimmed ≡ b ∷ rest))
trimmed-cases b [] = elim (beq-cases b 48) [
  | inl (same, equal) ↦ inl (same, refl, rw equal)
  | inr (differ, unequal) ↦ inr (rw unequal)
]
trimmed-cases b (x ∷ rest) = inr refl

trim_zeros-cases :
    (b : ℕ) (text : Bytes)
    → ((b ≡ 48) × (trim_zeros text ≡ []) × (trim_zeros (b ∷ text) ≡ []))
      ⊎ (trim_zeros (b ∷ text) ≡ b ∷ trim_zeros text)
unfolding trim_zeros
trim_zeros-cases b text = trimmed-cases b (trim_zeros text)

pub length-trim_zeros : (text : Bytes) → length (trim_zeros text) ≤ length text
unfolding trim_zeros
length-trim_zeros [] = omega arith
length-trim_zeros (b ∷ text) = elim (trim_zeros-cases b text) [
  | inl (zero_digit, none_left, e) ↦ rw e (omega arith)
  | inr e ↦ rw e (omega (arith, length-trim_zeros text))
]

pub trim_zeros-all :
    (text : Bytes) → all is_digit text ≡ true → all is_digit (trim_zeros text) ≡ true
unfolding trim_zeros
trim_zeros-all [] h = refl
trim_zeros-all (b ∷ text) h = elim (trim_zeros-cases b text) [
  | inl (zero_digit, none_left, e) ↦ rw e refl
  | inr e ↦ rw e (ground (arith, h, trim_zeros-all text (ground (arith, h))))
]

shifted : (before n : ℕ) → before * 10 ^ (suc n - 0) ≡ (before * 10 + (48 - 48)) * 10 ^ (n - 0)
shifted before n =
    let here : n - 0 ≡ n = omega arith in
    let next : suc n - 0 ≡ suc n = omega arith in rw (here, next, pow-suc 10 n) (omega arith)

trim_zeros_nil : trim_zeros [] ≡ []
unfolding trim_zeros
trim_zeros_nil = refl

pub value-trim_zeros :
    (before : ℕ) (text : Bytes)
    → value before (trim_zeros text) * 10 ^ (length text - length (trim_zeros text))
      ≡ value before text
unfolding value
value-trim_zeros before [] = rw trim_zeros_nil (omega arith)
value-trim_zeros before (b ∷ text) = elim (trim_zeros-cases b text) [
  | inl (zero_digit, none_left, e) ↦
      let inner : (before * 10 + (b - 48)) * 10 ^ (length text - 0)
          ≡ value (before * 10 + (b - 48)) text =
        rw none_left at (value-trim_zeros (before * 10 + (b - 48)) text) in
      rw (e, ← inner, zero_digit) (shifted before (length text))
  | inr e ↦
      let same : suc (length text) - suc (length (trim_zeros text))
          ≡ length text - length (trim_zeros text) =
        omega arith in
      rw (e, same) (value-trim_zeros (before * 10 + (b - 48)) text)
]

pub split_dot-digits : (text : Bytes) → all is_digit text ≡ true → split_dot text ≡ (text, [])
unfolding split_dot
split_dot-digits [] h = refl
split_dot-digits (b ∷ text) h =
    let other : (b == 46) ≡ false = ground (arith, h) in
    rw (other, split_dot-digits text (ground (arith, h)))

pub split_dot-append :
    (whole fractional : Bytes)
    → all is_digit whole ≡ true
    → split_dot (whole ++ 46 ∷ fractional) ≡ (whole, fractional)
unfolding split_dot
split_dot-append [] fractional h = refl
split_dot-append (b ∷ whole) fractional h =
    let other : (b == 46) ≡ false = ground (arith, h) in
    rw (other, split_dot-append whole fractional (ground (arith, h)))

pub is_nil-append : (text : Bytes) (b : ℕ) → is_nil (text ++ b ∷ []) ≡ false
is_nil-append [] b = refl
is_nil-append (x ∷ text) b = refl
