-- ===== src/Common/Numbers.antt =====
-- `str::parse` of an unsigned integer of 64 bits.
use Prim.Native.Nat.{ℕ, ◌+◌, ◌-◌, ◌*◌, ◌^◌}
use mathlib.Core.Bool.{Bool, not, ◌&&◌, ◌||◌}
use mathlib.Core.List.{[], ◌∷◌}
use solx.Common.Tests.{leb, ltb, ◌==◌, if◌then◌else◌}
use solx.Common.Lists.{all}
use solx.Common.Words.{Bytes}
use solx.Common.Text.{is_nil}
use solx.Common.Fallible.{Result, ok, ◌>>◌, fail_if}

-- `is_ascii_digit`
abbrev pub is_digit : ℕ → Bool
is_digit b = leb 48 b && leb b 57

-- The number that digits write, after the digits before.
unfoldable pub value : ℕ → Bytes → ℕ
value before [] = before
value before (b ∷ text) = value (before * 10 + (b - 48)) text

abbrev pub without_plus : Bytes → Bytes
without_plus [] = []
without_plus (b ∷ text) = if b == 43 then text else b ∷ text

unfoldable pub parse_unsigned : Bytes → Result ℕ
unfolding value
parse_unsigned input = do
  let digits = without_plus input
  fail_if (is_nil digits || not (all is_digit digits)) "invalid digit found in string"
  fail_if (not (ltb (value 0 digits) (2 ^ 64))) "number too large to fit in target type"
  ok (value 0 digits)
