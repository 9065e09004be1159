-- ===== src/Common/Utf8.antt =====
-- `std::str::from_utf8`: which byte strings are UTF-8.
use Prim.Native.Nat.{ℕ, zero, suc}
use mathlib.Core.Path.{◌≡◌, refl}
use mathlib.Core.List.{[], ◌∷◌}
use mathlib.Core.Bool.{Bool, true, false, ◌&&◌}
use native.Mathlib.Omega.{arith}
use solx.Common.Tests.{leb, ltb, if◌then◌else◌}
use solx.Common.Lists.{All}
use solx.Common.Words.{Bytes}
use solx.Common.Fallible.{Result, ok, err}

-- What must follow: `more n lo hi` is n + 1 further bytes, the first of them between `lo` and `hi`,
-- the others between 0x80 and 0xbf.
pub data Expect : Type 0 where
  start bad : Expect
  more : ℕ → ℕ → ℕ → Expect

abbrev in_range : ℕ → ℕ → ℕ → Bool
in_range lo hi b = leb lo b && leb b hi

-- The first byte of a character: no overlong form, no surrogate, at most U+10FFFF.
unfoldable pub first_byte : ℕ → Expect
first_byte b =
    if ltb b 128
    then start
    else (if in_range 0xc2 0xdf b
        then more 0 0x80 0xbf
        else (if in_range 0xe0 0xe0 b
            then more 1 0xa0 0xbf
            else (if in_range 0xed 0xed b
                then more 1 0x80 0x9f
                else (if in_range 0xe1 0xef b
                    then more 1 0x80 0xbf
                    else (if in_range 0xf0 0xf0 b
                        then more 2 0x90 0xbf
                        else (if in_range 0xf1 0xf3 b
                            then more 2 0x80 0xbf
                            else (if in_range 0xf4 0xf4 b then more 2 0x80 0x8f else bad)))))))

unfoldable pub next_byte : Expect → ℕ → Expect
unfolding first_byte
next_byte start b = first_byte b
next_byte bad b = bad
next_byte (more zero lo hi) b = if in_range lo hi b then start else bad
next_byte (more (suc n) lo hi) b = if in_range lo hi b then more n 0x80 0xbf else bad

unfoldable pub complete : Expect → Bytes → Bool
unfolding next_byte
complete start [] = true
complete bad [] = false
complete (more n lo hi) [] = false
complete e (b ∷ bytes) = complete (next_byte e b) bytes

unfoldable pub from_utf8 : Bytes → Result Bytes
unfolding complete
from_utf8 bytes = if complete start bytes then ok bytes else err "invalid utf-8"

complete-ascii : (bytes : Bytes) → All (λ b. ltb b 128 ≡ true) bytes → complete start bytes ≡ true
unfolding complete next_byte first_byte
complete-ascii [] h = refl
complete-ascii (b ∷ bytes) h = rw h.0 (complete-ascii bytes h.1)

-- ASCII text is UTF-8.
pub from_utf8-ascii :
    (bytes : Bytes) → All (λ b. ltb b 128 ≡ true) bytes → from_utf8 bytes ≡ ok bytes
unfolding from_utf8
from_utf8-ascii bytes h = rw (complete-ascii bytes h)

pub from_utf8-ok : (bytes : Bytes) {text : Bytes} → from_utf8 bytes ≡ ok text → text ≡ bytes
unfolding from_utf8
from_utf8-ok bytes e = ground arith
