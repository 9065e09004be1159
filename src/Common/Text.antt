-- ===== src/Common/Text.antt =====
-- The methods of `str` that the source calls, on the bytes of a text.
use Prim.Native.Nat.{ℕ, zero, suc, ◌-◌}
use mathlib.Core.Bool.{Bool, true, false, not, ◌&&◌, ◌||◌}
use mathlib.Core.Option.{Option, none, some}
use mathlib.Core.List.{List, [], ◌∷◌, ◌++◌}
use solx.Common.Tests.{leb, if◌then◌else◌}
use solx.Common.Lists.{drop}
use solx.Common.Words.{Bytes, ascii}
use solx.Common.Eq.{◌==◌, nat_eq, list_eq}

unfoldable pub starts_with : Bytes → Bytes → Bool
starts_with text [] = true
starts_with [] (p ∷ pattern) = false
starts_with (b ∷ text) (p ∷ pattern) = (b == p) && starts_with text pattern

unfoldable pub contains : Bytes → Bytes → Bool
unfolding starts_with
contains [] pattern = starts_with [] pattern
contains (b ∷ text) pattern = starts_with (b ∷ text) pattern || contains text pattern

abbrev between : ℕ → ℕ → ℕ → Bool
between lo hi b = leb lo b && leb b hi

abbrev pub is_nil : Bytes → Bool
is_nil [] = true
is_nil (b ∷ text) = false

-- `trim_end_matches(['\r', '\n'])`
unfoldable pub trim_line_end : Bytes → Bytes
trim_line_end [] = []
trim_line_end (b ∷ text) =
    let rest = trim_line_end text in if is_nil rest && (b == 10 || b == 13) then [] else b ∷ rest

-- The number of bytes of the white space character at the start of a text, 0 where there is none.
unfoldable pub white_space : Bytes → ℕ
white_space [] = 0
white_space (b ∷ []) = if between 9 13 b || b == 32 then 1 else 0
white_space (b ∷ c ∷ []) =
    if between 9 13 b || b == 32
    then 1
    else (if b == 0xc2 && (c == 0x85 || c == 0xa0) then 2 else 0)
white_space (b ∷ c ∷ d ∷ text) =
    if between 9 13 b || b == 32
    then 1
    else (if b == 0xc2 && (c == 0x85 || c == 0xa0)
        then 2
        else (if (b == 0xe1 && c == 0x9a && d == 0x80)
              || (b == 0xe2
                  && c == 0x80
                  && (between 0x80 0x8a d || d == 0xa8 || d == 0xa9 || d == 0xaf))
              || (b == 0xe2 && c == 0x81 && d == 0x9f)
              || (b == 0xe3 && c == 0x80 && d == 0x80)
            then 3
            else 0))

-- `trim_start`; the number is that of the bytes left of the white space before.
unfoldable pub trim_start : ℕ → Bytes → Bytes
unfolding white_space
trim_start n [] = []
trim_start (suc n) (b ∷ text) = trim_start n text
trim_start zero (b ∷ text) =
    let size = white_space (b ∷ text) in
    let rest = trim_start (size - 1) text in if size == 0 then b ∷ text else rest

-- `trim_end`; the number is that of the bytes left of the white space before.
unfoldable pub trim_end : ℕ → Bytes → Bytes
unfolding white_space
trim_end n [] = []
trim_end (suc n) (b ∷ text) = let rest = trim_end n text in if is_nil rest then [] else b ∷ rest
trim_end zero (b ∷ text) =
    let size = white_space (b ∷ text) in
    let rest = trim_end (size - 1) text in if is_nil rest && not (size == 0) then [] else b ∷ rest

-- `trim`
unfoldable pub trim : Bytes → Bytes
unfolding trim_start trim_end
trim text = trim_end 0 (trim_start 0 text)

-- The text up to the first white space.
unfoldable pub word : Bytes → Bytes
unfolding white_space
word [] = []
word (b ∷ text) = let rest = word text in if white_space (b ∷ text) == 0 then b ∷ rest else []

-- `trim().is_empty()`
unfoldable pub is_blank : Bytes → Bool
unfolding trim_start
is_blank text = is_nil (trim_start 0 text)

-- `split_whitespace().next()`
unfoldable pub first_word : Bytes → Option Bytes
unfolding trim_start word
first_word text = let rest = trim_start 0 text in if is_nil rest then none else some (word rest)

-- `strip_prefix("--")`
unfoldable pub strip_dashes : Bytes → Option Bytes
unfolding starts_with
strip_dashes text = if starts_with text (ascii "--") then some (drop 2 text) else none

abbrev pub add_word : Bytes → List Bytes → List Bytes
add_word [] words = words
add_word (b ∷ text) words = (b ∷ text) ∷ words

-- `split_whitespace()`, with the bytes left of a white space and the word read before.
unfoldable pub words_from : ℕ → Bytes → Bytes → List Bytes
unfolding white_space
words_from skip before [] = add_word before []
words_from (suc skip) before (b ∷ text) = words_from skip before text
words_from zero before (b ∷ text) =
    let size = white_space (b ∷ text) in
    let more = words_from (size - 1) (if size == 0 then before ++ b ∷ [] else []) text in
    if size == 0 then more else add_word before more

unfoldable pub split_whitespace : Bytes → List Bytes
unfolding words_from
split_whitespace text = words_from 0 [] text
