-- ===== src/App/Input/Blocks.antt =====
-- `read_bounded_line` of src/main.rs does not depend on how the input is cut into blocks.
use solx.Common.{
  ℕ, ◌+◌, ◌≤◌, ◌≡◌, refl, sym, ap, ◌∙◌, ◌⊎◌, inl, inr, Bool, true, false, not, Bool-cases, List, [],
  ◌∷◌, ◌++◌, append-nil, append_assoc, map, Bytes, length, length-append, length-take, take, All,
  Option, none, some, Result, ok, ◌>>=◌, ◌>>◌, fail_if, map_err, ltb, leb, if◌then◌else◌, arith,
}
use mathlib.Core.Path.{subst}
use solx.Common.Eq.{nat_eq, option_eq}
use solx.Common.Text.{is_nil}
use solx.Common.Utf8.{from_utf8}
use solx.App.Input.Lines.{
  joined, first_line, after_line, has_end, take_all, line_end-le, line_end-pos, line_end-whole,
  complete_lem, first_line-append_end, after_line-append_end, first_line-append, after_line-append,
  true-ne-false,
}
use solx.App.Input.{
  max_line, Reading, nothing_read, line_end, read_block, read_loop, finish, read_bounded_line,
}

-- The line that the bytes of an input begin with.
unfoldable pub line_of : Bytes → Result (Option Bytes)
line_of line = if is_nil line then ok none else (do
  fail_if (ltb max_line (length line)) "command line exceeds 4096 bytes"
  text ← map_err (from_utf8 line) "command line is not UTF-8"
  ok (some text))

abbrev pub IsBlock : Bytes → Type 0
IsBlock block = is_nil block ≡ false

-- The reading after these bytes of a line.
record Follows (line : Bytes) (r : Reading) : Type 0 where
  seen : r.seen ≡ not (is_nil line)
  oversized : r.oversized ≡ ltb max_line (length line)
  bytes : (r.oversized ≡ true) ⊎ (r.bytes ≡ line)

finish_at :
    (line bytes : Bytes) (seen oversized : Bool)
    → seen ≡ not (is_nil line)
    → oversized ≡ ltb max_line (length line)
    → (oversized ≡ true) ⊎ (bytes ≡ line)
    → finish (record { bytes = bytes; seen = seen; oversized = oversized }) ≡ line_of line
unfolding finish line_of
finish_at [] bytes true oversized e o same = absurd (true-ne-false e)
finish_at [] bytes false oversized e o same = refl
finish_at (b ∷ line) bytes false oversized e o same = absurd (true-ne-false (sym e))
finish_at (b ∷ line) bytes true true e o same = rw (sym o)
finish_at (b ∷ line) bytes true false e o (inl over) = absurd (true-ne-false (sym over))
finish_at (b ∷ line) bytes true false e o (inr same) = rw (sym o, same)

finish-line_of : (line : Bytes) (r : Reading) → Follows line r → finish r ≡ line_of line
finish-line_of line r follows =
    finish_at line r.bytes r.seen r.oversized follows.seen follows.oversized follows.bytes

is_nil-of_length : (xs : Bytes) → 1 ≤ length xs → true ≡ not (is_nil xs)
is_nil-of_length [] h = absurd (omega (arith, h))
is_nil-of_length (x ∷ xs) h = refl

length-first :
    (line block : Bytes) → length (line ++ first_line block) ≡ length line + line_end block
length-first line block =
    length-append line (first_line block)
    ∙ omega (arith, length-take (line_end block) block, line_end-le block)

block-pos : (block : Bytes) → IsBlock block → 1 ≤ line_end block
block-pos [] e = absurd (true-ne-false e)
block-pos (c ∷ block) e = line_end-pos c block

over_more : (m n k : ℕ) → true ≡ ltb m n → n ≤ k → true ≡ ltb m k
over_more m n k e h = ground arith

over_exact : (m n k : ℕ) → n ≡ k → not (leb n m) ≡ ltb m k
over_exact m n k e = ground arith

kept :
    (line block bytes : Bytes) (fits : Bool)
    → bytes ≡ line
    → (not fits ≡ true)
      ⊎ ((if fits then bytes ++ first_line block else bytes) ≡ line ++ first_line block)
kept line block bytes true same = inr (ap (λ b. b ++ first_line block) same)
kept line block bytes false same = inl refl

read_at :
    (line block bytes : Bytes) (seen oversized : Bool)
    → IsBlock block
    → oversized ≡ ltb max_line (length line)
    → (oversized ≡ true) ⊎ (bytes ≡ line)
    → Follows
        (line ++ first_line block)
        (read_block (record { bytes = bytes; seen = seen; oversized = oversized }) block)
unfolding read_block
read_at line block bytes seen true some_left o same = record {
  seen =
      is_nil-of_length (line ++ first_line block)
        (omega (arith, length-first line block, block-pos block some_left));
  oversized = over_more max_line (length line) _ o (omega (arith, length-first line block));
  bytes = inl refl;
}
read_at line block bytes seen false some_left o (inl over) = absurd (true-ne-false (sym over))
read_at line block bytes seen false some_left o (inr same) = record {
  seen =
      is_nil-of_length (line ++ first_line block)
        (omega (arith, length-first line block, block-pos block some_left));
  oversized =
      over_exact max_line (length bytes + line_end block) _
        (ap (λ b. length b + line_end block) same ∙ sym (length-first line block));
  bytes = kept line block bytes (leb (length bytes + line_end block) max_line) same;
}

-- The loop on blocks that are read without an error.
loop_lem :
    (blocks : List Bytes) (line : Bytes) (r : Reading)
    → All IsBlock blocks
    → Follows line r
    → (last : Reading) × (rest : List Bytes) × (read_loop (map ok blocks) r
        ≡ (ok last, map ok rest))
      × Follows (line ++ first_line (joined blocks)) last
      × (joined rest ≡ after_line (joined blocks))
unfolding read_loop
loop_lem [] line r valid follows =
    (r, [], refl, subst (λ l. Follows l r) (sym (append-nil line)) follows, refl)
loop_lem (block ∷ blocks) line r (some_left, valid) follows =
    let next =
      read_at line block r.bytes r.seen r.oversized some_left follows.oversized follows.bytes in
    elim (Bool-cases (has_end block)) [
      | inl ends ↦ (
        read_block r block,
        after_line block ∷ blocks,
        rw (some_left, complete_lem block, ends),
        subst (λ l. Follows (line ++ l) (read_block r block))
            (sym (first_line-append_end block (joined blocks) ends)) next,
        sym (after_line-append_end block (joined blocks) ends),
      )
      | inr further ↦
          let whole : first_line block ≡ block =
            ap (λ n. take n block) (line_end-whole block further) ∙ take_all block in
          let (last, rest, ran, follows_last, left) =
            loop_lem blocks (line ++ first_line block) (read_block r block) valid next in
          (
            last,
            rest,
            rw (some_left, complete_lem block, further) ran,
            subst (λ l. Follows l last)
                (append_assoc line (first_line block) (first_line (joined blocks))
                  ∙ ap (λ l. line ++ l)
                      (ap (λ b. b ++ first_line (joined blocks)) whole
                        ∙ sym (first_line-append block (joined blocks) further)))
                follows_last,
            left ∙ sym (after_line-append block (joined blocks) further),
          )
    ]

-- What is read from blocks that are not empty, and the bytes that are left, depend on the input only:
-- the line is what stands up to the first line end, or all of the input; an empty input has none, and a
-- line of more than 4096 bytes or that is not UTF-8 is an error, of which nothing is left behind.
pub read_bounded_line-line_of :
    (blocks : List Bytes)
    → All IsBlock blocks
    → (rest : List Bytes) × (read_bounded_line (map ok blocks)
        ≡ (line_of (first_line (joined blocks)), map ok rest))
      × (joined rest ≡ after_line (joined blocks))
unfolding read_bounded_line
read_bounded_line-line_of blocks valid =
    let (last, rest, ran, follows, left) =
      loop_lem blocks [] nothing_read valid
        (record { seen = refl; oversized = refl; bytes = inr refl }) in
    (
      rest,
      rw ran
          (ap (λ l. (l, map ok rest)) (finish-line_of (first_line (joined blocks)) last follows)),
      left,
    )
