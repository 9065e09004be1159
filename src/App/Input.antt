-- ===== src/App/Input.antt =====
-- `read_bounded_line` of src/main.rs, on the blocks that `fill_buf` makes available one after the other.
pub mod Lines
pub mod Blocks
use solx.Common.{
  ℕ, zero, suc, ◌+◌, ◌-◌, ◌≡◌, Bool, true, false, not, ◌&&◌, ◌||◌, List, [], ◌∷◌, ◌++◌, Bytes,
  length, get_elem?, take, drop, Option, none, some, Result, ok, err, panicked, ◌>>=◌, ◌>>◌,
  fail_if, map_err, ltb, leb, if◌then◌else◌,
}
use solx.Common.Eq.{◌==◌, nat_eq, option_eq}
use solx.Common.Text.{is_nil}
use solx.Common.Utf8.{from_utf8}

abbrev pub max_line : ℕ
max_line = 4096

-- What is read of the line so far.
pub record Reading : Type 0 where
  pub bytes : Bytes
  pub seen : Bool
  pub oversized : Bool

abbrev pub nothing_read : Reading
nothing_read = record { bytes = []; seen = false; oversized = false }

-- The end of the first line of a block, or of the block.
unfoldable pub line_end : Bytes → ℕ
line_end [] = 0
line_end (b ∷ block) = let rest = line_end block in if b == 10 then 1 else suc rest

unfoldable pub is_complete : Bytes → Bool
unfolding line_end
is_complete block = get_elem? block (line_end block - 1) == some 10

unfoldable pub read_block : Reading → Bytes → Reading
unfolding line_end
read_block r block =
    let fits = leb (length r.bytes + line_end block) max_line in
    record {
      bytes = if not r.oversized && fits then r.bytes ++ take (line_end block) block else r.bytes;
      seen = true;
      oversized = r.oversized || not fits;
    }

-- The loop; it leaves the blocks behind the line.
unfoldable pub read_loop : List (Result Bytes) → Reading → Result Reading × List (Result Bytes)
unfolding is_complete read_block
read_loop [] r = (ok r, [])
read_loop (err message ∷ blocks) r = (err message, blocks)
read_loop (panicked ∷ blocks) r = (panicked, blocks)
read_loop (ok block ∷ blocks) r =
    let further = read_loop blocks (read_block r block) in
    if is_nil block
    then (ok r, blocks)
    else (if is_complete block
        then (ok (read_block r block), ok (drop (line_end block) block) ∷ blocks)
        else further)

unfoldable pub finish : Reading → Result (Option Bytes)
finish r = if not r.seen then ok none else (do
  fail_if r.oversized "command line exceeds 4096 bytes"
  text ← map_err (from_utf8 r.bytes) "command line is not UTF-8"
  ok (some text))

unfoldable pub read_bounded_line : List (Result Bytes) → Result (Option Bytes) × List (Result Bytes)
unfolding read_loop finish
read_bounded_line blocks = let (r, rest) = read_loop blocks nothing_read in (r >>= finish, rest)
