-- ===== src/LineEditor/Keys.antt =====
-- The escape sequences and the buffer of the edited line, in src/line_editor.rs.
use solx.Common.{
  ℕ, zero, suc, ◌+◌, ◌-◌, ◌≤◌, ◌≡◌, Bool, true, false, ◌&&◌, ◌||◌, List, [], ◌∷◌, ◌++◌, Option,
  none, some, Bytes, length, length-append, length-take, length-drop, take, drop, ltb, leb, Result,
  ok, panicked, ◌>>=◌, if◌then◌else◌, ◌↔◌, ◌<◌, ge→ltb, inl, inr, Bool-cases, arith,
}
use solx.Common.Eq.{◌==◌, nat_eq}

-- What the calls of `read` return, in order; after them, the end of the input.
abbrev pub Reads : Type 0
Reads = List (Result (Option ℕ))

abbrev pub read : Reads → Result (Option ℕ × Reads)
read [] = ok (none, [])
read (r ∷ reads) = do byte ← r; ok (byte, reads)

-- The key of a whole sequence: the arrows, and Delete as `X`.
unfoldable pub key_of : Bytes → Option ℕ
key_of (key ∷ []) = if leb 0x41 key && leb key 0x44 then some key else none
key_of (a ∷ b ∷ []) = if a == 0x33 && b == 0x7e then some 0x58 else none
key_of _ = none

-- The loop over the places left in `sequence`.
unfoldable pub escape_loop : ℕ → Bytes → Reads → Result (Option ℕ × Reads)
unfolding key_of
escape_loop zero sequence reads = ok (none, reads)
escape_loop (suc left) sequence reads = do
  (next, reads) ← read reads
  elim next [
    | none ↦ ok (none, reads)
    | some byte ↦
        let longer = escape_loop left (sequence ++ byte ∷ []) reads in
        if leb 0x40 byte && leb byte 0x7e
        then ok (key_of (sequence ++ byte ∷ []), reads)
        else longer
  ]

abbrev pub opens : Option ℕ → Bool
opens none = false
opens (some byte) = byte == 0x5b || byte == 0x4f

unfoldable pub escape_key : Reads → Result (Option ℕ × Reads)
unfolding escape_loop
escape_key reads = do
  (first, reads) ← read reads
  if opens first then escape_loop 16 [] reads else ok (none, reads)

abbrev pub max_line : ℕ
max_line = 4096

pub record EditLine : Type 0 where
  pub bytes : Bytes
  pub cursor : ℕ

abbrev pub new_line : EditLine
new_line = record { bytes = []; cursor = 0 }

-- `copy_within` moves the text behind the cursor, `copy_from_slice` writes the new text before it;
-- a cursor behind the end is a panic, as is a text that is too long before.
unfoldable pub insert : EditLine → Bytes → Result (EditLine × Bool)
insert line text =
    if ltb max_line (length line.bytes)
    then panicked
    else (if ltb (max_line - length line.bytes) (length text)
        then ok (line, false)
        else (if ltb (length line.bytes) line.cursor
            then panicked
            else ok (
              record line {
                bytes = take line.cursor line.bytes ++ text ++ drop line.cursor line.bytes;
                cursor = line.cursor + length text;
              },
              true,
            )))

-- The result of `insert` is not used.
unfoldable pub replace : EditLine → Bytes → Result EditLine
unfolding insert
replace line text = do (next, inserted) ← insert new_line text; ok next

-- The cursor stands in the line or at its end, and the line fits the buffer.
abbrev pub IsLine : EditLine → Type 0
IsLine line = (line.cursor ≤ length line.bytes) × (length line.bytes ≤ max_line)

fits-IsLine :
    (line : EditLine) (text : Bytes)
    → IsLine line
    → length text ≤ max_line - length line.bytes
    → IsLine (record line {
      bytes = take line.cursor line.bytes ++ text ++ drop line.cursor line.bytes;
      cursor = line.cursor + length text;
    })
fits-IsLine line text (inside, short) room =
    let front = length-take line.cursor line.bytes in
    let behind = length-drop line.cursor line.bytes in
    let whole = length-append (take line.cursor line.bytes ++ text) (drop line.cursor line.bytes) in
    let half = length-append (take line.cursor line.bytes) text in (omega arith, omega arith)

-- In a line that fits the buffer, with the cursor in it, `insert` returns, and leaves such a line; it
-- refuses the text where there is no room for it.
insert-IsLine :
    (line : EditLine) (text : Bytes)
    → IsLine line
    → (next : EditLine × Bool) × (insert line text ≡ ok next)
      × IsLine next.0
      × ((next.1 ≡ false) ↔ (max_line < length line.bytes + length text))
unfolding insert
insert-IsLine line text valid =
    let short = ge→ltb max_line (length line.bytes) valid.1 in
    let inside = ge→ltb (length line.bytes) line.cursor valid.0 in
    elim (Bool-cases (ltb (max_line - length line.bytes) (length text))) [
      | inl many ↦ ((line, false), rw (short, many), valid, ground (arith, many))
      | inr few ↦ (
        (_, true),
        rw (short, few, inside),
        fits-IsLine line text valid (ground (arith, few)),
        ground (arith, few),
      )
    ]
