-- ===== src/LineEditor/History/Moves.antt =====
-- Moving through the history with `older` and `newer` of src/line_editor.rs.
use solx.Common.{
  ℕ, zero, suc, ◌+◌, ◌-◌, ◌≤◌, ◌<◌, ◌≡◌, ◌≢◌, refl, ◌⊎◌, inl, inr, false, List, Option, none, some,
  Bytes, length, get_elem?, get_elem?-lt, lt→ltb, ge→ltb, Result, ok, ◌>>=◌, arith,
}
use solx.Common.Eq.{◌==◌, nat_eq}
use solx.LineEditor.History.{CommandHistory, shown, step_back, older, newer}
use solx.LineEditor.History.Kept.{IsHistory, InRange}

abbrev located : List Bytes → Bytes → Option ℕ → CommandHistory
located entries draft position = record { entries = entries; position = position; draft = draft }

step_shown :
    (entries : List Bytes) (draft : Bytes) (i : ℕ)
    → i < length entries
    → shown (located entries draft (some i)) ≡ ok (get_elem? entries i)
unfolding shown
step_shown entries draft i low = let (line, found) = get_elem?-lt entries i low in rw found refl

older_line :
    (entries : List Bytes) (draft current : Bytes) (i : ℕ)
    → i < length entries
    → older (located entries draft (some i)) current
      ≡ ok (located entries draft (some (i - 1)), get_elem? entries (i - 1))
unfolding older step_back
older_line entries draft current i low =
    let filled : (length entries == 0) ≡ false = ground arith in
    rw (filled, step_shown entries draft (i - 1) (omega arith))

older_draft :
    (entries : List Bytes) (draft current : Bytes)
    → 0 < length entries
    → older (located entries draft none) current
      ≡ ok (
        located entries current (some (length entries - 1)),
        get_elem? entries (length entries - 1),
      )
unfolding older step_back
older_draft entries draft current low =
    let filled : (length entries == 0) ≡ false = ground arith in
    rw (filled, step_shown entries current (length entries - 1) (omega arith))

newer_line :
    (entries : List Bytes) (draft : Bytes) (i : ℕ)
    → i + 1 < length entries
    → newer (located entries draft (some i))
      ≡ ok (located entries draft (some (i + 1)), get_elem? entries (i + 1))
unfolding newer
newer_line entries draft i low =
    let (line, found) = get_elem?-lt entries (i + 1) low in
    rw (lt→ltb (i + 1) (length entries) low, found) refl

newer_draft :
    (entries : List Bytes) (draft : Bytes) (i : ℕ)
    → length entries ≤ i + 1
    → newer (located entries draft (some i)) ≡ ok (located entries draft none, some draft)
unfolding newer
newer_draft entries draft i high = rw (ge→ltb (i + 1) (length entries) high)

-- The line on the screen: the one at the position, or the one being typed.
abbrev pub displayed : CommandHistory → Bytes → Option Bytes
displayed history current = elim history.position [
  | none ↦ some current
  | some i ↦ get_elem? history.entries i
]

abbrev pub drafted : CommandHistory → Bytes → Bytes
drafted history current = elim history.position [ none ↦ current | some i ↦ history.draft ]

-- A call returns, with a valid history of the same lines.
abbrev pub KeepsLines : CommandHistory → Result (CommandHistory × Option Bytes) → Type 0
KeepsLines history result =
    (next : CommandHistory × Option Bytes) × (result ≡ ok next)
    × IsHistory next.0
    × (next.0.entries ≡ history.entries)

newer-older_at :
    (entries : List Bytes) (draft current : Bytes) (position : Option ℕ)
    → InRange position (length entries)
    → 0 < length entries
    → position ≢ some 0
    → (older (located entries draft position) current >>= λ (moved, line). newer moved)
      ≡ ok (
        record (located entries draft position) {
          draft = drafted (located entries draft position) current;
        },
        displayed (located entries draft position) current,
      )
newer-older_at entries draft current none inside filled away =
    let last : length entries - 1 + 1 ≡ length entries = omega arith in
    rw (older_draft entries draft current filled)
      (newer_draft entries current (length entries - 1) (omega arith))
newer-older_at entries draft current (some zero) inside filled away = absurd (away refl)
newer-older_at entries draft current (some (suc i)) inside filled away =
    let same : suc i - 1 ≡ i = omega arith in
    let next : i + 1 ≡ suc i = omega arith in
    rw (
      older_line entries draft current (suc i) inside,
      same,
      newer_line entries draft i (omega arith),
      next,
    )

-- In a valid history with some line, away from the oldest one, `older` and then `newer` show again
-- what was on the screen and lead back to the same history; a line being typed is kept as its draft.
pub newer-older :
    (history : CommandHistory) (current : Bytes)
    → IsHistory history
    → 0 < length history.entries
    → history.position ≢ some 0
    → (older history current >>= λ (moved, line). newer moved)
      ≡ ok (record history { draft = drafted history current }, displayed history current)
newer-older history current valid filled away =
    newer-older_at history.entries history.draft current history.position valid.in_range filled away

relocate :
    (history : CommandHistory) (draft : Bytes) (position : Option ℕ)
    → IsHistory history
    → InRange position (length history.entries)
    → IsHistory (located history.entries draft position)
relocate history draft position valid inside = record {
  bounded = valid.bounded;
  kept = valid.kept;
  distinct = valid.distinct;
  in_range = inside;
}

empty-older :
    (history : CommandHistory) (current : Bytes)
    → length history.entries ≡ 0
    → older history current ≡ ok (history, none)
unfolding older
empty-older history current e = rw e

older_keeps :
    (entries : List Bytes) (draft current : Bytes) (position : Option ℕ)
    → IsHistory (located entries draft position)
    → 0 < length entries
    → KeepsLines (located entries draft position) (older (located entries draft position) current)
older_keeps entries draft current none valid filled = (
  _,
  older_draft entries draft current filled,
  relocate (located entries draft none) current (some (length entries - 1)) valid (omega arith),
  refl,
)
older_keeps entries draft current (some i) valid filled = (
  _,
  older_line entries draft current i valid.in_range,
  relocate (located entries draft (some i)) draft (some (i - 1)) valid
      (omega (arith, valid.in_range)),
  refl,
)

empty_or_filled : (n : ℕ) → (n ≡ 0) ⊎ (0 < n)
empty_or_filled n = ground arith

below_or_end : (i n : ℕ) → (i + 1 < n) ⊎ (n ≤ i + 1)
below_or_end i n = ground arith

newer_keeps :
    (entries : List Bytes) (draft : Bytes) (position : Option ℕ)
    → IsHistory (located entries draft position)
    → KeepsLines (located entries draft position) (newer (located entries draft position))
unfolding newer
newer_keeps entries draft none valid = (_, refl, valid, refl)
newer_keeps entries draft (some i) valid = elim (below_or_end i (length entries)) [
  | inl low ↦ (_, newer_line entries draft i low, relocate _ draft (some (i + 1)) valid low, refl)
  | inr high ↦ (_, newer_draft entries draft i high, relocate _ draft none valid tt, refl)
]

-- In a valid history, `older` and `newer` return; they leave a valid history of the same lines.
pub moves-KeepsLines :
    (history : CommandHistory) (current : Bytes)
    → IsHistory history
    → KeepsLines history (older history current) × KeepsLines history (newer history)
moves-KeepsLines history current valid = (
  elim (empty_or_filled (length history.entries)) [
    | inl e ↦ (_, empty-older history current e, valid, refl)
    | inr filled ↦ older_keeps history.entries history.draft current history.position valid filled
  ],
  newer_keeps history.entries history.draft history.position valid,
)
