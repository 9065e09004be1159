-- ===== src/LineEditor/History.antt =====
-- `CommandHistory` of src/line_editor.rs. A method that mutates `self` returns the new history.
pub mod LeftOut
pub mod Kept
pub mod Moves
use solx.Common.{
  ℕ, zero, suc, ◌+◌, ◌-◌, ◌≤◌, ◌<◌, ◌≡◌, refl, ◌⊎◌, inl, inr, Bool, true, false, ◌||◌, List, [],
  ◌∷◌, ◌++◌, Option, none, some, Bytes, ascii, length, get_elem?, drop, any, ltb, if◌then◌else◌,
  Result, ok, err, panicked, ◌>>=◌, or_panic, arith,
}
use solx.Common.Eq.{◌==◌, nat_eq, list_eq, option_eq}
use solx.Common.Text.{contains, trim_line_end, is_blank, first_word}

abbrev pub max_history : ℕ
max_history = 64

pub record CommandHistory : Type 0 where
  pub entries : List Bytes
  pub position : Option ℕ
  pub draft : Bytes

-- `matches!(word, "import" | "export")`
abbrev pub moves_secret : Option Bytes → Bool
moves_secret none = false
moves_secret (some command) = command == ascii "import" || command == ascii "export"

abbrev pub first : List Bytes → Option Bytes
first [] = none
first (word ∷ words) = some word

-- The lines that `remember` leaves out: the blank ones and those that may hold a secret.
unfoldable pub left_out : Bytes → List Bytes → Bool
unfolding contains is_blank first_word
left_out line resolved =
    is_blank line
    || moves_secret (first_word line)
    || contains line (ascii "--base58")
    || contains line (ascii "--mnemonic")
    || moves_secret (first resolved)
    || any (λ option. option == ascii "--base58" || option == ascii "--mnemonic") resolved

-- `entries.back()`
abbrev pub back : List Bytes → Option Bytes
back [] = none
back (line ∷ []) = some line
back (line ∷ next ∷ lines) = back (next ∷ lines)

unfoldable pub remember : CommandHistory → Bytes → List Bytes → CommandHistory
unfolding left_out trim_line_end
remember history text resolved =
    let line = trim_line_end text in
    let kept =
      if length history.entries == max_history then drop 1 history.entries else history.entries in
    if left_out line resolved || back history.entries == some line
    then history
    else record history { entries = kept ++ line ∷ [] }

-- The history that `older` moves to.
unfoldable pub step_back : CommandHistory → Bytes → CommandHistory
step_back history current = elim history.position [
  | some i ↦ record history { position = some (i - 1) }
  | none ↦ record history { position = some (length history.entries - 1); draft = current }
]

unfoldable pub shown : CommandHistory → Result (Option Bytes)
shown history = elim history.position [
  | none ↦ ok none
  | some i ↦ do line ← or_panic (get_elem? history.entries i); ok (some line)
]

unfoldable pub older : CommandHistory → Bytes → Result (CommandHistory × Option Bytes)
unfolding step_back shown
older history current =
    if length history.entries == 0
    then ok (history, none)
    else (do let moved = step_back history current; line ← shown moved; ok (moved, line))

unfoldable pub newer : CommandHistory → Result (CommandHistory × Option Bytes)
newer history = elim history.position [
  | none ↦ ok (history, none)
  | some i ↦
      if ltb (i + 1) (length history.entries)
      then (do
        line ← or_panic (get_elem? history.entries (i + 1))
        ok (record history { position = some (i + 1) }, some line))
      else ok (record history { position = none }, some history.draft)
]
