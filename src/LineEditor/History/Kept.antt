-- ===== src/LineEditor/History/Kept.antt =====
-- What `remember` of src/line_editor.rs keeps in the history.
use solx.Common.{
  ℕ, ◌+◌, ◌≤◌, ◌<◌, ◌≡◌, ◌≢◌, refl, ap, ◌⊎◌, inl, inr, true, false, ◌||◌, List, [], ◌∷◌, ◌++◌,
  Option, none, some, Bytes, length, length-append, length-drop, All, All-append, All-drop, drop,
  if◌then◌else◌, arith, Bool-cases,
}
use solx.Common.Eq.{◌==◌, nat_eq, list_eq, option_eq, eq_of_beq, beq_refl, beq-cases}
use solx.Common.Text.{trim_line_end}
use solx.LineEditor.History.LeftOut.{LeftOut, left_out-LeftOut, not_left_out}
use solx.LineEditor.History.{CommandHistory, max_history, back, left_out, remember, first}

-- A line that is not blank, starts with none of the two commands that take or show a secret, and holds
-- none of the two options that ask for one.
abbrev pub IsKept : Bytes → Type 0
IsKept line = ¬ LeftOut line []

-- No line stands next to itself.
abbrev pub IsDistinct : List Bytes → Type 0
IsDistinct [] = Unit
IsDistinct (line ∷ []) = Unit
IsDistinct (line ∷ next ∷ lines) = (line ≢ next) × IsDistinct (next ∷ lines)

abbrev pub InRange : Option ℕ → ℕ → Type 0
InRange none n = Unit
InRange (some i) n = i < n

pub record IsHistory (history : CommandHistory) : Type 0 where
  pub bounded : length history.entries ≤ max_history
  pub kept : All IsKept history.entries
  pub distinct : IsDistinct history.entries
  pub in_range : InRange history.position (length history.entries)

InRange-mono : (position : Option ℕ) {m n : ℕ} → InRange position m → m ≤ n → InRange position n
InRange-mono none inside low = tt
InRange-mono (some i) inside low = omega arith

IsKept-of_resolved :
    (line : Bytes) (resolved : List Bytes) → left_out line resolved ≡ false → IsKept line
unfolding left_out
IsKept-of_resolved line resolved h = not_left_out line [] (ground arith)

back-append : (lines : List Bytes) (line : Bytes) → back (lines ++ line ∷ []) ≡ some line
back-append [] line = refl
back-append (first ∷ []) line = refl
back-append (first ∷ next ∷ lines) line = back-append (next ∷ lines) line

IsDistinct-append :
    (lines : List Bytes) (line : Bytes)
    → IsDistinct lines
    → back lines ≢ some line
    → IsDistinct (lines ++ line ∷ [])
IsDistinct-append [] line h new = tt
IsDistinct-append (first ∷ []) line h new = (λ same. new (ap some same), tt)
IsDistinct-append (first ∷ next ∷ lines) line h new =
    (h.0, IsDistinct-append (next ∷ lines) line h.1 new)

IsDistinct-drop : (lines : List Bytes) → IsDistinct lines → IsDistinct (drop 1 lines)
IsDistinct-drop [] h = tt
IsDistinct-drop (first ∷ []) h = tt
IsDistinct-drop (first ∷ next ∷ lines) h = h.1

back-drop :
    (lines : List Bytes) (line : Bytes) → back lines ≢ some line → back (drop 1 lines) ≢ some line
back-drop [] line new = new
back-drop (first ∷ []) line new = λ e. cc
back-drop (first ∷ next ∷ lines) line new = new

kept_lines : CommandHistory → List Bytes
kept_lines history =
    if length history.entries == max_history then drop 1 history.entries else history.entries

remember_same :
    (history : CommandHistory) (text : Bytes) (resolved : List Bytes)
    → (left_out (trim_line_end text) resolved || back history.entries == some (trim_line_end text))
      ≡ true
    → remember history text resolved ≡ history
unfolding remember
remember_same history text resolved h = rw h

remember_new :
    (history : CommandHistory) (text : Bytes) (resolved : List Bytes)
    → (left_out (trim_line_end text) resolved || back history.entries == some (trim_line_end text))
      ≡ false
    → remember history text resolved
      ≡ record history { entries = kept_lines history ++ trim_line_end text ∷ [] }
unfolding remember kept_lines
remember_new history text resolved h = rw h

module _ (history : CommandHistory) (valid : IsHistory history) where
  length-kept_lines :
      (length (kept_lines history) + 1 ≤ max_history)
      × (length history.entries ≤ length (kept_lines history) + 1)
  unfolding kept_lines
  length-kept_lines = elim (beq-cases (length history.entries) max_history) [
    | inl (e, same) ↦
        rw same (let cut = length-drop 1 history.entries in (omega arith, omega arith))
    | inr (ne, other) ↦ rw other (ground (arith, valid.bounded), omega arith)
  ]

  kept_lines-IsKept : All IsKept (kept_lines history)
  unfolding kept_lines
  kept_lines-IsKept = elim (Bool-cases (length history.entries == max_history)) [
    | inl same ↦ rw same (All-drop IsKept 1 history.entries valid.kept)
    | inr other ↦ rw other valid.kept
  ]

  kept_lines-IsDistinct : IsDistinct (kept_lines history)
  unfolding kept_lines
  kept_lines-IsDistinct = elim (Bool-cases (length history.entries == max_history)) [
    | inl same ↦ rw same (IsDistinct-drop history.entries valid.distinct)
    | inr other ↦ rw other valid.distinct
  ]

  back-kept_lines :
      (line : Bytes) → back history.entries ≢ some line → back (kept_lines history) ≢ some line
  unfolding kept_lines
  back-kept_lines line new = elim (Bool-cases (length history.entries == max_history)) [
    | inl same ↦ rw same (back-drop history.entries line new)
    | inr other ↦ rw other new
  ]

  -- A new line after the kept ones.
  extended-IsHistory :
      (line : Bytes)
      → IsKept line
      → back history.entries ≢ some line
      → IsHistory (record history { entries = kept_lines history ++ line ∷ [] })
  extended-IsHistory line safe new =
      let grown = length-append (kept_lines history) (line ∷ []) in
      let (few, many) = length-kept_lines in
      record {
        bounded = omega (arith, grown, few);
        kept = All-append IsKept (kept_lines history) (line ∷ []) kept_lines-IsKept (safe, tt);
        distinct =
            IsDistinct-append (kept_lines history) line kept_lines-IsDistinct
              (back-kept_lines line new);
        in_range = InRange-mono history.position valid.in_range (omega (arith, grown, many));
      }

-- What `remember` does to a line: it is left out, or it is the last of the history.
abbrev pub Remembers : CommandHistory → Bytes → List Bytes → Type 0
Remembers history text resolved =
    (LeftOut (trim_line_end text) resolved × (remember history text resolved ≡ history))
    ⊎ ((¬ LeftOut (trim_line_end text) resolved)
        × (back (remember history text resolved).entries ≡ some (trim_line_end text)))

unchanged :
    (history : CommandHistory) (text : Bytes) (resolved : List Bytes)
    → (left_out (trim_line_end text) resolved || back history.entries == some (trim_line_end text))
      ≡ true
    → IsHistory history
    → IsHistory (remember history text resolved) × Remembers history text resolved
unchanged history text resolved h valid =
    let same = remember_same history text resolved h in
    rw same (
      valid,
      elim (Bool-cases (left_out (trim_line_end text) resolved)) [
        | inl out ↦ inl (left_out-LeftOut _ _ out, refl)
        | inr kept ↦ inr (not_left_out _ _ kept, eq_of_beq (ground (arith, h, kept)))
      ],
    )

extended :
    (history : CommandHistory) (text : Bytes) (resolved : List Bytes)
    → (left_out (trim_line_end text) resolved || back history.entries == some (trim_line_end text))
      ≡ false
    → IsHistory history
    → IsHistory (remember history text resolved) × Remembers history text resolved
extended history text resolved h valid =
    let line = trim_line_end text in
    let kept : left_out line resolved ≡ false = ground (arith, h) in
    let new : back history.entries ≢ some line =
      λ e. ground (arith, h, ap (λ o. o == some line) e, beq_refl (some line)) in
    rw (remember_new history text resolved h) (
      extended-IsHistory history valid line (IsKept-of_resolved line resolved kept) new,
      inr (not_left_out line resolved kept, back-append (kept_lines history) line),
    )

-- `remember` keeps a history valid: at most 64 lines, no line next to itself, the position in range, and
-- no line that is blank, starts with the word "import" or "export", or has "--base58" or "--mnemonic"
-- anywhere in it. It leaves the history as it is where the new line is such a line, or stands for words
-- of which the first is "import" or "export" or one is an option of those two; the new line is the last
-- of the history otherwise.
pub remember-IsHistory :
    (history : CommandHistory) (text : Bytes) (resolved : List Bytes)
    → IsHistory history
    → IsHistory (remember history text resolved) × Remembers history text resolved
remember-IsHistory history text resolved valid =
    elim (Bool-cases (
      left_out (trim_line_end text) resolved
      || back history.entries == some (trim_line_end text))) [
        | inl same ↦ unchanged history text resolved same valid
        | inr new ↦ extended history text resolved new valid
      ]
