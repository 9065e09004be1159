-- ===== src/LineEditor/History/LeftOut.antt =====
-- The lines that `remember` of src/line_editor.rs leaves out, described by their text.
use solx.Common.{
  ◌≡◌, ◌≢◌, refl, sym, ap, ◌∙◌, ◌⊎◌, inl, inr, Bool, true, false, ◌||◌, ◌&&◌, List, [], ◌∷◌, ◌++◌,
  Option, none, some, Bytes, ascii, any, arith,
}
use solx.Common.Eq.{◌==◌, nat_eq, list_eq, eq_of_beq, beq_refl}
use solx.Common.Text.{starts_with, contains, is_blank, first_word}
use solx.LineEditor.History.{moves_secret, left_out, first}

-- The text stands somewhere in the line.
abbrev pub Holds : Bytes → Bytes → Type 0
Holds line text = (before : Bytes) × (after : Bytes) × (line ≡ before ++ text ++ after)

-- The first word is one of the two commands that take or show a secret.
abbrev pub MovesSecret : Option Bytes → Type 0
MovesSecret none = ⊥
MovesSecret (some word) = (word ≡ ascii "import") ⊎ (word ≡ ascii "export")

-- A word is one of the two options that ask for a secret.
abbrev pub HasOption : List Bytes → Type 0
HasOption [] = ⊥
HasOption (word ∷ words) =
    ((word ≡ ascii "--base58") ⊎ (word ≡ ascii "--mnemonic")) ⊎ HasOption words

-- What keeps a line, or the words that it stands for, out of the history.
pub data LeftOut (line : Bytes) (resolved : List Bytes) : Type 0 where
  blank : is_blank line ≡ true → LeftOut line resolved
  command : MovesSecret (first_word line) → LeftOut line resolved
  base58 : Holds line (ascii "--base58") → LeftOut line resolved
  mnemonic : Holds line (ascii "--mnemonic") → LeftOut line resolved
  alias : MovesSecret (first resolved) → LeftOut line resolved
  option : HasOption resolved → LeftOut line resolved

or_cases : (a b : Bool) → (a || b) ≡ true → (a ≡ true) ⊎ (b ≡ true)
or_cases true b e = inl refl
or_cases false b e = inr e

and_cases : (a b : Bool) → (a && b) ≡ true → (a ≡ true) × (b ≡ true)
and_cases a b e = (ground arith, ground arith)

starts_with-true :
    (text pattern : Bytes)
    → starts_with text pattern ≡ true
    → (after : Bytes) × (text ≡ pattern ++ after)
unfolding starts_with
starts_with-true text [] e = (text, refl)
starts_with-true [] (p ∷ pattern) e = cc
starts_with-true (b ∷ text) (p ∷ pattern) e =
    let (same, rest) = and_cases (b == p) _ e in
    let (after, split) = starts_with-true text pattern rest in
    (after, λ i. eq_of_beq same i ∷ split i)

starts_with-append : (pattern after : Bytes) → starts_with (pattern ++ after) pattern ≡ true
unfolding starts_with
starts_with-append [] after = refl
starts_with-append (p ∷ pattern) after = rw (beq_refl p) (starts_with-append pattern after)

contains-true : (line pattern : Bytes) → contains line pattern ≡ true → Holds line pattern
unfolding contains
contains-true [] pattern e =
    let (after, split) = starts_with-true [] pattern e in ([], after, split)
contains-true (b ∷ line) pattern e =
    elim (or_cases (starts_with (b ∷ line) pattern) (contains line pattern) e) [
      | inl here ↦ let (after, split) = starts_with-true _ pattern here in ([], after, split)
      | inr later ↦
          let (before, after, split) = contains-true line pattern later in
          (b ∷ before, after, ap (λ rest. b ∷ rest) split)
    ]

contains-starts :
    (line pattern : Bytes) → starts_with line pattern ≡ true → contains line pattern ≡ true
unfolding contains
contains-starts [] pattern e = e
contains-starts (b ∷ line) pattern e = ground arith

contains-append :
    (before pattern after : Bytes) → contains (before ++ pattern ++ after) pattern ≡ true
unfolding contains
contains-append [] pattern after = contains-starts _ pattern (starts_with-append pattern after)
contains-append (b ∷ before) pattern after =
    let later = contains-append before pattern after in ground arith

contains-Holds : (line pattern : Bytes) → Holds line pattern → contains line pattern ≡ true
contains-Holds line pattern (before, after, split) =
    ap (λ l. contains l pattern) split ∙ contains-append before pattern after

either_word :
    (word one two : Bytes) → (word == one || word == two) ≡ true → (word ≡ one) ⊎ (word ≡ two)
either_word word one two e = elim (or_cases (word == one) (word == two) e) [
  | inl same ↦ inl (eq_of_beq same)
  | inr same ↦ inr (eq_of_beq same)
]

one_word :
    (word one two : Bytes) → (word ≡ one) ⊎ (word ≡ two) → (word == one || word == two) ≡ true
one_word word one two (inl same) =
    let e : (word == one) ≡ true = ap (λ w. w == one) same ∙ beq_refl one in ground arith
one_word word one two (inr same) =
    let e : (word == two) ≡ true = ap (λ w. w == two) same ∙ beq_refl two in ground arith

moves_secret-true : (word : Option Bytes) → moves_secret word ≡ true → MovesSecret word
moves_secret-true none e = cc
moves_secret-true (some word) e = either_word word _ _ e

moves_secret-MovesSecret : (word : Option Bytes) → MovesSecret word → moves_secret word ≡ true
moves_secret-MovesSecret none e = absurd e
moves_secret-MovesSecret (some word) e = one_word word _ _ e

any-HasOption :
    (words : List Bytes)
    → any (λ option. option == ascii "--base58" || option == ascii "--mnemonic") words ≡ true
    → HasOption words
any-HasOption [] e = cc
any-HasOption (word ∷ words) e = elim (or_cases _ _ e) [
  | inl here ↦ inl (either_word word _ _ here)
  | inr later ↦ inr (any-HasOption words later)
]

HasOption-any :
    (words : List Bytes)
    → HasOption words
    → any (λ option. option == ascii "--base58" || option == ascii "--mnemonic") words ≡ true
HasOption-any [] e = absurd e
HasOption-any (word ∷ words) (inl here) =
    let e = one_word word (ascii "--base58") (ascii "--mnemonic") here in ground arith
HasOption-any (word ∷ words) (inr later) = let e = HasOption-any words later in ground arith

pub left_out-LeftOut :
    (line : Bytes) (resolved : List Bytes) → left_out line resolved ≡ true → LeftOut line resolved
unfolding left_out
left_out-LeftOut line resolved e =
    let asks =
      any (λ option. option == ascii "--base58" || option == ascii "--mnemonic") resolved in
    let moved = moves_secret (first resolved) in
    let hidden = contains line (ascii "--mnemonic") in
    let shown = contains line (ascii "--base58") in
    let commanded = moves_secret (first_word line) in
    elim (or_cases (is_blank line || commanded || shown || hidden || moved) asks e) [
      | inr g ↦ option (any-HasOption resolved g)
      | inl e1 ↦ elim (or_cases (is_blank line || commanded || shown || hidden) moved e1) [
        | inr f ↦ alias (moves_secret-true _ f)
        | inl e2 ↦ elim (or_cases (is_blank line || commanded || shown) hidden e2) [
          | inr d ↦ mnemonic (contains-true line _ d)
          | inl e3 ↦ elim (or_cases (is_blank line || commanded) shown e3) [
            | inr c ↦ base58 (contains-true line _ c)
            | inl e4 ↦ elim (or_cases (is_blank line) commanded e4) [
              | inr b ↦ command (moves_secret-true _ b)
              | inl a ↦ blank a
            ]
          ]
        ]
      ]
    ]

LeftOut-true :
    (line : Bytes) (resolved : List Bytes) → LeftOut line resolved → left_out line resolved ≡ true
unfolding left_out
LeftOut-true line resolved (blank e) = ground arith
LeftOut-true line resolved (command e) =
    let h = moves_secret-MovesSecret (first_word line) e in ground arith
LeftOut-true line resolved (base58 e) =
    let h = contains-Holds line (ascii "--base58") e in ground arith
LeftOut-true line resolved (mnemonic e) =
    let h = contains-Holds line (ascii "--mnemonic") e in ground arith
LeftOut-true line resolved (alias e) =
    let h = moves_secret-MovesSecret (first resolved) e in ground arith
LeftOut-true line resolved (option e) = let h = HasOption-any resolved e in ground arith

true-ne-false : true ≢ false
true-ne-false e = cc

pub not_left_out :
    (line : Bytes) (resolved : List Bytes)
    → left_out line resolved ≡ false
    → ¬ LeftOut line resolved
not_left_out line resolved e out = true-ne-false (sym (LeftOut-true line resolved out) ∙ e)
