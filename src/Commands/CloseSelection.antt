-- ===== src/Commands/CloseSelection.antt =====
-- `CloseSelection` and `parse_close_selection` of src/commands.rs.
use solx.Common.{
  ◌≤◌, ◌≡◌, ◌≢◌, refl, inl, inr, Bool, true, false, not, List, [], ◌∷◌, ◌++◌, Option, none, some,
  Bytes, ascii, length, ltb, Result, ok, err, ◌>>=◌, ◌>>◌, fail_if, if◌then◌else◌, arith, All,
  All-append, Bool-cases, String, ok_inj, err-ne-ok, >>=-eq-ok,
}
use solx.Common.Eq.{◌==◌, nat_eq, list_eq, bool_eq, bool_beq}
use mathlib.Core.Path.{subst}
use solx.Common.Text.{starts_with}

pub record CloseSelection : Type 0 where
  pub wallet : Option Bytes
  pub all : Bool
  pub burn : Bool
  pub mints : List Bytes

abbrev pub has_wallet : CloseSelection → Bool
has_wallet selection = elim selection.wallet [ none ↦ false | some name ↦ true ]

abbrev pub no_mints : CloseSelection → Bool
no_mints selection = elim selection.mints [ [] ↦ true | ◌∷◌ mint mints ↦ false ]

-- A word other than `--wallet`.
unfoldable pub close_word : CloseSelection → Bytes → Result CloseSelection
unfolding starts_with
close_word selection word =
    if word == ascii "--all"
    then (do fail_if selection.all "duplicate --all"; ok (record selection { all = true }))
    else (if word == ascii "--burn"
        then (do fail_if selection.burn "duplicate --burn"; ok (record selection { burn = true }))
        else (if starts_with word (ascii "-") then err "unknown close-ata option" else (do
          let added = selection.mints ++ word ∷ []
          fail_if (ltb 512 (length added)) "too many mint addresses"
          ok (record selection { mints = added }))))

-- The loop over the words.
unfoldable pub close_words : CloseSelection → List Bytes → Result CloseSelection
unfolding close_word
close_words selection [] = ok selection
close_words selection (word ∷ []) =
    if word == ascii "--wallet"
    then (do fail_if (has_wallet selection) "duplicate --wallet"; err "--wallet needs a name")
    else close_word selection word
close_words selection (word ∷ name ∷ words) =
    let as_wallet = close_words (record selection { wallet = some name }) words in
    if word == ascii "--wallet"
    then (do fail_if (has_wallet selection) "duplicate --wallet"; as_wallet)
    else (do next ← close_word selection word; close_words next (name ∷ words))

abbrev pub no_selection : CloseSelection
no_selection = record { wallet = none; all = false; burn = false; mints = [] }

-- `all == !mints.is_empty()`
unfoldable pub parse_close_selection : List Bytes → Result CloseSelection
unfolding close_words
parse_close_selection args = do
  selection ← close_words no_selection args
  fail_if (selection.all == not (no_mints selection)) "use --all or provide mint addresses"
  ok selection

-- The mints of a selection: at most 512, none of them written like an option.
abbrev pub IsListed : CloseSelection → Type 0
IsListed selection =
    (length selection.mints ≤ 512)
    × All (λ mint. starts_with mint (ascii "-") ≡ false) selection.mints

guarded :
    (test : Bool) (message : String) (selection : CloseSelection) {next : CloseSelection}
    → (fail_if test message >> ok selection) ≡ ok next
    → (test ≡ false) × (selection ≡ next)
guarded true message selection e = absurd (err-ne-ok e)
guarded false message selection e = (refl, ok_inj e)

unguarded :
    (test : Bool) (message : String) (rest : Result CloseSelection) {next : CloseSelection}
    → (fail_if test message >> rest) ≡ ok next
    → rest ≡ ok next
unguarded true message rest e = absurd (err-ne-ok e)
unguarded false message rest e = e

no_name :
    (test : Bool) {next : CloseSelection}
    → (fail_if test "duplicate --wallet" >> err "--wallet needs a name") ≢ ok next
no_name true = err-ne-ok
no_name false = err-ne-ok

opposite : (a b : Bool) → (a == not b) ≡ false → a ≡ b
unfolding bool_beq
opposite a b h = ground arith

add_mint-IsListed :
    (selection : CloseSelection) (word : Bytes) {next : CloseSelection}
    → IsListed selection
    → starts_with word (ascii "-") ≡ false
    → (fail_if (ltb 512 (length (selection.mints ++ word ∷ []))) "too many mint addresses"
        >> ok (record selection { mints = selection.mints ++ word ∷ [] }))
      ≡ ok next
    → IsListed next
add_mint-IsListed selection word (few, plain) new e =
    let many = ltb 512 (length (selection.mints ++ word ∷ [])) in
    let (room, same) = guarded many "too many mint addresses" _ e in
    subst IsListed same
      (ground (arith, room), All-append _ selection.mints (word ∷ []) plain (new, tt))

close_word-IsListed :
    (selection : CloseSelection) (word : Bytes) {next : CloseSelection}
    → IsListed selection
    → close_word selection word ≡ ok next
    → IsListed next
unfolding close_word
close_word-IsListed selection word {next} listed e = elim (Bool-cases (word == ascii "--all")) [
  | inl all ↦ subst IsListed (guarded selection.all "duplicate --all" _ (rw all at e)).1 listed
  | inr not_all ↦ elim (Bool-cases (word == ascii "--burn")) [
    | inl burn ↦
        subst IsListed (guarded selection.burn "duplicate --burn" _ (rw (not_all, burn) at e)).1
          listed
    | inr not_burn ↦ elim (Bool-cases (starts_with word (ascii "-"))) [
      | inl option ↦ absurd (err-ne-ok (rw (not_all, not_burn, option) at e))
      | inr plain ↦
          add_mint-IsListed selection word listed plain (rw (not_all, not_burn, plain) at e)
    ]
  ]
]

close_words-IsListed :
    (selection : CloseSelection) (args : List Bytes) {result : CloseSelection}
    → IsListed selection
    → close_words selection args ≡ ok result
    → IsListed result
unfolding close_words
close_words-IsListed selection [] listed e = subst IsListed (ok_inj e) listed
close_words-IsListed selection (word ∷ []) listed e = elim (Bool-cases (word == ascii "--wallet")) [
  | inl wallet ↦ absurd (no_name (has_wallet selection) (rw wallet at e))
  | inr other ↦ close_word-IsListed selection word listed (rw other at e)
]
close_words-IsListed selection (word ∷ name ∷ args) listed e =
    elim (Bool-cases (word == ascii "--wallet")) [
      | inl wallet ↦
          close_words-IsListed (record selection { wallet = some name }) args listed
            (unguarded (has_wallet selection) "duplicate --wallet" _ (rw wallet at e))
      | inr other ↦
          let (next, now, later) = >>=-eq-ok (close_word selection word) _ (rw other at e) in
          close_words-IsListed next (name ∷ args) (close_word-IsListed selection word listed now)
            later
    ]

-- An accepted selection has at most 512 mints, none of them written like an option; it names every
-- account, or it lists a mint, and not both.
pub parse_close_selection_lem :
    (args : List Bytes) (selection : CloseSelection)
    → parse_close_selection args ≡ ok selection
    → IsListed selection × (selection.all ≡ no_mints selection)
unfolding parse_close_selection
parse_close_selection_lem args selection e =
    let (read, listed, rest) = >>=-eq-ok (close_words no_selection args) _ e in
    let (differ, same) =
      guarded (read.all == not (no_mints read)) "use --all or provide mint addresses" read rest in
    subst (λ s. IsListed s × (s.all ≡ no_mints s)) same
      (
        close_words-IsListed no_selection args (omega arith, tt) listed,
        opposite read.all (no_mints read) differ,
      )
