-- ===== src/Tests/LineEditor.antt =====
-- The line editor on concrete lines.
use solx.Common.{
  ◌≡◌, ◌≢◌, ap, refl, true, false, [], ◌∷◌, Bytes, ascii, none, some, ok, ◌>>=◌, arith,
}
use solx.Common.Eq.{◌==◌, nat_eq, list_eq, list_beq, option_beq, beq_refl}
use solx.Common.Text.{is_blank}
use solx.LineEditor.History.{CommandHistory, left_out, remember, older, newer}
use solx.LineEditor.History.LeftOut.{not_left_out}
use solx.LineEditor.History.Kept.{IsHistory, IsKept, Remembers, remember-IsHistory}
use solx.LineEditor.History.Moves.{newer-older}

abbrev new_history : CommandHistory
new_history = record { entries = []; position = none; draft = [] }

list_line :
    remember new_history (ascii "list main\r\n") []
    ≡ record new_history { entries = ascii "list main" ∷ [] }
unfolding remember list_beq option_beq
list_line = refl

secret_line : remember new_history (ascii "pay") (ascii "import" ∷ ascii "main" ∷ []) ≡ new_history
unfolding remember list_beq
secret_line = refl

phrase_option : left_out (ascii "w --mnemonic ab") [] ≡ true
unfolding left_out list_beq
phrase_option = refl

-- U+3000 is white space.
wide_blank : is_blank (0xe3 ∷ 0x80 ∷ 0x80 ∷ []) ≡ true
unfolding is_blank
wide_blank = refl

ne_of_beq : (a b : Bytes) → (a == b) ≡ false → a ≢ b
ne_of_beq a b h e = ground (arith, ap (λ c. a == c) e, beq_refl a, h)

abbrev two_lines : CommandHistory
two_lines = record { entries = ascii "list" ∷ ascii "lock" ∷ []; position = none; draft = [] }

lines_differ : (ascii "list" == ascii "lock") ≡ false
unfolding list_beq
lines_differ = refl

list_kept : left_out (ascii "list") [] ≡ false
unfolding left_out list_beq
list_kept = refl

lock_kept : left_out (ascii "lock") [] ≡ false
unfolding left_out list_beq
lock_kept = refl

list-IsKept : IsKept (ascii "list")
list-IsKept = not_left_out (ascii "list") [] list_kept

lock-IsKept : IsKept (ascii "lock")
lock-IsKept = not_left_out (ascii "lock") [] lock_kept

two_lines-IsHistory : IsHistory two_lines
two_lines-IsHistory = record {
  bounded = omega arith;
  kept = (list-IsKept, (lock-IsKept, tt));
  distinct = (λ e. ne_of_beq _ _ lines_differ e, tt);
  in_range = tt;
}

remember-IsHistory_example :
    IsHistory (remember two_lines (ascii "help\n") []) × Remembers two_lines (ascii "help\n") []
remember-IsHistory_example = remember-IsHistory two_lines (ascii "help\n") [] two_lines-IsHistory

newer-older_example :
    (older two_lines (ascii "he") >>= λ (moved, line). newer moved)
    ≡ ok (record two_lines { draft = ascii "he" }, some (ascii "he"))
newer-older_example = newer-older two_lines (ascii "he") two_lines-IsHistory (omega arith) (λ e. cc)
