-- ===== src/Tests/Commands.antt =====
-- The options of the commands on concrete words.
use solx.Common.{◌≡◌, ◌↔◌, refl, true, false, List, [], ◌∷◌, Bytes, ascii, some, ok, err, arith}
use solx.Common.Eq.{list_beq, bool_beq}
use solx.Common.Text.{starts_with}
use solx.Commands.Amount.{parse_amount, format_amount}
use solx.Commands.Amount.RoundTrip.{parse_amount-format_amount}
use solx.Commands.Options.{Options, parse_options, to_args, IsOptions, parse_options_iff}
use solx.Commands.CloseSelection.{CloseSelection, parse_close_selection}

abbrev allowed : List Bytes
allowed = ascii "wallet" ∷ ascii "amount" ∷ []

abbrev words : List Bytes
words = ascii "--amount" ∷ ascii "2" ∷ ascii "--wallet" ∷ ascii "main" ∷ []

abbrev pairs : Options
pairs = (ascii "amount", ascii "2") ∷ (ascii "wallet", ascii "main") ∷ []

pairs_read : parse_options words allowed ≡ ok pairs
unfolding parse_options list_beq
pairs_read = refl

parse_options_iff_example :
    (parse_options words allowed ≡ ok pairs)
    ↔ ((words ≡ to_args pairs) × IsOptions allowed [] pairs)
parse_options_iff_example = parse_options_iff words allowed pairs

abbrev close_args : List Bytes
close_args = ascii "--wallet" ∷ ascii "main" ∷ ascii "--all" ∷ []

abbrev close_all : CloseSelection
close_all = record { wallet = some (ascii "main"); all = true; burn = false; mints = [] }

close_all_read : parse_close_selection close_args ≡ ok close_all
unfolding parse_close_selection list_beq bool_beq
close_all_read = refl

amount_text : format_amount 1_500_000 6 ≡ ascii "1.5"
unfolding format_amount
amount_text = refl

too_precise : parse_amount (ascii "1.55") 1 ≡ err "invalid amount or too many decimal places"
unfolding parse_amount starts_with
too_precise = refl

parse_amount-format_amount_example : parse_amount (format_amount 1_500_000 6) 6 ≡ ok 1_500_000
parse_amount-format_amount_example =
    parse_amount-format_amount 1_500_000 6 (omega arith) (omega arith)
