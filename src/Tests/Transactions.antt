-- ===== src/Tests/Transactions.antt =====
-- The submissions at concrete arguments.
use solx.Common.{
  ◌≤◌, ◌≡◌, ◌≢◌, refl, sym, ◌∙◌, ap, ok_inj, true, false, List, [], ◌∷◌, Bytes, ascii, Option, none,
  some, ok, err,
}
use solx.Common.Text.{trim, trim_start, trim_end, white_space}
use solx.Rpc.Values.{Instruction}
use solx.Rpc.Client.{confirmed, submit_and_confirm}
use solx.Rpc.Client.Outcomes.{wire_params, submit_and_confirm_bounded}
use solx.Effects.{World}
use solx.Effects.Keeps.{sent}
use solx.Effects.Counts.{requests}
use solx.Effects.Sending.{OnlySends}
use solx.Commands.Instructions.{system_transfer}
use solx.Commands.Send.{or_default, send_transaction}
use solx.Commands.Send.Safe.{IsApproved, IsUnspoken, send_transaction_refused}
use solx.Commands.Transfer.{token_transfer}
use solx.Commands.Transfer.Tokens.{IsTokenTransfer, token_transfer-IsTokenTransfer}
use solx.Commands.CloseAta.{CloseCandidate, candidates_of, send_close_batches}
use solx.Commands.CloseAta.Batches.{Closes, send_close_batches-Closes}
use solx.Tests.World.{toy_crates, replicate, config}
use solx.Tests.Network.{toy_chain, toy_env, token_env, toy_rpc, toy_world, toy_identity}

abbrev after_submission : World
after_submission =
    (submit_and_confirm toy_env toy_chain toy_rpc (ascii "wire") (ascii "key") toy_world).1

submit_and_confirm_bounded_example :
    (sent after_submission.log ≡ wire_params toy_env toy_chain toy_rpc (ascii "wire") ∷ [])
    × (requests after_submission.log ≤ 21)
    × ((message : _)
        → (submit_and_confirm toy_env toy_chain toy_rpc (ascii "wire") (ascii "key") toy_world).0
          ≢ err message)
unfolding sent requests
submit_and_confirm_bounded_example =
    submit_and_confirm_bounded toy_env toy_chain toy_rpc (ascii "wire") (ascii "key") toy_world

abbrev IsKept : Type 0
IsKept =
    (submit_and_confirm toy_env toy_chain toy_rpc (ascii "wire") (ascii "key") toy_world).0
    ≡ ok (confirmed (ascii "key"))

abbrev one_transfer : List Instruction
one_transfer = system_transfer toy_chain toy_identity.pubkey (replicate 32 2) 5 ∷ []

abbrev IsSafe : Type 0
IsSafe =
    OnlySends
      (IsApproved toy_env toy_crates toy_chain toy_rpc toy_identity one_transfer false true none)
      (send_transaction toy_env toy_crates toy_chain toy_rpc toy_identity one_transfer false none)
      toy_world

unspoken_burn : trim (ascii "no\n") ≢ ascii "BURN"
unfolding trim trim_start trim_end white_space
unspoken_burn e = cc

unspoken_yes : trim (ascii "no\n") ≢ ascii "yes"
unfolding trim trim_start trim_end white_space
unspoken_yes e = cc

read_no : (input : Option Bytes) → ok (some (ascii "no\n")) ≡ ok input → input ≡ some (ascii "no\n")
read_no input e = sym (ok_inj e)

burn-IsUnspoken : IsUnspoken toy_env toy_crates toy_chain toy_rpc (ascii "BURN")
burn-IsUnspoken moment input e typed =
    unspoken_burn (ap (λ i. trim (or_default i)) (sym (read_no input e)) ∙ typed)

yes-IsUnspoken : IsUnspoken toy_env toy_crates toy_chain toy_rpc (ascii "yes")
yes-IsUnspoken moment input e typed =
    unspoken_yes (ap (λ i. trim (or_default i)) (sym (read_no input e)) ∙ typed)

send_transaction_refused_example :
    sent
      (send_transaction toy_env toy_crates toy_chain toy_rpc toy_identity one_transfer false none
        toy_world).1.log
    ≡ sent toy_world.log
send_transaction_refused_example =
    send_transaction_refused toy_env toy_crates toy_chain toy_rpc toy_identity one_transfer false
      none toy_world refl burn-IsUnspoken yes-IsUnspoken

abbrev transfer_words : List Bytes
transfer_words = ascii "--to" ∷ ascii "friend" ∷ ascii "--amount" ∷ ascii "1.5" ∷ []

abbrev token_words : List Bytes
token_words = ascii "--mint" ∷ ascii "Mint" ∷ transfer_words

token_transfer-IsTokenTransfer_example :
    OnlySends
      (IsTokenTransfer token_env toy_crates toy_chain token_words true)
      (token_transfer token_env toy_crates toy_chain token_words)
      toy_world
token_transfer-IsTokenTransfer_example =
    token_transfer-IsTokenTransfer token_env toy_crates toy_chain token_words toy_world

abbrev empty_account : CloseCandidate
empty_account = record {
  mint = ascii "Mint";
  address = ascii "ata";
  program = ascii "Token";
  raw_amount = 0;
  decimals = 0;
}

send_close_batches-Closes_example :
    Closes toy_env toy_crates toy_chain toy_rpc toy_identity config
      (empty_account ∷ [])
      (sent
        (send_close_batches toy_env toy_crates toy_chain toy_rpc toy_identity
          (empty_account ∷ [])
          toy_world).1.log)
      (sent toy_world.log)
send_close_batches-Closes_example =
    send_close_batches-Closes toy_env toy_crates toy_chain toy_rpc toy_identity (empty_account ∷ [])
      toy_world

abbrev after_selection : World
after_selection =
    (candidates_of token_env toy_crates toy_chain toy_rpc (ascii "owner") false false
      (ascii "Mint" ∷ []) toy_world).1
