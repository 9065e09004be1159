-- ===== src/Commands/Transfer.antt =====
-- The commands `transfer` and `token-transfer` of src/commands.rs.
pub mod Safe
pub mod Tokens
use solx.Common.{
  ℕ, ◌+◌, Bool, true, false, not, ◌&&◌, ◌||◌, List, [], ◌∷◌, Bytes, ascii, Option, none, some,
  Result, ok, err, panicked, ok_or, fail_if, ltb, if◌then◌else◌,
}
use solx.Common.Eq.{◌==◌, nat_eq, list_eq}
use solx.Vault.{PublicVault, PublicAccount}
use solx.Vault.Public.{has_public, find_public, name_or_first, knows_recipient}
use solx.Vault.Session.{Crates}
use solx.Rpc.Values.{Chain, Instruction, and_then}
use solx.Rpc.Connection.{Rpc}
use solx.Rpc.Client.{balance, account_info, token_balance, token_decimals}
use solx.Effects.{Env, Effect, ◌>>=◌, ◌>>◌, lift, pure}
use solx.App.{done, public_vault, remember_recipient, rpc}
use solx.Commands.Options.{Options, parse_options, get_option}
use solx.Commands.Amount.{parse_amount}
use solx.Commands.Instructions.{
  token_program, token_2022, ata, system_transfer, create_ata_idempotent, transfer_checked,
}
use solx.Commands.Send.{SpendAll, send_transaction}

-- `Options::required`
unfoldable pub required : Options → Bytes → Result Bytes
required options name = ok_or (get_option options name) "missing option"

abbrev pub address_of : Result PublicAccount → Result Bytes
address_of (ok account) = ok account.pubkey
address_of (err message) = err message
address_of panicked = panicked

module _ (chain : Chain) where
  unfoldable pub target_address : PublicVault → Bytes → Result Bytes
  unfolding has_public find_public
  target_address v value =
      if has_public v value then address_of (find_public v value) else chain.parse_key value

  unfoldable pub ensure_transfer_program : Bytes → Result (Unit {0})
  ensure_transfer_program program =
      fail_if (not (program == token_program chain))
        "Token-2022 transfers are disabled until extension fees and net receipts can be reviewed and enforced; legacy SPL transfers remain supported"

abbrev pub lamports_of : Bool → Bytes → Result ℕ
lamports_of true amount = ok 0
lamports_of false amount = parse_amount amount 9

module _ (env : Env) (crates : Crates) (chain : Chain) where
  -- The warnings are printed only.
  unfoldable pub warn_destination : Rpc → Bytes → Effect (Unit {0})
  warn_destination client target = do lamports ← balance env chain client target; pure done

  unfoldable pub mint_program : Rpc → Bytes → Effect Bytes
  mint_program client mint = do
    found ← account_info env chain client mint
    info ← lift (ok_or found "mint account does not exist")
    owner ← lift (
        ok_or (and_then (chain.values.get info (ascii "owner")) chain.values.as_str)
          "invalid mint owner")
    key ← lift (chain.parse_key owner)
    lift (
        fail_if (not (key == token_program chain) && not (key == token_2022 chain))
          "mint is not owned by an SPL Token program")
    pure key

  abbrev pub spend_all_of : Bool → Rpc → Bytes → Bytes → Effect (Option SpendAll)
  spend_all_of false client source target = pure none
  spend_all_of true client source target = do
    lamports ← balance env chain client source
    pure (some (record { balance = lamports; target = target }))

  -- A recipient is remembered after a confirmed transfer, unless it is known.
  abbrev pub remember_if : Bool → Bytes → Effect (Unit {0})
  remember_if false target = pure done
  remember_if true target = remember_recipient env crates target

  unfoldable pub transfer : List Bytes → Effect (Unit {0})
  unfolding parse_options required target_address name_or_first find_public warn_destination
      send_transaction
  transfer args = do
    options ← lift (parse_options args (ascii "wallet" ∷ ascii "to" ∷ ascii "amount" ∷ []))
    v ← public_vault env crates
    name ← lift (name_or_first v (get_option options (ascii "wallet")))
    source ← lift (find_public v name)
    to ← lift (required options (ascii "to"))
    target ← lift (target_address chain v to)
    amount ← lift (required options (ascii "amount"))
    let all = amount == ascii "ALL"
    lamports ← lift (lamports_of all amount)
    lift (fail_if (not all && lamports == 0) "amount must be positive")
    lift (fail_if (source.pubkey == target) "cannot transfer to the same wallet")
    client ← rpc env crates chain
    warn_destination client target
    spend_all ← spend_all_of all client source.pubkey target
    sent ←
        send_transaction env crates chain client source
          (system_transfer chain source.pubkey target lamports ∷ []) false spend_all
    remember_if (sent && not (knows_recipient v target)) target

  unfoldable pub token_transfer : List Bytes → Effect (Unit {0})
  unfolding parse_options required target_address name_or_first find_public mint_program
      warn_destination send_transaction
  token_transfer args = do
    options ←
        lift (parse_options args (ascii "wallet" ∷ ascii "mint" ∷ ascii "to" ∷ ascii "amount" ∷ []))
    v ← public_vault env crates
    name ← lift (name_or_first v (get_option options (ascii "wallet")))
    source ← lift (find_public v name)
    mint_text ← lift (required options (ascii "mint"))
    mint ← lift (chain.parse_key mint_text)
    to ← lift (required options (ascii "to"))
    target ← lift (target_address chain v to)
    lift (fail_if (source.pubkey == target) "cannot transfer to the same wallet")
    client ← rpc env crates chain
    program ← mint_program client mint
    lift (ensure_transfer_program chain program)
    decimals ← token_decimals env chain client mint
    amount_text ← lift (required options (ascii "amount"))
    amount ← lift (parse_amount amount_text decimals)
    lift (fail_if (amount == 0) "amount must be positive")
    let source_ata = ata chain source.pubkey mint program
    let destination_ata = ata chain target mint program
    found ← token_balance env chain client source_ata
    held ← lift (ok_or found "source associated token account does not exist")
    lift (fail_if (ltb held amount) "insufficient token balance")
    warn_destination client target
    sent ←
        send_transaction env crates chain client source
          (create_ata_idempotent chain source.pubkey target mint program
            ∷ transfer_checked source_ata mint destination_ata source.pubkey amount decimals program
            ∷ [])
          false none
    remember_if (sent && not (knows_recipient v target)) target
