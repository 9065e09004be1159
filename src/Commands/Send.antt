-- ===== src/Commands/Send.antt =====
-- `send_transaction` of src/commands.rs: from the instructions of a command to the transaction that is
-- submitted. What is printed before the approval is the event of the preview.
pub mod Silent
pub mod Signed
pub mod Prepared
pub mod Safe
use solx.Common.{
  ℕ, zero, suc, ◌+◌, ◌-◌, ◌^◌, Bool, true, false, not, ◌&&◌, List, [], ◌∷◌, Bytes, ascii, String,
  length, get_elem?, set_elem, Option, none, some, Result, ok, err, panicked, ok_or, fail_if, ltb,
  leb, if◌then◌else◌,
}
use solx.Common.Eq.{◌==◌, nat_eq, list_eq}
use solx.Common.Text.{trim}
use solx.Signer.{Keypair, pubkey, sign_message}
use solx.Vault.{PublicAccount}
use solx.Vault.Edit.{signer}
use solx.Vault.Session.{Crates, Session, load}
use solx.Rpc.Values.{AccountMeta, Instruction, Chain, and_then}
use solx.Rpc.Connection.{Rpc}
use solx.Rpc.Responses.{BlockhashContext}
use solx.Rpc.Client.{
  two, at_commitment, call, balance, account_info, latest_blockhash, block_height, fee_for_message,
  simulate_at, simulate, SubmissionOutcome, confirmed, unknown, submit_and_confirm,
}
use solx.Effects.{
  Doc, number, Method, Event, preview, question, Env, App, World, Effect, ◌>>=◌, ◌>>◌, lift, pure,
  attempt, emit, the_app, ask, access,
}
use solx.App.{unlock, release_session}
use solx.Commands.Limits.{max_compute_units, tuned_compute_limit, spend_all_lamports}
use solx.Commands.Instructions.{associated_token, system_transfer, set_compute_unit_limit}
use solx.Commands.Transactions.{
  max_transaction_bytes, Transaction, serialize, first_of, compile_unsigned, check_simulation,
  ensure_all_would_drain, validate_signer,
}

pub record SpendAll : Type 0 where
  pub balance : ℕ
  pub target : Bytes

-- What is resolved before the approval: the instructions, the transaction to simulate, the fee and the
-- rent, and the amount of a transfer of everything.
pub record Resolved : Type 0 where
  pub instructions : List Instruction
  pub simulation_wire : Bytes
  pub fee : ℕ
  pub rent : ℕ
  pub all_amount : Option ℕ

pub record Quote : Type 0 where
  pub instructions : List Instruction
  pub expected : Option (ℕ × ℕ)

abbrev pub is_empty : List Instruction → Bool
is_empty [] = true
is_empty (instruction ∷ rest) = false

-- `u64::checked_add`
abbrev pub checked_add : ℕ → ℕ → Option ℕ
checked_add a b = if ltb (a + b) (2 ^ 64) then some (a + b) else none

-- `unwrap_or_default`
abbrev pub or_default : Option Bytes → Bytes
or_default none = []
or_default (some line) = line

abbrev pub to_index : Bool → ℕ
to_index false = 0
to_index true = 1

abbrev pub amount_of : Option (ℕ × ℕ) → Option ℕ
amount_of none = none
amount_of (some (fee, amount)) = some amount

module _ (env : Env) (crates : Crates) (chain : Chain) (rpc : Rpc) where
  -- The rent of one account that does not exist yet, on top of that before.
  abbrev pub add_rent : ℕ → Option Bytes → Effect ℕ
  add_rent rent (some info) = pure rent
  add_rent rent none = do
    result ← call env chain rpc Method.get_minimum_balance (two (number 165) at_commitment)
    quote ← lift (ok_or (chain.values.as_u64 result) "invalid rent quote")
    lift (ok_or (checked_add rent quote) "rent overflow")

  -- The loop of `ata_rent_quote`, with the rent so far.
  unfoldable pub quote_from : ℕ → List Instruction → Effect ℕ
  quote_from rent [] = pure rent
  quote_from rent (instruction ∷ instructions) = do
    let skipped = quote_from rent instructions
    let further = λ (r : ℕ). quote_from r instructions
    if not (instruction.program_id == associated_token chain) then skipped else (do
      destination ← lift (ok_or (get_elem? instruction.accounts 1) "invalid ATA instruction")
      info ← account_info env chain rpc destination.pubkey
      more ← add_rent rent info
      further more)

  unfoldable pub ata_rent_quote : List Instruction → Effect ℕ
  unfolding quote_from
  ata_rent_quote instructions = quote_from 0 instructions

  -- The probe of the compute units, and the limit that it leads to.
  abbrev pub tune : Bool → Bytes → ℕ → List Instruction → Bytes → Effect (List Instruction)
  tune false payer percent instructions hash = pure instructions
  tune true payer percent instructions hash = do
    let budgeted = set_compute_unit_limit chain max_compute_units ∷ instructions
    probe_wire ← lift (compile_unsigned chain payer budgeted hash)
    probe ← simulate env chain rpc probe_wire.1
    lift (check_simulation chain probe)
    used ← lift (
        ok_or (and_then (chain.values.get probe (ascii "unitsConsumed")) chain.values.as_u64)
          "RPC simulation omitted compute units; cannot tune limit")
    limit ← lift (tuned_compute_limit used percent)
    pure (set_elem budgeted 0 (set_compute_unit_limit chain limit))

  -- The amount of a transfer of everything, and the fee it leaves room for.
  abbrev pub resolve_all : Option SpendAll → Bool → Bytes → List Instruction → Bytes → Effect Quote
  resolve_all none optimize payer instructions hash =
      pure (record { instructions = instructions; expected = none })
  resolve_all (some all) optimize payer instructions hash = do
    provisional ← lift (compile_unsigned chain payer instructions hash)
    fee ← fee_for_message env chain rpc provisional.0.message
    amount ← lift (spend_all_lamports all.balance fee)
    pure (record {
      instructions =
          set_elem instructions (to_index optimize) (system_transfer chain payer all.target amount);
      expected = some (fee, amount);
    })

  abbrev pub same_fee : Option (ℕ × ℕ) → Bytes → Effect (Unit {0})
  same_fee none message = pure tt
  same_fee (some (fee, amount)) message = do
    final ← fee_for_message env chain rpc message
    lift (
        fail_if (not (final == fee))
          "transaction fee changed while resolving ALL; retry the transfer")

  -- From the start of `send_transaction` to the summary.
  unfoldable pub resolve : Bytes → List Instruction → Option SpendAll → Effect Resolved
  unfolding ata_rent_quote
  resolve payer instructions spend_all = do
    lift (fail_if (is_empty instructions) "invalid instruction count")
    app ← the_app
    context ← latest_blockhash env chain rpc
    let security = app.config.security
    let optimize = security.simulate_before_send && security.optimize_compute_units
    tuned ← tune optimize payer security.compute_unit_margin_percent instructions context.hash
    quote ← resolve_all spend_all optimize payer tuned context.hash
    unsigned ← lift (compile_unsigned chain payer quote.instructions context.hash)
    fee ← fee_for_message env chain rpc unsigned.0.message
    rent ← ata_rent_quote quote.instructions
    same_fee quote.expected unsigned.0.message
    pure (record {
      instructions = quote.instructions;
      simulation_wire = unsigned.1;
      fee = fee;
      rent = rent;
      all_amount = amount_of quote.expected;
    })

  abbrev pub drains : Option SpendAll → Bytes → Result (Unit {0})
  drains none simulation = ok tt
  drains (some all) simulation = ensure_all_would_drain chain simulation

  abbrev pub simulate_preview : Bool → Bytes → Option SpendAll → Effect (Unit {0})
  simulate_preview false wire spend_all = pure tt
  simulate_preview true wire spend_all = do
    simulation ← simulate env chain rpc wire
    lift (check_simulation chain simulation)
    lift (drains spend_all simulation)

  -- A question that only one answer lets pass.
  unfoldable pub demand : String → Bytes → Effect (Unit {0})
  unfolding trim
  demand prompt word = do
    emit (question (ascii prompt))
    input ← ask env.line
    lift (fail_if (not (trim (or_default input) == word)) "transaction cancelled")

  abbrev pub approve : Bool → Bool → Effect (Unit {0})
  approve true confirm_every =
      demand "Burn tokens and send transaction? Type 'BURN': " (ascii "BURN")
  approve false true = demand "Send transaction? Type 'yes': " (ascii "yes")
  approve false false = pure tt

  -- The summary, the preview of the simulation, and the approval.
  unfoldable pub review : Resolved → Bool → Option SpendAll → Effect (Unit {0})
  unfolding demand
  review r burn_confirmation spend_all = do
    emit (preview r.fee r.rent r.all_amount)
    app ← the_app
    simulate_preview app.config.security.simulate_before_send r.simulation_wire spend_all
    approve burn_confirmation app.config.security.confirm_every_transaction

  abbrev pub same_balance : Option SpendAll → Bytes → Effect (Unit {0})
  same_balance none payer = pure tt
  same_balance (some all) payer = do
    now ← balance env chain rpc payer
    lift (
        fail_if (not (now == all.balance))
          "ALL balance changed after approval; nothing sent, review the command again")

  -- `app.session.as_ref().ok_or(..)?.load()?.signer(..)`, and the check of its address
  unfoldable pub signing_key : PublicAccount → Effect Keypair
  unfolding load
  signing_key identity = do
    app ← the_app
    session ← lift (ok_or app.session "signing session is locked")
    vault ← access (λ moment disk. (load crates session (env.faults moment) disk, disk))
    key ← lift (signer crates.crypto vault identity.name)
    lift (
        fail_if (not (pubkey crates.crypto.ed25519 key == identity.pubkey))
          "wallet identity changed after approval")
    pure key

  unfoldable pub refresh_and_sign :
      PublicAccount → List Instruction → ℕ → ℕ → Option SpendAll → Effect Transaction
  unfolding ata_rent_quote signing_key sign_message
  refresh_and_sign identity instructions fee rent spend_all = do
    context ← latest_blockhash env chain rpc
    unsigned ← lift (compile_unsigned chain identity.pubkey instructions context.hash)
    fee_now ← fee_for_message env chain rpc unsigned.0.message
    lift (
        fail_if (not (fee_now == fee))
          "fee or rent changed after approval; nothing sent, review the command again")
    rent_now ← ata_rent_quote instructions
    lift (
        fail_if (not (rent_now == rent))
          "fee or rent changed after approval; nothing sent, review the command again")
    same_balance spend_all identity.pubkey
    simulation ← simulate_at env chain rpc unsigned.1 context.context_slot
    lift (check_simulation chain simulation)
    lift (drains spend_all simulation)
    message ← lift (chain.serialize_message unsigned.0.message)
    key ← signing_key identity
    lift (validate_signer chain crates.crypto.ed25519 unsigned.0.message key)
    height ← block_height env chain rpc context
    lift (
        fail_if (leb (context.last_valid_block_height - 5) height)
          "fresh transaction is too close to expiry; nothing sent, retry preparation")
    pure (record {
      transaction_signatures =
          set_elem unsigned.0.transaction_signatures 0
            (sign_message crates.crypto.ed25519 key message);
      message = unsigned.0.message;
    })

  -- The part of `send_transaction` that the password is needed for.
  unfoldable pub sign_resolved : PublicAccount → Resolved → Option SpendAll → Effect Transaction
  unfolding unlock refresh_and_sign release_session
  sign_resolved identity r spend_all = do
    session ← unlock env crates
    result ← attempt (refresh_and_sign identity r.instructions r.fee r.rent spend_all)
    release_session
    lift result

  abbrev pub was_confirmed : SubmissionOutcome → Bool
  was_confirmed (confirmed signature) = true
  was_confirmed (unknown signature) = false

  unfoldable pub deliver : Transaction → Effect Bool
  deliver transaction = do
    signature ←
        lift (
          ok_or (first_of transaction.transaction_signatures) "signed transaction has no signature")
    wire ← lift (serialize chain transaction)
    lift (
        fail_if (ltb max_transaction_bytes (length wire))
          "signed transaction exceeds 1232-byte packet limit")
    outcome ← submit_and_confirm env chain rpc wire signature
    pure (was_confirmed outcome)

  unfoldable pub send_transaction :
      PublicAccount → List Instruction → Bool → Option SpendAll → Effect Bool
  unfolding resolve review sign_resolved deliver
  send_transaction identity instructions burn_confirmation spend_all = do
    r ← resolve identity.pubkey instructions spend_all
    review r burn_confirmation spend_all
    transaction ← sign_resolved identity r spend_all
    deliver transaction
