-- ===== src/Commands/CloseAta.antt =====
-- The command `close-ata` of src/commands.rs: the accounts that may be closed, and the batches in which
-- they are. The counts that are printed are left out, but for those of the accounts left out.
pub mod Batches
pub mod Candidates
use solx.Common.{
  ℕ, ◌+◌, Bool, true, false, not, ◌&&◌, ◌||◌, List, [], ◌∷◌, ◌++◌, Bytes, ascii, any, length, leb,
  Option, none, some, Result, ok, err, panicked, ok_or, fail_if, if◌then◌else◌,
}
use solx.Common.Eq.{◌==◌, nat_eq, list_eq, option_eq}
use solx.Vault.{PublicAccount}
use solx.Vault.Public.{find_public, name_or_first}
use solx.Vault.Session.{Crates}
use solx.Rpc.Values.{Instruction, Chain, and_then}
use solx.Rpc.Connection.{Rpc}
use solx.Rpc.Responses.{TokenAccount}
use solx.Rpc.Client.{account_info, token_balance, token_decimals, token_accounts}
use solx.Effects.{Env, Effect, ◌>>=◌, ◌>>◌, lift, pure, the_app}
use solx.App.{done, public_vault, rpc}
use solx.Commands.CloseSelection.{parse_close_selection}
use solx.Commands.Limits.{max_compute_units}
use solx.Commands.Instructions.{
  is_native_mint, token_program, token_2022, ata, set_compute_unit_limit, burn_checked,
  close_token_account,
}
use solx.Commands.Transactions.{close_batch_fits}
use solx.Commands.Send.{is_empty, send_transaction}
use solx.Commands.Transfer.{mint_program}

pub record CloseCandidate : Type 0 where
  pub mint : Bytes
  pub address : Bytes
  pub program : Bytes
  pub raw_amount : ℕ
  pub decimals : ℕ

pub data CloseEligibility : Type 0 where
  eligible : CloseCandidate → CloseEligibility
  non_empty non_associated : CloseEligibility

-- What `eligible_atas` collects.
pub record Found : Type 0 where
  pub candidates : List CloseCandidate
  pub nonempty : ℕ
  pub non_ata : ℕ
  pub seen : List Bytes

abbrev pub nothing_found : Found
nothing_found = record { candidates = []; nonempty = 0; non_ata = 0; seen = [] }

-- A hash set of keys: whether it has one, and its insertion.
abbrev pub holds : List Bytes → Bytes → Bool
holds seen key = any (λ k. k == key) seen

module _ (chain : Chain) where
  unfoldable pub requires_burn : CloseCandidate → Bool
  unfolding is_native_mint
  requires_burn c = not (c.raw_amount == 0) && not (is_native_mint chain c.mint c.program)

  -- What `append_instructions` pushes.
  unfoldable pub close_instructions : Bytes → CloseCandidate → List Instruction
  unfolding requires_burn
  close_instructions authority c =
      let close = close_token_account c.address authority c.program in
      if requires_burn c
      then burn_checked c.address c.mint authority c.raw_amount c.decimals c.program ∷ close ∷ []
      else close ∷ []

  unfoldable pub append_instructions : Bytes → CloseCandidate → List Instruction → List Instruction
  unfolding close_instructions
  append_instructions authority c instructions = instructions ++ close_instructions authority c

  unfoldable pub close_eligibility : Bytes → Bytes → TokenAccount → Bool → CloseEligibility
  close_eligibility owner program account burn =
      if not (account.address == ata chain owner account.mint program)
      then non_associated
      else (if not (account.raw_amount == 0) && not burn
          then non_empty
          else eligible (record {
            mint = account.mint;
            address = account.address;
            program = program;
            raw_amount = account.raw_amount;
            decimals = account.decimals;
          }))

  abbrev pub add_found : Found → CloseEligibility → Found
  add_found found non_associated = record found { non_ata = found.non_ata + 1 }
  add_found found non_empty = record found { nonempty = found.nonempty + 1 }
  add_found found (eligible c) =
      if holds found.seen c.address
      then found
      else record found { candidates = found.candidates ++ c ∷ []; seen = c.address ∷ found.seen }

  -- The accounts of one program.
  unfoldable pub add_accounts : Bytes → Bytes → Bool → Found → List TokenAccount → Found
  unfolding close_eligibility
  add_accounts owner program burn found [] = found
  add_accounts owner program burn found (account ∷ accounts) =
      add_accounts owner program burn
        (add_found found (close_eligibility owner program account burn)) accounts

module _ (env : Env) (crates : Crates) (chain : Chain) where
  unfoldable pub eligible_atas : Rpc → Bytes → Bool → Effect Found
  unfolding add_accounts
  eligible_atas client owner burn = do
    legacy ← token_accounts env chain client owner (token_program chain)
    newer ← token_accounts env chain client owner (token_2022 chain)
    pure (
        add_accounts chain owner (token_2022 chain) burn
          (add_accounts chain owner (token_program chain) burn nothing_found legacy) newer)

  abbrev pub decimals_for : Bool → Rpc → Bytes → Effect ℕ
  decimals_for false client mint = pure 0
  decimals_for true client mint = token_decimals env chain client mint

  -- One mint of `selected_atas`.
  unfoldable pub select_ata : Rpc → Bytes → Bool → Bytes → Effect CloseCandidate
  unfolding is_native_mint
  select_ata client owner burn mint = do
    program ← mint_program env crates chain client mint
    let address = ata chain owner mint program
    found ← account_info env chain client address
    info ← lift (ok_or found "associated token account does not exist")
    lift (
        fail_if
          (not (
            and_then (chain.values.get info (ascii "owner")) chain.values.as_str
            == some (chain.key_text program)))
          "associated token account has unexpected owner program")
    amount ← token_balance env chain client address
    raw_amount ← lift (ok_or amount "associated token account missing")
    lift (fail_if (not (raw_amount == 0) && not burn) "associated token account is not empty")
    decimals ←
        decimals_for (not (raw_amount == 0) && not (is_native_mint chain mint program)) client mint
    pure (record {
      mint = mint;
      address = address;
      program = program;
      raw_amount = raw_amount;
      decimals = decimals;
    })

  -- The loop of `selected_atas`, with the mints seen before.
  unfoldable pub select_atas :
      Rpc → Bytes → Bool → List Bytes → List Bytes → Effect (List CloseCandidate)
  unfolding select_ata
  select_atas client owner burn seen [] = pure []
  select_atas client owner burn seen (text ∷ texts) = do
    let further = λ (known : List Bytes). select_atas client owner burn known texts
    mint ← lift (chain.parse_key text)
    lift (fail_if (holds seen mint) "duplicate mint address")
    candidate ← select_ata client owner burn mint
    candidates ← further (mint ∷ seen)
    pure (candidate ∷ candidates)

  unfoldable pub selected_atas : Rpc → Bytes → List Bytes → Bool → Effect (List CloseCandidate)
  unfolding select_atas
  selected_atas client owner mints burn = select_atas client owner burn [] mints

  unfoldable pub send_close_batch :
      Rpc → PublicAccount → List Instruction → List CloseCandidate → Effect Bool
  unfolding requires_burn
  send_close_batch client signer instructions candidates =
      send_transaction env crates chain client signer instructions
        (any (requires_burn chain) candidates) none

  -- The loop of `send_close_batches`, with the instructions and the candidates of the open batch.
  unfoldable pub close_from :
      Rpc
      → PublicAccount
      → Bool
      → List Instruction
      → List CloseCandidate
      → List CloseCandidate
      → Effect (Unit {0})
  unfolding close_batch_fits append_instructions send_close_batch
  close_from client signer budget instructions batch [] =
      if is_empty instructions
      then pure done
      else (do sent ← send_close_batch client signer instructions batch; pure done)
  close_from client signer budget instructions batch (c ∷ candidates) = do
    let added = append_instructions chain signer.pubkey c instructions
    let alone = append_instructions chain signer.pubkey c []
    let extended = close_from client signer budget added (batch ++ c ∷ []) candidates
    let restarted = close_from client signer budget alone (c ∷ []) candidates
    fits ← lift (close_batch_fits chain signer.pubkey added budget)
    if fits then extended else (do
      lift (
          fail_if (leb (length batch) 0) "one close instruction exceeds the transaction size limit")
      sent ← send_close_batch client signer instructions batch
      if not sent then pure done else (do
        fits_alone ← lift (close_batch_fits chain signer.pubkey alone budget)
        lift (fail_if (not fits_alone) "one close instruction exceeds the transaction size limit")
        restarted))

  unfoldable pub send_close_batches : Rpc → PublicAccount → List CloseCandidate → Effect (Unit {0})
  unfolding close_from
  send_close_batches client signer [] = pure done
  send_close_batches client signer (c ∷ candidates) = do
    app ← the_app
    let security = app.config.security
    close_from client signer (security.simulate_before_send && security.optimize_compute_units) []
        [] (c ∷ candidates)

  abbrev pub candidates_of : Rpc → Bytes → Bool → Bool → List Bytes → Effect (List CloseCandidate)
  candidates_of client owner true burn mints = do
    found ← eligible_atas client owner burn
    pure found.candidates
  candidates_of client owner false burn mints = selected_atas client owner mints burn

  unfoldable pub close_ata : List Bytes → Effect (Unit {0})
  unfolding parse_close_selection name_or_first find_public eligible_atas selected_atas
      send_close_batches
  close_ata args = do
    selection ← lift (parse_close_selection args)
    v ← public_vault env crates
    name ← lift (name_or_first v selection.wallet)
    signer ← lift (find_public v name)
    client ← rpc env crates chain
    candidates ← candidates_of client signer.pubkey selection.all selection.burn selection.mints
    send_close_batches client signer candidates
