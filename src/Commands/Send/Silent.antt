-- ===== src/Commands/Send/Silent.antt =====
-- The parts of `send_transaction` of src/commands.rs before the submission send no transaction and change
-- no settings.
use solx.Common.{ℕ, refl, Bool, true, false, not, List, [], ◌∷◌, Bytes, String, Option, none, some}
use solx.Common.Eq.{◌==◌, nat_eq, list_eq}
use solx.Effects.{Env}
use solx.Effects.Keeps.{
  Silent, Silent-ask, Keeps-lift, Keeps-pure, Keeps-attempt, Keeps-if, Keeps->>=,
}
use solx.Effects.Sending.{Silent-the_app, Silent-preview, Silent-question, Silent-access}
use solx.Vault.{PublicAccount}
use solx.Vault.Session.{Crates}
use solx.Rpc.Values.{Instruction, Chain}
use solx.Rpc.Connection.{Rpc}
use solx.Rpc.Client.Queries.{
  call-Silent, balance-Silent, account_info-Silent, latest_blockhash-Silent, block_height-Silent,
  simulate_at-Silent, simulate-Silent, fee_for_message-Silent,
}
use solx.App.Silent.{unlock-Silent, release_session-Silent}
use solx.Commands.Instructions.{associated_token}
use solx.Commands.Send.{
  SpendAll, Resolved, add_rent, quote_from, ata_rent_quote, tune, resolve_all, same_fee, resolve,
  simulate_preview, demand, approve, review, same_balance, signing_key, refresh_and_sign,
  sign_resolved,
}

module _ (env : Env) (crates : Crates) (chain : Chain) (rpc : Rpc) where
  add_rent-Silent :
      (rent : ℕ) (info : Option Bytes) → Silent (add_rent env crates chain rpc rent info)
  add_rent-Silent rent (some info) = Keeps-pure rent
  add_rent-Silent rent none =
      Keeps->>= (call-Silent env chain rpc _ _ (λ p r. refl))
        (λ result. Keeps->>= (Keeps-lift _) (λ quote. Keeps-lift _))

  quote_from-Silent :
      (rent : ℕ) (instructions : List Instruction)
      → Silent (quote_from env crates chain rpc rent instructions)
  unfolding quote_from
  quote_from-Silent rent [] = Keeps-pure rent
  quote_from-Silent rent (instruction ∷ instructions) =
      Keeps-if (not (instruction.program_id == associated_token chain))
        (quote_from-Silent rent instructions)
        (Keeps->>= (Keeps-lift _) (λ destination.
          Keeps->>= (account_info-Silent env chain rpc _) (λ info.
            Keeps->>= (add_rent-Silent rent info) (λ more. quote_from-Silent more instructions))))

  ata_rent_quote-Silent :
      (instructions : List Instruction) → Silent (ata_rent_quote env crates chain rpc instructions)
  unfolding ata_rent_quote
  ata_rent_quote-Silent instructions = quote_from-Silent 0 instructions

  tune-Silent :
      (optimize : Bool) (payer : Bytes) (percent : ℕ) (instructions : List Instruction)
      (hash : Bytes)
      → Silent (tune env crates chain rpc optimize payer percent instructions hash)
  tune-Silent false payer percent instructions hash = Keeps-pure instructions
  tune-Silent true payer percent instructions hash = Keeps->>= (Keeps-lift _) (λ probe_wire.
      Keeps->>= (simulate-Silent env chain rpc _) (λ probe. Keeps->>= (Keeps-lift _) (λ passed.
        Keeps->>= (Keeps-lift _) (λ used. Keeps->>= (Keeps-lift _) (λ limit. Keeps-pure _)))))

  resolve_all-Silent :
      (all : Option SpendAll) (optimize : Bool) (payer : Bytes) (instructions : List Instruction)
      (hash : Bytes)
      → Silent (resolve_all env crates chain rpc all optimize payer instructions hash)
  resolve_all-Silent none optimize payer instructions hash = Keeps-pure _
  resolve_all-Silent (some all) optimize payer instructions hash =
      Keeps->>= (Keeps-lift _) (λ provisional.
        Keeps->>= (fee_for_message-Silent env chain rpc _)
          (λ fee. Keeps->>= (Keeps-lift _) (λ amount. Keeps-pure _)))

  same_fee-Silent :
      (expected : Option (ℕ × ℕ)) (message : Bytes)
      → Silent (same_fee env crates chain rpc expected message)
  same_fee-Silent none message = Keeps-pure tt
  same_fee-Silent (some (fee, amount)) message =
      Keeps->>= (fee_for_message-Silent env chain rpc message) (λ final. Keeps-lift _)

  pub resolve-Silent :
      (payer : Bytes) (instructions : List Instruction) (spend_all : Option SpendAll)
      → Silent (resolve env crates chain rpc payer instructions spend_all)
  unfolding resolve
  resolve-Silent payer instructions spend_all = Keeps->>= (Keeps-lift _) (λ checked.
      Keeps->>= Silent-the_app (λ app. Keeps->>= (latest_blockhash-Silent env chain rpc) (λ context.
        Keeps->>= (tune-Silent _ payer _ instructions _) (λ tuned.
          Keeps->>= (resolve_all-Silent spend_all _ payer tuned _) (λ quote.
            Keeps->>= (Keeps-lift _) (λ unsigned.
              Keeps->>= (fee_for_message-Silent env chain rpc _) (λ fee.
                Keeps->>= (ata_rent_quote-Silent _)
                  (λ rent. Keeps->>= (same_fee-Silent _ _) (λ same. Keeps-pure _)))))))))

  simulate_preview-Silent :
      (simulating : Bool) (wire : Bytes) (spend_all : Option SpendAll)
      → Silent (simulate_preview env crates chain rpc simulating wire spend_all)
  simulate_preview-Silent false wire spend_all = Keeps-pure tt
  simulate_preview-Silent true wire spend_all =
      Keeps->>= (simulate-Silent env chain rpc wire)
        (λ simulation. Keeps->>= (Keeps-lift _) (λ passed. Keeps-lift _))

  demand-Silent :
      (prompt : String) (word : Bytes) → Silent (demand env crates chain rpc prompt word)
  unfolding demand
  demand-Silent prompt word =
      Keeps->>= (Silent-question _) (λ asked. Keeps->>= (Silent-ask _) (λ input. Keeps-lift _))

  approve-Silent :
      (burn confirm_every : Bool) → Silent (approve env crates chain rpc burn confirm_every)
  approve-Silent true confirm_every = demand-Silent _ _
  approve-Silent false true = demand-Silent _ _
  approve-Silent false false = Keeps-pure tt

  pub review-Silent :
      (r : Resolved) (burn : Bool) (spend_all : Option SpendAll)
      → Silent (review env crates chain rpc r burn spend_all)
  unfolding review
  review-Silent r burn spend_all = Keeps->>= (Silent-preview _ _ _) (λ shown.
      Keeps->>= Silent-the_app (λ app.
        Keeps->>= (simulate_preview-Silent _ _ spend_all) (λ passed. approve-Silent burn _)))

  same_balance-Silent :
      (all : Option SpendAll) (payer : Bytes) → Silent (same_balance env crates chain rpc all payer)
  same_balance-Silent none payer = Keeps-pure tt
  same_balance-Silent (some all) payer =
      Keeps->>= (balance-Silent env chain rpc payer) (λ now. Keeps-lift _)

  signing_key-Silent :
      (identity : PublicAccount) → Silent (signing_key env crates chain rpc identity)
  unfolding signing_key
  signing_key-Silent identity = Keeps->>= Silent-the_app (λ app.
      Keeps->>= (Keeps-lift _) (λ session. Keeps->>= (Silent-access _) (λ vault.
        Keeps->>= (Keeps-lift _) (λ key. Keeps->>= (Keeps-lift _) (λ same. Keeps-pure key)))))

  refresh_and_sign-Silent :
      (identity : PublicAccount) (instructions : List Instruction) (fee rent : ℕ)
      (spend_all : Option SpendAll)
      → Silent (refresh_and_sign env crates chain rpc identity instructions fee rent spend_all)
  unfolding refresh_and_sign
  refresh_and_sign-Silent identity instructions fee rent spend_all =
      Keeps->>= (latest_blockhash-Silent env chain rpc) (λ context.
        Keeps->>= (Keeps-lift _) (λ unsigned.
          Keeps->>= (fee_for_message-Silent env chain rpc _) (λ fee_now.
            Keeps->>= (Keeps-lift _) (λ same_fee.
              Keeps->>= (ata_rent_quote-Silent instructions) (λ rent_now.
                Keeps->>= (Keeps-lift _) (λ same_rent.
                  Keeps->>= (same_balance-Silent spend_all _) (λ same.
                    Keeps->>= (simulate_at-Silent env chain rpc _ _) (λ simulation.
                      Keeps->>= (Keeps-lift _) (λ passed. Keeps->>= (Keeps-lift _) (λ drained.
                        Keeps->>= (Keeps-lift _) (λ message.
                          Keeps->>= (signing_key-Silent identity) (λ key.
                            Keeps->>= (Keeps-lift _) (λ valid.
                              Keeps->>= (block_height-Silent env chain rpc context) (λ height.
                                Keeps->>= (Keeps-lift _) (λ live. Keeps-pure _)))))))))))))))

  pub sign_resolved-Silent :
      (identity : PublicAccount) (r : Resolved) (spend_all : Option SpendAll)
      → Silent (sign_resolved env crates chain rpc identity r spend_all)
  unfolding sign_resolved
  sign_resolved-Silent identity r spend_all = Keeps->>= (unlock-Silent env crates) (λ session.
      Keeps->>= (Keeps-attempt _ (refresh_and_sign-Silent identity _ _ _ spend_all))
        (λ result. Keeps->>= release_session-Silent (λ released. Keeps-lift result)))
