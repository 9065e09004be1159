-- ===== src/Commands/Send/Safe.antt =====
-- What a run of `send_transaction` of src/commands.rs sends.
use solx.Common.{
  ℕ, ◌≤◌, ◌≡◌, ◌≢◌, ◌||◌, inl, inr, ascii, refl, sym, ap, ◌∙◌, Bool, true, false, List, Bytes,
  length, Option, Result, ok, ltb, arith,
}
use mathlib.Core.Path.{subst}
use solx.Config.{Config}
use solx.Common.Text.{trim}
use solx.Vault.{PublicAccount}
use solx.Vault.Session.{Crates}
use solx.Rpc.Values.{Instruction, Chain}
use solx.Rpc.Connection.{Rpc}
use solx.Rpc.Client.Outcomes.{wire_params, submit_and_confirm-Sends, submit_and_confirm-Keeps}
use solx.Effects.{Doc, Env, World}
use solx.Effects.Runs.{Returns-lift}
use solx.Effects.Keeps.{
  sent, Silent-Quiet, Silent-config, Sends->>=, Keeps, settings, Silent-settings, Keeps-lift,
  Keeps-pure, Keeps->>=,
}
use solx.Effects.Sending.{OnlySends, Sends-OnlySends, OnlySends->>=, OnlySends-implies}
use solx.Commands.Transactions.{max_transaction_bytes, Transaction, serialize}
use solx.Commands.Send.{or_default, SpendAll, Resolved, deliver, send_transaction}
use solx.Commands.Send.Silent.{resolve-Silent, review-Silent, sign_resolved-Silent}
use solx.Commands.Send.Signed.{IsSigned, sign_resolved-Returns, passed}
use solx.Commands.Send.Prepared.{IsPrepared, Agreed, resolve-Returns, review-Returns}

at_most : (limit n : ℕ) → ltb limit n ≡ false → n ≤ limit
at_most limit n e = ground arith

false-ne-true : false ≢ true
false-ne-true e = cc

module _ (env : Env) (crates : Crates) (chain : Chain) (rpc : Rpc) where
  -- The parameters of a submission that was prepared, agreed to and signed.
  pub record IsApproved (identity : PublicAccount) (original : List Instruction)
      (burn confirm_every : Bool) (spend_all : Option SpendAll) (params : Doc) : Type 0 where
    pub resolved : Resolved
    pub transaction : Transaction
    pub wire : Bytes
    pub prepared :
        IsPrepared env crates chain rpc spend_all identity.pubkey original resolved.instructions
          resolved.all_amount
    pub agreed : Agreed env crates chain rpc burn confirm_every
    pub signed :
        IsSigned env crates chain rpc identity resolved.instructions resolved.fee resolved.rent
          spend_all transaction
    pub serialized : serialize chain transaction ≡ ok wire
    pub small : length wire ≤ max_transaction_bytes
    pub exact : params ≡ wire_params env chain rpc wire

  deliver-OnlySends :
      (P : Doc → Type 0) (transaction : Transaction) (w : World)
      → ((wire : Bytes)
          → serialize chain transaction ≡ ok wire
          → length wire ≤ max_transaction_bytes
          → P (wire_params env chain rpc wire))
      → OnlySends P (deliver env crates chain rpc transaction) w
  unfolding deliver
  deliver-OnlySends P transaction w known = OnlySends->>= P _ _ w (Keeps-lift _) (λ signature w1 e1.
      OnlySends->>= P _ _ w1 (Keeps-lift _) (λ wire w2 e2.
        OnlySends->>= P _ _ w2 (Keeps-lift _) (λ fits w3 e3.
          Sends-OnlySends P (wire_params env chain rpc wire)
            (known wire (Returns-lift _ w1 e2).0 (at_most _ _ (passed _ _ w2 e3)))
            (Sends->>= (submit_and_confirm-Sends env chain rpc wire signature)
              (λ outcome. Keeps-pure _))
            w3)))

  pub send_transaction-IsApproved :
      (identity : PublicAccount) (instructions : List Instruction) (burn : Bool)
      (spend_all : Option SpendAll) (w : World)
      → OnlySends
          (IsApproved identity instructions burn w.app.config.security.confirm_every_transaction
            spend_all)
          (send_transaction env crates chain rpc identity instructions burn spend_all)
          w
  unfolding send_transaction
  send_transaction-IsApproved identity instructions burn spend_all w =
      let P =
        IsApproved identity instructions burn w.app.config.security.confirm_every_transaction
          spend_all in
      let preparing = resolve-Silent env crates chain rpc identity.pubkey instructions spend_all in
      OnlySends->>= P _ _ w (Silent-Quiet preparing) (λ r w1 e1.
        OnlySends->>= P _ _ w1 (Silent-Quiet (review-Silent env crates chain rpc r burn spend_all))
          (λ shown w2 e2.
            OnlySends->>= P _ _ w2
              (Silent-Quiet (sign_resolved-Silent env crates chain rpc identity r spend_all))
              (λ transaction w3 e3. deliver-OnlySends P transaction w3 (λ wire serialized small.
                record {
                  resolved = r;
                  transaction = transaction;
                  wire = wire;
                  prepared =
                      resolve-Returns env crates chain rpc identity.pubkey instructions spend_all w
                        e1;
                  agreed =
                      subst
                        (λ c. Agreed env crates chain rpc burn c.security.confirm_every_transaction)
                        (ap (λ (p : Result Resolved × World). p.1.app.config) (sym e1)
                          ∙ Silent-config preparing w)
                        (review-Returns env crates chain rpc r burn spend_all w1 e2);
                  signed = sign_resolved-Returns env crates chain rpc identity r spend_all w2 e3;
                  serialized = serialized;
                  small = small;
                  exact = refl;
                }))))

  -- The same, where the settings that hold are named.
  pub IsApproved-send_transaction :
      (identity : PublicAccount) (instructions : List Instruction) (burn : Bool)
      (spend_all : Option SpendAll) (w : World) {c : Config} {Q : Doc → Type 0}
      → w.app.config ≡ c
      → ((params : Doc)
          → IsApproved identity instructions burn c.security.confirm_every_transaction spend_all
              params
          → Q params)
      → OnlySends Q (send_transaction env crates chain rpc identity instructions burn spend_all) w
  IsApproved-send_transaction identity instructions burn spend_all w holds weaker =
      OnlySends-implies (send_transaction env crates chain rpc identity instructions burn spend_all)
        w (send_transaction-IsApproved identity instructions burn spend_all w)
        (λ params approved. weaker params (
          subst
            (λ d.
              IsApproved identity instructions burn d.security.confirm_every_transaction spend_all
                params)
            holds approved))

  pub send_transaction-Keeps :
      (identity : PublicAccount) (instructions : List Instruction) (burn : Bool)
      (spend_all : Option SpendAll)
      → Keeps settings (send_transaction env crates chain rpc identity instructions burn spend_all)
  unfolding send_transaction deliver
  send_transaction-Keeps identity instructions burn spend_all =
      Keeps->>=
        (Silent-settings
          (resolve-Silent env crates chain rpc identity.pubkey instructions spend_all))
        (λ r.
          Keeps->>= (Silent-settings (review-Silent env crates chain rpc r burn spend_all))
            (λ shown.
              Keeps->>=
                (Silent-settings (sign_resolved-Silent env crates chain rpc identity r spend_all))
                (λ transaction. Keeps->>= (Keeps-lift _) (λ signature.
                  Keeps->>= (Keeps-lift _) (λ wire. Keeps->>= (Keeps-lift _) (λ fits.
                    Keeps->>= (submit_and_confirm-Keeps env chain rpc wire signature)
                      (λ outcome. Keeps-pure _)))))))

  -- No line that is read is this word.
  abbrev pub IsUnspoken : Bytes → Type 0
  IsUnspoken word =
      (moment : ℕ) (input : Option Bytes)
      → env.line moment ≡ ok input
      → trim (or_default input) ≢ word

  disagreed :
      (burn confirm_every : Bool)
      → (burn || confirm_every) ≡ true
      → IsUnspoken (ascii "BURN")
      → IsUnspoken (ascii "yes")
      → ¬ Agreed env crates chain rpc burn confirm_every
  disagreed true confirm_every asked no_burn no_yes (moment, input, read, typed) =
      no_burn moment input read typed
  disagreed false true asked no_burn no_yes (moment, input, read, typed) =
      no_yes moment input read typed
  disagreed false false asked no_burn no_yes agreed = false-ne-true asked

  -- A transaction that needs a confirmation, because it burns tokens or because the settings say that
  -- every transaction does, is not sent where neither "BURN" nor "yes" is ever typed.
  pub send_transaction_refused :
      (identity : PublicAccount) (instructions : List Instruction) (burn : Bool)
      (spend_all : Option SpendAll) (w : World)
      → (burn || w.app.config.security.confirm_every_transaction) ≡ true
      → IsUnspoken (ascii "BURN")
      → IsUnspoken (ascii "yes")
      → sent (send_transaction env crates chain rpc identity instructions burn spend_all w).1.log
        ≡ sent w.log
  send_transaction_refused identity instructions burn spend_all w asked no_burn no_yes =
      elim (send_transaction-IsApproved identity instructions burn spend_all w) [
        | inl nothing ↦ nothing
        | inr (params, approved, grown) ↦
            absurd (disagreed burn _ asked no_burn no_yes approved.agreed)
      ]
