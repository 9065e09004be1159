-- ===== src/Commands/Transfer/Safe.antt =====
-- What the transfers of src/commands.rs send.
use solx.Common.{
  ℕ, ◌<◌, ◌≡◌, ◌≢◌, Bool, true, false, List, [], ◌∷◌, Bytes, ascii, Option, none, some, ok,
}
use solx.Common.Eq.{◌==◌, nat_eq, list_eq, beq_refl}
use solx.Vault.{PublicVault, PublicAccount}
use solx.Vault.Public.{find_public, name_or_first}
use solx.Vault.Session.{Crates}
use solx.Rpc.Values.{Chain}
use solx.Rpc.Connection.{Rpc}
use solx.Rpc.Client.Queries.{balance-Silent}
use solx.Effects.{Doc, Env}
use solx.Effects.Keeps.{Quiet, Silent, Silent-Quiet, Keeps-pure, Keeps->>=}
use solx.App.{public_vault, rpc}
use solx.App.Silent.{remember_recipient-Silent}
use solx.Commands.Options.{Options, parse_options, get_option}
use solx.Commands.Amount.{parse_amount}
use solx.Commands.Instructions.{system_transfer}
use solx.Commands.Send.{SpendAll}
use solx.Commands.Send.Signed.{Gave}
use solx.Commands.Send.Safe.{IsApproved}
use solx.Commands.Transfer.{required, target_address, warn_destination, remember_if}

pub differ : (a b : Bytes) → (a == b) ≡ false → a ≢ b
differ a b e same = cc (e, same, beq_refl a)

module _ (env : Env) (crates : Crates) (chain : Chain) where
  -- The wallet of a command, in the vault that was read.
  pub record IsSource (options : Options) (v : PublicVault) (source : PublicAccount) : Type 0 where
    pub name : Bytes
    pub read : Gave (public_vault env crates) v
    pub named : name_or_first v (get_option options (ascii "wallet")) ≡ ok name
    pub found : find_public v name ≡ ok source

  -- The recipient of a command, which is not the wallet itself.
  pub record IsTarget (options : Options) (v : PublicVault) (source : PublicAccount)
      (target : Bytes) : Type 0 where
    pub to : Bytes
    pub given : required options (ascii "to") ≡ ok to
    pub resolved : target_address chain v to ≡ ok target
    pub other : source.pubkey ≢ target

  -- Everything, for the amount "ALL"; the parsed amount of SOL, which is not zero, otherwise.
  abbrev pub IsAmount : Bool → Bytes → Bytes → ℕ → Option SpendAll → Type 0
  IsAmount true amount target lamports spend_all =
      (balance : ℕ) × (spend_all ≡ some (record { balance = balance; target = target }))
  IsAmount false amount target lamports spend_all =
      (parse_amount amount 9 ≡ ok lamports) × (0 < lamports) × (spend_all ≡ none)

  pub record IsTransfer (args : List Bytes) (confirm_every : Bool) (params : Doc) : Type 0 where
    pub options : Options
    pub v : PublicVault
    pub source : PublicAccount
    pub target : Bytes
    pub amount : Bytes
    pub lamports : ℕ
    pub spend_all : Option SpendAll
    pub client : Rpc
    pub parsed : parse_options args (ascii "wallet" ∷ ascii "to" ∷ ascii "amount" ∷ []) ≡ ok options
    pub from : IsSource options v source
    pub to : IsTarget options v source target
    pub given : required options (ascii "amount") ≡ ok amount
    pub worth : IsAmount (amount == ascii "ALL") amount target lamports spend_all
    pub connected : Gave (rpc env crates chain) client
    pub approved :
        IsApproved env crates chain client source
          (system_transfer chain source.pubkey target lamports ∷ [])
          false
          confirm_every
          spend_all
          params

  pub warn_destination-Silent :
      (client : Rpc) (target : Bytes) → Silent (warn_destination env crates chain client target)
  unfolding warn_destination
  warn_destination-Silent client target =
      Keeps->>= (balance-Silent env chain client target) (λ lamports. Keeps-pure _)

  pub remember_if-Quiet :
      (test : Bool) (target : Bytes) → Quiet (remember_if env crates chain test target)
  remember_if-Quiet false target = Keeps-pure _
  remember_if-Quiet true target = Silent-Quiet (remember_recipient-Silent env crates target)
