-- ===== src/Commands/Local/Silent.antt =====
-- The commands of src/commands.rs on the vault send no transaction and change no settings.
use solx.Common.{refl, Bool, true, false, List, [], ◌∷◌, Bytes, Option, none, some}
use solx.Vault.{
  Vault, PublicAccount, RecoveryPhraseUse, imported_key, shared, unused_after_deletion,
}
use solx.Vault.Session.{Crates}
use solx.Rpc.Values.{Chain}
use solx.Rpc.Connection.{Rpc}
use solx.Rpc.Client.Queries.{balance-Silent, token_accounts-Silent, signatures-Silent}
use solx.Effects.{Env, reveal, emit}
use solx.Effects.Keeps.{sent, Silent, Silent-ask, Keeps-lift, Keeps-pure, Keeps->>=}
use solx.Effects.Sending.{Silent-the_app, Silent-question}
use solx.App.{done}
use solx.App.Silent.{
  drop_session-Silent, release_session-Silent, open_vault-Silent, commit_vault-Silent,
  public_vault-Silent, rpc-Silent,
}
use solx.Commands.Local.{
  help, lock, ui, ask_erase, confirm_delete_metadata, delete, add_new, new_wallet, history,
  show_accounts, client_if, list_accounts, list_filtered, list,
}

pub Silent-reveal : (secret : Bytes) → Silent (emit (reveal secret))
unfolding sent emit
Silent-reveal secret = record { at = λ w. refl }

pub help-Silent : (args : List Bytes) → Silent (help args)
unfolding help
help-Silent args = Keeps-lift _

pub lock-Silent : (args : List Bytes) → Silent (lock args)
unfolding lock
lock-Silent args = Keeps->>= (Keeps-lift _) (λ known. drop_session-Silent)

pub ui-Silent : (args : List Bytes) → Silent (ui args)
unfolding ui
ui-Silent args = Keeps->>= (Keeps-lift _) (λ known. Keeps-lift _)

module _ (env : Env) where
  ask_erase-Silent : (usage : RecoveryPhraseUse) → Silent (ask_erase env usage)
  ask_erase-Silent imported_key = Keeps-pure false
  ask_erase-Silent shared = Keeps-pure false
  ask_erase-Silent unused_after_deletion =
      Keeps->>= (Silent-question _) (λ asked. Keeps->>= (Silent-ask _) (λ input. Keeps-lift _))

  confirm_delete_metadata-Silent :
      (name : Bytes) (usage : RecoveryPhraseUse) → Silent (confirm_delete_metadata env name usage)
  unfolding confirm_delete_metadata
  confirm_delete_metadata-Silent name usage = Keeps->>= (Silent-question _) (λ asked.
      Keeps->>= (Silent-ask _) (λ input. Keeps->>= (Keeps-lift _) (λ same. ask_erase-Silent usage)))

  module _ (crates : Crates) where
    pub delete-Silent : (args : List Bytes) → Silent (delete env crates args)
    unfolding delete
    delete-Silent [] = Keeps-lift _
    delete-Silent (name ∷ []) = Keeps->>= (open_vault-Silent env crates) (λ v.
        Keeps->>= (Keeps-lift _) (λ first. Keeps->>= (Keeps-lift _) (λ a.
          Keeps->>= (Keeps-lift _) (λ usage. Keeps->>= release_session-Silent (λ released.
            Keeps->>= (confirm_delete_metadata-Silent name usage) (λ erase.
              Keeps->>= (open_vault-Silent env crates) (λ now. Keeps->>= (Keeps-lift _) (λ same.
                Keeps->>= (Keeps-lift _) (λ removed.
                  Keeps->>= (commit_vault-Silent env crates removed)
                    (λ saved. Keeps-pure done))))))))))
    delete-Silent (name ∷ word ∷ words) = Keeps-lift _

    add_new-Silent :
        (v : Vault) (name : Bytes) (source : Option Bytes)
        → Silent (add_new env crates v name source)
    add_new-Silent v name (some source) = Keeps->>= (Keeps-lift _) (λ added.
        Keeps->>= (commit_vault-Silent env crates added) (λ saved. Keeps->>= (Keeps-lift _) (λ a.
          Keeps->>= (Keeps-lift _) (λ found. Keeps->>= (Keeps-lift _) (λ index. Keeps-pure done)))))
    add_new-Silent v name none = Keeps->>= (Silent-ask _) (λ entropy.
        Keeps->>= (Keeps-lift _) (λ text. Keeps->>= (Keeps-lift _) (λ added.
          Keeps->>= (commit_vault-Silent env crates added)
            (λ saved. Keeps->>= (Keeps-lift _) (λ a. Silent-reveal text)))))

    pub new_wallet-Silent : (args : List Bytes) → Silent (new_wallet env crates args)
    unfolding new_wallet
    new_wallet-Silent args = Keeps->>= (Keeps-lift _) (λ words. Keeps->>= (Keeps-lift _) (λ named.
        Keeps->>= (Keeps-lift _) (λ sourced.
          Keeps->>= (open_vault-Silent env crates) (λ v. add_new-Silent v words.0 words.1))))

    module _ (chain : Chain) where
      pub history-Silent : (args : List Bytes) → Silent (history env crates chain args)
      unfolding history
      history-Silent args = Keeps->>= (Keeps-lift _) (λ options.
          Keeps->>= (public_vault-Silent env crates) (λ v. Keeps->>= (Keeps-lift _) (λ name.
            Keeps->>= (Keeps-lift _) (λ a. Keeps->>= Silent-the_app (λ app.
              Keeps->>= (Keeps-lift _) (λ limit. Keeps->>= (Keeps-lift _) (λ inside.
                Keeps->>= (rpc-Silent env crates chain) (λ client.
                  Keeps->>= (signatures-Silent env chain client a.pubkey limit)
                    (λ rows. Keeps-pure done)))))))))

      show_accounts-Silent :
          (client : Option Rpc) (accounts : List PublicAccount)
          → Silent (show_accounts env crates chain client accounts)
      show_accounts-Silent client [] = Keeps-pure done
      show_accounts-Silent none (a ∷ accounts) = show_accounts-Silent none accounts
      show_accounts-Silent (some client) (a ∷ accounts) =
          Keeps->>= (balance-Silent env chain client a.pubkey) (λ lamports.
            Keeps->>= (token_accounts-Silent env chain client a.pubkey _) (λ legacy.
              Keeps->>= (token_accounts-Silent env chain client a.pubkey _)
                (λ newer. show_accounts-Silent (some client) accounts)))

      client_if-Silent : (test : Bool) → Silent (client_if env crates chain test)
      client_if-Silent false = Keeps-pure none
      client_if-Silent true = Keeps->>= (rpc-Silent env crates chain) (λ client. Keeps-pure _)

      list_accounts-Silent :
          (filter : Option Bytes) (balances : Bool) (accounts : List PublicAccount)
          → Silent (list_accounts env crates chain filter balances accounts)
      list_accounts-Silent filter balances [] = Keeps-pure done
      list_accounts-Silent filter balances (first ∷ accounts) =
          Keeps->>= (client_if-Silent balances) (λ client. show_accounts-Silent client _)

      list_filtered-Silent :
          (filter : Option Bytes) → Silent (list_filtered env crates chain filter)
      list_filtered-Silent filter = Keeps->>= (public_vault-Silent env crates) (λ v.
          Keeps->>= (Keeps-lift _)
            (λ known. Keeps->>= Silent-the_app (λ app. list_accounts-Silent filter _ v.accounts)))

      pub list-Silent : (args : List Bytes) → Silent (list env crates chain args)
      unfolding list
      list-Silent [] = list_filtered-Silent none
      list-Silent (name ∷ []) = list_filtered-Silent (some name)
      list-Silent (name ∷ word ∷ words) = Keeps-lift _
