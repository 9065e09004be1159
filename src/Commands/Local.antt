-- ===== src/Commands/Local.antt =====
-- The commands of src/commands.rs that read or change the vault and send nothing. What they print is left
-- out, but for their questions and the secrets.
pub mod Deleted
pub mod Silent
use solx.Common.{
  ℕ, Bool, true, false, not, ◌&&◌, ◌||◌, List, [], ◌∷◌, Bytes, ascii, String, Option, none, some,
  Result, ok, err, panicked, ok_or, fail_if, ltb, leb, map_err, if◌then◌else◌,
}
use solx.Common.Eq.{◌==◌, nat_eq, list_eq, option_eq}
use solx.Common.Text.{is_nil, starts_with, trim}
use solx.Common.Numbers.{parse_unsigned}
use solx.Config.{valid_name}
use solx.Vault.{
  Vault, PublicAccount, PublicVault, RecoveryPhraseUse, imported_key, shared, unused_after_deletion,
  account, first_name,
}
use solx.Vault.Phrase.{phrase}
use solx.Vault.Public.{find_public, name_or_first}
use solx.Vault.Edit.{add_master, add_derived, derivation_index}
use solx.Vault.Edit.Remove.{recovery_phrase_use, remove_account}
use solx.Vault.Session.{Crates}
use solx.Rpc.Values.{Chain}
use solx.Rpc.Connection.{Rpc}
use solx.Rpc.Client.{balance, token_accounts, signatures}
use solx.Effects.{
  question, reveal, Env, Effect, ◌>>=◌, ◌>>◌, lift, pure, attempt, emit, the_app, update_app, ask,
}
use solx.App.{done, drop_session, release_session, open_vault, commit_vault, public_vault, rpc}
use solx.Commands.Options.{parse_options, get_option}
use solx.Commands.Instructions.{token_program, token_2022}

unfoldable pub no_args : List Bytes → Result (Unit {0})
no_args [] = ok tt
no_args (word ∷ words) = err "unexpected arguments; use 'help'"

-- `as_deref().map(str::trim)`
abbrev pub trimmed : Option Bytes → Option Bytes
trimmed none = none
trimmed (some line) = some (trim line)

unfoldable pub help : List Bytes → Effect (Unit {0})
unfolding no_args
help args = lift (no_args args)

unfoldable pub lock : List Bytes → Effect (Unit {0})
unfolding no_args drop_session
lock args = do lift (no_args args); drop_session

unfoldable pub ui : List Bytes → Effect (Unit {0})
unfolding no_args
ui args = do lift (no_args args); lift (err "later")

abbrev pub erase_answer : Option Bytes → Result Bool
erase_answer none = err "deletion cancelled"
erase_answer (some text) =
    if text == ascii "ERASE"
    then ok true
    else (if is_nil text then ok false else err "deletion cancelled")

module _ (env : Env) where
  abbrev pub ask_erase : RecoveryPhraseUse → Effect Bool
  ask_erase imported_key = pure false
  ask_erase shared = pure false
  ask_erase unused_after_deletion = do
    emit (
        question
          (ascii "Also erase its recovery phrase from the vault? Type 'ERASE', or Enter to keep: "))
    input ← ask env.line
    lift (erase_answer (trimmed input))

  unfoldable pub confirm_delete_metadata : Bytes → RecoveryPhraseUse → Effect Bool
  unfolding trim
  confirm_delete_metadata name usage = do
    emit (question name)
    input ← ask env.line
    lift (fail_if (not (trimmed input == some name)) "deletion cancelled")
    ask_erase usage

  module _ (crates : Crates) where
    abbrev pub delete_named : Bytes → Effect (Unit {0})
    delete_named name = do
      v ← open_vault env crates
      first ← lift (first_name v)
      a ← lift (account v name)
      usage ← lift (recovery_phrase_use v name)
      release_session
      erase_phrase ← confirm_delete_metadata name usage
      now ← open_vault env crates
      lift (
          fail_if (not (now.source_bytes == v.source_bytes))
            "vault changed after deletion approval; review again")
      removed ← lift (remove_account now name erase_phrase)
      saved ← commit_vault env crates removed
      pure done

    unfoldable pub delete : List Bytes → Effect (Unit {0})
    unfolding open_vault first_name account recovery_phrase_use release_session
        confirm_delete_metadata remove_account commit_vault
    delete (name ∷ []) = delete_named name
    delete _ = lift (err "usage: solx delete NAME")

    -- The name and the source of a new wallet.
    abbrev pub new_words : List Bytes → Result (Bytes × Option Bytes)
    new_words (name ∷ []) = ok (name, none)
    new_words (name ∷ flag ∷ source ∷ []) =
        if flag == ascii "--wallet"
        then ok (name, some source)
        else err "usage: solx new NAME [--wallet SOURCE]"
    new_words _ = err "usage: solx new NAME [--wallet SOURCE]"

    abbrev pub is_bad_source : Option Bytes → Bool
    is_bad_source none = false
    is_bad_source (some source) = not (valid_name source) || starts_with source (ascii "-")

    abbrev pub add_new : Vault → Bytes → Option Bytes → Effect (Unit {0})
    add_new v name (some source) = do
      added ← lift (add_derived crates.crypto v name source)
      saved ← commit_vault env crates added
      a ← lift (account saved name)
      found ← lift (derivation_index saved name)
      index ← lift (ok_or found "missing derivation index")
      pure done
    add_new v name none = do
      entropy ← ask env.entropy
      text ← lift (phrase crates.crypto entropy)
      added ← lift (add_master crates.crypto v name entropy)
      saved ← commit_vault env crates added
      a ← lift (account saved name)
      emit (reveal text)

    unfoldable pub new_wallet : List Bytes → Effect (Unit {0})
    unfolding valid_name starts_with open_vault commit_vault add_derived add_master account
        derivation_index phrase
    new_wallet args = do
      words ← lift (new_words args)
      lift (
          fail_if (not (valid_name words.0) || starts_with words.0 (ascii "-"))
            "invalid new wallet name; usage: solx new NAME [--wallet SOURCE]")
      lift (
          fail_if (is_bad_source words.1)
            "invalid source wallet name; usage: solx new NAME [--wallet SOURCE]")
      v ← open_vault env crates
      add_new v words.0 words.1

    module _ (chain : Chain) where
      -- The limit of `history`.
      abbrev pub limit_of : Option Bytes → ℕ → Result ℕ
      limit_of none default = ok default
      limit_of (some text) default = parse_unsigned text

      unfoldable pub history : List Bytes → Effect (Unit {0})
      unfolding parse_options public_vault name_or_first find_public parse_unsigned
      history args = do
        options ← lift (parse_options args (ascii "wallet" ∷ ascii "limit" ∷ []))
        v ← public_vault env crates
        name ← lift (name_or_first v (get_option options (ascii "wallet")))
        a ← lift (find_public v name)
        app ← the_app
        limit ← lift (limit_of (get_option options (ascii "limit")) app.config.history.limit)
        lift (fail_if (ltb limit 1 || ltb 100 limit) "history limit must be 1..=100")
        client ← rpc env crates chain
        rows ← signatures env chain client a.pubkey limit
        pure done

      -- The accounts that `list` shows.
      abbrev pub shown_accounts : Option Bytes → List PublicAccount → List PublicAccount
      shown_accounts none accounts = accounts
      shown_accounts (some name) [] = []
      shown_accounts (some name) (a ∷ accounts) =
          let rest = shown_accounts (some name) accounts in
          if a.name == name then a ∷ rest else rest

      -- The balances of the accounts, where a client asks for them.
      abbrev pub show_accounts : Option Rpc → List PublicAccount → Effect (Unit {0})
      show_accounts client [] = pure done
      show_accounts none (a ∷ accounts) = show_accounts none accounts
      show_accounts (some client) (a ∷ accounts) = do
        let rest = show_accounts (some client) accounts
        lamports ← balance env chain client a.pubkey
        legacy ← token_accounts env chain client a.pubkey (token_program chain)
        newer ← token_accounts env chain client a.pubkey (token_2022 chain)
        rest

      abbrev pub client_if : Bool → Effect (Option Rpc)
      client_if false = pure none
      client_if true = do client ← rpc env crates chain; pure (some client)

      abbrev pub known_filter : PublicVault → Option Bytes → Result (Unit {0})
      known_filter v none = ok tt
      known_filter v (some name) = elim (find_public v name) [
        | ok a ↦ ok tt
        | err message ↦ err message
        | panicked ↦ panicked
      ]

      abbrev pub has_url : Option Bytes → Bool
      has_url none = false
      has_url (some url) = true

      -- The rows of `list`, where the flag says whether balances are asked for.
      abbrev pub list_accounts : Option Bytes → Bool → List PublicAccount → Effect (Unit {0})
      list_accounts filter balances [] = pure done
      list_accounts filter balances (first ∷ accounts) = do
        client ← client_if balances
        show_accounts client (shown_accounts filter (first ∷ accounts))

      abbrev pub list_filtered : Option Bytes → Effect (Unit {0})
      list_filtered filter = do
        v ← public_vault env crates
        lift (known_filter v filter)
        app ← the_app
        list_accounts filter (app.config.rpc.show_balances && has_url app.config.rpc.url) v.accounts

      unfoldable pub list : List Bytes → Effect (Unit {0})
      unfolding public_vault find_public
      list [] = list_filtered none
      list (name ∷ []) = list_filtered (some name)
      list _ = lift (err "usage: solx list [NAME]")
