-- ===== src/Settings/Command.antt =====
-- The command `config` of src/settings.rs: the review of the settings, their edit, and its commit. What
-- is printed is left out, and with it `gmtime_r` for the time of the last edit.
pub mod Edited
pub mod Quiet
use solx.Common.{
  ℕ, Bool, true, false, not, ◌&&◌, ◌||◌, List, [], ◌∷◌, Bytes, ascii, Option, none, some, Result,
  ok, err, panicked, ok_or, fail_if, if◌then◌else◌,
}
use solx.Common.Eq.{◌==◌, nat_eq, list_eq, option_eq}
use solx.Config.{Config}
use solx.Config.Validate.{validate}
use solx.Vault.{Vault, ConfigAudit}
use solx.Vault.Session.{Crates}
use solx.Effects.{Env, Effect, ◌>>=◌, ◌>>◌, lift, pure, attempt, the_app, update_app, answer}
use solx.App.{done, release_session, open_vault, save_vault}
use solx.Settings.Editor.{check_size, edit}

module _ (env : Env) (crates : Crates) where
  -- The settings in force follow the file: it was replaced exactly where the revision differs.
  abbrev pub adopt_saved : Bool → Config → Effect (Unit {0})
  adopt_saved false config = pure done
  adopt_saved true config = do
    now ← answer env.instant
    update_app (λ app. record app { config = config; last_history = some now })

  unfoldable pub commit : Option Bytes → Config → Effect ConfigAudit
  unfolding validate check_size open_vault save_vault
  commit original_revision candidate = do
    lift (validate crates.parsers candidate)
    lift (check_size crates.json candidate)
    current ← open_vault env crates
    lift (
        fail_if (not (current.source_bytes == original_revision))
          "vault changed while editing; reopen config and review the current settings")
    saved ← save_vault env crates (record current { config = candidate })
    adopt_saved (not (saved.1.source_bytes == original_revision)) saved.1.config
    lift saved.0
    pure saved.1.config_audit

  module _ (path : Bytes) (reads : List (Result Bytes)) where
    abbrev pub commit_some : Option Bytes → Option Config → Effect (Unit {0})
    commit_some revision none = pure done
    commit_some revision (some candidate) = do audit ← commit revision candidate; pure done

    abbrev pub edit_if : Bool → Option Bytes → Config → Effect (Unit {0})
    edit_if false revision original = pure done
    edit_if true revision original = do
      candidate ← lift (edit crates.parsers crates.json path original reads)
      commit_some revision candidate

    -- The closure of `run_with_io`.
    unfoldable pub review_settings : Bool → Effect (Unit {0})
    unfolding open_vault edit commit
    review_settings editing = do
      v ← open_vault env crates
      revision ← lift (ok_or v.source_bytes "settings require a saved vault")
      app ← the_app
      let original = record v.config { vault = app.config.vault }
      update_app (λ app. record app { config = original })
      edit_if editing (some revision) original

    unfoldable pub run_with_io : Bool → Effect (Unit {0})
    unfolding review_settings release_session
    run_with_io editing = do
      result ← attempt (review_settings editing)
      release_session
      lift result

    -- `run`; the flag says whether the input and the output are terminals.
    unfoldable pub run : Bool → List Bytes → Effect (Unit {0})
    unfolding run_with_io
    run terminal [] =
        if terminal
        then run_with_io true
        else lift (
            err
              "config editing requires an interactive terminal; use config show to inspect settings")
    run terminal (word ∷ words) =
        if (word ∷ words) == (ascii "show" ∷ [])
        then run_with_io false
        else lift (err "usage: solx config [show]; config import has been removed")
