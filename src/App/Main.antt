-- ===== src/App/Main.antt =====
-- `run` of src/main.rs: the arguments of the process. The loop of the shell enters as an action, and the
-- path of the default vault as a text.
use solx.Common.{
  Bool, true, false, not, ◌||◌, List, [], ◌∷◌, Bytes, ascii, none, Result, ok, err, if◌then◌else◌,
}
use solx.Common.Eq.{◌==◌, nat_eq, list_eq}
use solx.Config.{Mode, cli, ui, default_config}
use solx.Vault.Session.{Crates}
use solx.Effects.{Env, Effect, ◌>>=◌, ◌>>◌, lift, pure, the_app, update_app}
use solx.App.{Plugins, done, load_policy, dispatch}

-- The path of the vault, and the words that are left.
unfoldable pub vault_of : Bytes → List Bytes → Result (Bytes × List Bytes)
vault_of path [] = ok (path, [])
vault_of path (word ∷ []) =
    if word == ascii "--config"
    then err "external config is not supported; use solx config to edit vault settings"
    else (if word == ascii "--vault" then err "--vault needs a path" else ok (path, word ∷ []))
vault_of path (word ∷ other ∷ words) =
    if word == ascii "--config"
    then err "external config is not supported; use solx config to edit vault settings"
    else (if word == ascii "--vault" then ok (other, words) else ok (path, word ∷ other ∷ words))

-- `args.is_empty() || args[0] == "shell"`
abbrev pub starts_shell : List Bytes → Bool
starts_shell [] = true
starts_shell (word ∷ words) = word == ascii "shell"

-- The commands that do not need the settings of the vault.
abbrev pub needs_policy : List Bytes → Bool
needs_policy [] = true
needs_policy (word ∷ words) =
    not (word == ascii "init" || word == ascii "help" || word == ascii "config")

module _ (env : Env) (crates : Crates) (plugins : Plugins) (shell : Effect (Unit {0})) where
  abbrev pub load_if : Bool → Effect (Unit {0})
  load_if false = pure done
  load_if true = load_policy env crates

  abbrev pub run_mode : Mode → Effect (Unit {0})
  run_mode cli = shell
  run_mode ui = lift (err "soon; set mode = 'cli'")

  abbrev pub run_words : List Bytes → Effect (Unit {0})
  run_words [] = do app ← the_app; run_mode app.config.mode
  run_words (word ∷ words) =
      if word == ascii "shell" then shell else dispatch plugins (word ∷ words)

  unfoldable pub run : Bytes → List Bytes → Effect (Unit {0})
  unfolding vault_of load_policy dispatch
  run path args = do
    parsed ← lift (vault_of path args)
    update_app (λ app. record {
      config = default_config parsed.0;
      session = none;
      shell = starts_shell parsed.1;
      last_history = none;
    })
    load_if (needs_policy parsed.1)
    run_words parsed.1
