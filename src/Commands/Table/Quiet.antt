-- ===== src/Commands/Table/Quiet.antt =====
-- Which commands of src/commands.rs can move funds.
use solx.Common.{
  ◌≡◌, sym, inl, inr, Bool, false, ◌||◌, List, [], ◌∷◌, Bytes, ascii, Result, ok, Bool-cases,
}
use mathlib.Core.Path.{subst}
use solx.Common.Eq.{◌==◌, nat_eq, list_eq, list_beq, eq_of_beq}
use solx.Config.Alias.{expand_alias}
use solx.Vault.Session.{Crates}
use solx.Rpc.Values.{Chain}
use solx.Effects.{Env, World, Effect, ◌>>=◌, the_app, lift}
use solx.Effects.Keeps.{sent, Quiet, Silent-Quiet, Keeps-lift, Keeps-attempt, Keeps->>=}
use solx.Effects.Sending.{Silent-the_app}
use solx.App.{Plugins, with_session, find_plugin, run_plugin, dispatch_resolved, dispatch}
use solx.App.Silent.{when-Silent}
use solx.Settings.Command.Quiet.{run-Quiet}
use solx.Commands.Local.Silent.{
  help-Silent, lock-Silent, ui-Silent, new_wallet-Silent, delete-Silent, list-Silent,
  history-Silent,
}
use solx.Commands.Secrets.{Sources}
use solx.Commands.Secrets.Silent.{export-Silent, import_wallet-Silent, init-Silent}
use solx.Commands.Table.{plugins}

-- The commands that may send a transaction.
abbrev pub pays : Bytes → Bool
pays command =
    command == ascii "transfer" || command == ascii "token-transfer" || command == ascii "close-ata"

with_session-Quiet :
    (operation : Effect (Unit {0})) → Quiet operation → Quiet (with_session operation)
unfolding with_session
with_session-Quiet operation q = Keeps->>= (Keeps-attempt operation q) (λ result.
    Keeps->>= (Silent-Quiet Silent-the_app)
      (λ app. Keeps->>= (Silent-Quiet (when-Silent _)) (λ dropped. Keeps-lift result)))

abbrev AllQuiet : Plugins → Type 0
AllQuiet [] = Unit
AllQuiet ((name, run) ∷ rest) =
    (pays name ≡ false → (args : List Bytes) → Quiet (run args)) × AllQuiet rest

found-Quiet :
    (table : Plugins) (command : Bytes)
    → AllQuiet table
    → pays command ≡ false
    → (args : List Bytes) → Quiet (run_plugin (find_plugin table command) args)
unfolding find_plugin
found-Quiet [] command quiet local args = Keeps-lift _
found-Quiet ((name, run) ∷ rest) command quiet local args = elim (Bool-cases (name == command)) [
  | inl same ↦ rw same (quiet.0 (subst (λ c. pays c ≡ false) (sym (eq_of_beq same)) local) args)
  | inr other ↦ rw other (found-Quiet rest command quiet.1 local args)
]

module _ (env : Env) (crates : Crates) (chain : Chain) (sources : Sources) (path : Bytes)
    (reads : List (Result Bytes)) (terminal : Bool) where
  abbrev table : Plugins
  table = plugins env crates chain sources path reads terminal

  table-AllQuiet : AllQuiet table
  unfolding plugins list_beq
  table-AllQuiet = (
    (λ local args. run-Quiet env crates path reads terminal args),
    (
      (λ local args. Silent-Quiet (help-Silent args)),
      (
        (λ local args. Silent-Quiet (init-Silent sources env crates args)),
        (
          (λ local args. Silent-Quiet (new_wallet-Silent env crates args)),
          (
            (λ local args. Silent-Quiet (import_wallet-Silent sources env crates args)),
            (
              (λ local args. Silent-Quiet (export-Silent sources env crates args)),
              (
                (λ local args. Silent-Quiet (list-Silent env crates chain args)),
                (
                  (λ local args. Silent-Quiet (delete-Silent env crates args)),
                  (
                    (λ local args. Silent-Quiet (history-Silent env crates chain args)),
                    (
                      (λ local args. cc),
                      (
                        (λ local args. cc),
                        (
                          (λ local args. cc),
                          (
                            (λ local args. Silent-Quiet (lock-Silent args)),
                            ((λ local args. Silent-Quiet (ui-Silent args)), tt),
                          ),
                        ),
                      ),
                    ),
                  ),
                ),
              ),
            ),
          ),
        ),
      ),
    ),
  )

  dispatch_resolved-Quiet :
      (command : Bytes) (args : List Bytes)
      → pays command ≡ false
      → Quiet (dispatch_resolved table (command ∷ args))
  unfolding dispatch_resolved
  dispatch_resolved-Quiet command args local =
      with_session-Quiet _ (found-Quiet table command table-AllQuiet local args)

  -- A line that does not mean `transfer`, `token-transfer` or `close-ata`, after its alias is replaced,
  -- sends no transaction, whatever the network, the terminal and the disk answer.
  pub dispatch-local :
      (words : List Bytes) (command : Bytes) (args : List Bytes) (w : World)
      → expand_alias w.app.config words ≡ ok (command ∷ args)
      → pays command ≡ false
      → sent (dispatch table words w).1.log ≡ sent w.log
  unfolding dispatch ◌>>=◌ the_app lift
  dispatch-local words command args w resolved local =
      rw resolved ((dispatch_resolved-Quiet command args local).at w)
