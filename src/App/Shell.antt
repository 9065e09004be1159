-- ===== src/App/Shell.antt =====
-- The interactive loop `App::shell` of src/main.rs, round by round.
use solx.Common.{
  ◌≡◌, Bool, true, false, ◌||◌, List, [], ◌∷◌, Bytes, ascii, Option, none, some, Result, ok, err,
  panicked, if◌then◌else◌,
}
use solx.Common.Eq.{◌==◌, nat_eq, list_eq}
use solx.Common.Text.{split_whitespace}
use solx.Config.Alias.{expand_alias}
use solx.LineEditor.History.{CommandHistory, remember}
use solx.Vault.Session.{Crates}
use solx.Rpc.Values.{Chain}
use solx.Effects.{
  Env, World, Effect, ◌>>=◌, ◌>>◌, lift, pure, attempt, the_app, update_app, answer, ask,
}
use solx.App.{Plugins, done, refresh_history, dispatch_resolved}

abbrev pub leaves_shell : List Bytes → Bool
leaves_shell [] = false
leaves_shell (word ∷ words) = word == ascii "exit" || word == ascii "quit"

-- The states of the loop, at the head of a round.
pub record Shell : Type 0 where
  pub world : World
  pub history : CommandHistory

abbrev pub empty_history : CommandHistory
empty_history = record { entries = []; position = none; draft = [] }

module _ (env : Env) (crates : Crates) (chain : Chain) (plugins : Plugins) where
  -- A line that was read, to the end of the round; `none` leaves the loop.
  unfoldable pub run_line : CommandHistory → Bytes → Effect (Option CommandHistory)
  unfolding split_whitespace expand_alias remember dispatch_resolved
  run_line history line = if leaves_shell (split_whitespace line) then pure none else (do
    app ← the_app
    resolved ← lift (expand_alias app.config (split_whitespace line))
    result ← attempt (dispatch_resolved plugins resolved)
    pure (some (remember history line resolved)))

  abbrev pub run_read : CommandHistory → Result (Option Bytes) → Effect (Option CommandHistory)
  run_read history (ok none) = pure none
  run_read history (ok (some line)) = run_line history line
  run_read history (err message) = pure (some history)
  run_read history panicked = lift panicked

  unfoldable pub shell_round : CommandHistory → Effect (Option CommandHistory)
  unfolding refresh_history run_line
  shell_round history = do
    refreshed ← attempt (refresh_history env crates chain false)
    read ← attempt (ask env.line)
    run_read history read

  -- Before the loop: the histories are shown, or the clock is read.
  abbrev pub first_fetch : Bool → Effect (Unit {0})
  first_fetch true = do result ← attempt (refresh_history env crates chain true); pure done
  first_fetch false = do
    now ← answer env.instant
    update_app (λ app. record app { last_history = some now })

  -- What `shell` does before the loop.
  unfoldable pub enter_shell : Effect CommandHistory
  unfolding refresh_history
  enter_shell = do
    update_app (λ app. record app { shell = true })
    app ← the_app
    first_fetch app.config.history.fetch_on_start
    pure empty_history

  pub data Reachable (start : World) : Shell → Type 0 where
    enter : (s : Shell) → enter_shell start ≡ (ok s.history, s.world) → Reachable start s
    round :
        (s t : Shell)
        → Reachable start s
        → shell_round s.history s.world ≡ (ok (some t.history), t.world)
        → Reachable start t
