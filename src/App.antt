-- ===== src/App.antt =====
-- `App` of src/main.rs: the unlocked session, the vault through it, and the dispatch of commands. There
-- is one vault file; the path of the settings is not followed.
pub mod Shell
pub mod Sessions
pub mod Silent
pub mod Calm
pub mod Opened
pub mod Hidden
pub mod Input
pub mod Main
use solx.Common.{
  ℕ, ◌+◌, ◌-◌, ◌*◌, ◌^◌, Bool, true, false, not, ◌&&◌, ◌||◌, List, [], ◌∷◌, Bytes, Option, none,
  some, String, Result, ok, err, panicked, ok_or, ltb, if◌then◌else◌,
}
use solx.Common.Eq.{◌==◌, nat_eq, list_eq}
use solx.Config.{Config}
use solx.Config.Alias.{expand_alias}
use solx.Vault.{Vault, PublicVault, public_snapshot, is_known_recipient}
use solx.Vault.Public.{has_public, find_public}
use solx.Vault.Edit.{remember_recipient as add_recipient}
use solx.Vault.Session.{Crates, Session, open_session, load}
use solx.Vault.Session.Save.{save}
use solx.Rpc.Values.{Chain}
use solx.Rpc.Connection.{Rpc, connect}
use solx.Rpc.Client.{verify_cluster, signatures, second}
use solx.Effects.{
  Env, App, World, Effect, ◌>>=◌, ◌>>◌, lift, pure, attempt, the_app, update_app, answer, ask,
  access,
}

abbrev pub cached : App → Bool
cached app = app.config.security.cache_unlocked_in_shell

abbrev pub done : Unit {0}
done = tt

-- `self.session = None`
unfoldable pub drop_session : Effect (Unit {0})
drop_session = update_app (λ app. record app { session = none })

abbrev pub when : Bool → Effect (Unit {0}) → Effect (Unit {0})
when true action = action
when false action = pure done

-- `release_session`
unfoldable pub release_session : Effect (Unit {0})
unfolding drop_session
release_session = do app ← the_app; when (not app.shell || not (cached app)) drop_session

-- `with_session`
unfoldable pub with_session : Effect (Unit {0}) → Effect (Unit {0})
unfolding drop_session
with_session operation = do
  result ← attempt operation
  app ← the_app
  when (not (cached app)) drop_session
  lift result

module _ (env : Env) (crates : Crates) where
  abbrev pub unlocked : Option Session → Effect Session
  unlocked (some session) = pure session
  unlocked none = do
    ask env.prepare_memlock
    password ← ask env.password
    session ← access (λ moment disk. (open_session crates (env.faults moment) disk password, disk))
    update_app (λ app. record app { session = some session })
    pure session

  unfoldable pub unlock : Effect Session
  unlock = do app ← the_app; unlocked app.session

  unfoldable pub open_vault : Effect Vault
  unfolding unlock
  open_vault = do
    session ← unlock
    access (λ moment disk. (load crates session (env.faults moment) disk, disk))

  -- A save with the session that `unlock` found: its result, and the vault after it.
  abbrev pub saved_with : Vault → Result Session → Effect (Result (Unit {0}) × Vault)
  saved_with v (err message) = pure (err message, v)
  saved_with v panicked = lift panicked
  saved_with v (ok session) = access (λ moment disk.
      let o = save crates session (env.faults moment) v disk in ((ok (o.result, o.vault)), o.disk))

  unfoldable pub save_vault : Vault → Effect (Result (Unit {0}) × Vault)
  unfolding unlock
  save_vault v = do session ← attempt unlock; saved_with v session

  -- `app.save_vault(&mut data)?`
  unfoldable pub commit_vault : Vault → Effect Vault
  unfolding save_vault
  commit_vault v = do saved ← save_vault v; lift saved.0; pure saved.1

  abbrev pub snapshot_of : Result Vault → Result PublicVault
  snapshot_of (ok v) = ok (public_snapshot v)
  snapshot_of (err message) = err message
  snapshot_of panicked = panicked

  unfoldable pub public_vault : Effect PublicVault
  unfolding open_vault release_session
  public_vault = do result ← attempt open_vault; release_session; lift (snapshot_of result)

  unfoldable pub load_policy : Effect (Unit {0})
  unfolding open_vault release_session
  load_policy = do
    v ← open_vault
    update_app (λ app. record app { config = record v.config { vault = app.config.vault } })
    release_session

  -- The closure of `remember_recipient`; its error is only shown.
  unfoldable pub add_known : Bytes → Effect (Unit {0})
  unfolding open_vault commit_vault
  add_known target = do
    v ← open_vault
    if is_known_recipient v target
        then pure done
        else (do saved ← commit_vault (add_recipient v target); pure done)

  unfoldable pub remember_recipient : Bytes → Effect (Unit {0})
  unfolding add_known
  remember_recipient target = do result ← attempt (add_known target); pure done

  module _ (chain : Chain) where
    unfoldable pub rpc : Effect Rpc
    unfolding connect
    rpc = do
      app ← the_app
      client ← lift (connect crates.parsers chain app.config)
      verify_cluster env chain client
      pure client

    -- The client of the loop, made at its first use.
    abbrev pub rpc_once : Option Rpc → Effect Rpc
    rpc_once none = rpc
    rpc_once (some client) = pure client

    -- The loop of `refresh_history_inner`; what it prints is left out.
    unfoldable pub show_histories : PublicVault → ℕ → Option Rpc → List Bytes → Effect (Unit {0})
    show_histories v limit client [] = pure done
    show_histories v limit client (name ∷ names) = do
      let skipped = show_histories v limit client names
      let shown = λ (found : Rpc). show_histories v limit (some found) names
      if not (has_public v name) then skipped else (do
        account ← lift (find_public v name)
        found ← rpc_once client
        rows ← signatures env chain found account.pubkey limit
        shown found)

    -- `t.elapsed() < Duration::from_secs(interval)`
    abbrev pub is_recent : Option ℕ → ℕ → ℕ → Bool
    is_recent none interval now = false
    is_recent (some t) interval now = ltb (now - t) (interval * second)

    unfoldable pub fetch_histories : Effect (Unit {0})
    unfolding public_vault show_histories
    fetch_histories = do
      app ← the_app
      now ← answer env.instant
      update_app (λ app. record app { last_history = some now })
      v ← public_vault
      show_histories v app.config.history.limit none app.config.history.wallets

    abbrev pub no_wallets : List Bytes → Bool
    no_wallets [] = true
    no_wallets (name ∷ names) = false

    unfoldable pub fetch_some : Effect (Unit {0})
    unfolding fetch_histories
    fetch_some = do
      app ← the_app
      if no_wallets app.config.history.wallets then pure done else fetch_histories

    abbrev pub fetch_due : Option ℕ → Effect (Unit {0})
    fetch_due none = pure done
    fetch_due (some interval) = do
      app ← the_app
      now ← answer env.instant
      if is_recent app.last_history interval now then pure done else fetch_some

    unfoldable pub refresh_history_inner : Bool → Effect (Unit {0})
    unfolding fetch_some
    refresh_history_inner force = do
      app ← the_app
      if force then fetch_some else fetch_due app.config.history.interval_secs

    unfoldable pub refresh_history : Bool → Effect (Unit {0})
    unfolding with_session refresh_history_inner
    refresh_history force = with_session (refresh_history_inner force)

-- The commands by name: `PLUGINS`.
abbrev pub Plugins : Type 0
Plugins = List (Bytes × (List Bytes → Effect (Unit {0})))

unfoldable pub find_plugin : Plugins → Bytes → Option (List Bytes → Effect (Unit {0}))
find_plugin [] command = none
find_plugin ((name, run) ∷ plugins) command =
    if name == command then some run else find_plugin plugins command

abbrev pub run_plugin : Option (List Bytes → Effect (Unit {0})) → List Bytes → Effect (Unit {0})
run_plugin none args = lift (err "unknown command; use 'help'")
run_plugin (some run) args = run args

abbrev pub command_of : Plugins → List Bytes → Effect (Unit {0})
command_of plugins [] = pure done
command_of plugins (command ∷ args) = run_plugin (find_plugin plugins command) args

unfoldable pub dispatch_resolved : Plugins → List Bytes → Effect (Unit {0})
unfolding with_session find_plugin
dispatch_resolved plugins words = with_session (command_of plugins words)

unfoldable pub dispatch : Plugins → List Bytes → Effect (Unit {0})
unfolding dispatch_resolved expand_alias
dispatch plugins words = do
  app ← the_app
  resolved ← lift (expand_alias app.config words)
  dispatch_resolved plugins resolved
