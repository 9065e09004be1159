-- ===== src/App/Silent.antt =====
-- The methods of `App` of src/main.rs that send no transaction and change no settings.
use solx.Common.{refl, Bool, true, false, Bytes, Option, none, some, Result, ok, err, panicked}
use solx.Effects.{Env}
use solx.Effects.Keeps.{
  Silent, Silent-ask, Keeps-lift, Keeps-pure, Keeps-attempt, Keeps-if, Keeps->>=,
}
use solx.Effects.Sending.{Silent-the_app, Silent-update_app, Silent-access}
use solx.Vault.{Vault, is_known_recipient}
use solx.Vault.Session.{Crates, Session}
use solx.Rpc.Values.{Chain}
use solx.Rpc.Client.Queries.{verify_cluster-Silent}
use solx.App.{
  when, drop_session, release_session, unlocked, unlock, open_vault, saved_with, save_vault,
  commit_vault, public_vault, add_known, remember_recipient, rpc,
}

pub drop_session-Silent : Silent drop_session
unfolding drop_session
drop_session-Silent = Silent-update_app _ (λ app. refl)

pub when-Silent : (test : Bool) → Silent (when test drop_session)
when-Silent true = drop_session-Silent
when-Silent false = Keeps-pure tt

pub release_session-Silent : Silent release_session
unfolding release_session
release_session-Silent = Keeps->>= Silent-the_app (λ app. when-Silent _)

module _ (env : Env) (crates : Crates) where
  unlocked-Silent : (session : Option Session) → Silent (unlocked env crates session)
  unlocked-Silent (some session) = Keeps-pure session
  unlocked-Silent none = Keeps->>= (Silent-ask _) (λ prepared. Keeps->>= (Silent-ask _) (λ password.
      Keeps->>= (Silent-access _)
        (λ session. Keeps->>= (Silent-update_app _ (λ app. refl)) (λ kept. Keeps-pure session))))

  pub unlock-Silent : Silent (unlock env crates)
  unfolding unlock
  unlock-Silent = Keeps->>= Silent-the_app (λ app. unlocked-Silent app.session)

  pub open_vault-Silent : Silent (open_vault env crates)
  unfolding open_vault
  open_vault-Silent = Keeps->>= unlock-Silent (λ session. Silent-access _)

  saved_with-Silent :
      (v : Vault) (session : Result Session) → Silent (saved_with env crates v session)
  saved_with-Silent v (ok session) = Silent-access _
  saved_with-Silent v (err message) = Keeps-pure _
  saved_with-Silent v panicked = Keeps-lift _

  pub save_vault-Silent : (v : Vault) → Silent (save_vault env crates v)
  unfolding save_vault
  save_vault-Silent v =
      Keeps->>= (Keeps-attempt _ unlock-Silent) (λ session. saved_with-Silent v session)

  pub commit_vault-Silent : (v : Vault) → Silent (commit_vault env crates v)
  unfolding commit_vault
  commit_vault-Silent v =
      Keeps->>= (save_vault-Silent v) (λ saved. Keeps->>= (Keeps-lift _) (λ done. Keeps-pure _))

  pub public_vault-Silent : Silent (public_vault env crates)
  unfolding public_vault
  public_vault-Silent =
      Keeps->>= (Keeps-attempt _ open_vault-Silent)
        (λ result. Keeps->>= release_session-Silent (λ released. Keeps-lift _))

  add_known-Silent : (target : Bytes) → Silent (add_known env crates target)
  unfolding add_known
  add_known-Silent target = Keeps->>= open_vault-Silent (λ v.
      Keeps-if (is_known_recipient v target) (Keeps-pure _)
        (Keeps->>= (commit_vault-Silent _) (λ saved. Keeps-pure _)))

  pub remember_recipient-Silent : (target : Bytes) → Silent (remember_recipient env crates target)
  unfolding remember_recipient
  remember_recipient-Silent target =
      Keeps->>= (Keeps-attempt _ (add_known-Silent target)) (λ result. Keeps-pure _)

  pub rpc-Silent : (chain : Chain) → Silent (rpc env crates chain)
  unfolding rpc
  rpc-Silent chain = Keeps->>= Silent-the_app (λ app.
      Keeps->>= (Keeps-lift _) (λ client.
        Keeps->>= (verify_cluster-Silent env chain client) (λ checked. Keeps-pure client)))
