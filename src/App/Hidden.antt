-- ===== src/App/Hidden.antt =====
-- The methods of `App` of src/main.rs that add nothing to the log.
use solx.Common.{Bool, true, false, Option, none, some}
use solx.Effects.{Env}
use solx.Effects.Keeps.{Keeps-pure, Keeps->>=}
use solx.Effects.Revealing.{Mute, Mute-ask, Mute-access, Mute-the_app, Mute-update_app}
use solx.Vault.Session.{Crates, Session}
use solx.App.{when, drop_session, release_session, unlocked, unlock, open_vault}

when-Mute : (test : Bool) → Mute (when test drop_session)
unfolding drop_session
when-Mute true = Mute-update_app _
when-Mute false = Keeps-pure tt

pub release_session-Mute : Mute release_session
unfolding release_session
release_session-Mute = Keeps->>= Mute-the_app (λ app. when-Mute _)

module _ (env : Env) (crates : Crates) where
  unlocked-Mute : (session : Option Session) → Mute (unlocked env crates session)
  unlocked-Mute (some session) = Keeps-pure session
  unlocked-Mute none = Keeps->>= (Mute-ask _) (λ prepared. Keeps->>= (Mute-ask _) (λ password.
      Keeps->>= (Mute-access _)
        (λ session. Keeps->>= (Mute-update_app _) (λ kept. Keeps-pure session))))

  unlock-Mute : Mute (unlock env crates)
  unfolding unlock
  unlock-Mute = Keeps->>= Mute-the_app (λ app. unlocked-Mute app.session)

  pub open_vault-Mute : Mute (open_vault env crates)
  unfolding open_vault
  open_vault-Mute = Keeps->>= unlock-Mute (λ session. Mute-access _)
