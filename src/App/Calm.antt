-- ===== src/App/Calm.antt =====
-- The methods of `App` of src/main.rs that leave the vault file as it is, and what a save writes.
use solx.Common.{
  ℕ, ◌≡◌, refl, inl, inr, Bool, true, false, Option, none, some, Result, ok, err, panicked,
}
use solx.Vault.{Vault}
use solx.Vault.Session.{Crates, Session, Disk}
use solx.Vault.Session.Save.{save}
use solx.Effects.{Env, lift, pure, access}
use solx.Effects.Keeps.{Keeps-lift, Keeps-pure, Keeps-attempt, Keeps->>=}
use solx.Effects.Writing.{
  storage, Calm, Calm-ask, Calm-the_app, Calm-update_app, OnlyWrites, OnlyChanges->>=,
  OnlyChanges->>=-Keeps,
}
use solx.App.{
  when, drop_session, release_session, unlocked, unlock, open_vault, saved_with, save_vault,
  commit_vault,
}

when-Calm : (test : Bool) → Calm (when test drop_session)
unfolding drop_session
when-Calm true = Calm-update_app _
when-Calm false = Keeps-pure tt

pub release_session-Calm : Calm release_session
unfolding release_session
release_session-Calm = Keeps->>= Calm-the_app (λ app. when-Calm _)

-- A call that only reads the disk.
Calm-read :
    {A : Type 0} (read : ℕ → Disk → Result A)
    → Calm (access (λ moment disk. (read moment disk, disk)))
unfolding access
Calm-read read = record { at = λ w. refl }

module _ (env : Env) (crates : Crates) where
  unlocked-Calm : (session : Option Session) → Calm (unlocked env crates session)
  unlocked-Calm (some session) = Keeps-pure session
  unlocked-Calm none = Keeps->>= (Calm-ask _) (λ prepared. Keeps->>= (Calm-ask _) (λ password.
      Keeps->>= (Calm-read _)
        (λ session. Keeps->>= (Calm-update_app _) (λ kept. Keeps-pure session))))

  unlock-Calm : Calm (unlock env crates)
  unfolding unlock
  unlock-Calm = Keeps->>= Calm-the_app (λ app. unlocked-Calm app.session)

  pub open_vault-Calm : Calm (open_vault env crates)
  unfolding open_vault
  open_vault-Calm = Keeps->>= unlock-Calm (λ session. Calm-read _)

  -- The disk after a save of this vault, by some session and with some faults.
  pub record IsSaved (v : Vault) (before after : Disk) : Type 0 where
    pub session : Session
    pub moment : ℕ
    pub written : after ≡ (save crates session (env.faults moment) v before).disk

  saved_with-IsSaved :
      (v : Vault) (session : Result Session) (w : _)
      → OnlyWrites (IsSaved v) (saved_with env crates v session) w
  unfolding access lift pure
  saved_with-IsSaved v (ok session) w =
      inr (record { session = session; moment = w.moment; written = refl })
  saved_with-IsSaved v (err message) w = inl refl
  saved_with-IsSaved v panicked w = inl refl

  pub save_vault-IsSaved : (v : Vault) (w : _) → OnlyWrites (IsSaved v) (save_vault env crates v) w
  unfolding save_vault
  save_vault-IsSaved v w =
      OnlyChanges->>= storage (IsSaved v) _ _ w (Keeps-attempt _ unlock-Calm)
        (λ session w1 e1. saved_with-IsSaved v session w1)

  pub commit_vault-IsSaved :
      (v : Vault) (w : _) → OnlyWrites (IsSaved v) (commit_vault env crates v) w
  unfolding commit_vault
  commit_vault-IsSaved v w =
      OnlyChanges->>=-Keeps storage (IsSaved v) _ _ w (save_vault-IsSaved v w)
        (λ saved. Keeps->>= (Keeps-lift _) (λ passed. Keeps-pure _))
