-- ===== src/Settings/Command/Quiet.antt =====
-- The command `config` of src/settings.rs sends no transaction.
use solx.Common.{refl, Bool, true, false, List, [], ◌∷◌, Bytes, ascii, Option, none, some, Result}
use solx.Common.Eq.{◌==◌, nat_eq, list_eq}
use solx.Config.{Config}
use solx.Vault.Session.{Crates}
use solx.Effects.{App, Env, update_app}
use solx.Effects.Keeps.{
  Quiet, Silent-Quiet, Silent-answer, Keeps-lift, Keeps-pure, Keeps-attempt, Keeps-if, Keeps->>=,
}
use solx.Effects.Sending.{Silent-the_app}
use solx.App.{done}
use solx.App.Silent.{release_session-Silent, open_vault-Silent, save_vault-Silent}
use solx.Settings.Command.{
  adopt_saved, commit, commit_some, edit_if, review_settings, run_with_io, run,
}

Quiet-update_app : (f : App → App) → Quiet (update_app f)
unfolding update_app
Quiet-update_app f = record { at = λ w. refl }

module _ (env : Env) (crates : Crates) where
  adopt_saved-Quiet : (test : Bool) (config : Config) → Quiet (adopt_saved env crates test config)
  adopt_saved-Quiet true config =
      Keeps->>= (Silent-Quiet (Silent-answer _)) (λ now. Quiet-update_app _)
  adopt_saved-Quiet false config = Keeps-pure done

  commit-Quiet :
      (revision : Option Bytes) (draft : Config) → Quiet (commit env crates revision draft)
  unfolding commit
  commit-Quiet revision draft = Keeps->>= (Keeps-lift _) (λ valid.
      Keeps->>= (Keeps-lift _) (λ small.
        Keeps->>= (Silent-Quiet (open_vault-Silent env crates)) (λ current.
          Keeps->>= (Keeps-lift _) (λ same.
            Keeps->>= (Silent-Quiet (save_vault-Silent env crates _)) (λ saved.
              Keeps->>= (adopt_saved-Quiet _ _)
                (λ adopted. Keeps->>= (Keeps-lift _) (λ passed. Keeps-pure _)))))))

  module _ (path : Bytes) (reads : List (Result Bytes)) where
    commit_some-Quiet :
        (revision : Option Bytes) (draft : Option Config)
        → Quiet (commit_some env crates path reads revision draft)
    commit_some-Quiet revision none = Keeps-pure done
    commit_some-Quiet revision (some draft) =
        Keeps->>= (commit-Quiet revision draft) (λ audit. Keeps-pure done)

    edit_if-Quiet :
        (editing : Bool) (revision : Option Bytes) (original : Config)
        → Quiet (edit_if env crates path reads editing revision original)
    edit_if-Quiet false revision original = Keeps-pure done
    edit_if-Quiet true revision original =
        Keeps->>= (Keeps-lift _) (λ draft. commit_some-Quiet revision draft)

    run_with_io-Quiet : (editing : Bool) → Quiet (run_with_io env crates path reads editing)
    unfolding run_with_io review_settings
    run_with_io-Quiet editing =
        Keeps->>=
          (Keeps-attempt _ (
            Keeps->>= (Silent-Quiet (open_vault-Silent env crates)) (λ v.
              Keeps->>= (Keeps-lift _) (λ revision.
                Keeps->>= (Silent-Quiet Silent-the_app)
                  (λ app. Keeps->>= (Quiet-update_app _) (λ adopted. edit_if-Quiet editing _ _))))))
          (λ result. Keeps->>= (Silent-Quiet release_session-Silent) (λ released. Keeps-lift _))

    pub run-Quiet :
        (terminal : Bool) (args : List Bytes) → Quiet (run env crates path reads terminal args)
    unfolding run
    run-Quiet true [] = run_with_io-Quiet true
    run-Quiet false [] = Keeps-lift _
    run-Quiet terminal (word ∷ words) =
        Keeps-if ((word ∷ words) == (ascii "show" ∷ [])) (run_with_io-Quiet false) (Keeps-lift _)
