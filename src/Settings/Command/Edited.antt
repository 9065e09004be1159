-- ===== src/Settings/Command/Edited.antt =====
-- What the command `config` of src/settings.rs writes.
use solx.Common.{
  ◌≡◌, refl, inl, inr, Bool, true, false, List, [], ◌∷◌, Bytes, ascii, Option, none, some, Result,
  ok, ok_or-eq-ok, Bool-cases,
}
use mathlib.Core.Path.{sym, subst}
use solx.Common.Eq.{◌==◌, nat_eq, list_eq, option_eq}
use solx.Config.{Config}
use solx.Config.Checks.{validate-IsChecked}
use solx.Vault.{Vault}
use solx.Vault.Codec.Sound.{IsTotal}
use solx.Vault.Session.{Crates, Disk}
use solx.Effects.{Env, World, lift, pure}
use solx.Effects.Runs.{Returns, Returns-lift}
use solx.Effects.Keeps.{Keeps-lift, Keeps-pure, Keeps->>=}
use solx.Effects.Writing.{
  storage, Calm, Calm-answer, Calm-the_app, Calm-update_app, OnlyWrites, OnlyChanges->>=,
  OnlyChanges->>=-Keeps, OnlyChanges-attempt, OnlyChanges-implies,
}
use solx.App.{done, open_vault, save_vault}
use solx.App.Calm.{release_session-Calm, open_vault-Calm, IsSaved, save_vault-IsSaved}
use solx.App.Opened.{open_vault-IsOpened}
use solx.Commands.Send.Signed.{Gave, equal}
use solx.Settings.Ranges.{IsRanged}
use solx.Settings.Editor.{edit}
use solx.Settings.Editor.Accepted.{IsAccepted, SaveTyped, edit-IsAccepted}
use solx.Settings.Command.{
  adopt_saved, commit, commit_some, edit_if, review_settings, run_with_io, run,
}

adopt_saved-Calm :
    (env : Env) (crates : Crates) (test : Bool) (config : Config)
    → Calm (adopt_saved env crates test config)
adopt_saved-Calm env crates true config = Keeps->>= (Calm-answer _) (λ now. Calm-update_app _)
adopt_saved-Calm env crates false config = Keeps-pure done

module _ (env : Env) (crates : Crates) where
  -- The save of a commit: of the vault that has the reviewed bytes, with other settings.
  pub record IsCommit (revision : Option Bytes) (draft : Config) (before after : Disk)
      : Type 0 where
    pub current : Vault
    pub read_again : Gave (open_vault env crates) current
    pub unchanged : current.source_bytes ≡ revision
    pub saved : IsSaved env crates (record current { config = draft }) before after

  commit-IsCommit :
      (revision : Option Bytes) (draft : Config) (w : World)
      → OnlyWrites (IsCommit revision draft) (commit env crates revision draft) w
  unfolding commit
  commit-IsCommit revision draft w =
      let Q = IsCommit revision draft in
      OnlyChanges->>= storage Q _ _ w (Keeps-lift _) (λ valid w1 e1.
        OnlyChanges->>= storage Q _ _ w1 (Keeps-lift _) (λ small w2 e2.
          OnlyChanges->>= storage Q _ _ w2 (open_vault-Calm env crates) (λ current w3 e3.
            OnlyChanges->>= storage Q _ _ w3 (Keeps-lift _) (λ same w4 e4.
              OnlyChanges->>=-Keeps storage Q _ _ w4
                (OnlyChanges-implies storage {R = IsCommit revision draft}
                  (save_vault env crates (record current { config = draft })) w4
                  (save_vault-IsSaved env crates _ w4)
                  (λ before after saved. record {
                    current = current;
                    read_again = (w2, w3, e3);
                    unchanged = equal _ _ _ w3 e4;
                    saved = saved;
                  }))
                (λ saved.
                  Keeps->>= (adopt_saved-Calm env crates _ _)
                    (λ adopted. Keeps->>= (Keeps-lift _) (λ passed. Keeps-pure _)))))))

  module _ (path : Bytes) (reads : List (Result Bytes)) where
    -- A commit of what the editor made of the settings of the vault that was reviewed.
    pub record IsEdited (before after : Disk) : Type 0 where
      pub reviewed : Vault
      pub locator : Bytes
      pub draft : Config
      pub read_first : Gave (open_vault env crates) reviewed
      pub accepted :
          IsAccepted crates.parsers crates.json path
            (record reviewed.config { vault = locator })
            draft
      pub typed : SaveTyped reads
      pub committed : IsCommit reviewed.source_bytes draft before after

    module _ (total : IsTotal crates.crypto crates.parsers crates.json) where
      opened-IsRanged :
          (w : World) (v : Vault) {after : World}
          → Returns (open_vault env crates) w v after
          → IsRanged v.config
      opened-IsRanged w v {after} e =
          let opened = open_vault-IsOpened crates total env w v after e in
          let known = validate-IsChecked crates.parsers v.config opened.loaded.settings in
          (known.timeout, known.limit, known.margin, known.interval)

      commit_some-IsEdited :
          (v : Vault) (locator revision : Bytes)
          → Gave (open_vault env crates) v
          → IsRanged v.config
          → v.source_bytes ≡ some revision
          → (draft : Option Config)
          → edit crates.parsers crates.json path (record v.config { vault = locator }) reads
            ≡ ok draft
          → (w : World)
          → OnlyWrites IsEdited (commit_some env crates path reads (some revision) draft) w
      unfolding pure
      commit_some-IsEdited v locator revision gave ranged source none edited w = inl refl
      commit_some-IsEdited v locator revision gave ranged source (some draft) edited w =
          let (accepted, typed) =
            edit-IsAccepted crates.parsers crates.json path _ ranged reads draft edited in
          OnlyChanges->>=-Keeps storage IsEdited _ _ w
            (OnlyChanges-implies storage {R = IsEdited} (commit env crates (some revision) draft) w
              (commit-IsCommit (some revision) draft w)
              (λ before after committed. record {
                reviewed = v;
                locator = locator;
                draft = draft;
                read_first = gave;
                accepted = accepted;
                typed = typed;
                committed = subst (λ r. IsCommit r draft before after) (sym source) committed;
              }))
            (λ audit. Keeps-pure done)

      edit_if-IsEdited :
          (v : Vault) (locator revision : Bytes)
          → Gave (open_vault env crates) v
          → IsRanged v.config
          → v.source_bytes ≡ some revision
          → (editing : Bool) (w : World)
          → OnlyWrites IsEdited
              (edit_if env crates path reads editing
                (some revision)
                (record v.config { vault = locator }))
              w
      unfolding pure
      edit_if-IsEdited v locator revision gave ranged source false w = inl refl
      edit_if-IsEdited v locator revision gave ranged source true w =
          OnlyChanges->>= storage IsEdited _ _ w (Keeps-lift _) (λ draft w1 e1.
            commit_some-IsEdited v locator revision gave ranged source draft (Returns-lift _ w e1).0
              w1)

      review_settings-IsEdited :
          (editing : Bool) (w : World)
          → OnlyWrites IsEdited (review_settings env crates path reads editing) w
      unfolding review_settings
      review_settings-IsEdited editing w =
          OnlyChanges->>= storage IsEdited _ _ w (open_vault-Calm env crates) (λ v w1 e1.
            OnlyChanges->>= storage IsEdited _ _ w1 (Keeps-lift _) (λ revision w2 e2.
              OnlyChanges->>= storage IsEdited _ _ w2 Calm-the_app (λ app w3 e3.
                OnlyChanges->>= storage IsEdited _ _ w3 (Calm-update_app _) (λ adopted w4 e4.
                  edit_if-IsEdited v app.config.vault revision (w, w1, e1) (opened-IsRanged w v e1)
                    (ok_or-eq-ok v.source_bytes _ (Returns-lift _ w1 e2).0) editing w4))))

      run_with_io-IsEdited :
          (editing : Bool) (w : World)
          → OnlyWrites IsEdited (run_with_io env crates path reads editing) w
      unfolding run_with_io
      run_with_io-IsEdited editing w =
          OnlyChanges->>=-Keeps storage IsEdited _ _ w
            (OnlyChanges-attempt storage IsEdited _ w (review_settings-IsEdited editing w))
            (λ result. Keeps->>= release_session-Calm (λ released. Keeps-lift _))

      -- The command `config` leaves the vault file as it is, or saves the vault that has the bytes that were
      -- reviewed with other settings: a draft of the editor, made of the reviewed settings, that `validate`
      -- accepts, that fits 64 KiB and differs from them, after "SAVE" was typed.
      pub run-IsEdited :
          (terminal : Bool) (args : List Bytes) (w : World)
          → OnlyWrites IsEdited (run env crates path reads terminal args) w
      unfolding run lift
      run-IsEdited true [] w = run_with_io-IsEdited true w
      run-IsEdited false [] w = inl refl
      run-IsEdited terminal (word ∷ words) w =
          elim (Bool-cases ((word ∷ words) == (ascii "show" ∷ []))) [
            | inl shown ↦ rw shown (run_with_io-IsEdited false w)
            | inr other ↦ rw other (inl refl)
          ]
