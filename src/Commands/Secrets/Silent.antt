-- ===== src/Commands/Secrets/Silent.antt =====
-- The commands of src/commands.rs that take or show secrets send no transaction and change no settings.
use solx.Common.{ℕ, refl, Bool, true, false, ◌&&◌, List, [], ◌∷◌, Bytes, ascii, Option, some}
use solx.Common.Eq.{◌==◌, nat_eq, list_eq}
use solx.Vault.{Vault}
use solx.Vault.Session.{Crates, Session}
use solx.Effects.{Env, update_app}
use solx.Effects.Keeps.{Silent, Silent-ask, Keeps-lift, Keeps-pure, Keeps-if, Keeps->>=}
use solx.Effects.Sending.{Silent-the_app, Silent-question, Silent-access, Silent-update_app}
use solx.App.{done, cached, when}
use solx.App.Silent.{
  release_session-Silent, open_vault-Silent, commit_vault-Silent, public_vault-Silent,
}
use solx.Commands.Local.Silent.{Silent-reveal}
use solx.Commands.Secrets.{Sources, ExportKind}
use solx.Commands.Secrets.Export.{show_secret, export}
use solx.Commands.Secrets.Import.{
  from_file, from_phrase, from_base58, read_secret, import_named, import_wallet,
}
use solx.Commands.Secrets.Init.{create_vault, keep_session, new_password, init}

module _ (sources : Sources) (env : Env) (crates : Crates) where
  show_secret-Silent :
      (name : Bytes) (kind : ExportKind) (expected : Bytes) (index : Option ℕ)
      → Silent (show_secret sources env crates name kind expected index)
  show_secret-Silent name kind expected index = Keeps->>= (open_vault-Silent env crates) (λ now.
      Keeps->>= (Keeps-lift _) (λ a. Keeps->>= (Keeps-lift _) (λ same.
        Keeps->>= (Keeps-lift _)
          (λ kept. Keeps->>= (Keeps-lift _) (λ secret. Silent-reveal secret)))))

  pub export-Silent : (args : List Bytes) → Silent (export sources env crates args)
  unfolding export
  export-Silent args = Keeps->>= (Keeps-lift _) (λ words.
      Keeps->>= (open_vault-Silent env crates) (λ v. Keeps->>= (Keeps-lift _) (λ a.
        Keeps->>= (Keeps-lift _) (λ index. Keeps->>= (Keeps-lift _) (λ has.
          Keeps->>= release_session-Silent (λ released. Keeps->>= (Silent-question _) (λ asked.
            Keeps->>= (Silent-ask _) (λ input.
              Keeps->>= (Keeps-lift _)
                (λ same. show_secret-Silent words.0 words.1 a.pubkey index)))))))))

  from_file-Silent : (path : Bytes) → Silent (from_file sources env crates path)
  from_file-Silent path = Keeps->>= (Silent-ask _) (λ file. Keeps->>= (Keeps-lift _) (λ small.
      Keeps->>= (Keeps-lift _) (λ short. Keeps->>= (Keeps-lift _) (λ bytes. Keeps-pure _))))

  from_phrase-Silent : Silent (from_phrase sources env crates)
  from_phrase-Silent =
      Keeps->>= (Silent-ask _) (λ text. Keeps->>= (Keeps-lift _) (λ entropy. Keeps-pure _))

  from_base58-Silent : Silent (from_base58 sources env crates)
  from_base58-Silent =
      Keeps->>= (Silent-ask _) (λ text. Keeps->>= (Keeps-lift _) (λ bytes. Keeps-pure _))

  read_secret-Silent :
      (flag : Bytes) (rest : List Bytes) → Silent (read_secret sources env crates flag rest)
  read_secret-Silent flag [] =
      Keeps-if (flag == ascii "--mnemonic") from_phrase-Silent
        (Keeps-if (flag == ascii "--base58") from_base58-Silent (Keeps-lift _))
  read_secret-Silent flag (path ∷ []) =
      Keeps-if (flag == ascii "--keypair-file") (from_file-Silent path) (Keeps-lift _)
  read_secret-Silent flag (path ∷ word ∷ words) = Keeps-lift _

  import_named-Silent :
      (name flag : Bytes) (rest : List Bytes)
      → Silent (import_named sources env crates name flag rest)
  import_named-Silent name flag rest = Keeps->>= (public_vault-Silent env crates) (λ v.
      Keeps->>= (Keeps-lift _) (λ new. Keeps->>= (read_secret-Silent flag rest) (λ imported.
        Keeps->>= (open_vault-Silent env crates) (λ now. Keeps->>= (Keeps-lift _) (λ added.
          Keeps->>= (commit_vault-Silent env crates added)
            (λ saved. Keeps->>= (Keeps-lift _) (λ a. Keeps-pure done)))))))

  pub import_wallet-Silent : (args : List Bytes) → Silent (import_wallet sources env crates args)
  unfolding import_wallet
  import_wallet-Silent [] = Keeps-lift _
  import_wallet-Silent (name ∷ []) = Keeps-lift _
  import_wallet-Silent (name ∷ flag ∷ []) = import_named-Silent name flag []
  import_wallet-Silent (name ∷ flag ∷ path ∷ []) =
      Keeps->>= (Keeps-lift _) (λ known. import_named-Silent name flag (path ∷ []))
  import_wallet-Silent (name ∷ flag ∷ path ∷ word ∷ words) = Keeps-lift _

  create_vault-Silent :
      (password : Bytes) (v : Vault) → Silent (create_vault sources env crates password v)
  unfolding create_vault
  create_vault-Silent password v = Silent-access _

  new_password-Silent : Silent (new_password sources env crates)
  unfolding new_password
  new_password-Silent = Keeps->>= (Silent-ask _) (λ first. Keeps->>= (Silent-ask _) (λ second.
      Keeps->>= (Keeps-lift _) (λ same. Keeps->>= (Keeps-lift _) (λ long. Keeps-pure _))))

  keep_session-Silent : (session : Session) → Silent (keep_session sources env crates session)
  keep_session-Silent session =
      Keeps->>= Silent-the_app (λ app. when-Silent (app.shell && cached app))
    where
      when-Silent :
          (test : Bool)
          → Silent (when test (update_app (λ app. record app { session = some session })))
      when-Silent true = Silent-update_app _ (λ app. refl)
      when-Silent false = Keeps-pure done

  pub init-Silent : (args : List Bytes) → Silent (init sources env crates args)
  unfolding init
  init-Silent args = Keeps->>= (Keeps-lift _) (λ name. Keeps->>= (Keeps-lift _) (λ valid.
      Keeps->>= (Silent-access _) (λ found. Keeps->>= (Keeps-lift _) (λ absent.
        Keeps->>= (Silent-ask _) (λ prepared. Keeps->>= new_password-Silent (λ password.
          Keeps->>= (Silent-ask _) (λ entropy. Keeps->>= (Keeps-lift _) (λ text.
            Keeps->>= Silent-the_app (λ app. Keeps->>= (Keeps-lift _) (λ v.
              Keeps->>= (create_vault-Silent password v) (λ made.
                Keeps->>= (Keeps-lift _)
                  (λ a. Keeps->>= (Silent-reveal _) (λ told. keep_session-Silent made.0)))))))))))))
