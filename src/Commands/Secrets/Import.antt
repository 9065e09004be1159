-- ===== src/Commands/Secrets/Import.antt =====
-- The command `import` of src/commands.rs.
use solx.Common.{not, ◌||◌, List, [], ◌∷◌, length, Bytes, ascii, err, fail_if, ltb, if◌then◌else◌}
use solx.Common.Eq.{◌==◌, nat_eq, list_eq}
use solx.Vault.{account}
use solx.Vault.Public.{has_public}
use solx.Vault.Phrase.{parse_phrase}
use solx.Vault.Session.{Crates}
use solx.Effects.{Env, Effect, ◌>>=◌, ◌>>◌, lift, pure, ask}
use solx.App.{done, open_vault, commit_vault, public_vault}
use solx.Commands.Secrets.{
  Sources, ImportedSecret, entropy_of, keypair_of, parse_keypair_json, decode_base58_keypair,
  add_secret,
}

module _ (sources : Sources) (env : Env) (crates : Crates) where
  -- The arm of the keypair file; at most 1025 bytes of it are read.
  abbrev pub from_file : Bytes → Effect ImportedSecret
  from_file path = do
    file ← ask (λ moment. sources.open_file moment path)
    lift (fail_if (not file.is_file || ltb 1024 file.len) "keypair file is too large")
    lift (fail_if (ltb 1024 (length file.contents)) "keypair file is too large")
    bytes ← lift (parse_keypair_json sources crates file.contents)
    pure (keypair_of bytes)

  abbrev pub from_phrase : Effect ImportedSecret
  from_phrase = do
    text ← ask env.password
    entropy ← lift (parse_phrase crates.crypto text)
    pure (entropy_of entropy)

  abbrev pub from_base58 : Effect ImportedSecret
  from_base58 = do
    text ← ask env.password
    bytes ← lift (decode_base58_keypair sources crates text)
    pure (keypair_of bytes)

  abbrev pub import_usage : Effect ImportedSecret
  import_usage = lift (err "usage: solx import NAME (--mnemonic | --base58 | --keypair-file PATH)")

  -- The match on the flag.
  abbrev pub read_secret : Bytes → List Bytes → Effect ImportedSecret
  read_secret flag [] =
      if flag == ascii "--mnemonic"
      then from_phrase
      else (if flag == ascii "--base58" then from_base58 else import_usage)
  read_secret flag (path ∷ []) =
      if flag == ascii "--keypair-file" then from_file path else import_usage
  read_secret flag _ = import_usage

  abbrev pub import_named : Bytes → Bytes → List Bytes → Effect (Unit {0})
  import_named name flag rest = do
    v ← public_vault env crates
    lift (fail_if (has_public v name) "wallet name already exists")
    imported ← read_secret flag rest
    now ← open_vault env crates
    added ← lift (add_secret sources crates now name imported)
    saved ← commit_vault env crates added
    a ← lift (account saved name)
    pure done

  unfoldable pub import_wallet : List Bytes → Effect (Unit {0})
  unfolding parse_keypair_json parse_phrase decode_base58_keypair public_vault has_public open_vault
      add_secret commit_vault account
  import_wallet (name ∷ flag ∷ []) = import_named name flag []
  import_wallet (name ∷ flag ∷ path ∷ []) = do
    lift (
        fail_if (flag == ascii "--base58")
          "inline private keys are disabled; omit KEY for a hidden prompt")
    import_named name flag (path ∷ [])
  import_wallet _ =
      lift (err "usage: solx import NAME (--mnemonic | --base58 | --keypair-file PATH)")
