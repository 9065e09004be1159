-- ===== src/Tests/Files.antt =====
-- The file of src/vault.rs: header, plaintext, and a save of the small vault.
use solx.Common.{
  ◌+◌, ◌^◌, ◌<◌, ◌≡◌, ◌≢◌, refl, true, false, [], ◌∷◌, ◌++◌, Bytes, IsByte, ascii, All, length,
  drop, some, ok, panicked, arith, from_le_bytes, to_le_bytes, ok_inj, all, ltb, ◌⊎◌,
}
use solx.Config.{ui, mode_eq}
use solx.Config.Validate.{known_cluster, hash_parses, aliases_valid, url_allowed}
use solx.Rpc.Genesis.{expected_genesis}
use solx.Common.Eq.{list_beq}
use solx.Secret.{LockedBytes}
use solx.Vault.{Vault, ConfigAudit, default_vault}
use solx.Vault.Codec.Accepts.{IsLoaded, decode-ne-panicked, decode-IsLoaded}
use solx.Vault.Codec.Decode.{decode}
use solx.Vault.Codec.Encode.{encode_with_audit}
use solx.Vault.Codec.Layout.{layout, encode_exact}
use solx.Vault.Codec.RoundTrip.{reloaded, decode-encode}
use solx.Vault.Codec.Sound.{IsTotal}
use solx.Vault.Valid.{IsValid}
use solx.Vault.Session.{load}
use solx.Vault.Session.Commit.{SavesAtomically, save_atomic}
use solx.Vault.Session.Counted.{CountsEdit, save_counts}
use solx.Vault.Session.Save.{settings_changed, save}
use solx.Vault.Session.Stored.{load-save}
use solx.Vault.Audit.{validate_audit}
use solx.Vault.Header.{header_len, parse, encode}
use solx.Vault.Header.RoundTrip.{IsHeader, parse-encode, encode-parse}
use solx.Tests.World.{
  replicate, toy_crypto, toy_parsers, toy_json, toy_crates, toy-IsAead, vault, vault-IsValid,
  config, config_accepted, session, session-IsHeader, quiet, quiet-IsQuiet, no_disk,
}

parse-encode_example : parse (encode session.header ++ replicate 16 9) ≡ ok session.header
parse-encode_example =
    parse-encode session.header (replicate 16 9) session-IsHeader (omega arith) (omega arith)

abbrev no_edits : ConfigAudit
no_edits = record { edits = 0; last_edit_unix = 0 }

no_edits_valid : validate_audit no_edits ≡ ok tt
unfolding validate_audit
no_edits_valid = refl

encode_exact_example :
    (encode_with_audit toy_parsers toy_json vault no_edits
      ≡ ok (record {
        bytes = layout vault no_edits (ascii "{}");
        capacity = length (layout vault no_edits (ascii "{}")) + 16;
      }))
    × (length (layout vault no_edits (ascii "{}")) < 2 ^ 17)
encode_exact_example =
    encode_exact toy_crypto toy_parsers toy_json vault no_edits vault-IsValid no_edits_valid
      config_accepted (omega arith)

decode-encode_example :
    (out : LockedBytes) × (encode_with_audit toy_parsers toy_json vault no_edits ≡ ok out)
    × (decode toy_parsers toy_json toy_crypto.ed25519 out.bytes
        ≡ ok (reloaded vault no_edits config))
decode-encode_example =
    decode-encode toy_crypto toy_parsers toy_json vault no_edits config vault-IsValid (omega arith)
      (omega arith) no_edits_valid config_accepted (omega arith) (omega arith) refl config_accepted

pub toy-IsTotal : IsTotal toy_crypto toy_parsers toy_json
toy-IsTotal = record {
  key_returns = λ bytes e. ground arith;
  json_returns = λ text e. cc;
  parsers_return = record { url_returns = λ text e. cc; hash_returns = λ text e. cc };
}

decode-ne-panicked_example :
    decode toy_parsers toy_json toy_crypto.ed25519 (replicate 40 1) ≢ panicked
decode-ne-panicked_example =
    decode-ne-panicked toy_crypto toy_parsers toy_json (replicate 40 1) toy-IsTotal

-- No masters, no accounts, no recipients, two bytes of settings, and an empty audit.
abbrev empty_file : Bytes
empty_file = replicate 5 0 ++ 2 ∷ 0 ∷ 0 ∷ 0 ∷ ascii "{}" ++ replicate 16 0

abbrev empty_vault : Vault
empty_vault = record (default_vault (ascii "vault.enc")) { saved_config = some config }

empty_decodes : decode toy_parsers toy_json toy_crypto.ed25519 empty_file ≡ ok empty_vault
unfolding decode from_le_bytes expected_genesis list_beq known_cluster hash_parses aliases_valid
    url_allowed
empty_decodes = refl

decode-IsLoaded_example : IsLoaded toy_crypto toy_parsers empty_vault
decode-IsLoaded_example =
    decode-IsLoaded toy_crypto toy_parsers toy_json empty_file empty_vault toy-IsTotal empty_decodes

-- The settings were loaded with another mode.
abbrev edited : Vault
edited = record vault { saved_config = some (record config { mode = ui }) }

edited-IsValid : IsValid toy_crypto edited
edited-IsValid = record {
  masters_valid = vault-IsValid.masters_valid;
  masters_len = vault-IsValid.masters_len;
  accounts_valid = vault-IsValid.accounts_valid;
  accounts_len = vault-IsValid.accounts_len;
  names_differ = vault-IsValid.names_differ;
  recipients_valid = vault-IsValid.recipients_valid;
  recipients_len = vault-IsValid.recipients_len;
}

save_atomic_example :
    SavesAtomically toy_crates session quiet edited no_disk
      (save toy_crates session quiet edited no_disk)
save_atomic_example = save_atomic toy_crates session quiet edited no_disk

saves : (save toy_crates session quiet edited no_disk).result ≡ ok tt
unfolding save expected_genesis list_beq known_cluster hash_parses aliases_valid url_allowed
    to_le_bytes mode_eq
saves = refl

save_counts_example :
    let v' = (save toy_crates session quiet edited no_disk).vault in
    (v'.saved_config ≡ some config)
    × (((settings_changed config edited.saved_config ≡ true)
          × CountsEdit quiet edited.config_audit v'.config_audit)
        ⊎ ((settings_changed config edited.saved_config ≡ false)
            × (v'.config_audit ≡ edited.config_audit)))
save_counts_example = save_counts toy_crates session quiet edited no_disk saves

nonce_size : (nonce : Bytes) → quiet.nonce ≡ ok nonce → length nonce ≡ 12
nonce_size nonce e = rw (← ok_inj e) refl

load-save_example :
    let o = save toy_crates session quiet edited no_disk in
    load toy_crates session quiet o.disk
    ≡ ok (record o.vault { config = config; saved_config = some config })
load-save_example =
    load-save toy_crates session quiet quiet edited no_disk config toy-IsAead session-IsHeader
      nonce_size edited-IsValid (omega arith) (omega arith) refl config_accepted quiet-IsQuiet saves

small_bytes : (bytes : Bytes) → all (λ b. ltb b 256) bytes ≡ true → All IsByte bytes
small_bytes [] h = tt
small_bytes (b ∷ bytes) h = (ground arith, small_bytes bytes (ground arith))

abbrev header_file : Bytes
header_file = encode session.header ++ replicate 16 9

header_file_small : all (λ b. ltb b 256) header_file ≡ true
unfolding encode to_le_bytes
header_file_small = refl

header_file_parses : parse header_file ≡ ok session.header
header_file_parses =
    parse-encode session.header (replicate 16 9) session-IsHeader (omega arith) (omega arith)

encode-parse_example :
    IsHeader session.header × (encode session.header ++ drop header_len header_file ≡ header_file)
encode-parse_example =
    encode-parse header_file session.header (small_bytes header_file header_file_small)
      header_file_parses
