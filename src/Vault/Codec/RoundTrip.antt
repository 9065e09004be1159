-- ===== src/Vault/Codec/RoundTrip.antt =====
-- `encode_with_audit` of src/vault.rs followed by `decode`.
use solx.Common.{
  ◌+◌, ◌%◌, ◌^◌, ◌≤◌, ◌<◌, ◌≡◌, refl, true, [], ◌∷◌, Bytes, length, to_le_bytes, none, some, ok,
  ge→ltb, arith,
}
use solx.Common.Eq.{◌==◌, nat_eq}
use solx.Config.{Config}
use solx.Config.Validate.{Parsers, validate}
use solx.Secret.{LockedBytes}
use solx.Vault.{Vault, ConfigAudit, max_accounts, max_masters, max_recipients}
use solx.Vault.Audit.{validate_audit}
use solx.Vault.Phrase.{Crypto}
use solx.Vault.Valid.{IsValid}
use solx.Vault.Codec.{Json}
use solx.Vault.Codec.Encode.{encode_with_audit}
use solx.Vault.Codec.Layout.{
  master_bytes, account_bytes, concat_map, config_bytes, audit_bytes, layout, encode_exact,
}
use solx.Vault.Codec.Decode.{read_vault, decode}
use solx.Vault.Codec.Takes.{
  run-Takes, Takes, lift-Takes, bind-Takes, guard-Takes, end-Takes, u8-Takes, u16-Takes,
}
use solx.Vault.Codec.Parts.{
  read_masters-Takes, read_recipients-Takes, read_accounts-Takes, read_audit-Takes,
  read_config-Takes,
}

-- What a load returns for a vault that was saved: the settings as they were read back, which are
-- also the baseline of the edit counter, and no source bytes yet.
abbrev pub reloaded : Vault → ConfigAudit → Config → Vault
reloaded v audit config = record {
  config = config;
  config_audit = audit;
  saved_config = some config;
  masters = v.masters;
  accounts = v.accounts;
  recipients = v.recipients;
  source_bytes = none;
}

module _ (c : Crypto) (parsers : Parsers) (json : Json) (v : Vault) (audit : ConfigAudit)
    (text : Bytes) (config : Config) (valid : IsValid c v) (few : audit.edits < 2 ^ 64)
    (early : audit.last_edit_unix < 2 ^ 64) (checked : validate_audit audit ≡ ok tt)
    (some_text : 0 < length text) (fits : length text ≤ 65536)
    (read : json.from_slice text ≡ ok config) (settings : validate parsers config ≡ ok tt) where
  read_vault-Takes :
      Takes (read_vault parsers json c.ed25519) (layout v audit text) (reloaded v audit config)
  unfolding read_vault
  read_vault-Takes =
      let masters = valid.masters_len in
      let accounts = valid.accounts_len in
      let recipients = valid.recipients_len in
      let small : length v.masters % 256 ≡ length v.masters = omega arith in
      rw small (
        bind-Takes _ _ (length v.masters ∷ []) _ _ _ (u8-Takes (length v.masters)) (
          guard-Takes _ _ _ _ _ (ge→ltb max_masters (length v.masters) masters) (
            bind-Takes _ _ (concat_map master_bytes v.masters) _ _ _
              (read_masters-Takes [] v.masters valid.masters_valid)
              (bind-Takes _ _ (to_le_bytes 2 (length v.accounts)) _ _ _
                (u16-Takes (length v.accounts) (omega arith))
                (guard-Takes _ _ _ _ _ (ge→ltb max_accounts (length v.accounts) accounts) (
                  bind-Takes _ _ (concat_map account_bytes v.accounts) _ _ _
                    (read_accounts-Takes c v.masters valid.masters_valid [] v.accounts
                      valid.accounts_valid valid.names_differ)
                    (bind-Takes _ _ (to_le_bytes 2 (length v.recipients)) _ _ _
                      (u16-Takes (length v.recipients) (omega arith))
                      (guard-Takes _ _ _ _ _
                        (ge→ltb max_recipients (length v.recipients) recipients)
                        (bind-Takes _ _ (concat_map (λ key. key) v.recipients) _ _ _
                          (read_recipients-Takes [] v.recipients valid.recipients_valid)
                          (bind-Takes _ _ (config_bytes text) _ _ _
                            (read_config-Takes parsers json text config some_text fits read
                              settings)
                            (end-Takes _ _ (audit_bytes audit) _ _
                              (read_audit-Takes audit few early checked)
                              (lift-Takes _ _ refl))))))))))))

  decode-layout :
      length (layout v audit text) < 2 ^ 64
      → decode parsers json c.ed25519 (layout v audit text) ≡ ok (reloaded v audit config)
  unfolding decode
  decode-layout small =
      let bytes = layout v audit text in
      let whole : (length bytes == length bytes) ≡ true = ground arith in
      rw (run-Takes (read_vault parsers json c.ed25519) bytes _ small read_vault-Takes, whole)

-- Decoding what was encoded: for every valid vault whose settings are accepted, fit 64 KiB and are
-- read back by the JSON crate, encoding succeeds, and decoding the result gives the same masters,
-- accounts and recipients in their order, the audit, and the settings as read back.
pub decode-encode :
    (c : Crypto) (parsers : Parsers) (json : Json) (v : Vault) (audit : ConfigAudit)
    (config : Config)
    → IsValid c v
    → audit.edits < 2 ^ 64
    → audit.last_edit_unix < 2 ^ 64
    → validate_audit audit ≡ ok tt
    → validate parsers v.config ≡ ok tt
    → 0 < length (json.text v.config)
    → length (json.text v.config) ≤ 65536
    → json.from_slice (json.text v.config) ≡ ok config
    → validate parsers config ≡ ok tt
    → (out : LockedBytes) × (encode_with_audit parsers json v audit ≡ ok out)
      × (decode parsers json c.ed25519 out.bytes ≡ ok (reloaded v audit config))
decode-encode c parsers json v audit config valid few early checked settings some_text fits read
      settings' =
    let text = json.text v.config in
    let (written, small) = encode_exact c parsers json v audit valid checked settings fits in
    (
      record { bytes = layout v audit text; capacity = length (layout v audit text) + 16 },
      written,
      decode-layout c parsers json v audit text config valid few early checked some_text fits read
          settings' (omega arith),
    )
