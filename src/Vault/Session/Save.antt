-- ===== src/Vault/Session/Save.antt =====
-- `Session::save` of src/vault.rs, and `Session::create`.
use solx.Common.{
  map_err, Bool, true, false, not, [], ◌∷◌, ◌++◌, String, Bytes, take, Option, none, some, Result,
  ok, err, panicked, ◌>>=◌, ◌>>◌, fail_if, if◌then◌else◌,
}
use solx.Common.Eq.{◌==◌, nat_eq, list_eq}
use solx.Config.{Config, same_settings}
use solx.Kdf.{vault_params, derive}
use solx.Vault.{Vault, ConfigAudit}
use solx.Vault.Audit.{record_edit}
use solx.Vault.Header.{EnvelopeHeader, encode}
use solx.Vault.Codec.Encode.{encode_with_audit}
use solx.Vault.Session.{Crates, Session, Disk, Faults, call, read_stored}

-- `is_some_and(|saved| !vault.config.same_settings(saved))`
abbrev pub settings_changed : Config → Option Config → Bool
settings_changed config none = false
settings_changed config (some saved) = not (same_settings config saved)

unfoldable pub next_audit : Faults → Vault → Result ConfigAudit
unfolding same_settings record_edit
next_audit faults v =
    if settings_changed v.config v.saved_config
    then (do now ← faults.clock; record_edit v.config_audit now)
    else ok v.config_audit

-- What stands at the path must be what the vault was loaded from, or nothing.
abbrev pub vacant : Option Bytes → Result (Unit {0})
vacant none = ok tt
vacant (some bytes) = err "vault already exists"

unfoldable pub expect_source : Faults → Disk → Option Bytes → Result (Unit {0})
unfolding read_stored
expect_source faults disk (some original) = do
  stored ← read_stored faults disk
  fail_if (not (stored == original)) "vault changed; reload and retry the local operation"
expect_source faults disk none = do call faults.access; vacant disk.file

-- The result of a save, with the vault and the disk after it.
pub record Outcome : Type 0 where
  pub result : Result (Unit {0})
  pub vault : Vault
  pub disk : Disk

abbrev pub stays : Result (Unit {0}) → Vault → Disk → Outcome
stays result v disk = record { result = result; vault = v; disk = disk }

-- An error: `directory.remove(&tmp)`, whose own failure is ignored.
abbrev pub clean : Option String → String → Vault → Disk → Outcome
clean none message v disk = stays (err message) v (record disk { temporary = none })
clean (some ignored) message v disk = stays (err message) v disk

abbrev pub committed : Vault → Bytes → ConfigAudit → Vault
committed v encrypted audit = record v {
  source_bytes = some encrypted;
  config_audit = audit;
  saved_config = some v.config;
}

abbrev pub renamed : Bytes → Disk
renamed encrypted = record { file = some encrypted; temporary = none }

-- Each step of the closure, from the last to the first. The error of the last step also quotes the
-- cause, which is left out here.
abbrev pub sync_directory : Faults → Option String → Vault → Disk → Outcome
sync_directory faults none v disk = stays (ok tt) v disk
sync_directory faults (some message) v disk =
    clean faults.remove "vault saved, but directory sync failed" v disk

abbrev pub rename_step : Faults → Option String → Bytes → ConfigAudit → Vault → Disk → Outcome
rename_step faults none encrypted audit v disk =
    sync_directory faults faults.directory_sync (committed v encrypted audit) (renamed encrypted)
rename_step faults (some message) encrypted audit v disk = clean faults.remove message v disk

abbrev pub sync_step : Faults → Option String → Bytes → ConfigAudit → Vault → Disk → Outcome
sync_step faults none encrypted audit v disk =
    rename_step faults faults.rename encrypted audit v disk
sync_step faults (some message) encrypted audit v disk = clean faults.remove message v disk

abbrev pub write_step : Faults → Option String → Bytes → ConfigAudit → Vault → Disk → Outcome
write_step faults none encrypted audit v disk =
    sync_step faults faults.file_sync encrypted audit v (record disk { temporary = some encrypted })
write_step faults (some message) encrypted audit v disk =
    clean faults.remove message v (record disk { temporary = some (take faults.written encrypted) })

abbrev pub create_step : Faults → Option String → Bytes → ConfigAudit → Vault → Disk → Outcome
create_step faults none encrypted audit v disk =
    write_step faults faults.write encrypted audit v (record disk { temporary = some [] })
create_step faults (some message) encrypted audit v disk = clean faults.remove message v disk

unfoldable pub replace_file : Faults → Bytes → ConfigAudit → Vault → Disk → Outcome
replace_file faults encrypted audit v disk = create_step faults faults.create encrypted audit v disk

module _ (crates : Crates) where
  -- Everything before the temporary file: the new content of the file, and the audit.
  unfoldable pub prepare : Session → Faults → Vault → Disk → Result (Bytes × ConfigAudit)
  unfolding next_audit encode encode_with_audit expect_source
  prepare session faults v disk = do
    audit ← next_audit faults v
    nonce ← faults.nonce
    let header = encode (record session.header { nonce = nonce })
    plain ← encode_with_audit crates.parsers crates.json v audit
    sealed ←
        map_err (crates.aead.encrypt_in_place session.key nonce header plain)
          "vault encryption failed"
    call faults.directory
    call faults.lock
    expect_source faults disk v.source_bytes
    call faults.name
    ok (header ++ sealed.bytes, audit)

  abbrev pub save_prepared : Faults → Result (Bytes × ConfigAudit) → Vault → Disk → Outcome
  save_prepared faults (ok (encrypted, audit)) v disk = replace_file faults encrypted audit v disk
  save_prepared faults (err e) v disk = stays (err e) v disk
  save_prepared faults panicked v disk = stays panicked v disk

  unfoldable pub save : Session → Faults → Vault → Disk → Outcome
  unfolding prepare replace_file
  save session faults v disk = save_prepared faults (prepare session faults v disk) v disk

  abbrev pub has_file : Option Bytes → Bool
  has_file none = false
  has_file (some bytes) = true

  -- The session of a new vault: a fresh salt, and a nonce that the save replaces.
  unfoldable pub new_session : Result Bytes → Bytes → Disk → Result Session
  unfolding derive
  new_session random password disk = do
    fail_if (has_file disk.file) "vault already exists"
    salt ← map_err random "OS randomness unavailable"
    key ← derive crates.argon2 vault_params password salt
    let header : EnvelopeHeader = record {
      params = vault_params;
      salt = salt;
      nonce = 0 ∷ 0 ∷ 0 ∷ 0 ∷ 0 ∷ 0 ∷ 0 ∷ 0 ∷ 0 ∷ 0 ∷ 0 ∷ 0 ∷ [];
    }
    ok (record { header = header; key = key })

  abbrev pub save_new : Result Session → Faults → Vault → Disk → Result Session × Outcome
  save_new (ok session) faults v disk =
      let o = save session faults v disk in ((o.result >> ok session), o)
  save_new (err e) faults v disk = (err e, stays (err e) v disk)
  save_new panicked faults v disk = (panicked, stays panicked v disk)

  -- `Session::create`
  unfoldable pub create : Result Bytes → Faults → Bytes → Vault → Disk → Result Session × Outcome
  unfolding new_session save
  create random faults password v disk = save_new (new_session random password disk) faults v disk
