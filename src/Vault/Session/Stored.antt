-- ===== src/Vault/Session/Stored.antt =====
-- A save of src/vault.rs followed by a load.
use solx.Common.{
  map_err, ℕ, ◌+◌, ◌*◌, ◌^◌, ◌≤◌, ◌<◌, ◌≡◌, refl, sym, ap, ◌∙◌, inl, inr, Bool-cases, true, ◌++◌,
  String, Bytes, none, some, Result, ok, err, panicked, >>=-eq-ok, ok_inj, length, length-append,
  take_exact, drop_exact, arith, ge→ltb,
}
use solx.Common.Eq.{nat_eq, list_eq, list_beq, list_beq_iff}
use solx.Config.{Config}
use solx.Config.Validate.{Parsers, validate}
use solx.Kdf.{params_eq, params_eq_refl}
use solx.Secret.{LockedBytes, with_capacity, extend_from_slice}
use solx.Secret.Writes.{extend_from_slice_fits}
use solx.Vault.{Vault, ConfigAudit}
use solx.Vault.Audit.{validate_audit, record_edit}
use solx.Vault.Header.{EnvelopeHeader, encode, header_len, max_file}
use solx.Vault.Header.RoundTrip.{IsHeader, parse-encode, length-encode}
use solx.Vault.Valid.{IsValid}
use solx.Vault.Codec.{Json}
use solx.Vault.Codec.Decode.{decode}
use solx.Vault.Codec.Encode.{encode_with_audit}
use solx.Vault.Codec.Layout.{encode_exact}
use solx.Vault.Codec.RoundTrip.{reloaded, decode-encode}
use solx.Vault.Session.{
  Aead, Crates, Session, Disk, Faults, read_file, read_stored, read_private_file, decrypt_bytes,
  load,
}
use solx.Vault.Session.Save.{next_audit, settings_changed, save, renamed}
use solx.Vault.Session.Commit.{prepare-ok, save_atomic}

-- Documented behaviour of the AEAD crate: given room for the tag of 16 bytes, encryption works in
-- place, and decryption with the same key, nonce and header gives the text back.
pub record IsAead (aead : Aead) : Type 0 where
  pub seals :
      (key nonce header : Bytes) (b : LockedBytes)
      → length b.bytes + 16 ≤ b.capacity
      → (out : LockedBytes) × (aead.encrypt_in_place key nonce header b ≡ ok out)
        × (length out.bytes ≡ length b.bytes + 16)
        × (aead.decrypt_in_place key nonce header out.bytes ≡ ok b.bytes)

map_err-ok {ℓ} :
    {A : Type ℓ} (m : Result A) (message : String) {a : A} → map_err m message ≡ ok a → m ≡ ok a
map_err-ok (ok b) message e = e
map_err-ok (err x) message e = cc
map_err-ok panicked message e = cc

-- What an encoding that succeeded had checked.
encode_with_audit-ok :
    (parsers : Parsers) (json : Json) (v : Vault) (audit : ConfigAudit) (out : LockedBytes)
    → encode_with_audit parsers json v audit ≡ ok out
    → (validate_audit audit ≡ ok tt)
      × (validate parsers v.config ≡ ok tt)
      × (length (json.text v.config) ≤ 65536)
unfolding encode_with_audit
encode_with_audit-ok parsers json v audit out e =
    let (_, e1, k1) = >>=-eq-ok (validate_audit audit) _ e in
    let (_, e2, k2) = >>=-eq-ok (validate parsers v.config) _ k1 in
    let (config, e3, _) =
      >>=-eq-ok
        (map_err (extend_from_slice (with_capacity (64 * 1024)) (json.text v.config))
          "vault config cannot be encoded within 64 KiB")
        _ k2 in
    let (fits, kept, bytes) =
      extend_from_slice_fits (with_capacity (64 * 1024)) config (json.text v.config)
        (map_err-ok _ _ e3) in
    (e1, e2, omega (arith, fits, kept, ap length bytes))

record_edit-edits :
    (before after : ConfigAudit) (now : ℕ)
    → record_edit before now ≡ ok after
    → after.edits < 2 ^ 64
unfolding record_edit
record_edit-edits before after now e = ground arith

next_audit-edits :
    (faults : Faults) (v : Vault) (audit : ConfigAudit)
    → v.config_audit.edits < 2 ^ 64
    → next_audit faults v ≡ ok audit
    → audit.edits < 2 ^ 64
unfolding next_audit
next_audit-edits faults v audit small e =
    elim (Bool-cases (settings_changed v.config v.saved_config)) [
      | inl changed ↦
          let (now, _, k) = >>=-eq-ok faults.clock _ (rw changed at e) in
          record_edit-edits v.config_audit audit now k
      | inr same ↦ let kept : v.config_audit ≡ audit = ok_inj (rw same at e) in rw (← kept) small
    ]

validate_audit-small :
    (audit : ConfigAudit) → validate_audit audit ≡ ok tt → audit.last_edit_unix < 2 ^ 64
unfolding validate_audit
validate_audit-small audit e = ground arith

-- Decrypting a file that is a header of the session, with any nonce, and a sealed text.
decrypt-sealed :
    (crates : Crates) (session : Session) (h : EnvelopeHeader) (sealed plain : Bytes) (v : Vault)
    → IsHeader h
    → h.params ≡ session.header.params
    → h.salt ≡ session.header.salt
    → 16 ≤ length sealed
    → header_len + length sealed ≤ max_file
    → crates.aead.decrypt_in_place session.key h.nonce (encode h) sealed ≡ ok plain
    → decode crates.parsers crates.json crates.crypto.ed25519 plain ≡ ok v
    → decrypt_bytes crates session (encode h ++ sealed)
      ≡ ok (record v { source_bytes = some (encode h ++ sealed) })
unfolding decrypt_bytes
decrypt-sealed crates session h sealed plain v good params salt lo hi opened decoded =
    let same_params : params_eq h.params session.header.params ≡ true =
      rw params (params_eq_refl session.header.params) in
    let same_salt : list_beq h.salt session.header.salt ≡ true =
      (list_beq_iff h.salt session.header.salt).1 salt in
    rw (
      parse-encode h sealed good lo hi,
      same_params,
      same_salt,
      take_exact header_len (encode h) sealed (length-encode h good),
      drop_exact header_len (encode h) sealed (length-encode h good),
      opened,
      decoded,
    )

-- A read of the file without faults.
pub record IsQuiet (faults : Faults) : Type 0 where
  pub directory : faults.directory ≡ none
  pub access : faults.access ≡ none
  pub private : faults.private ≡ none

read_private_file-quiet :
    (faults : Faults) (disk : Disk) (bytes : Bytes)
    → IsQuiet faults
    → disk.file ≡ some bytes
    → length bytes ≤ max_file
    → read_private_file faults disk ≡ ok bytes
unfolding read_private_file read_stored read_file
read_private_file-quiet faults disk bytes quiet present fits =
    rw (quiet.directory, quiet.access, present, ge→ltb max_file (length bytes) fits, quiet.private)

module _ (crates : Crates) (session : Session) (faults : Faults) (v : Vault) (disk : Disk)
    (config : Config) (aead : IsAead crates.aead) (profile : IsHeader session.header)
    (sized : (nonce : Bytes) → faults.nonce ≡ ok nonce → length nonce ≡ 12)
    (valid : IsValid crates.crypto v) (few : v.config_audit.edits < 2 ^ 64)
    (some_text : 0 < length (crates.json.text v.config))
    (read : crates.json.from_slice (crates.json.text v.config) ≡ ok config)
    (settings : validate crates.parsers config ≡ ok tt) where
  sealed_loads :
      (encrypted nonce : Bytes) (audit : ConfigAudit) (plain sealed : LockedBytes)
      → next_audit faults v ≡ ok audit
      → faults.nonce ≡ ok nonce
      → encode_with_audit crates.parsers crates.json v audit ≡ ok plain
      → map_err
          (crates.aead.encrypt_in_place session.key nonce
            (encode (record session.header { nonce = nonce }))
            plain)
          "vault encryption failed"
        ≡ ok sealed
      → encrypted ≡ encode (record session.header { nonce = nonce }) ++ sealed.bytes
      → (decrypt_bytes crates session encrypted
          ≡ ok (record (reloaded v audit config) { source_bytes = some encrypted }))
        × (length encrypted ≤ max_file)
  sealed_loads encrypted nonce audit plain sealed counted random encoded locked text =
      let h : EnvelopeHeader = record session.header { nonce = nonce } in
      let (checked, accepted, fits) =
        encode_with_audit-ok crates.parsers crates.json v audit plain encoded in
      let (exact, small) =
        encode_exact crates.crypto crates.parsers crates.json v audit valid checked accepted fits in
      let (out, written, back) =
        decode-encode crates.crypto crates.parsers crates.json v audit config valid
          (next_audit-edits faults v audit few counted) (validate_audit-small audit checked) checked
          accepted some_text fits read settings in
      let same : out ≡ plain = ok_inj (sym written ∙ encoded) in
      let shape = ok_inj (sym exact ∙ encoded) in
      let room : length plain.bytes + 16 ≤ plain.capacity = rw (← shape) (omega arith) in
      let short : length plain.bytes < 2 ^ 17 = rw (← shape) small in
      let (sealed', locked', longer, opens) = aead.seals session.key nonce (encode h) plain room in
      let same' : sealed' ≡ sealed = ok_inj (sym locked' ∙ map_err-ok _ _ locked) in
      let longer' : length sealed.bytes ≡ length plain.bytes + 16 = rw (← same') longer in
      let opens' : crates.aead.decrypt_in_place session.key nonce (encode h) sealed.bytes
          ≡ ok plain.bytes =
        rw (← same') opens in
      let good : IsHeader h = record {
        profile = profile.profile;
        salt_len = profile.salt_len;
        nonce_len = sized nonce random;
      } in
      let decoded = rw same at back in
      rw text (
        decrypt-sealed crates session h sealed.bytes plain.bytes _ good refl refl (omega arith)
            (omega (arith, longer', short)) opens' decoded,
        omega (arith, longer', short, length-append (encode h) sealed.bytes, length-encode h good),
      )

  -- Whatever a save stored, a later load without faults returns: the vault as it is in memory after
  -- the save, with its settings as they are read back, which are the new baseline.
  saved_loads :
      (quiet : Faults)
      → IsQuiet quiet
      → (save crates session faults v disk).result ≡ ok tt
      → (let o = save crates session faults v disk in
          load crates session quiet o.disk
          ≡ ok (record o.vault { config = config; saved_config = some config }))
  unfolding load
  saved_loads quiet calm e = elim (save_atomic crates session faults v disk) [
    | inl untouched ↦ absurd (untouched.0 e)
    | inr (encrypted, audit, ready, _, _, (vault, stored, _)) ↦
        let p = prepare-ok crates session faults v disk encrypted audit ready in
        let (back, fits) =
          sealed_loads encrypted p.nonce audit p.plain p.sealed p.counted p.random p.encoded
            p.locked p.text in
        rw
          (
            vault,
            stored,
            read_private_file-quiet quiet (renamed encrypted) encrypted calm refl fits,
          )
          back
  ]

-- Loading after a save that returned ok gives back the saved vault: its masters, accounts and
-- recipients, the audit of the edit and the text on the disk as its source; the settings are as the
-- JSON crate reads them back, and the new baseline.
pub load-save :
    (crates : Crates) (session : Session) (faults quiet : Faults) (v : Vault) (disk : Disk)
    (config : Config)
    → IsAead crates.aead
    → IsHeader session.header
    → ((nonce : Bytes) → faults.nonce ≡ ok nonce → length nonce ≡ 12)
    → IsValid crates.crypto v
    → v.config_audit.edits < 2 ^ 64
    → 0 < length (crates.json.text v.config)
    → crates.json.from_slice (crates.json.text v.config) ≡ ok config
    → validate crates.parsers config ≡ ok tt
    → IsQuiet quiet
    → (save crates session faults v disk).result ≡ ok tt
    → (let o = save crates session faults v disk in
        load crates session quiet o.disk
        ≡ ok (record o.vault { config = config; saved_config = some config }))
load-save crates session faults quiet v disk config aead profile sized valid few some_text read
      settings calm e =
    saved_loads crates session faults v disk config aead profile sized valid few some_text read
      settings quiet calm e
