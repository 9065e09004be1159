-- ===== src/App/Opened.antt =====
-- The vaults that `App` of src/main.rs reads.
use solx.Common.{
  ◌≡◌, refl, ap, ◌||◌, not, Bytes, some, ok, map_err, fail_if, >>=-eq-ok, ok_inj, take, drop,
}
use mathlib.Core.Path.{subst}
use solx.Common.Eq.{◌==◌, nat_eq, list_eq}
use solx.Kdf.{params_eq}
use solx.Vault.{Vault}
use solx.Vault.Header.{header_len, parse}
use solx.Vault.Codec.Decode.{decode}
use solx.Vault.Codec.Sound.{IsTotal}
use solx.Vault.Codec.Accepts.{IsLoaded, decode-IsLoaded}
use solx.Vault.Session.{Crates, Session, Disk, Faults, read_private_file, decrypt_bytes, load}
use solx.Effects.{Env, World, access}
use solx.Effects.Runs.{Returns, Returns-split}
use solx.App.{open_vault}

-- A vault that was read from these bytes.
pub record IsOpened (crates : Crates) (v : Vault) : Type 0 where
  pub loaded : IsLoaded crates.crypto crates.parsers v
  pub source : (bytes : Bytes) × (v.source_bytes ≡ some bytes)

with_source :
    {crates : Crates} (v : Vault) (encrypted : Bytes)
    → IsLoaded crates.crypto crates.parsers v
    → IsOpened crates (record v { source_bytes = some encrypted })
with_source v encrypted known = record {
  loaded = record {
    valid = record {
      masters_valid = known.valid.masters_valid;
      masters_len = known.valid.masters_len;
      accounts_valid = known.valid.accounts_valid;
      accounts_len = known.valid.accounts_len;
      names_differ = known.valid.names_differ;
      recipients_valid = known.valid.recipients_valid;
      recipients_len = known.valid.recipients_len;
    };
    settings = known.settings;
    audit = known.audit;
    baseline = known.baseline;
  };
  source = (encrypted, refl);
}

module _ (crates : Crates) (total : IsTotal crates.crypto crates.parsers crates.json) where
  decrypt_bytes-IsOpened :
      (session : Session) (encrypted : Bytes) {v : Vault}
      → decrypt_bytes crates session encrypted ≡ ok v
      → IsOpened crates v
  unfolding decrypt_bytes
  decrypt_bytes-IsOpened session encrypted e =
      let (header, _, e1) = >>=-eq-ok (parse encrypted) _ e in
      let (_, _, e2) =
        >>=-eq-ok
          (fail_if
            (not (params_eq header.params session.header.params)
              || not (header.salt == session.header.salt))
            _)
          _ e1 in
      let (plain, _, e3) =
        >>=-eq-ok
          (map_err
            (crates.aead.decrypt_in_place session.key header.nonce (take header_len encrypted)
              (drop header_len encrypted))
            _)
          _ e2 in
      let (vault, decoded, e4) =
        >>=-eq-ok (decode crates.parsers crates.json crates.crypto.ed25519 plain) _ e3 in
      subst (IsOpened crates) (ok_inj e4) (
        with_source vault encrypted
          (decode-IsLoaded crates.crypto crates.parsers crates.json plain vault total decoded))

  load-IsOpened :
      (session : Session) (faults : Faults) (disk : Disk) {v : Vault}
      → load crates session faults disk ≡ ok v
      → IsOpened crates v
  unfolding load
  load-IsOpened session faults disk e =
      let (encrypted, _, e1) = >>=-eq-ok (read_private_file faults disk) _ e in
      decrypt_bytes-IsOpened session encrypted e1

  -- Whatever stands in the file, a vault that the program opens is valid, its settings are accepted, and
  -- it knows the bytes that it came from.
  pub open_vault-IsOpened :
      (env : Env) (w : World) (v : Vault) (after : World)
      → Returns (open_vault env crates) w v after
      → IsOpened crates v
  unfolding open_vault access
  open_vault-IsOpened env w v after e = Returns-split _ _ w e (λ session between e1 e2.
      load-IsOpened session (env.faults between.moment) between.disk (ap (λ p. p.0) e2))
