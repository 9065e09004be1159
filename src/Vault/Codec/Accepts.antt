-- ===== src/Vault/Codec/Accepts.antt =====
-- `decode` of src/vault.rs on arbitrary bytes.
use solx.Common.{
  ℕ, ◌+◌, ◌*◌, ◌≤◌, ◌≡◌, ◌≢◌, refl, false, ◌||◌, List, [], Bytes, All, length, none, some, Result,
  ok, err, panicked, ltb, arith, Bool-cases, inl, inr,
}
use mathlib.Core.Path.{subst}
use solx.Common.{ok_inj}
use solx.Common.Eq.{◌==◌, nat_eq}
use solx.Config.{Config}
use solx.Config.Checks.{validate-ne-panicked}
use solx.Config.Validate.{Parsers, validate}
use solx.Vault.{Vault, Master, Account, ConfigAudit, max_accounts, max_masters, max_recipients}
use solx.Vault.Audit.{validate_audit}
use solx.Vault.Phrase.{Crypto}
use solx.Vault.Valid.{IsMaster, IsAccount, Distinct, IsValid}
use solx.Vault.Codec.{Json}
use solx.Vault.Codec.Reader.{Reader, lift, take_bytes, u8, u16, le}
use solx.Vault.Codec.Decode.{read_audit, read_config, read_vault, finish, decode}
use solx.Vault.Codec.Ensures.{
  Ensures, Holds, Any, bind-Ensures, check-Ensures, guard-Ensures, take-Ensures, u8-Ensures,
  le-Ensures, u16-Ensures,
}
use solx.Vault.Codec.Sound.{
  IsTotal, read_masters-Ensures, read_recipients-Ensures, read_accounts-Ensures,
}

-- A vault as it comes from a file.
pub record IsLoaded (c : Crypto) (parsers : Parsers) (v : Vault) : Type 0 where
  pub valid : IsValid c v
  pub settings : validate parsers v.config ≡ ok tt
  pub audit : validate_audit v.config_audit ≡ ok tt
  pub baseline : v.saved_config ≡ some v.config

validate_audit-ne-panicked : (audit : ConfigAudit) → validate_audit audit ≢ panicked
unfolding validate_audit
validate_audit-ne-panicked audit e = ground arith

read_audit-Ensures : Ensures read_audit (λ audit. validate_audit audit ≡ ok tt)
unfolding read_audit
read_audit-Ensures =
    let P = λ (audit : ConfigAudit). validate_audit audit ≡ ok tt in
    bind-Ensures P Any (le 8) _ (le-Ensures 8) (λ edits _.
      bind-Ensures P Any (le 8) _ (le-Ensures 8) (λ last _.
        let audit : ConfigAudit = record { edits = edits; last_edit_unix = last } in
        check-Ensures P (validate_audit audit) _ (validate_audit-ne-panicked audit) (λ u e r. e)))

module _ (c : Crypto) (parsers : Parsers) (json : Json) (total : IsTotal c parsers json) where
  read_config-Ensures :
      Ensures (read_config parsers json) (λ config. validate parsers config ≡ ok tt)
  unfolding read_config
  read_config-Ensures =
      let P = λ (config : Config). validate parsers config ≡ ok tt in
      bind-Ensures P Any (le 4) _ (le-Ensures 4) (λ len _.
        guard-Ensures P (len == 0 || ltb (64 * 1024) len) _ _ (λ _.
          bind-Ensures P (λ xs. length xs ≡ len) (take_bytes len) _ (take-Ensures len)
            (λ text _.
              check-Ensures P (json.from_slice text) _ (total.json_returns text) (λ config _.
                check-Ensures P (validate parsers config) _
                  (validate-ne-panicked parsers total.parsers_return config) (λ u e r. e)))))

  read_vault-Ensures : Ensures (read_vault parsers json c.ed25519) (IsLoaded c parsers)
  unfolding read_vault
  read_vault-Ensures =
      let P = IsLoaded c parsers in
      bind-Ensures P Any u8 _ u8-Ensures (λ master_count _.
        guard-Ensures P (ltb max_masters master_count) _ _ (λ few_masters.
          bind-Ensures P (λ ms. All IsMaster ms × (length ms ≡ 0 + master_count)) _ _
            (read_masters-Ensures master_count [] tt)
            (λ masters sound. bind-Ensures P Any u16 _ u16-Ensures (λ count _.
              guard-Ensures P (ltb max_accounts count) _ _ (λ few_accounts.
                bind-Ensures P
                  (λ as'. All (IsAccount c masters) as' × Distinct as' × (length as' ≡ 0 + count)) _
                  _ (read_accounts-Ensures c total.key_returns masters count [] tt tt)
                  (λ accounts named. bind-Ensures P Any u16 _ u16-Ensures (λ recipients_count _.
                    guard-Ensures P (ltb max_recipients recipients_count) _ _ (λ few_recipients.
                      bind-Ensures P
                        (λ keys.
                          All (λ key. length key ≡ 32) keys × (length keys ≡ 0 + recipients_count))
                        _ _ (read_recipients-Ensures recipients_count [] tt)
                        (λ recipients sized.
                          bind-Ensures P (λ config. validate parsers config ≡ ok tt) _ _
                            read_config-Ensures
                            (λ config settings.
                              bind-Ensures P (λ audit. validate_audit audit ≡ ok tt) _
                                (λ (audit : ConfigAudit).
                                  lift (ok (loaded config audit masters accounts recipients)))
                                read_audit-Ensures
                                (λ audit checked r. record {
                                  valid = record {
                                    masters_valid = sound.0;
                                    masters_len =
                                        at_most (length masters) master_count sound.1 few_masters;
                                    accounts_valid = named.0;
                                    accounts_len =
                                        at_most (length accounts) count named.2 few_accounts;
                                    names_differ = named.1;
                                    recipients_valid = sized.0;
                                    recipients_len =
                                        at_most (length recipients) recipients_count sized.1
                                          few_recipients;
                                  };
                                  settings = settings;
                                  audit = checked;
                                  baseline = refl;
                                })))))))))))
    where
      at_most : {bound : ℕ} (n count : ℕ) → n ≡ 0 + count → ltb bound count ≡ false → n ≤ bound
      at_most n count e h = ground arith

      loaded : Config → ConfigAudit → List Master → List Account → List Bytes → Vault
      loaded config audit masters accounts recipients = record {
        config = config;
        config_audit = audit;
        saved_config = some config;
        masters = masters;
        accounts = accounts;
        recipients = recipients;
        source_bytes = none;
      }

  finish_outcome :
      (s : Result (Vault × Reader))
      → Holds (IsLoaded c parsers) s
      → (finish parsers json s ≢ panicked)
        × ((v : Vault) → finish parsers json s ≡ ok v → IsLoaded c parsers v)
  finish_outcome (ok (v, r)) h = elim (Bool-cases (r.pos == length r.bytes)) [
    | inl ends ↦ rw ends ((λ e. cc), λ v' e. ok_same v v' e h)
    | inr more ↦ rw more ((λ e. cc), λ v' e. absurd (cc))
  ]
    where
      ok_same : (v v' : Vault) → ok v ≡ ok v' → IsLoaded c parsers v → IsLoaded c parsers v'
      ok_same v v' e h = subst (IsLoaded c parsers) (ok_inj e) h
  finish_outcome (err e) h = ((λ p. cc), λ v' p. absurd (cc))
  finish_outcome panicked h = absurd h

decode_outcome :
    (c : Crypto) (parsers : Parsers) (json : Json) (bytes : Bytes)
    → IsTotal c parsers json
    → (decode parsers json c.ed25519 bytes ≢ panicked)
      × ((v : Vault) → decode parsers json c.ed25519 bytes ≡ ok v → IsLoaded c parsers v)
unfolding decode
decode_outcome c parsers json bytes total =
    let start : Reader = record { bytes = bytes; pos = 0 } in
    finish_outcome c parsers json total (read_vault parsers json c.ed25519 start)
      (read_vault-Ensures c parsers json total start)

-- Decoding any bytes whatever does not panic, if the calls of other crates return.
pub decode-ne-panicked :
    (c : Crypto) (parsers : Parsers) (json : Json) (bytes : Bytes)
    → IsTotal c parsers json
    → decode parsers json c.ed25519 bytes ≢ panicked
decode-ne-panicked c parsers json bytes total = (decode_outcome c parsers json bytes total).0

-- Whatever bytes are decoded, a vault that comes out is valid: the bounds hold, every derived account
-- names a stored master and an index below its counter, every imported key has the address of its
-- account, and no two accounts have one name; its settings and its audit are accepted, and the
-- settings are the baseline of the edit counter.
pub decode-IsLoaded :
    (c : Crypto) (parsers : Parsers) (json : Json) (bytes : Bytes) (v : Vault)
    → IsTotal c parsers json
    → decode parsers json c.ed25519 bytes ≡ ok v
    → IsLoaded c parsers v
decode-IsLoaded c parsers json bytes v total e = (decode_outcome c parsers json bytes total).1 v e
