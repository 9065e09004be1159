-- ===== src/Vault/Codec/Decode.antt =====
-- `Vault::decode` of src/vault.rs. A slice that `take(n)` returned has n bytes, so that the
-- conversions to arrays do not fail; a copy into locked memory is the bytes.
use solx.Common.{
  ℕ, zero, suc, ◌*◌, ◌^◌, ◌||◌, not, List, [], ◌∷◌, ◌++◌, Bytes, length, get_elem?, none, some,
  Result, ok, err, panicked, fail_if, or_panic, ltb, leb, if◌then◌else◌,
}
use solx.Common.Eq.{◌==◌, nat_eq, list_eq}
use solx.Common.Utf8.{from_utf8}
use solx.Config.{Config, valid_name}
use solx.Config.Validate.{Parsers, validate}
use solx.Signer.{Ed25519, pubkey, try_from}
use solx.Vault.{
  Vault, Master, Account, AccountKind, derived, imported, ConfigAudit, has_name, max_accounts,
  max_masters, max_recipients,
}
use solx.Vault.Audit.{validate_audit}
use solx.Vault.Valid.{entropy_size}
use solx.Vault.Codec.{Json}
use solx.Vault.Codec.Reader.{Reader, Reads, ◌>>=◌, ◌>>◌, lift, take_bytes, u8, u16, le}

unfoldable pub read_master : Reads Master
unfolding u8 take_bytes le
read_master = do
  len ← u8
  lift (fail_if (not (entropy_size len)) "invalid master entropy size")
  entropy ← take_bytes len
  next_index ← le 4
  lift (fail_if (next_index == 0 || ltb (2 ^ 31) next_index) "invalid next derivation index")
  lift (ok (record { entropy = entropy; next_index = next_index }))

-- The loops, with the vector that they fill.
unfoldable pub read_masters : ℕ → List Master → Reads (List Master)
unfolding read_master
read_masters zero masters = lift (ok masters)
read_masters (suc n) masters = do m ← read_master; read_masters n (masters ++ m ∷ [])

module _ (ed : Ed25519) where
  unfoldable pub read_kind : List Master → Bytes → ℕ → Reads AccountKind
  unfolding u8 take_bytes le try_from pubkey
  read_kind masters address zero = do
    master ← u8
    index ← le 4
    lift (fail_if (leb (length masters) master || leb (2 ^ 31) index) "invalid master reference")
    m ← lift (or_panic (get_elem? masters master))
    lift (fail_if (leb m.next_index index) "derivation counter would reuse an existing index")
    lift (ok (derived master index))
  read_kind masters address (suc zero) = do
    bytes ← take_bytes 64
    keypair ← lift (try_from ed bytes)
    lift (fail_if (not (pubkey ed keypair == address)) "invalid imported account")
    lift (ok (imported bytes))
  read_kind masters address (suc (suc n)) = lift (err "invalid account kind")

  unfoldable pub read_account : List Master → List Account → Reads Account
  unfolding u8 take_bytes from_utf8 valid_name has_name read_kind
  read_account masters accounts = do
    len ← u8
    text ← take_bytes len
    name ← lift (from_utf8 text)
    lift (
        fail_if (not (valid_name name) || has_name name accounts)
          "invalid or duplicate account name")
    address ← take_bytes 32
    tag ← u8
    kind ← read_kind masters address tag
    lift (ok (record { name = name; pubkey = address; kind = kind }))

  unfoldable pub read_accounts : List Master → ℕ → List Account → Reads (List Account)
  unfolding read_account
  read_accounts masters zero accounts = lift (ok accounts)
  read_accounts masters (suc n) accounts = do
    a ← read_account masters accounts
    read_accounts masters n (accounts ++ a ∷ [])

unfoldable pub read_recipients : ℕ → List Bytes → Reads (List Bytes)
unfolding take_bytes
read_recipients zero recipients = lift (ok recipients)
read_recipients (suc n) recipients = do
  key ← take_bytes 32
  read_recipients n (recipients ++ key ∷ [])

unfoldable pub read_audit : Reads ConfigAudit
unfolding le validate_audit
read_audit = do
  edits ← le 8
  last_edit_unix ← le 8
  let audit : ConfigAudit = record { edits = edits; last_edit_unix = last_edit_unix }
  lift (validate_audit audit)
  lift (ok audit)

module _ (parsers : Parsers) (json : Json) where
  unfoldable pub read_config : Reads Config
  unfolding take_bytes le validate
  read_config = do
    len ← le 4
    lift (
        fail_if (len == 0 || ltb (64 * 1024) len)
          "vault requires authenticated config of 1..=65536 bytes")
    text ← take_bytes len
    config ← lift (json.from_slice text)
    lift (validate parsers config)
    lift (ok config)

  unfoldable pub read_vault : Ed25519 → Reads Vault
  unfolding u8 u16 read_masters read_accounts read_recipients read_config read_audit
  read_vault ed = do
    master_count ← u8
    lift (fail_if (ltb max_masters master_count) "too many masters in vault")
    masters ← read_masters master_count []
    count ← u16
    lift (fail_if (ltb max_accounts count) "too many accounts in vault")
    accounts ← read_accounts ed masters count []
    recipients_count ← u16
    lift (fail_if (ltb max_recipients recipients_count) "too many recipients in vault")
    recipients ← read_recipients recipients_count []
    config ← read_config
    audit ← read_audit
    lift (
        ok (record {
          config = config;
          config_audit = audit;
          saved_config = some config;
          masters = masters;
          accounts = accounts;
          recipients = recipients;
          source_bytes = none;
        }))

  -- `if reader.pos != data.len()`
  abbrev pub at_end : Vault × Reader → Result Vault
  at_end (v, r) = if not (r.pos == length r.bytes) then err "trailing vault data" else ok v

  abbrev pub finish : Result (Vault × Reader) → Result Vault
  finish (ok state) = at_end state
  finish (err e) = err e
  finish panicked = panicked

  unfoldable pub decode : Ed25519 → Bytes → Result Vault
  unfolding read_vault
  decode ed bytes = finish (read_vault ed (record { bytes = bytes; pos = 0 }))
