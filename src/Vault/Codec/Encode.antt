-- ===== src/Vault/Codec/Encode.antt =====
-- `encode_with_audit` of src/vault.rs.
use solx.Common.{
  map_err, ℕ, ◌+◌, ◌*◌, ◌%◌, ◌||◌, List, [], ◌∷◌, Bytes, length, to_le_bytes, Result, ok, ◌>>=◌,
  ◌>>◌, fail_if, ltb,
}
use solx.Config.Validate.{Parsers, validate}
use solx.Secret.{LockedBytes, with_capacity, extend_from_slice, push}
use solx.Vault.{
  Vault, Master, Account, AccountKind, derived, imported, ConfigAudit, max_accounts, max_masters,
  max_recipients,
}
use solx.Vault.Audit.{validate_audit}
use solx.Vault.Codec.{Json}

-- The sums that make up `size`.
abbrev pub master_size : List Master → ℕ
master_size [] = 0
master_size (m ∷ rest) = 1 + length m.entropy + 4 + master_size rest

abbrev pub kind_size : AccountKind → ℕ
kind_size (derived master index) = 5
kind_size (imported keypair) = 64

abbrev pub account_size : List Account → ℕ
account_size [] = 0
account_size (a ∷ rest) = 1 + length a.name + 32 + 1 + kind_size a.kind + account_size rest

abbrev pub size : Vault → Bytes → ℕ
size v config =
    1
    + master_size v.masters
    + 2
    + account_size v.accounts
    + 2
    + length v.recipients * 32
    + 4
    + length config
    + 16

-- The three loops.
unfoldable pub put_masters : List Master → LockedBytes → Result LockedBytes
unfolding push extend_from_slice
put_masters [] out = ok out
put_masters (m ∷ rest) out = do
  out ← push out (length m.entropy % 256)
  out ← extend_from_slice out m.entropy
  out ← extend_from_slice out (to_le_bytes 4 m.next_index)
  put_masters rest out

unfoldable pub put_kind : AccountKind → LockedBytes → Result LockedBytes
unfolding push extend_from_slice
put_kind (derived master index) out = do
  out ← push out 0
  out ← push out master
  extend_from_slice out (to_le_bytes 4 index)
put_kind (imported keypair) out = do out ← push out 1; extend_from_slice out keypair

unfoldable pub put_accounts : List Account → LockedBytes → Result LockedBytes
unfolding push extend_from_slice put_kind
put_accounts [] out = ok out
put_accounts (a ∷ rest) out = do
  out ← push out (length a.name % 256)
  out ← extend_from_slice out a.name
  out ← extend_from_slice out a.pubkey
  out ← put_kind a.kind out
  put_accounts rest out

unfoldable pub put_recipients : List Bytes → LockedBytes → Result LockedBytes
unfolding extend_from_slice
put_recipients [] out = ok out
put_recipients (recipient ∷ rest) out = do
  out ← extend_from_slice out recipient
  put_recipients rest out

-- The writes into `out`, in the order of the source.
unfoldable pub put_vault : Vault → ConfigAudit → Bytes → LockedBytes → Result LockedBytes
unfolding push extend_from_slice put_masters put_accounts put_recipients
put_vault v audit config out = do
  out ← push out (length v.masters % 256)
  out ← put_masters v.masters out
  out ← extend_from_slice out (to_le_bytes 2 (length v.accounts))
  out ← put_accounts v.accounts out
  out ← extend_from_slice out (to_le_bytes 2 (length v.recipients))
  out ← put_recipients v.recipients out
  out ← extend_from_slice out (to_le_bytes 4 (length config))
  out ← extend_from_slice out config
  out ← extend_from_slice out (to_le_bytes 8 audit.edits)
  extend_from_slice out (to_le_bytes 8 audit.last_edit_unix)

unfoldable pub encode_with_audit : Parsers → Json → Vault → ConfigAudit → Result LockedBytes
unfolding validate_audit validate extend_from_slice put_vault
encode_with_audit parsers json v audit = do
  validate_audit audit
  validate parsers v.config
  config ←
      map_err (extend_from_slice (with_capacity (64 * 1024)) (json.text v.config))
        "vault config cannot be encoded within 64 KiB"
  fail_if
      (ltb max_masters (length v.masters)
        || ltb max_accounts (length v.accounts)
        || ltb max_recipients (length v.recipients))
      "vault limits exceeded"
  put_vault v audit config.bytes (with_capacity (size v config.bytes + 16))
