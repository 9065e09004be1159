-- ===== src/Commands/Secrets.antt =====
-- The secrets that `init`, `import` and `export` of src/commands.rs take and show. bs58, the
-- sequences of serde_json, the keypair file and the salt of a new vault are parameters.
pub mod Export
pub mod Import
pub mod Init
pub mod Silent
use solx.Common.{
  ℕ, zero, suc, Bool, true, false, not, ◌&&◌, ◌||◌, List, [], ◌∷◌, ◌++◌, length, take, drop, Bytes,
  ascii, String, Option, none, some, Result, ok, err, panicked, ◌>>=◌, ◌>>◌, map_err, fail_if,
  or_panic, ltb, if◌then◌else◌,
}
use solx.Common.Eq.{◌==◌, nat_eq, list_eq, option_eq}
use solx.Common.Text.{is_nil, starts_with, trim}
use solx.Config.{Config, valid_name}
use solx.Signer.{Keypair, from_seed_bytes, pubkey, to_keypair_bytes, try_from}
use solx.Vault.{Vault, default_vault, account}
use solx.Vault.Public.{has_public}
use solx.Vault.Phrase.{phrase, parse_phrase}
use solx.Vault.Edit.{add_master, add_imported, derivation_index, mnemonic, signer}
use solx.Vault.Session.{Crates, Session, Disk}
use solx.Vault.Session.Save.{Outcome, has_file, create}

-- What the commands read of a keypair file, and the other crates.
pub record KeyFile : Type 0 where
  pub is_file : Bool
  pub len : ℕ
  pub contents : Bytes

pub record Sources : Type 0 where
  -- `bs58::encode(..).onto` a buffer of 88 bytes, `bs58::decode(..).onto` one of 64
  pub encode_base58 : Bytes → Result Bytes
  pub decode_base58 : Bytes → Result Bytes
  -- the elements of the array that the text starts with, each a u8 or not, and whether the text ends
  -- there
  pub sequence : Bytes → Result (List (Option ℕ) × Bool)
  pub open_file : ℕ → Bytes → Result KeyFile
  -- the salt of a new vault
  pub salt : ℕ → Result Bytes

pub data ExportKind : Type 0 where
  private_key mnemonic_phrase : ExportKind

unfoldable pub parse_export : List Bytes → Result (Bytes × ExportKind)
parse_export (name ∷ flag ∷ []) =
    if flag == ascii "--private-key"
    then ok (name, private_key)
    else (if flag == ascii "--mnemonic"
        then ok (name, mnemonic_phrase)
        else err "usage: solx export NAME (--private-key | --mnemonic)")
parse_export _ = err "usage: solx export NAME (--private-key | --mnemonic)"

-- A mnemonic is asked for, and the wallet has none.
abbrev pub no_phrase : ExportKind → Option ℕ → Bool
no_phrase mnemonic_phrase none = true
no_phrase _ _ = false

-- `strip_suffix`, of one byte
unfoldable pub strip_last : ℕ → Bytes → Option Bytes
strip_last quote [] = none
strip_last quote (b ∷ []) = if b == quote then some [] else none
strip_last quote (b ∷ c ∷ text) = elim (strip_last quote (c ∷ text)) [
  | none ↦ none
  | some rest ↦ some (b ∷ rest)
]

-- `strip_prefix(q).and_then(|value| value.strip_suffix(q))`
unfoldable pub unquote : ℕ → Bytes → Option Bytes
unfolding strip_last
unquote quote [] = none
unquote quote (b ∷ text) = if b == quote then strip_last quote text else none

abbrev pub or_bytes : Option Bytes → Bytes → Bytes
or_bytes none other = other
or_bytes (some text) other = text

-- `KeyVisitor::visit_seq`: so many elements, and no more.
unfoldable pub visit_seq : ℕ → List (Option ℕ) → Result Bytes
visit_seq zero [] = ok []
visit_seq zero (element ∷ elements) = err "keypair has excess bytes"
visit_seq (suc n) [] = err "keypair needs 64 bytes"
visit_seq (suc n) (none ∷ elements) = err "invalid type"
visit_seq (suc n) (some b ∷ elements) = do rest ← visit_seq n elements; ok (b ∷ rest)

-- The keypair for a text of 32 or 64 bytes.
unfoldable pub whole_keypair : Crates → Bytes → Result Bytes
unfolding from_seed_bytes pubkey
whole_keypair crates bytes =
    if length bytes == 32
    then (do
      pair ← from_seed_bytes crates.crypto.ed25519 bytes
      ok (bytes ++ pubkey crates.crypto.ed25519 pair))
    else (if length bytes == 64
        then ok bytes
        else err "base58 private key must decode to 32 or 64 bytes")

pub data ImportedSecret : Type 0 where
  entropy_of : Bytes → ImportedSecret
  keypair_of : Bytes → ImportedSecret

module _ (sources : Sources) (crates : Crates) where
  abbrev pub read_keypair : Bytes → Result (Bytes × Bool)
  read_keypair input = do
    parsed ← sources.sequence input
    bytes ← visit_seq 64 parsed.0
    ok (bytes, parsed.1)

  unfoldable pub parse_keypair_json : Bytes → Result Bytes
  unfolding visit_seq
  parse_keypair_json input = do
    read ← map_err (read_keypair input) "invalid keypair JSON; expected exactly 64 bytes"
    fail_if (not read.1) "trailing keypair JSON data"
    ok read.0

  unfoldable pub decode_base58_keypair : Bytes → Result Bytes
  unfolding unquote whole_keypair try_from
  decode_base58_keypair input = do
    let single = or_bytes (unquote 39 input) input
    decoded ← sources.decode_base58 (or_bytes (unquote 34 input) single)
    bytes ← whole_keypair crates decoded
    pair ← try_from crates.crypto.ed25519 bytes
    ok bytes

  unfoldable pub write_export_secret : Vault → Bytes → ExportKind → Result Bytes
  unfolding signer to_keypair_bytes mnemonic
  write_export_secret v name private_key = do
    pair ← signer crates.crypto v name
    bytes ← to_keypair_bytes crates.crypto.ed25519 pair
    sources.encode_base58 bytes
  write_export_secret v name mnemonic_phrase = mnemonic crates.crypto v name

  unfoldable pub add_secret : Vault → Bytes → ImportedSecret → Result Vault
  unfolding add_master add_imported
  add_secret v name (entropy_of entropy) = add_master crates.crypto v name entropy
  add_secret v name (keypair_of bytes) = add_imported crates.crypto v name bytes
