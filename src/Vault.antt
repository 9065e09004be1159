-- ===== src/Vault.antt =====
-- The state of the vault in src/vault.rs, and its lookups.
pub mod Audit
pub mod Header
pub mod Public
pub mod Phrase
pub mod Edit
pub mod Valid
pub mod Registry
pub mod Codec
pub mod Session
use solx.Common.{
  ℕ, ◌≡◌, Bool, true, false, ◌&&◌, ◌||◌, not, List, [], ◌∷◌, map, Bytes, length, any, get_elem?,
  Option, none, some, Result, ok, err, panicked, ◌>>=◌, ◌>>◌, ok_or, or_panic, if◌then◌else◌,
}
use solx.Common.Eq.{◌==◌, nat_eq, list_eq}
use solx.Config.{Config, default_config}

abbrev pub max_accounts : ℕ
max_accounts = 128

abbrev pub max_masters : ℕ
max_masters = 32

abbrev pub max_recipients : ℕ
max_recipients = 256

pub record Master : Type 0 where
  pub entropy : Bytes
  pub next_index : ℕ

pub data RecoveryPhraseUse : Type 0 where
  imported_key shared unused_after_deletion : RecoveryPhraseUse

pub data AccountKind : Type 0 where
  derived : ℕ → ℕ → AccountKind
  imported : Bytes → AccountKind

pub record Account : Type 0 where
  pub name : Bytes
  pub pubkey : Bytes
  pub kind : AccountKind

pub record ConfigAudit : Type 0 where
  pub edits : ℕ
  pub last_edit_unix : ℕ

pub record Vault : Type 0 where
  pub config : Config
  pub config_audit : ConfigAudit
  pub saved_config : Option Config
  pub masters : List Master
  pub accounts : List Account
  pub recipients : List Bytes
  pub source_bytes : Option Bytes

-- `Vault::default`
abbrev pub default_vault : Bytes → Vault
default_vault path = record {
  config = default_config path;
  config_audit = record { edits = 0; last_edit_unix = 0 };
  saved_config = none;
  masters = [];
  accounts = [];
  recipients = [];
  source_bytes = none;
}

unfoldable pub has_name : Bytes → List Account → Bool
has_name name [] = false
has_name name (a ∷ rest) = a.name == name || has_name name rest

unfoldable pub find_name : Bytes → List Account → Option Account
find_name name [] = none
find_name name (a ∷ rest) = if a.name == name then some a else find_name name rest

unfoldable pub contains : Vault → Bytes → Bool
contains v name = has_name name v.accounts

unfoldable pub account : Vault → Bytes → Result Account
account v name = ok_or (find_name name v.accounts) "unknown wallet"

abbrev pub first_of_accounts : List Account → Result Bytes
first_of_accounts [] = err "vault has no accounts"
first_of_accounts (a ∷ rest) = ok a.name

unfoldable pub first_name : Vault → Result Bytes
first_name v = first_of_accounts v.accounts

pub record PublicAccount : Type 0 where
  pub name : Bytes
  pub pubkey : Bytes

pub record PublicVault : Type 0 where
  pub accounts : List PublicAccount
  pub recipients : List Bytes

abbrev pub public_account : Account → PublicAccount
public_account a = record { name = a.name; pubkey = a.pubkey }

unfoldable pub public_snapshot : Vault → PublicVault
public_snapshot v = record { accounts = map public_account v.accounts; recipients = v.recipients }

unfoldable pub is_known_recipient : Vault → Bytes → Bool
is_known_recipient v pubkey = any (λ key. key == pubkey) v.recipients
