-- ===== src/Vault/Registry.antt =====
-- What src/vault.rs promises of its accounts, without the numbering of the masters: an ordered list
-- of named entries, each with the secret that it is made from.
pub mod Add
pub mod Erase
pub mod Remove
pub mod Fresh
use solx.Common.{
  ℕ, List, [], ◌∷◌, map, Bytes, get_elem?, Option, none, some, Result, ok, err, panicked, ◌>>=◌,
  ◌>>◌, fail_if, ok_or, not, if◌then◌else◌,
}
use solx.Common.Eq.{◌==◌, nat_eq, list_eq}
use solx.Signer.{Keypair, pubkey, try_from}
use solx.Vault.{Vault, Master, Account, AccountKind, derived, imported}
use solx.Vault.Phrase.{Crypto, derive_signer}

-- `dangling` is a derived account whose master is not stored.
pub data Origin : Type 0 where
  phrase_at : Bytes → ℕ → Origin
  secret_key : Bytes → Origin
  dangling : Origin

pub record Entry : Type 0 where
  pub name : Bytes
  pub address : Bytes
  pub origin : Origin

abbrev pub phrase_origin : Option Master → ℕ → Origin
phrase_origin none index = dangling
phrase_origin (some m) index = phrase_at m.entropy index

abbrev pub origin : List Master → AccountKind → Origin
origin masters (derived master index) = phrase_origin (get_elem? masters master) index
origin masters (imported keypair) = secret_key keypair

abbrev pub entry : List Master → Account → Entry
entry masters a = record { name = a.name; address = a.pubkey; origin = origin masters a.kind }

abbrev pub entries : List Master → List Account → List Entry
entries masters accounts = map (entry masters) accounts

abbrev pub registry : Vault → List Entry
registry v = entries v.masters v.accounts

unfoldable pub find_entry : Bytes → List Entry → Option Entry
find_entry name [] = none
find_entry name (e ∷ rest) = if e.name == name then some e else find_entry name rest

unfoldable pub remove_entry : Bytes → List Entry → List Entry
remove_entry name [] = []
remove_entry name (e ∷ rest) = if e.name == name then rest else e ∷ remove_entry name rest

-- The key of an entry, by its secret alone.
unfoldable pub origin_key : Crypto → Origin → Result Keypair
origin_key c (phrase_at entropy index) = do
  mnemonic ← c.from_entropy entropy
  derive_signer c mnemonic index
origin_key c (secret_key keypair) = try_from c.ed25519 keypair
origin_key c dangling = err "invalid master reference"

unfoldable pub registry_signer : Crypto → List Entry → Bytes → Result Keypair
registry_signer c list name = do
  e ← ok_or (find_entry name list) "unknown wallet"
  key ← origin_key c e.origin
  fail_if (not (pubkey c.ed25519 key == e.address)) "vault account address mismatch"
  ok key
