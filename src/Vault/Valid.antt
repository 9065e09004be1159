-- ===== src/Vault/Valid.antt =====
-- What the rest of src/vault.rs relies on in a vault: the bounds, the references from accounts to
-- masters, the derivation counters and the identities.
pub mod Lookup
pub mod Add
pub mod Derive
pub mod Import
use solx.Common.{
  ℕ, ◌+◌, ◌^◌, ◌≤◌, ◌<◌, ◌≡◌, ◌≢◌, Bool, true, ◌||◌, List, [], ◌∷◌, Bytes, All, length, take, drop,
  get_elem?, some, ok, ◌==◌, arith,
}
use solx.Config.{valid_name}
use solx.Signer.{Ed25519, Keypair, pubkey, try_from}
use solx.Vault.{
  Vault, Master, Account, AccountKind, derived, imported, max_accounts, max_masters, max_recipients,
}
use solx.Vault.Phrase.{Crypto}

-- The entropy sizes of BIP39, `16 | 20 | 24 | 28 | 32`.
abbrev pub entropy_size : ℕ → Bool
entropy_size n = n == 16 || n == 20 || n == 24 || n == 28 || n == 32

-- Documented behaviour of the crates that the operations rely on: a public key has 32 bytes, a
-- keypair is its secret key and the matching public key, and BIP39 accepts entropy of five sizes.
pub record IsCrypto (c : Crypto) : Type 0 where
  pub key_size : (key : Bytes) → length (c.ed25519.verifying_key key) ≡ 32
  pub keypair_parts :
      (bytes key : Bytes)
      → c.ed25519.from_keypair_bytes bytes ≡ ok key
      → (key ≡ take 32 bytes) × (c.ed25519.verifying_key key ≡ drop 32 bytes)
  pub entropy_sizes :
      (entropy mnemonic : Bytes)
      → c.from_entropy entropy ≡ ok mnemonic
      → entropy_size (length entropy) ≡ true

abbrev pub IsMaster : Master → Type 0
IsMaster m = (entropy_size (length m.entropy) ≡ true) × (0 < m.next_index) × (m.next_index ≤ 2 ^ 31)

-- A derived account names a stored master and an index that its counter has passed; an imported
-- one holds a keypair of the account's address.
abbrev pub IsKind : Crypto → List Master → Bytes → AccountKind → Type 0
IsKind c masters address (derived master index) =
    (m : Master) × (get_elem? masters master ≡ some m) × (index < m.next_index)
IsKind c masters address (imported keypair) =
    (pair : Keypair) × (try_from c.ed25519 keypair ≡ ok pair)
    × (pubkey c.ed25519 pair ≡ address)
    × (length keypair ≡ 64)

abbrev pub IsAccount : Crypto → List Master → Account → Type 0
IsAccount c masters a =
    (valid_name a.name ≡ true) × (length a.pubkey ≡ 32) × IsKind c masters a.pubkey a.kind

abbrev pub Distinct : List Account → Type 0
Distinct [] = Unit
Distinct (a ∷ rest) = All (λ b. b.name ≢ a.name) rest × Distinct rest

pub record IsValid (c : Crypto) (v : Vault) : Type 0 where
  pub masters_valid : All IsMaster v.masters
  pub masters_len : length v.masters ≤ max_masters
  pub accounts_valid : All (IsAccount c v.masters) v.accounts
  pub accounts_len : length v.accounts ≤ max_accounts
  pub names_differ : Distinct v.accounts
  pub recipients_valid : All (λ key. length key ≡ 32) v.recipients
  pub recipients_len : length v.recipients ≤ max_recipients
