-- ===== src/Vault/Edit.antt =====
-- The operations of src/vault.rs that change the vault. Every error of these methods comes before
-- the first write, so the vault after an error is the one before it.
pub mod Remove
use solx.Common.{
  ℕ, zero, suc, ◌+◌, ◌-◌, ◌*◌, ◌%◌, ◌^◌, ◌≤◌, ◌<◌, ◌≡◌, max, Bool, true, false, ◌&&◌, ◌||◌, not,
  List, [], ◌∷◌, ◌++◌, map, String, Bytes, length, get_elem?, Option, none, some, Result, ok, err,
  panicked, ◌>>=◌, ◌>>◌, fail_if, ok_or, or_panic, ltb, leb, if◌then◌else◌,
}
use solx.Common.Eq.{◌==◌, nat_eq, list_eq}
use solx.Config.{valid_name}
use solx.Signer.{Keypair, pubkey, try_from}
use solx.Vault.{
  Vault, Master, Account, AccountKind, derived, imported, max_accounts, max_masters, max_recipients,
  contains, account, is_known_recipient,
}
use solx.Vault.Phrase.{Crypto, derive_signer, phrase}

unfoldable pub ensure_new_name : Vault → Bytes → Result (Unit {0})
ensure_new_name v name = do
  fail_if (not (valid_name name)) "wallet name must be 1-32 ASCII letters, digits, _ or -"
  fail_if (contains v name) "wallet name already exists"
  fail_if (leb max_accounts (length v.accounts)) "account limit reached"

unfoldable pub remember_recipient : Vault → Bytes → Vault
remember_recipient v key =
    if not (is_known_recipient v key) && ltb (length v.recipients) max_recipients
    then record v { recipients = v.recipients ++ key ∷ [] }
    else v

-- `let AccountKind::Derived { master, .. } = kind else { return fail(message) }`
abbrev pub derived_master : AccountKind → String → Result ℕ
derived_master (derived master index) message = ok master
derived_master (imported keypair) message = err message

-- The masters that hold one phrase, and the largest of their counters: `filter`, `map`, `max`.
abbrev pub same_phrase : Bytes → Master → Bool
same_phrase entropy m = m.entropy == entropy

abbrev pub max_option : Option ℕ → ℕ → ℕ
max_option none n = n
max_option (some k) n = max k n

unfoldable pub max_next : Bytes → List Master → Option ℕ
max_next entropy [] = none
max_next entropy (m ∷ rest) =
    if same_phrase entropy m
    then some (max_option (max_next entropy rest) m.next_index)
    else max_next entropy rest

-- The loop over the masters, which changes no entropy: `next_index = next + 1`, in 32 bits.
abbrev pub advance : Bytes → ℕ → Master → Master
advance entropy next m =
    if same_phrase entropy m then record m { next_index = (next + 1) % 2 ^ 32 } else m

module _ (c : Crypto) where
  unfoldable pub add_master : Vault → Bytes → Bytes → Result Vault
  add_master v name entropy = do
    ensure_new_name v name
    fail_if (leb max_masters (length v.masters)) "master limit reached"
    mnemonic ← c.from_entropy entropy
    let master = length v.masters % 256
    signer ← derive_signer c mnemonic 0
    ok (record v {
      masters = v.masters ++ record { entropy = entropy; next_index = 1 } ∷ [];
      accounts =
          v.accounts
          ++ record { name = name; pubkey = pubkey c.ed25519 signer; kind = derived master 0 } ∷ [];
    })

  unfoldable pub add_derived : Vault → Bytes → Bytes → Result Vault
  add_derived v name source = do
    ensure_new_name v name
    from ← account v source
    master ←
        derived_master from.kind
          "source wallet has no recovery phrase; imported private keys cannot derive wallets"
    selected ← ok_or (get_elem? v.masters master) "invalid master reference"
    next ← ok_or (max_next selected.entropy v.masters) "invalid master reference"
    mnemonic ← c.from_entropy selected.entropy
    signer ← derive_signer c mnemonic next
    ok (record v {
      masters = map (advance selected.entropy next) v.masters;
      accounts =
          v.accounts
          ++ record { name = name; pubkey = pubkey c.ed25519 signer; kind = derived master next }
            ∷ [];
    })

  unfoldable pub add_imported : Vault → Bytes → Bytes → Result Vault
  add_imported v name bytes = do
    ensure_new_name v name
    keypair ← try_from c.ed25519 bytes
    ok (record v {
      accounts =
          v.accounts
          ++ record { name = name; pubkey = pubkey c.ed25519 keypair; kind = imported bytes } ∷ [];
    })

abbrev pub index_of_kind : AccountKind → Option ℕ
index_of_kind (derived master index) = some index
index_of_kind (imported keypair) = none

unfoldable pub derivation_index : Vault → Bytes → Result (Option ℕ)
derivation_index v name = do a ← account v name; ok (index_of_kind a.kind)

module _ (c : Crypto) where
  abbrev pub mnemonic_of_kind : Vault → AccountKind → Result Bytes
  mnemonic_of_kind v (derived master index) = do
    m ← ok_or (get_elem? v.masters master) "invalid master reference"
    phrase c m.entropy
  mnemonic_of_kind v (imported keypair) =
      err "imported private-key wallets have no stored recovery phrase"

  unfoldable pub mnemonic : Vault → Bytes → Result Bytes
  mnemonic v name = do a ← account v name; mnemonic_of_kind v a.kind

  unfoldable pub keypair_of_kind : List Master → AccountKind → Result Keypair
  keypair_of_kind masters (imported keypair) = try_from c.ed25519 keypair
  keypair_of_kind masters (derived master index) = do
    m ← ok_or (get_elem? masters master) "invalid master reference"
    mnemonic ← c.from_entropy m.entropy
    derive_signer c mnemonic index

  unfoldable pub signer : Vault → Bytes → Result Keypair
  signer v name = do
    a ← account v name
    keypair ← keypair_of_kind v.masters a.kind
    fail_if (not (pubkey c.ed25519 keypair == a.pubkey)) "vault account address mismatch"
    ok keypair
