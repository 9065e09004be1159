-- ===== src/Vault/Registry/Remove/Sharing.antt =====
-- `recovery_phrase_use` of src/vault.rs, and what it means for a phrase to be shared.
use solx.Common.{
  ℕ, zero, suc, ◌≡◌, ◌≢◌, refl, ap, ◌⊎◌, inl, inr, Bool-cases, true, false, List, [], ◌∷◌, Bytes,
  All, get_elem?, some, ok,
}
use solx.Common.Eq.{◌==◌, list_beq_iff, list_eq, nat_eq}
use solx.Vault.{
  Vault, Account, AccountKind, derived, imported, Master, find_name, account, imported_key, shared,
  unused_after_deletion,
}
use solx.Vault.Phrase.{Crypto}
use solx.Vault.Edit.Remove.{uses_phrase, shares, shared_by_any, use_of_kind, recovery_phrase_use}
use solx.Vault.Valid.{IsKind, IsAccount, IsValid}
use solx.Vault.Valid.Lookup.{find_name-name, All-find_name}
use solx.Vault.Registry.{phrase_at, secret_key, origin}
use solx.Vault.Registry.Erase.{Uses}

-- Over valid accounts the test is a decision, with no panic.
uses_phrase_decides :
    (c : Crypto) (masters : List Master) (target address : Bytes) (kind : AccountKind)
    → IsKind c masters address kind
    → ((uses_phrase masters target kind ≡ ok true) × Uses target (origin masters kind))
      ⊎ ((uses_phrase masters target kind ≡ ok false) × ¬ Uses target (origin masters kind))
uses_phrase_decides c masters target address (derived i index) (m, at, lt) =
    rw at (elim (Bool-cases (m.entropy == target)) [
      | inl same ↦ inl (ap ok same, (list_beq_iff m.entropy target).0 same)
      | inr other ↦ inr (ap ok other, λ e. cc (other, (list_beq_iff m.entropy target).1 e))
    ])
uses_phrase_decides c masters target address (imported keypair) h = inr (refl, λ e. e)

-- Another account, by name, that uses the phrase.
abbrev pub IsSharer : List Master → Bytes → Bytes → Account → Type 0
IsSharer masters target name a = (a.name ≢ name) × Uses target (origin masters a.kind)

abbrev pub Sharer : List Master → Bytes → Bytes → List Account → Type 0
Sharer masters target name accounts =
    (i : ℕ) × (a : Account) × (get_elem? accounts i ≡ some a) × IsSharer masters target name a

shares_decides :
    (c : Crypto) (masters : List Master) (target name : Bytes) (a : Account)
    → IsAccount c masters a
    → ((shares masters target name a ≡ ok true) × IsSharer masters target name a)
      ⊎ ((shares masters target name a ≡ ok false) × ¬ IsSharer masters target name a)
shares_decides c masters target name a h = elim (Bool-cases (a.name == name)) [
  | inl same ↦ inr (rw same, λ s. s.0 ((list_beq_iff a.name name).0 same))
  | inr other ↦ rw other (elim (uses_phrase_decides c masters target a.pubkey a.kind h.2) [
    | inl (found, uses) ↦ inl (found, ((λ s. cc (other, (list_beq_iff a.name name).1 s)), uses))
    | inr (absent, free) ↦ inr (absent, λ s. free s.1)
  ])
]

pub shared_by_any_decides :
    (c : Crypto) (masters : List Master) (target name : Bytes) (accounts : List Account)
    → All (IsAccount c masters) accounts
    → ((shared_by_any masters target name accounts ≡ ok true) × Sharer masters target name accounts)
      ⊎ ((shared_by_any masters target name accounts ≡ ok false)
          × All (λ a. ¬ IsSharer masters target name a) accounts)
unfolding shared_by_any
shared_by_any_decides c masters target name [] h = inr (refl, tt)
shared_by_any_decides c masters target name (a ∷ rest) h =
    elim (shares_decides c masters target name a h.0) [
      | inl (found, is) ↦ inl (rw found, (zero, a, refl, is))
      | inr (absent, free) ↦ elim (shared_by_any_decides c masters target name rest h.1) [
        | inl (later, (i, b, at, is)) ↦ inl (rw absent later, (suc i, b, at, is))
        | inr (never, others) ↦ inr (rw absent never, (free, others))
      ]
    ]

-- The account holds a private key of its own.
abbrev pub IsImported : List Master → Account → Type 0
IsImported masters a = (bytes : Bytes) × (origin masters a.kind ≡ secret_key bytes)

-- The account's phrase is used by another account, by name; or by none.
abbrev pub IsShared : Vault → Account → Type 0
IsShared v a =
    (target : Bytes) × (index : ℕ) × (origin v.masters a.kind ≡ phrase_at target index)
    × Sharer v.masters target a.name v.accounts

abbrev pub IsUnshared : Vault → Account → Type 0
IsUnshared v a =
    (target : Bytes) × (index : ℕ) × (origin v.masters a.kind ≡ phrase_at target index)
    × All (λ b. ¬ IsSharer v.masters target a.name b) v.accounts

use_of_kind_decides :
    (c : Crypto) (v : Vault) (name : Bytes) (kind : AccountKind) (address : Bytes)
    → IsValid c v
    → IsKind c v.masters address kind
    → ((use_of_kind v name kind ≡ ok imported_key)
        × ((bytes : Bytes) × (origin v.masters kind ≡ secret_key bytes)))
      ⊎ ((use_of_kind v name kind ≡ ok shared)
          × ((target : Bytes) × (index : ℕ) × (origin v.masters kind ≡ phrase_at target index)
              × Sharer v.masters target name v.accounts))
      ⊎ ((use_of_kind v name kind ≡ ok unused_after_deletion)
          × ((target : Bytes) × (index : ℕ) × (origin v.masters kind ≡ phrase_at target index)
              × All (λ b. ¬ IsSharer v.masters target name b) v.accounts))
unfolding use_of_kind
use_of_kind_decides c v name (imported keypair) address valid h = inl (refl, (keypair, refl))
use_of_kind_decides c v name (derived i index) address valid (m, at, lt) =
    rw at (elim (shared_by_any_decides c v.masters m.entropy name v.accounts valid.accounts_valid) [
      | inl (found, sharer) ↦ inr (inl (rw found, (m.entropy, index, refl, sharer)))
      | inr (absent, free) ↦ inr (inr (rw absent, (m.entropy, index, refl, free)))
    ])

recovery_phrase_use-eq :
    (v : Vault) (name : Bytes) (a : Account)
    → find_name name v.accounts ≡ some a
    → recovery_phrase_use v name ≡ use_of_kind v name a.kind
unfolding recovery_phrase_use account
recovery_phrase_use-eq v name a found = rw found

-- The three answers of `recovery_phrase_use`, each with its meaning.
abbrev pub SaysUse : Vault → Bytes → Account → Type 0
SaysUse v name a =
    ((recovery_phrase_use v name ≡ ok imported_key) × IsImported v.masters a)
    ⊎ ((recovery_phrase_use v name ≡ ok shared) × IsShared v a)
    ⊎ ((recovery_phrase_use v name ≡ ok unused_after_deletion) × IsUnshared v a)

-- For a stored name `recovery_phrase_use` answers, without a panic, exactly whether the wallet is an
-- imported key, has a phrase that another wallet uses, or has one that no other wallet uses; two
-- copies of a phrase are one phrase.
pub recovery_phrase_use_exact :
    (c : Crypto) (v : Vault) (name : Bytes) (a : Account)
    → IsValid c v
    → find_name name v.accounts ≡ some a
    → SaysUse v name a
recovery_phrase_use_exact c v name a valid found =
    let same : a.name ≡ name = find_name-name name v.accounts found in
    let h : IsAccount c v.masters a = All-find_name _ name v.accounts valid.accounts_valid found in
    rw (recovery_phrase_use-eq v name a found, ← same)
      (use_of_kind_decides c v a.name a.kind a.pubkey valid h.2)
