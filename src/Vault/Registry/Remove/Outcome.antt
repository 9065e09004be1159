-- ===== src/Vault/Registry/Remove/Outcome.antt =====
-- Which answer `remove_account` of src/vault.rs gives.
use solx.Common.{
  ◌≡◌, refl, ◌⊎◌, inl, inr, Bool-cases, Option-cases, Bool, true, false, not, ◌&&◌, List, map,
  Bytes, length, none, some, ok, err, ltb, ge→ltb,
}
use solx.Common.Eq.{◌==◌, list_eq, nat_eq}
use solx.Vault.{
  Vault, Account, AccountKind, derived, imported, Master, find_name, account, RecoveryPhraseUse,
  imported_key, shared, unused_after_deletion, max_masters,
}
use solx.Vault.Phrase.{Crypto}
use solx.Vault.Edit.Remove.{is_unused, erase_flags, recovery_phrase_use, remove_account}
use solx.Vault.Valid.{IsKind, IsAccount, IsValid}
use solx.Vault.Valid.Lookup.{All-find_name}
use solx.Vault.Registry.Remove.Position.{position-find_name}
use solx.Vault.Registry.Remove.Sharing.{IsImported, IsShared, IsUnshared, recovery_phrase_use_exact}
use solx.Vault.Registry.Remove.Account.{after_loop}

erase_flags_total :
    (c : Crypto) (masters : List Master) (erase : Bool) (address : Bytes) (kind : AccountKind)
    → IsKind c masters address kind
    → (flags : List Bool) × (erase_flags erase masters kind ≡ ok flags)
erase_flags_total c masters true address (derived i index) (m, got, lt) =
    (map (λ candidate. candidate.entropy == m.entropy) masters, rw got)
erase_flags_total c masters true address (imported keypair) h = (_, refl)
erase_flags_total c masters false address (derived i index) h = (_, refl)
erase_flags_total c masters false address (imported keypair) h = (_, refl)

module _ (c : Crypto) (v : Vault) (name : Bytes) (erase : Bool) (valid : IsValid c v) (a : Account)
    (found : find_name name v.accounts ≡ some a) (usage : RecoveryPhraseUse)
    (used : recovery_phrase_use v name ≡ ok usage) where
  removes :
      (erase && not (is_unused usage)) ≡ false
      → (v' : Vault) × (remove_account v name erase ≡ ok v')
  unfolding remove_account
  removes allowed =
      let (i, at, got) = position-find_name name v.accounts found in
      let h : IsAccount c v.masters a =
        All-find_name (IsAccount c v.masters) name v.accounts valid.accounts_valid found in
      let (flags, set) = erase_flags_total c v.masters erase a.pubkey a.kind h.2 in
      let small : ltb max_masters (length v.masters) ≡ false =
        ge→ltb max_masters (length v.masters) valid.masters_len in
      (after_loop v flags i, rw (used, allowed, at, got, small, set))

  refuses :
      (erase && not (is_unused usage)) ≡ true
      → remove_account v name erase
        ≡ err "recovery phrase is still used or this wallet has no recovery phrase"
  unfolding remove_account
  refuses denied = rw (used, denied)

-- The three answers of `remove_account`, each with its cause.
abbrev pub Answers : Vault → Bytes → Bool → Type 0
Answers v name erase =
    ((find_name name v.accounts ≡ none) × (remove_account v name erase ≡ err "unknown wallet"))
    ⊎ ((a : Account) × (find_name name v.accounts ≡ some a)
        × (erase ≡ true)
        × (IsImported v.masters a ⊎ IsShared v a)
        × (remove_account v name erase
            ≡ err "recovery phrase is still used or this wallet has no recovery phrase"))
    ⊎ ((a : Account) × (find_name name v.accounts ≡ some a)
        × ((erase ≡ false) ⊎ IsUnshared v a)
        × ((v' : Vault) × (remove_account v name erase ≡ ok v')))

-- On a valid vault `remove_account` never panics. It answers "unknown wallet" exactly for a name that
-- is not stored, and refuses exactly when the phrase is to be erased but the wallet is an imported
-- key or another wallet uses the phrase; in every other case it removes the wallet.
pub remove_account_outcome :
    (c : Crypto) (v : Vault) (name : Bytes) (erase : Bool) → IsValid c v → Answers v name erase
remove_account_outcome c v name erase valid = elim (Option-cases (find_name name v.accounts)) [
  | inl absent ↦ inl (absent, unfold remove_account recovery_phrase_use account in rw absent)
  | inr (a, found) ↦ inr (elim (recovery_phrase_use_exact c v name a valid found) [
    | inl (said, is) ↦ elim (Bool-cases erase) [
      | inl wanted ↦ inl (
        a,
        found,
        wanted,
        inl is,
        refuses c v name erase valid a found imported_key said (rw wanted),
      )
      | inr spared ↦
          inr (
            a,
            found,
            inl spared,
            removes c v name erase valid a found imported_key said (rw spared),
          )
    ]
    | inr (inl (said, is)) ↦ elim (Bool-cases erase) [
      | inl wanted ↦
          inl
            (a, found, wanted, inr is, refuses c v name erase valid a found shared said (rw wanted))
      | inr spared ↦
          inr (a, found, inl spared, removes c v name erase valid a found shared said (rw spared))
    ]
    | inr (inr (said, is)) ↦ inr (
      a,
      found,
      inr is,
      removes c v name erase valid a found unused_after_deletion said (allowed erase),
    )
  ])
]
  where
    allowed : (b : Bool) → (b && not (is_unused unused_after_deletion)) ≡ false
    allowed true = refl
    allowed false = refl
