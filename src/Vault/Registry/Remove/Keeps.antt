-- ===== src/Vault/Registry/Remove/Keeps.antt =====
-- `remove_account` of src/vault.rs, with the loop that renumbers, and the invariant.
use solx.Common.{
  ℕ, zero, suc, ◌≤◌, ◌≡◌, ◌≢◌, refl, sym, ap, ◌∙◌, inl, inr, Bool-cases, Bool, List, [], ◌∷◌, map,
  Bytes, All, length, get_elem?, erase_idx, some, ok, arith,
}
use solx.Vault.{Vault, Account, AccountKind, derived, imported, Master, max_accounts, max_masters}
use solx.Vault.Phrase.{Crypto}
use solx.Vault.Edit.Remove.{renumber_kind, renumber, flagged, erase_masters, remove_account}
use solx.Vault.Valid.{IsMaster, IsKind, IsAccount, Distinct, IsValid}
use solx.Vault.Registry.{origin}
use solx.Vault.Registry.Erase.{
  Uses, Unused, Marks, get_elem?-renumbered, Marks-erase_at, Marks-down, Unused-erase_at,
  erase_masters-flagged, erase_masters-kept, erase_masters-none,
}
use solx.Common.Eq.{list_beq_iff, nat_eq}
use solx.Vault.Registry.Remove.Position.{All-erase_idx}
use solx.Vault.Registry.Remove.Account.{removal}
use solx.Vault.Registry.Remove.Effect.{Unused-after}

length-erase_idx {ℓ} : {A : Type ℓ} (xs : List A) (i : ℕ) → length (erase_idx xs i) ≤ length xs
length-erase_idx [] i = omega arith
length-erase_idx (x ∷ xs) zero = omega arith
length-erase_idx (x ∷ xs) (suc i) = omega (arith, length-erase_idx xs i)

Distinct-erase_idx :
    (accounts : List Account) (i : ℕ) → Distinct accounts → Distinct (erase_idx accounts i)
Distinct-erase_idx [] i h = tt
Distinct-erase_idx (a ∷ rest) zero h = h.1
Distinct-erase_idx (a ∷ rest) (suc i) h =
    (All-erase_idx (λ b. b.name ≢ a.name) rest i h.0, Distinct-erase_idx rest i h.1)

-- The part of the invariant that the loop touches.
abbrev Sound : Crypto → List Master → List Account → Type 0
Sound c masters accounts =
    All IsMaster masters
    × (length masters ≤ max_masters)
    × All (IsAccount c masters) accounts
    × (length accounts ≤ max_accounts)
    × Distinct accounts

fresh-renumber :
    (i : ℕ) (a : Account) (accounts : List Account)
    → All (λ b. b.name ≢ a.name) accounts
    → All (λ b. b.name ≢ a.name) (map (renumber i) accounts)
fresh-renumber i a [] h = tt
fresh-renumber i a (b ∷ rest) h = (h.0, fresh-renumber i a rest h.1)

Distinct-renumber :
    (i : ℕ) (accounts : List Account) → Distinct accounts → Distinct (map (renumber i) accounts)
Distinct-renumber i [] h = tt
Distinct-renumber i (a ∷ rest) h = (fresh-renumber i a rest h.0, Distinct-renumber i rest h.1)

length-renumber :
    (i : ℕ) (accounts : List Account) → length (map (renumber i) accounts) ≡ length accounts
length-renumber i [] = refl
length-renumber i (a ∷ rest) = ap suc (length-renumber i rest)

module _ (c : Crypto) (target : Bytes) (masters : List Master) (i : ℕ) (m : Master)
    (at : get_elem? masters i ≡ some m) (holds : m.entropy ≡ target) where
  IsKind-renumber :
      (address : Bytes) (kind : AccountKind)
      → ¬ Uses target (origin masters kind)
      → IsKind c masters address kind
      → IsKind c (erase_idx masters i) address (renumber_kind i kind)
  IsKind-renumber address (imported keypair) free h = h
  IsKind-renumber address (derived j index) free (x, got, lt) =
      (x, get_elem?-renumbered masters i j differs ∙ got, lt)
    where
      differs : j ≢ i
      differs e = free (rw (e, at) holds)

  IsAccount-renumber :
      (accounts : List Account)
      → Unused target masters accounts
      → All (IsAccount c masters) accounts
      → All (IsAccount c (erase_idx masters i)) (map (renumber i) accounts)
  IsAccount-renumber [] free h = tt
  IsAccount-renumber (a ∷ rest) free h = (
    (h.0.0, h.0.1, IsKind-renumber a.pubkey a.kind free.0 h.0.2),
    IsAccount-renumber rest free.1 h.1,
  )

  Sound-erase_at :
      (accounts : List Account)
      → Unused target masters accounts
      → Sound c masters accounts
      → Sound c (erase_idx masters i) (map (renumber i) accounts)
  Sound-erase_at accounts free (ms, few, as', bound, differ) = (
    All-erase_idx IsMaster masters i ms,
    omega (arith, length-erase_idx masters i),
    IsAccount-renumber accounts free as',
    omega (arith, length-renumber i accounts),
    Distinct-renumber i accounts differ,
  )

Sound-erase_masters :
    (c : Crypto) (target : Bytes) (flags : List Bool) (k : ℕ) (masters : List Master)
    (accounts : List Account)
    → Marks target flags k masters
    → Unused target masters accounts
    → Sound c masters accounts
    → (let after = erase_masters flags k (masters, accounts) in Sound c after.0 after.1)
Sound-erase_masters c target flags zero masters accounts marks free sound =
    unfold erase_masters in sound
Sound-erase_masters c target flags (suc i) masters accounts marks free sound =
    let (m, at, flag) = marks i (omega arith) in
    elim (Bool-cases (flagged flags i)) [
      | inl erased ↦
          let holds : m.entropy ≡ target = (list_beq_iff m.entropy target).0 (sym flag ∙ erased) in
          rw (erase_masters-flagged flags i masters accounts erased) (
            Sound-erase_masters c target flags i (erase_idx masters i) (map (renumber i) accounts)
              (Marks-erase_at target flags i masters marks)
              (Unused-erase_at target masters i m at holds accounts free)
              (Sound-erase_at c target masters i m at holds accounts free sound))
      | inr kept ↦ rw (erase_masters-kept flags i masters accounts kept) (
          Sound-erase_masters c target flags i masters accounts
            (Marks-down target flags i masters marks) free sound)
    ]

-- Removing a wallet, with or without its phrase, keeps the vault valid: every remaining account
-- still refers to a stored master, below that master's counter.
pub remove_account-IsValid :
    (c : Crypto) (v v' : Vault) (name : Bytes) (erase : Bool)
    → IsValid c v
    → remove_account v name erase ≡ ok v'
    → IsValid c v'
remove_account-IsValid c v v' name erase valid e =
    let r = removal c v v' name erase valid e in
    let less = erase_idx v.accounts r.i in
    let sound : Sound c v.masters less = (
      valid.masters_valid,
      valid.masters_len,
      All-erase_idx (IsAccount c v.masters) v.accounts r.i valid.accounts_valid,
      omega (arith, length-erase_idx v.accounts r.i, valid.accounts_len),
      Distinct-erase_idx v.accounts r.i valid.names_differ,
    ) in
    let after = erase_masters r.flags (length v.masters) (v.masters, less) in
    let sound' : Sound c after.0 after.1 = elim r.plan [
      | inl (_, clear) ↦
          rw (erase_masters-none r.flags (length v.masters) (v.masters, less) clear) sound
      | inr (_, found, marks) ↦
          Sound-erase_masters c found.m.entropy r.flags (length v.masters) v.masters less marks
            (Unused-after c v name r.a r.i valid r.at found) sound
    ] in
    rw r.shape (record {
      masters_valid = sound'.0;
      masters_len = sound'.1;
      accounts_valid = sound'.2;
      accounts_len = sound'.3;
      names_differ = sound'.4;
      recipients_valid = valid.recipients_valid;
      recipients_len = valid.recipients_len;
    })
