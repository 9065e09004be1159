-- ===== src/Vault/Registry/Remove/Account.antt =====
-- `remove_account` of src/vault.rs against the registry.
use solx.Common.{
  ℕ, zero, suc, ◌≡◌, ◌≢◌, refl, sym, ◌∙◌, ◌⊎◌, inl, inr, Bool-cases, Bool, true, false, not, ◌&&◌,
  List, [], ◌∷◌, map, Bytes, All, length, get_elem?, get_elem?-lt, erase_idx, Option, none, some,
  ok, fail_if, ok_or, or_panic, ltb, ok_or-eq-ok, ok_inj, >>=-eq-ok, fail_if-eq-ok,
}
use mathlib.Core.Path.{subst}
use solx.Common.Eq.{list_eq, nat_eq}
use solx.Vault.{
  Vault, Account, AccountKind, derived, imported, Master, find_name, RecoveryPhraseUse,
  imported_key, shared, max_masters,
}
use solx.Vault.Phrase.{Crypto}
use solx.Vault.Edit.{same_phrase}
use solx.Vault.Edit.Remove.{
  is_unused, position, erase_flags, panic_if, flagged, erase_masters, recovery_phrase_use,
  remove_account,
}
use solx.Vault.Valid.{IsKind, IsAccount, IsValid}
use solx.Vault.Valid.Lookup.{get_elem?-map, find_name-name, All-find_name}
use solx.Vault.Registry.{phrase_at, secret_key, origin}
use solx.Vault.Registry.Erase.{Unused, Marks}
use solx.Vault.Registry.Remove.Position.{find_name-position}
use solx.Vault.Registry.Remove.Sharing.{IsSharer, IsUnshared, recovery_phrase_use_exact}

or_panic-eq-ok {ℓ} : {A : Type ℓ} (o : Option A) {a : A} → or_panic o ≡ ok a → o ≡ some a
or_panic-eq-ok none e = cc
or_panic-eq-ok (some b) e = cc

-- The vault without the account at a position, after the loop over the flags.
abbrev pub after_loop : Vault → List Bool → ℕ → Vault
after_loop v flags i =
    let state = erase_masters flags (length v.masters) (v.masters, erase_idx v.accounts i) in
    record v { masters = state.0; accounts = state.1 }

remove_account-ok :
    (v v' : Vault) (name : Bytes) (erase : Bool)
    → remove_account v name erase ≡ ok v'
    → (usage : RecoveryPhraseUse) × (i : ℕ) × (a : Account) × (flags : List Bool)
      × (recovery_phrase_use v name ≡ ok usage)
      × ((erase && not (is_unused usage)) ≡ false)
      × (position name v.accounts ≡ some i)
      × (get_elem? v.accounts i ≡ some a)
      × (erase_flags erase v.masters a.kind ≡ ok flags)
      × (v' ≡ after_loop v flags i)
unfolding remove_account
remove_account-ok v v' name erase e =
    let (usage, e1, k1) = >>=-eq-ok (recovery_phrase_use v name) _ e in
    let (_, e2, k2) = >>=-eq-ok (fail_if (erase && not (is_unused usage)) _) _ k1 in
    let (i, e3, k3) = >>=-eq-ok (ok_or (position name v.accounts) _) _ k2 in
    let (a, e4, k4) = >>=-eq-ok (or_panic (get_elem? v.accounts i)) _ k3 in
    let (_, _, k5) = >>=-eq-ok (panic_if (ltb max_masters (length v.masters))) _ k4 in
    let (flags, e6, k6) = >>=-eq-ok (erase_flags erase v.masters a.kind) _ k5 in
    (
      usage,
      i,
      a,
      flags,
      e1,
      fail_if-eq-ok _ _ e2,
      ok_or-eq-ok _ _ e3,
      or_panic-eq-ok _ e4,
      e6,
      sym (ok_inj k6),
    )

flagged-none :
    (masters : List Master) (j : ℕ) → flagged (map (λ candidate. false) masters) j ≡ false
flagged-none [] j = refl
flagged-none (m ∷ masters) zero = refl
flagged-none (m ∷ masters) (suc j) = flagged-none masters j

-- Without the wish to erase, no flag is set.
erase_flags-false :
    (masters : List Master) (kind : AccountKind) {flags : List Bool}
    → erase_flags false masters kind ≡ ok flags
    → (j : ℕ) → flagged flags j ≡ false
erase_flags-false masters kind e j = rw (← ok_inj e) (flagged-none masters j)

flagged-eq :
    (flags : List Bool) (j : ℕ) {b : Bool} → get_elem? flags j ≡ some b → flagged flags j ≡ b
flagged-eq flags j e = rw (e, flagged)

-- With it, the flags mark the masters that hold the account's phrase.
erase_flags-Marks :
    (masters : List Master) (i index : ℕ) (m : Master) {flags : List Bool}
    → get_elem? masters i ≡ some m
    → erase_flags true masters (derived i index) ≡ ok flags
    → Marks m.entropy flags (length masters) masters
erase_flags-Marks masters i index m at e j lt =
    let (x, got) = get_elem?-lt masters j lt in
    let read : flagged (map (same_phrase m.entropy) masters) j ≡ same_phrase m.entropy x =
      flagged-eq _ j (get_elem?-map (same_phrase m.entropy) masters j got) in
    (x, got, rw (← ok_inj (rw at at e)) read)

-- What an erasing removal starts from: a derived account whose phrase no other account uses.
pub record Erasable (v : Vault) (name : Bytes) (a : Account) : Type 0 where
  pub master : ℕ
  pub index : ℕ
  pub m : Master
  pub kind : a.kind ≡ derived master index
  pub stored : get_elem? v.masters master ≡ some m
  pub free : All (λ b. ¬ IsSharer v.masters m.entropy name b) v.accounts

Erasable-of_kind :
    (c : Crypto) (v : Vault) (a : Account) (kind : AccountKind) (address : Bytes)
    → a.kind ≡ kind
    → IsKind c v.masters address kind
    → IsUnshared v a
    → Erasable v a.name a
Erasable-of_kind c v a (derived i index) address e (m, got, lt) (target, k, from, free) =
    let named : origin v.masters (derived i index) ≡ phrase_at target k = rw e at from in
    let read : phrase_at m.entropy index ≡ phrase_at target k = rw got at named in
    let same : target ≡ m.entropy = cc in
    record {
      master = i;
      index = index;
      m = m;
      kind = e;
      stored = got;
      free = subst (λ (t : Bytes). All (λ b. ¬ IsSharer v.masters t a.name b) v.accounts) same free;
    }
Erasable-of_kind c v a (imported keypair) address e h (target, k, from, free) =
    let named : secret_key keypair ≡ phrase_at target k = rw e at from in absurd (cc)

-- The accounts other than the removed one do not use its phrase.
pub Unused-rest :
    (target name : Bytes) (masters : List Master) (accounts : List Account)
    → All (λ b. ¬ IsSharer masters target name b) accounts
    → All (λ b. b.name ≢ name) accounts
    → Unused target masters accounts
Unused-rest target name masters [] free others = tt
Unused-rest target name masters (b ∷ rest) free others =
    ((λ uses. free.0 (others.0, uses)), Unused-rest target name masters rest free.1 others.1)

module _ (c : Crypto) (v v' : Vault) (name : Bytes) (valid : IsValid c v) where
  -- A removal that may erase the phrase had found it unshared.
  erasable :
      (usage : RecoveryPhraseUse) (a : Account)
      → find_name name v.accounts ≡ some a
      → recovery_phrase_use v name ≡ ok usage
      → not (is_unused usage) ≡ false
      → Erasable v name a
  erasable usage a found e ok_to = elim (recovery_phrase_use_exact c v name a valid found) [
    | inl (said, _) ↦
        let same : usage ≡ imported_key = ok_inj (sym e ∙ said) in
        let bad : true ≡ false = rw same at ok_to in absurd (cc)
    | inr (inl (said, _)) ↦
        let same : usage ≡ shared = ok_inj (sym e ∙ said) in
        let bad : true ≡ false = rw same at ok_to in absurd (cc)
    | inr (inr (said, unshared)) ↦
        subst (λ (n : Bytes). Erasable v n a) (find_name-name name v.accounts found)
          (Erasable-of_kind c v a a.kind a.pubkey refl
            (All-find_name (IsAccount c v.masters) name v.accounts valid.accounts_valid found).2
            unshared)
  ]

-- What a removal did: the account at a position left, and the masters stayed or lost one phrase.
pub record Removal (v v' : Vault) (name : Bytes) (erase : Bool) : Type 0 where
  pub i : ℕ
  pub a : Account
  pub flags : List Bool
  pub at : position name v.accounts ≡ some i
  pub stored : find_name name v.accounts ≡ some a
  pub shape : v' ≡ after_loop v flags i
  pub plan :
      ((erase ≡ false) × ((j : ℕ) → flagged flags j ≡ false))
      ⊎ ((erase ≡ true)
          × (found : Erasable v name a) × Marks
              (found.m.entropy)
              flags
              (length v.masters)
              v.masters)

pub removal :
    (c : Crypto) (v v' : Vault) (name : Bytes) (erase : Bool)
    → IsValid c v
    → remove_account v name erase ≡ ok v'
    → Removal v v' name erase
removal c v v' name erase valid e =
    let (usage, i, a, flags, used, allowed, at, got, set, shape) =
      remove_account-ok v v' name erase e in
    let stored : find_name name v.accounts ≡ some a =
      find_name-position name v.accounts i at ∙ got in
    record {
      i = i;
      a = a;
      flags = flags;
      at = at;
      stored = stored;
      shape = shape;
      plan = elim (Bool-cases erase) [
        | inl wanted ↦
            let found = erasable c v v' name valid usage a stored used (rw wanted at allowed) in
            inr (
              wanted,
              found,
              erase_flags-Marks v.masters found.master found.index found.m found.stored
                  (rw (wanted, found.kind) at set),
            )
        | inr spared ↦ inl (spared, erase_flags-false v.masters a.kind (rw spared at set))
      ];
    }
