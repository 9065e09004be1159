-- ===== src/Vault/Valid/Derive.antt =====
-- `add_derived` of src/vault.rs: the counters of one phrase, however often it is stored.
use solx.Common.{
  ℕ, zero, suc, ◌+◌, ◌^◌, ◌≤◌, ◌<◌, ◌≡◌, ◌≢◌, sym, ◌∙◌, inl, inr, max, true, List, [], ◌∷◌, ◌++◌,
  map, Bytes, All, length, get_elem?, Option, none, some, ok, fail_if, ok_or, >>=-eq-ok,
  fail_if-eq-ok, ok_or-eq-ok, ok_inj, leb, arith, Bool-cases, String, Option-cases,
}
use mathlib.Core.Option.{some-injective}
use solx.Common.Eq.{nat_eq, list_eq, beq_refl}
use solx.Config.{valid_name}
use solx.Signer.{Keypair, pubkey}
use solx.Vault.{
  Vault, Master, Account, AccountKind, derived, imported, account, find_name, max_accounts,
}
use solx.Vault.Phrase.{Crypto, derive_signer}
use solx.Vault.Edit.{
  ensure_new_name, add_derived, derived_master, max_option, max_next, advance, same_phrase,
}
use solx.Vault.Valid.{IsCrypto, IsMaster, IsValid}
use solx.Vault.Valid.Lookup.{get_elem?-map, length-map, All-map, All-map-map}
use solx.Vault.Valid.Add.{ensure_new_name-ok, push_account, Extends, IsAccount-mono, length-pubkey}

max_option-upper : (o : Option ℕ) (n : ℕ) → n ≤ max_option o n
max_option-upper none n = omega arith
max_option-upper (some k) n = omega arith

-- A stored phrase has a largest counter, at least that of every copy of the phrase.
pub max_next-upper :
    (entropy : Bytes) (ms : List Master) (i : ℕ) (m : Master)
    → get_elem? ms i ≡ some m
    → same_phrase entropy m ≡ true
    → (n : ℕ) × (max_next entropy ms ≡ some n) × (m.next_index ≤ n)
unfolding max_next
max_next-upper entropy [] i m g s = cc
max_next-upper entropy (x ∷ ms) zero m g s =
    let same : x ≡ m = some-injective x m g in
    (
      max_option (max_next entropy ms) x.next_index,
      rw (rw (← same) at s),
      rw (← same) (max_option-upper (max_next entropy ms) x.next_index),
    )
max_next-upper entropy (x ∷ ms) (suc i) m g s =
    let (n, e, le) = max_next-upper entropy ms i m g s in
    elim (Bool-cases (same_phrase entropy x)) [
      | inl same ↦ (max n x.next_index, rw (same, e), omega arith)
      | inr other ↦ (n, rw (other, e), le)
    ]

-- It is the counter of a valid master.
pub max_next-bounds :
    (entropy : Bytes) (ms : List Master) (n : ℕ)
    → All IsMaster ms
    → max_next entropy ms ≡ some n
    → (0 < n) × (n ≤ 2 ^ 31)
unfolding max_next
max_next-bounds entropy [] n h e = cc
max_next-bounds entropy (x ∷ ms) n h e = elim (Option-cases (max_next entropy ms)) [
  | inl absent ↦ ground arith
  | inr (k, found) ↦ ground (arith, max_next-bounds entropy ms k h.1 found)
]

derive_signer-lt :
    (c : Crypto) (mnemonic : Bytes) (index : ℕ) {key : Keypair}
    → derive_signer c mnemonic index ≡ ok key
    → index < 2 ^ 31
unfolding derive_signer
derive_signer-lt c mnemonic index e =
    let (_, e1, _) = >>=-eq-ok (fail_if (leb (2 ^ 31) index) _) _ e in
    ground (arith, fail_if-eq-ok _ _ e1)

kind_of_master :
    (kind : AccountKind) (message : String) {master : ℕ}
    → derived_master kind message ≡ ok master
    → (index : ℕ) × (kind ≡ derived master index)
kind_of_master (derived m i) message e = (i, cc)
kind_of_master (imported k) message e = cc

advance_up :
    (entropy : Bytes) (n : ℕ) (m : Master)
    → n < 2 ^ 31
    → (same_phrase entropy m ≡ true → m.next_index ≤ n)
    → m.next_index ≤ (advance entropy n m).next_index
advance_up entropy n m lt h = elim (Bool-cases (same_phrase entropy m)) [
  | inl same ↦ let le = h same in rw same (omega arith)
  | inr other ↦ rw other (omega arith)
]

pub next_index-advance :
    (n : ℕ) (m : Master) → n < 2 ^ 31 → (advance m.entropy n m).next_index ≡ n + 1
next_index-advance n m lt = rw (beq_refl m.entropy) (omega arith)

pub advance-Extends :
    (entropy : Bytes) (ms : List Master) (n : ℕ)
    → n < 2 ^ 31
    → max_next entropy ms ≡ some n
    → Extends ms (map (advance entropy n) ms)
advance-Extends entropy ms n lt e i m g = (
  advance entropy n m,
  get_elem?-map (advance entropy n) ms i g,
  advance_up entropy n m lt λ same.
      let (k, found, le) = max_next-upper entropy ms i m g same in
      let top : k ≡ n = some-injective k n (sym found ∙ e) in omega arith,
)

pub advance-IsMaster :
    (entropy : Bytes) (n : ℕ)
    → n < 2 ^ 31
    → (m : Master) → IsMaster m
    → IsMaster (advance entropy n m)
advance-IsMaster entropy n lt m h = ground arith

pub add_derived-ok :
    (c : Crypto) (v : Vault) (name source : Bytes) (v' : Vault)
    → add_derived c v name source ≡ ok v'
    → (from : Account) × (master : ℕ) × (index : ℕ) × (selected : Master) × (next : ℕ)
      × (mnemonic : Bytes) × (key : Keypair) × ((valid_name name ≡ true)
          × All (λ b. b.name ≢ name) v.accounts
          × (length v.accounts < max_accounts))
      × (find_name source v.accounts ≡ some from)
      × (from.kind ≡ derived master index)
      × (get_elem? v.masters master ≡ some selected)
      × (max_next selected.entropy v.masters ≡ some next)
      × (next < 2 ^ 31)
      × (c.from_entropy selected.entropy ≡ ok mnemonic)
      × (derive_signer c mnemonic next ≡ ok key)
      × (v' ≡ record v {
        masters = map (advance selected.entropy next) v.masters;
        accounts =
            v.accounts
            ++ record { name = name; pubkey = pubkey c.ed25519 key; kind = derived master next }
              ∷ [];
      })
unfolding add_derived account
add_derived-ok c v name source v' e =
    let (_, e1, k1) = >>=-eq-ok (ensure_new_name v name) _ e in
    let (from, e2, k2) = >>=-eq-ok (ok_or (find_name source v.accounts) _) _ k1 in
    let (master, e3, k3) = >>=-eq-ok (derived_master from.kind _) _ k2 in
    let (selected, e4, k4) = >>=-eq-ok (ok_or (get_elem? v.masters master) _) _ k3 in
    let (next, e5, k5) = >>=-eq-ok (ok_or (max_next selected.entropy v.masters) _) _ k4 in
    let (mnemonic, e6, k6) = >>=-eq-ok (c.from_entropy selected.entropy) _ k5 in
    let (key, e7, k7) = >>=-eq-ok (derive_signer c mnemonic next) _ k6 in
    let (index, kind) = kind_of_master from.kind _ e3 in
    (
      from,
      master,
      index,
      selected,
      next,
      mnemonic,
      key,
      ensure_new_name-ok v name e1,
      ok_or-eq-ok _ _ e2,
      kind,
      ok_or-eq-ok _ _ e4,
      ok_or-eq-ok _ _ e5,
      derive_signer-lt c mnemonic next e7,
      e6,
      e7,
      sym (ok_inj k7),
    )

-- Deriving a wallet in a valid vault, where it succeeds, leaves a valid vault: the new account names a
-- stored master and an index below its counter, and no counter goes down or beyond 2^31.
pub add_derived-IsValid :
    (c : Crypto) (v v' : Vault) (name source : Bytes)
    → IsCrypto c
    → IsValid c v
    → add_derived c v name source ≡ ok v'
    → IsValid c v'
add_derived-IsValid c v v' name source laws valid e =
    let (
      from,
      master,
      index,
      selected,
      next,
      mnemonic,
      key,
      (good, fresh, room),
      found,
      kind,
      at,
      top,
      small,
      _,
      _,
      shape,
    ) =
      add_derived-ok c v name source v' e in
    let ext : Extends v.masters (map (advance selected.entropy next) v.masters) =
      advance-Extends selected.entropy v.masters next small top in
    rw shape (
      push_account c v (map (advance selected.entropy next) v.masters) _ valid
        (All-map-map (advance selected.entropy next) (advance-IsMaster selected.entropy next small)
          v.masters valid.masters_valid)
        (omega (arith, length-map (advance selected.entropy next) v.masters, valid.masters_len))
        (All-map (IsAccount-mono c _ _ ext) v.accounts valid.accounts_valid)
        (
          good,
          length-pubkey c laws key,
          (
            advance selected.entropy next selected,
            get_elem?-map _ v.masters master at,
            omega (arith, next_index-advance next selected small),
          ),
        )
        fresh room)
