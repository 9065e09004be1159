-- ===== src/Vault/Valid/Add.antt =====
-- `add_master`, `add_derived`, `add_imported` and `remember_recipient` of src/vault.rs keep a valid
-- vault valid.
use solx.Common.{
  ℕ, ◌%◌, ◌≤◌, ◌<◌, ◌≡◌, ◌≢◌, true, not, List, [], ◌∷◌, ◌++◌, Bytes, All, All-append, length,
  length-append, get_elem?, some, ok, fail_if, >>=-eq-ok, fail_if-eq-ok, leb, arith,
}
use solx.Common.Eq.{nat_eq, list_eq}
use solx.Config.{valid_name}
use solx.Signer.{Keypair, pubkey}
use solx.Vault.{
  Vault, Master, Account, AccountKind, derived, imported, contains, max_accounts, max_masters,
}
use solx.Vault.Phrase.{Crypto, derive_signer}
use solx.Vault.Edit.{ensure_new_name, add_master}
use solx.Vault.Valid.{IsCrypto, IsMaster, IsKind, IsAccount, IsValid}
use solx.Vault.Valid.Lookup.{
  get_elem?-append, get_elem?-end, All-map, has_name-false, Distinct-append,
}

pub ensure_new_name-ok :
    (v : Vault) (name : Bytes) {u : Unit {0}}
    → ensure_new_name v name ≡ ok u
    → (valid_name name ≡ true)
      × All (λ b. b.name ≢ name) v.accounts
      × (length v.accounts < max_accounts)
unfolding ensure_new_name contains
ensure_new_name-ok v name e =
    let (_, e1, k1) = >>=-eq-ok (fail_if (not (valid_name name)) _) _ e in
    let (_, e2, e3) = >>=-eq-ok (fail_if (contains v name) _) _ k1 in
    (
      ground (arith, fail_if-eq-ok _ _ e1),
      has_name-false name v.accounts (fail_if-eq-ok _ _ e2),
      ground (arith, fail_if-eq-ok _ _ e3),
    )

pub length-pubkey : (c : Crypto) → IsCrypto c → (key : Keypair) → length (pubkey c.ed25519 key) ≡ 32
unfolding pubkey
length-pubkey c laws key = laws.key_size key.key

-- Pushing one account behind the others, over masters that keep every older account valid.
pub push_account :
    (c : Crypto) (v : Vault) (masters : List Master) (a : Account)
    → IsValid c v
    → All IsMaster masters
    → length masters ≤ max_masters
    → All (IsAccount c masters) v.accounts
    → IsAccount c masters a
    → All (λ b. b.name ≢ a.name) v.accounts
    → length v.accounts < max_accounts
    → IsValid c (record v { masters = masters; accounts = v.accounts ++ a ∷ [] })
push_account c v masters a valid ms few older new fresh room = record {
  masters_valid = ms;
  masters_len = few;
  accounts_valid = All-append _ v.accounts (a ∷ []) older (new, tt);
  accounts_len = omega (arith, length-append v.accounts (a ∷ []));
  names_differ = Distinct-append v.accounts a valid.names_differ fresh;
  recipients_valid = valid.recipients_valid;
  recipients_len = valid.recipients_len;
}

-- An account stays valid over masters that keep its master, with a counter at least as high.
abbrev pub Extends : List Master → List Master → Type 0
Extends old new =
    (i : ℕ) (m : Master)
    → get_elem? old i ≡ some m
    → (m' : Master) × (get_elem? new i ≡ some m') × (m.next_index ≤ m'.next_index)

IsKind-mono :
    (c : Crypto) (old new : List Master) (address : Bytes) (kind : AccountKind)
    → Extends old new
    → IsKind c old address kind
    → IsKind c new address kind
IsKind-mono c old new address (derived master index) ext (m, e, lt) =
    let (m', e', le) = ext master m e in (m', e', omega arith)
IsKind-mono c old new address (imported keypair) ext k = k

pub IsAccount-mono :
    (c : Crypto) (old new : List Master)
    → Extends old new
    → (a : Account) → IsAccount c old a
    → IsAccount c new a
IsAccount-mono c old new ext a h = (h.0, h.1, IsKind-mono c old new a.pubkey a.kind ext h.2)

pub add_master-ok :
    (c : Crypto) (v : Vault) (name entropy : Bytes) (v' : Vault)
    → add_master c v name entropy ≡ ok v'
    → (mnemonic : Bytes) × (key : Keypair) × ((valid_name name ≡ true)
        × All (λ b. b.name ≢ name) v.accounts
        × (length v.accounts < max_accounts))
      × (length v.masters < max_masters)
      × (c.from_entropy entropy ≡ ok mnemonic)
      × (derive_signer c mnemonic 0 ≡ ok key)
      × (v' ≡ record v {
        masters = v.masters ++ record { entropy = entropy; next_index = 1 } ∷ [];
        accounts =
            v.accounts
            ++ record {
              name = name;
              pubkey = pubkey c.ed25519 key;
              kind = derived (length v.masters % 256) 0;
            }
              ∷ [];
      })
unfolding add_master
add_master-ok c v name entropy v' e =
    let (_, e1, k1) = >>=-eq-ok (ensure_new_name v name) _ e in
    let (_, e2, k2) = >>=-eq-ok (fail_if (leb max_masters (length v.masters)) _) _ k1 in
    let (mnemonic, e3, k3) = >>=-eq-ok (c.from_entropy entropy) _ k2 in
    let (key, e4, k4) = >>=-eq-ok (derive_signer c mnemonic 0) _ k3 in
    (mnemonic, key, ensure_new_name-ok v name e1, ground (arith, fail_if-eq-ok _ _ e2), e3, e4, cc)

-- Adding a phrase to a valid vault, where it succeeds, leaves a valid vault: the limits hold, the new
-- name is valid and new, and the old accounts keep their masters.
pub add_master-IsValid :
    (c : Crypto) (v v' : Vault) (name entropy : Bytes)
    → IsCrypto c
    → IsValid c v
    → add_master c v name entropy ≡ ok v'
    → IsValid c v'
add_master-IsValid c v v' name entropy laws valid e =
    let (mnemonic, key, (good, fresh, room), few, ent, signed, shape) =
      add_master-ok c v name entropy v' e in
    let new : Master = record { entropy = entropy; next_index = 1 } in
    let ext : Extends v.masters (v.masters ++ new ∷ []) =
      λ i m h. (m, get_elem?-append v.masters (new ∷ []) i h, omega arith) in
    let small : length v.masters % 256 ≡ length v.masters = omega arith in
    rw shape (
      push_account c v (v.masters ++ new ∷ []) _ valid
        (All-append _ v.masters (new ∷ []) valid.masters_valid
          ((laws.entropy_sizes entropy mnemonic ent, omega arith, omega arith), tt))
        (omega (arith, length-append v.masters (new ∷ [])))
        (All-map (IsAccount-mono c _ _ ext) v.accounts valid.accounts_valid)
        (good, length-pubkey c laws key, (new, rw small (get_elem?-end v.masters new), omega arith))
        fresh room)
