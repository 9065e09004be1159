-- ===== src/Vault/Registry/Add.antt =====
-- The additions of src/vault.rs, and its `signer`, on the registry.
use solx.Common.{
  ℕ, ◌^◌, ◌%◌, ◌<◌, ◌≡◌, refl, ap, ◌∙◌, inl, inr, Bool-cases, List, [], ◌∷◌, ◌++◌, map, Bytes, All,
  length, get_elem?, some, ok, arith, Option-cases,
}
use mathlib.Core.List.{map-append}
use mathlib.Core.Option
use solx.Common.Eq.{◌==◌, nat_eq, list_eq}
use solx.Signer.{Keypair, pubkey}
use solx.Vault.{Vault, Master, Account, AccountKind, derived, imported, account, find_name}
use solx.Vault.Phrase.{Crypto}
use solx.Vault.Edit.{
  add_master, add_derived, add_imported, signer, keypair_of_kind, max_next, advance, same_phrase,
}
use solx.Vault.Valid.{IsKind, IsAccount, IsValid}
use solx.Vault.Valid.Lookup.{get_elem?-append, get_elem?-end, get_elem?-map}
use solx.Vault.Valid.Add.{add_master-ok}
use solx.Vault.Valid.Derive.{add_derived-ok}
use solx.Vault.Valid.Import.{add_imported-ok}
use solx.Vault.Registry.{
  Origin, phrase_at, secret_key, Entry, origin, entry, entries, registry, find_entry, origin_key,
  registry_signer,
}

-- Masters with the same phrases at the places of the old ones give valid accounts the same entries.
abbrev KeepsPhrases : List Master → List Master → Type 0
KeepsPhrases old new =
    (i : ℕ) (m : Master)
    → get_elem? old i ≡ some m
    → (m' : Master) × (get_elem? new i ≡ some m') × (m'.entropy ≡ m.entropy)

origin-KeepsPhrases :
    (c : Crypto) (old new : List Master) (address : Bytes) (kind : AccountKind)
    → KeepsPhrases old new
    → IsKind c old address kind
    → origin new kind ≡ origin old kind
origin-KeepsPhrases c old new address (derived master index) keep (m, e, lt) =
    let (m', e', same) = keep master m e in rw (e, e', same)
origin-KeepsPhrases c old new address (imported keypair) keep k = refl

entries-KeepsPhrases :
    (c : Crypto) (old new : List Master) (accounts : List Account)
    → KeepsPhrases old new
    → All (IsAccount c old) accounts
    → entries new accounts ≡ entries old accounts
entries-KeepsPhrases c old new [] keep h = refl
entries-KeepsPhrases c old new (a ∷ rest) keep h = rw (
  origin-KeepsPhrases c old new a.pubkey a.kind keep h.0.2,
  entries-KeepsPhrases c old new rest keep h.1,
)

entries-push :
    (c : Crypto) (old new : List Master) (accounts : List Account) (a : Account)
    → KeepsPhrases old new
    → All (IsAccount c old) accounts
    → entries new (accounts ++ a ∷ []) ≡ entries old accounts ++ entry new a ∷ []
entries-push c old new accounts a keep h =
    map-append (entry new) accounts (a ∷ [])
    ∙ ap (λ (l : List Entry). l ++ entry new a ∷ [])
        (entries-KeepsPhrases c old new accounts keep h)

-- One wallet more, at the end, with the address of the key that its secret gives.
abbrev pub Appends : Crypto → Vault → Vault → Bytes → Origin → Type 0
Appends c v v' name secret =
    (key : Keypair) × (origin_key c secret ≡ ok key)
    × (registry v'
        ≡ registry v
          ++ record { name = name; address = pubkey c.ed25519 key; origin = secret } ∷ [])

-- `add_master` appends the account at index 0 of the new phrase, and the address is its key's.
pub registry-add_master :
    (c : Crypto) (v v' : Vault) (name entropy : Bytes)
    → IsValid c v
    → add_master c v name entropy ≡ ok v'
    → Appends c v v' name (phrase_at entropy 0)
unfolding origin_key
registry-add_master c v v' name entropy valid e =
    let (mnemonic, key, _, few, ent, signed, shape) = add_master-ok c v name entropy v' e in
    let new : Master = record { entropy = entropy; next_index = 1 } in
    let masters = v.masters ++ new ∷ [] in
    let keep : KeepsPhrases v.masters masters =
      λ i m h. (m, get_elem?-append v.masters (new ∷ []) i h, refl) in
    let small : length v.masters % 256 ≡ length v.masters = omega (arith, valid.masters_len) in
    let at : get_elem? masters (length v.masters % 256) ≡ some new =
      rw small (get_elem?-end v.masters new) in
    (
      key,
      rw ent signed,
      rw shape (entries-push c v.masters masters v.accounts _ keep valid.accounts_valid ∙ rw at),
    )

entropy-advance : (entropy : Bytes) (n : ℕ) (m : Master) → (advance entropy n m).entropy ≡ m.entropy
entropy-advance entropy n m = elim (Bool-cases (same_phrase entropy m)) [
  | inl same ↦ rw same
  | inr other ↦ rw other
]

-- `add_derived` appends the account at the shared counter of its source's phrase, and the address is
-- its key's; every copy of the phrase advances.
pub registry-add_derived :
    (c : Crypto) (v v' : Vault) (name source : Bytes)
    → IsValid c v
    → add_derived c v name source ≡ ok v'
    → (from : Account) × (entropy : Bytes) × (old : ℕ) × (next : ℕ) × (key : Keypair) × (find_name
          source v.accounts
        ≡ some from)
      × (origin v.masters from.kind ≡ phrase_at entropy old)
      × (max_next entropy v.masters ≡ some next)
      × (next < 2 ^ 31)
      × (v'.masters ≡ map (advance entropy next) v.masters)
      × (origin_key c (phrase_at entropy next) ≡ ok key)
      × (registry v'
          ≡ registry v
            ++ record {
              name = name;
              address = pubkey c.ed25519 key;
              origin = phrase_at entropy next;
            }
              ∷ [])
unfolding origin_key
registry-add_derived c v v' name source valid e =
    let (
      from, master, old, selected, next, _, key, _, found, kind, at, top, small, ent, signed, shape,
    ) =
      add_derived-ok c v name source v' e in
    let f = advance selected.entropy next in
    let keep : KeepsPhrases v.masters (map f v.masters) =
      λ i m h. (f m, get_elem?-map f v.masters i h, entropy-advance selected.entropy next m) in
    let place : get_elem? (map f v.masters) master ≡ some (f selected) =
      get_elem?-map f v.masters master at in
    (
      from,
      selected.entropy,
      old,
      next,
      key,
      found,
      rw (kind, at),
      top,
      small,
      rw shape,
      rw ent signed,
      rw shape (
          entries-push c v.masters (map f v.masters) v.accounts _ keep valid.accounts_valid
          ∙ rw (place, entropy-advance selected.entropy next selected)),
    )

-- `add_imported` appends an account with its own key.
pub registry-add_imported :
    (c : Crypto) (v v' : Vault) (name bytes : Bytes)
    → add_imported c v name bytes ≡ ok v'
    → Appends c v v' name (secret_key bytes)
unfolding origin_key
registry-add_imported c v v' name bytes e =
    let (key, _, read, shape) = add_imported-ok c v name bytes v' e in
    (key, read, rw shape (map-append (entry v.masters) v.accounts _))

find_entry-entries :
    (masters : List Master) (name : Bytes) (accounts : List Account)
    → find_entry name (entries masters accounts)
      ≡ Option.map (entry masters) (find_name name accounts)
unfolding find_entry find_name
find_entry-entries masters name [] = refl
find_entry-entries masters name (a ∷ rest) = elim (Bool-cases (a.name == name)) [
  | inl same ↦ rw same
  | inr other ↦ rw other (find_entry-entries masters name rest)
]

origin_key-origin :
    (c : Crypto) (masters : List Master) (kind : AccountKind)
    → origin_key c (origin masters kind) ≡ keypair_of_kind c masters kind
unfolding origin_key keypair_of_kind
origin_key-origin c masters (derived master index) =
    elim (Option-cases (get_elem? masters master)) [
      | inl absent ↦ rw absent
      | inr (m, found) ↦ rw found
    ]
origin_key-origin c masters (imported keypair) = refl

-- `signer` is a function of the registry: the numbering of the masters does not show.
pub signer-registry :
    (c : Crypto) (v : Vault) (name : Bytes) → signer c v name ≡ registry_signer c (registry v) name
unfolding signer registry_signer account
signer-registry c v name =
    rw (find_entry-entries v.masters name v.accounts)
      (elim (Option-cases (find_name name v.accounts)) [
        | inl absent ↦ rw absent
        | inr (a, found) ↦ rw (found, origin_key-origin c v.masters a.kind)
      ])
