-- ===== src/Vault/Registry/Fresh.antt =====
-- `add_derived` of src/vault.rs and the derivation indices of the registry.
use solx.Common.{
  ℕ, ◌+◌, ◌<◌, ◌≡◌, ◌≢◌, sym, ◌∙◌, ◌⊎◌, inl, inr, List, [], ◌∷◌, ◌++◌, map, Bytes, All, some, ok,
  arith,
}
use mathlib.Core.Option.{some-injective}
use solx.Common.Eq.{nat_eq, list_eq, beq-cases}
use solx.Signer.{Keypair, pubkey}
use solx.Vault.{Vault, Master, Account, AccountKind, derived, imported, find_name}
use solx.Vault.Phrase.{Crypto}
use solx.Vault.Edit.{add_derived, max_next, advance}
use solx.Vault.Valid.{IsKind, IsAccount, IsValid}
use solx.Vault.Valid.Derive.{max_next-upper}
use solx.Vault.Registry.Add.{registry-add_derived}
use solx.Vault.Registry.{
  Origin, phrase_at, secret_key, dangling, Entry, origin, origin_key, entries, registry,
}

-- Uses of a phrase stay below an index.
abbrev pub Below : Bytes → ℕ → Origin → Type 0
Below entropy n (phrase_at e index) = (e ≢ entropy) ⊎ (index < n)
Below entropy n (secret_key keypair) = Unit
Below entropy n dangling = Unit

origin-Below :
    (c : Crypto) (masters : List Master) (entropy address : Bytes) (n : ℕ) (kind : AccountKind)
    → max_next entropy masters ≡ some n
    → IsKind c masters address kind
    → Below entropy n (origin masters kind)
origin-Below c masters entropy address n (derived master index) top (m, at, lt) = rw at below
  where
    below : (m.entropy ≢ entropy) ⊎ (index < n)
    below = elim (beq-cases m.entropy entropy) [
      | inl (same, test) ↦
          let (k, found, le) = max_next-upper entropy masters master m at test in
          let equal : k ≡ n = some-injective k n (sym found ∙ top) in inr (omega arith)
      | inr (other, test) ↦ inl other
    ]
origin-Below c masters entropy address n (imported keypair) top h = tt

entries-Below :
    (c : Crypto) (masters : List Master) (entropy : Bytes) (n : ℕ) (accounts : List Account)
    → max_next entropy masters ≡ some n
    → All (IsAccount c masters) accounts
    → All (λ (e : Entry). Below entropy n e.origin) (entries masters accounts)
entries-Below c masters entropy n [] top h = tt
entries-Below c masters entropy n (a ∷ rest) top h = (
  origin-Below c masters entropy a.pubkey n a.kind top h.0.2,
  entries-Below c masters entropy n rest top h.1,
)

-- Every copy of the phrase is moved to the same counter, and no other master.
counters :
    (entropy : Bytes) (n : ℕ) (masters : List Master)
    → n < 2147483648
    → All
        (λ (m : Master). (m.entropy ≢ entropy) ⊎ (m.next_index ≡ n + 1))
        (map (advance entropy n) masters)
counters entropy n [] lt = tt
counters entropy n (m ∷ rest) lt = (one, counters entropy n rest lt)
  where
    one : ((advance entropy n m).entropy ≢ entropy) ⊎ ((advance entropy n m).next_index ≡ n + 1)
    one = elim (beq-cases m.entropy entropy) [
      | inl (same, test) ↦ rw test (inr (omega arith))
      | inr (other, test) ↦ rw test (inl other)
    ]

-- One wallet more, at an index that the phrase has not had.
abbrev pub DerivesFresh : Crypto → Vault → Vault → Bytes → Bytes → Type 0
DerivesFresh c v v' name source =
    (from : Account) × (entropy : Bytes) × (old : ℕ) × (next : ℕ) × (key : Keypair) × (find_name
        source v.accounts
      ≡ some from)
    × (origin v.masters from.kind ≡ phrase_at entropy old)
    × (registry v'
        ≡ registry v
          ++ record { name = name; address = pubkey c.ed25519 key; origin = phrase_at entropy next }
            ∷ [])
    × (origin_key c (phrase_at entropy next) ≡ ok key)
    × All (λ (e : Entry). Below entropy next e.origin) (registry v)
    × All (λ (m : Master). (m.entropy ≢ entropy) ⊎ (m.next_index ≡ next + 1)) v'.masters

-- Deriving a wallet in a valid vault appends one wallet, with the phrase of its source at an index
-- above every index of that phrase in the vault, also where the phrase is stored more than once, and
-- with the address of the key there; afterwards all copies of the phrase have the counter behind it.
pub add_derived_fresh :
    (c : Crypto) (v v' : Vault) (name source : Bytes)
    → IsValid c v
    → add_derived c v name source ≡ ok v'
    → DerivesFresh c v v' name source
add_derived_fresh c v v' name source valid e =
    let (from, entropy, old, next, key, found, phrase, top, small, masters, signed, shape) =
      registry-add_derived c v v' name source valid e in
    (
      from,
      entropy,
      old,
      next,
      key,
      found,
      phrase,
      shape,
      signed,
      entries-Below c v.masters entropy next v.accounts top valid.accounts_valid,
      rw masters (counters entropy next v.masters small),
    )
