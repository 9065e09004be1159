-- ===== src/Vault/Public.antt =====
-- `PublicVault` of src/vault.rs: the names, addresses and recipients, without the secrets.
use solx.Common.{
  Bool, ◌||◌, List, [], ◌∷◌, Bytes, ◌≡◌, refl, ap, any, map, Option, none, some, Result, ok_or,
  if◌then◌else◌,
}
use solx.Common.Eq.{◌==◌, nat_eq, list_eq}
use solx.Vault.{
  Vault, Account, PublicAccount, PublicVault, public_account, public_snapshot, contains, has_name,
}

unfoldable pub has_public : PublicVault → Bytes → Bool
has_public v name = any (λ a. a.name == name) v.accounts

abbrev pub first_named : List PublicAccount → Bytes → Option PublicAccount
first_named [] name = none
first_named (a ∷ accounts) name = if a.name == name then some a else first_named accounts name

unfoldable pub find_public : PublicVault → Bytes → Result PublicAccount
find_public v name = ok_or (first_named v.accounts name) "unknown wallet"

abbrev pub first_public : List PublicAccount → Option Bytes
first_public [] = none
first_public (a ∷ accounts) = some a.name

abbrev pub or_else : Option Bytes → Option Bytes → Option Bytes
or_else none other = other
or_else (some name) other = some name

unfoldable pub name_or_first : PublicVault → Option Bytes → Result Bytes
name_or_first v name = ok_or (or_else name (first_public v.accounts)) "vault has no accounts"

unfoldable pub knows_recipient : PublicVault → Bytes → Bool
knows_recipient v key = any (λ p. p == key) v.recipients

any-public :
    (accounts : List Account) (name : Bytes)
    → any (λ a. a.name == name) (map public_account accounts) ≡ has_name name accounts
unfolding has_name
any-public [] name = refl
any-public (a ∷ accounts) name = ap (λ b. a.name == name || b) (any-public accounts name)

-- The public view knows the same wallets as the vault.
pub has_public-public_snapshot :
    (v : Vault) (name : Bytes) → has_public (public_snapshot v) name ≡ contains v name
unfolding has_public public_snapshot contains
has_public-public_snapshot v name = any-public v.accounts name
