-- ===== src/Vault/Registry/Remove/Position.antt =====
-- `position` and `Vec::remove` on the accounts of src/vault.rs.
use solx.Common.{
  ℕ, zero, suc, ◌≡◌, ◌≢◌, refl, inl, inr, Bool-cases, List, [], ◌∷◌, Bytes, All, get_elem?,
  erase_idx, some, arith,
}
use mathlib.Core.Path.{subst}
use solx.Common.Eq.{◌==◌, list_beq_iff, list_eq, nat_eq}
use solx.Vault.{Account, Master, find_name}
use solx.Vault.Edit.Remove.{position}
use solx.Vault.Valid.{Distinct}
use solx.Vault.Registry.{entries, remove_entry}

-- The account at the position of a name is the one that the name finds.
pub find_name-position :
    (name : Bytes) (accounts : List Account) (i : ℕ)
    → position name accounts ≡ some i
    → find_name name accounts ≡ get_elem? accounts i
unfolding position find_name
find_name-position name [] i e = refl
find_name-position name (a ∷ rest) zero e = elim (Bool-cases (a.name == name)) [
  | inl same ↦ rw same
  | inr other ↦ ground arith
]
find_name-position name (a ∷ rest) (suc i) e = ground (arith, find_name-position name rest i)

-- A stored name has a position.
pub position-find_name :
    (name : Bytes) (accounts : List Account) {a : Account}
    → find_name name accounts ≡ some a
    → (i : ℕ) × (position name accounts ≡ some i) × (get_elem? accounts i ≡ some a)
unfolding position find_name
position-find_name name [] e = cc
position-find_name name (b ∷ rest) e = elim (Bool-cases (b.name == name)) [
  | inl same ↦ (zero, rw same, rw same at e)
  | inr other ↦
      let (i, at, got) = position-find_name name rest (rw other at e) in
      (suc i, rw (other, at), got)
]

-- No other account has the name.
pub erase_idx-position :
    (name : Bytes) (accounts : List Account) (i : ℕ)
    → Distinct accounts
    → position name accounts ≡ some i
    → All (λ b. b.name ≢ name) (erase_idx accounts i)
unfolding position
erase_idx-position name [] i d e = cc
erase_idx-position name (a ∷ rest) zero d e =
    let same : a.name ≡ name = ground (arith, list_beq_iff a.name name) in
    subst (λ (n : Bytes). All (λ b. b.name ≢ n) rest) same d.0
erase_idx-position name (a ∷ rest) (suc i) d e =
    let differs : a.name ≢ name = ground (arith, list_beq_iff a.name name) in
    (differs, erase_idx-position name rest i d.1 (ground arith))

pub entries-erase_idx :
    (masters : List Master) (name : Bytes) (accounts : List Account) (i : ℕ)
    → position name accounts ≡ some i
    → entries masters (erase_idx accounts i) ≡ remove_entry name (entries masters accounts)
unfolding position remove_entry
entries-erase_idx masters name [] i e = refl
entries-erase_idx masters name (a ∷ rest) zero e = ground arith
entries-erase_idx masters name (a ∷ rest) (suc i) e =
    ground (arith, entries-erase_idx masters name rest i)

pub All-erase_idx {ℓ κ} :
    {A : Type ℓ} (P : A → Type κ) (xs : List A) (i : ℕ) → All P xs → All P (erase_idx xs i)
All-erase_idx P [] i h = tt
All-erase_idx P (x ∷ xs) zero h = h.1
All-erase_idx P (x ∷ xs) (suc i) h = (h.0, All-erase_idx P xs i h.1)
