-- ===== src/Vault/Valid/Lookup.antt =====
-- Lemmas on the lookups of src/vault.rs: by name, and by the position of a master.
use solx.Common.{
  ℕ, zero, suc, ◌≡◌, ◌≢◌, refl, sym, ap, inl, inr, false, List, [], ◌∷◌, ◌++◌, map, Bytes, All,
  All-append, length, get_elem?, some, arith, Bool-cases,
}
use mathlib.Core.Option.{some-injective, none-ne-some}
use mathlib.Core.Path.{subst}
use solx.Common.Eq.{◌==◌, nat_eq, list_eq, list_beq_iff}
use solx.Vault.{Account, has_name, find_name}
use solx.Vault.Valid.{Distinct}

module _ {ℓ} {A : Type ℓ} where
  pub get_elem?-append :
      (xs ys : List A) (i : ℕ) {x : A} → get_elem? xs i ≡ some x → get_elem? (xs ++ ys) i ≡ some x
  get_elem?-append [] ys i e = cc
  get_elem?-append (x ∷ xs) ys zero e = e
  get_elem?-append (x ∷ xs) ys (suc i) e = get_elem?-append xs ys i e

  pub get_elem?-end : (xs : List A) (x : A) → get_elem? (xs ++ x ∷ []) (length xs) ≡ some x
  get_elem?-end [] x = refl
  get_elem?-end (y ∷ xs) x = get_elem?-end xs x

module _ {ℓ κ} {A : Type ℓ} {B : Type κ} where
  pub get_elem?-map :
      (f : A → B) (xs : List A) (i : ℕ) {x : A}
      → get_elem? xs i ≡ some x
      → get_elem? (map f xs) i ≡ some (f x)
  get_elem?-map f [] i e = cc
  get_elem?-map f (x ∷ xs) zero e = cc
  get_elem?-map f (x ∷ xs) (suc i) e = get_elem?-map f xs i e

  pub length-map : (f : A → B) (xs : List A) → length (map f xs) ≡ length xs
  length-map f [] = refl
  length-map f (x ∷ xs) = ap suc (length-map f xs)

pub All-map {ℓ κ} :
    {A : Type ℓ} {P Q : A → Type κ} (h : (x : A) → P x → Q x) (xs : List A) → All P xs → All Q xs
All-map h [] a = tt
All-map h (x ∷ xs) a = (h x a.0, All-map h xs a.1)

pub All-map-map {ℓ κ} :
    {A : Type ℓ} {P : A → Type κ} (f : A → A) (h : (x : A) → P x → P (f x)) (xs : List A)
    → All P xs
    → All P (map f xs)
All-map-map f h [] a = tt
All-map-map f h (x ∷ xs) a = (h x a.0, All-map-map f h xs a.1)

-- `contains` is false exactly for names that no account has.
pub has_name-false :
    (name : Bytes) (accs : List Account)
    → has_name name accs ≡ false
    → All (λ b. b.name ≢ name) accs
unfolding has_name
has_name-false name [] h = tt
has_name-false name (a ∷ accs) h =
    (ground (arith, list_beq_iff a.name name), has_name-false name accs (ground arith))

pub Distinct-append :
    (accs : List Account) (a : Account)
    → Distinct accs
    → All (λ b. b.name ≢ a.name) accs
    → Distinct (accs ++ a ∷ [])
Distinct-append [] a d h = (tt, tt)
Distinct-append (b ∷ accs) a d h =
    (All-append _ accs (a ∷ []) d.0 ((λ e. h.0 (sym e)), tt), Distinct-append accs a d.1 h.1)

-- The account that a successful lookup returns has the name, and is one of the accounts.
pub find_name-name :
    (name : Bytes) (accs : List Account) {a : Account}
    → find_name name accs ≡ some a
    → a.name ≡ name
unfolding find_name
find_name-name name [] e = cc
find_name-name name (b ∷ accs) {a} e =
    ground (arith, list_beq_iff b.name name, find_name-name name accs {a = a})

pub All-find_name {κ} :
    (P : Account → Type κ) (name : Bytes) (accs : List Account) {a : Account}
    → All P accs
    → find_name name accs ≡ some a
    → P a
unfolding find_name
All-find_name P name [] h e = absurd (none-ne-some _ e)
All-find_name P name (b ∷ accs) {a} h e = elim (Bool-cases (b.name == name)) [
  | inl same ↦ subst P (some-injective _ _ (rw same at e)) h.0
  | inr other ↦ All-find_name P name accs h.1 (rw other at e)
]
