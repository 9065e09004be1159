-- ===== src/Vault/Registry/Erase.antt =====
-- The loop of `remove_account` in src/vault.rs that erases every copy of a phrase, from the last
-- master to the first, and renumbers the accounts as it goes.
use solx.Common.{
  ℕ, zero, suc, ◌-◌, ◌≤◌, ◌<◌, ◌≡◌, ◌≢◌, refl, sym, ap, ◌∙◌, inl, inr, Bool-cases, Bool, true,
  false, List, [], ◌∷◌, ◌++◌, map, append-nil, Bytes, All, take, drop, get_elem?, erase_idx, some,
  ltb, if◌then◌else◌, arith, append_assoc, ge→ltb,
}
use mathlib.Core.Option.{some-injective}
use solx.Common.Eq.{list_beq_iff, list_eq, nat_eq}
use solx.Vault.{Master, Account, AccountKind, derived, imported}
use solx.Vault.Edit.{same_phrase}
use solx.Vault.Edit.Remove.{renumber_kind, renumber, flagged, erase_at, erase_masters}
use solx.Vault.Registry.{Origin, phrase_at, secret_key, dangling, phrase_origin, origin, entries}

pred_suc : (n : ℕ) → suc n - 1 ≡ n
pred_suc n = omega arith

module _ {ℓ} {A : Type ℓ} where
  pub get_elem?-erase_idx_lt :
      (xs : List A) (i j : ℕ) → j < i → get_elem? (erase_idx xs i) j ≡ get_elem? xs j
  get_elem?-erase_idx_lt [] i j h = refl
  get_elem?-erase_idx_lt (x ∷ xs) zero j h = absurd (omega arith)
  get_elem?-erase_idx_lt (x ∷ xs) (suc i) zero h = refl
  get_elem?-erase_idx_lt (x ∷ xs) (suc i) (suc j) h = get_elem?-erase_idx_lt xs i j (omega arith)

  get_elem?-erase_idx_ge :
      (xs : List A) (i j : ℕ) → i ≤ j → get_elem? (erase_idx xs i) j ≡ get_elem? xs (suc j)
  get_elem?-erase_idx_ge [] i j h = refl
  get_elem?-erase_idx_ge (x ∷ xs) zero j h = refl
  get_elem?-erase_idx_ge (x ∷ xs) (suc i) zero h = absurd (omega arith)
  get_elem?-erase_idx_ge (x ∷ xs) (suc i) (suc j) h = get_elem?-erase_idx_ge xs i j (omega arith)

  -- The renumbered reference finds what the old one found.
  pub get_elem?-renumbered :
      (xs : List A) (i j : ℕ)
      → j ≢ i
      → get_elem? (erase_idx xs i) (if ltb i j then j - 1 else j) ≡ get_elem? xs j
  get_elem?-renumbered xs i zero h =
      rw (ge→ltb i zero (omega arith)) (get_elem?-erase_idx_lt xs i zero (ground arith))
  get_elem?-renumbered xs i (suc j) h = elim (Bool-cases (ltb i (suc j))) [
    | inl above ↦ rw (above, pred_suc j) (get_elem?-erase_idx_ge xs i j (ground arith))
    | inr below ↦ rw below (get_elem?-erase_idx_lt xs i (suc j) (ground arith))
  ]

  take-erase_idx : (xs : List A) (i : ℕ) → take i (erase_idx xs i) ≡ take i xs
  take-erase_idx [] zero = refl
  take-erase_idx [] (suc i) = refl
  take-erase_idx (x ∷ xs) zero = refl
  take-erase_idx (x ∷ xs) (suc i) = ap (λ l. x ∷ l) (take-erase_idx xs i)

  drop-erase_idx : (xs : List A) (i : ℕ) → drop i (erase_idx xs i) ≡ drop (suc i) xs
  drop-erase_idx [] zero = refl
  drop-erase_idx [] (suc i) = refl
  drop-erase_idx (x ∷ xs) zero = refl
  drop-erase_idx (x ∷ xs) (suc i) = drop-erase_idx xs i

  split_at :
      (xs : List A) (i : ℕ) {x : A}
      → get_elem? xs i ≡ some x
      → (take (suc i) xs ≡ take i xs ++ x ∷ []) × (drop i xs ≡ x ∷ drop (suc i) xs)
  split_at [] i e = cc
  split_at (y ∷ xs) zero e = let same = some-injective _ _ e in (rw same, rw same)
  split_at (y ∷ xs) (suc i) e = let (front, back) = split_at xs i e in (ap (λ l. y ∷ l) front, back)

-- The masters that do not hold the phrase.
unfoldable pub without_phrase : Bytes → List Master → List Master
without_phrase target [] = []
without_phrase target (m ∷ rest) =
    if same_phrase target m then without_phrase target rest else m ∷ without_phrase target rest

without_phrase-append :
    (target : Bytes) (xs ys : List Master)
    → without_phrase target (xs ++ ys) ≡ without_phrase target xs ++ without_phrase target ys
unfolding without_phrase
without_phrase-append target [] ys = refl
without_phrase-append target (m ∷ xs) ys = elim (Bool-cases (same_phrase target m)) [
  | inl same ↦ rw same (without_phrase-append target xs ys)
  | inr other ↦ rw other (ap (λ l. m ∷ l) (without_phrase-append target xs ys))
]

abbrev pub Uses : Bytes → Origin → Type 0
Uses target (phrase_at entropy index) = entropy ≡ target
Uses target (secret_key keypair) = ⊥
Uses target dangling = ⊥

-- No account uses the phrase.
abbrev pub Unused : Bytes → List Master → List Account → Type 0
Unused target masters accounts = All (λ a. ¬ Uses target (origin masters a.kind)) accounts

-- The flags of the masters before position `k` say which of them hold the phrase.
abbrev pub Marks : Bytes → List Bool → ℕ → List Master → Type 0
Marks target flags k masters =
    (j : ℕ)
    → j < k
    → (m : Master) × (get_elem? masters j ≡ some m) × (flagged flags j ≡ same_phrase target m)

module _ (target : Bytes) (masters : List Master) (i : ℕ) (m : Master)
    (at : get_elem? masters i ≡ some m) (holds : m.entropy ≡ target) where
  -- Erasing a master that holds the phrase leaves the origin of an account that does not use it.
  origin-renumber :
      (kind : AccountKind)
      → ¬ Uses target (origin masters kind)
      → origin (erase_idx masters i) (renumber_kind i kind) ≡ origin masters kind
  origin-renumber (imported keypair) h = refl
  origin-renumber (derived j index) h =
      ap (λ o. phrase_origin o index) (get_elem?-renumbered masters i j differs)
    where
      differs : j ≢ i
      differs e = h (rw (e, at) holds)

  entries-erase_at :
      (accounts : List Account)
      → Unused target masters accounts
      → entries (erase_idx masters i) (map (renumber i) accounts) ≡ entries masters accounts
  entries-erase_at [] h = refl
  entries-erase_at (a ∷ rest) h = rw (origin-renumber a.kind h.0, entries-erase_at rest h.1)

  pub Unused-erase_at :
      (accounts : List Account)
      → Unused target masters accounts
      → Unused target (erase_idx masters i) (map (renumber i) accounts)
  Unused-erase_at [] h = tt
  Unused-erase_at (a ∷ rest) h = (rw (origin-renumber a.kind h.0) h.0, Unused-erase_at rest h.1)

pub Marks-erase_at :
    (target : Bytes) (flags : List Bool) (i : ℕ) (masters : List Master)
    → Marks target flags (suc i) masters
    → Marks target flags i (erase_idx masters i)
Marks-erase_at target flags i masters marks j lt =
    let (m, at, flag) = marks j (omega arith) in
    (m, get_elem?-erase_idx_lt masters i j lt ∙ at, flag)

pub Marks-down :
    (target : Bytes) (flags : List Bool) (i : ℕ) (masters : List Master)
    → Marks target flags (suc i) masters
    → Marks target flags i masters
Marks-down target flags i masters marks j lt = marks j (omega arith)

module _ (flags : List Bool) (i : ℕ) (masters : List Master) (accounts : List Account) where
  pub erase_masters-flagged :
      flagged flags i ≡ true
      → erase_masters flags (suc i) (masters, accounts)
        ≡ erase_masters flags i (erase_idx masters i, map (renumber i) accounts)
  unfolding erase_masters
  erase_masters-flagged e =
      ap
        (λ b.
          erase_masters flags i (if b then erase_at i (masters, accounts) else (masters, accounts)))
        e

  pub erase_masters-kept :
      flagged flags i ≡ false
      → erase_masters flags (suc i) (masters, accounts) ≡ erase_masters flags i (masters, accounts)
  unfolding erase_masters
  erase_masters-kept e =
      ap
        (λ b.
          erase_masters flags i (if b then erase_at i (masters, accounts) else (masters, accounts)))
        e

-- Every master of the first `k` that is flagged holds the phrase, so the loop keeps all entries.
pub entries-erase_masters :
    (target : Bytes) (flags : List Bool) (k : ℕ) (masters : List Master) (accounts : List Account)
    → Marks target flags k masters
    → Unused target masters accounts
    → (let after = erase_masters flags k (masters, accounts) in
        entries after.0 after.1 ≡ entries masters accounts)
entries-erase_masters target flags zero masters accounts marks unused = unfold erase_masters in refl
entries-erase_masters target flags (suc i) masters accounts marks unused =
    let (m, at, flag) = marks i (omega arith) in
    elim (Bool-cases (flagged flags i)) [
      | inl erased ↦
          let holds : m.entropy ≡ target = (list_beq_iff m.entropy target).0 (sym flag ∙ erased) in
          rw (erase_masters-flagged flags i masters accounts erased) (
            entries-erase_masters target flags i (erase_idx masters i) (map (renumber i) accounts)
              (Marks-erase_at target flags i masters marks)
              (Unused-erase_at target masters i m at holds accounts unused)
            ∙ entries-erase_at target masters i m at holds accounts unused)
      | inr kept ↦ rw (erase_masters-kept flags i masters accounts kept) (
          entries-erase_masters target flags i masters accounts
            (Marks-down target flags i masters marks) unused)
    ]

-- The masters that are left are those that do not hold the phrase, in their order.
pub masters-erase_masters :
    (target : Bytes) (flags : List Bool) (k : ℕ) (masters : List Master) (accounts : List Account)
    → Marks target flags k masters
    → (erase_masters flags k (masters, accounts)).0
      ≡ without_phrase target (take k masters) ++ drop k masters
unfolding without_phrase
masters-erase_masters target flags zero masters accounts marks = unfold erase_masters in refl
masters-erase_masters target flags (suc i) masters accounts marks =
    let (m, at, flag) = marks i (omega arith) in
    let (front, back) = split_at masters i at in
    elim (Bool-cases (flagged flags i)) [
      | inl erased ↦ rw (erase_masters-flagged flags i masters accounts erased) (
          masters-erase_masters target flags i (erase_idx masters i) (map (renumber i) accounts)
            (Marks-erase_at target flags i masters marks)
          ∙ rw (
            take-erase_idx masters i,
            drop-erase_idx masters i,
            front,
            without_phrase-append target (take i masters) (m ∷ []),
            sym flag ∙ erased,
            append-nil (without_phrase target (take i masters)),
          ))
      | inr kept ↦ rw (erase_masters-kept flags i masters accounts kept) (
          masters-erase_masters target flags i masters accounts
            (Marks-down target flags i masters marks)
          ∙ rw (
            back,
            front,
            without_phrase-append target (take i masters) (m ∷ []),
            sym flag ∙ kept,
            append_assoc (without_phrase target (take i masters)) (m ∷ []) (drop (suc i) masters),
          ))
    ]

-- No flag, no change.
pub erase_masters-none :
    (flags : List Bool) (k : ℕ) (state : List Master × List Account)
    → ((j : ℕ) → flagged flags j ≡ false)
    → erase_masters flags k state ≡ state
unfolding erase_masters
erase_masters-none flags zero state h = refl
erase_masters-none flags (suc i) state h = rw (h i) (erase_masters-none flags i state h)
