-- ===== src/Commands/CloseAta/Candidates.antt =====
-- The accounts that `close-ata` of src/commands.rs selects.
use solx.Common.{
  ℕ, ◌≡◌, ◌≢◌, refl, sym, ap, ◌∙◌, ◌⊎◌, Bool, true, false, not, ◌&&◌, ◌||◌, List, [], ◌∷◌, ◌++◌,
  Bytes, All, All-append, if◌then◌else◌, arith,
}
use mathlib.Core.Path.{subst}
use solx.Common.Eq.{◌==◌, nat_eq, list_eq, eq_of_beq, beq_refl}
use solx.Vault.Session.{Crates}
use solx.Rpc.Values.{Chain}
use solx.Rpc.Connection.{Rpc}
use solx.Rpc.Responses.{TokenAccount}
use solx.Effects.{Env, World}
use solx.Effects.Runs.{Returns, Returns-split, Returns-pure}
use solx.Commands.Instructions.{token_program, token_2022, ata}
use solx.Commands.CloseAta.{
  CloseCandidate, CloseEligibility, eligible, non_empty, non_associated, Found, nothing_found,
  holds, close_eligibility, add_found, add_accounts, eligible_atas,
}

true-ne-false : true ≢ false
true-ne-false e = cc

or_left : {a : Bool} (b : Bool) → a ≡ true → (a || b) ≡ true
or_left b e = ground arith

or_right : (a : Bool) {b : Bool} → b ≡ true → (a || b) ≡ true
or_right a e = ground arith

spendable_lem :
    (amount : ℕ) (burn : Bool)
    → (not (amount == 0) && not burn) ≡ false
    → (amount ≡ 0) ⊎ (burn ≡ true)
spendable_lem amount burn e = ground arith

module _ (chain : Chain) (owner : Bytes) (burn : Bool) where
  -- The associated account of the owner for the mint; it is empty, unless tokens may be burnt.
  pub record IsCandidate (c : CloseCandidate) : Type 0 where
    pub associated : c.address ≡ ata chain owner c.mint c.program
    pub spendable : (c.raw_amount ≡ 0) ⊎ (burn ≡ true)

  abbrev pub HasAddress : Bytes → CloseCandidate → Type 0
  HasAddress address c = c.address ≢ address

  -- No account stands there twice.
  abbrev pub IsUnique : List CloseCandidate → Type 0
  IsUnique [] = Unit
  IsUnique (c ∷ candidates) = All (HasAddress c.address) candidates × IsUnique candidates

  IsUnique-append :
      (candidates : List CloseCandidate) (c : CloseCandidate)
      → All (HasAddress c.address) candidates
      → IsUnique candidates
      → IsUnique (candidates ++ c ∷ [])
  IsUnique-append [] c new unique = (tt, tt)
  IsUnique-append (d ∷ candidates) c (first, new) (others, unique) = (
    All-append (HasAddress d.address) candidates (c ∷ []) others ((λ e. first (sym e)), tt),
    IsUnique-append candidates c new unique,
  )

  abbrev IsSeen : List Bytes → CloseCandidate → Type 0
  IsSeen seen c = holds seen c.address ≡ true

  record IsFound (found : Found) : Type 0 where
    candidates : All IsCandidate found.candidates
    unique : IsUnique found.candidates
    kept : All (IsSeen found.seen) found.candidates

  unseen :
      (seen : List Bytes) (address : Bytes) (candidates : List CloseCandidate)
      → holds seen address ≡ false
      → All (IsSeen seen) candidates
      → All (HasAddress address) candidates
  unseen seen address [] new kept = tt
  unseen seen address (c ∷ candidates) new (old, kept) = (
    (λ same. true-ne-false (sym old ∙ ap (holds seen) same ∙ new)),
    unseen seen address candidates new kept,
  )

  IsSeen-more :
      (seen : List Bytes) (address : Bytes) (candidates : List CloseCandidate)
      → All (IsSeen seen) candidates
      → All (IsSeen (address ∷ seen)) candidates
  IsSeen-more seen address [] kept = tt
  IsSeen-more seen address (c ∷ candidates) (old, kept) =
      (or_right (address == c.address) old, IsSeen-more seen address candidates kept)

  add_at :
      (found : Found) (c : CloseCandidate) (known : Bool)
      → holds found.seen c.address ≡ known
      → IsCandidate c
      → IsFound found
      → IsFound (
          if known then found else record found {
            candidates = found.candidates ++ c ∷ [];
            seen = c.address ∷ found.seen;
          })
  add_at found c true e good before = before
  add_at found c false e good before = record {
    candidates = All-append IsCandidate found.candidates (c ∷ []) before.candidates (good, tt);
    unique =
        IsUnique-append found.candidates c
          (unseen found.seen c.address found.candidates e before.kept) before.unique;
    kept =
        All-append (IsSeen (c.address ∷ found.seen)) found.candidates (c ∷ [])
          (IsSeen-more found.seen c.address found.candidates before.kept)
          (or_left (holds found.seen c.address) (beq_refl c.address), tt);
  }

  -- An account that is found eligible is a candidate.
  abbrev IsEligible : CloseEligibility → Type 0
  IsEligible (eligible c) = IsCandidate c
  IsEligible non_empty = Unit
  IsEligible non_associated = Unit

  eligible_at :
      (program : Bytes) (account : TokenAccount) (same empty : Bool)
      → (account.address == ata chain owner account.mint program) ≡ same
      → (not (account.raw_amount == 0) && not burn) ≡ empty
      → IsEligible (
          if not same
          then non_associated
          else (if empty
              then non_empty
              else eligible (record {
                mint = account.mint;
                address = account.address;
                program = program;
                raw_amount = account.raw_amount;
                decimals = account.decimals;
              })))
  eligible_at program account false empty e f = tt
  eligible_at program account true true e f = tt
  eligible_at program account true false e f = record {
    associated = eq_of_beq e;
    spendable = spendable_lem account.raw_amount burn f;
  }

  close_eligibility-IsEligible :
      (program : Bytes) (account : TokenAccount)
      → IsEligible (close_eligibility chain owner program account burn)
  unfolding close_eligibility
  close_eligibility-IsEligible program account = eligible_at program account _ _ refl refl

  add_found-IsFound :
      (found : Found) (e : CloseEligibility)
      → IsEligible e
      → IsFound found
      → IsFound (add_found chain found e)
  add_found-IsFound found (eligible c) good before = add_at found c _ refl good before
  add_found-IsFound found non_empty good before = record {
    candidates = before.candidates;
    unique = before.unique;
    kept = before.kept;
  }
  add_found-IsFound found non_associated good before = record {
    candidates = before.candidates;
    unique = before.unique;
    kept = before.kept;
  }

  add_accounts-IsFound :
      (program : Bytes) (accounts : List TokenAccount) (found : Found)
      → IsFound found
      → IsFound (add_accounts chain owner program burn found accounts)
  unfolding add_accounts
  add_accounts-IsFound program [] found before = before
  add_accounts-IsFound program (account ∷ accounts) found before =
      add_accounts-IsFound program accounts
        (add_found chain found (close_eligibility chain owner program account burn))
        (add_found-IsFound found _ (close_eligibility-IsEligible program account) before)

  nothing-IsFound : IsFound nothing_found
  nothing-IsFound = record { candidates = tt; unique = tt; kept = tt }

  pub eligible_atas-IsCandidate :
      (env : Env) (crates : Crates) (client : Rpc) (w after : World) (found : Found)
      → Returns (eligible_atas env crates chain client owner burn) w found after
      → All IsCandidate found.candidates × IsUnique found.candidates
  unfolding eligible_atas
  eligible_atas-IsCandidate env crates client w after found e =
      Returns-split _ _ _ e (λ legacy w1 e1 r1. Returns-split _ _ _ r1 (λ newer w2 e2 r2.
        let all =
          add_accounts-IsFound (token_2022 chain) newer _
            (add_accounts-IsFound (token_program chain) legacy nothing_found nothing-IsFound) in
        subst (λ (f : Found). All IsCandidate f.candidates × IsUnique f.candidates)
          (Returns-pure _ w2 r2).0 (all.candidates, all.unique)))
