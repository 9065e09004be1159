-- ===== src/Effects/Counts.antt =====
-- Actions that make at most so many requests.
use solx.Common.{
  ℕ, ◌+◌, ◌≤◌, ◌≡◌, refl, arith, Bool, true, false, List, [], ◌∷◌, Result, ok, err, panicked,
  if◌then◌else◌,
}
use solx.Effects.{
  Event, request, preview, question, reveal, World, Effect, continue, result_of, ◌>>=◌, lift, pure,
  attempt, answer, ask,
}

-- The number of requests that were made.
unfoldable pub requests : List Event → ℕ
requests [] = 0
requests (request method params timeout ∷ log) = requests log + 1
requests (preview fee rent amount ∷ log) = requests log
requests (question prompt ∷ log) = requests log
requests (reveal secret ∷ log) = requests log

-- An action that makes at most `n` requests, whatever its result.
pub record Within (n : ℕ) {A : Type 0} (action : Effect A) : Type 0 where
  pub at : (w : World) → requests (action w).1.log ≤ requests w.log + n

module _ {A : Type 0} (n : ℕ) where
  pub Within-lift : (r : Result A) → Within n (lift r)
  unfolding lift
  Within-lift r = record { at = λ w. omega arith }

  pub Within-pure : (a : A) → Within n (pure a)
  unfolding pure
  Within-pure a = record { at = λ w. omega arith }

  pub Within-answer : (f : ℕ → A) → Within n (answer f)
  unfolding answer
  Within-answer f = record { at = λ w. omega arith }

  pub Within-ask : (f : ℕ → Result A) → Within n (ask f)
  unfolding ask
  Within-ask f = record { at = λ w. omega arith }

  pub Within-if :
      (test : Bool) {yes_action no_action : Effect A}
      → Within n yes_action
      → Within n no_action
      → Within n (if test then yes_action else no_action)
  Within-if true q r = q
  Within-if false q r = r

Within-continue :
    {A B : Type 0} (n : ℕ) (r : Result A) (w : World) (next : A → Effect B)
    → ((a : A) → Within n (next a))
    → requests (continue (r, w) next).1.log ≤ requests w.log + n
Within-continue n (ok a) w next q = (q a).at w
Within-continue n (err message) w next q = omega arith
Within-continue n panicked w next q = omega arith

pub Within->>= :
    {A B : Type 0} {first : Effect A} {next : A → Effect B} (m n : ℕ) {k : ℕ}
    → Within m first
    → ((a : A) → Within n (next a))
    → m + n ≤ k
    → Within k (first >>= next)
unfolding ◌>>=◌
Within->>= {first} {next} m n q r few = record {
  at = λ w. omega (arith, few, q.at w, Within-continue n (first w).0 (first w).1 next r);
}

requests-result_of :
    {A : Type 0} (r : Result A × World) → requests (result_of r).1.log ≡ requests r.1.log
requests-result_of (ok a, w) = refl
requests-result_of (err message, w) = refl
requests-result_of (panicked, w) = refl

pub Within-attempt :
    {A : Type 0} (n : ℕ) {action : Effect A} → Within n action → Within n (attempt action)
unfolding attempt
Within-attempt n {action} q = record {
  at = λ w. omega (arith, q.at w, requests-result_of (action w));
}
