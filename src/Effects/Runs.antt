-- ===== src/Effects/Runs.antt =====
-- Runs of actions that returned.
use solx.Common.{ℕ, ◌+◌, ◌≡◌, refl, sym, ap, ok_inj, ◌∷◌, Result, ok, err, panicked}
use solx.Vault.Session.{Disk}
use solx.Effects.{
  Event, World, Effect, continue, result_of, ◌>>=◌, lift, pure, attempt, emit, answer, ask, App,
  access, the_app,
}

-- A run that returned a value.
abbrev pub Returns : {A : Type 0} → Effect A → World → A → World → Type 0
Returns action w a after = action w ≡ (ok a, after)

continue-Returns :
    {A B : Type 0} (first : Result A × World) (next : A → Effect B) {b : B} {after : World}
    → continue first next ≡ (ok b, after)
    → (a : A) × (between : World) × (first ≡ (ok a, between)) × Returns (next a) between b after
continue-Returns (ok a, w) next e = (a, w, refl, e)
continue-Returns (err message, w) next e = cc
continue-Returns (panicked, w) next e = cc

-- Inversion of a sequence that returned.
pub Returns->>= :
    {A B : Type 0} (first : Effect A) (next : A → Effect B) (w : World) {b : B} {after : World}
    → Returns (first >>= next) w b after
    → (a : A) × (between : World) × Returns first w a between × Returns (next a) between b after
unfolding ◌>>=◌
Returns->>= first next w e = continue-Returns (first w) next e

-- The same, for a conclusion that the two runs lead to: they stay variables in its proof.
pub Returns-split :
    {A B : Type 0} {P : Type 0} (first : Effect A) (next : A → Effect B) (w : World) {b : B}
    {after : World}
    → Returns (first >>= next) w b after
    → ((a : A) (between : World) → Returns first w a between → Returns (next a) between b after → P)
    → P
Returns-split first next w e k =
    let (a, between, e1, e2) = Returns->>= first next w e in k a between e1 e2

-- Inversion of the parts of a run that returned.
pub Returns-lift :
    {A : Type 0} (r : Result A) (w : World) {a : A} {after : World}
    → Returns (lift r) w a after
    → (r ≡ ok a) × (after ≡ w)
unfolding lift
Returns-lift r w e = (ap (λ p. p.0) e, sym (ap (λ p. p.1) e))

pub Returns-ask :
    {A : Type 0} (f : ℕ → Result A) (w : World) {a : A} {after : World}
    → Returns (ask f) w a after
    → (f w.moment ≡ ok a) × (after ≡ record w { moment = w.moment + 1 })
unfolding ask
Returns-ask f w e = (ap (λ p. p.0) e, sym (ap (λ p. p.1) e))

pub Returns-pure :
    {A : Type 0} (a : A) (w : World) {b : A} {after : World}
    → Returns (pure a) w b after
    → (a ≡ b) × (after ≡ w)
unfolding pure
Returns-pure a w e = (ok_inj (ap (λ p. p.0) e), sym (ap (λ p. p.1) e))

attempted :
    {A : Type 0} (r : Result A × World) {a : Result A} {after : World}
    → result_of r ≡ (ok a, after)
    → r ≡ (a, after)
attempted (ok x, w) e = λ i. (ok_inj (ap (λ p. p.0) e) i, ap (λ p. p.1) e i)
attempted (err message, w) e = λ i. (ok_inj (ap (λ p. p.0) e) i, ap (λ p. p.1) e i)
attempted (panicked, w) e = cc

-- The result that `attempt` hands on is the action's.
pub Returns-attempt :
    {A : Type 0} (action : Effect A) (w : World) {a : Result A} {after : World}
    → Returns (attempt action) w a after
    → action w ≡ (a, after)
unfolding attempt
Returns-attempt action w e = attempted (action w) e

pub Returns-emit :
    (event : Event) (w : World) {u : Unit {0}} {after : World}
    → Returns (emit event) w u after
    → after ≡ record w { log = event ∷ w.log }
unfolding emit
Returns-emit event w e = sym (ap (λ p. p.1) e)

pub Returns-answer :
    {A : Type 0} (f : ℕ → A) (w : World) {a : A} {after : World}
    → Returns (answer f) w a after
    → (f w.moment ≡ a) × (after ≡ record w { moment = w.moment + 1 })
unfolding answer
Returns-answer f w e = (ok_inj (ap (λ p. p.0) e), sym (ap (λ p. p.1) e))

pub Returns-access :
    {A : Type 0} (f : ℕ → Disk → Result A × Disk) (w : World) {a : A} {after : World}
    → Returns (access f) w a after
    → (after.moment ≡ w.moment + 1) × (after.app ≡ w.app)
unfolding access
Returns-access f w e = (ap (λ p. p.1.moment) (sym e), ap (λ p. p.1.app) (sym e))

pub Returns-the_app :
    (w : World) {app : App} {after : World}
    → Returns the_app w app after
    → (w.app ≡ app) × (after ≡ w)
unfolding the_app
Returns-the_app w e = (ok_inj (ap (λ p. p.0) e), sym (ap (λ p. p.1) e))
