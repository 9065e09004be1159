-- ===== src/Effects/Keeps.antt =====
-- Actions that leave a part of the state as it is, and those that send one transaction.
use solx.Common.{
  ℕ, ◌≡◌, refl, ap, ◌∙◌, Bool, true, false, List, [], ◌∷◌, Result, ok, err, panicked, if◌then◌else◌,
}
use solx.Config.{Config}
use solx.Effects.{
  Doc, Method, send_transaction, Event, request, preview, question, reveal, World, Effect, continue,
  result_of, ◌>>=◌, lift, pure, attempt, emit, answer, ask,
}

-- The transactions that were sent, the newest first: the parameters of `sendTransaction`.
abbrev pub sent_of : Method → Doc → List Doc → List Doc
sent_of send_transaction params rest = params ∷ rest
sent_of _ params rest = rest

unfoldable pub sent : List Event → List Doc
sent [] = []
sent (request method params timeout ∷ log) = sent_of method params (sent log)
sent (preview fee rent amount ∷ log) = sent log
sent (question prompt ∷ log) = sent log
sent (reveal secret ∷ log) = sent log

-- An action that leaves a part of the state as it is, whatever its result.
pub record Keeps {X : Type 0} (view : World → X) {A : Type 0} (action : Effect A) : Type 0 where
  pub at : (w : World) → view (action w).1 ≡ view w

-- What the commands leave as it is but for a submission: the transactions that were sent, and the
-- settings.
abbrev pub submissions : World → List Doc
submissions w = sent w.log

abbrev pub outward : World → List Doc × Config
outward w = (sent w.log, w.app.config)

-- An action that sends no transaction.
abbrev pub Quiet : {A : Type 0} → Effect A → Type 0
Quiet action = Keeps submissions action

-- An action that sends no transaction and keeps the settings.
abbrev pub Silent : {A : Type 0} → Effect A → Type 0
Silent action = Keeps outward action

pub Silent-Quiet : {A : Type 0} {action : Effect A} → Silent action → Quiet action
Silent-Quiet q = record { at = λ w. ap (λ p. p.0) (q.at w) }

-- An action that keeps the settings.
abbrev pub settings : World → Config
settings w = w.app.config

pub Silent-settings : {A : Type 0} {action : Effect A} → Silent action → Keeps settings action
Silent-settings q = record { at = λ w. ap (λ p. p.1) (q.at w) }

pub Keeps-emit : (event : Event) → Keeps settings (emit event)
unfolding emit
Keeps-emit event = record { at = λ w. refl }

pub Silent-config :
    {A : Type 0} {action : Effect A}
    → Silent action
    → (w : World) → (action w).1.app.config ≡ w.app.config
Silent-config q w = ap (λ p. p.1) (q.at w)

pub result_of_view :
    {X A : Type 0} (view : World → X) (r : Result A × World) → view (result_of r).1 ≡ view r.1
result_of_view view (ok a, w) = refl
result_of_view view (err message, w) = refl
result_of_view view (panicked, w) = refl

module _ {X : Type 0} {view : World → X} where
  module _ {A : Type 0} where
    pub Keeps-lift : (r : Result A) → Keeps view (lift r)
    unfolding lift
    Keeps-lift r = record { at = λ w. refl }

    pub Keeps-pure : (a : A) → Keeps view (pure a)
    unfolding pure
    Keeps-pure a = record { at = λ w. refl }

    pub Keeps-attempt : (action : Effect A) → Keeps view action → Keeps view (attempt action)
    unfolding attempt
    Keeps-attempt action q = record { at = λ w. result_of_view view (action w) ∙ q.at w }

    pub Keeps-if :
        (test : Bool) {yes_action no_action : Effect A}
        → Keeps view yes_action
        → Keeps view no_action
        → Keeps view (if test then yes_action else no_action)
    Keeps-if true q r = q
    Keeps-if false q r = r

  Keeps-continue :
      {A B : Type 0} (r : Result A) (w : World) (next : A → Effect B)
      → ((a : A) → Keeps view (next a))
      → view (continue (r, w) next).1 ≡ view w
  Keeps-continue (ok a) w next q = (q a).at w
  Keeps-continue (err message) w next q = refl
  Keeps-continue panicked w next q = refl

  pub Keeps->>= :
      {A B : Type 0} {first : Effect A} {next : A → Effect B}
      → Keeps view first
      → ((a : A) → Keeps view (next a))
      → Keeps view (first >>= next)
  unfolding ◌>>=◌
  Keeps->>= {first} {next} q r = record {
    at = λ w. Keeps-continue (first w).0 (first w).1 next r ∙ q.at w;
  }

pub Silent-answer : {A : Type 0} (f : ℕ → A) → Silent (answer f)
unfolding answer
Silent-answer f = record { at = λ w. refl }

pub Silent-ask : {A : Type 0} (f : ℕ → Result A) → Silent (ask f)
unfolding ask
Silent-ask f = record { at = λ w. refl }

-- An action that sends one transaction, whatever its result.
pub record Sends (params : Doc) {A : Type 0} (action : Effect A) : Type 0 where
  pub at : (w : World) → sent (action w).1.log ≡ params ∷ sent w.log

pub Sends->>= :
    {A B : Type 0} {params : Doc} {first : Effect A} {next : A → Effect B}
    → Sends params first
    → ((a : A) → Quiet (next a))
    → Sends params (first >>= next)
unfolding ◌>>=◌
Sends->>= {first} {next} q r = record {
  at = λ w. Keeps-continue {view = submissions} (first w).0 (first w).1 next r ∙ q.at w;
}

pub Sends-request :
    (params : Doc) (timeout : ℕ) → Sends params (emit (request send_transaction params timeout))
unfolding sent emit
Sends-request params timeout = record { at = λ w. refl }

pub Sends-attempt :
    {A : Type 0} {params : Doc} {action : Effect A}
    → Sends params action
    → Sends params (attempt action)
unfolding attempt
Sends-attempt {action} q = record { at = λ w. result_of_view submissions (action w) ∙ q.at w }
