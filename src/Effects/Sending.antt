-- ===== src/Effects/Sending.antt =====
-- Actions that send at most one transaction, and what is known of it.
use solx.Common.{ℕ, ◌≡◌, refl, sym, ap, ◌∙◌, ◌⊎◌, inl, inr, List, ◌∷◌, Result, ok, err, panicked}
use solx.Effects.{
  Doc, preview, question, App, World, Effect, continue, ◌>>=◌, lift, emit, the_app, update_app,
  access,
}
use solx.Config.{Config}
use solx.Vault.Session.{Disk}
use solx.Effects.Runs.{Returns}
use solx.Effects.Keeps.{sent, Quiet, Sends, Silent, Silent-Quiet, Silent-config}

pub Silent-the_app : Silent the_app
unfolding the_app
Silent-the_app = record { at = λ w. refl }

pub Silent-update_app :
    (f : App → App) → ((app : App) → (f app).config ≡ app.config) → Silent (update_app f)
unfolding update_app
Silent-update_app f same = record { at = λ w. λ i. (sent w.log, same w.app i) }

pub Silent-access : {A : Type 0} (f : ℕ → Disk → Result A × Disk) → Silent (access f)
unfolding access
Silent-access f = record { at = λ w. refl }

pub Silent-preview : (fee rent : ℕ) (amount : _) → Silent (emit (preview fee rent amount))
unfolding sent emit
Silent-preview fee rent amount = record { at = λ w. refl }

pub Silent-question : (prompt : _) → Silent (emit (question prompt))
unfolding sent emit
Silent-question prompt = record { at = λ w. refl }

-- The transactions after a run are those before it, or one more, with these parameters.
abbrev pub Grows : (Doc → Type 0) → List Doc → List Doc → Type 0
Grows P after before = (after ≡ before) ⊎ ((params : Doc) × P params × (after ≡ params ∷ before))

abbrev pub OnlySends : (Doc → Type 0) → {A : Type 0} → Effect A → World → Type 0
OnlySends P action w = Grows P (sent (action w).1.log) (sent w.log)

module _ (P : Doc → Type 0) where
  pub Sends-OnlySends :
      {A : Type 0} {action : Effect A} (params : Doc)
      → P params
      → Sends params action
      → (w : World) → OnlySends P action w
  Sends-OnlySends params known q w = inr (params, known, q.at w)

  pub Quiet-OnlySends :
      {A : Type 0} {action : Effect A} → Quiet action → (w : World) → OnlySends P action w
  Quiet-OnlySends q w = inl (q.at w)

  moved : {after mid before : List Doc} → mid ≡ before → Grows P after mid → Grows P after before
  moved same (inl quiet) = inl (quiet ∙ same)
  moved same (inr (params, known, sends)) =
      inr (params, known, sends ∙ ap (λ log. params ∷ log) same)

  continued :
      {A B : Type 0} (r : Result A) (w : World) (next : A → Effect B) (before : List Doc)
      → sent w.log ≡ before
      → ((a : A) → r ≡ ok a → OnlySends P (next a) w)
      → Grows P (sent (continue (r, w) next).1.log) before
  continued (ok a) w next before same known = moved same (known a refl)
  continued (err message) w next before same known = inl same
  continued panicked w next before same known = inl same

  -- After a first part that sends nothing, and that is known to have returned.
  pub OnlySends->>= :
      {A B : Type 0} (first : Effect A) (next : A → Effect B) (w : World)
      → Quiet first
      → ((a : A) (between : World) → Returns first w a between → OnlySends P (next a) between)
      → OnlySends P (first >>= next) w
  unfolding ◌>>=◌
  OnlySends->>= first next w q known =
      continued (first w).0 (first w).1 next (sent w.log) (q.at w)
        (λ a e. known a (first w).1 (λ i. (e i, (first w).1)))

  -- After a result that is known to be good.
  pub OnlySends-lift :
      {A B : Type 0} (r : Result A) (next : A → Effect B) (w : World)
      → ((a : A) → r ≡ ok a → OnlySends P (next a) w)
      → OnlySends P (lift r >>= next) w
  unfolding ◌>>=◌ lift
  OnlySends-lift r next w known = continued r w next (sent w.log) refl known

  sends_continued :
      {A B : Type 0} (r : Result A) (w : World) (next : A → Effect B) (before : List Doc)
      → ((a : A) → Quiet (next a))
      → Grows P (sent w.log) before
      → Grows P (sent (continue (r, w) next).1.log) before
  sends_continued (ok a) w next before q (inl same) = inl ((q a).at w ∙ same)
  sends_continued (ok a) w next before q (inr (params, known, sends)) =
      inr (params, known, (q a).at w ∙ sends)
  sends_continued (err message) w next before q known = known
  sends_continued panicked w next before q known = known

  -- Before a last part that sends nothing.
  pub OnlySends->>=-Quiet :
      {A B : Type 0} (first : Effect A) (next : A → Effect B) (w : World)
      → OnlySends P first w
      → ((a : A) → Quiet (next a))
      → OnlySends P (first >>= next) w
  unfolding ◌>>=◌
  OnlySends->>=-Quiet first next w known q =
      sends_continued (first w).0 (first w).1 next (sent w.log) q known

  -- The same, where the settings that hold are followed too.
  pub OnlySends->>=-Silent :
      {A B : Type 0} (first : Effect A) (next : A → Effect B) (w : World) {c : Config}
      → w.app.config ≡ c
      → Silent first
      → ((a : A) (between : World)
          → Returns first w a between
          → between.app.config ≡ c
          → OnlySends P (next a) between)
      → OnlySends P (first >>= next) w
  OnlySends->>=-Silent first next w holds q known =
      OnlySends->>= first next w (Silent-Quiet q) (λ a between e.
        known a between e (ap (λ r. r.1.app.config) (sym e) ∙ Silent-config q w ∙ holds))

pub OnlySends-implies :
    {P Q : Doc → Type 0} {A : Type 0} (action : Effect A) (w : World)
    → OnlySends P action w
    → ((params : Doc) → P params → Q params)
    → OnlySends Q action w
OnlySends-implies action w (inl quiet) weaker = inl quiet
OnlySends-implies action w (inr (params, known, sends)) weaker =
    inr (params, weaker params known, sends)
