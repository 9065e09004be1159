-- ===== src/Effects/Writing.antt =====
-- Actions that change a part of the state at most once, and what is known of the change.
use solx.Common.{ℕ, ◌≡◌, refl, sym, ◌⊎◌, inl, inr, Result, ok, err, panicked}
use mathlib.Core.Path.{subst}
use solx.Vault.Session.{Disk}
use solx.Effects.{
  Event, App, World, Effect, continue, ◌>>=◌, attempt, lift, emit, the_app, update_app, answer, ask,
}
use solx.Effects.Runs.{Returns}
use solx.Effects.Keeps.{Keeps, result_of_view}

-- The disk of a state.
abbrev pub storage : World → Disk
storage w = w.disk

-- An action that leaves the disk as it is.
abbrev pub Calm : {A : Type 0} → Effect A → Type 0
Calm action = Keeps storage action

pub Calm-emit : (event : Event) → Calm (emit event)
unfolding emit
Calm-emit event = record { at = λ w. refl }

module _ {A : Type 0} where
  pub Calm-ask : (f : ℕ → Result A) → Calm (ask f)
  unfolding ask
  Calm-ask f = record { at = λ w. refl }

  pub Calm-answer : (f : ℕ → A) → Calm (answer f)
  unfolding answer
  Calm-answer f = record { at = λ w. refl }

pub Calm-the_app : Calm the_app
unfolding the_app
Calm-the_app = record { at = λ w. refl }

pub Calm-update_app : (f : App → App) → Calm (update_app f)
unfolding update_app
Calm-update_app f = record { at = λ w. refl }

-- One run leaves this part of the state as it is, or changes it as this relation says.
abbrev pub OnlyChanges :
    {X : Type 0} → (World → X) → (X → X → Type 0) → {A : Type 0} → Effect A → World → Type 0
OnlyChanges view Q action w = (view (action w).1 ≡ view w) ⊎ Q (view w) (view (action w).1)

abbrev pub OnlyWrites : (Disk → Disk → Type 0) → {A : Type 0} → Effect A → World → Type 0
OnlyWrites Q action w = OnlyChanges storage Q action w

module _ {X : Type 0} (view : World → X) (Q : X → X → Type 0) where
  abbrev Changed : X → X → Type 0
  Changed before after = (after ≡ before) ⊎ Q before after

  shifted : {before mid after : X} → mid ≡ before → Changed mid after → Changed before after
  shifted {after} same changed = subst (λ x. Changed x after) same changed

  continued :
      {A B : Type 0} (r : Result A) (w : World) (next : A → Effect B) (before : X)
      → view w ≡ before
      → ((a : A) → r ≡ ok a → OnlyChanges view Q (next a) w)
      → Changed before (view (continue (r, w) next).1)
  continued (ok a) w next before same known = shifted same (known a refl)
  continued (err message) w next before same known = inl same
  continued panicked w next before same known = inl same

  -- After a first part that changes nothing there, and that is known to have returned.
  pub OnlyChanges->>= :
      {A B : Type 0} (first : Effect A) (next : A → Effect B) (w : World)
      → Keeps view first
      → ((a : A) (between : World)
          → Returns first w a between
          → OnlyChanges view Q (next a) between)
      → OnlyChanges view Q (first >>= next) w
  unfolding ◌>>=◌
  OnlyChanges->>= first next w q known =
      continued (first w).0 (first w).1 next (view w) (q.at w)
        (λ a e. known a (first w).1 (λ i. (e i, (first w).1)))

  -- After a result that is known to be good.
  pub OnlyChanges-lift :
      {A B : Type 0} (r : Result A) (next : A → Effect B) (w : World)
      → ((a : A) → r ≡ ok a → OnlyChanges view Q (next a) w)
      → OnlyChanges view Q (lift r >>= next) w
  unfolding ◌>>=◌ lift
  OnlyChanges-lift r next w known = continued r w next (view w) refl known

  changed :
      {A B : Type 0} (r : Result A) (w : World) (next : A → Effect B) (before : X)
      → ((a : A) → Keeps view (next a))
      → Changed before (view w)
      → Changed before (view (continue (r, w) next).1)
  changed (ok a) w next before q known = subst (Changed before) (sym ((q a).at w)) known
  changed (err message) w next before q known = known
  changed panicked w next before q known = known

  -- Before a last part that changes nothing there.
  pub OnlyChanges->>=-Keeps :
      {A B : Type 0} (first : Effect A) (next : A → Effect B) (w : World)
      → OnlyChanges view Q first w
      → ((a : A) → Keeps view (next a))
      → OnlyChanges view Q (first >>= next) w
  unfolding ◌>>=◌
  OnlyChanges->>=-Keeps first next w known q = changed (first w).0 (first w).1 next (view w) q known

  pub OnlyChanges-attempt :
      {A : Type 0} (action : Effect A) (w : World)
      → OnlyChanges view Q action w
      → OnlyChanges view Q (attempt action) w
  unfolding attempt
  OnlyChanges-attempt action w known =
      subst (Changed (view w)) (sym (result_of_view view (action w))) known

pub OnlyChanges-implies :
    {X : Type 0} (view : World → X) {Q R : X → X → Type 0} {A : Type 0} (action : Effect A)
    (w : World)
    → OnlyChanges view Q action w
    → ((before after : X) → Q before after → R before after)
    → OnlyChanges view R action w
OnlyChanges-implies view action w (inl same) weaker = inl same
OnlyChanges-implies view action w (inr known) weaker =
    inr (weaker (view w) (view (action w).1) known)
