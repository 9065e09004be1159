-- ===== src/Effects/Revealing.antt =====
-- The secrets that were shown.
use solx.Common.{ℕ, refl, ap, List, [], ◌∷◌, Bytes, Result}
use solx.Vault.Session.{Disk}
use solx.Effects.{
  Event, request, preview, question, reveal, App, World, Effect, emit, the_app, update_app, ask,
  access,
}
use solx.Effects.Keeps.{Keeps}

-- The secrets in the log, the newest first.
unfoldable pub reveals : List Event → List Bytes
reveals [] = []
reveals (request method params timeout ∷ log) = reveals log
reveals (preview fee rent amount ∷ log) = reveals log
reveals (question prompt ∷ log) = reveals log
reveals (reveal secret ∷ log) = secret ∷ reveals log

abbrev pub shown_secrets : World → List Bytes
shown_secrets w = reveals w.log

-- An action that adds nothing to the log.
abbrev pub whole_log : World → List Event
whole_log w = w.log

abbrev pub Mute : {A : Type 0} → Effect A → Type 0
Mute action = Keeps whole_log action

-- An action that shows no secret.
abbrev pub Hidden : {A : Type 0} → Effect A → Type 0
Hidden action = Keeps shown_secrets action

pub Mute-Hidden : {A : Type 0} {action : Effect A} → Mute action → Hidden action
Mute-Hidden q = record { at = λ w. ap reveals (q.at w) }

pub Hidden-question : (prompt : Bytes) → Hidden (emit (question prompt))
unfolding emit reveals
Hidden-question prompt = record { at = λ w. refl }

module _ {A : Type 0} where
  pub Mute-ask : (f : ℕ → Result A) → Mute (ask f)
  unfolding ask
  Mute-ask f = record { at = λ w. refl }

  pub Mute-access : (f : ℕ → Disk → Result A × Disk) → Mute (access f)
  unfolding access
  Mute-access f = record { at = λ w. refl }

pub Mute-the_app : Mute the_app
unfolding the_app
Mute-the_app = record { at = λ w. refl }

pub Mute-update_app : (f : App → App) → Mute (update_app f)
unfolding update_app
Mute-update_app f = record { at = λ w. refl }
