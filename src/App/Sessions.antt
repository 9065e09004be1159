-- ===== src/App/Sessions.antt =====
-- When the commands and the shell of src/main.rs keep the unlocked session.
use solx.Common.{
  ◌≡◌, ◌≢◌, refl, sym, ◌⊎◌, inl, inr, Bool, true, false, not, Bytes, Option, none, some, Result, ok,
  err, panicked, arith,
}
use mathlib.Core.Path.{subst}
use solx.Vault.Session.{Crates}
use solx.Rpc.Values.{Chain}
use solx.Effects.{
  Env, App, World, Effect, continue, result_of, ◌>>=◌, ◌>>◌, lift, pure, attempt, the_app,
  update_app, answer, ask,
}
use solx.Effects.Runs.{Returns, Returns-split, Returns-attempt, Returns-lift, Returns-pure}
use mathlib.Core.Option.{some-injective, none-ne-some}
use solx.LineEditor.History.{CommandHistory}
use solx.LineEditor.History.Kept.{IsHistory, remember-IsHistory}
use solx.Common.Text.{split_whitespace}
use solx.App.Shell.{
  leaves_shell, run_line, run_read, shell_round, first_fetch, enter_shell, empty_history, Shell,
  Reachable, enter, round,
}
use solx.App.{
  done, cached, drop_session, when, with_session, refresh_history_inner, refresh_history, Plugins,
}

-- No session is kept, or the settings say to keep it.
abbrev pub IsReleased : App → Type 0
IsReleased app = (cached app ≡ true) ⊎ (app.session ≡ none)

closing : Result (Unit {0}) → Effect (Unit {0})
closing result = do app ← the_app; when (not (cached app)) drop_session; lift result

closing_at :
    (flag : Bool) (result : Result (Unit {0})) (w : World)
    → cached w.app ≡ flag
    → IsReleased ((when (not flag) drop_session >>= λ u. lift result) w).1.app
unfolding ◌>>=◌ lift drop_session update_app pure
closing_at true result w e = inl e
closing_at false result w e = inr refl

closing-IsReleased : (result : Result (Unit {0})) (w : World) → IsReleased (closing result w).1.app
unfolding closing ◌>>=◌ the_app
closing-IsReleased result w = closing_at (cached w.app) result w refl

after_attempt :
    (r : Result (Unit {0}) × World)
    → (continue (result_of r) closing).0 ≢ panicked
    → IsReleased (continue (result_of r) closing).1.app
after_attempt (ok u, w) h = closing-IsReleased (ok u) w
after_attempt (err message, w) h = closing-IsReleased (err message) w
after_attempt (panicked, w) h = absurd (h refl)

-- `with_session`, whatever the operation does, unless it panics.
pub with_session-IsReleased :
    (operation : Effect (Unit {0})) (w : World)
    → (with_session operation w).0 ≢ panicked
    → IsReleased (with_session operation w).1.app
unfolding with_session closing ◌>>=◌ attempt
with_session-IsReleased operation w h = after_attempt (operation w) h

attempted-ne-panicked :
    {A : Type 0} (r : Result A × World) {a : Result A} {after : World}
    → result_of r ≡ (ok a, after)
    → r.0 ≢ panicked
attempted-ne-panicked (ok x, w) e h = cc
attempted-ne-panicked (err message, w) e h = cc
attempted-ne-panicked (panicked, w) e h = cc

attempt-with_session :
    (operation : Effect (Unit {0})) (w : World) {r : Result (Unit {0})} {after : World}
    → Returns (attempt (with_session operation)) w r after
    → IsReleased after.app
unfolding attempt
attempt-with_session operation w e =
    subst (λ v. IsReleased v.1.app) (Returns-attempt (with_session operation) w e)
      (with_session-IsReleased operation w (attempted-ne-panicked (with_session operation w) e))

-- The session and the history at the head of a round.
pub record IsSound (app : App) (history : CommandHistory) : Type 0 where
  pub released : IsReleased app
  pub remembers : IsHistory history

IsReleased-moved : {v w : World} → v ≡ w → IsReleased w.app → IsReleased v.app
IsReleased-moved e h = subst (λ u. IsReleased u.app) (sym e) h

panicked-ne-some : {A : Type 0} {P : Type 0} {a : A} → Result.panicked ≡ ok a → P
panicked-ne-some e = cc

module _ (env : Env) (crates : Crates) (chain : Chain) (plugins : Plugins) where
  run_line_at :
      (leaving : Bool) (history : CommandHistory) (line : Bytes) (w : World) {next : CommandHistory}
      {after : World}
      → leaves_shell (split_whitespace line) ≡ leaving
      → IsHistory history
      → Returns (run_line env crates chain plugins history line) w (some next) after
      → IsSound after.app next
  unfolding run_line
  run_line_at true history line w leaving valid e =
      absurd (none-ne-some _ (Returns-pure none w (rw leaving at e)).0)
  run_line_at false history line w leaving valid e =
      Returns-split _ _ _ (rw leaving at e) (λ app w1 e1 r1.
        Returns-split _ _ _ r1 (λ resolved w2 e2 r2. Returns-split _ _ _ r2 (λ result w3 e3 r3.
          let (same, stays) = Returns-pure _ w3 r3 in
          record {
            released = IsReleased-moved stays (attempt-with_session _ w2 e3);
            remembers =
                subst IsHistory (some-injective _ _ same)
                  (remember-IsHistory history line resolved valid).0;
          })))

  run_read_at :
      (history : CommandHistory) (read : Result (Option Bytes)) (w : World) {next : CommandHistory}
      {after : World}
      → IsSound w.app history
      → Returns (run_read env crates chain plugins history read) w (some next) after
      → IsSound after.app next
  run_read_at history (ok none) w sound e = absurd (none-ne-some _ (Returns-pure none w e).0)
  run_read_at history (ok (some line)) w sound e =
      run_line_at _ history line w refl sound.remembers e
  run_read_at history (err message) w sound e =
      let (same, stays) = Returns-pure _ w e in
      record {
        released = IsReleased-moved stays sound.released;
        remembers = subst IsHistory (some-injective _ _ same) sound.remembers;
      }
  run_read_at history panicked w sound e = panicked-ne-some (Returns-lift panicked w e).0

  shell_round-IsSound :
      (history : CommandHistory) (w : World) {next : CommandHistory} {after : World}
      → IsHistory history
      → Returns (shell_round env crates chain plugins history) w (some next) after
      → IsSound after.app next
  unfolding shell_round refresh_history ask
  shell_round-IsSound history w valid e = Returns-split _ _ _ e (λ refreshed w1 e1 r1.
      Returns-split _ _ _ r1 (λ read w2 e2 r2.
        run_read_at history read w2
          (record {
            released =
                subst (λ (v : Result (Option Bytes) × World). IsReleased v.1.app)
                  (Returns-attempt (ask env.line) w1 e2) (attempt-with_session _ w e1);
            remembers = valid;
          })
          r2))

  empty-IsHistory : IsHistory empty_history
  empty-IsHistory = record { bounded = omega arith; kept = tt; distinct = tt; in_range = tt }

  first_fetch-IsReleased :
      (fetching : Bool) (w : World) {u : Unit {0}} {after : World}
      → IsReleased w.app
      → Returns (first_fetch env crates chain plugins fetching) w u after
      → IsReleased after.app
  unfolding refresh_history ◌>>=◌ answer update_app
  first_fetch-IsReleased true w released e =
      Returns-split (attempt (refresh_history env crates chain true)) (λ result. pure done) w e
        (λ result w1 e1 r1.
          IsReleased-moved (Returns-pure done w1 r1).1
            (attempt-with_session (refresh_history_inner env crates chain true) w e1))
  first_fetch-IsReleased false w released e =
      subst (λ (v : Result (Unit {0}) × World). IsReleased v.1.app) e released

  enter_shell-IsSound :
      (start : World) {history : CommandHistory} {after : World}
      → IsReleased start.app
      → Returns (enter_shell env crates chain plugins) start history after
      → IsSound after.app history
  unfolding enter_shell update_app the_app
  enter_shell-IsSound start released e = Returns-split _ _ _ e (λ u w1 e1 r1.
      Returns-split _ _ _ r1 (λ app w2 e2 r2. Returns-split _ _ _ r2 (λ v w3 e3 r3.
        let entered = subst (λ (v : Result (Unit {0}) × World). IsReleased v.1.app) e1 released in
        let seen = subst (λ (v : Result App × World). IsReleased v.1.app) e2 entered in
        let (same, stays) = Returns-pure empty_history w3 r3 in
        record {
          released = IsReleased-moved stays (first_fetch-IsReleased _ w2 seen e3);
          remembers = subst IsHistory same empty-IsHistory;
        })))

  -- Before the loop, and in every round of it: the session is let go, unless the settings keep it, and
  -- the history is well-formed.
  pub Reachable-IsSound :
      (start : World) (s : Shell)
      → IsReleased start.app
      → Reachable env crates chain plugins start s
      → IsSound s.world.app s.history
  Reachable-IsSound start s released (enter _ e) = enter_shell-IsSound start released e
  Reachable-IsSound start t released (round s _ before e) =
      shell_round-IsSound s.history s.world (Reachable-IsSound start s released before).remembers e
