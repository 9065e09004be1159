-- ===== src/Commands/CloseAta/Batches.antt =====
-- The transactions that `close-ata` of src/commands.rs sends.
use solx.Common.{
  ◌≡◌, ◌≢◌, refl, sym, ap, ◌∙◌, ◌⊎◌, inl, inr, Bool, true, false, not, ◌&&◌, List, [], ◌∷◌, ◌++◌,
  append-nil, append_assoc, any, length, leb, none, Result, ok, err, panicked, fail_if,
  if◌then◌else◌,
}
use mathlib.Core.Path.{subst}
use solx.Config.{Config}
use solx.Vault.{PublicAccount}
use solx.Vault.Session.{Crates}
use solx.Rpc.Values.{Instruction, Chain}
use solx.Rpc.Connection.{Rpc}
use solx.Effects.{Doc, Env, World, Effect, continue, ◌>>=◌, ◌>>◌, lift, pure, the_app}
use solx.Effects.Keeps.{sent}
use solx.Effects.Sending.{Grows}
use solx.App.{done}
use solx.Commands.Transactions.{close_batch_fits}
use solx.Commands.Send.{is_empty, send_transaction}
use solx.Commands.Send.Signed.{not-false}
use solx.Commands.Send.Safe.{IsApproved, IsApproved-send_transaction, send_transaction-Keeps}
use solx.Commands.CloseAta.{
  CloseCandidate, requires_burn, close_instructions, append_instructions, send_close_batch,
  close_from, send_close_batches,
}

true-ne-false : true ≢ false
true-ne-false e = cc

module _ (env : Env) (crates : Crates) (chain : Chain) (client : Rpc) (signer : PublicAccount)
    (c : Config) where
  abbrev budget_of : Bool
  budget_of = c.security.simulate_before_send && c.security.optimize_compute_units

  -- The instructions of a batch.
  abbrev pub all_of : List CloseCandidate → List Instruction
  all_of [] = []
  all_of (candidate ∷ batch) = close_instructions chain signer.pubkey candidate ++ all_of batch

  abbrev Fits : List CloseCandidate → Type 0
  Fits batch = close_batch_fits chain signer.pubkey (all_of batch) budget_of ≡ ok true

  -- A submission for a batch: its instructions fit, and they are what was approved; where one of them
  -- burns tokens, "BURN" was typed.
  abbrev pub IsBatch : List CloseCandidate → Doc → Type 0
  IsBatch batch params =
      Fits batch
      × IsApproved env crates chain client signer (all_of batch) (any (requires_burn chain) batch)
          c.security.confirm_every_transaction none params

  -- The submissions between two logs are those of batches that the candidates begin with, in their
  -- order, at most one for each.
  pub data Closes : List CloseCandidate → List Doc → List Doc → Type 0 where
    stop : (candidates : List CloseCandidate) (log : List Doc) → Closes candidates log log
    batch :
        (candidates first rest : List CloseCandidate) (after middle before : List Doc)
        → candidates ≡ first ++ rest
        → Grows (IsBatch first) middle before
        → Closes rest after middle
        → Closes candidates after before

  all_of-append :
      (xs : List CloseCandidate) (x : CloseCandidate)
      → all_of (xs ++ x ∷ []) ≡ all_of xs ++ close_instructions chain signer.pubkey x
  all_of-append [] x = append-nil (close_instructions chain signer.pubkey x)
  all_of-append (y ∷ xs) x =
      ap (λ l. close_instructions chain signer.pubkey y ++ l) (all_of-append xs x)
      ∙ sym (
          append_assoc (close_instructions chain signer.pubkey y) (all_of xs)
            (close_instructions chain signer.pubkey x))

  abbrev Runs : List CloseCandidate → Effect (Unit {0}) → World → Type 0
  Runs candidates action w = Closes candidates (sent (action w).1.log) (sent w.log)

  fits_step :
      (candidates : List CloseCandidate) (r : Result Bool)
      (yes_action no_action : Effect (Unit {0})) (w : World)
      → (r ≡ ok true → Runs candidates yes_action w)
      → (r ≡ ok false → Runs candidates no_action w)
      → Runs candidates (lift r >>= λ fits. if fits then yes_action else no_action) w
  unfolding lift ◌>>=◌
  fits_step candidates (ok true) yes_action no_action w f g = f refl
  fits_step candidates (ok false) yes_action no_action w f g = g refl
  fits_step candidates (err message) yes_action no_action w f g = stop candidates (sent w.log)
  fits_step candidates panicked yes_action no_action w f g = stop candidates (sent w.log)

  value_step :
      (candidates : List CloseCandidate) (r : Result Bool) (next : Bool → Effect (Unit {0}))
      (w : World)
      → ((b : Bool) → r ≡ ok b → Runs candidates (next b) w)
      → Runs candidates (lift r >>= next) w
  unfolding lift ◌>>=◌
  value_step candidates (ok b) next w f = f b refl
  value_step candidates (err message) next w f = stop candidates (sent w.log)
  value_step candidates panicked next w f = stop candidates (sent w.log)

  guard_step :
      (candidates : List CloseCandidate) (test : Bool) (message : _) (next : Effect (Unit {0}))
      (w : World)
      → (test ≡ false → Runs candidates next w)
      → Runs candidates (lift (fail_if test message) >> next) w
  unfolding lift ◌>>=◌
  guard_step candidates false message next w f = f refl
  guard_step candidates true message next w f = stop candidates (sent w.log)

  sent-continue :
      (first rest : List CloseCandidate) (r : Result Bool) (w : World) (before : List Doc)
      (next : Bool → Effect (Unit {0}))
      → Grows (IsBatch first) (sent w.log) before
      → ((b : Bool) → Runs rest (next b) w)
      → Closes (first ++ rest) (sent (continue (r, w) next).1.log) before
  sent-continue first rest (ok b) w before next grown further =
      batch (first ++ rest) first rest (sent (next b w).1.log) (sent w.log) before refl grown
        (further b)
  sent-continue first rest (err message) w before next grown further =
      batch (first ++ rest) first rest (sent w.log) (sent w.log) before refl grown
        (stop rest (sent w.log))
  sent-continue first rest panicked w before next grown further =
      batch (first ++ rest) first rest (sent w.log) (sent w.log) before refl grown
        (stop rest (sent w.log))

  send_step :
      (first rest : List CloseCandidate) (instructions : List Instruction)
      (next : Bool → Effect (Unit {0})) (w : World)
      → instructions ≡ all_of first
      → Fits first
      → w.app.config ≡ c
      → ((b : Bool) (between : World) → between.app.config ≡ c → Runs rest (next b) between)
      → Runs
          (first ++ rest)
          (send_close_batch env crates chain client signer instructions first >>= next)
          w
  unfolding send_close_batch ◌>>=◌
  send_step first rest instructions next w same fits holds further =
      let burn = any (requires_burn chain) first in
      let action = send_transaction env crates chain client signer instructions burn none in
      let kept =
        (send_transaction-Keeps env crates chain client signer instructions burn none).at w in
      sent-continue first rest (action w).0 (action w).1 (sent w.log) next
        (IsApproved-send_transaction env crates chain client signer instructions burn none w holds
          (λ params approved. (
            fits,
            subst
                (λ l.
                  IsApproved env crates chain client signer l burn
                    c.security.confirm_every_transaction none params)
                same approved,
          )))
        (λ b. further b (action w).1 (kept ∙ holds))

  cond_step :
      (candidates : List CloseCandidate) (test : Bool) (yes_action no_action : Effect (Unit {0}))
      (w : World)
      → (test ≡ true → Runs candidates yes_action w)
      → (test ≡ false → Runs candidates no_action w)
      → Runs candidates (if test then yes_action else no_action) w
  cond_step candidates true yes_action no_action w f g = f refl
  cond_step candidates false yes_action no_action w f g = g refl

  pure_step : (candidates : List CloseCandidate) (w : World) → Runs candidates (pure done) w
  unfolding pure
  pure_step candidates w = stop candidates (sent w.log)

  -- The open batch fits, where it is not empty.
  abbrev IsOpen : List CloseCandidate → Type 0
  IsOpen first = (first ≡ []) ⊎ Fits first

  Fits-of_instructions :
      (instructions : List Instruction) (first : List CloseCandidate)
      → instructions ≡ all_of first
      → is_empty instructions ≡ false
      → IsOpen first
      → Fits first
  Fits-of_instructions instructions first same some_left (inr fits) = fits
  Fits-of_instructions instructions first same some_left (inl none_left) =
      absurd (true-ne-false (sym (ap is_empty (same ∙ ap all_of none_left)) ∙ some_left))

  Fits-of_length :
      (first : List CloseCandidate) → leb (length first) 0 ≡ false → IsOpen first → Fits first
  Fits-of_length first some_left (inr fits) = fits
  Fits-of_length first some_left (inl none_left) =
      absurd (true-ne-false (sym (ap (λ l. leb (length l) 0) none_left) ∙ some_left))

  close_from-Closes :
      (instructions : List Instruction) (first candidates : List CloseCandidate) (w : World)
      → instructions ≡ all_of first
      → IsOpen first
      → w.app.config ≡ c
      → Runs
          (first ++ candidates)
          (close_from env crates chain client signer budget_of instructions first candidates)
          w
  unfolding close_from append_instructions
  close_from-Closes instructions first [] w same opened holds =
      cond_step (first ++ []) (is_empty instructions) _ _ w (λ e. pure_step (first ++ []) w)
        (λ e.
          send_step first [] instructions (λ b. pure done) w same
            (Fits-of_instructions instructions first same e opened) holds
            (λ b between h. pure_step [] between))
  close_from-Closes instructions first (x ∷ candidates) w same opened holds =
      let grown =
        ap (λ l. l ++ close_instructions chain signer.pubkey x) same
        ∙ sym (all_of-append first x) in
      let alone = sym (append-nil (close_instructions chain signer.pubkey x)) in
      fits_step (first ++ x ∷ candidates) _ _ _ w
        (λ e.
          subst
            (λ l.
              Closes l
                (sent
                  (close_from env crates chain client signer budget_of
                    (instructions ++ close_instructions chain signer.pubkey x) (first ++ x ∷ [])
                    candidates w).1.log)
                (sent w.log))
            (append_assoc first (x ∷ []) candidates)
            (close_from-Closes (instructions ++ close_instructions chain signer.pubkey x)
              (first ++ x ∷ []) candidates w grown
              (inr
                (subst (λ l. close_batch_fits chain signer.pubkey l budget_of ≡ ok true) grown e))
              holds))
        (λ e. guard_step (first ++ x ∷ candidates) (leb (length first) 0) _ _ w (λ left.
          send_step first (x ∷ candidates) instructions _ w same (Fits-of_length first left opened)
            holds
            (λ b between h.
              cond_step (x ∷ candidates) (not b) _ _ between
                (λ stopped. pure_step (x ∷ candidates) between)
                (λ confirmed. value_step (x ∷ candidates) _ _ between (λ fits_alone e_alone.
                  guard_step (x ∷ candidates) (not fits_alone) _ _ between (λ really.
                    close_from-Closes (close_instructions chain signer.pubkey x) (x ∷ []) candidates
                      between alone
                      (inr (
                        subst (λ l. close_batch_fits chain signer.pubkey l budget_of ≡ ok true)
                          alone (e_alone ∙ ap ok (not-false really))))
                      h))))))

-- Closing accounts submits transactions for batches that the candidates begin with, in their order, at
-- most one for each; every batch fits a packet, and its instructions are what was approved.
pub send_close_batches-Closes :
    (env : Env) (crates : Crates) (chain : Chain) (client : Rpc) (signer : PublicAccount)
    (candidates : List CloseCandidate) (w : World)
    → Closes env crates chain client signer w.app.config candidates
        (sent (send_close_batches env crates chain client signer candidates w).1.log)
        (sent w.log)
unfolding send_close_batches ◌>>=◌ the_app pure
send_close_batches-Closes env crates chain client signer [] w = stop [] (sent w.log)
send_close_batches-Closes env crates chain client signer (x ∷ candidates) w =
    close_from-Closes env crates chain client signer w.app.config [] [] (x ∷ candidates) w refl
      (inl refl) refl
