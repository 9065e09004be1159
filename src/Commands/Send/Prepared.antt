-- ===== src/Commands/Send/Prepared.antt =====
-- What `send_transaction` of src/commands.rs resolves and asks before it signs.
use solx.Common.{
  ℕ, ◌+◌, ◌<◌, ◌≤◌, ◌≡◌, refl, sym, ap, ◌∙◌, ◌⊎◌, inl, inr, Bool, true, false, List, ◌∷◌, Bytes,
  ascii, String, set_elem, Option, none, some, ok, ok_inj,
}
use mathlib.Core.Path.{subst}
use solx.Common.Eq.{nat_eq, list_eq}
use solx.Common.Text.{trim}
use solx.Vault.Session.{Crates}
use solx.Rpc.Values.{Instruction, Chain}
use solx.Rpc.Connection.{Rpc}
use solx.Effects.{Env, App, World, the_app}
use solx.Effects.Runs.{
  Returns, Returns-split, Returns-lift, Returns-pure, Returns-ask, Returns-emit,
}
use solx.Commands.Limits.{max_compute_units, tuned_compute_limit-le, spend_all_lamports_iff}
use solx.Commands.Instructions.{system_transfer, set_compute_unit_limit}
use solx.Commands.Send.{
  SpendAll, Resolved, Quote, or_default, to_index, amount_of, tune, resolve_all, resolve, demand,
  approve, review,
}
use solx.Commands.Send.Signed.{equal}

module _ (env : Env) (crates : Crates) (chain : Chain) (rpc : Rpc) where
  abbrev WithLimit : List Instruction → List Instruction → Type 0
  WithLimit original tuned =
      (limit : ℕ) × (limit ≤ max_compute_units)
      × (tuned ≡ set_compute_unit_limit chain limit ∷ original)

  -- The instructions of the command, with or without a compute limit before them.
  abbrev pub Budgeted : List Instruction → List Instruction → Type 0
  Budgeted original final = (final ≡ original) ⊎ WithLimit original final

  -- The instructions that are resolved; for everything, the first one of the command is the transfer of
  -- what a fee leaves of the balance.
  abbrev pub IsPrepared :
      Option SpendAll → Bytes → List Instruction → List Instruction → Option ℕ → Type 0
  IsPrepared none payer original final amount? = Budgeted original final × (amount? ≡ none)
  IsPrepared (some all) payer original final amount? =
      (amount : ℕ) × (fee : ℕ) × (0 < amount)
      × (amount + fee ≡ all.balance)
      × (amount? ≡ some amount)
      × Budgeted (set_elem original 0 (system_transfer chain payer all.target amount)) final

  abbrev IsTuned : Bool → List Instruction → List Instruction → Type 0
  IsTuned false original tuned = tuned ≡ original
  IsTuned true original tuned = WithLimit original tuned

  tune-Returns :
      (optimize : Bool) (payer : Bytes) (percent : ℕ) (original : List Instruction) (hash : Bytes)
      (w : World) {tuned : List Instruction} {after : World}
      → Returns (tune env crates chain rpc optimize payer percent original hash) w tuned after
      → IsTuned optimize original tuned
  tune-Returns false payer percent original hash w e = sym (Returns-pure original w e).0
  tune-Returns true payer percent original hash w e = Returns-split _ _ _ e (λ probe_wire w1 e1 r1.
      Returns-split _ _ _ r1 (λ probe w2 e2 r2. Returns-split _ _ _ r2 (λ passed w3 e3 r3.
        Returns-split _ _ _ r3 (λ used w4 e4 r4. Returns-split _ _ _ r4 (λ limit w5 e5 r5. (
          limit,
          tuned_compute_limit-le used percent (Returns-lift _ w4 e5).0,
          sym (Returns-pure _ w5 r5).0,
        ))))))

  replaced :
      (optimize : Bool) (original tuned : List Instruction) (transfer : Instruction)
      → IsTuned optimize original tuned
      → Budgeted (set_elem original 0 transfer) (set_elem tuned (to_index optimize) transfer)
  replaced false original tuned transfer e = inl (ap (λ l. set_elem l 0 transfer) e)
  replaced true original tuned transfer (limit, low, e) =
      inr (limit, low, ap (λ l. set_elem l 1 transfer) e)

  budgeted :
      (optimize : Bool) (original tuned : List Instruction)
      → IsTuned optimize original tuned
      → Budgeted original tuned
  budgeted false original tuned e = inl e
  budgeted true original tuned found = inr found

  resolve_all-Returns :
      (spend_all : Option SpendAll) (optimize : Bool) (payer : Bytes)
      (original tuned : List Instruction) (hash : Bytes) (w : World) {quote : Quote} {after : World}
      → IsTuned optimize original tuned
      → Returns (resolve_all env crates chain rpc spend_all optimize payer tuned hash) w quote after
      → IsPrepared spend_all payer original quote.instructions (amount_of quote.expected)
  resolve_all-Returns none optimize payer original tuned hash w prepared e =
      subst (λ (q : Quote). IsPrepared none payer original q.instructions (amount_of q.expected))
        (Returns-pure _ w e).0 (budgeted optimize original tuned prepared, refl)
  resolve_all-Returns (some all) optimize payer original tuned hash w prepared e =
      Returns-split _ _ _ e (λ provisional w1 e1 r1. Returns-split _ _ _ r1 (λ fee w2 e2 r2.
        Returns-split _ _ _ r2 (λ amount w3 e3 r3.
          let (positive, sum) =
            (spend_all_lamports_iff all.balance fee amount).0 (Returns-lift _ w2 e3).0 in
          subst
            (λ (q : Quote).
              IsPrepared (some all) payer original q.instructions (amount_of q.expected))
            (Returns-pure _ w3 r3).0
            (
              amount,
              fee,
              positive,
              sum,
              refl,
              replaced optimize original tuned (system_transfer chain payer all.target amount)
                  prepared,
            ))))

  pub resolve-Returns :
      (payer : Bytes) (original : List Instruction) (spend_all : Option SpendAll) (w : World)
      {r : Resolved} {after : World}
      → Returns (resolve env crates chain rpc payer original spend_all) w r after
      → IsPrepared spend_all payer original r.instructions r.all_amount
  unfolding resolve
  resolve-Returns payer original spend_all w e = Returns-split _ _ _ e (λ checked w1 e1 r1.
      Returns-split _ _ _ r1 (λ app w2 e2 r2. Returns-split _ _ _ r2 (λ context w3 e3 r3.
        Returns-split _ _ _ r3 (λ tuned w4 e4 r4. Returns-split _ _ _ r4 (λ quote w5 e5 r5.
          Returns-split _ _ _ r5 (λ unsigned w6 e6 r6. Returns-split _ _ _ r6 (λ fee w7 e7 r7.
            Returns-split _ _ _ r7 (λ rent w8 e8 r8. Returns-split _ _ _ r8 (λ same w9 e9 r9.
              subst
                (λ (r : Resolved). IsPrepared spend_all payer original r.instructions r.all_amount)
                (Returns-pure _ w9 r9).0
                (resolve_all-Returns spend_all _ payer original tuned _ w4
                  (tune-Returns _ payer _ original _ w3 e4) e5))))))))))

  -- A line that was read is this word, but for white space around it.
  abbrev pub WasTyped : Bytes → Type 0
  WasTyped word =
      (moment : ℕ) × (input : Option Bytes) × (env.line moment ≡ ok input)
      × (trim (or_default input) ≡ word)

  -- What the user typed, for a command that burns tokens or not, and the setting that every
  -- transaction is confirmed.
  abbrev pub Agreed : Bool → Bool → Type 0
  Agreed true confirm_every = WasTyped (ascii "BURN")
  Agreed false true = WasTyped (ascii "yes")
  Agreed false false = Unit

  demand-Returns :
      (prompt : String) (word : Bytes) (w : World) {u : Unit {0}} {after : World}
      → Returns (demand env crates chain rpc prompt word) w u after
      → WasTyped word
  unfolding demand
  demand-Returns prompt word w e = Returns-split _ _ _ e (λ asked w1 e1 r1.
      Returns-split _ _ _ r1
        (λ input w2 e2 r2. (w1.moment, input, (Returns-ask env.line w1 e2).0, equal _ _ _ w2 r2)))

  approve-Returns :
      (burn confirm_every : Bool) (w : World) {u : Unit {0}} {after : World}
      → Returns (approve env crates chain rpc burn confirm_every) w u after
      → Agreed burn confirm_every
  approve-Returns true confirm_every w e = demand-Returns _ _ w e
  approve-Returns false true w e = demand-Returns _ _ w e
  approve-Returns false false w e = tt

  pub review-Returns :
      (r : Resolved) (burn : Bool) (spend_all : Option SpendAll) (w : World) {u : Unit {0}}
      {after : World}
      → Returns (review env crates chain rpc r burn spend_all) w u after
      → Agreed burn w.app.config.security.confirm_every_transaction
  unfolding review the_app
  review-Returns r burn spend_all w e = Returns-split _ _ _ e (λ shown w1 e1 r1.
      Returns-split _ _ _ r1 (λ app w2 e2 r2. Returns-split _ _ _ r2 (λ simulated w3 e3 r3.
        let first : app ≡ w1.app = sym (ok_inj (ap (λ p. p.0) e2)) in
        let same : app ≡ w.app = first ∙ ap (λ (v : World). v.app) (Returns-emit _ w e1) in
        subst (λ (a : App). Agreed burn a.config.security.confirm_every_transaction) same
          (approve-Returns burn _ w3 r3))))
