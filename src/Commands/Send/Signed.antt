-- ===== src/Commands/Send/Signed.antt =====
-- The transaction that `refresh_and_sign` of src/commands.rs signs.
use solx.Common.{
  ℕ, ◌-◌, ◌<◌, ◌≡◌, refl, sym, ap, ◌∙◌, Bool, true, false, not, ◌||◌, List, [], ◌∷◌, Bytes, String,
  set_elem, Option, some, ok, fail_if, leb, fail_if-eq-ok, arith,
}
use mathlib.Core.Path.{subst}
use solx.Common.Eq.{Eq, ◌==◌, nat_eq, list_eq, option_eq, eq_of_beq}
use solx.Signer.{Keypair, pubkey, sign_message}
use solx.Vault.{Vault, PublicAccount}
use solx.Vault.Edit.{signer}
use solx.Vault.Session.{Crates, Session, load}
use solx.Rpc.Values.{Instruction, Chain}
use solx.Rpc.Connection.{Rpc}
use solx.Rpc.Responses.{BlockhashContext}
use solx.Rpc.Client.{block_height, fee_for_message, simulate_at}
use solx.Effects.{Env, World, Effect, lift, access}
use solx.Effects.Runs.{Returns, Returns-split, Returns-lift, Returns-pure, Returns-attempt}
use solx.Commands.Transactions.{
  Transaction, default_signature, first_of, compile_unsigned, compile_unsigned-signatures,
  check_simulation, validate_signer,
}
use solx.Commands.Send.{
  SpendAll, Resolved, ata_rent_quote, drains, signing_key, refresh_and_sign, sign_resolved,
}

-- A run of the action gave this value.
abbrev pub Gave : {A : Type 0} → Effect A → A → Type 0
Gave action a = (before : World) × (after : World) × Returns action before a after

pub not-false : {b : Bool} → not b ≡ false → b ≡ true
not-false {b = true} e = refl
not-false {b = false} e = cc

module _ {u : Unit {0}} where
  -- What a check that passed says.
  pub passed :
      (test : Bool) (message : String) (w : World) {after : World}
      → Returns (lift (fail_if test message)) w u after
      → test ≡ false
  passed test message w e = fail_if-eq-ok test message (Returns-lift _ w e).0

  pub equal :
      {A : Type 0} ⦃eq : Eq A⦄ (a b : A) (message : String) (w : World) {after : World}
      → Returns (lift (fail_if (not (a == b)) message)) w u after
      → a ≡ b
  equal a b message w e = eq_of_beq (not-false (passed _ message w e))

  -- A comparison that passed.
  pub matched :
      {A : Type 0} ⦃eq : Eq A⦄ (a b : A) (message : String)
      → fail_if (not (a == b)) message ≡ ok u
      → a ≡ b
  matched a b message e = eq_of_beq (not-false (fail_if-eq-ok _ _ e))

pub neither : (a b : Bool) → (a || b) ≡ false → (a ≡ false) × (b ≡ false)
neither a b e = ground arith

later_height : (last height : ℕ) → leb last height ≡ false → height < last
later_height last height e = ground arith

gave_same :
    {A : Type 0} (action : Effect A) {a b : A} (before : World) {after : World}
    → a ≡ b
    → Returns action before a after
    → Gave action b
gave_same action before {after} same e = subst (Gave action) same (before, after, e)

signed_as :
    (unsigned : Transaction) (signature : Bytes) {t : Transaction}
    → unsigned.transaction_signatures ≡ default_signature ∷ []
    → record {
      transaction_signatures = set_elem unsigned.transaction_signatures 0 signature;
      message = unsigned.message;
    }
      ≡ t
    → t ≡ record { transaction_signatures = signature ∷ []; message = unsigned.message }
signed_as unsigned signature slot e =
    sym e
    ∙ ap
        (λ (l : List Bytes). record {
          transaction_signatures = set_elem l 0 signature;
          message = unsigned.message;
        })
        slot

module _ (env : Env) (crates : Crates) (chain : Chain) (rpc : Rpc) where
  -- The key is that of the wallet in the vault that was loaded.
  abbrev pub IsKeyOf : PublicAccount → Keypair → Type 0
  IsKeyOf identity key =
      ((session : Session) × (vault : Vault) × Gave
          (access (λ moment disk. (load crates session (env.faults moment) disk, disk))) vault
        × (signer crates.crypto vault identity.name ≡ ok key))
      × (pubkey crates.crypto.ed25519 key ≡ identity.pubkey)

  pub record IsSigned (identity : PublicAccount) (instructions : List Instruction) (fee rent : ℕ)
      (spend_all : Option SpendAll) (t : Transaction) : Type 0 where
    pub context : BlockhashContext
    pub unsigned : Transaction × Bytes
    pub key : Keypair
    pub bytes : Bytes
    pub simulation : Bytes
    pub height : ℕ
    pub compiled : compile_unsigned chain identity.pubkey instructions context.hash ≡ ok unsigned
    pub same_fee : Gave (fee_for_message env chain rpc unsigned.0.message) fee
    pub same_rent : Gave (ata_rent_quote env crates chain rpc instructions) rent
    pub simulated : Gave (simulate_at env chain rpc unsigned.1 context.context_slot) simulation
    pub succeeded : check_simulation chain simulation ≡ ok tt
    pub drained : drains env crates chain rpc spend_all simulation ≡ ok tt
    pub owned : IsKeyOf identity key
    pub alone : chain.num_required_signatures unsigned.0.message ≡ 1
    pub pays : first_of (chain.static_account_keys unsigned.0.message) ≡ some identity.pubkey
    pub serialized : chain.serialize_message unsigned.0.message ≡ ok bytes
    pub asked_height : Gave (block_height env chain rpc context) height
    pub live : height < context.last_valid_block_height - 5
    pub signed : t ≡ record {
      transaction_signatures = sign_message crates.crypto.ed25519 key bytes ∷ [];
      message = unsigned.0.message;
    }

  signing_key-Returns :
      (identity : PublicAccount) (w : World) {key : Keypair} {after : World}
      → Returns (signing_key env crates chain rpc identity) w key after
      → IsKeyOf identity key
  unfolding signing_key
  signing_key-Returns identity w e = Returns-split _ _ _ e (λ app w1 e1 r1.
      Returns-split _ _ _ r1 (λ session w2 e2 r2. Returns-split _ _ _ r2 (λ vault w3 e3 r3.
        Returns-split _ _ _ r3 (λ key w4 e4 r4. Returns-split _ _ _ r4 (λ u w5 e5 r5.
          let same = (Returns-pure key w5 r5).0 in
          subst (IsKeyOf identity) same
            ((session, vault, (w2, w3, e3), (Returns-lift _ w3 e4).0), equal _ _ _ w4 e5))))))

  validate_signer-ok :
      (message : Bytes) (key : Keypair) {u : Unit {0}}
      → validate_signer chain crates.crypto.ed25519 message key ≡ ok u
      → (chain.num_required_signatures message ≡ 1)
        × (first_of (chain.static_account_keys message) ≡ some (pubkey crates.crypto.ed25519 key))
  unfolding validate_signer
  validate_signer-ok message key e =
      let (one, first) = neither _ _ (fail_if-eq-ok _ _ e) in
      (eq_of_beq (not-false one), eq_of_beq (not-false first))

  refresh_and_sign-Returns :
      (identity : PublicAccount) (instructions : List Instruction) (fee rent : ℕ)
      (spend_all : Option SpendAll) (w : World) {t : Transaction} {after : World}
      → Returns
          (refresh_and_sign env crates chain rpc identity instructions fee rent spend_all)
          w
          t
          after
      → IsSigned identity instructions fee rent spend_all t
  unfolding refresh_and_sign
  refresh_and_sign-Returns identity instructions fee rent spend_all w e =
      Returns-split _ _ _ e (λ context w1 e1 r1. Returns-split _ _ _ r1 (λ unsigned w2 e2 r2.
        Returns-split _ _ _ r2 (λ fee_now w3 e3 r3. Returns-split _ _ _ r3 (λ same_fee w4 e4 r4.
          Returns-split _ _ _ r4 (λ rent_now w5 e5 r5. Returns-split _ _ _ r5 (λ same_rent w6 e6 r6.
            Returns-split _ _ _ r6 (λ same w7 e7 r7. Returns-split _ _ _ r7 (λ simulation w8 e8 r8.
              Returns-split _ _ _ r8 (λ succeeded w9 e9 r9.
                Returns-split _ _ _ r9 (λ drained w10 e10 r10.
                  Returns-split _ _ _ r10 (λ bytes w11 e11 r11.
                    Returns-split _ _ _ r11 (λ key w12 e12 r12.
                      Returns-split _ _ _ r12 (λ valid w13 e13 r13.
                        Returns-split _ _ _ r13 (λ height w14 e14 r14.
                          Returns-split _ _ _ r14 (λ live w15 e15 r15.
                            let compiled = (Returns-lift _ w1 e2).0 in
                            let owned = signing_key-Returns identity w11 e12 in
                            let (alone, payer) =
                              validate_signer-ok _ key (Returns-lift _ w12 e13).0 in
                            record {
                              context = context;
                              unsigned = unsigned;
                              key = key;
                              bytes = bytes;
                              simulation = simulation;
                              height = height;
                              compiled = compiled;
                              same_fee = gave_same _ w2 (equal _ _ _ w3 e4) e3;
                              same_rent = gave_same _ w4 (equal _ _ _ w5 e6) e5;
                              simulated = (w7, w8, e8);
                              succeeded = (Returns-lift _ w8 e9).0;
                              drained = (Returns-lift _ w9 e10).0;
                              owned = owned;
                              alone = alone;
                              pays = payer ∙ ap some owned.1;
                              serialized = (Returns-lift _ w10 e11).0;
                              asked_height = (w13, w14, e14);
                              live = later_height _ _ (passed _ _ w14 e15);
                              signed =
                                  signed_as unsigned.0 _
                                    (compile_unsigned-signatures chain _ _ _ compiled)
                                    (Returns-pure _ w15 r15).0;
                            })))))))))))))))

  pub sign_resolved-Returns :
      (identity : PublicAccount) (r : Resolved) (spend_all : Option SpendAll) (w : World)
      {t : Transaction} {after : World}
      → Returns (sign_resolved env crates chain rpc identity r spend_all) w t after
      → IsSigned identity r.instructions r.fee r.rent spend_all t
  unfolding sign_resolved
  sign_resolved-Returns identity r spend_all w e = Returns-split _ _ _ e (λ session w1 e1 r1.
      Returns-split _ _ _ r1 (λ result w2 e2 r2. Returns-split _ _ _ r2 (λ released w3 e3 r3.
        let ran =
          Returns-attempt
            (refresh_and_sign env crates chain rpc identity r.instructions r.fee r.rent spend_all)
            w1 e2 in
        let good = (Returns-lift result w3 r3).0 in
        refresh_and_sign-Returns identity r.instructions r.fee r.rent spend_all w1
          (ran ∙ ap (λ a. (a, w2)) good))))
