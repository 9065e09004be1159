-- ===== src/Commands/Transfer/Tokens.antt =====
-- What the command `token-transfer` of src/commands.rs sends.
use solx.Common.{
  ℕ, ◌<◌, ◌≤◌, ◌≡◌, refl, Bool, false, List, [], ◌∷◌, Bytes, ascii, Option, none, some, ok,
  fail_if-eq-ok, ok_or-eq-ok, ltb, arith,
}
use mathlib.Core.Path.{subst}
use solx.Common.Eq.{◌==◌, nat_eq, list_eq, eq_of_beq}
use solx.Vault.{PublicVault, PublicAccount}
use solx.Vault.Session.{Crates}
use solx.Rpc.Values.{Chain}
use solx.Rpc.Connection.{Rpc}
use solx.Rpc.Client.{token_balance, token_decimals}
use solx.Rpc.Client.Queries.{account_info-Silent, token_balance-Silent, token_decimals-Silent}
use solx.Effects.{Doc, Env, World}
use solx.Effects.Runs.{Returns-lift}
use solx.Effects.Keeps.{Silent, Keeps-lift, Keeps-pure, Keeps->>=}
use solx.Effects.Sending.{OnlySends, OnlySends->>=-Silent, OnlySends->>=-Quiet}
use solx.App.{rpc}
use solx.App.Silent.{public_vault-Silent, rpc-Silent}
use solx.Commands.Options.{Options, parse_options}
use solx.Commands.Amount.{parse_amount}
use solx.Commands.Instructions.{token_program, ata, create_ata_idempotent, transfer_checked}
use solx.Commands.Send.Signed.{Gave, passed, not-false}
use solx.Commands.Send.Safe.{IsApproved, IsApproved-send_transaction}
use solx.Commands.Transfer.{required, mint_program, ensure_transfer_program, token_transfer}
use solx.Commands.Transfer.Safe.{
  differ, IsSource, IsTarget, warn_destination-Silent, remember_if-Quiet,
}

positive_lem : (amount : ℕ) → (amount == 0) ≡ false → 0 < amount
positive_lem amount e = ground arith

enough_lem : (held amount : ℕ) → ltb held amount ≡ false → amount ≤ held
enough_lem held amount e = ground arith

module _ (env : Env) (crates : Crates) (chain : Chain) where
  mint_program-Silent :
      (client : Rpc) (mint : Bytes) → Silent (mint_program env crates chain client mint)
  unfolding mint_program
  mint_program-Silent client mint = Keeps->>= (account_info-Silent env chain client mint) (λ found.
      Keeps->>= (Keeps-lift _) (λ info. Keeps->>= (Keeps-lift _) (λ owner.
        Keeps->>= (Keeps-lift _) (λ key. Keeps->>= (Keeps-lift _) (λ known. Keeps-pure key)))))

  -- The token of a command: of the first token program only, and a wallet that holds the amount.
  pub record IsTokens (options : Options) (client : Rpc) (source : PublicAccount)
      (mint program : Bytes) (amount decimals : ℕ) : Type 0 where
    pub mint_text : Bytes
    pub amount_text : Bytes
    pub held : ℕ
    pub minted :
        (required options (ascii "mint") ≡ ok mint_text) × (chain.parse_key mint_text ≡ ok mint)
    pub governed : Gave (mint_program env crates chain client mint) program
    pub legacy : program ≡ token_program chain
    pub precision : Gave (token_decimals env chain client mint) decimals
    pub given : required options (ascii "amount") ≡ ok amount_text
    pub read : parse_amount amount_text decimals ≡ ok amount
    pub positive : 0 < amount
    pub holding :
        Gave (token_balance env chain client (ata chain source.pubkey mint program)) (some held)
    pub enough : amount ≤ held

  pub record IsTokenTransfer (args : List Bytes) (confirm_every : Bool) (params : Doc)
      : Type 0 where
    pub options : Options
    pub v : PublicVault
    pub source : PublicAccount
    pub target : Bytes
    pub mint : Bytes
    pub program : Bytes
    pub amount : ℕ
    pub decimals : ℕ
    pub client : Rpc
    pub parsed :
        parse_options args (ascii "wallet" ∷ ascii "mint" ∷ ascii "to" ∷ ascii "amount" ∷ [])
        ≡ ok options
    pub from : IsSource env crates chain options v source
    pub to : IsTarget env crates chain options v source target
    pub connected : Gave (rpc env crates chain) client
    pub tokens : IsTokens options client source mint program amount decimals
    pub approved :
        IsApproved env crates chain client source
          (create_ata_idempotent chain source.pubkey target mint program
            ∷ transfer_checked
                (ata chain source.pubkey mint program)
                mint
                (ata chain target mint program)
                source.pubkey
                amount
                decimals
                program
            ∷ [])
          false
          confirm_every
          none
          params

  ensure_transfer_program-ok :
      (program : Bytes) {u : Unit {0}}
      → ensure_transfer_program chain program ≡ ok u
      → program ≡ token_program chain
  unfolding ensure_transfer_program
  ensure_transfer_program-ok program e = eq_of_beq (not-false (fail_if-eq-ok _ _ e))

  gave_some :
      (client : Rpc) (address : Bytes) {found : Option ℕ} {held : ℕ}
      → found ≡ some held
      → Gave (token_balance env chain client address) found
      → Gave (token_balance env chain client address) (some held)
  gave_some client address e gave = subst (Gave (token_balance env chain client address)) e gave

  -- A token transfer sends nothing, or one approved submission that makes the account of the recipient and
  -- transfers the parsed amount, in the decimals of the mint, from the account of the named wallet, which
  -- holds as much. The mint is governed by the first token program.
  pub token_transfer-IsTokenTransfer :
      (args : List Bytes) (w : World)
      → OnlySends
          (IsTokenTransfer args w.app.config.security.confirm_every_transaction)
          (token_transfer env crates chain args)
          w
  unfolding token_transfer
  token_transfer-IsTokenTransfer args w =
      let P = IsTokenTransfer args w.app.config.security.confirm_every_transaction in
      OnlySends->>=-Silent P _ _ w refl (Keeps-lift _) (λ options w1 e1 c1.
        OnlySends->>=-Silent P _ _ w1 c1 (public_vault-Silent env crates) (λ v w2 e2 c2.
          OnlySends->>=-Silent P _ _ w2 c2 (Keeps-lift _) (λ name w3 e3 c3.
            OnlySends->>=-Silent P _ _ w3 c3 (Keeps-lift _) (λ source w4 e4 c4.
              OnlySends->>=-Silent P _ _ w4 c4 (Keeps-lift _) (λ mint_text w5 e5 c5.
                OnlySends->>=-Silent P _ _ w5 c5 (Keeps-lift _) (λ mint w6 e6 c6.
                  OnlySends->>=-Silent P _ _ w6 c6 (Keeps-lift _) (λ to w7 e7 c7.
                    OnlySends->>=-Silent P _ _ w7 c7 (Keeps-lift _) (λ target w8 e8 c8.
                      OnlySends->>=-Silent P _ _ w8 c8 (Keeps-lift _) (λ other w9 e9 c9.
                        OnlySends->>=-Silent P _ _ w9 c9 (rpc-Silent env crates chain)
                          (λ client w10 e10 c10.
                            OnlySends->>=-Silent P _ _ w10 c10 (mint_program-Silent client mint)
                              (λ program w11 e11 c11.
                                OnlySends->>=-Silent P _ _ w11 c11 (Keeps-lift _)
                                  (λ legacy w12 e12 c12.
                                    OnlySends->>=-Silent P _ _ w12 c12
                                      (token_decimals-Silent env chain client mint)
                                      (λ decimals w13 e13 c13.
                                        OnlySends->>=-Silent P _ _ w13 c13 (Keeps-lift _)
                                          (λ amount_text w14 e14 c14.
                                            OnlySends->>=-Silent P _ _ w14 c14 (Keeps-lift _)
                                              (λ amount w15 e15 c15.
                                                OnlySends->>=-Silent P _ _ w15 c15 (Keeps-lift _)
                                                  (λ positive w16 e16 c16.
                                                    OnlySends->>=-Silent P _ _ w16 c16
                                                      (token_balance-Silent env chain client _)
                                                      (λ found w17 e17 c17.
                                                        OnlySends->>=-Silent P _ _ w17 c17
                                                          (Keeps-lift _)
                                                          (λ held w18 e18 c18.
                                                            OnlySends->>=-Silent P _ _ w18 c18
                                                            (Keeps-lift _)
                                                            (λ enough w19 e19 c19.
                                                            OnlySends->>=-Silent P _ _ w19 c19
                                                            (warn_destination-Silent env crates
                                                            chain client target)
                                                            (λ warned w20 e20 c20.
                                                            OnlySends->>=-Quiet P _ _ w20
                                                            (IsApproved-send_transaction env crates
                                                            chain client source _ false none w20 c20
                                                            (λ params approved. record {
                                                            options = options;
                                                            v = v;
                                                            source = source;
                                                            target = target;
                                                            mint = mint;
                                                            program = program;
                                                            amount = amount;
                                                            decimals = decimals;
                                                            client = client;
                                                            parsed = (Returns-lift _ w e1).0;
                                                            from = record {
                                                            name = name;
                                                            read = (w1, w2, e2);
                                                            named = (Returns-lift _ w2 e3).0;
                                                            found = (Returns-lift _ w3 e4).0;
                                                            };
                                                            to = record {
                                                            to = to;
                                                            given = (Returns-lift _ w6 e7).0;
                                                            resolved = (Returns-lift _ w7 e8).0;
                                                            other = differ _ _ (passed _ _ w8 e9);
                                                            };
                                                            connected = (w9, w10, e10);
                                                            tokens = record {
                                                            mint_text = mint_text;
                                                            amount_text = amount_text;
                                                            held = held;
                                                            minted = (
                                                            (Returns-lift _ w4 e5).0,
                                                            (Returns-lift _ w5 e6).0,
                                                            );
                                                            governed = (w10, w11, e11);
                                                            legacy =
                                                            ensure_transfer_program-ok program
                                                            (Returns-lift _ w11 e12).0;
                                                            precision = (w12, w13, e13);
                                                            given = (Returns-lift _ w13 e14).0;
                                                            read = (Returns-lift _ w14 e15).0;
                                                            positive =
                                                            positive_lem amount
                                                            (passed _ _ w15 e16);
                                                            holding =
                                                            gave_some client _
                                                            (ok_or-eq-ok found _
                                                            (Returns-lift _ w17 e18).0)
                                                            (w16, w17, e17);
                                                            enough =
                                                            enough_lem held amount
                                                            (passed _ _ w18 e19);
                                                            };
                                                            approved = approved;
                                                            }))
                                                            (λ sent.
                                                            remember_if-Quiet env crates chain _
                                                            target)))))))))))))))))))))
