-- ===== src/Commands/Secrets/Export.antt =====
-- The command `export` of src/commands.rs, and what it shows.
use solx.Common.{
  ℕ, ◌≡◌, refl, ap, ◌∙◌, inr, Bool, false, not, ◌||◌, List, ◌∷◌, Bytes, Option, some, ok, fail_if,
  fail_if-eq-ok, ◌+◌,
}
use mathlib.Core.Path.{subst}
use solx.Common.Eq.{◌==◌, nat_eq, list_eq, option_eq, eq_of_beq}
use solx.Common.Text.{trim}
use solx.Vault.{Vault, Account, account}
use solx.Vault.Edit.{derivation_index}
use solx.Vault.Session.{Crates}
use solx.Effects.{question, reveal, Env, World, Effect, ◌>>=◌, ◌>>◌, lift, emit, ask}
use solx.Effects.Runs.{Returns, Returns-ask, Returns-emit}
use solx.Effects.Revealing.{reveals, shown_secrets, Mute-Hidden, Mute-ask, Hidden-question}
use solx.Effects.Writing.{OnlyChanges, OnlyChanges->>=, OnlyChanges-lift, OnlyChanges-implies}
use solx.App.{release_session, open_vault}
use solx.App.Hidden.{release_session-Mute, open_vault-Mute}
use solx.Commands.Send.Signed.{matched, neither, not-false}
use solx.Commands.Local.Deleted.{WasRead}
use solx.Commands.Local.{trimmed}
use solx.Commands.Secrets.{Sources, ExportKind, parse_export, no_phrase, write_export_secret}

module _ (sources : Sources) (env : Env) (crates : Crates) where
  -- The wallet is the one that was approved: its address and its index.
  abbrev pub is_changed : Bytes → Bytes → Option ℕ → Option ℕ → Bool
  is_changed expected address index now = not (address == expected) || not (now == index)

  -- What follows the approval of a wallet with this address and index.
  abbrev pub show_secret : Bytes → ExportKind → Bytes → Option ℕ → Effect (Unit {0})
  show_secret name kind expected index = do
    now ← open_vault env crates
    a ← lift (account now name)
    same ← lift (derivation_index now name)
    lift (fail_if (is_changed expected a.pubkey index same) "wallet changed after export approval")
    secret ← lift (write_export_secret sources crates now name kind)
    emit (reveal secret)

  abbrev pub export_named : Bytes → ExportKind → Effect (Unit {0})
  export_named name kind = do
    v ← open_vault env crates
    a ← lift (account v name)
    index ← lift (derivation_index v name)
    lift (
        fail_if (no_phrase kind index)
          "imported private-key wallets have no stored recovery phrase")
    release_session
    emit (question name)
    input ← ask env.line
    lift (fail_if (not (trimmed input == some name)) "export cancelled")
    show_secret name kind a.pubkey index

  unfoldable pub export : List Bytes → Effect (Unit {0})
  unfolding parse_export open_vault account derivation_index release_session trim
      write_export_secret
  export args = do words ← lift (parse_export args); export_named words.0 words.1

  unchanged :
      (expected address : Bytes) (index now : Option ℕ)
      → is_changed expected address index now ≡ false
      → (address ≡ expected) × (now ≡ index)
  unchanged expected address index now e =
      let (same, same_index) = neither (not (address == expected)) (not (now == index)) e in
      (eq_of_beq (not-false same), eq_of_beq (not-false same_index))

  -- The secret of the wallet of this name, at this address and index, in the vault that `w` opens.
  pub record IsShown (name : Bytes) (kind : ExportKind) (expected : Bytes) (index : Option ℕ)
      (w : World) (before after : List Bytes) : Type 0 where
    pub current : Vault
    pub exported : Account
    pub secret : Bytes
    pub reopened : World
    pub read_again : Returns (open_vault env crates) w current reopened
    pub is : account current name ≡ ok exported
    pub same_address : exported.pubkey ≡ expected
    pub same_index : derivation_index current name ≡ ok index
    pub written : write_export_secret sources crates current name kind ≡ ok secret
    pub shows : after ≡ secret ∷ before

  show_secret-IsShown :
      (name : Bytes) (kind : ExportKind) (expected : Bytes) (index : Option ℕ) (w : World)
      → OnlyChanges shown_secrets
          (IsShown name kind expected index w)
          (show_secret name kind expected index)
          w
  unfolding emit reveals
  show_secret-IsShown name kind expected index w =
      let Q = IsShown name kind expected index w in
      OnlyChanges->>= shown_secrets Q _ _ w (Mute-Hidden (open_vault-Mute env crates)) (λ now w1 e1.
        OnlyChanges-lift shown_secrets Q _ _ w1 (λ a e2.
          OnlyChanges-lift shown_secrets Q _ _ w1 (λ same e3.
            OnlyChanges-lift shown_secrets Q _ _ w1 (λ kept e4.
              OnlyChanges-lift shown_secrets Q _ _ w1 (λ secret e5.
                let (address, place) =
                  unchanged expected a.pubkey index same (fail_if-eq-ok _ _ e4) in
                inr (record {
                  current = now;
                  exported = a;
                  secret = secret;
                  reopened = w1;
                  read_again = e1;
                  is = e2;
                  same_address = address;
                  same_index = e3 ∙ ap ok place;
                  written = e5;
                  shows = refl;
                }))))))

  -- An export in a run from `w`: the vault of the start was reviewed, the next line was the name, and
  -- the vault that is opened right after it shows its wallet at the address and the index reviewed.
  pub record IsExport (args : List Bytes) (w : World) (before after : List Bytes) : Type 0 where
    pub name : Bytes
    pub kind : ExportKind
    pub reviewed : Vault
    pub wallet : Account
    pub index : Option ℕ
    pub opened : World
    pub released : World
    pub approved : World
    pub named : parse_export args ≡ ok (name, kind)
    pub read_first : Returns (open_vault env crates) w reviewed opened
    pub was : account reviewed name ≡ ok wallet
    pub was_at : derivation_index reviewed name ≡ ok index
    pub release : Returns release_session opened tt released
    pub typed : WasRead env released.moment name
    pub next :
        approved
        ≡ record released { moment = released.moment + 1; log = question name ∷ released.log }
    pub secret : IsShown name kind wallet.pubkey index approved before after

  named-IsExport :
      (args : List Bytes) (name : Bytes) (kind : ExportKind)
      → parse_export args ≡ ok (name, kind)
      → (w : World) → OnlyChanges shown_secrets (IsExport args w) (export_named name kind) w
  named-IsExport args name kind named w =
      let Q = IsExport args w in
      OnlyChanges->>= shown_secrets Q _ _ w (Mute-Hidden (open_vault-Mute env crates)) (λ v w1 e1.
        OnlyChanges-lift shown_secrets Q _ _ w1 (λ a e2.
          OnlyChanges-lift shown_secrets Q _ _ w1 (λ index e3.
            OnlyChanges-lift shown_secrets Q _ _ w1 (λ has e4.
              OnlyChanges->>= shown_secrets Q _ _ w1 (Mute-Hidden release_session-Mute)
                (λ released w2 e5.
                  OnlyChanges->>= shown_secrets Q _ _ w2 (Hidden-question name) (λ asked w3 e6.
                    OnlyChanges->>= shown_secrets Q _ _ w3 (Mute-Hidden (Mute-ask _))
                      (λ input w4 e7. OnlyChanges-lift shown_secrets Q _ _ w4 (λ said e8.
                        OnlyChanges-implies shown_secrets {R = Q}
                          (show_secret name kind a.pubkey index) w4
                          (show_secret-IsShown name kind a.pubkey index w4)
                          (λ before after secret.
                            let asked_at = Returns-emit (question name) w2 e6 in
                            let (read, moved) = Returns-ask env.line w3 e7 in
                            record {
                              name = name;
                              kind = kind;
                              reviewed = v;
                              wallet = a;
                              index = index;
                              opened = w1;
                              released = w2;
                              approved = w4;
                              named = named;
                              read_first = e1;
                              was = e2;
                              was_at = e3;
                              release = e5;
                              typed =
                                  subst (λ moment. WasRead env moment name)
                                    (ap (λ (u : World). u.moment) asked_at)
                                    (input, read, matched _ _ _ e8);
                              next =
                                  moved
                                  ∙ ap (λ (u : World). record u { moment = u.moment + 1 }) asked_at;
                              secret = secret;
                            })))))))))

  -- Exporting shows nothing, or one secret, of the wallet that the words name: the vault was opened and
  -- reviewed, the next line that was typed is the name, and the vault that is opened right after it has
  -- the wallet of this name at the address and the index that were reviewed.
  pub export-IsExport :
      (args : List Bytes) (w : World) → OnlyChanges shown_secrets (IsExport args w) (export args) w
  unfolding export
  export-IsExport args w =
      OnlyChanges-lift shown_secrets (IsExport args w) _ _ w
        (λ words e1. named-IsExport args words.0 words.1 e1 w)
