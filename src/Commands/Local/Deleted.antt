-- ===== src/Commands/Local/Deleted.antt =====
-- What the command `delete` of src/commands.rs writes.
use solx.Common.{
  ℕ, ◌≡◌, ◌≢◌, refl, sym, ap, ◌⊎◌, inl, inr, ◌+◌, ◌∙◌, Bool, true, false, List, [], ◌∷◌, Bytes,
  ascii, String, Option, none, some, ok, err, ok_inj, err-ne-ok, Bool-cases, if◌then◌else◌,
}
use mathlib.Core.Path.{subst}
use solx.Common.Eq.{◌==◌, nat_eq, list_eq, option_eq, eq_of_beq}
use solx.Common.Text.{is_nil}
use solx.Vault.{Vault, RecoveryPhraseUse, imported_key, shared, unused_after_deletion}
use solx.Vault.Edit.Remove.{recovery_phrase_use, remove_account}
use solx.Vault.Session.{Crates, Disk}
use solx.Effects.{Env, World, lift}
use solx.Effects.Runs.{
  Returns, Returns-split, Returns-lift, Returns-pure, Returns-ask, Returns-emit,
}
use solx.Effects.Keeps.{Keeps-lift, Keeps-pure, Keeps->>=}
use solx.Effects.Writing.{
  storage, Calm, Calm-emit, Calm-ask, OnlyWrites, OnlyChanges->>=, OnlyChanges-lift,
  OnlyChanges->>=-Keeps, OnlyChanges-implies,
}
use solx.App.{done, open_vault, release_session, commit_vault}
use solx.App.Calm.{release_session-Calm, open_vault-Calm, IsSaved, commit_vault-IsSaved}
use solx.Commands.Send.Signed.{equal, matched}
use solx.Commands.Local.{
  trimmed, erase_answer, ask_erase, confirm_delete_metadata, delete_named, delete,
}

true-ne-false : true ≢ false
true-ne-false e = cc

not_erased :
    (nothing erase : Bool) (message : String)
    → (if nothing then ok false else err message) ≡ ok erase
    → erase ≡ false
not_erased true erase message e = sym (ok_inj e)
not_erased false erase message e = absurd (err-ne-ok e)

module _ (env : Env) where
  -- The line that was read at this moment is this text, but for white space around it.
  abbrev pub WasRead : ℕ → Bytes → Type 0
  WasRead moment text =
      (input : Option Bytes) × (env.line moment ≡ ok input) × (trimmed input ≡ some text)

  -- A phrase is erased only where "ERASE" was typed then, and no other wallet uses it.
  abbrev pub MayErase : ℕ → RecoveryPhraseUse → Bool → Type 0
  MayErase moment usage true = (usage ≡ unused_after_deletion) × WasRead moment (ascii "ERASE")
  MayErase moment usage false = Unit

  answer_lem :
      (input : Option Bytes) (erase : Bool)
      → erase_answer input ≡ ok erase
      → (erase ≡ false) ⊎ (input ≡ some (ascii "ERASE"))
  answer_lem none erase e = absurd (err-ne-ok e)
  answer_lem (some text) erase e = elim (Bool-cases (text == ascii "ERASE")) [
    | inl same ↦ inr (ap some (eq_of_beq same))
    | inr other ↦ inl (not_erased (is_nil text) erase _ (rw other at e))
  ]

  may_erase :
      (erase : Bool) (moment : ℕ) (input : Option Bytes)
      → env.line moment ≡ ok input
      → (erase ≡ false) ⊎ (trimmed input ≡ some (ascii "ERASE"))
      → MayErase moment unused_after_deletion erase
  may_erase true moment input read (inl e) = absurd (true-ne-false e)
  may_erase true moment input read (inr typed) = (refl, (input, read, typed))
  may_erase false moment input read said = tt

  ask_erase-Returns :
      (usage : RecoveryPhraseUse) (w : World) {erase : Bool} {after : World}
      → Returns (ask_erase env usage) w erase after
      → MayErase w.moment usage erase
  ask_erase-Returns imported_key w e =
      subst (MayErase w.moment imported_key) (Returns-pure false w e).0 tt
  ask_erase-Returns shared w e = subst (MayErase w.moment shared) (Returns-pure false w e).0 tt
  ask_erase-Returns unused_after_deletion w {erase} e = Returns-split _ _ _ e (λ asked w1 e1 r1.
      Returns-split _ _ _ r1 (λ input w2 e2 r2.
        subst (λ moment. MayErase moment unused_after_deletion erase)
          (ap (λ (v : World). v.moment) (Returns-emit _ w e1))
          (may_erase _ w1.moment input (Returns-ask env.line w1 e2).0
            (answer_lem (trimmed input) _ (Returns-lift _ w2 r2).0))))

  -- The name is the next line that is read, and "ERASE" the one after it.
  confirm_delete_metadata-Returns :
      (name : Bytes) (usage : RecoveryPhraseUse) (w : World) {erase : Bool} {after : World}
      → Returns (confirm_delete_metadata env name usage) w erase after
      → WasRead w.moment name × MayErase (w.moment + 1) usage erase
  unfolding confirm_delete_metadata
  confirm_delete_metadata-Returns name usage w {erase} e = Returns-split _ _ _ e (λ asked w1 e1 r1.
      Returns-split _ _ _ r1 (λ input w2 e2 r2. Returns-split _ _ _ r2 (λ same w3 e3 r3.
        let asked_at = ap (λ (v : World). v.moment) (Returns-emit _ w e1) in
        let (read, moved) = Returns-ask env.line w1 e2 in
        (
          subst (λ moment. WasRead moment name) asked_at (input, read, equal _ _ _ w2 e3),
          subst (λ moment. MayErase moment usage erase)
              (ap (λ (v : World). v.moment) (Returns-lift _ w2 e3).1
                ∙ ap (λ (v : World). v.moment) moved
                ∙ ap (λ moment. moment + 1) asked_at)
              (ask_erase-Returns usage w3 r3),
        ))))

  ask_erase-Calm : (usage : RecoveryPhraseUse) → Calm (ask_erase env usage)
  ask_erase-Calm imported_key = Keeps-pure false
  ask_erase-Calm shared = Keeps-pure false
  ask_erase-Calm unused_after_deletion =
      Keeps->>= (Calm-emit _) (λ asked. Keeps->>= (Calm-ask _) (λ input. Keeps-lift _))

  confirm_delete_metadata-Calm :
      (name : Bytes) (usage : RecoveryPhraseUse) → Calm (confirm_delete_metadata env name usage)
  unfolding confirm_delete_metadata
  confirm_delete_metadata-Calm name usage = Keeps->>= (Calm-emit _) (λ asked.
      Keeps->>= (Calm-ask _) (λ input. Keeps->>= (Keeps-lift _) (λ same. ask_erase-Calm usage)))

  module _ (crates : Crates) where
    -- A deletion in a run from `w`: the vault of the start was reviewed, the two lines that were read
    -- next approved it, and the vault that was read after them is the reviewed one, byte for byte; what is
    -- saved lacks the wallet whose name was typed.
    pub record IsDeletion (args : List Bytes) (w : World) (before after : Disk) : Type 0 where
      pub name : Bytes
      pub usage : RecoveryPhraseUse
      pub erase : Bool
      pub reviewed : Vault
      pub current : Vault
      pub removed : Vault
      pub opened : World
      pub released : World
      pub approved : World
      pub reopened : World
      pub named : args ≡ name ∷ []
      pub read_first : Returns (open_vault env crates) w reviewed opened
      pub used : recovery_phrase_use reviewed name ≡ ok usage
      pub release : Returns release_session opened tt released
      pub approval : Returns (confirm_delete_metadata env name usage) released erase approved
      pub typed : WasRead released.moment name
      pub may_erase : MayErase (released.moment + 1) usage erase
      pub read_again : Returns (open_vault env crates) approved current reopened
      pub unchanged : current.source_bytes ≡ reviewed.source_bytes
      pub removal : remove_account current name erase ≡ ok removed
      pub saved : IsSaved env crates removed before after

    named-IsDeletion :
        (name : Bytes) (w : World)
        → OnlyWrites (IsDeletion (name ∷ []) w) (delete_named env crates name) w
    named-IsDeletion name w =
        let Q = IsDeletion (name ∷ []) w in
        OnlyChanges->>= storage Q _ _ w (open_vault-Calm env crates) (λ v w1 e1.
          OnlyChanges-lift storage Q _ _ w1 (λ first e2. OnlyChanges-lift storage Q _ _ w1 (λ a e3.
            OnlyChanges-lift storage Q _ _ w1 (λ usage e4.
              OnlyChanges->>= storage Q _ _ w1 release_session-Calm (λ released w2 e5.
                OnlyChanges->>= storage Q _ _ w2 (confirm_delete_metadata-Calm name usage)
                  (λ erase w3 e6.
                    OnlyChanges->>= storage Q _ _ w3 (open_vault-Calm env crates) (λ now w4 e7.
                      OnlyChanges-lift storage Q _ _ w4 (λ same e8.
                        OnlyChanges-lift storage Q _ _ w4 (λ removed e9.
                          OnlyChanges->>=-Keeps storage Q _ _ w4
                            (OnlyChanges-implies storage {R = Q} (commit_vault env crates removed)
                              w4 (commit_vault-IsSaved env crates removed w4)
                              (λ before after saved.
                                let (typed, may) =
                                  confirm_delete_metadata-Returns name usage w2 e6 in
                                record {
                                  name = name;
                                  usage = usage;
                                  erase = erase;
                                  reviewed = v;
                                  current = now;
                                  removed = removed;
                                  opened = w1;
                                  released = w2;
                                  approved = w3;
                                  reopened = w4;
                                  named = refl;
                                  read_first = e1;
                                  used = e4;
                                  release = e5;
                                  approval = e6;
                                  typed = typed;
                                  may_erase = may;
                                  read_again = e7;
                                  unchanged = matched _ _ _ e8;
                                  removal = e9;
                                  saved = saved;
                                }))
                            (λ saved. Keeps-pure done))))))))))

    -- Deleting a wallet leaves the vault file as it is, or saves the vault without the wallet: after the
    -- vault was opened and reviewed, its name was the next line that was typed, and the vault that was
    -- opened after that had the same bytes; its phrase is erased only where no other wallet uses it and
    -- "ERASE" was the line after the name.
    pub delete-IsDeletion :
        (args : List Bytes) (w : World) → OnlyWrites (IsDeletion args w) (delete env crates args) w
    unfolding delete lift
    delete-IsDeletion [] w = inl refl
    delete-IsDeletion (name ∷ []) w = named-IsDeletion name w
    delete-IsDeletion (name ∷ word ∷ words) w = inl refl
