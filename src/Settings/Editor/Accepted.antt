-- ===== src/Settings/Editor/Accepted.antt =====
-- What the editor of src/settings.rs hands over to be saved.
use solx.Common.{
  ℕ, ◌≡◌, refl, ◌∙◌, ◌⊎◌, inl, inr, Bool, true, false, not, ◌&&◌, ◌||◌, List, [], ◌∷◌, any, length,
  Bytes, ascii, Option, none, some, Result, ok, err, panicked, ◌>>◌, >>=-eq-ok, ok_inj, leb,
  if◌then◌else◌,
}
use mathlib.Core.Path.{subst}
use mathlib.Core.Option.{some-injective}
use solx.Common.Eq.{◌==◌, nat_eq, list_eq, eq_of_beq}
use solx.Common.Text.{is_nil, trim}
use solx.Config.{Config, Aliases, same_settings, valid_name}
use solx.Config.Validate.{Parsers, validate}
use solx.Vault.Codec.{Json}
use solx.Settings.{Field, read_only, set}
use solx.Settings.Ranges.{IsRanged, set-IsEdit}
use solx.Settings.Editor.{
  Screen, menu, saving, fields, new_value, wallet_action, wallet_name, alias_action, alias_name,
  alias_words, Move, waits, cancelled, saves, check_size, adopt, ask_save, choose_field,
  with_wallets, on_save, on_menu, on_saving, on_fields, set_value, on_value, keep_wallets,
  on_wallet_action, add_wallet, on_wallet_name, on_alias_action, keep_aliases, on_alias_name,
  on_alias_words, at_screen, respond, follow, edit_from, edit,
}

-- Some line that was read is "SAVE", but for white space around it.
abbrev pub SaveTyped : List (Result Bytes) → Type 0
SaveTyped [] = ⊥
SaveTyped (read ∷ reads) =
    ((input : Bytes) × (read ≡ ok input) × (trim input ≡ ascii "SAVE")) ⊎ SaveTyped reads

module _ (parsers : Parsers) (json : Json) (path : Bytes) (original : Config) where
  -- A draft that may be saved.
  pub record IsAccepted (draft : Config) : Type 0 where
    pub same_vault : draft.vault ≡ original.vault
    pub same_mode : draft.mode ≡ original.mode
    pub valid : validate parsers draft ≡ ok tt
    pub small : check_size json draft ≡ ok tt
    pub changed : same_settings draft original ≡ false

  -- The drafts on the way.
  abbrev IsDraft : Config → Type 0
  IsDraft draft = IsRanged draft × (draft.vault ≡ original.vault) × (draft.mode ≡ original.mode)

  abbrev Fits : Screen → Config → Type 0
  Fits saving draft = IsDraft draft × IsAccepted draft
  Fits _ draft = IsDraft draft

  -- A draft is saved only from the last prompt, by its word.
  abbrev FitsMove : Bytes → Move → Type 0
  FitsMove input (waits screen draft) = Fits screen draft
  FitsMove input cancelled = Unit
  FitsMove input (saves draft) = IsAccepted draft × (input ≡ ascii "SAVE")

  abbrev FitsResult : Bytes → Result Move → Type 0
  FitsResult input (ok move) = FitsMove input move
  FitsResult input (err message) = Unit
  FitsResult input panicked = Unit

  record Fine (input : Bytes) (r : Result Move) : Type 0 where
    at : FitsResult input r

  module _ {input : Bytes} where
    Fine-if :
        (test : Bool) {yes_move no_move : Result Move}
        → (test ≡ true → Fine input yes_move)
        → (test ≡ false → Fine input no_move)
        → Fine input (if test then yes_move else no_move)
    Fine-if true h k = h refl
    Fine-if false h k = k refl

    Fine-after :
        (check : Result (Unit {0})) {r : Result Move} → Fine input r → Fine input (check >> r)
    Fine-after (ok u) h = h
    Fine-after (err message) h = record { at = tt }
    Fine-after panicked h = record { at = tt }

    adopt-Fine :
        (group : ℕ) (old new : Config) (r : Result (Unit {0}))
        → IsDraft old
        → IsDraft new
        → Fine input (adopt (fields group) old new r)
    adopt-Fine group old new (ok u) d n = record { at = n }
    adopt-Fine group old new (err message) d n = record { at = d }
    adopt-Fine group old new panicked d n = record { at = tt }

    adopt_menu-Fine :
        (old new : Config) (r : Result (Unit {0}))
        → IsDraft old
        → IsDraft new
        → Fine input (adopt menu old new r)
    adopt_menu-Fine old new (ok u) d n = record { at = n }
    adopt_menu-Fine old new (err message) d n = record { at = d }
    adopt_menu-Fine old new panicked d n = record { at = tt }

  module _ (draft : Config) (d : IsDraft draft) (input : Bytes) where
    on_save-Fine : Fine input (on_save parsers json path original draft)
    unfolding on_save
    on_save-Fine =
        Fine-if (same_settings draft original) (λ same. record { at = tt })
          (λ changed. ask_save-Fine (validate parsers draft >> check_size json draft) (λ e.
            let (done, valid, small) = >>=-eq-ok (validate parsers draft) _ e in
            record {
              same_vault = d.1;
              same_mode = d.2;
              valid = valid;
              small = small;
              changed = changed;
            }))
      where
        ask_save-Fine :
            (r : Result (Unit {0})) → (r ≡ ok tt → IsAccepted draft) → Fine input (ask_save draft r)
        ask_save-Fine (ok u) known = record { at = (d, known refl) }
        ask_save-Fine (err message) known = record { at = d }
        ask_save-Fine panicked known = record { at = tt }

    on_menu-Fine : Fine input (on_menu parsers json path original draft input)
    unfolding on_menu
    on_menu-Fine =
        Fine-if (input == ascii "1") (λ e. record { at = d })
          (λ e.
            Fine-if (input == ascii "2") (λ e. record { at = d })
              (λ e.
                Fine-if (input == ascii "3") (λ e. record { at = d })
                  (λ e.
                    Fine-if (input == ascii "4") (λ e. record { at = d })
                      (λ e.
                        Fine-if (input == ascii "s" || input == ascii "save") (λ e. on_save-Fine)
                          (λ e.
                            Fine-if (input == ascii "c" || input == ascii "cancel")
                              (λ e. record { at = tt }) (λ e. record { at = d }))))))

    on_saving-Fine :
        IsAccepted draft → Fine input (on_saving parsers json path original draft input)
    unfolding on_saving
    on_saving-Fine accepted =
        Fine-if (input == ascii "SAVE") (λ typed. record { at = (accepted, eq_of_beq typed) })
          (λ e. record { at = d })

    choose_field-Fine :
        (group : ℕ) (field : Option Field) → Fine input (choose_field group draft field)
    choose_field-Fine group none = record { at = d }
    choose_field-Fine group (some field) =
        Fine-if (read_only field draft) (λ e. record { at = d }) (λ e. record { at = d })

    on_fields-Fine :
        (group : ℕ) → Fine input (on_fields parsers json path original group draft input)
    unfolding on_fields
    on_fields-Fine group =
        Fine-if (input == ascii "b" || input == ascii "back" || is_nil input)
          (λ e. record { at = d })
          (λ e.
            Fine-if (group == 2 && input == ascii "4") (λ e. record { at = d })
              (λ e. choose_field-Fine group _))

    set_value-Fine :
        (group : ℕ) (field : Field) (r : Result Config)
        → set parsers path field draft input ≡ r
        → Fine input (set_value parsers json path original group draft r)
    set_value-Fine group field (ok new) e =
        let (ranged, rest) = set-IsEdit parsers path draft d.0 field input new e in
        adopt-Fine group draft new _ d (ranged, rest.0 ∙ d.1, rest.1 ∙ d.2)
    set_value-Fine group field (err message) e = record { at = d }
    set_value-Fine group field panicked e = record { at = tt }

    on_value-Fine :
        (group : ℕ) (field : Field)
        → Fine input (on_value parsers json path original group field draft input)
    unfolding on_value
    on_value-Fine group field =
        Fine-if (is_nil input) (λ e. record { at = d }) (λ e. set_value-Fine group field _ refl)

    keep_wallets-Fine :
        (wallets : List Bytes) → Fine input (keep_wallets parsers json path original draft wallets)
    unfolding keep_wallets
    keep_wallets-Fine wallets =
        Fine-after (check_size json (with_wallets draft wallets)) (record { at = d })

    on_wallet_action-Fine : Fine input (on_wallet_action parsers json path original draft input)
    unfolding on_wallet_action
    on_wallet_action-Fine =
        Fine-if (input == ascii "back" || is_nil input) (λ e. record { at = d })
          (λ e.
            Fine-if (input == ascii "clear") (λ e. keep_wallets-Fine [])
              (λ e.
                Fine-if (input == ascii "add" || input == ascii "remove") (λ e. record { at = d })
                  (λ e. record { at = d })))

    on_wallet_name-Fine :
        (adding : Bool) → Fine input (on_wallet_name parsers json path original adding draft input)
    unfolding on_wallet_name add_wallet
    on_wallet_name-Fine adding =
        Fine-if (not (valid_name input)) (λ e. record { at = d })
          (λ e.
            Fine-if adding
              (λ e.
                Fine-if (any (λ n. n == input) draft.history.wallets) (λ e. keep_wallets-Fine _)
                  (λ e.
                    Fine-if (leb 16 (length draft.history.wallets)) (λ e. record { at = d })
                      (λ e. keep_wallets-Fine _)))
              (λ e. keep_wallets-Fine _))

    on_alias_action-Fine : Fine input (on_alias_action parsers json path original draft input)
    unfolding on_alias_action
    on_alias_action-Fine =
        Fine-if (input == ascii "set" || input == ascii "remove") (λ e. record { at = d })
          (λ e. record { at = d })

    keep_aliases-Fine :
        (aliases : Aliases) → Fine input (keep_aliases parsers json path original draft aliases)
    unfolding keep_aliases
    keep_aliases-Fine aliases = adopt_menu-Fine draft _ _ d d

    on_alias_name-Fine :
        (setting : Bool) → Fine input (on_alias_name parsers json path original setting draft input)
    unfolding on_alias_name
    on_alias_name-Fine setting =
        Fine-if (not (valid_name input)) (λ e. record { at = d })
          (λ e. Fine-if setting (λ e. record { at = d }) (λ e. keep_aliases-Fine _))

    on_alias_words-Fine :
        (name : Bytes) → Fine input (on_alias_words parsers json path original name draft input)
    unfolding on_alias_words
    on_alias_words-Fine name = keep_aliases-Fine _

  at_screen-Fine :
      (screen : Screen) (draft : Config) (input : Bytes)
      → Fits screen draft
      → Fine input (at_screen parsers json path original screen draft input)
  unfolding at_screen
  at_screen-Fine menu draft input d = on_menu-Fine draft d input
  at_screen-Fine saving draft input d = on_saving-Fine draft d.0 input d.1
  at_screen-Fine (fields group) draft input d = on_fields-Fine draft d input group
  at_screen-Fine (new_value group field) draft input d = on_value-Fine draft d input group field
  at_screen-Fine wallet_action draft input d = on_wallet_action-Fine draft d input
  at_screen-Fine (wallet_name adding) draft input d = on_wallet_name-Fine draft d input adding
  at_screen-Fine alias_action draft input d = on_alias_action-Fine draft d input
  at_screen-Fine (alias_name setting) draft input d = on_alias_name-Fine draft d input setting
  at_screen-Fine (alias_words name) draft input d = on_alias_words-Fine draft d input name

  respond-Fine :
      (screen : Screen) (draft : Config) (input : Bytes)
      → Fits screen draft
      → Fine (trim input) (respond parsers json path original screen draft input)
  unfolding respond
  respond-Fine screen draft input d =
      Fine-if (trim input == ascii "exit") (λ e. record { at = tt })
        (λ e. at_screen-Fine screen draft (trim input) d)

  fits_of :
      (input : Bytes) (r : Result Move) {move : Move}
      → Fine input r
      → r ≡ ok move
      → FitsMove input move
  fits_of input (ok m) fine e = subst (FitsMove input) (ok_inj e) fine.at
  fits_of input (err message) fine e = cc
  fits_of input panicked fine e = cc

  follow_lem :
      (next : Screen → Config → Result (Option Config)) (input : Bytes)
      (reads : List (Result Bytes)) (move : Move) {accepted : Config}
      → FitsMove (trim input) move
      → ((screen : Screen) (draft : Config)
          → Fits screen draft
          → next screen draft ≡ ok (some accepted)
          → IsAccepted accepted × SaveTyped reads)
      → follow parsers json path original next move ≡ ok (some accepted)
      → IsAccepted accepted × SaveTyped (ok input ∷ reads)
  follow_lem next input reads (waits screen draft) fits ih e =
      let (accepted, typed) = ih screen draft fits e in (accepted, inr typed)
  follow_lem next input reads cancelled fits ih e = cc
  follow_lem next input reads (saves draft) fits ih e =
      let same = some-injective _ _ (ok_inj e) in
      (subst IsAccepted same fits.0, inl (input, refl, fits.1))

  edit_from-IsAccepted :
      (screen : Screen) (draft : Config) (reads : List (Result Bytes)) {accepted : Config}
      → Fits screen draft
      → edit_from parsers json path original screen draft reads ≡ ok (some accepted)
      → IsAccepted accepted × SaveTyped reads
  unfolding edit_from
  edit_from-IsAccepted screen draft [] d e = cc
  edit_from-IsAccepted screen draft (err message ∷ reads) d e = cc
  edit_from-IsAccepted screen draft (panicked ∷ reads) d e = cc
  edit_from-IsAccepted screen draft (ok input ∷ reads) d e =
      let (move, responded, rest) =
        >>=-eq-ok (respond parsers json path original screen draft input) _ e in
      follow_lem (λ s c. edit_from parsers json path original s c reads) input reads move
        (fits_of (trim input) _ (respond-Fine screen draft input d) responded)
        (λ s c fits known. edit_from-IsAccepted s c reads fits known) rest

  -- Whatever is typed, a draft that the editor hands over differs from the settings, whose numbers are in
  -- range, is accepted by `validate` and fits 64 KiB, has the same vault's path and mode, and "SAVE" was
  -- typed.
  pub edit-IsAccepted :
      IsRanged original
      → (reads : List (Result Bytes)) (draft : Config)
      → edit parsers json path original reads ≡ ok (some draft)
      → IsAccepted draft × SaveTyped reads
  unfolding edit
  edit-IsAccepted ranged reads draft e =
      edit_from-IsAccepted menu original reads (ranged, refl, refl) e
