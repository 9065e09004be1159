-- ===== src/Settings/Editor.antt =====
-- The editing of settings in src/settings.rs, from the menu to the draft that is to be saved. The editor
-- waits at a prompt, a `Screen`, for a line; what the code does up to the next prompt is one step. A
-- return of `edit_group`, `edit_wallets` and `edit_aliases` leads to the prompt of the loop that called.
pub mod Accepted
use solx.Common.{
  ℕ, zero, suc, ◌*◌, Bool, true, false, not, ◌&&◌, ◌||◌, List, [], ◌∷◌, ◌++◌, any, length, take,
  get_elem?, Bytes, ascii, Option, none, some, Result, ok, err, panicked, ◌>>=◌, ◌>>◌, map_err, leb,
  ltb, if◌then◌else◌,
}
use solx.Common.Eq.{◌==◌, nat_eq, list_eq}
use solx.Common.Text.{is_nil, trim, split_whitespace}
use solx.Common.Numbers.{parse_unsigned}
use solx.Config.{Config, Aliases, default_config, same_settings, valid_name}
use solx.Config.Validate.{Parsers, validate}
use solx.Secret.{with_capacity, extend_from_slice}
use solx.Vault.Codec.{Json}
use solx.Settings.{Field, rpc_fields, security_fields, history_fields, read_only, set}

-- The prompts; the number is that of the group, and the flag says whether to add or to set.
pub data Screen : Type 0 where
  menu saving : Screen
  fields : ℕ → Screen
  new_value : ℕ → Field → Screen
  wallet_action : Screen
  wallet_name : Bool → Screen
  alias_action : Screen
  alias_name : Bool → Screen
  alias_words : Bytes → Screen

-- What a line leads to: a prompt with a draft, the end of the edit, or a draft to be saved.
pub data Move : Type 0 where
  waits : Screen → Config → Move
  cancelled : Move
  saves : Config → Move

-- The fields of a group.
abbrev pub fields_of : ℕ → List (Field × Bytes)
fields_of zero = rpc_fields
fields_of (suc zero) = security_fields
fields_of _ = history_fields

abbrev pub field_of : Option (Field × Bytes) → Option Field
field_of none = none
field_of (some row) = some row.0

-- `parse().ok()`, `checked_sub(1)` and `get`
abbrev pub chosen : ℕ → Result ℕ → Option Field
chosen group (ok (suc i)) = field_of (get_elem? (fields_of group) i)
chosen group _ = none

abbrev pub lt_bytes : Bytes → Bytes → Bool
lt_bytes [] [] = false
lt_bytes [] (b ∷ bs) = true
lt_bytes (a ∷ as_rest) [] = false
lt_bytes (a ∷ as_rest) (b ∷ bs) = ltb a b || (a == b && lt_bytes as_rest bs)

-- `BTreeMap::insert`, on the entries in the order of their keys.
unfoldable pub insert_alias : Bytes → List Bytes → Aliases → Aliases
insert_alias name words [] = (name, words) ∷ []
insert_alias name words ((key, old) ∷ aliases) =
    let rest = insert_alias name words aliases in
    if name == key
    then (name, words) ∷ aliases
    else (if lt_bytes name key then (name, words) ∷ (key, old) ∷ aliases else (key, old) ∷ rest)

-- `BTreeMap::remove`
unfoldable pub remove_alias : Bytes → Aliases → Aliases
remove_alias name [] = []
remove_alias name ((key, words) ∷ aliases) =
    let rest = remove_alias name aliases in if name == key then aliases else (key, words) ∷ rest

-- `retain(|n| n != name)`
unfoldable pub without : Bytes → List Bytes → List Bytes
without name [] = []
without name (wallet ∷ wallets) =
    let rest = without name wallets in if wallet == name then rest else wallet ∷ rest

abbrev pub with_wallets : Config → List Bytes → Config
with_wallets draft wallets = record draft { history = record draft.history { wallets = wallets } }

unfoldable pub check_size : Json → Config → Result (Unit {0})
unfolding extend_from_slice
check_size json config = do
  written ←
      map_err (extend_from_slice (with_capacity (64 * 1024)) (json.text config))
        "settings exceed 64 KiB"
  ok tt

-- After a check of a new draft: the new draft, or the old one where an error is shown.
abbrev pub adopt : Screen → Config → Config → Result (Unit {0}) → Result Move
adopt screen old new (ok u) = ok (waits screen new)
adopt screen old new (err message) = ok (waits screen old)
adopt screen old new panicked = panicked

abbrev pub ask_save : Config → Result (Unit {0}) → Result Move
ask_save draft (ok u) = ok (waits saving draft)
ask_save draft (err message) = ok (waits menu draft)
ask_save draft panicked = panicked

abbrev pub choose_field : ℕ → Config → Option Field → Result Move
choose_field group draft none = ok (waits (fields group) draft)
choose_field group draft (some field) =
    if read_only field draft
    then ok (waits (fields group) draft)
    else ok (waits (new_value group field) draft)

module _ (parsers : Parsers) (json : Json) (path : Bytes) (original : Config) where
  unfoldable pub on_save : Config → Result Move
  unfolding same_settings validate check_size
  on_save draft =
      if same_settings draft original
      then ok cancelled
      else ask_save draft (validate parsers draft >> check_size json draft)

  unfoldable pub on_menu : Config → Bytes → Result Move
  unfolding on_save
  on_menu draft input =
      if input == ascii "1"
      then ok (waits (fields 0) draft)
      else (if input == ascii "2"
          then ok (waits (fields 1) draft)
          else (if input == ascii "3"
              then ok (waits (fields 2) draft)
              else (if input == ascii "4"
                  then ok (waits alias_action draft)
                  else (if input == ascii "s" || input == ascii "save"
                      then on_save draft
                      else (if input == ascii "c" || input == ascii "cancel"
                          then ok cancelled
                          else ok (waits menu draft))))))

  unfoldable pub on_saving : Config → Bytes → Result Move
  on_saving draft input = if input == ascii "SAVE" then ok (saves draft) else ok (waits menu draft)

  unfoldable pub on_fields : ℕ → Config → Bytes → Result Move
  unfolding parse_unsigned read_only
  on_fields group draft input =
      if input == ascii "b" || input == ascii "back" || is_nil input
      then ok (waits menu draft)
      else (if group == 2 && input == ascii "4"
          then ok (waits wallet_action draft)
          else choose_field group draft (chosen group (parse_unsigned input)))

  abbrev pub set_value : ℕ → Config → Result Config → Result Move
  set_value group draft (ok new) = adopt (fields group) draft new (check_size json new)
  set_value group draft (err message) = ok (waits (fields group) draft)
  set_value group draft panicked = panicked

  unfoldable pub on_value : ℕ → Field → Config → Bytes → Result Move
  unfolding set check_size
  on_value group field draft input =
      if is_nil input
      then ok (waits (fields group) draft)
      else set_value group draft (set parsers path field draft input)

  -- The end of `edit_wallets`: here a draft that is too large ends the edit with an error.
  unfoldable pub keep_wallets : Config → List Bytes → Result Move
  unfolding check_size
  keep_wallets draft wallets = do
    check_size json (with_wallets draft wallets)
    ok (waits (fields 2) (with_wallets draft wallets))

  unfoldable pub on_wallet_action : Config → Bytes → Result Move
  unfolding keep_wallets
  on_wallet_action draft action =
      if action == ascii "back" || is_nil action
      then ok (waits (fields 2) draft)
      else (if action == ascii "clear"
          then keep_wallets draft []
          else (if action == ascii "add" || action == ascii "remove"
              then ok (waits (wallet_name (action == ascii "add")) draft)
              else ok (waits (fields 2) draft)))

  unfoldable pub add_wallet : Config → Bytes → Result Move
  unfolding keep_wallets
  add_wallet draft name =
      if any (λ n. n == name) draft.history.wallets
      then keep_wallets draft draft.history.wallets
      else (if leb 16 (length draft.history.wallets)
          then ok (waits (fields 2) draft)
          else keep_wallets draft (draft.history.wallets ++ name ∷ []))

  unfoldable pub on_wallet_name : Bool → Config → Bytes → Result Move
  unfolding valid_name add_wallet keep_wallets without
  on_wallet_name adding draft name =
      if not (valid_name name)
      then ok (waits (fields 2) draft)
      else (if adding
          then add_wallet draft name
          else keep_wallets draft (without name draft.history.wallets))

  -- "back", an empty line and an unknown action lead back alike.
  unfoldable pub on_alias_action : Config → Bytes → Result Move
  on_alias_action draft action =
      if action == ascii "set" || action == ascii "remove"
      then ok (waits (alias_name (action == ascii "set")) draft)
      else ok (waits menu draft)

  -- The end of `edit_aliases`: the aliases are checked in default settings.
  unfoldable pub keep_aliases : Config → Aliases → Result Move
  unfolding validate check_size
  keep_aliases draft aliases =
      adopt menu draft (record draft { aliases = aliases })
        (validate parsers (record (default_config path) { aliases = aliases })
          >> check_size json (record draft { aliases = aliases }))

  unfoldable pub on_alias_name : Bool → Config → Bytes → Result Move
  unfolding valid_name keep_aliases remove_alias
  on_alias_name setting draft name =
      if not (valid_name name)
      then ok (waits menu draft)
      else (if setting
          then ok (waits (alias_words name) draft)
          else keep_aliases draft (remove_alias name draft.aliases))

  unfoldable pub on_alias_words : Bytes → Config → Bytes → Result Move
  unfolding keep_aliases insert_alias split_whitespace
  on_alias_words name draft words =
      keep_aliases draft (insert_alias name (take 17 (split_whitespace words)) draft.aliases)

  unfoldable pub at_screen : Screen → Config → Bytes → Result Move
  unfolding on_menu on_saving on_fields on_value on_wallet_action on_wallet_name on_alias_action
      on_alias_name on_alias_words
  at_screen menu draft input = on_menu draft input
  at_screen saving draft input = on_saving draft input
  at_screen (fields group) draft input = on_fields group draft input
  at_screen (new_value group field) draft input = on_value group field draft input
  at_screen wallet_action draft input = on_wallet_action draft input
  at_screen (wallet_name adding) draft input = on_wallet_name adding draft input
  at_screen alias_action draft input = on_alias_action draft input
  at_screen (alias_name setting) draft input = on_alias_name setting draft input
  at_screen (alias_words name) draft input = on_alias_words name draft input

  -- `read_input`: "exit" ends the edit at every prompt.
  unfoldable pub respond : Screen → Config → Bytes → Result Move
  unfolding at_screen trim
  respond screen draft input =
      if trim input == ascii "exit" then ok cancelled else at_screen screen draft (trim input)

  abbrev pub follow : (Screen → Config → Result (Option Config)) → Move → Result (Option Config)
  follow next (waits screen draft) = next screen draft
  follow next cancelled = ok none
  follow next (saves draft) = ok (some draft)

  -- The loops; the lines are those that the terminal will give, and after them it is closed.
  unfoldable pub edit_from : Screen → Config → List (Result Bytes) → Result (Option Config)
  unfolding respond
  edit_from screen draft [] = ok none
  edit_from screen draft (read ∷ reads) = do
    input ← read
    move ← respond screen draft input
    follow (λ screen draft. edit_from screen draft reads) move

  unfoldable pub edit : List (Result Bytes) → Result (Option Config)
  unfolding edit_from
  edit reads = edit_from menu original reads
