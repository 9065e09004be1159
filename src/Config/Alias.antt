-- ===== src/Config/Alias.antt =====
-- `expand_alias` of src/config.rs.
use solx.Common.{
  ◌+◌, ◌≤◌, ◌<◌, ◌≡◌, refl, inl, inr, Bool-cases, true, false, List, [], ◌∷◌, ◌++◌, Bytes, All,
  length, length-append, any, Option, none, some, Result, ok, if◌then◌else◌, arith,
}
use mathlib.Core.Path.{subst}
use mathlib.Core.Option.{some-injective, none-ne-some}
use solx.Common.Eq.{◌==◌, nat_eq, list_eq, list_beq_iff}
use solx.Config.{Config, Aliases}
use solx.Config.Validate.{Parsers, validate}
use solx.Config.Checks.{IsAlias, validate-IsChecked}
use solx.Commands.{plugin_names}

-- `BTreeMap::get`
unfoldable pub get : Aliases → Bytes → Option (List Bytes)
get [] name = none
get ((key, words) ∷ rest) name = if key == name then some words else get rest name

abbrev expand_first : Option (List Bytes) → Bytes → List Bytes → List Bytes
expand_first none first args = first ∷ args
expand_first (some prefix) first args = prefix ++ args

unfoldable pub expand_alias : Config → List Bytes → Result (List Bytes)
unfolding get
expand_alias config [] = ok []
expand_alias config (first ∷ args) = ok (expand_first (get config.aliases first) first args)

get-command :
    (aliases : Aliases) (name : Bytes)
    → All IsAlias aliases
    → any (λ command. command == name) plugin_names ≡ true
    → get aliases name ≡ none
unfolding get
get-command [] name h command = refl
get-command ((key, words) ∷ rest) name h command = elim (Bool-cases (key == name)) [
  | inl same ↦
      let equal : key ≡ name = (list_beq_iff key name).0 same in
      let clash : any (λ c. c == name) plugin_names ≡ false =
        subst (λ (k : Bytes). any (λ c. c == k) plugin_names ≡ false) equal h.0.2 in
      absurd (cc (command, clash))
  | inr other ↦ rw other (get-command rest name h.1 command)
]

get-short :
    (aliases : Aliases) (name : Bytes) (words : List Bytes)
    → All IsAlias aliases
    → get aliases name ≡ some words
    → (0 < length words) × (length words ≤ 16)
unfolding get
get-short [] name words h e = absurd (none-ne-some _ e)
get-short ((key, prefix) ∷ rest) name words h e = elim (Bool-cases (key == name)) [
  | inl same ↦
      let equal : prefix ≡ words = some-injective prefix words (rw same at e) in
      rw (← equal) (h.0.3, h.0.4)
  | inr other ↦ get-short rest name words h.1 (rw other at e)
]

-- With settings that `validate` accepts, no alias takes the place of a command: a line that starts with
-- the name of a command is left as it is.
pub expand_alias-command :
    (parsers : Parsers) (config : Config) (first : Bytes) (args : List Bytes)
    → validate parsers config ≡ ok tt
    → any (λ command. command == first) plugin_names ≡ true
    → expand_alias config (first ∷ args) ≡ ok (first ∷ args)
unfolding expand_alias
expand_alias-command parsers config first args accepted command =
    let checked = validate-IsChecked parsers config accepted in
    rw (get-command config.aliases first checked.good_aliases command)

-- With settings that `validate` accepts, a line that starts with an alias has that word replaced by its
-- 1 to 16 words; the words are not expanded again.
pub expand_alias-alias :
    (parsers : Parsers) (config : Config) (first : Bytes) (args words : List Bytes)
    → validate parsers config ≡ ok tt
    → get config.aliases first ≡ some words
    → (expand_alias config (first ∷ args) ≡ ok (words ++ args))
      × (length args < length (words ++ args))
      × (length (words ++ args) ≤ length args + 16)
unfolding expand_alias
expand_alias-alias parsers config first args words accepted found =
    let checked = validate-IsChecked parsers config accepted in
    let (some_words, few) = get-short config.aliases first words checked.good_aliases found in
    (
      rw found,
      omega (arith, length-append words args, some_words),
      omega (arith, length-append words args, few),
    )
