-- ===== src/Tests/Settings.antt =====
-- The settings, the audit and the limits at concrete arguments.
use solx.Common.{
  ℕ, ◌+◌, ◌*◌, ◌≤◌, ◌≡◌, ◌⊎◌, refl, true, List, [], ◌∷◌, Bytes, ascii, any, some, ok, arith,
}
use solx.Common.Eq.{◌==◌, nat_eq, list_eq, list_beq}
use solx.Commands.{plugin_names}
use solx.Commands.Limits.{max_compute_units, tuned_compute_limit, tuned_compute_limit_lem}
use solx.Config.{Config, valid_name}
use solx.Config.Alias.{get, expand_alias, expand_alias-command}
use solx.Config.Checks.{IsChecked, validate-IsChecked}
use solx.Config.Validate.{
  known_cluster, hash_parses, bad_alias, aliases_valid, url_allowed, validate,
}
use solx.Rpc.Genesis.{expected_genesis}
use solx.Secret.{LockedBytes, extend_from_slice}
use solx.Tests.World.{toy_parsers, config}

-- One alias: `pay` for `transfer main`.
abbrev pay_words : List Bytes
pay_words = ascii "transfer" ∷ ascii "main" ∷ []

abbrev with_alias : Config
with_alias = record config { aliases = (ascii "pay", pay_words) ∷ [] }

alias_accepted : validate toy_parsers with_alias ≡ ok tt
unfolding validate expected_genesis list_beq known_cluster hash_parses aliases_valid url_allowed
    bad_alias valid_name
alias_accepted = refl

list_is_command : any (λ command. command == ascii "list") plugin_names ≡ true
unfolding list_beq
list_is_command = refl

pay_found : get with_alias.aliases (ascii "pay") ≡ some pay_words
unfolding get list_beq
pay_found = refl

validate-IsChecked_example : IsChecked toy_parsers with_alias
validate-IsChecked_example = validate-IsChecked toy_parsers with_alias alias_accepted

expand_alias-command_example : expand_alias with_alias (ascii "list" ∷ []) ≡ ok (ascii "list" ∷ [])
expand_alias-command_example =
    expand_alias-command toy_parsers with_alias (ascii "list") [] alias_accepted list_is_command

tuned_compute_limit_lem_example :
    (limit : ℕ) × (tuned_compute_limit 200_000 10 ≡ ok limit)
    × (200_000 ≤ limit)
    × (limit ≤ max_compute_units)
    × ((limit ≡ max_compute_units)
        ⊎ ((200_000 + 1_000 ≤ limit) × (200_000 * (100 + 10) ≤ limit * 100)))
tuned_compute_limit_lem_example =
    tuned_compute_limit_lem 200_000 10 (omega arith) (omega arith) (omega arith)

abbrev half_full : LockedBytes
half_full = record { bytes = 1 ∷ 2 ∷ []; capacity = 4 }

abbrev full : LockedBytes
full = record { bytes = 1 ∷ 2 ∷ 3 ∷ 4 ∷ []; capacity = 4 }

extends : extend_from_slice half_full (3 ∷ 4 ∷ []) ≡ ok full
unfolding extend_from_slice
extends = refl
