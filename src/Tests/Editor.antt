-- ===== src/Tests/Editor.antt =====
-- The editor of the settings on concrete lines.
use solx.Common.{◌≡◌, refl, true, List, [], ◌∷◌, Bytes, ascii, none, some, Result, ok}
use solx.Common.Eq.{list_beq, option_beq}
use solx.Config.{Config, mode_eq, rpc_eq}
use solx.Config.Validate.{known_cluster, hash_parses, aliases_valid, url_allowed}
use solx.Rpc.Genesis.{expected_genesis}
use solx.Effects.Writing.{OnlyWrites}
use solx.Settings.Editor.{edit}
use solx.Settings.Editor.Accepted.{IsAccepted, SaveTyped, edit-IsAccepted}
use solx.Settings.Command.{run}
use solx.Settings.Command.Edited.{IsEdited, run-IsEdited}
use solx.Tests.World.{toy_crates, toy_parsers, toy_json, config}
use solx.Tests.Files.{toy-IsTotal}
use solx.Tests.Network.{toy_env, toy_world}
use solx.Tests.Fields.{home, config-IsRanged}

abbrev pub lines : List (Result Bytes)
lines =
    ok (ascii "1\n")
    ∷ ok (ascii "3\n")
    ∷ ok (ascii "4\n")
    ∷ ok (ascii "22\n")
    ∷ ok (ascii "b\n")
    ∷ ok (ascii "s\n")
    ∷ ok (ascii "SAVE\n")
    ∷ []

abbrev later : Config
later = record config { rpc = record config.rpc { timeout_secs = 22 } }

-- The row of the genesis hash is read-only, and takes no value.
edited : edit toy_parsers toy_json home config lines ≡ ok (some later)
unfolding edit list_beq option_beq mode_eq rpc_eq expected_genesis known_cluster hash_parses
    aliases_valid url_allowed
edited = refl

edit-IsAccepted_example : IsAccepted toy_parsers toy_json home config later × SaveTyped lines
edit-IsAccepted_example =
    edit-IsAccepted toy_parsers toy_json home config config-IsRanged lines later edited

exited :
    edit toy_parsers toy_json home config (ok (ascii "1\n") ∷ ok (ascii " exit\n") ∷ []) ≡ ok none
unfolding edit list_beq
exited = refl

run-IsEdited_example :
    OnlyWrites
      (IsEdited toy_env toy_crates home lines)
      (run toy_env toy_crates home lines true [])
      toy_world
run-IsEdited_example = run-IsEdited toy_env toy_crates home lines toy-IsTotal true [] toy_world
