-- ===== src/Tests/Local.antt =====
-- The deletion of a wallet at concrete arguments.
use solx.Common.{[], ◌∷◌, ascii, some, ok}
use solx.Effects.{Env}
use solx.Effects.Writing.{OnlyWrites}
use solx.Commands.Local.{delete}
use solx.Commands.Local.Deleted.{IsDeletion, delete-IsDeletion}
use solx.Tests.World.{toy_crates}
use solx.Tests.Network.{toy_env, toy_world}

-- The terminal answers with the name of the wallet.
abbrev main_env : Env
main_env = record toy_env { line = λ moment. ok (some (ascii "main\n")) }

delete-IsDeletion_example :
    OnlyWrites
      (IsDeletion main_env toy_crates (ascii "main" ∷ []) toy_world)
      (delete main_env toy_crates (ascii "main" ∷ []))
      toy_world
delete-IsDeletion_example = delete-IsDeletion main_env toy_crates (ascii "main" ∷ []) toy_world
