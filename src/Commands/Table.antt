-- ===== src/Commands/Table.antt =====
-- `PLUGINS` of src/commands.rs: the commands with their functions. The lines that are typed into the
-- settings editor, and whether there is a terminal, are parameters.
pub mod Quiet
use solx.Common.{Bool, List, [], ◌∷◌, Bytes, ascii, Result}
use solx.Vault.Session.{Crates}
use solx.Rpc.Values.{Chain}
use solx.Effects.{Env}
use solx.App.{Plugins}
use solx.Settings.Command.{run}
use solx.Commands.Local.{help, lock, ui, new_wallet, delete, list, history}
use solx.Commands.Secrets.{Sources}
use solx.Commands.Secrets.Export.{export}
use solx.Commands.Secrets.Import.{import_wallet}
use solx.Commands.Secrets.Init.{init}
use solx.Commands.Transfer.{transfer, token_transfer}
use solx.Commands.CloseAta.{close_ata}

module _ (env : Env) (crates : Crates) (chain : Chain) (sources : Sources) (path : Bytes)
    (reads : List (Result Bytes)) (terminal : Bool) where
  unfoldable pub plugins : Plugins
  plugins =
      (ascii "config", run env crates path reads terminal)
      ∷ (ascii "help", help)
      ∷ (ascii "init", init sources env crates)
      ∷ (ascii "new", new_wallet env crates)
      ∷ (ascii "import", import_wallet sources env crates)
      ∷ (ascii "export", export sources env crates)
      ∷ (ascii "list", list env crates chain)
      ∷ (ascii "delete", delete env crates)
      ∷ (ascii "history", history env crates chain)
      ∷ (ascii "transfer", transfer env crates chain)
      ∷ (ascii "token-transfer", token_transfer env crates chain)
      ∷ (ascii "close-ata", close_ata env crates chain)
      ∷ (ascii "lock", lock)
      ∷ (ascii "ui", ui)
      ∷ []
