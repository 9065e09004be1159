-- ===== src/Commands.antt =====
-- The command names of src/commands.rs, and the children for its other parts.
pub mod Limits
pub mod Options
pub mod Amount
pub mod CloseSelection
pub mod Instructions
pub mod Transactions
pub mod Send
pub mod Transfer
pub mod CloseAta
pub mod Local
pub mod Secrets
pub mod Table
use solx.Common.{List, [], ◌∷◌, Bytes, ascii}

-- The names in `PLUGINS`.
abbrev pub plugin_names : List Bytes
plugin_names =
    ascii "config"
    ∷ ascii "help"
    ∷ ascii "init"
    ∷ ascii "new"
    ∷ ascii "import"
    ∷ ascii "export"
    ∷ ascii "list"
    ∷ ascii "delete"
    ∷ ascii "history"
    ∷ ascii "transfer"
    ∷ ascii "token-transfer"
    ∷ ascii "close-ata"
    ∷ ascii "lock"
    ∷ ascii "ui"
    ∷ []
