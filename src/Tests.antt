-- ===== src/Tests.antt =====
-- Runs of the definitions on concrete data, and the theorems at concrete arguments.
pub mod World
pub mod Edits
pub mod Files
pub mod Settings
pub mod LineEditor
pub mod Commands
pub mod Fields
pub mod Editor
pub mod Secrets
pub mod Table
pub mod Network
pub mod Transactions
pub mod Shell
pub mod Local
