-- ===== src/Vault/Registry/Remove.antt =====
-- `remove_account` and `recovery_phrase_use` of src/vault.rs on the registry.
pub mod Position
pub mod Sharing
pub mod Account
pub mod Effect
pub mod Keeps
pub mod Outcome
