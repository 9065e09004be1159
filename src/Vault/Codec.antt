-- ===== src/Vault/Codec.antt =====
-- The plaintext of a vault file: `encode_with_audit` and `decode` of src/vault.rs.
pub mod Encode
pub mod Layout
pub mod Reader
pub mod Decode
pub mod Takes
pub mod Parts
pub mod RoundTrip
pub mod Ensures
pub mod Sound
pub mod Accepts
use solx.Common.{Bytes, Result}
use solx.Config.{Config}

-- `serde_json::to_writer` and `serde_json::from_slice` for `Config`. The locator is skipped: reading
-- sets it to the default one.
pub record Json : Type 0 where
  pub text : Config → Bytes
  pub from_slice : Bytes → Result Config
