-- ===== src/Rpc/Values.antt =====
-- The crates that the client of src/rpc.rs and the transactions of src/commands.rs stand on:
-- serde_json, base64, the Solana crates. Their values are opaque bytes, an address is its 32 bytes.
use solx.Common.{ℕ, Bool, List, Bytes, Option, none, some, Result}

-- `serde_json::Value`: `from_slice`, and the methods that read a value.
pub record Values : Type 0 where
  pub from_slice : Bytes → Result Bytes
  pub get : Bytes → Bytes → Option Bytes
  pub pointer : Bytes → Bytes → Option Bytes
  pub as_str : Bytes → Option Bytes
  pub as_u64 : Bytes → Option ℕ
  pub as_array : Bytes → Option (List Bytes)
  pub is_null : Bytes → Bool
  pub is_object : Bytes → Bool

-- `AccountMeta` and `Instruction` of the solana-message crate.
pub record AccountMeta : Type 0 where
  pub pubkey : Bytes
  pub is_signer : Bool
  pub is_writable : Bool

pub record Instruction : Type 0 where
  pub program_id : Bytes
  pub accounts : List AccountMeta
  pub instruction_data : Bytes

pub record Chain : Type 0 where
  pub values : Values
  -- `Client::builder`, with the timeout in seconds
  pub build_client : ℕ → Result (Unit {0})
  -- `STANDARD.encode`
  pub base64 : Bytes → Bytes
  -- `Pubkey::from_str` and `to_string`, `Hash::from_str`, `Signature::to_string`
  pub parse_key : Bytes → Result Bytes
  -- `Pubkey::from_str_const`
  pub from_str_const : Bytes → Bytes
  pub key_text : Bytes → Bytes
  pub parse_hash : Bytes → Result Bytes
  pub signature_text : Bytes → Bytes
  -- `Pubkey::find_program_address`
  pub find_program_address : List Bytes → Bytes → Bytes
  -- `v0::Message::try_compile` with no lookup tables; `wincode::serialize` of a message, and of a
  -- transaction with its signatures
  pub try_compile : Bytes → List Instruction → Bytes → Result Bytes
  pub serialize_message : Bytes → Result Bytes
  pub serialize_transaction : List Bytes → Bytes → Result Bytes
  -- `header().num_required_signatures` and `static_account_keys()` of a v0 message
  pub num_required_signatures : Bytes → ℕ
  pub static_account_keys : Bytes → List Bytes

-- `option.and_then(Value::as_str)` and the like
abbrev pub and_then {ℓ} : {A : Type ℓ} → Option Bytes → (Bytes → Option A) → Option A
and_then none f = none
and_then (some v) f = f v

abbrev pub is_some_and : Option Bytes → (Bytes → Bool) → Bool
is_some_and none f = Bool.false
is_some_and (some v) f = f v
