-- ===== src/Signer.antt =====
-- The Ed25519 keypairs of src/signer.rs.
use solx.Common.{not, Bytes, length, ◌++◌, Result, ok, map_err, ◌>>=◌, ◌>>◌, fail_if, ◌==◌}

-- The calls of the ed25519-dalek crate. A `SigningKey` is its 32 secret bytes.
pub record Ed25519 : Type 0 where
  -- `SigningKey::from_keypair_bytes`
  pub from_keypair_bytes : Bytes → Result Bytes
  -- `verifying_key().to_bytes()`
  pub verifying_key : Bytes → Bytes
  pub sign : Bytes → Bytes → Bytes

pub record Keypair : Type 0 where
  pub key : Bytes

module _ (ed : Ed25519) where
  unfoldable pub from_seed_bytes : Bytes → Result Keypair
  from_seed_bytes secret = ok (record { key = secret })

  unfoldable pub pubkey : Keypair → Bytes
  pubkey pair = ed.verifying_key pair.key

  unfoldable pub to_keypair_bytes : Keypair → Result Bytes
  to_keypair_bytes pair = ok (pair.key ++ ed.verifying_key pair.key)

  unfoldable pub sign_message : Keypair → Bytes → Bytes
  sign_message pair message = ed.sign pair.key message

  -- `TryFrom<&[u8]>`
  unfoldable pub try_from : Bytes → Result Keypair
  try_from bytes = do
    fail_if (not (length bytes == 64)) "invalid keypair length"
    key ← map_err (ed.from_keypair_bytes bytes) "keypair public key does not match its secret key"
    ok (record { key = key })
