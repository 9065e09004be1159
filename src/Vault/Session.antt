-- ===== src/Vault/Session.antt =====
-- `Session` of src/vault.rs: the encrypted file, opened, loaded and saved. The disk is the vault file
-- and the temporary file of a save; `Faults` says which system calls of one save fail, and how.
pub mod Save
pub mod Commit
pub mod Stored
pub mod Counted
use solx.Common.{
  map_err, ℕ, ◌+◌, ◌-◌, ◌≤◌, ◌<◌, ◌≡◌, Bool, true, false, ◌||◌, not, List, [], ◌∷◌, ◌++◌, String,
  Bytes, length, take, drop, Option, none, some, Result, ok, err, panicked, ◌>>=◌, ◌>>◌, fail_if,
  ok_or, ltb, leb, if◌then◌else◌,
}
use solx.Common.Eq.{◌==◌, nat_eq, list_eq}
use solx.Config.Validate.{Parsers}
use solx.Kdf.{Argon2, Argon2idParams, vault_params, params_eq, derive}
use solx.Secret.{LockedBytes}
use solx.Vault.{Vault}
use solx.Vault.Phrase.{Crypto}
use solx.Vault.Header.{EnvelopeHeader, header_len, max_file, parse, encode}
use solx.Vault.Codec.{Json}
use solx.Vault.Codec.Decode.{decode}

-- `Aes256GcmSiv`: key, nonce, associated data, and the buffer that is worked on in place.
pub record Aead : Type 0 where
  pub encrypt_in_place : Bytes → Bytes → Bytes → LockedBytes → Result LockedBytes
  pub decrypt_in_place : Bytes → Bytes → Bytes → Bytes → Result Bytes

pub record Crates : Type 0 where
  pub crypto : Crypto
  pub parsers : Parsers
  pub json : Json
  pub aead : Aead
  pub argon2 : Argon2

pub record Session : Type 0 where
  pub header : EnvelopeHeader
  pub key : Bytes

pub record Disk : Type 0 where
  pub file : Option Bytes
  pub temporary : Option Bytes

-- The error of each call, or none.
pub record Faults : Type 0 where
  pub clock : Result ℕ
  pub nonce : Result Bytes
  pub directory : Option String
  pub lock : Option String
  pub access : Option String
  pub private : Option String
  pub name : Option String
  pub create : Option String
  pub write : Option String
  -- The bytes that a failed write leaves.
  pub written : ℕ
  pub file_sync : Option String
  pub rename : Option String
  pub directory_sync : Option String
  pub remove : Option String

abbrev pub call : Option String → Result (Unit {0})
call none = ok tt
call (some message) = err message

-- `read_file`, of an open file
unfoldable pub read_file : Faults → Bytes → Result Bytes
read_file faults bytes = do
  fail_if (ltb max_file (length bytes)) "vault must be a regular file smaller than 1 MiB"
  call faults.private
  ok bytes

-- `directory.file(filename, O_RDONLY)`, and `read_file`
unfoldable pub read_stored : Faults → Disk → Result Bytes
unfolding read_file
read_stored faults disk = do
  call faults.access
  bytes ← ok_or disk.file "no such file"
  read_file faults bytes

-- `read_private_file`
unfoldable pub read_private_file : Faults → Disk → Result Bytes
unfolding read_stored
read_private_file faults disk = do call faults.directory; read_stored faults disk

module _ (crates : Crates) where
  unfoldable pub decrypt_bytes : Session → Bytes → Result Vault
  unfolding parse params_eq decode
  decrypt_bytes session encrypted = do
    header ← parse encrypted
    fail_if
        (not (params_eq header.params session.header.params)
          || not (header.salt == session.header.salt))
        "vault key parameters changed; lock and unlock again"
    plain ←
        map_err
          (crates.aead.decrypt_in_place session.key header.nonce (take header_len encrypted)
            (drop header_len encrypted))
          "wrong password or vault authentication failed"
    vault ← decode crates.parsers crates.json crates.crypto.ed25519 plain
    ok (record vault { source_bytes = some encrypted })

  unfoldable pub load : Session → Faults → Disk → Result Vault
  unfolding read_private_file decrypt_bytes
  load session faults disk = do
    encrypted ← read_private_file faults disk
    decrypt_bytes session encrypted

  unfoldable pub open_session : Faults → Disk → Bytes → Result Session
  unfolding read_private_file parse derive decrypt_bytes
  open_session faults disk password = do
    encrypted ← read_private_file faults disk
    header ← parse encrypted
    key ← derive crates.argon2 header.params password header.salt
    let session : Session = record { header = header; key = key }
    _ ← decrypt_bytes session encrypted
    ok session
