-- ===== src/Vault/Header.antt =====
-- `EnvelopeHeader` of src/vault.rs: the 48 authenticated bytes in front of the ciphertext.
pub mod RoundTrip
use solx.Common.{
  ℕ, ◌+◌, ◌*◌, ◌≤◌, ◌<◌, ◌≡◌, Bool, true, ◌||◌, not, List, [], ◌∷◌, ◌++◌, Bytes, ascii, length,
  index, slice, to_le_bytes, from_le_bytes, Result, ok, err, panicked, ◌>>=◌, ◌>>◌, fail_if,
  or_panic, ltb, leb, if◌then◌else◌,
}
use solx.Common.Eq.{◌==◌, nat_eq, list_eq}
use solx.Kdf.{Argon2idParams, from_costs, costs, kdf_id, argon2_version}

abbrev pub magic : Bytes
magic = ascii "SOLX"

abbrev pub version : ℕ
version = 5

abbrev pub header_len : ℕ
header_len = 48

abbrev pub max_file : ℕ
max_file = 1024 * 1024

pub record EnvelopeHeader : Type 0 where
  pub params : Argon2idParams
  pub salt : Bytes
  pub nonce : Bytes

-- `u32::from_le_bytes(bytes[from..to].try_into()?)`
abbrev pub u32_at : Bytes → ℕ → ℕ → Result ℕ
u32_at bytes from to = do part ← slice bytes from to; ok (from_le_bytes part)

-- `bytes.len() < 5 || &bytes[..4] != MAGIC`: the slice is read only if the length allows it.
abbrev pub lacks_magic : Bytes → Result Bool
lacks_magic bytes =
    if ltb (length bytes) 5
    then ok true
    else (do first ← slice bytes 0 4; ok (not (first == magic)))

-- `bytes[5] != KDF_ID || bytes[6] != ARGON2_VERSION || bytes[7] != 0`
abbrev pub wrong_kdf : Bytes → Result Bool
wrong_kdf bytes = do
  id ← index bytes 5
  argon2 ← index bytes 6
  zero_byte ← index bytes 7
  ok (not (id == kdf_id) || not (argon2 == argon2_version) || not (zero_byte == 0))

unfoldable pub parse : Bytes → Result EnvelopeHeader
parse bytes = do
  bad_magic ← lacks_magic bytes
  fail_if bad_magic "invalid vault header"
  format ← index bytes 4
  fail_if (not (format == version))
      "unsupported vault format; this build requires a v5 vault with authenticated settings history"
  fail_if (ltb (length bytes) (header_len + 16) || ltb max_file (length bytes))
      "truncated or oversized vault"
  bad_kdf ← wrong_kdf bytes
  fail_if bad_kdf "unsupported vault KDF header"
  memory_kib ← u32_at bytes 8 12
  passes ← u32_at bytes 12 16
  lanes ← u32_at bytes 16 20
  params ← from_costs memory_kib passes lanes
  salt ← slice bytes 20 36
  nonce ← slice bytes 36 48
  ok (record { params = params; salt = salt; nonce = nonce })

-- `zip` of the three 4-byte chunks of bytes 8..20 with the costs.
abbrev pub cost_bytes : List ℕ → Bytes
cost_bytes [] = []
cost_bytes (cost ∷ rest) = to_le_bytes 4 cost ++ cost_bytes rest

-- The array is filled from left to right; byte 7 stays 0.
unfoldable pub encode : EnvelopeHeader → Bytes
unfolding costs
encode header =
    magic
    ++ (version ∷ kdf_id ∷ argon2_version ∷ 0 ∷ [])
    ++ cost_bytes (costs header.params)
    ++ header.salt
    ++ header.nonce
