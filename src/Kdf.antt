-- ===== src/Kdf.antt =====
-- The Argon2id profile of src/kdf.rs.
use solx.Common.{
  ℕ, ◌≡◌, Bool, true, ◌&&◌, ◌||◌, not, List, [], ◌∷◌, Bytes, length, Result, ok, err, map_err, ◌>>◌,
  fail_if, ltb, ◌==◌, if◌then◌else◌, arith,
}

abbrev pub kdf_id : ℕ
kdf_id = 1

abbrev pub argon2_version : ℕ
argon2_version = 0x13

abbrev pub max_password_bytes : ℕ
max_password_bytes = 1024

pub record Argon2idParams : Type 0 where
  pub memory_kib : ℕ
  pub passes : ℕ
  pub lanes : ℕ

-- `Argon2idParams::VAULT`
abbrev pub vault_params : Argon2idParams
vault_params = record { memory_kib = 65536; passes = 3; lanes = 4 }

-- The derived `PartialEq`.
unfoldable pub params_eq : Argon2idParams → Argon2idParams → Bool
params_eq a b = a.memory_kib == b.memory_kib && a.passes == b.passes && a.lanes == b.lanes

pub params_eq-true : (a b : Argon2idParams) → params_eq a b ≡ true → a ≡ b
unfolding params_eq
params_eq-true a b h = ground arith

pub params_eq_refl : (a : Argon2idParams) → params_eq a a ≡ true
unfolding params_eq
params_eq_refl a = ground arith

unfoldable pub from_costs : ℕ → ℕ → ℕ → Result Argon2idParams
unfolding params_eq
from_costs memory_kib passes lanes =
    let params : Argon2idParams = record {
      memory_kib = memory_kib;
      passes = passes;
      lanes = lanes;
    } in
    if not (params_eq params vault_params)
    then err "unsupported Argon2id profile (expected 65536 KiB, 3 passes, 4 lanes)"
    else ok params

unfoldable pub costs : Argon2idParams → List ℕ
costs params = params.memory_kib ∷ params.passes ∷ params.lanes ∷ []

-- The calls of the argon2 crate: `Params::new` and `hash_password_into_with_memory`.
pub record Argon2 : Type 0 where
  pub new_params : ℕ → ℕ → ℕ → ℕ → Result (Unit {0})
  pub hash_password : Argon2idParams → Bytes → Bytes → Result Bytes

-- `Argon2idParams::derive`. Locked memory is plain memory here, and its allocation succeeds.
unfoldable pub derive : Argon2 → Argon2idParams → Bytes → Bytes → Result Bytes
derive argon2 params password salt = do
  fail_if (length password == 0 || ltb max_password_bytes (length password))
      "password must be 1..=1024 bytes"
  map_err (argon2.new_params params.memory_kib params.passes params.lanes 32)
      "invalid Argon2id parameters"
  map_err (argon2.hash_password params password salt) "Argon2id derivation failed"
