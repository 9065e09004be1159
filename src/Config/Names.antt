-- ===== src/Config/Names.antt =====
-- Names in the sense of `valid_name` of src/config.rs.
use solx.Common.{
  ℕ, ◌≤◌, ◌≡◌, true, [], ◌∷◌, Bytes, All, length, ltb, all, ok, lt→ltb, leb→le, arith,
}
use solx.Common.Eq.{nat_eq}
use solx.Common.Utf8.{from_utf8, from_utf8-ascii}
use solx.Config.{name_byte, valid_name}

pub valid_name-length : (name : Bytes) → valid_name name ≡ true → length name ≤ 32
unfolding valid_name
valid_name-length name h = leb→le (length name) 32 (ground arith)

name_byte-ascii : (b : ℕ) → name_byte b ≡ true → ltb b 128 ≡ true
name_byte-ascii b h = lt→ltb b 128 (ground arith)

all-ascii : (name : Bytes) → all name_byte name ≡ true → All (λ b. ltb b 128 ≡ true) name
all-ascii [] h = tt
all-ascii (b ∷ rest) h = (name_byte-ascii b (ground arith), all-ascii rest (ground arith))

-- A valid name is UTF-8.
pub from_utf8-valid_name : (name : Bytes) → valid_name name ≡ true → from_utf8 name ≡ ok name
unfolding valid_name
from_utf8-valid_name name h = from_utf8-ascii name (all-ascii name (ground arith))
