-- ===== src/Secret.antt =====
-- `LockedBytes` of src/secret.rs: byte storage with a capacity. The locked pages behind it are
-- not modelled, and obtaining them succeeds.
pub mod Writes
use solx.Common.{
  map_err, ℕ, ◌+◌, ◌^◌, ◌≤◌, ◌<◌, ◌≡◌, Bool, true, false, List, [], ◌∷◌, ◌++◌, Bytes, length, take,
  Option, none, some, Result, ok, err, ◌>>=◌, ok_or, ltb, leb, if◌then◌else◌,
}
use solx.Common.Utf8.{from_utf8}

pub record LockedBytes : Type 0 where
  pub bytes : Bytes
  pub capacity : ℕ

abbrev pub with_capacity : ℕ → LockedBytes
with_capacity capacity = record { bytes = []; capacity = capacity }

-- `usize::checked_add`
abbrev pub checked_add : ℕ → ℕ → Option ℕ
checked_add a b = if ltb (a + b) (2 ^ 64) then some (a + b) else none

-- `Option::filter` with `|end| *end <= self.capacity`
abbrev within : ℕ → Option ℕ → Option ℕ
within capacity none = none
within capacity (some end) = if leb end capacity then some end else none

unfoldable pub extend_from_slice : LockedBytes → Bytes → Result LockedBytes
extend_from_slice b bytes = do
  _ ←
      ok_or (within b.capacity (checked_add (length b.bytes) (length bytes)))
        "secret buffer capacity exceeded"
  ok (record b { bytes = b.bytes ++ bytes })

unfoldable pub push : LockedBytes → ℕ → Result LockedBytes
unfolding extend_from_slice
push b byte = extend_from_slice b (byte ∷ [])

unfoldable pub from_slice : Bytes → Result LockedBytes
unfolding extend_from_slice
from_slice bytes = extend_from_slice (with_capacity (length bytes)) bytes

unfoldable pub truncate : LockedBytes → ℕ → LockedBytes
truncate b len = if ltb len (length b.bytes) then record b { bytes = take len b.bytes } else b

unfoldable pub into_text : LockedBytes → Result Bytes
into_text b = do _ ← map_err (from_utf8 b.bytes) "secret input is not UTF-8"; ok b.bytes
