-- ===== src/Vault/Codec/Reader.antt =====
-- The `Reader` of src/vault.rs.
use solx.Common.{
  ℕ, ◌-◌, Bytes, length, take, drop, index, from_le_bytes, Option, none, some, Result, ok, err,
  panicked, ok_or, leb, if◌then◌else◌,
}
use solx.Secret.{checked_add}

pub record Reader : Type 0 where
  pub bytes : Bytes
  pub pos : ℕ

-- A computation that moves the reader.
abbrev pub Reads {ℓ} : Type ℓ → Type ℓ
Reads A = Reader → Result (A × Reader)

abbrev pub pass {ℓ κ} :
    {A : Type ℓ} {B : Type κ} → Result (A × Reader) → (A → Reads B) → Result (B × Reader)
pass (ok (a, r)) f = f a r
pass (err e) f = err e
pass panicked f = panicked

infixl 5 ◌>>=◌ ◌>>◌
abbrev pub ◌>>=◌ {ℓ κ} : {A : Type ℓ} {B : Type κ} → Reads A → (A → Reads B) → Reads B
(m >>= f) r = pass (m r) f

abbrev pub ◌>>◌ {ℓ} : {B : Type ℓ} → Reads (Unit {0}) → Reads B → Reads B
m >> k = m >>= λ _. k

abbrev pub lift {ℓ} : {A : Type ℓ} → Result A → Reads A
lift (ok a) r = ok (a, r)
lift (err e) r = err e
lift panicked r = panicked

-- `data.get(pos..end)`, with `pos <= end`
abbrev pub get_range : Bytes → ℕ → ℕ → Option Bytes
get_range bytes pos end =
    if leb end (length bytes) then some (take (end - pos) (drop pos bytes)) else none

abbrev pub move {ℓ} : {A : Type ℓ} → Reader → ℕ → Result A → Result (A × Reader)
move r end (ok a) = ok (a, record r { pos = end })
move r end (err e) = err e
move r end panicked = panicked

abbrev pub take_to : Reader → ℕ → Option ℕ → Result (Bytes × Reader)
take_to r len none = err "vault length overflow"
take_to r len (some end) = move r end (ok_or (get_range r.bytes r.pos end) "truncated vault")

-- `Reader::take`, `Reader::u8` and `Reader::u16`
unfoldable pub take_bytes : ℕ → Reads Bytes
take_bytes len r = take_to r len (checked_add r.pos len)

unfoldable pub u8 : Reads ℕ
unfolding take_bytes
u8 = do bytes ← take_bytes 1; lift (index bytes 0)

-- `from_le_bytes(reader.take(n)?.try_into()?)`
unfoldable pub le : ℕ → Reads ℕ
unfolding take_bytes
le n r = (do bytes ← take_bytes n; lift (ok (from_le_bytes bytes))) r

unfoldable pub u16 : Reads ℕ
unfolding le
u16 = le 2
