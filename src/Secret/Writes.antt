-- ===== src/Secret/Writes.antt =====
-- Sequences of writes into a `LockedBytes` of src/secret.rs.
use solx.Common.{
  ℕ, ◌+◌, ◌^◌, ◌≤◌, ◌<◌, ◌≡◌, [], ◌∷◌, ◌++◌, append-nil, append_assoc, Bytes, length, length-append,
  Result, ok, ◌>>=◌, lt→ltb, le→leb, arith,
}
use solx.Secret.{LockedBytes, extend_from_slice, push}

-- `write` appends exactly the bytes `xs` to any buffer that has the room.
abbrev pub Appends : (LockedBytes → Result LockedBytes) → Bytes → Type 0
Appends write xs =
    (b : LockedBytes)
    → b.capacity < 2 ^ 64
    → length b.bytes + length xs ≤ b.capacity
    → write b ≡ ok (record b { bytes = b.bytes ++ xs })

pub extend-Appends : (xs : Bytes) → Appends (λ b. extend_from_slice b xs) xs
unfolding extend_from_slice
extend-Appends xs b small room = rw (
  lt→ltb (length b.bytes + length xs) (2 ^ 64) (omega arith),
  le→leb (length b.bytes + length xs) b.capacity room,
)

pub push-Appends : (x : ℕ) → Appends (λ b. push b x) (x ∷ [])
unfolding push
push-Appends x b small room = extend-Appends (x ∷ []) b small room

pub return-Appends : Appends (λ b. ok b) []
return-Appends b small room = rw (append-nil b.bytes)

pub then-Appends :
    (first second : LockedBytes → Result LockedBytes) (xs ys : Bytes)
    → Appends first xs
    → Appends second ys
    → Appends (λ b. first b >>= second) (xs ++ ys)
then-Appends first second xs ys h k b small room =
    let lens : length (xs ++ ys) ≡ length xs + length ys = length-append xs ys in
    let lens' : length (b.bytes ++ xs) ≡ length b.bytes + length xs = length-append b.bytes xs in
    let one = h b small (omega arith) in
    let two = k (record b { bytes = b.bytes ++ xs }) small (omega arith) in
    rw (one, two, append_assoc b.bytes xs ys)

-- Whatever is written, a buffer stays within its capacity, and its capacity is never changed.
pub extend_from_slice_fits :
    (b b' : LockedBytes) (xs : Bytes)
    → extend_from_slice b xs ≡ ok b'
    → (length b'.bytes ≤ b'.capacity) × (b'.capacity ≡ b.capacity) × (b'.bytes ≡ b.bytes ++ xs)
unfolding extend_from_slice
extend_from_slice_fits b b' xs e = ground (arith, length-append b.bytes xs)
