-- ===== src/Vault/Codec/Takes.antt =====
-- Readings from the `Reader` of src/vault.rs that succeed.
use solx.Common.{
  ℕ, ◌+◌, ◌-◌, ◌^◌, ◌<◌, ◌≡◌, refl, sym, ap, ◌∙◌, Bool, false, [], ◌∷◌, ◌++◌, append-nil,
  append_assoc, Bytes, String, length, length-append, drop, take_exact, drop_exact, drop-drop,
  to_le_bytes, length-to_le_bytes, from_le_bytes-to_le_bytes, Result, ok, fail_if, lt→ltb, le→leb,
  arith,
}
use mathlib.Core.Path.{subst}
use solx.Vault.Codec.Reader.{Reader, Reads, ◌>>=◌, lift, take_bytes, u8, u16, le}

-- The bytes that the reader still has.
abbrev pub At : Reader → Bytes → Type 0
At r xs =
    (drop r.pos r.bytes ≡ xs) × (r.pos + length xs ≡ length r.bytes) × (length r.bytes < 2 ^ 64)

abbrev pub skip : Reader → ℕ → Reader
skip r n = record r { pos = r.pos + n }

-- `p` reads exactly `xs`, whatever follows, and returns `a`.
abbrev pub Takes {ℓ} : {A : Type ℓ} → Reads A → Bytes → A → Type ℓ
Takes p xs a = (r : Reader) (back : Bytes) → At r (xs ++ back) → p r ≡ ok (a, skip r (length xs))

pub At-skip : (r : Reader) (xs back : Bytes) → At r (xs ++ back) → At (skip r (length xs)) back
At-skip r xs back (rest, ends, small) = (
  rw (← drop-drop r.pos (length xs) r.bytes, rest) (drop_exact (length xs) xs back refl),
  omega (arith, length-append xs back),
  small,
)

pub take-Takes : (xs : Bytes) (n : ℕ) → length xs ≡ n → Takes (take_bytes n) xs xs
unfolding take_bytes
take-Takes xs n len r back (rest, ends, small) =
    let total = length-append xs back in
    rw (
      lt→ltb (r.pos + n) (2 ^ 64) (omega arith),
      le→leb (r.pos + n) (length r.bytes) (omega arith),
      rest,
      minus r.pos n,
      len,
      take_exact n xs back len,
    )
  where
    minus : (a b : ℕ) → a + b - a ≡ b
    minus a b = omega arith

pub lift-Takes {ℓ} : {A : Type ℓ} (m : Result A) (a : A) → m ≡ ok a → Takes (lift m) [] a
lift-Takes m a e r back at = rw e (ap (λ n. ok (a, record r { pos = n })) (plus_zero r.pos))
  where
    plus_zero : (n : ℕ) → n ≡ n + 0
    plus_zero n = omega arith

pub bind-Takes {ℓ κ} :
    {A : Type ℓ} {B : Type κ} (p : Reads A) (f : A → Reads B) (xs ys : Bytes) (a : A) (b : B)
    → Takes p xs a
    → Takes (f a) ys b
    → Takes (p >>= f) (xs ++ ys) b
bind-Takes p f xs ys a b h k r back at =
    let at' : At r (xs ++ (ys ++ back)) = rw (append_assoc xs ys back) at at in
    rw (h r (ys ++ back) at') (
      k (skip r (length xs)) back (At-skip r xs (ys ++ back) at')
      ∙ ap (λ n. ok (b, record r { pos = n })) (sum r.pos))
  where
    sum : (n : ℕ) → n + length xs + length ys ≡ n + length (xs ++ ys)
    sum n = omega (arith, length-append xs ys)

-- A check or a conversion between two reads.
pub check-Takes {ℓ κ} :
    {A : Type ℓ} {B : Type κ} (m : Result A) (f : A → Reads B) (ys : Bytes) (a : A) (b : B)
    → m ≡ ok a
    → Takes (f a) ys b
    → Takes (lift m >>= f) ys b
check-Takes m f ys a b e k r back at = rw e (k r back at)

pub guard-Takes {ℓ} :
    {B : Type ℓ} (test : Bool) (message : String) (f : Unit {0} → Reads B) (ys : Bytes) (b : B)
    → test ≡ false
    → Takes (f tt) ys b
    → Takes (lift (fail_if test message) >>= f) ys b
guard-Takes test message f ys b e k = check-Takes (fail_if test message) f ys tt b (rw e) k

-- A last read, and what is made of it without another.
pub end-Takes {ℓ κ} :
    {A : Type ℓ} {B : Type κ} (p : Reads A) (f : A → Reads B) (xs : Bytes) (a : A) (b : B)
    → Takes p xs a
    → Takes (f a) [] b
    → Takes (p >>= f) xs b
end-Takes p f xs a b h k =
    subst (λ (l : Bytes). Takes (p >>= f) l b) (append-nil xs) (bind-Takes p f xs [] a b h k)

pub u8-Takes : (x : ℕ) → Takes u8 (x ∷ []) x
unfolding u8
u8-Takes x =
    end-Takes _ _ (x ∷ []) (x ∷ []) x (take-Takes (x ∷ []) 1 refl) (lift-Takes (ok x) x refl)

pub le-Takes : (n x : ℕ) → x < 256 ^ n → Takes (le n) (to_le_bytes n x) x
unfolding le
le-Takes n x small =
    end-Takes _ _ (to_le_bytes n x) (to_le_bytes n x) x
      (take-Takes (to_le_bytes n x) n (length-to_le_bytes n x))
      (lift-Takes _ x (ap ok (from_le_bytes-to_le_bytes n x small)))

pub u16-Takes : (x : ℕ) → x < 2 ^ 16 → Takes u16 (to_le_bytes 2 x) x
unfolding u16
u16-Takes x small = le-Takes 2 x small

-- A whole text is read from its start to its end.
pub run-Takes {ℓ} :
    {A : Type ℓ} (p : Reads A) (bytes : Bytes) (a : A)
    → length bytes < 2 ^ 64
    → Takes p bytes a
    → p (record { bytes = bytes; pos = 0 }) ≡ ok (a, record { bytes = bytes; pos = length bytes })
run-Takes p bytes a small h =
    h start [] (
      subst (λ (l : Bytes). At start l) (sym (append-nil bytes))
        (refl, zero_plus (length bytes), small))
    ∙ ap (λ n. ok (a, record { bytes = bytes; pos = n })) (zero_plus (length bytes))
  where
    start : Reader
    start = record { bytes = bytes; pos = 0 }

    zero_plus : (n : ℕ) → 0 + n ≡ n
    zero_plus n = omega arith
