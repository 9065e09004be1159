-- ===== src/Vault/Codec/Ensures.antt =====
-- Readings from the `Reader` of src/vault.rs that do not panic, and what they return.
use solx.Common.{
  ℕ, ◌+◌, ◌-◌, ◌^◌, ◌≤◌, ◌≡◌, ◌≢◌, refl, inl, inr, Bool, true, false, Bool-cases, [], ◌∷◌, Bytes,
  String, length, drop, length-take, length-drop, index, Result, ok, err, panicked, ok_or, fail_if,
  ltb, leb, leb→le, arith,
}
use solx.Vault.Codec.Reader.{
  Reader, Reads, pass, ◌>>=◌, lift, get_range, move, take_bytes, u8, le, u16,
}

abbrev pub Holds {ℓ} : {A : Type ℓ} → (A → Type 0) → Result (A × Reader) → Type 0
Holds P (ok (a, r)) = P a
Holds P (err e) = Unit {0}
Holds P panicked = ⊥

-- Whatever the reader holds, `p` does not panic, and what it returns satisfies `P`.
abbrev pub Ensures {ℓ} : {A : Type ℓ} → Reads A → (A → Type 0) → Type 0
Ensures p P = (r : Reader) → Holds P (p r)

module _ {ℓ κ} {A : Type ℓ} {B : Type κ} (P : B → Type 0) where
  pass-Holds :
      (Q : A → Type 0) (s : Result (A × Reader)) (f : A → Reads B)
      → Holds Q s
      → ((a : A) → Q a → Ensures (f a) P)
      → Holds P (pass s f)
  pass-Holds Q (ok (a, r)) f h k = k a h r
  pass-Holds Q (err e) f h k = tt
  pass-Holds Q panicked f h k = absurd h

  pub bind-Ensures :
      (Q : A → Type 0) (p : Reads A) (f : A → Reads B)
      → Ensures p Q
      → ((a : A) → Q a → Ensures (f a) P)
      → Ensures (p >>= f) P
  bind-Ensures Q p f h k r = pass-Holds Q (p r) f (h r) k

  pub check-Ensures :
      (m : Result A) (f : A → Reads B)
      → m ≢ panicked
      → ((a : A) → m ≡ ok a → Ensures (f a) P)
      → Ensures (lift m >>= f) P
  check-Ensures (ok a) f h k r = k a refl r
  check-Ensures (err e) f h k r = tt
  check-Ensures panicked f h k r = absurd (h refl)

pub guard-Ensures {ℓ} :
    {B : Type ℓ} (P : B → Type 0) (test : Bool) (message : String) (f : Unit {0} → Reads B)
    → (test ≡ false → Ensures (f tt) P)
    → Ensures (lift (fail_if test message) >>= f) P
guard-Ensures P true message f k r = tt
guard-Ensures P false message f k r = k refl r

move-Holds :
    (r : Reader) (end n : ℕ)
    → end ≡ r.pos + n
    → Holds
        (λ (xs : Bytes). length xs ≡ n)
        (move r end (ok_or (get_range r.bytes r.pos end) "truncated vault"))
move-Holds r end n e = elim (Bool-cases (leb end (length r.bytes))) [
  | inl in_range ↦
      let within : end ≤ length r.bytes = leb→le end (length r.bytes) in_range in
      rw in_range
        (omega (arith, length-take (end - r.pos) (drop r.pos r.bytes), length-drop r.pos r.bytes))
  | inr beyond ↦ rw beyond tt
]

-- A slice that was taken has the length asked for.
pub take-Ensures : (n : ℕ) → Ensures (take_bytes n) (λ xs. length xs ≡ n)
unfolding take_bytes
take-Ensures n r = elim (Bool-cases (ltb (r.pos + n) (2 ^ 64))) [
  | inl small ↦ rw small (move-Holds r (r.pos + n) n refl)
  | inr large ↦ rw large tt
]

abbrev pub Any {ℓ} : {A : Type ℓ} → A → Type 0
Any a = Unit {0}

first-Ensures : (xs : Bytes) → length xs ≡ 1 → Ensures (lift (index xs 0)) Any
first-Ensures [] len r = absurd (omega arith)
first-Ensures (x ∷ xs) len r = tt

pub u8-Ensures : Ensures u8 Any
unfolding u8
u8-Ensures = bind-Ensures Any (λ xs. length xs ≡ 1) (take_bytes 1) _ (take-Ensures 1) first-Ensures

pub le-Ensures : (n : ℕ) → Ensures (le n) Any
unfolding le
le-Ensures n =
    bind-Ensures Any (λ xs. length xs ≡ n) (take_bytes n) _ (take-Ensures n) (λ xs len r. tt)

pub u16-Ensures : Ensures u16 Any
unfolding u16
u16-Ensures = le-Ensures 2
