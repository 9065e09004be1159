-- ===== src/Common/Fallible.antt =====
-- `Result<T, Box<dyn Error>>` of src/main.rs, with the text of the error. `panicked` is no value of
-- the source: it is a panic, such as a slice index out of range.
use Prim.Native.String.{String}
use mathlib.Core.Path.{◌≡◌, refl}
use mathlib.Core.Bool.{Bool, true, false}
use mathlib.Core.Option.{Option, none, some}
use mathlib.Core.Logic.{◌≢◌}

pub data Result {ℓ} (A : Type ℓ) : Type ℓ where
  ok : A → Result A
  err : String → Result A
  panicked : Result A

infixl 5 ◌>>=◌ ◌>>◌
abbrev pub ◌>>=◌ {ℓ κ} : {A : Type ℓ} {B : Type κ} → Result A → (A → Result B) → Result B
panicked >>= next = panicked
err message >>= next = err message
ok value >>= next = next value

-- `if test { return fail(message) }`
abbrev pub fail_if : Bool → String → Result (Unit {0})
fail_if true message = err message
fail_if false message = ok tt

abbrev pub ok_or {ℓ} : {A : Type ℓ} → Option A → String → Result A
ok_or none message = err message
ok_or (some a) message = ok a

abbrev pub ◌>>◌ {ℓ} : {B : Type ℓ} → Result (Unit {0}) → Result B → Result B
first >> second = first >>= λ done. second

-- An index or slice expression panics out of range.
abbrev pub or_panic {ℓ} : {A : Type ℓ} → Option A → Result A
or_panic none = panicked
or_panic (some a) = ok a

-- `map_err(|_| message)`
abbrev pub map_err {ℓ} : {A : Type ℓ} → Result A → String → Result A
map_err (ok a) message = ok a
map_err (err e) message = err message
map_err panicked message = panicked

-- Inversion of a successful bind.
pub >>=-eq-ok {ℓ κ} :
    {A : Type ℓ} {B : Type κ} (first : Result A) (next : A → Result B) {result : B}
    → (first >>= next) ≡ ok result
    → (value : A) × (first ≡ ok value) × (next value ≡ ok result)
>>=-eq-ok panicked next e = cc
>>=-eq-ok (err message) next e = cc
>>=-eq-ok (ok value) next e = (value, refl, e)

pub >>=-ne-panicked {ℓ κ} :
    {A : Type ℓ} {B : Type κ} (m : Result A) (f : A → Result B)
    → m ≢ panicked
    → ((a : A) → m ≡ ok a → f a ≢ panicked)
    → (m >>= f) ≢ panicked
>>=-ne-panicked (ok a) f h k = k a refl
>>=-ne-panicked (err e) f h k = λ p. cc
>>=-ne-panicked panicked f h k = λ p. h refl

pub fail_if-eq-ok :
    (test : Bool) (message : String) {u : Unit {0}} → fail_if test message ≡ ok u → test ≡ false
fail_if-eq-ok true message h = cc
fail_if-eq-ok false message h = refl

-- The continuation of a check that passes.
pub fail_if-false {ℓ} :
    {B : Type ℓ} (test : Bool) (message : String) (k : Result B)
    → test ≡ false
    → (fail_if test message >> k) ≡ k
fail_if-false test message k e = rw e

pub ok_or-eq-ok {ℓ} :
    {A : Type ℓ} (o : Option A) (message : String) {a : A} → ok_or o message ≡ ok a → o ≡ some a
ok_or-eq-ok none message e = cc
ok_or-eq-ok (some b) message e = cc

pub ok_inj {ℓ} : {A : Type ℓ} {a b : A} → ok a ≡ ok b → a ≡ b
ok_inj e = cc

pub err-ne-ok {ℓ} : {A : Type ℓ} {a : A} {message : String} → err message ≢ ok a
err-ne-ok = λ e. cc
