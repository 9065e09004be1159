-- ===== src/Commands/Limits.antt =====
-- The compute limit and the amount of "send all" in src/commands.rs.
use solx.Common.{
  ℕ, ◌+◌, ◌-◌, ◌*◌, ◌/◌, ◌^◌, ◌≤◌, ◌<◌, ◌≡◌, ◌↔◌, ◌⊎◌, min, max, true, false, ◌||◌, Option, none,
  some, Result, ok, err, ◌>>◌, fail_if, ok_or, ltb, leb, lt→ltb, if◌then◌else◌, arith,
}
use native.Mathlib.Nat.{mul-add, mul-le-mul}
use solx.Common.Eq.{◌==◌, nat_eq}

abbrev pub max_compute_units : ℕ
max_compute_units = 1_400_000

-- `u64::saturating_mul` and `u64::div_ceil`
abbrev pub saturating_mul : ℕ → ℕ → ℕ
saturating_mul a b = min (a * b) (2 ^ 64 - 1)

abbrev pub div_ceil : ℕ → ℕ → ℕ
div_ceil a b = (a + (b - 1)) / b

-- `u32::try_from`
abbrev pub to_u32 : ℕ → Option ℕ
to_u32 n = if ltb n (2 ^ 32) then some n else none

unfoldable pub tuned_compute_limit : ℕ → ℕ → Result ℕ
tuned_compute_limit used margin_percent = do
  fail_if (used == 0 || ltb max_compute_units used) "simulation returned invalid compute usage"
  let margin = max (div_ceil (saturating_mul used margin_percent) 100) 1_000
  ok_or (to_u32 (min (used + margin) max_compute_units))
      "out of range integral type conversion attempted"

abbrev tuned_margin : ℕ → ℕ
tuned_margin product = max (div_ceil product 100) 1_000

passes :
    (used : ℕ)
    → 0 < used
    → used ≤ max_compute_units
    → (used == 0 || ltb max_compute_units used) ≡ false
passes used low high = ground arith

saturates : (product : ℕ) → product ≤ max_compute_units * 255 → min product (2 ^ 64 - 1) ≡ product
saturates product h = omega arith

fits : (sum : ℕ) → ltb (min sum max_compute_units) (2 ^ 32) ≡ true
fits sum = lt→ltb (min sum max_compute_units) (2 ^ 32) (omega arith)

limit_bounds :
    (used product : ℕ)
    → 0 < used
    → used ≤ max_compute_units
    → (let limit = min (used + tuned_margin product) max_compute_units in
        (used ≤ limit)
        × (limit ≤ max_compute_units)
        × ((limit ≡ max_compute_units)
            ⊎ ((used + 1_000 ≤ limit) × (used * 100 + product ≤ limit * 100))))
limit_bounds used product low high = (omega arith, omega arith, ground arith)

-- A usage from 1 to the maximum gets a limit that covers it and is at most the maximum; below the
-- maximum it leaves a margin of at least 1,000 units and of at least the given percentage.
pub tuned_compute_limit_lem :
    (used percent : ℕ)
    → 0 < used
    → used ≤ max_compute_units
    → percent ≤ 255
    → (limit : ℕ) × (tuned_compute_limit used percent ≡ ok limit)
      × (used ≤ limit)
      × (limit ≤ max_compute_units)
      × ((limit ≡ max_compute_units)
          ⊎ ((used + 1_000 ≤ limit) × (used * (100 + percent) ≤ limit * 100)))
unfolding tuned_compute_limit
tuned_compute_limit_lem used percent low high small =
    let product : used * percent ≤ max_compute_units * 255 = mul-le-mul high small in
    let (covers, capped, roomy) = limit_bounds used (used * percent) low high in
    (
      min (used + tuned_margin (used * percent)) max_compute_units,
      rw (
        passes used low high,
        saturates (used * percent) product,
        fits (used + tuned_margin (used * percent)),
      ),
      covers,
      capped,
      rw (mul-add used 100 percent) roomy,
    )

-- `u64::checked_sub`
abbrev pub checked_sub : ℕ → ℕ → Option ℕ
checked_sub a b = if leb b a then some (a - b) else none

abbrev pub positive : Option ℕ → Result ℕ
positive none = err "insufficient SOL to send ALL after the network fee"
positive (some amount) =
    if ltb 0 amount then ok amount else err "insufficient SOL to send ALL after the network fee"

unfoldable pub spend_all_lamports : ℕ → ℕ → Result ℕ
spend_all_lamports balance fee = positive (checked_sub balance fee)

-- Sending everything succeeds exactly when something is left after the fee, and then amount and fee
-- make up the balance.
pub spend_all_lamports_iff :
    (balance fee amount : ℕ)
    → (spend_all_lamports balance fee ≡ ok amount) ↔ ((0 < amount) × (amount + fee ≡ balance))
unfolding spend_all_lamports
spend_all_lamports_iff balance fee amount = ground arith

-- A limit that was found is at most the maximum.
pub tuned_compute_limit-le :
    (used percent : ℕ) {limit : ℕ}
    → tuned_compute_limit used percent ≡ ok limit
    → limit ≤ max_compute_units
unfolding tuned_compute_limit
tuned_compute_limit-le used percent e = ground arith
