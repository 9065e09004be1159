-- ===== src/Settings/Ranges.antt =====
-- What `Field::set` of src/settings.rs keeps.
use solx.Common.{
  ℕ, ◌%◌, ◌^◌, ◌-◌, ◌≤◌, ◌≡◌, refl, inl, inr, Bool, true, false, not, ◌&&◌, Option, none, some,
  Bytes, ascii, String, leb, ok, ◌>>=◌, ◌>>◌, fail_if, >>=-eq-ok, fail_if-eq-ok, ok_inj, err-ne-ok,
  Bool-cases, arith,
}
use mathlib.Core.Path.{subst}
use solx.Common.Eq.{◌==◌, nat_eq, list_eq}
use solx.Config.{Config}
use solx.Config.Validate.{Parsers, validate}
use solx.Settings.{
  Field, known_name, with_cluster, number, boolean, parse_number, set_url, set_cluster, set_pin,
  set_interval, set_field, set, read_only,
}

abbrev pub IsInterval : Option ℕ → Type 0
IsInterval none = Unit
IsInterval (some n) = 10 ≤ n

-- The numbers of the settings are in the ranges of the source.
abbrev pub IsRanged : Config → Type 0
IsRanged config =
    ((1 ≤ config.rpc.timeout_secs) × (config.rpc.timeout_secs ≤ 120))
    × ((1 ≤ config.history.limit) × (config.history.limit ≤ 100))
    × (config.security.compute_unit_margin_percent ≤ 100)
    × IsInterval config.history.interval_secs

-- The settings that no field writes.
abbrev pub SameRest : Config → Config → Type 0
SameRest before after =
    (after.vault ≡ before.vault)
    × (after.mode ≡ before.mode)
    × (after.aliases ≡ before.aliases)
    × (after.history.wallets ≡ before.history.wallets)

abbrev pub IsEdit : Config → Config → Type 0
IsEdit before after = IsRanged after × SameRest before after

number-range :
    (input : Bytes) (min max : ℕ) (message : String) {n : ℕ}
    → number input min max message ≡ ok n
    → (min ≤ n) × (n ≤ max)
unfolding number
number-range input min max message {n} e =
    let (value, read, rest) = >>=-eq-ok (parse_number input) _ e in
    let (done, passed, same) =
      >>=-eq-ok (fail_if (not (leb min value && leb value max)) message) (λ u. ok value) rest in
    let inside = fail_if-eq-ok (not (leb min value && leb value max)) message passed in
    subst (λ n. (min ≤ n) × (n ≤ max)) (ok_inj same) (ground (arith, inside))

module _ (config : Config) where
  after_boolean :
      (input : Bytes) (update : Bool → Config) {after : Config}
      → ((b : Bool) → IsEdit config (update b))
      → (boolean input >>= λ b. ok (update b)) ≡ ok after
      → IsEdit config after
  after_boolean input update edit e =
      let (b, read, same) = >>=-eq-ok (boolean input) (λ b. ok (update b)) e in
      subst (IsEdit config) (ok_inj same) (edit b)

  after_number :
      (input : Bytes) (min max : ℕ) (message : String) (update : ℕ → Config) {after : Config}
      → ((n : ℕ) → min ≤ n → n ≤ max → IsEdit config (update n))
      → (number input min max message >>= λ n. ok (update n)) ≡ ok after
      → IsEdit config after
  after_number input min max message update edit e =
      let (n, read, same) = >>=-eq-ok (number input min max message) (λ n. ok (update n)) e in
      let (low, high) = number-range input min max message read in
      subst (IsEdit config) (ok_inj same) (edit n low high)

  after_check :
      (test : Bool) (message : String) (result : Config) {after : Config}
      → IsEdit config result
      → (fail_if test message >> ok result) ≡ ok after
      → IsEdit config after
  after_check true message result edit e = absurd (err-ne-ok e)
  after_check false message result edit e = subst (IsEdit config) (ok_inj e) edit

small_margin : (n : ℕ) → n ≤ 100 → n % 2 ^ 8 ≤ 100
small_margin n high = omega arith

small_limit : (n : ℕ) → 1 ≤ n → n ≤ 100 → (1 ≤ n % 2 ^ 64) × (n % 2 ^ 64 ≤ 100)
small_limit n low high = (omega arith, omega arith)

module _ (parsers : Parsers) (path : Bytes) (config : Config) (ranged : IsRanged config) where
  abbrev same_rest : SameRest config config
  same_rest = (refl, refl, refl, refl)

  set_url-IsEdit :
      (input : Bytes) {after : Config}
      → set_url parsers path config input ≡ ok after
      → IsEdit config after
  unfolding set_url
  set_url-IsEdit input e =
      let (done, valid, same) = >>=-eq-ok (validate parsers _) _ e in
      subst (IsEdit config) (ok_inj same) (ranged, same_rest)

  set_cluster-IsEdit :
      (input : Bytes) {after : Config}
      → set_cluster parsers path config input ≡ ok after
      → IsEdit config after
  unfolding set_cluster
  set_cluster-IsEdit input e =
      after_check config (not (known_name input)) "use mainnet, devnet, testnet, or custom"
        (with_cluster config input) with_cluster-IsEdit e
    where
      with_cluster-IsEdit : IsEdit config (with_cluster config input)
      with_cluster-IsEdit = elim (Bool-cases (config.rpc.cluster == input)) [
        | inl same ↦ rw same (ranged, same_rest)
        | inr other ↦ rw other (ranged, same_rest)
      ]

  set_pin-IsEdit :
      (input : Bytes) {after : Config}
      → set_pin parsers path config input ≡ ok after
      → IsEdit config after
  unfolding set_pin
  set_pin-IsEdit input e = elim (Bool-cases (input == ascii "clear")) [
    | inl clear ↦ subst (IsEdit config) (ok_inj (rw clear at e)) (ranged, same_rest)
    | inr hash ↦
        let (done, read, same) = >>=-eq-ok (parsers.parse_hash input) _ (rw hash at e) in
        subst (IsEdit config) (ok_inj same) (ranged, same_rest)
  ]

  set_interval-IsEdit :
      (input : Bytes) {after : Config}
      → set_interval parsers path config input ≡ ok after
      → IsEdit config after
  unfolding set_interval
  set_interval-IsEdit input e = elim (Bool-cases (input == ascii "clear")) [
    | inl clear ↦
        subst (IsEdit config) (ok_inj (rw clear at e))
          ((ranged.0, ranged.1, ranged.2, tt), same_rest)
    | inr text ↦
        after_number config input 10 (2 ^ 64 - 1) "value must be 10..=18446744073709551615" _
          (λ n low high. ((ranged.0, ranged.1, ranged.2, low), same_rest)) (rw text at e)
  ]

  set_field-IsEdit :
      (field : Field) (input : Bytes) {after : Config}
      → set_field parsers path field config input ≡ ok after
      → IsEdit config after
  unfolding set_field
  set_field-IsEdit Field.url input e = set_url-IsEdit input e
  set_field-IsEdit Field.cluster input e = set_cluster-IsEdit input e
  set_field-IsEdit Field.pin input e = set_pin-IsEdit input e
  set_field-IsEdit Field.timeout input e =
      after_number config input 1 120 "value must be 1..=120" _
        (λ n low high. (((low, high), ranged.1, ranged.2, ranged.3), same_rest)) e
  set_field-IsEdit Field.margin input e =
      after_number config input 0 100 "value must be 0..=100" _
        (λ n low high. ((ranged.0, ranged.1, small_margin n high, ranged.3), same_rest)) e
  set_field-IsEdit Field.interval input e = set_interval-IsEdit input e
  set_field-IsEdit Field.limit input e =
      after_number config input 1 100 "value must be 1..=100" _
        (λ n low high. ((ranged.0, small_limit n low high, ranged.2, ranged.3), same_rest)) e
  set_field-IsEdit Field.balances input e =
      after_boolean config input _ (λ b. (ranged, same_rest)) e
  set_field-IsEdit Field.confirm input e = after_boolean config input _ (λ b. (ranged, same_rest)) e
  set_field-IsEdit Field.details input e = after_boolean config input _ (λ b. (ranged, same_rest)) e
  set_field-IsEdit Field.simulate input e =
      after_boolean config input _ (λ b. (ranged, same_rest)) e
  set_field-IsEdit Field.simulation input e =
      after_boolean config input _ (λ b. (ranged, same_rest)) e
  set_field-IsEdit Field.compute input e = after_boolean config input _ (λ b. (ranged, same_rest)) e
  set_field-IsEdit Field.cache input e = after_boolean config input _ (λ b. (ranged, same_rest)) e
  set_field-IsEdit Field.fetch input e = after_boolean config input _ (λ b. (ranged, same_rest)) e

  -- From settings whose numbers are in range, an edit of a field that is accepted leads to settings
  -- whose numbers are in range; it leaves the vault's path, the mode, the aliases and the wallets of
  -- the history as they are.
  pub set-IsEdit :
      (field : Field) (input : Bytes) (after : Config)
      → set parsers path field config input ≡ ok after
      → IsEdit config after
  unfolding set
  set-IsEdit field input after e =
      let (done, writable, rest) =
        >>=-eq-ok
          (fail_if (read_only field config) "genesis hash is read-only for built-in networks")
          (λ u. set_field parsers path field config input) e in
      set_field-IsEdit field input rest
