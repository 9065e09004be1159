-- ===== src/Settings.antt =====
-- The settings editor of src/settings.rs: `Field`.
pub mod Ranges
pub mod Editor
pub mod Command
use solx.Common.{
  ℕ, ◌%◌, ◌^◌, ◌-◌, Bool, true, false, ◌&&◌, ◌||◌, not, List, [], ◌∷◌, Option, none, some, Bytes,
  ascii, String, all, ltb, leb, Result, ok, err, ◌>>=◌, ◌>>◌, fail_if, map_err, if◌then◌else◌,
}
use solx.Common.Eq.{◌==◌, nat_eq, list_eq}
use solx.Common.Text.{is_nil}
use solx.Common.Numbers.{parse_unsigned}
use solx.Config.{Config, default_config, default_rpc}
use solx.Config.Validate.{Parsers, validate}

pub data Field : Type 0 where
  url cluster pin timeout balances confirm details simulate simulation compute margin : Field
  cache fetch interval limit : Field

-- `RPC`, `SECURITY`, `HISTORY` and `GROUPS`: the fields in the order of the menus, with their labels.
abbrev pub rpc_fields : List (Field × Bytes)
rpc_fields =
    (url, ascii "RPC URL")
    ∷ (cluster, ascii "Cluster")
    ∷ (pin, ascii "Expected genesis hash")
    ∷ (timeout, ascii "Timeout seconds")
    ∷ (balances, ascii "Show balances")
    ∷ []

abbrev pub security_fields : List (Field × Bytes)
security_fields =
    (confirm, ascii "Confirm every transaction")
    ∷ (details, ascii "Show details")
    ∷ (simulate, ascii "Simulate before sending")
    ∷ (simulation, ascii "Show simulation")
    ∷ (compute, ascii "Optimize compute units")
    ∷ (margin, ascii "Compute margin percent")
    ∷ (cache, ascii "Keep vault unlocked in shell")
    ∷ []

abbrev pub history_fields : List (Field × Bytes)
history_fields =
    (fetch, ascii "Fetch on startup")
    ∷ (interval, ascii "Refresh interval seconds")
    ∷ (limit, ascii "History entry limit")
    ∷ []

abbrev pub groups : List (Bytes × List (Field × Bytes))
groups =
    (ascii "RPC", rpc_fields)
    ∷ (ascii "Security", security_fields)
    ∷ (ascii "History", history_fields)
    ∷ []

unfoldable pub read_only : Field → Config → Bool
read_only pin config = not (config.rpc.cluster == ascii "custom")
read_only _ config = false

unfoldable pub parse_number : Bytes → Result ℕ
unfolding parse_unsigned
parse_number input = map_err (parse_unsigned input) "expected an unsigned integer"

-- The two closures of `set`; the last argument of `number` is its message, which names the range.
unfoldable pub number : Bytes → ℕ → ℕ → String → Result ℕ
unfolding parse_number
number input min max message = do
  value ← parse_number input
  fail_if (not (leb min value && leb value max)) message
  ok value

unfoldable pub boolean : Bytes → Result Bool
boolean input =
    if input == ascii "on" || input == ascii "true"
    then ok true
    else (if input == ascii "off" || input == ascii "false" then ok false else err "use on or off")

abbrev pub known_name : Bytes → Bool
known_name input =
    input == ascii "mainnet"
    || input == ascii "devnet"
    || input == ascii "testnet"
    || input == ascii "custom"

-- Another cluster forgets the hash that was pinned.
abbrev pub with_cluster : Config → Bytes → Config
with_cluster config input =
    if config.rpc.cluster == input
    then config
    else record config { rpc = record config.rpc { expected_genesis_hash = none; cluster = input } }

module _ (parsers : Parsers) (path : Bytes) where
  -- The new URL is checked in default settings.
  unfoldable pub set_url : Config → Bytes → Result Config
  unfolding validate
  set_url config input = do
    let new = if input == ascii "clear" then none else some input
    validate parsers (record (default_config path) { rpc = record default_rpc { url = new } })
    ok (record config { rpc = record config.rpc { url = new } })

  unfoldable pub set_cluster : Config → Bytes → Result Config
  set_cluster config input = do
    fail_if (not (known_name input)) "use mainnet, devnet, testnet, or custom"
    ok (with_cluster config input)

  unfoldable pub set_pin : Config → Bytes → Result Config
  set_pin config input =
      if input == ascii "clear"
      then ok (record config { rpc = record config.rpc { expected_genesis_hash = none } })
      else (do
        _ ← parsers.parse_hash input
        ok (record config { rpc = record config.rpc { expected_genesis_hash = some input } }))

  unfoldable pub set_interval : Config → Bytes → Result Config
  unfolding number
  set_interval config input =
      if input == ascii "clear"
      then ok (record config { history = record config.history { interval_secs = none } })
      else (do
        n ← number input 10 (2 ^ 64 - 1) "value must be 10..=18446744073709551615"
        ok (record config { history = record config.history { interval_secs = some n } }))

  -- The match on the field.
  unfoldable pub set_field : Field → Config → Bytes → Result Config
  unfolding set_url set_cluster set_pin set_interval number boolean
  set_field url config input = set_url config input
  set_field cluster config input = set_cluster config input
  set_field pin config input = set_pin config input
  set_field timeout config input = do
    n ← number input 1 120 "value must be 1..=120"
    ok (record config { rpc = record config.rpc { timeout_secs = n } })
  set_field balances config input = do
    b ← boolean input
    ok (record config { rpc = record config.rpc { show_balances = b } })
  set_field confirm config input = do
    b ← boolean input
    ok (record config { security = record config.security { confirm_every_transaction = b } })
  set_field details config input = do
    b ← boolean input
    ok (record config { security = record config.security { show_details = b } })
  set_field simulate config input = do
    b ← boolean input
    ok (record config { security = record config.security { simulate_before_send = b } })
  set_field simulation config input = do
    b ← boolean input
    ok (record config { security = record config.security { show_simulation = b } })
  set_field compute config input = do
    b ← boolean input
    ok (record config { security = record config.security { optimize_compute_units = b } })
  set_field margin config input = do
    n ← number input 0 100 "value must be 0..=100"
    ok (record config {
      security = record config.security { compute_unit_margin_percent = n % 2 ^ 8 };
    })
  set_field cache config input = do
    b ← boolean input
    ok (record config { security = record config.security { cache_unlocked_in_shell = b } })
  set_field fetch config input = do
    b ← boolean input
    ok (record config { history = record config.history { fetch_on_start = b } })
  set_field interval config input = set_interval config input
  set_field limit config input = do
    n ← number input 1 100 "value must be 1..=100"
    ok (record config { history = record config.history { limit = n % 2 ^ 64 } })

  unfoldable pub set : Field → Config → Bytes → Result Config
  unfolding set_field read_only
  set field config input = do
    fail_if (read_only field config) "genesis hash is read-only for built-in networks"
    set_field field config input
