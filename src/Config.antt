-- ===== src/Config.antt =====
-- The settings of src/config.rs. A text is its UTF-8 bytes; a BTreeMap is its entries in key order.
pub mod Validate
pub mod Checks
pub mod Alias
pub mod Names
use solx.Common.{
  ℕ, ◌≤◌, ◌≡◌, refl, ◌↔◌, Bool, true, false, ◌&&◌, ◌||◌, not, List, [], ◌∷◌, Bytes, ascii, length,
  leb, all, Option, none, some, arith,
}
use solx.Common.Eq.{
  Eq, ◌==◌, nat_eq, bool_eq, list_eq, option_eq, pair_eq, list_beq, bool_beq, option_beq, pair_beq,
  list_beq_iff, option_beq_iff, bool_beq_iff, beq_refl, eq_of_beq,
}

pub data Mode : Type 0 where
  cli ui : Mode

pub record RpcConfig : Type 0 where
  pub url : Option Bytes
  pub cluster : Bytes
  pub expected_genesis_hash : Option Bytes
  pub timeout_secs : ℕ
  pub show_balances : Bool

pub record SecurityConfig : Type 0 where
  pub confirm_every_transaction : Bool
  pub show_details : Bool
  pub simulate_before_send : Bool
  pub show_simulation : Bool
  pub optimize_compute_units : Bool
  pub compute_unit_margin_percent : ℕ
  pub cache_unlocked_in_shell : Bool

pub record HistoryConfig : Type 0 where
  pub fetch_on_start : Bool
  pub interval_secs : Option ℕ
  pub wallets : List Bytes
  pub limit : ℕ

abbrev pub Aliases : Type 0
Aliases = List (Bytes × List Bytes)

pub record Config : Type 0 where
  pub vault : Bytes
  pub mode : Mode
  pub rpc : RpcConfig
  pub security : SecurityConfig
  pub history : HistoryConfig
  pub aliases : Aliases

abbrev pub default_rpc : RpcConfig
default_rpc = record {
  url = none;
  cluster = ascii "mainnet";
  expected_genesis_hash = none;
  timeout_secs = 15;
  show_balances = false;
}

abbrev pub default_security : SecurityConfig
default_security = record {
  confirm_every_transaction = true;
  show_details = true;
  simulate_before_send = true;
  show_simulation = true;
  optimize_compute_units = true;
  compute_unit_margin_percent = 10;
  cache_unlocked_in_shell = false;
}

abbrev pub default_history : HistoryConfig
default_history = record { fetch_on_start = false; interval_secs = none; wallets = []; limit = 10 }

-- `Config::default`; the argument is `default_dir().join("vault.enc")`, which depends on $HOME.
abbrev pub default_config : Bytes → Config
default_config path = record {
  vault = path;
  mode = cli;
  rpc = default_rpc;
  security = default_security;
  history = default_history;
  aliases = [];
}

unfoldable pub mode_eq : Mode → Mode → Bool
mode_eq cli cli = true
mode_eq ui ui = true
mode_eq _ _ = false

mode_eq_iff : (a b : Mode) → (mode_eq a b ≡ true) ↔ (a ≡ b)
unfolding mode_eq
mode_eq_iff a b = ground arith

unfoldable pub rpc_eq : RpcConfig → RpcConfig → Bool
rpc_eq a b =
    a.url == b.url
    && a.cluster == b.cluster
    && a.expected_genesis_hash == b.expected_genesis_hash
    && a.timeout_secs == b.timeout_secs
    && a.show_balances == b.show_balances

rpc_eq_iff : (a b : RpcConfig) → (rpc_eq a b ≡ true) ↔ (a ≡ b)
unfolding rpc_eq
rpc_eq_iff a b = ground (
  arith,
  option_beq_iff a.url b.url,
  list_beq_iff a.cluster b.cluster,
  option_beq_iff a.expected_genesis_hash b.expected_genesis_hash,
  bool_beq_iff a.show_balances b.show_balances,
)

unfoldable pub security_eq : SecurityConfig → SecurityConfig → Bool
security_eq a b =
    a.confirm_every_transaction == b.confirm_every_transaction
    && a.show_details == b.show_details
    && a.simulate_before_send == b.simulate_before_send
    && a.show_simulation == b.show_simulation
    && a.optimize_compute_units == b.optimize_compute_units
    && a.compute_unit_margin_percent == b.compute_unit_margin_percent
    && a.cache_unlocked_in_shell == b.cache_unlocked_in_shell

security_eq_iff : (a b : SecurityConfig) → (security_eq a b ≡ true) ↔ (a ≡ b)
unfolding security_eq
security_eq_iff a b = ground (
  arith,
  bool_beq_iff a.confirm_every_transaction b.confirm_every_transaction,
  bool_beq_iff a.show_details b.show_details,
  bool_beq_iff a.simulate_before_send b.simulate_before_send,
  bool_beq_iff a.show_simulation b.show_simulation,
  bool_beq_iff a.optimize_compute_units b.optimize_compute_units,
  bool_beq_iff a.cache_unlocked_in_shell b.cache_unlocked_in_shell,
)

unfoldable pub history_eq : HistoryConfig → HistoryConfig → Bool
history_eq a b =
    a.fetch_on_start == b.fetch_on_start
    && a.interval_secs == b.interval_secs
    && a.wallets == b.wallets
    && a.limit == b.limit

history_eq_iff : (a b : HistoryConfig) → (history_eq a b ≡ true) ↔ (a ≡ b)
unfolding history_eq
history_eq_iff a b = ground (
  arith,
  bool_beq_iff a.fetch_on_start b.fetch_on_start,
  option_beq_iff a.interval_secs b.interval_secs,
  list_beq_iff a.wallets b.wallets,
)

-- `Config::same_settings`: everything but the vault locator.
unfoldable pub same_settings : Config → Config → Bool
same_settings a b =
    mode_eq a.mode b.mode
    && rpc_eq a.rpc b.rpc
    && security_eq a.security b.security
    && history_eq a.history b.history
    && a.aliases == b.aliases

-- `same_settings` is the equality of everything but the locator.
pub same_settings_iff :
    (a b : Config)
    → (same_settings a b ≡ true) ↔ (
        (a.mode ≡ b.mode)
        × (a.rpc ≡ b.rpc)
        × (a.security ≡ b.security)
        × (a.history ≡ b.history)
        × (a.aliases ≡ b.aliases))
unfolding same_settings
same_settings_iff a b = ground (
  arith,
  mode_eq_iff a.mode b.mode,
  rpc_eq_iff a.rpc b.rpc,
  security_eq_iff a.security b.security,
  history_eq_iff a.history b.history,
  list_beq_iff a.aliases b.aliases,
)

-- `valid_name`
abbrev pub name_byte : ℕ → Bool
name_byte b =
    (leb b'a' b && leb b b'z')
    || (leb b'A' b && leb b b'Z')
    || (leb b'0' b && leb b b'9')
    || b == b'_'
    || b == b'-'

unfoldable pub valid_name : Bytes → Bool
valid_name name = not (length name == 0) && leb (length name) 32 && all name_byte name
