-- ===== src/Config/Validate.antt =====
-- `Config::validate` of src/config.rs.
use solx.Common.{
  ℕ, Bool, true, false, ◌&&◌, ◌||◌, not, List, [], ◌∷◌, Bytes, ascii, length, any, Option, none,
  some, Result, ok, ◌>>=◌, ◌>>◌, fail_if, ltb, leb,
}
use solx.Common.Eq.{◌==◌, nat_eq, list_eq}
use solx.Config.{Config, Aliases, valid_name}
use solx.Commands.{plugin_names}
use solx.Rpc.Genesis.{expected_genesis}

-- What the code reads of a `reqwest::Url`.
pub record Url : Type 0 where
  pub scheme : Bytes
  pub host_str : Option Bytes
  pub username : Bytes
  pub password : Option Bytes

-- The parsers of other crates that the settings go through: `reqwest::Url::parse`, and
-- `solana_message::Hash::from_str`.
pub record Parsers : Type 0 where
  pub parse_url : Bytes → Result Url
  pub parse_hash : Bytes → Result Bytes

abbrev pub is_some : Option Bytes → Bool
is_some none = false
is_some (some x) = true

-- The match on the cluster.
unfoldable pub known_cluster : Config → Bool
known_cluster config =
    config.rpc.cluster == ascii "mainnet"
    || config.rpc.cluster == ascii "devnet"
    || config.rpc.cluster == ascii "testnet"
    || (config.rpc.cluster == ascii "custom" && is_some config.rpc.expected_genesis_hash)

unfoldable pub hash_parses : Parsers → Option Bytes → Result (Unit {0})
hash_parses parsers none = ok tt
hash_parses parsers (some hash) = do _ ← parsers.parse_hash hash; ok tt

abbrev pub interval_too_short : Option ℕ → Bool
interval_too_short none = false
interval_too_short (some interval) = ltb interval 10

abbrev pub reserved : Bytes → Bool
reserved name = name == ascii "shell" || name == ascii "exit" || name == ascii "quit"

unfoldable pub bad_alias : Bytes × List Bytes → Bool
bad_alias (name, words) =
    not (valid_name name)
    || reserved name
    || any (λ command. command == name) plugin_names
    || length words == 0
    || ltb 16 (length words)
    || any (λ word. ltb 256 (length word)) words

unfoldable pub aliases_valid : Aliases → Result (Unit {0})
aliases_valid [] = ok tt
aliases_valid (entry ∷ rest) = do
  fail_if (bad_alias entry) "invalid command alias"
  aliases_valid rest

abbrev pub is_local : Option Bytes → Bool
is_local none = false
is_local (some host) =
    host == ascii "127.0.0.1"
    || host == ascii "localhost"
    || host == ascii "[::1]"
    || host == ascii "::1"

unfoldable pub url_allowed : Parsers → Option Bytes → Result (Unit {0})
url_allowed parsers none = ok tt
url_allowed parsers (some url) = do
  parsed ← parsers.parse_url url
  let local = is_local parsed.host_str
  fail_if (not (parsed.scheme == ascii "https") && not (parsed.scheme == ascii "http" && local))
      "RPC must use HTTPS, except loopback HTTP"
  fail_if (not (length parsed.username == 0) || is_some parsed.password)
      "RPC URL must not contain credentials"

unfoldable pub validate : Parsers → Config → Result (Unit {0})
validate parsers config = do
  _ ← expected_genesis config
  fail_if (not (known_cluster config))
      "cluster must be mainnet, devnet, testnet, or custom with expected_genesis_hash"
  hash_parses parsers config.rpc.expected_genesis_hash
  fail_if (not (leb 1 config.rpc.timeout_secs && leb config.rpc.timeout_secs 120))
      "rpc.timeout_secs must be 1..=120"
  fail_if (not (leb 1 config.history.limit && leb config.history.limit 100))
      "history.limit must be 1..=100"
  fail_if (ltb 100 config.security.compute_unit_margin_percent)
      "security.compute_unit_margin_percent must be 0..=100"
  fail_if (ltb 16 (length config.history.wallets)) "history.wallets supports at most 16 entries"
  fail_if (interval_too_short config.history.interval_secs)
      "history.interval_secs must be at least 10"
  fail_if (ltb 64 (length config.aliases)) "too many aliases"
  aliases_valid config.aliases
  url_allowed parsers config.rpc.url
