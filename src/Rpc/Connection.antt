-- ===== src/Rpc/Connection.antt =====
-- `Rpc` of src/rpc.rs, and `Rpc::new`.
use solx.Common.{ℕ, Bytes, Result, ok, ◌>>=◌, ◌>>◌, ok_or}
use solx.Config.{Config}
use solx.Config.Validate.{Parsers}
use solx.Rpc.Genesis.{expected_genesis}
use solx.Rpc.Values.{Chain}

-- The client of the reqwest crate is left out: it has no state that the code reads.
pub record Rpc : Type 0 where
  pub url : Bytes
  pub cluster : Bytes
  pub endpoint : Bytes
  -- in seconds
  pub timeout : ℕ
  pub expected : Bytes

-- `rpc_timeout` of src/config.rs, in seconds
abbrev pub rpc_timeout : Config → ℕ
rpc_timeout config = config.rpc.timeout_secs

unfoldable pub connect : Parsers → Chain → Config → Result Rpc
unfolding expected_genesis
connect parsers chain config = do
  url ← ok_or config.rpc.url "RPC is not configured; use config to set the RPC URL and cluster"
  parsed ← parsers.parse_url url
  endpoint ← ok_or parsed.host_str "RPC URL has no host"
  chain.build_client (rpc_timeout config)
  expected ← expected_genesis config
  ok (record {
    url = url;
    cluster = config.rpc.cluster;
    endpoint = endpoint;
    timeout = rpc_timeout config;
    expected = expected;
  })
