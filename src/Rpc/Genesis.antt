-- ===== src/Rpc/Genesis.antt =====
-- `expected_genesis` of src/rpc.rs.
use solx.Common.{
  Bool, false, not, Bytes, ascii, Option, none, some, Result, ok, err, ◌>>◌, ok_or, fail_if,
  if◌then◌else◌,
}
use solx.Common.Eq.{◌==◌, nat_eq, list_eq}
use solx.Config.{Config}

abbrev pub mainnet_genesis : Bytes
mainnet_genesis = ascii "5eykt4UsFv8P8NJdTREpY1vzqKqZKvdpKuc147dw2N9d"

abbrev pub devnet_genesis : Bytes
devnet_genesis = ascii "EtWTRABZaYq6iMfeYKouRu166VU2xqa1wcaWoxPkrZBG"

abbrev pub testnet_genesis : Bytes
testnet_genesis = ascii "4uhcVJyU9pJkvQyS88uRDiswHXSCkY3zQawwpjk2NsNY"

-- `is_some_and(|hash| hash != known)`
abbrev pub disagrees : Option Bytes → Bytes → Bool
disagrees none known = false
disagrees (some hash) known = not (hash == known)

-- The checks after the match, for a built-in cluster.
abbrev pub pinned : Config → Bytes → Result Bytes
pinned config known = do
  fail_if (disagrees config.rpc.expected_genesis_hash known)
      "expected_genesis_hash disagrees with the selected cluster"
  ok known

unfoldable pub expected_genesis : Config → Result Bytes
expected_genesis config =
    if config.rpc.cluster == ascii "mainnet"
    then pinned config mainnet_genesis
    else if config.rpc.cluster == ascii "devnet"
    then pinned config devnet_genesis
    else if config.rpc.cluster == ascii "testnet"
    then pinned config testnet_genesis
    else if config.rpc.cluster == ascii "custom"
    then ok_or config.rpc.expected_genesis_hash "custom cluster requires expected_genesis_hash"
    else err "unknown cluster"
