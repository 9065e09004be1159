-- ===== src/Tests/Fields.antt =====
-- The fields of the settings on concrete input.
use solx.Common.{◌≡◌, refl, ascii, Bytes, ok, err, arith}
use solx.Common.Eq.{list_beq}
use solx.Config.{Config}
use solx.Settings.{Field, set}
use solx.Settings.Ranges.{IsRanged}
use solx.Tests.World.{toy_parsers, config}

abbrev pub home : Bytes
home = ascii "/home/vault.enc"

abbrev slow : Config
slow = record config { rpc = record config.rpc { timeout_secs = 60 } }

sixty : set toy_parsers home Field.timeout config (ascii "+60") ≡ ok slow
unfolding set
sixty = refl

pin_closed :
    set toy_parsers home Field.pin config (ascii "clear")
    ≡ err "genesis hash is read-only for built-in networks"
unfolding set list_beq
pin_closed = refl

pub config-IsRanged : IsRanged config
config-IsRanged = ((omega arith, omega arith), (omega arith, omega arith), omega arith, tt)
