-- ===== src/Tests/Secrets.antt =====
-- The commands that take or show secrets on concrete data.
use solx.Common.{◌≡◌, refl, true, [], ◌∷◌, ascii, some, ok, err}
use solx.Effects.{Env}
use solx.Effects.Revealing.{shown_secrets}
use solx.Effects.Writing.{OnlyChanges, OnlyWrites}
use solx.Commands.Secrets.{Sources, parse_keypair_json, unquote}
use solx.Commands.Secrets.Export.{export, IsExport, export-IsExport}
use solx.Commands.Secrets.Init.{init, IsInit, init-IsInit}
use solx.Tests.World.{replicate, toy_crates}
use solx.Tests.Network.{toy_env, toy_world}

abbrev pub toy_sources : Sources
toy_sources = record {
  encode_base58 = λ bytes. ok bytes;
  decode_base58 = λ text. ok text;
  sequence = λ text. ok (some 7 ∷ [], true);
  open_file = λ moment path. err "no such file";
  salt = λ moment. ok (replicate 16 9);
}

-- The terminal answers with the name of the wallet, and with a long password.
abbrev main_env : Env
main_env = record toy_env {
  line = λ moment. ok (some (ascii "main\n"));
  password = λ moment. ok (ascii "a long password");
}

one_byte :
    parse_keypair_json toy_sources toy_crates (ascii "[7]")
    ≡ err "invalid keypair JSON; expected exactly 64 bytes"
unfolding parse_keypair_json
one_byte = refl

quoted : unquote b'\'' (ascii "'key'") ≡ some (ascii "key")
unfolding unquote
quoted = refl

export-IsExport_example :
    OnlyChanges shown_secrets
      (IsExport toy_sources main_env toy_crates (ascii "main" ∷ ascii "--mnemonic" ∷ []) toy_world)
      (export toy_sources main_env toy_crates (ascii "main" ∷ ascii "--mnemonic" ∷ []))
      toy_world
export-IsExport_example =
    export-IsExport toy_sources main_env toy_crates (ascii "main" ∷ ascii "--mnemonic" ∷ [])
      toy_world

init-IsInit_example :
    OnlyWrites
      (IsInit toy_sources main_env toy_crates (ascii "main" ∷ []) toy_world)
      (init toy_sources main_env toy_crates (ascii "main" ∷ []))
      toy_world
init-IsInit_example = init-IsInit toy_sources main_env toy_crates (ascii "main" ∷ []) toy_world
