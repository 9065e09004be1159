-- ===== src/Tests/Network.antt =====
-- A concrete server and terminal, and the crates of the network.
use solx.Common.{
  ℕ, ◌-◌, true, false, [], ◌∷◌, Bytes, ascii, take, Option, none, some, Result, ok, if◌then◌else◌,
}
use solx.Common.Eq.{◌==◌, nat_eq, list_eq}
use solx.Vault.{PublicAccount}
use solx.Rpc.Values.{Values, Chain}
use solx.Rpc.Connection.{Rpc}
use solx.Effects.{Reply, Env, App, World}
use solx.Tests.World.{replicate, config, quiet, no_disk}

-- A value is its text; every member of it is the value itself, but for those of the envelope.
abbrev toy_member : Bytes → Bytes → Option Bytes
toy_member v key =
    if key == ascii "error"
    then none
    else (if key == ascii "err"
        then some (ascii "null")
        else (if key == ascii "jsonrpc"
            then some (ascii "2.0")
            else (if key == ascii "id" then some (ascii "1") else some v)))

abbrev toy_number : Bytes → Option ℕ
toy_number [] = none
toy_number (b ∷ bs) = some (b - 48)

abbrev pub toy_values : Values
toy_values = record {
  from_slice = λ body. ok body;
  get = toy_member;
  pointer = λ v path. some v;
  as_str = λ v. some v;
  as_u64 = toy_number;
  as_array = λ v. some [];
  is_null = λ v. v == ascii "null";
  is_object = λ v. true;
}

abbrev pub toy_chain : Chain
toy_chain = record {
  values = toy_values;
  build_client = λ timeout. ok tt;
  base64 = λ bytes. bytes;
  parse_key = λ text. ok text;
  from_str_const = λ text. take 5 text;
  key_text = λ key. key;
  parse_hash = λ text. ok text;
  signature_text = λ signature. ascii "sig";
  find_program_address = λ seeds program. ascii "ata";
  try_compile = λ payer instructions hash. ok (ascii "message");
  serialize_message = λ message. ok message;
  serialize_transaction = λ signatures message. ok message;
  num_required_signatures = λ message. 1;
  static_account_keys = λ message. [];
}

abbrev pub body : Bytes → Result Reply
body text = ok (record { success = true; body = text })

-- The server takes a transaction, and confirms it.
abbrev pub toy_env : Env
toy_env = record {
  reply = λ moment. body (if moment == 0 then ascii "sig" else ascii "confirmed");
  line = λ moment. ok (some (ascii "no\n"));
  password = λ moment. ok (ascii "password");
  entropy = λ moment. ok (replicate 16 3);
  prepare_memlock = λ moment. ok tt;
  instant = λ moment. moment;
  faults = λ moment. quiet;
}

-- A server that knows one empty token account.
abbrev pub token_env : Env
token_env = record toy_env {
  reply = λ moment. body (if moment == 3 then ascii "0" else ascii "Token");
}

abbrev pub toy_rpc : Rpc
toy_rpc = record {
  url = ascii "http://localhost";
  cluster = ascii "devnet";
  endpoint = ascii "localhost";
  timeout = 30;
  expected = ascii "genesis";
}

abbrev pub toy_app : App
toy_app = record { config = config; session = none; shell = false; last_history = none }

abbrev pub toy_world : World
toy_world = record { moment = 0; app = toy_app; disk = no_disk; log = [] }

abbrev pub toy_identity : PublicAccount
toy_identity = record { name = ascii "main"; pubkey = replicate 32 1 }
