-- ===== src/Tests/World.antt =====
-- Concrete stand-ins for the other crates, and a small vault.
use solx.Common.{
  ℕ, zero, suc, ◌+◌, ◌-◌, ◌%◌, ◌≡◌, ◌≢◌, refl, ap, false, List, [], ◌∷◌, ◌++◌, Bytes, ascii, length,
  length-append, take, drop, take-append, none, ok, err, if◌then◌else◌, arith,
}
use solx.Common.Eq.{◌==◌, nat_eq, list_eq, list_beq, list_beq_iff}
use solx.Config.{Config, default_config, valid_name}
use solx.Config.Validate.{Parsers, known_cluster, hash_parses, aliases_valid, url_allowed, validate}
use solx.Rpc.Genesis.{expected_genesis}
use solx.Kdf.{Argon2, vault_params}
use solx.Signer.{Ed25519, pubkey, try_from}
use solx.Vault.{Vault, Master, Account, derived, imported, default_vault}
use solx.Vault.Header.RoundTrip.{IsHeader}
use solx.Vault.Phrase.{Crypto}
use solx.Vault.Valid.{entropy_size, IsCrypto, IsValid}
use solx.Vault.Codec.{Json}
use solx.Vault.Session.{Aead, Crates, Session, Disk, Faults}
use solx.Vault.Session.Stored.{IsAead, IsQuiet}

abbrev pub replicate : ℕ → ℕ → Bytes
replicate zero b = []
replicate (suc n) b = b ∷ replicate n b

abbrev pub toy_verifying_key : Bytes → Bytes
toy_verifying_key [] = replicate 32 0
toy_verifying_key (b ∷ bs) = replicate 32 b

abbrev pub toy_ed25519 : Ed25519
toy_ed25519 = record {
  from_keypair_bytes = λ bytes.
      if toy_verifying_key (take 32 bytes) == drop 32 bytes
      then ok (take 32 bytes)
      else err "mismatch";
  verifying_key = toy_verifying_key;
  sign = λ key message. key ++ message;
}

abbrev pub toy_child : Bytes → ℕ → Bytes
toy_child [] i = i ∷ []
toy_child (b ∷ key) i = ((b + i) % 256) ∷ b ∷ key

abbrev pub toy_crypto : Crypto
toy_crypto = record {
  ed25519 = toy_ed25519;
  from_entropy = λ entropy. if entropy_size (length entropy) then ok entropy else err "bad entropy";
  parse_in_normalized = λ text. ok text;
  to_entropy = λ mnemonic. mnemonic;
  words = λ mnemonic. mnemonic ∷ [];
  to_seed_normalized = λ mnemonic passphrase. mnemonic;
  from_seed = λ seed. ok seed;
  derive_child = λ key i. ok (toy_child key i);
  signing_key = λ key. key;
}

toy_key_size : (key : Bytes) → length (toy_verifying_key key) ≡ 32
toy_key_size [] = refl
toy_key_size (b ∷ bs) = refl

pub toy-IsCrypto : IsCrypto toy_crypto
toy-IsCrypto = record {
  key_size = toy_key_size;
  keypair_parts = λ bytes key e.
      ground (arith, list_beq_iff (toy_verifying_key (take 32 bytes)) (drop 32 bytes));
  entropy_sizes = λ entropy mnemonic e. ground arith;
}

abbrev pub toy_parsers : Parsers
toy_parsers = record { parse_url = λ text. err "relative URL"; parse_hash = λ text. ok text }

abbrev pub config : Config
config = default_config (ascii "vault.enc")

abbrev pub toy_json : Json
toy_json = record { text = λ c. ascii "{}"; from_slice = λ text. ok config }

abbrev pub toy_aead : Aead
toy_aead = record {
  encrypt_in_place = λ key nonce header b. ok (record b { bytes = b.bytes ++ replicate 16 0 });
  decrypt_in_place = λ key nonce header bytes. ok (take (length bytes - 16) bytes);
}

pub toy-IsAead : IsAead toy_aead
toy-IsAead = record {
  seals = λ key nonce header b room. (
    record b { bytes = b.bytes ++ replicate 16 0 },
    refl,
    length-append b.bytes (replicate 16 0),
    ap ok (back b.bytes),
  );
}
  where
    back :
        (bytes : Bytes)
        → take (length (bytes ++ replicate 16 0) - 16) (bytes ++ replicate 16 0) ≡ bytes
    back bytes =
        let size : length (bytes ++ replicate 16 0) - 16 ≡ length bytes =
          omega (arith, length-append bytes (replicate 16 0)) in
        rw size (take-append bytes (replicate 16 0))

abbrev pub toy_argon2 : Argon2
toy_argon2 = record {
  new_params = λ memory passes lanes size. ok tt;
  hash_password = λ params password salt. ok (replicate 32 1);
}

abbrev pub toy_crates : Crates
toy_crates = record {
  crypto = toy_crypto;
  parsers = toy_parsers;
  json = toy_json;
  aead = toy_aead;
  argon2 = toy_argon2;
}

abbrev pub session : Session
session = record {
  header = record { params = vault_params; salt = replicate 16 1; nonce = replicate 12 0 };
  key = replicate 32 2;
}

pub session-IsHeader : IsHeader session.header
session-IsHeader = record { profile = refl; salt_len = refl; nonce_len = refl }

abbrev pub quiet : Faults
quiet = record {
  clock = ok 1_700_000_000;
  nonce = ok (replicate 12 7);
  directory = none;
  lock = none;
  access = none;
  private = none;
  name = none;
  create = none;
  write = none;
  file_sync = none;
  rename = none;
  directory_sync = none;
  written = 0;
  remove = none;
}

pub quiet-IsQuiet : IsQuiet quiet
quiet-IsQuiet = record { directory = refl; access = refl; private = refl }

abbrev pub no_disk : Disk
no_disk = record { file = none; temporary = none }

-- Two phrases, the first of them stored twice; one wallet of each, and an imported key.
abbrev pub entropy_a : Bytes
entropy_a = replicate 16 1

abbrev pub entropy_b : Bytes
entropy_b = replicate 16 2

abbrev pub toy_masters : List Master
toy_masters =
    record { entropy = entropy_a; next_index = 1 }
    ∷ record { entropy = entropy_b; next_index = 3 }
    ∷ record { entropy = entropy_a; next_index = 5 }
    ∷ []

abbrev pub toy_accounts : List Account
toy_accounts =
    record { name = ascii "main"; pubkey = replicate 32 34; kind = derived 0 0 }
    ∷ record { name = ascii "side"; pubkey = replicate 32 37; kind = derived 1 2 }
    ∷ record { name = ascii "key"; pubkey = replicate 32 9; kind = imported (replicate 64 9) }
    ∷ []

abbrev pub vault : Vault
vault = record (default_vault (ascii "vault.enc")) {
  masters = toy_masters;
  accounts = toy_accounts;
  recipients = replicate 32 5 ∷ [];
}

toy_key_reads : try_from toy_ed25519 (replicate 64 9) ≡ ok (record { key = replicate 32 9 })
unfolding try_from list_beq
toy_key_reads = refl

differs : (x y : Bytes) → list_beq x y ≡ false → x ≢ y
differs x y h e = cc (h, (list_beq_iff x y).1 e)

pub vault-IsValid : IsValid toy_crypto vault
unfolding valid_name pubkey list_beq
vault-IsValid = record {
  masters_valid = (
    (refl, omega arith, omega arith),
    ((refl, omega arith, omega arith), ((refl, omega arith, omega arith), tt)),
  );
  masters_len = omega arith;
  accounts_valid = (
    (refl, refl, (record { entropy = entropy_a; next_index = 1 }, refl, omega arith)),
    (
      (refl, refl, (record { entropy = entropy_b; next_index = 3 }, refl, omega arith)),
      ((refl, refl, (record { key = replicate 32 9 }, toy_key_reads, refl, refl)), tt),
    ),
  );
  accounts_len = omega arith;
  names_differ = (
    (differs (ascii "side") (ascii "main") refl, (differs (ascii "key") (ascii "main") refl, tt)),
    ((differs (ascii "key") (ascii "side") refl, tt), (tt, tt)),
  );
  recipients_valid = (refl, tt);
  recipients_len = omega arith;
}

pub config_accepted : validate toy_parsers config ≡ ok tt
unfolding validate expected_genesis list_beq known_cluster hash_parses aliases_valid url_allowed
config_accepted = refl
