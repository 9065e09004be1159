-- ===== src/Lib.antt =====
-- solx, a command-line wallet for Solana: its encrypted vault, its settings, its shell, and the
-- transactions that it sends.
--
-- The program keeps one file, the vault. It holds recovery phrases ("masters"), the wallets made
-- from them or imported ("accounts"), known recipients, and the settings with a count of their edits.
-- A session (src/vault.rs) opens the file with a password, decrypts and decodes it, and a command
-- changes the vault in memory and saves it. The settings (src/config.rs) are checked on every load and
-- save. The shell (src/main.rs) reads lines, expands aliases and dispatches to the commands
-- (src/commands.rs); those that move funds prepare a transaction, ask for approval, sign it with a key
-- of the vault, and submit it through the client of one server (src/rpc.rs).
--
--   Common.antt, Common/            byte strings, lists over the native numbers, results, UTF-8
--   Kdf.antt                        src/kdf.rs: the password profile
--   Signer.antt                     src/signer.rs: keypairs
--   Secret.antt, Secret/            src/secret.rs: LockedBytes, the buffers of fixed capacity
--   Config.antt, Config/            src/config.rs: the settings, `validate`, `expand_alias`
--   Rpc.antt, Rpc/Genesis.antt      src/rpc.rs: `expected_genesis`
--   Rpc/Values.antt                 the crates of the network and of transactions, as parameters
--   Rpc/Connection.antt             src/rpc.rs: `Rpc::new`
--   Rpc/Responses.antt              src/rpc.rs: how each answer is read
--   Rpc/Client.antt, Client/        src/rpc.rs: the requests of `Rpc`; what they send, and the outcomes
--   Effects.antt, Effects/          the outside: answers, the log, actions in sequence, what they send
--   App.antt, App/                  src/main.rs: `App` and its methods, `App::shell`
--   App/Main.antt                   src/main.rs: `run`, the arguments of the process
--   App/Input.antt, Input/          src/main.rs: `read_bounded_line`
--   Commands.antt, Commands/        src/commands.rs: the command names, limits, options, amounts
--   Commands/Instructions.antt      src/commands.rs: the program addresses and the instructions
--   Commands/Transactions.antt      src/commands.rs: `compile_unsigned`, the checks of a transaction
--   Commands/Send.antt, Send/       src/commands.rs: `send_transaction`, `refresh_and_sign`
--   Commands/Transfer.antt, Transfer/
--                                   src/commands.rs: `transfer`, `token_transfer`
--   Commands/CloseSelection.antt    src/commands.rs: the words of `close-ata`
--   Commands/CloseAta.antt, CloseAta/
--                                   src/commands.rs: `close_ata`, its candidates and its batches
--   Commands/Local.antt, Local/     src/commands.rs: `new`, `delete`, `list`, `history`, `lock`
--   Commands/Secrets.antt, Secrets/ src/commands.rs: `init`, `import`, `export`
--   Commands/Table.antt, Table/     src/commands.rs: `PLUGINS`, and which commands send
--   LineEditor.antt, LineEditor/    src/line_editor.rs: the command history, escape sequences, line
--   Settings.antt, Settings/        src/settings.rs: `Field` and its `set`
--   Settings/Editor.antt, Editor/   src/settings.rs: `edit` and the loops below it, as prompts
--   Settings/Command.antt, Command/ src/settings.rs: `run`, `run_with_io`, `commit`
--   Vault.antt                      src/vault.rs: the vault and its lookups
--   Vault/Public.antt               src/vault.rs: `PublicVault`
--   Vault/Header.antt, Header/      src/vault.rs: `EnvelopeHeader`
--   Vault/Audit.antt, Audit/        src/vault.rs: `ConfigAudit`
--   Vault/Phrase.antt               src/vault.rs: `phrase`, `parse_phrase`, `derive_signer`
--   Vault/Edit.antt, Edit/          src/vault.rs: the methods of `Vault` that change it, and `signer`
--   Vault/Valid.antt, Valid/        the invariant of a vault, and that additions keep it
--   Vault/Registry.antt, Registry/  the abstract view of a vault, and the methods against it
--   Vault/Codec.antt, Codec/        src/vault.rs: `encode_with_audit`, `decode`, `Reader`
--   Vault/Session.antt, Session/    src/vault.rs: `Session`, with a disk and the faults of its calls
--   Tests.antt, Tests/              runs on concrete data
--
-- The abstract view (Vault/Registry.antt) is an ordered list of named entries, each with its address
-- and with the secret it is made from: a phrase and an index, or a key. It forgets that masters are
-- numbered, that a phrase may be stored more than once, and the counters.
--
-- Numbers are the native ones. The reads and writes of a fixed width, the casts to u8 and u32, and the
-- checked additions of the source are written out. Texts are their UTF-8 bytes. An error is its
-- message; a panic of the source (an index or a slice out of range) is a value of its own, `panicked`,
-- so that its absence can be stated. A method that mutates `self` returns the new vault; in each of
-- them every error precedes the first write. Loops are recursions on their lists or counts, and need
-- no fuel.
--
-- A method or a command is an action on a `World` (Effects.antt): the moment, the `App`, the disk, and a
-- log of the requests and questions that the program makes. The answers of the server, the terminal,
-- the clock and the file system are functions of the moment (`Env`), and every answer takes a moment,
-- so that two equal calls may be answered differently; nothing is assumed of them but where a theorem
-- says so. `?` is the sequence of actions, `attempt` hands a result on as a value. The summary of a
-- transaction, the questions and the secrets that are shown are events; what is printed besides is left
-- out, and with it the failures of printing. The lines that are typed into the settings editor are a
-- list of results; after its last one the terminal is closed. Error texts leave out the values that they quote. The polling of a submission
-- is bounded by its 20 rounds, as in the source.
--
-- Calls of other crates are parameters: ed25519-dalek, bip39 and the copied ed25519-dalek-bip32
-- (`Crypto`), argon2 (`Argon2`), aes-gcm-siv (`Aead`), serde_json for the settings (`Json`), the
-- parsers of addresses and hashes (`Parsers`), bs58 and what `import` reads (`Sources`), and for the
-- network serde_json, base64 and the Solana crates (`Values`, `Chain`); an address, a hash, a
-- signature and a message are their bytes. What a theorem needs of them stands in `IsCrypto`,
-- `IsAead`, `IsTotal` and `IsParsers`, or is a premise on one value; Tests/World.antt has an instance.
--
-- A save is modelled as one sequence of calls, each of which may fail (`Faults`); the disk is the
-- content of the vault file and of the temporary file. Lock contention is a fault of the lock. The
-- copies of secrets in locked memory, their wiping, and running out of lockable memory are not
-- modelled, nor are the keys of the terminal, the HTTP client and the texts that are printed.
pub mod Common
pub mod Kdf
pub mod Effects
pub mod LineEditor
pub mod Config
pub mod Rpc
pub mod Commands
pub mod Settings
pub mod App
pub mod Signer
pub mod Secret
pub mod Vault
pub mod Tests
