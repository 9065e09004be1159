-- ===== src/Commands/Transactions.antt =====
-- Transactions before they are signed in src/commands.rs: compiled, simulated and quoted.
use solx.Common.{
  ℕ, zero, suc, Bool, true, false, not, ◌||◌, List, [], ◌∷◌, Bytes, ascii, length, Option, none,
  some, Result, ok, err, panicked, ◌>>=◌, ◌>>◌, fail_if, ok_or, ltb, leb, String, ◌≡◌, sym, ap,
  ok_inj, err-ne-ok,
}
use solx.Common.Eq.{◌==◌, nat_eq, list_eq, option_eq}
use solx.Signer.{Ed25519, Keypair, pubkey}
use solx.Commands.Limits.{max_compute_units}
use solx.Commands.Instructions.{set_compute_unit_limit}
use solx.Rpc.Values.{Instruction, Chain, and_then}

abbrev pub max_transaction_bytes : ℕ
max_transaction_bytes = 1232

-- `VersionedTransaction`, of a v0 message.
pub record Transaction : Type 0 where
  pub transaction_signatures : List Bytes
  pub message : Bytes

abbrev pub zeroes : ℕ → Bytes
zeroes zero = []
zeroes (suc n) = 0 ∷ zeroes n

-- `Signature::default` and `Hash::default`
abbrev pub default_signature : Bytes
default_signature = zeroes 64

abbrev pub default_hash : Bytes
default_hash = zeroes 32

abbrev pub first_of : List Bytes → Option Bytes
first_of [] = none
first_of (x ∷ xs) = some x

module _ (chain : Chain) where
  abbrev pub serialize : Transaction → Result Bytes
  serialize t = chain.serialize_transaction t.transaction_signatures t.message

  unfoldable pub compile_unsigned : Bytes → List Instruction → Bytes → Result (Transaction × Bytes)
  compile_unsigned payer instructions hash = do
    message ← chain.try_compile payer instructions hash
    let unsigned : Transaction = record {
      transaction_signatures = default_signature ∷ [];
      message = message;
    }
    wire ← serialize unsigned
    fail_if (ltb max_transaction_bytes (length wire)) "transaction exceeds 1232-byte packet limit"
    ok (unsigned, wire)

  abbrev with_budget : Bool → List Instruction → List Instruction
  with_budget false instructions = instructions
  with_budget true instructions = set_compute_unit_limit chain max_compute_units ∷ instructions

  unfoldable pub close_batch_fits : Bytes → List Instruction → Bool → Result Bool
  close_batch_fits owner instructions budget = do
    message ← chain.try_compile owner (with_budget budget instructions) default_hash
    let unsigned : Transaction = record {
      transaction_signatures = default_signature ∷ [];
      message = message;
    }
    wire ← serialize unsigned
    ok (leb (length wire) max_transaction_bytes)

  abbrev unsigned_of : Bytes → Transaction
  unsigned_of message = record {
    transaction_signatures = default_signature ∷ [];
    message = message;
  }

  sized_slot :
      (test : Bool) (problem : String) (message wire : Bytes) {unsigned : Transaction × Bytes}
      → (fail_if test problem >> ok (unsigned_of message, wire)) ≡ ok unsigned
      → unsigned.0.transaction_signatures ≡ default_signature ∷ []
  sized_slot true problem message wire e = absurd (err-ne-ok e)
  sized_slot false problem message wire e =
      ap (λ (p : Transaction × Bytes). p.0.transaction_signatures) (sym (ok_inj e))

  serialized_slot :
      (r : Result Bytes) (test : Bytes → Bool) (problem : String) (message : Bytes)
      {unsigned : Transaction × Bytes}
      → (r >>= λ wire. fail_if (test wire) problem >> ok (unsigned_of message, wire)) ≡ ok unsigned
      → unsigned.0.transaction_signatures ≡ default_signature ∷ []
  serialized_slot (ok wire) test problem message e = sized_slot (test wire) problem message wire e
  serialized_slot (err p) test problem message e = absurd (err-ne-ok e)
  serialized_slot panicked test problem message e = cc

  compiled_slot :
      (m : Result Bytes) (hash : Bytes) {unsigned : Transaction × Bytes}
      → (m >>= λ message. serialize (unsigned_of message) >>= λ wire.
          fail_if
            (ltb max_transaction_bytes (length wire))
            "transaction exceeds 1232-byte packet limit"
          >> ok (unsigned_of message, wire))
        ≡ ok unsigned
      → unsigned.0.transaction_signatures ≡ default_signature ∷ []
  compiled_slot (ok message) hash e =
      serialized_slot (serialize (unsigned_of message)) _ _ message e
  compiled_slot (err p) hash e = absurd (err-ne-ok e)
  compiled_slot panicked hash e = cc

  -- The one slot for a signature is empty.
  pub compile_unsigned-signatures :
      (payer : Bytes) (instructions : List Instruction) (hash : Bytes)
      {unsigned : Transaction × Bytes}
      → compile_unsigned payer instructions hash ≡ ok unsigned
      → unsigned.0.transaction_signatures ≡ default_signature ∷ []
  unfolding compile_unsigned
  compile_unsigned-signatures payer instructions hash e =
      compiled_slot (chain.try_compile payer instructions hash) hash e

  -- `check_simulation`, less what it prints; the error of the simulation is in the message only.
  unfoldable pub check_simulation : Bytes → Result (Unit {0})
  check_simulation simulation = do
    failure ←
        ok_or (chain.values.get simulation (ascii "err")) "simulation result is missing err field"
    fail_if (not (chain.values.is_null failure)) "simulation failed; transaction not sent"

  unfoldable pub ensure_all_would_drain : Bytes → Result (Unit {0})
  ensure_all_would_drain simulation = do
    remaining ←
        ok_or
          (and_then (chain.values.pointer simulation (ascii "/postBalances/0")) chain.values.as_u64)
          "simulation omitted the fee payer's remaining balance"
    fail_if (not (remaining == 0))
        "source balance changed; ALL would leave SOL behind, retry the transfer"

  unfoldable pub validate_signer : Ed25519 → Bytes → Keypair → Result (Unit {0})
  unfolding pubkey
  validate_signer ed message key =
      fail_if
        (not (chain.num_required_signatures message == 1)
          || not (first_of (chain.static_account_keys message) == some (pubkey ed key)))
        "transaction must require only the selected fee payer's signature"
