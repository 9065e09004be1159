-- ===== src/Commands/Instructions.antt =====
-- The program addresses and the instructions of src/commands.rs.
use solx.Common.{ℕ, Bool, true, false, ◌&&◌, ◌||◌, [], ◌∷◌, ◌++◌, Bytes, ascii, to_le_bytes}
use solx.Common.Eq.{◌==◌, nat_eq, list_eq}
use solx.Rpc.Values.{AccountMeta, Instruction, Chain}

-- `AccountMeta::new` and `AccountMeta::new_readonly`
abbrev pub writable : Bytes → Bool → AccountMeta
writable key signs = record { pubkey = key; is_signer = signs; is_writable = true }

abbrev pub readonly : Bytes → Bool → AccountMeta
readonly key signs = record { pubkey = key; is_signer = signs; is_writable = false }

module _ (chain : Chain) where
  abbrev pub system_program : Bytes
  system_program = chain.from_str_const (ascii "11111111111111111111111111111111")

  abbrev pub token_program : Bytes
  token_program = chain.from_str_const (ascii "TokenkegQfeZyiNwAJbNbGKPFXCWuBvf9Ss623VQ5DA")

  abbrev pub token_2022 : Bytes
  token_2022 = chain.from_str_const (ascii "TokenzQdBNbLqP5VEhdkAS6EPFLC1PHnBqCXEpPxuEb")

  abbrev pub associated_token : Bytes
  associated_token = chain.from_str_const (ascii "ATokenGPvbdGVxr1b2hvZbsiqW5xWH25efTNsLJA8knL")

  abbrev pub compute_budget : Bytes
  compute_budget = chain.from_str_const (ascii "ComputeBudget111111111111111111111111111111")

  abbrev pub native_mint : Bytes
  native_mint = chain.from_str_const (ascii "So11111111111111111111111111111111111111112")

  abbrev pub native_mint_2022 : Bytes
  native_mint_2022 = chain.from_str_const (ascii "9pan9bMn5HatX4EJdBwg9VgCa7Uz5HL8N1m5D3NdXejP")

  unfoldable pub is_native_mint : Bytes → Bytes → Bool
  is_native_mint mint program =
      (mint == native_mint && program == token_program)
      || (mint == native_mint_2022 && program == token_2022)

  unfoldable pub system_transfer : Bytes → Bytes → ℕ → Instruction
  system_transfer source target lamports = record {
    program_id = system_program;
    accounts = writable source true ∷ writable target false ∷ [];
    instruction_data = to_le_bytes 4 2 ++ to_le_bytes 8 lamports;
  }

  unfoldable pub ata : Bytes → Bytes → Bytes → Bytes
  ata owner mint program = chain.find_program_address (owner ∷ program ∷ mint ∷ []) associated_token

  unfoldable pub create_ata_idempotent : Bytes → Bytes → Bytes → Bytes → Instruction
  unfolding ata
  create_ata_idempotent payer owner mint program = record {
    program_id = associated_token;
    accounts =
        writable payer true
        ∷ writable (ata owner mint program) false
        ∷ readonly owner false
        ∷ readonly mint false
        ∷ readonly system_program false
        ∷ readonly program false
        ∷ [];
    instruction_data = 1 ∷ [];
  }

  unfoldable pub set_compute_unit_limit : ℕ → Instruction
  set_compute_unit_limit limit = record {
    program_id = compute_budget;
    accounts = [];
    instruction_data = 2 ∷ to_le_bytes 4 limit;
  }

unfoldable pub transfer_checked : Bytes → Bytes → Bytes → Bytes → ℕ → ℕ → Bytes → Instruction
transfer_checked source mint destination authority amount decimals program = record {
  program_id = program;
  accounts =
      writable source false
      ∷ readonly mint false
      ∷ writable destination false
      ∷ readonly authority true
      ∷ [];
  instruction_data = (12 ∷ []) ++ to_le_bytes 8 amount ++ decimals ∷ [];
}

unfoldable pub burn_checked : Bytes → Bytes → Bytes → ℕ → ℕ → Bytes → Instruction
burn_checked account mint authority amount decimals program = record {
  program_id = program;
  accounts = writable account false ∷ writable mint false ∷ readonly authority true ∷ [];
  instruction_data = (15 ∷ []) ++ to_le_bytes 8 amount ++ decimals ∷ [];
}

unfoldable pub close_token_account : Bytes → Bytes → Bytes → Instruction
close_token_account account authority program = record {
  program_id = program;
  accounts = writable account false ∷ writable authority false ∷ readonly authority true ∷ [];
  instruction_data = 9 ∷ [];
}
