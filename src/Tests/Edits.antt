-- ===== src/Tests/Edits.antt =====
-- The operations of src/vault.rs on the small vault.
use solx.Common.{◌≡◌, refl, true, [], ◌∷◌, ◌++◌, ascii, some, ok}
use solx.Common.Eq.{list_beq}
use solx.Config.{valid_name}
use solx.Signer.{pubkey, try_from, from_seed_bytes}
use solx.Vault.{Vault, derived, imported, contains, has_name, account, find_name}
use solx.Vault.Phrase.{derive_signer, derive_path}
use solx.Vault.Edit.{ensure_new_name, add_master, add_derived, add_imported, max_next}
use solx.Vault.Edit.Remove.{
  recovery_phrase_use, use_of_kind, shared_by_any, position, erase_masters, remove_account,
}
use solx.Vault.Valid.{IsValid}
use solx.Vault.Valid.Add.{add_master-IsValid}
use solx.Vault.Valid.Derive.{add_derived-IsValid}
use solx.Vault.Registry.{registry, remove_entry}
use solx.Vault.Registry.Fresh.{DerivesFresh, add_derived_fresh}
use solx.Vault.Registry.Remove.Effect.{registry-remove_account}
use solx.Vault.Registry.Remove.Keeps.{remove_account-IsValid}
use solx.Vault.Registry.Remove.Outcome.{Answers, remove_account_outcome}
use solx.Vault.Registry.Remove.Sharing.{SaysUse, recovery_phrase_use_exact}
use solx.Tests.World.{
  replicate, toy_crypto, toy-IsCrypto, vault, vault-IsValid, entropy_a, entropy_b,
}

-- The vault after each operation.
abbrev with_master : Vault
with_master = record vault {
  masters = vault.masters ++ record { entropy = replicate 32 3; next_index = 1 } ∷ [];
  accounts =
      vault.accounts
      ++ record { name = ascii "new"; pubkey = replicate 32 36; kind = derived 3 0 } ∷ [];
}

adds_master : add_master toy_crypto vault (ascii "new") (replicate 32 3) ≡ ok with_master
unfolding add_master ensure_new_name valid_name contains has_name list_beq derive_signer derive_path
    from_seed_bytes pubkey
adds_master = refl

-- Both copies of the phrase advance to 6.
abbrev with_derived : Vault
with_derived = record vault {
  masters =
      record { entropy = entropy_a; next_index = 6 }
      ∷ record { entropy = entropy_b; next_index = 3 }
      ∷ record { entropy = entropy_a; next_index = 6 }
      ∷ [];
  accounts =
      vault.accounts
      ++ record { name = ascii "next"; pubkey = replicate 32 39; kind = derived 0 5 } ∷ [];
}

derives : add_derived toy_crypto vault (ascii "next") (ascii "main") ≡ ok with_derived
unfolding add_derived ensure_new_name valid_name contains has_name list_beq account find_name
    max_next derive_signer derive_path from_seed_bytes pubkey
derives = refl

abbrev with_imported : Vault
with_imported = record vault {
  accounts =
      vault.accounts
      ++ record { name = ascii "other"; pubkey = replicate 32 8; kind = imported (replicate 64 8) }
        ∷ [];
}

imports : add_imported toy_crypto vault (ascii "other") (replicate 64 8) ≡ ok with_imported
unfolding add_imported ensure_new_name valid_name contains has_name list_beq try_from pubkey
imports = refl

-- Erasing the phrase of `main` takes both of its copies.
abbrev without_main : Vault
without_main = record vault {
  masters = record { entropy = entropy_b; next_index = 3 } ∷ [];
  accounts =
      record { name = ascii "side"; pubkey = replicate 32 37; kind = derived 0 2 }
      ∷ record { name = ascii "key"; pubkey = replicate 32 9; kind = imported (replicate 64 9) }
      ∷ [];
}

removes_main : remove_account vault (ascii "main") true ≡ ok without_main
unfolding remove_account recovery_phrase_use account find_name list_beq use_of_kind shared_by_any
    position erase_masters
removes_main = refl

main_stored :
    find_name (ascii "main") vault.accounts
    ≡ some (record { name = ascii "main"; pubkey = replicate 32 34; kind = derived 0 0 })
unfolding find_name list_beq
main_stored = refl

add_master-IsValid_example : IsValid toy_crypto with_master
add_master-IsValid_example =
    add_master-IsValid toy_crypto vault with_master (ascii "new") (replicate 32 3) toy-IsCrypto
      vault-IsValid adds_master

add_derived-IsValid_example : IsValid toy_crypto with_derived
add_derived-IsValid_example =
    add_derived-IsValid toy_crypto vault with_derived (ascii "next") (ascii "main") toy-IsCrypto
      vault-IsValid derives

add_derived_fresh_example : DerivesFresh toy_crypto vault with_derived (ascii "next") (ascii "main")
add_derived_fresh_example =
    add_derived_fresh toy_crypto vault with_derived (ascii "next") (ascii "main") vault-IsValid
      derives

registry-remove_account_example :
    registry without_main ≡ remove_entry (ascii "main") (registry vault)
registry-remove_account_example =
    registry-remove_account toy_crypto vault without_main (ascii "main") true vault-IsValid
      removes_main

remove_account-IsValid_example : IsValid toy_crypto without_main
remove_account-IsValid_example =
    remove_account-IsValid toy_crypto vault without_main (ascii "main") true vault-IsValid
      removes_main

remove_account_outcome_example : Answers vault (ascii "key") true
remove_account_outcome_example =
    remove_account_outcome toy_crypto vault (ascii "key") true vault-IsValid

recovery_phrase_use_exact_example :
    SaysUse vault
      (ascii "main")
      (record { name = ascii "main"; pubkey = replicate 32 34; kind = derived 0 0 })
recovery_phrase_use_exact_example =
    recovery_phrase_use_exact toy_crypto vault (ascii "main")
      (record { name = ascii "main"; pubkey = replicate 32 34; kind = derived 0 0 }) vault-IsValid
      main_stored
