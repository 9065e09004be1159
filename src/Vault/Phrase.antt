-- ===== src/Vault/Phrase.antt =====
-- Recovery phrases and derived keys: `derive_signer`, `phrase` and `parse_phrase` of src/vault.rs.
use solx.Common.{
  ℕ, ◌^◌, not, List, [], ◌∷◌, ◌++◌, Bytes, all, length, Result, ok, ◌>>=◌, ◌>>◌, fail_if, ltb, leb,
  ◌==◌, if◌then◌else◌,
}
use solx.Signer.{Ed25519, Keypair, from_seed_bytes}

-- The calls of the bip39 and ed25519-dalek-bip32 crates; their values are opaque bytes.
pub record Crypto : Type 0 where
  pub ed25519 : Ed25519
  -- `Mnemonic::from_entropy`, `parse_in_normalized`, `to_entropy_array`, `words`
  pub from_entropy : Bytes → Result Bytes
  pub parse_in_normalized : Bytes → Result Bytes
  pub to_entropy : Bytes → Bytes
  pub words : Bytes → List Bytes
  -- `Mnemonic::to_seed_normalized`, with the passphrase
  pub to_seed_normalized : Bytes → Bytes → Bytes
  -- `ExtendedSigningKey::from_seed`, `derive_child` at a hardened index, `signing_key`
  pub from_seed : Bytes → Result Bytes
  pub derive_child : Bytes → ℕ → Result Bytes
  pub signing_key : Bytes → Bytes

module _ (c : Crypto) where
  -- The loop over the path.
  unfoldable pub derive_path : Bytes → List ℕ → Result Bytes
  derive_path key [] = ok key
  derive_path key (i ∷ path) = do child ← c.derive_child key i; derive_path child path

  unfoldable pub derive_signer : Bytes → ℕ → Result Keypair
  derive_signer mnemonic index = do
    fail_if (leb (2 ^ 31) index) "derivation index too large"
    let seed = c.to_seed_normalized mnemonic []
    root ← c.from_seed seed
    key ← derive_path root (44 ∷ 501 ∷ index ∷ 0 ∷ [])
    from_seed_bytes c.ed25519 (c.signing_key key)

  -- The words are joined by single spaces.
  abbrev join_words : Bytes → List Bytes → Bytes
  join_words text [] = text
  join_words text (word ∷ rest) =
      join_words ((if length text == 0 then text else text ++ b' ' ∷ []) ++ word) rest

  unfoldable pub phrase : Bytes → Result Bytes
  phrase entropy = do mnemonic ← c.from_entropy entropy; ok (join_words [] (c.words mnemonic))

  unfoldable pub parse_phrase : Bytes → Result Bytes
  parse_phrase text = do
    fail_if (not (all (λ b. ltb b 128) text)) "recovery phrase must use ASCII English BIP39 words"
    mnemonic ← c.parse_in_normalized text
    ok (c.to_entropy mnemonic)
