-- ===== src/Vault/Valid/Import.antt =====
-- `add_imported` and `remember_recipient` of src/vault.rs keep a valid vault valid.
use solx.Common.{
  ◌<◌, ◌≡◌, ◌≢◌, refl, sym, not, ◌&&◌, [], ◌∷◌, ◌++◌, Bytes, All, All-append, length, length-append,
  ok, fail_if, >>=-eq-ok, fail_if-eq-ok, ok_inj, ltb, ◌==◌, arith, Bool-cases, true, inl, inr,
}
use solx.Config.{valid_name}
use solx.Signer.{Ed25519, Keypair, pubkey, try_from}
use solx.Vault.{Vault, imported, max_accounts, max_recipients, is_known_recipient}
use solx.Vault.Phrase.{Crypto}
use solx.Vault.Edit.{ensure_new_name, add_imported, remember_recipient}
use solx.Vault.Valid.{IsCrypto, IsValid}
use solx.Vault.Valid.Add.{ensure_new_name-ok, push_account, length-pubkey}

try_from-length :
    (ed : Ed25519) (bytes : Bytes) {pair : Keypair}
    → try_from ed bytes ≡ ok pair
    → length bytes ≡ 64
unfolding try_from
try_from-length ed bytes e =
    let (_, e1, _) = >>=-eq-ok (fail_if (not (length bytes == 64)) _) _ e in
    ground (arith, fail_if-eq-ok _ _ e1)

pub add_imported-ok :
    (c : Crypto) (v : Vault) (name bytes : Bytes) (v' : Vault)
    → add_imported c v name bytes ≡ ok v'
    → (pair : Keypair) × ((valid_name name ≡ true)
        × All (λ b. b.name ≢ name) v.accounts
        × (length v.accounts < max_accounts))
      × (try_from c.ed25519 bytes ≡ ok pair)
      × (v' ≡ record v {
        accounts =
            v.accounts
            ++ record { name = name; pubkey = pubkey c.ed25519 pair; kind = imported bytes } ∷ [];
      })
unfolding add_imported
add_imported-ok c v name bytes v' e =
    let (_, e1, k1) = >>=-eq-ok (ensure_new_name v name) _ e in
    let (pair, e2, k2) = >>=-eq-ok (try_from c.ed25519 bytes) _ k1 in
    (pair, ensure_new_name-ok v name e1, e2, sym (ok_inj k2))

-- Importing a key into a valid vault, where it succeeds, leaves a valid vault: the stored keypair has
-- the address of its account.
pub add_imported-IsValid :
    (c : Crypto) (v v' : Vault) (name bytes : Bytes)
    → IsCrypto c
    → IsValid c v
    → add_imported c v name bytes ≡ ok v'
    → IsValid c v'
add_imported-IsValid c v v' name bytes laws valid e =
    let (pair, (good, fresh, room), read, shape) = add_imported-ok c v name bytes v' e in
    rw shape (
      push_account c v v.masters _ valid valid.masters_valid valid.masters_len valid.accounts_valid
        (good, length-pubkey c laws pair, (pair, read, refl, try_from-length c.ed25519 bytes read))
        fresh room)

push_recipient :
    (c : Crypto) (v : Vault) (key : Bytes)
    → IsValid c v
    → length key ≡ 32
    → length v.recipients < max_recipients
    → IsValid c (record v { recipients = v.recipients ++ key ∷ [] })
push_recipient c v key valid size room = record {
  masters_valid = valid.masters_valid;
  masters_len = valid.masters_len;
  accounts_valid = valid.accounts_valid;
  accounts_len = valid.accounts_len;
  names_differ = valid.names_differ;
  recipients_valid = All-append _ v.recipients (key ∷ []) valid.recipients_valid (size, tt);
  recipients_len = omega (arith, length-append v.recipients (key ∷ []));
}

-- Remembering an address of 32 bytes in a valid vault leaves a valid vault: a recipient is added only
-- while there is room.
pub remember_recipient-IsValid :
    (c : Crypto) (v : Vault) (key : Bytes)
    → IsValid c v
    → length key ≡ 32
    → IsValid c (remember_recipient v key)
unfolding remember_recipient
remember_recipient-IsValid c v key valid size =
    elim (Bool-cases (not (is_known_recipient v key) && ltb (length v.recipients) max_recipients)) [
      | inl room ↦ rw room (push_recipient c v key valid size (ground arith))
      | inr full ↦ rw full valid
    ]
