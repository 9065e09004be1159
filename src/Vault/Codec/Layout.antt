-- ===== src/Vault/Codec/Layout.antt =====
-- The format of the plaintext of src/vault.rs, and the writes of its encoder.
use solx.Common.{
  ℕ, ◌+◌, ◌*◌, ◌%◌, ◌^◌, ◌≤◌, ◌<◌, ◌≡◌, refl, sym, true, List, [], ◌∷◌, ◌++◌, append_assoc, Bytes,
  All, length, length-append, to_le_bytes, length-to_le_bytes, ok, ge→ltb, arith,
}
use mathlib.Core.Path.{subst}
use solx.Config.Names.{valid_name-length}
use solx.Config.Validate.{Parsers, validate}
use solx.Secret.{with_capacity, extend_from_slice}
use solx.Secret.Writes.{Appends, extend-Appends, push-Appends, return-Appends, then-Appends}
use solx.Vault.{
  Vault, Master, Account, AccountKind, derived, imported, ConfigAudit, max_accounts, max_masters,
  max_recipients,
}
use solx.Vault.Audit.{validate_audit}
use solx.Vault.Phrase.{Crypto}
use solx.Vault.Valid.{entropy_size, IsMaster, IsKind, IsAccount, IsValid}
use solx.Vault.Codec.{Json}
use solx.Vault.Codec.Encode.{
  size, master_size, kind_size, account_size, put_masters, put_kind, put_accounts, put_recipients,
  put_vault, encode_with_audit,
}

abbrev pub master_bytes : Master → Bytes
master_bytes m = length m.entropy % 256 ∷ (m.entropy ++ to_le_bytes 4 m.next_index)

abbrev pub kind_bytes : AccountKind → Bytes
kind_bytes (derived master index) = 0 ∷ master ∷ to_le_bytes 4 index
kind_bytes (imported keypair) = 1 ∷ keypair

abbrev pub account_bytes : Account → Bytes
account_bytes a = length a.name % 256 ∷ (a.name ++ (a.pubkey ++ kind_bytes a.kind))

abbrev pub concat_map {ℓ} : {A : Type ℓ} → (A → Bytes) → List A → Bytes
concat_map f [] = []
concat_map f (x ∷ xs) = f x ++ concat_map f xs

abbrev pub config_bytes : Bytes → Bytes
config_bytes config = to_le_bytes 4 (length config) ++ config

abbrev pub audit_bytes : ConfigAudit → Bytes
audit_bytes audit = to_le_bytes 8 audit.edits ++ to_le_bytes 8 audit.last_edit_unix

-- Counted masters, counted accounts, counted recipients, the sized settings and the audit.
abbrev pub layout : Vault → ConfigAudit → Bytes → Bytes
layout v audit config =
    length v.masters % 256
    ∷ (concat_map master_bytes v.masters
        ++ (to_le_bytes 2 (length v.accounts)
            ++ (concat_map account_bytes v.accounts
                ++ (to_le_bytes 2 (length v.recipients)
                    ++ (concat_map (λ key. key) v.recipients
                        ++ (config_bytes config ++ audit_bytes audit))))))

put_masters-Appends :
    (masters : List Master) → Appends (put_masters masters) (concat_map master_bytes masters)
unfolding put_masters
put_masters-Appends [] = return-Appends
put_masters-Appends (m ∷ rest) =
    rw (append_assoc m.entropy (to_le_bytes 4 m.next_index) (concat_map master_bytes rest)) (
      then-Appends _ _ _ _ (push-Appends (length m.entropy % 256)) (
        then-Appends _ _ _ _ (extend-Appends m.entropy) (
          then-Appends _ _ _ _ (extend-Appends (to_le_bytes 4 m.next_index))
            (put_masters-Appends rest))))

put_kind-Appends : (kind : AccountKind) → Appends (put_kind kind) (kind_bytes kind)
unfolding put_kind
put_kind-Appends (derived master index) =
    then-Appends _ _ _ _ (push-Appends 0)
      (then-Appends _ _ _ _ (push-Appends master) (extend-Appends (to_le_bytes 4 index)))
put_kind-Appends (imported keypair) = then-Appends _ _ _ _ (push-Appends 1) (extend-Appends keypair)

account_rest :
    (a : Account) (xs : Bytes)
    → account_bytes a ++ xs
      ≡ length a.name % 256 ∷ (a.name ++ (a.pubkey ++ (kind_bytes a.kind ++ xs)))
account_rest a xs = rw (
  append_assoc a.name (a.pubkey ++ kind_bytes a.kind) xs,
  append_assoc a.pubkey (kind_bytes a.kind) xs,
)

put_accounts-Appends :
    (accounts : List Account) → Appends (put_accounts accounts) (concat_map account_bytes accounts)
unfolding put_accounts
put_accounts-Appends [] = return-Appends
put_accounts-Appends (a ∷ rest) =
    subst (λ (xs : Bytes). Appends (put_accounts (a ∷ rest)) xs)
      (sym (account_rest a (concat_map account_bytes rest)))
      (then-Appends _ _ _ _ (push-Appends (length a.name % 256)) (
        then-Appends _ _ _ _ (extend-Appends a.name) (
          then-Appends _ _ _ _ (extend-Appends a.pubkey)
            (then-Appends _ _ _ _ (put_kind-Appends a.kind) (put_accounts-Appends rest)))))

put_recipients-Appends :
    (keys : List Bytes) → Appends (put_recipients keys) (concat_map (λ key. key) keys)
unfolding put_recipients
put_recipients-Appends [] = return-Appends
put_recipients-Appends (key ∷ rest) =
    then-Appends _ _ _ _ (extend-Appends key) (put_recipients-Appends rest)

put_vault-Appends :
    (v : Vault) (audit : ConfigAudit) (config : Bytes)
    → Appends (put_vault v audit config) (layout v audit config)
unfolding put_vault
put_vault-Appends v audit config =
    rw (append_assoc (to_le_bytes 4 (length config)) config (audit_bytes audit)) (
      then-Appends _ _ _ _ (push-Appends (length v.masters % 256)) (
        then-Appends _ _ _ _ (put_masters-Appends v.masters) (
          then-Appends _ _ _ _ (extend-Appends (to_le_bytes 2 (length v.accounts))) (
            then-Appends _ _ _ _ (put_accounts-Appends v.accounts) (
              then-Appends _ _ _ _ (extend-Appends (to_le_bytes 2 (length v.recipients))) (
                then-Appends _ _ _ _ (put_recipients-Appends v.recipients) (
                  then-Appends _ _ _ _ (extend-Appends (to_le_bytes 4 (length config))) (
                    then-Appends _ _ _ _ (extend-Appends config) (
                      then-Appends _ _ _ _ (extend-Appends (to_le_bytes 8 audit.edits))
                        (extend-Appends (to_le_bytes 8 audit.last_edit_unix)))))))))))

length-masters :
    (masters : List Master) → length (concat_map master_bytes masters) ≡ master_size masters
length-masters [] = refl
length-masters (m ∷ rest) = omega (
  arith,
  length-append (master_bytes m) (concat_map master_bytes rest),
  length-append m.entropy (to_le_bytes 4 m.next_index),
  length-to_le_bytes 4 m.next_index,
  length-masters rest,
)

length-kind :
    (c : Crypto) (masters : List Master) (address : Bytes) (kind : AccountKind)
    → IsKind c masters address kind
    → length (kind_bytes kind) ≡ kind_size kind + 1
length-kind c masters address (derived master index) h = omega (arith, length-to_le_bytes 4 index)
length-kind c masters address (imported keypair) h = omega (arith, h)

length-accounts :
    (c : Crypto) (masters : List Master) (accounts : List Account)
    → All (IsAccount c masters) accounts
    → length (concat_map account_bytes accounts) ≡ account_size accounts
length-accounts c masters [] h = refl
length-accounts c masters (a ∷ rest) h =
    let kind = length-kind c masters a.pubkey a.kind h.0.2 in
    omega (
      arith,
      length-append (account_bytes a) (concat_map account_bytes rest),
      length-append a.name (a.pubkey ++ kind_bytes a.kind),
      length-append a.pubkey (kind_bytes a.kind),
      h.0.1,
      length-accounts c masters rest h.1,
    )

length-recipients :
    (keys : List Bytes)
    → All (λ key. length key ≡ 32) keys
    → length (concat_map (λ key. key) keys) ≡ length keys * 32
length-recipients [] h = refl
length-recipients (key ∷ rest) h =
    omega (arith, length-append key (concat_map (λ key. key) rest), h.0, length-recipients rest h.1)

-- `size` is exact.
pub length-layout :
    (c : Crypto) (v : Vault) (audit : ConfigAudit) (config : Bytes)
    → IsValid c v
    → length (layout v audit config) ≡ size v config
length-layout c v audit config valid =
    let tail = config_bytes config ++ audit_bytes audit in
    let keys = concat_map (λ key. key) v.recipients in
    let accounts = concat_map account_bytes v.accounts in
    omega (
      arith,
      length-append (concat_map master_bytes v.masters) (
          to_le_bytes 2 (length v.accounts)
          ++ (accounts ++ (to_le_bytes 2 (length v.recipients) ++ (keys ++ tail)))),
      length-append (to_le_bytes 2 (length v.accounts))
          (accounts ++ (to_le_bytes 2 (length v.recipients) ++ (keys ++ tail))),
      length-append accounts (to_le_bytes 2 (length v.recipients) ++ (keys ++ tail)),
      length-append (to_le_bytes 2 (length v.recipients)) (keys ++ tail),
      length-append keys tail,
      length-append (config_bytes config) (audit_bytes audit),
      length-append (to_le_bytes 4 (length config)) config,
      length-append (to_le_bytes 8 audit.edits) (to_le_bytes 8 audit.last_edit_unix),
      length-to_le_bytes 2 (length v.accounts),
      length-to_le_bytes 2 (length v.recipients),
      length-to_le_bytes 4 (length config),
      length-to_le_bytes 8 audit.edits,
      length-to_le_bytes 8 audit.last_edit_unix,
      length-masters v.masters,
      length-accounts c v.masters v.accounts valid.accounts_valid,
      length-recipients v.recipients valid.recipients_valid,
    )

-- The settings text fits the buffer of 64 KiB.
settings_fit :
    (text : Bytes)
    → length text ≤ 65536
    → extend_from_slice (with_capacity (64 * 1024)) text
      ≡ ok (record { bytes = text; capacity = 64 * 1024 })
settings_fit text fits = extend-Appends text (with_capacity (64 * 1024)) (omega arith) (omega arith)

size_small :
    (c : Crypto) (v : Vault) (config : Bytes)
    → IsValid c v
    → length config ≤ 65536
    → size v config < 2 ^ 17
size_small c v config valid fits =
    let masters = master_size_le v.masters valid.masters_valid in
    let accounts = account_size_le v.masters v.accounts valid.accounts_valid in
    omega (arith, masters, accounts, valid.masters_len, valid.accounts_len, valid.recipients_len)
  where
    entropy_le : (n : ℕ) → entropy_size n ≡ true → n ≤ 32
    entropy_le n h = ground arith

    master_size_le :
        (masters : List Master) → All IsMaster masters → master_size masters ≤ length masters * 37
    master_size_le [] h = omega arith
    master_size_le (m ∷ rest) h =
        omega (arith, entropy_le (length m.entropy) h.0.0, master_size_le rest h.1)

    kind_size_le : (kind : AccountKind) → kind_size kind ≤ 64
    kind_size_le (derived master index) = omega arith
    kind_size_le (imported keypair) = omega arith

    account_size_le :
        (masters : List Master) (accounts : List Account)
        → All (IsAccount c masters) accounts
        → account_size accounts ≤ length accounts * 130
    account_size_le masters [] h = omega arith
    account_size_le masters (a ∷ rest) h = omega (
      arith,
      kind_size_le a.kind,
      valid_name-length a.name h.0.0,
      account_size_le masters rest h.1,
    )

-- Encoding a valid vault succeeds, and writes exactly the format: the precomputed size is the length
-- of the text, so that the 16 bytes of the authentication tag fit the buffer without growing it,
-- and the whole is less than 128 KiB.
pub encode_exact :
    (c : Crypto) (parsers : Parsers) (json : Json) (v : Vault) (audit : ConfigAudit)
    → IsValid c v
    → validate_audit audit ≡ ok tt
    → validate parsers v.config ≡ ok tt
    → length (json.text v.config) ≤ 65536
    → (encode_with_audit parsers json v audit
        ≡ ok (record {
          bytes = layout v audit (json.text v.config);
          capacity = length (layout v audit (json.text v.config)) + 16;
        }))
      × (length (layout v audit (json.text v.config)) < 2 ^ 17)
unfolding encode_with_audit
encode_exact c parsers json v audit valid checked settings fits =
    let text = json.text v.config in
    let exact = length-layout c v audit text valid in
    let small = size_small c v text valid fits in
    let written =
      put_vault-Appends v audit text (with_capacity (size v text + 16)) (omega arith)
        (omega arith) in
    (
      rw
          (
            checked,
            settings,
            settings_fit text fits,
            ge→ltb max_masters (length v.masters) valid.masters_len,
            ge→ltb max_accounts (length v.accounts) valid.accounts_len,
            ge→ltb max_recipients (length v.recipients) valid.recipients_len,
            exact,
          )
          written,
      omega arith,
    )
