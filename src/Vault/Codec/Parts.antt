-- ===== src/Vault/Codec/Parts.antt =====
-- The parts of `decode` of src/vault.rs on the bytes of the format.
use solx.Common.{
  ℕ, ◌*◌, ◌%◌, ◌^◌, ◌≤◌, ◌<◌, ◌≡◌, ◌≢◌, refl, sym, ap, true, false, ◌||◌, not, List, [], ◌∷◌, ◌++◌,
  append-nil, append_assoc, Bytes, All, All-get_elem?, All-append_iff, length, get_elem?,
  lt_of_get_elem?, to_le_bytes, ok, or_panic, ltb, leb, arith,
}
use mathlib.Core.Path.{subst}
use solx.Common.Eq.{◌==◌, nat_eq, list_eq, list_beq, list_beq_iff}
use solx.Config.{Config, valid_name}
use solx.Config.Names.{valid_name-length, from_utf8-valid_name}
use solx.Config.Validate.{Parsers, validate}
use solx.Signer.{pubkey}
use solx.Vault.{Master, Account, AccountKind, derived, imported, ConfigAudit, has_name}
use solx.Vault.Audit.{validate_audit}
use solx.Vault.Phrase.{Crypto}
use solx.Vault.Valid.{entropy_size, IsMaster, IsKind, IsAccount, Distinct}
use solx.Vault.Codec.{Json}
use solx.Vault.Codec.Layout.{
  master_bytes, kind_bytes, account_bytes, concat_map, config_bytes, audit_bytes,
}
use solx.Vault.Codec.Decode.{
  read_master, read_masters, read_kind, read_account, read_accounts, read_recipients, read_audit,
  read_config,
}
use solx.Vault.Codec.Takes.{
  Takes, take-Takes, lift-Takes, bind-Takes, check-Takes, guard-Takes, end-Takes, u8-Takes,
  le-Takes,
}

entropy_size-le : (n : ℕ) → entropy_size n ≡ true → n ≤ 32
entropy_size-le n h = ground arith

mod_small : (n : ℕ) → n < 256 → n % 256 ≡ n
mod_small n h = omega arith

read_master-Takes : (m : Master) → IsMaster m → Takes read_master (master_bytes m) m
unfolding read_master
read_master-Takes m (size, low, high) =
    let small : length m.entropy ≤ 32 = entropy_size-le (length m.entropy) size in
    let same : length m.entropy % 256 ≡ length m.entropy = omega arith in
    let sized : not (entropy_size (length m.entropy)) ≡ false = rw size in
    let counted : ((m.next_index == 0) || ltb (2 ^ 31) m.next_index) ≡ false = ground arith in
    rw same (
      bind-Takes _ _ (length m.entropy ∷ []) _ _ _ (u8-Takes (length m.entropy)) (
        guard-Takes _ _ _ _ _ sized (
          bind-Takes _ _ m.entropy _ _ _ (take-Takes m.entropy (length m.entropy) refl) (
            end-Takes _ _ (to_le_bytes 4 m.next_index) _ _ (le-Takes 4 m.next_index (omega arith))
              (guard-Takes _ _ _ [] _ counted (lift-Takes _ _ refl))))))

pub read_masters-Takes :
    (acc masters : List Master)
    → All IsMaster masters
    → Takes (read_masters (length masters) acc) (concat_map master_bytes masters) (acc ++ masters)
unfolding read_masters
read_masters-Takes acc [] h = lift-Takes _ _ (ap ok (sym (append-nil acc)))
read_masters-Takes acc (m ∷ rest) h =
    bind-Takes _ _ (master_bytes m) _ _ _ (read_master-Takes m h.0) (
      subst
        (λ (l : List Master).
          Takes (read_masters (length rest) (acc ++ m ∷ [])) (concat_map master_bytes rest) l)
        (append_assoc acc (m ∷ []) rest) (read_masters-Takes (acc ++ m ∷ []) rest h.1))

pub read_recipients-Takes :
    (acc keys : List Bytes)
    → All (λ key. length key ≡ 32) keys
    → Takes (read_recipients (length keys) acc) (concat_map (λ key. key) keys) (acc ++ keys)
unfolding read_recipients
read_recipients-Takes acc [] h = lift-Takes _ _ (ap ok (sym (append-nil acc)))
read_recipients-Takes acc (key ∷ rest) h = bind-Takes _ _ key _ _ _ (take-Takes key 32 h.0) (
    subst
      (λ (l : List Bytes).
        Takes (read_recipients (length rest) (acc ++ key ∷ [])) (concat_map (λ k. k) rest) l)
      (append_assoc acc (key ∷ []) rest) (read_recipients-Takes (acc ++ key ∷ []) rest h.1))

-- The tag byte, and what follows it.
abbrev kind_tag : AccountKind → ℕ
kind_tag (derived master index) = 0
kind_tag (imported keypair) = 1

abbrev kind_body : AccountKind → Bytes
kind_body (derived master index) = master ∷ to_le_bytes 4 index
kind_body (imported keypair) = keypair

kind_split : (kind : AccountKind) → kind_bytes kind ≡ kind_tag kind ∷ kind_body kind
kind_split (derived master index) = refl
kind_split (imported keypair) = refl

-- An account that stands later has a new name.
fresh_name :
    (acc : List Account) (a : Account) (rest : List Account)
    → Distinct (acc ++ a ∷ rest)
    → has_name a.name acc ≡ false
unfolding has_name
fresh_name [] a rest d = refl
fresh_name (b ∷ acc) a rest d =
    let (_, later) = All-append_iff (λ x. x.name ≢ b.name) acc (a ∷ rest) d.0 in
    let differs : a.name ≢ b.name = later.0 in
    ground (arith, list_beq_iff b.name a.name, fresh_name acc a rest d.1)

module _ (c : Crypto) (masters : List Master) (sound : All IsMaster masters) where
  read_kind-Takes :
      (address : Bytes) (kind : AccountKind)
      → IsKind c masters address kind
      → Takes (read_kind c.ed25519 masters address (kind_tag kind)) (kind_body kind) kind
  unfolding read_kind
  read_kind-Takes address (derived master index) (m, got, lt) =
      let ok_m : IsMaster m = All-get_elem? IsMaster masters master sound got in
      let place = lt_of_get_elem? masters master got in
      let known : (leb (length masters) master || leb (2 ^ 31) index) ≡ false = ground arith in
      let fresh : leb m.next_index index ≡ false = ground arith in
      let found : or_panic (get_elem? masters master) ≡ ok m = rw got in
      bind-Takes _ _ (master ∷ []) _ _ _ (u8-Takes master) (
        end-Takes _ _ (to_le_bytes 4 index) _ _ (le-Takes 4 index (omega arith)) (
          guard-Takes _ _ _ [] _ known
            (check-Takes _ _ [] m _ found (guard-Takes _ _ _ [] _ fresh (lift-Takes _ _ refl)))))
  read_kind-Takes address (imported keypair) (pair, read, same, len) =
      let equal : list_beq (pubkey c.ed25519 pair) address ≡ true =
        (list_beq_iff (pubkey c.ed25519 pair) address).1 same in
      let matches : not (list_beq (pubkey c.ed25519 pair) address) ≡ false = rw equal in
      end-Takes _ _ keypair _ _ (take-Takes keypair 64 len)
        (check-Takes _ _ [] pair _ read (guard-Takes _ _ _ [] _ matches (lift-Takes _ _ refl)))

  read_account-Takes :
      (accounts : List Account) (a : Account)
      → IsAccount c masters a
      → has_name a.name accounts ≡ false
      → Takes (read_account c.ed25519 masters accounts) (account_bytes a) a
  unfolding read_account
  read_account-Takes accounts a (named, addressed, kind) fresh =
      let small : length a.name ≤ 32 = valid_name-length a.name named in
      let same : length a.name % 256 ≡ length a.name = omega arith in
      let checked : (not (valid_name a.name) || has_name a.name accounts) ≡ false =
        rw (named, fresh) in
      rw (same, kind_split a.kind)
        (bind-Takes _ _ (length a.name ∷ []) _ _ _ (u8-Takes (length a.name)) (
          bind-Takes _ _ a.name _ _ _ (take-Takes a.name (length a.name) refl) (
            check-Takes _ _ _ a.name _ (from_utf8-valid_name a.name named) (
              guard-Takes _ _ _ _ _ checked (
                bind-Takes _ _ a.pubkey _ _ _ (take-Takes a.pubkey 32 addressed) (
                  bind-Takes _ _ (kind_tag a.kind ∷ []) _ _ _ (u8-Takes (kind_tag a.kind)) (
                    end-Takes _ _ (kind_body a.kind) _ _ (read_kind-Takes a.pubkey a.kind kind)
                      (lift-Takes _ _ refl))))))))

  pub read_accounts-Takes :
      (acc accounts : List Account)
      → All (IsAccount c masters) accounts
      → Distinct (acc ++ accounts)
      → Takes
          (read_accounts c.ed25519 masters (length accounts) acc)
          (concat_map account_bytes accounts)
          (acc ++ accounts)
  unfolding read_accounts
  read_accounts-Takes acc [] h d = lift-Takes _ _ (ap ok (sym (append-nil acc)))
  read_accounts-Takes acc (a ∷ rest) h d =
      let next =
        read_accounts-Takes (acc ++ a ∷ []) rest h.1 (rw (append_assoc acc (a ∷ []) rest) d) in
      bind-Takes _ _ (account_bytes a) _ _ _
        (read_account-Takes acc a h.0 (fresh_name acc a rest d))
        (subst
          (λ (l : List Account).
            Takes (read_accounts c.ed25519 masters (length rest) (acc ++ a ∷ []))
              (concat_map account_bytes rest) l)
          (append_assoc acc (a ∷ []) rest) next)

pub read_audit-Takes :
    (audit : ConfigAudit)
    → audit.edits < 2 ^ 64
    → audit.last_edit_unix < 2 ^ 64
    → validate_audit audit ≡ ok tt
    → Takes read_audit (audit_bytes audit) audit
unfolding read_audit
read_audit-Takes audit few early valid =
    bind-Takes _ _ (to_le_bytes 8 audit.edits) _ _ _ (le-Takes 8 audit.edits few) (
      end-Takes _ _ (to_le_bytes 8 audit.last_edit_unix) _ _ (le-Takes 8 audit.last_edit_unix early)
        (check-Takes _ _ [] tt _ valid (lift-Takes _ _ refl)))

pub read_config-Takes :
    (parsers : Parsers) (json : Json) (text : Bytes) (config : Config)
    → 0 < length text
    → length text ≤ 65536
    → json.from_slice text ≡ ok config
    → validate parsers config ≡ ok tt
    → Takes (read_config parsers json) (config_bytes text) config
unfolding read_config
read_config-Takes parsers json text config some_text fits read valid =
    let sized : ((length text == 0) || ltb (64 * 1024) (length text)) ≡ false = ground arith in
    bind-Takes _ _ (to_le_bytes 4 (length text)) _ _ _ (le-Takes 4 (length text) (omega arith)) (
      guard-Takes _ _ _ _ _ sized (
        end-Takes _ _ text _ _ (take-Takes text (length text) refl)
          (check-Takes _ _ [] config _ read (check-Takes _ _ [] tt _ valid (lift-Takes _ _ refl)))))
