-- ===== src/Vault/Codec/Sound.antt =====
-- The parts of `decode` of src/vault.rs on arbitrary bytes.
use solx.Common.{
  map_err, ℕ, zero, suc, ◌+◌, ◌^◌, ◌<◌, ◌≡◌, ◌≢◌, refl, Bool, true, false, ◌||◌, not, List, [], ◌∷◌,
  ◌++◌, Bytes, String, All, All-append, length, length-append, get_elem?, get_elem?-lt, some,
  Result, ok, err, panicked, or_panic, ltb, leb, arith,
}
use mathlib.Core.Path.{subst}
use solx.Common.Eq.{◌==◌, nat_eq, list_eq, list_beq_iff}
use solx.Common.Utf8.{from_utf8}
use solx.Config.{valid_name}
use solx.Config.Checks.{IsParsers}
use solx.Config.Validate.{Parsers}
use solx.Signer.{pubkey, try_from}
use solx.Vault.{Master, Account, AccountKind, has_name}
use solx.Vault.Phrase.{Crypto}
use solx.Vault.Valid.{entropy_size, IsMaster, IsKind, IsAccount, Distinct}
use solx.Vault.Valid.Lookup.{has_name-false, Distinct-append}
use solx.Vault.Codec.{Json}
use solx.Vault.Codec.Reader.{lift, take_bytes, u8, le}
use solx.Vault.Codec.Decode.{
  read_master, read_masters, read_kind, read_account, read_accounts, read_recipients,
}
use solx.Vault.Codec.Ensures.{
  Ensures, Holds, Any, bind-Ensures, check-Ensures, guard-Ensures, take-Ensures, u8-Ensures,
  le-Ensures,
}

-- The other crates return, also on malformed input.
pub record IsTotal (c : Crypto) (parsers : Parsers) (json : Json) : Type 0 where
  pub key_returns : (bytes : Bytes) → c.ed25519.from_keypair_bytes bytes ≢ panicked
  pub json_returns : (text : Bytes) → json.from_slice text ≢ panicked
  pub parsers_return : IsParsers parsers

read_master-Ensures : Ensures read_master IsMaster
unfolding read_master
read_master-Ensures = bind-Ensures IsMaster Any u8 _ u8-Ensures (λ len _.
    guard-Ensures IsMaster _ _ _ (λ sized.
      bind-Ensures IsMaster (λ xs. length xs ≡ len) (take_bytes len) _ (take-Ensures len)
        (λ entropy lens. bind-Ensures IsMaster Any (le 4) _ (le-Ensures 4) (λ next _.
          guard-Ensures IsMaster _ _ _ (λ counted r. sound len next entropy sized lens counted)))))
  where
    sound :
        (len next : ℕ) (entropy : Bytes)
        → not (entropy_size len) ≡ false
        → length entropy ≡ len
        → ((next == 0) || ltb (2 ^ 31) next) ≡ false
        → IsMaster (record { entropy = entropy; next_index = next })
    sound len next entropy sized lens counted =
        let size : entropy_size len ≡ true = ground arith in
        (rw lens size, ground arith, ground arith)

pub read_masters-Ensures :
    (n : ℕ) (acc : List Master)
    → All IsMaster acc
    → Ensures (read_masters n acc) (λ ms. All IsMaster ms × (length ms ≡ length acc + n))
unfolding read_masters
read_masters-Ensures zero acc h = λ r. (h, omega arith)
read_masters-Ensures (suc n) acc h =
    bind-Ensures _ IsMaster read_master _ read_master-Ensures (λ m good r.
      subst
        (λ (k : ℕ).
          Holds (λ (ms : List Master). All IsMaster ms × (length ms ≡ k))
            (read_masters n (acc ++ m ∷ []) r))
        (omega (arith, length-append acc (m ∷ [])))
        (read_masters-Ensures n (acc ++ m ∷ []) (All-append IsMaster acc (m ∷ []) h (good, tt)) r))

pub read_recipients-Ensures :
    (n : ℕ) (acc : List Bytes)
    → All (λ key. length key ≡ 32) acc
    → Ensures
        (read_recipients n acc)
        (λ keys. All (λ key. length key ≡ 32) keys × (length keys ≡ length acc + n))
unfolding read_recipients
read_recipients-Ensures zero acc h = λ r. (h, omega arith)
read_recipients-Ensures (suc n) acc h =
    bind-Ensures _ (λ xs. length xs ≡ 32) (take_bytes 32) _ (take-Ensures 32)
      (λ key good r.
        subst
          (λ (k : ℕ).
            Holds (λ (keys : List Bytes). All (λ x. length x ≡ 32) keys × (length keys ≡ k))
              (read_recipients n (acc ++ key ∷ []) r))
          (omega (arith, length-append acc (key ∷ [])))
          (read_recipients-Ensures n (acc ++ key ∷ [])
            (All-append (λ x. length x ≡ 32) acc (key ∷ []) h (good, tt)) r))

module _ (c : Crypto)
    (key_returns : (bytes : Bytes) → c.ed25519.from_keypair_bytes bytes ≢ panicked)
    (masters : List Master) where
  map_err-ne-panicked :
      (m : Result Bytes) (message : String) → m ≢ panicked → map_err m message ≢ panicked
  map_err-ne-panicked (ok a) message h e = cc
  map_err-ne-panicked (err x) message h e = cc
  map_err-ne-panicked panicked message h e = h refl

  try_from-ne-panicked : (bytes : Bytes) → try_from c.ed25519 bytes ≢ panicked
  unfolding try_from
  try_from-ne-panicked bytes e = ground (
    arith,
    map_err-ne-panicked (c.ed25519.from_keypair_bytes bytes)
        "keypair public key does not match its secret key" (key_returns bytes),
  )

  read_kind-Ensures :
      (address : Bytes) (tag : ℕ)
      → Ensures (read_kind c.ed25519 masters address tag) (λ kind. IsKind c masters address kind)
  unfolding read_kind
  read_kind-Ensures address zero =
      let P = λ (kind : AccountKind). IsKind c masters address kind in
      bind-Ensures P Any u8 _ u8-Ensures (λ master _.
        bind-Ensures P Any (le 4) _ (le-Ensures 4) (λ index _.
          guard-Ensures P (leb (length masters) master || leb (2 ^ 31) index) _ _ (λ known.
            check-Ensures P (or_panic (get_elem? masters master)) _ (stored master (ground arith))
              (λ m got.
                guard-Ensures P (leb m.next_index index) _ _
                  (λ fresh r. (m, found master m got, ground arith))))))
    where
      stored : (i : ℕ) → i < length masters → or_panic (get_elem? masters i) ≢ panicked
      stored i lt e = let (m, got) = get_elem?-lt masters i lt in cc (e, got)

      found :
          (i : ℕ) (m : Master)
          → or_panic (get_elem? masters i) ≡ ok m
          → get_elem? masters i ≡ some m
      found i m e = ground arith
  read_kind-Ensures address (suc zero) =
      let P = λ (kind : AccountKind). IsKind c masters address kind in
      bind-Ensures P (λ xs. length xs ≡ 64) (take_bytes 64) _ (take-Ensures 64)
        (λ bytes len.
          check-Ensures P (try_from c.ed25519 bytes) _ (try_from-ne-panicked bytes) (λ pair read.
            guard-Ensures P (not (pubkey c.ed25519 pair == address)) _ _ (λ same r.
              (pair, read, ground (arith, list_beq_iff (pubkey c.ed25519 pair) address), len))))
  read_kind-Ensures address (suc (suc n)) = λ r. tt

  from_utf8-ne-panicked : (bytes : Bytes) → from_utf8 bytes ≢ panicked
  unfolding from_utf8
  from_utf8-ne-panicked bytes e = ground arith

  read_account-Ensures :
      (accounts : List Account)
      → Ensures
          (read_account c.ed25519 masters accounts)
          (λ a. IsAccount c masters a × (has_name a.name accounts ≡ false))
  unfolding read_account
  read_account-Ensures accounts =
      let P = λ (a : Account). IsAccount c masters a × (has_name a.name accounts ≡ false) in
      bind-Ensures P Any u8 _ u8-Ensures (λ len _.
        bind-Ensures P (λ xs. length xs ≡ len) (take_bytes len) _ (take-Ensures len)
          (λ text _. check-Ensures P (from_utf8 text) _ (from_utf8-ne-panicked text) (λ name _.
            guard-Ensures P (not (valid_name name) || has_name name accounts) _ _ (λ checked.
              bind-Ensures P (λ xs. length xs ≡ 32) (take_bytes 32) _ (take-Ensures 32)
                (λ address size. bind-Ensures P Any u8 _ u8-Ensures (λ tag _.
                  bind-Ensures P (λ kind. IsKind c masters address kind) _
                    (λ (kind : AccountKind).
                      lift (ok (record { name = name; pubkey = address; kind = kind })))
                    (read_kind-Ensures address tag)
                    (λ kind good r.
                      ((name_valid _ _ checked, size, good), name_new _ _ checked))))))))
    where
      name_valid : (named taken : Bool) → (not named || taken) ≡ false → named ≡ true
      name_valid true taken e = refl
      name_valid false taken e = cc

      name_new : (named taken : Bool) → (not named || taken) ≡ false → taken ≡ false
      name_new true taken e = e
      name_new false taken e = cc

  pub read_accounts-Ensures :
      (n : ℕ) (acc : List Account)
      → All (IsAccount c masters) acc
      → Distinct acc
      → Ensures
          (read_accounts c.ed25519 masters n acc)
          (λ as'. All (IsAccount c masters) as' × Distinct as' × (length as' ≡ length acc + n))
  unfolding read_accounts
  read_accounts-Ensures zero acc h d = λ r. (h, d, omega arith)
  read_accounts-Ensures (suc n) acc h d =
      bind-Ensures _ (λ a. IsAccount c masters a × (has_name a.name acc ≡ false)) _ _
        (read_account-Ensures acc)
        (λ a good r.
          subst
            (λ (k : ℕ).
              Holds
                (λ (as' : List Account).
                  All (IsAccount c masters) as' × Distinct as' × (length as' ≡ k))
                (read_accounts c.ed25519 masters n (acc ++ a ∷ []) r))
            (omega (arith, length-append acc (a ∷ [])))
            (read_accounts-Ensures n (acc ++ a ∷ [])
              (All-append (IsAccount c masters) acc (a ∷ []) h (good.0, tt))
              (Distinct-append acc a d (has_name-false a.name acc good.1)) r))
