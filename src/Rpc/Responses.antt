-- ===== src/Rpc/Responses.antt =====
-- How src/rpc.rs reads the answers of the server.
use solx.Common.{
  ℕ, ◌+◌, ◌*◌, Bool, true, false, not, ◌&&◌, ◌||◌, List, [], ◌∷◌, Bytes, ascii, length, take,
  Option, none, some, Result, ok, err, ◌>>=◌, ◌>>◌, fail_if, ok_or, ltb, if◌then◌else◌,
}
use solx.Common.Eq.{◌==◌, nat_eq, list_eq, option_eq}
use solx.Common.Numbers.{parse_unsigned}
use solx.Effects.{Reply}
use solx.Rpc.Values.{Chain, and_then, is_some_and}

abbrev pub max_body : ℕ
max_body = 2 * 1024 * 1024

pub record BlockhashContext : Type 0 where
  pub hash : Bytes
  pub last_valid_block_height : ℕ
  pub context_slot : ℕ

pub record TokenAccount : Type 0 where
  pub address : Bytes
  pub mint : Bytes
  pub raw_amount : ℕ
  pub decimals : ℕ

-- `u8::try_from`
abbrev pub to_u8 : ℕ → Result ℕ
to_u8 n = if ltb n 256 then ok n else err "out of range integral type conversion attempted"

abbrev pub is_none : Option Bytes → Bool
is_none none = true
is_none (some v) = false

abbrev pub is_final : Option Bytes → Bool
is_final none = false
is_final (some status) = status == ascii "confirmed" || status == ascii "finalized"

module _ (chain : Chain) where
  open chain use {values, parse_key, parse_hash, key_text}
  open values use {from_slice, get, pointer, as_str, as_u64, as_array, is_null, is_object}

  -- An answer with an error has no result.
  unfoldable pub result_of : Bytes → Result Bytes
  result_of parsed = elim (get parsed (ascii "error")) [
    | some error ↦ err "RPC error"
    | none ↦ ok_or (get parsed (ascii "result")) "RPC result missing"
  ]

  -- `call_with_timeout`, from the response on. The texts of its errors leave out the method, the
  -- status and the error that the server names.
  unfoldable pub decode_response : Reply → Result Bytes
  unfolding result_of
  decode_response reply = do
    fail_if (not reply.success) "RPC: HTTP status"
    let body = take (max_body + 1) reply.body
    fail_if (ltb max_body (length body)) "RPC response exceeds 2 MiB"
    parsed ← from_slice body
    fail_if
        (not (and_then (get parsed (ascii "jsonrpc")) as_str == some (ascii "2.0"))
          || not (and_then (get parsed (ascii "id")) as_u64 == some 1))
        "invalid JSON-RPC envelope"
    result_of parsed

  -- `verify_cluster`
  unfoldable pub check_genesis : Bytes → Bytes → Result (Unit {0})
  check_genesis expected result =
      fail_if (not (as_str result == some expected))
        "RPC genesis hash does not match the configured cluster; refusing operation"

  unfoldable pub balance_of : Bytes → Result ℕ
  balance_of result =
      ok_or (and_then (get result (ascii "value")) as_u64) "invalid getBalance response"

  -- `account_info`
  unfoldable pub info_of : Bytes → Result (Option Bytes)
  info_of result = elim (get result (ascii "value")) [
    | none ↦ err "invalid getAccountInfo response"
    | some value ↦
        if is_null value
        then ok none
        else (if is_object value then ok (some value) else err "invalid getAccountInfo response")
  ]

  unfoldable pub token_amount_of : Bytes → Result ℕ
  unfolding parse_unsigned
  token_amount_of value = do
    amount ←
        ok_or (and_then (pointer value (ascii "/value/amount")) as_str)
          "invalid token balance response"
    parse_unsigned amount

  unfoldable pub decimals_of : Bytes → Result ℕ
  decimals_of result = do
    decimals ←
        ok_or (and_then (pointer result (ascii "/value/decimals")) as_u64)
          "invalid token supply response"
    to_u8 decimals

  unfoldable pub blockhash_of : Bytes → Result BlockhashContext
  blockhash_of result = do
    text ←
        ok_or (and_then (pointer result (ascii "/value/blockhash")) as_str)
          "invalid getLatestBlockhash response"
    hash ← parse_hash text
    height ←
        ok_or (and_then (pointer result (ascii "/value/lastValidBlockHeight")) as_u64)
          "missing blockhash expiry"
    slot ←
        ok_or (and_then (pointer result (ascii "/context/slot")) as_u64) "missing blockhash context"
    ok (record { hash = hash; last_valid_block_height = height; context_slot = slot })

  unfoldable pub height_of : Bytes → Result ℕ
  height_of result = ok_or (as_u64 result) "invalid block height"

  unfoldable pub fee_from_response : Bytes → Result ℕ
  fee_from_response result =
      ok_or (and_then (get result (ascii "value")) as_u64)
        "RPC fee unavailable for transaction message"

  -- `signatures`
  unfoldable pub rows_of : Bytes → ℕ → Result (List Bytes)
  rows_of result limit = do
    list ← ok_or (as_array result) "invalid signature history response"
    fail_if (ltb limit (length list)) "RPC returned too many signatures"
    ok list

  -- `simulate_at`
  unfoldable pub simulation_of : Bytes → Result Bytes
  simulation_of result = do
    value ← ok_or (get result (ascii "value")) "invalid simulation response"
    fail_if (is_none (get value (ascii "err"))) "simulation result is missing err field"
    ok value

  -- `send`
  unfoldable pub signature_of : Bytes → Result Bytes
  signature_of result = do
    signature ← ok_or (as_str result) "invalid sendTransaction response"
    fail_if (ltb 100 (length signature)) "invalid transaction signature"
    ok signature

  -- One answer to `getSignatureStatuses` in `confirm`: whether the transaction is confirmed.
  unfoldable pub status_of : Bytes → Result Bool
  status_of result = do
    status ← ok_or (pointer result (ascii "/value/0")) "invalid signature status response"
    fail_if (is_object status && not (is_some_and (get status (ascii "err")) is_null))
        "transaction failed"
    ok (is_object status && is_final (and_then (get status (ascii "confirmationStatus")) as_str))

  -- One item of `parse_token_accounts`.
  unfoldable pub token_account_of : Bytes → Bytes → Result TokenAccount
  unfolding parse_unsigned
  token_account_of program item = do
    address ← ok_or (and_then (get item (ascii "pubkey")) as_str) "invalid token account address"
    fail_if
        (not (and_then (pointer item (ascii "/account/owner")) as_str == some (key_text program)))
        "token account has unexpected owner program"
    info ← ok_or (pointer item (ascii "/account/data/parsed/info")) "invalid parsed token account"
    mint ← ok_or (and_then (get info (ascii "mint")) as_str) "invalid token mint"
    amount ←
        ok_or (and_then (pointer info (ascii "/tokenAmount/amount")) as_str)
          "invalid raw token amount"
    raw_amount ← parse_unsigned amount
    decimals ←
        ok_or (and_then (pointer info (ascii "/tokenAmount/decimals")) as_u64)
          "invalid token decimals"
    address ← parse_key address
    mint ← parse_key mint
    decimals ← to_u8 decimals
    ok (record { address = address; mint = mint; raw_amount = raw_amount; decimals = decimals })

  unfoldable pub token_accounts_of : Bytes → List Bytes → Result (List TokenAccount)
  unfolding token_account_of
  token_accounts_of program [] = ok []
  token_accounts_of program (item ∷ items) = do
    account ← token_account_of program item
    accounts ← token_accounts_of program items
    ok (account ∷ accounts)

  unfoldable pub parse_token_accounts : Bytes → Bytes → Result (List TokenAccount)
  unfolding token_accounts_of
  parse_token_accounts result program = do
    items ← ok_or (and_then (get result (ascii "value")) as_array) "invalid token account response"
    fail_if (ltb 512 (length items)) "too many token accounts in RPC response"
    token_accounts_of program items
