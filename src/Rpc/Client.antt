-- ===== src/Rpc/Client.antt =====
-- The client `Rpc` of src/rpc.rs: its requests, in the order in which they are made.
pub mod Queries
pub mod Outcomes
pub mod Confirmed
pub mod Live
use solx.Common.{
  ℕ, zero, suc, ◌+◌, ◌-◌, ◌*◌, ◌^◌, min, Bool, true, false, not, ◌&&◌, ◌||◌, List, [], ◌∷◌, Bytes,
  ascii, Option, none, some, String, Result, ok, err, panicked, ok_or, ltb, if◌then◌else◌,
}
use solx.Common.Eq.{◌==◌, nat_eq, list_eq}
use solx.Rpc.Values.{Chain}
use solx.Rpc.Connection.{Rpc}
use solx.Rpc.Responses.{
  BlockhashContext, TokenAccount, decode_response, check_genesis, balance_of, info_of,
  token_amount_of, decimals_of, blockhash_of, height_of, fee_from_response, rows_of, simulation_of,
  signature_of, status_of, parse_token_accounts,
}
use solx.Effects.{
  Doc, text, number, boolean, array, object, Docs, nil, cons, Fields, end, field, Method, Event,
  request, Env, Effect, ◌>>=◌, ◌>>◌, lift, pure, attempt, emit, answer, ask,
}

abbrev pub one : Doc → Doc
one a = array (cons a nil)

abbrev pub two : Doc → Doc → Doc
two a b = array (cons a (cons b nil))

abbrev pub entry : Bytes → Doc → Doc
entry key value = object (field key value end)

abbrev pub at_commitment : Doc
at_commitment = entry (ascii "commitment") (text (ascii "confirmed"))

abbrev pub second : ℕ
second = 10 ^ 9

abbrev pub simulate_options : ℕ → Doc
simulate_options slot = object (
    field (ascii "encoding") (text (ascii "base64")) (
      field (ascii "sigVerify") (boolean false) (
        field (ascii "commitment") (text (ascii "confirmed"))
          (field (ascii "minContextSlot") (number slot) end))))

abbrev pub send_options : Doc
send_options = object (
    field (ascii "encoding") (text (ascii "base64")) (
      field (ascii "skipPreflight") (boolean false) (
        field (ascii "preflightCommitment") (text (ascii "confirmed"))
          (field (ascii "maxRetries") (number 0) end))))

-- `SubmissionOutcome`; the reason is a text for the user.
pub data SubmissionOutcome : Type 0 where
  confirmed unknown : Bytes → SubmissionOutcome

module _ (env : Env) (chain : Chain) where
  unfoldable pub call_with_timeout : Method → Doc → ℕ → Effect Bytes
  unfolding decode_response
  call_with_timeout method params timeout = do
    emit (request method params timeout)
    reply ← ask env.reply
    lift (decode_response chain reply)

  module _ (rpc : Rpc) where
    unfoldable pub call : Method → Doc → Effect Bytes
    unfolding call_with_timeout
    call method params = call_with_timeout method params (rpc.timeout * second)

    unfoldable pub verify_cluster : Effect (Unit {0})
    unfolding call
    verify_cluster = do
      result ← call Method.get_genesis_hash (array nil)
      lift (check_genesis chain rpc.expected result)

    unfoldable pub balance : Bytes → Effect ℕ
    unfolding call
    balance address = do
      result ← call Method.get_balance (two (text (chain.key_text address)) at_commitment)
      lift (balance_of chain result)

    unfoldable pub account_info : Bytes → Effect (Option Bytes)
    unfolding call
    account_info address = do
      result ← call Method.get_account_info (
          two (text (chain.key_text address)) (
            object (
              field (ascii "encoding") (text (ascii "base64"))
                (field (ascii "commitment") (text (ascii "confirmed")) end))))
      lift (info_of chain result)

    -- The rest of `token_balance`, after its first request.
    abbrev pub token_balance_of : Bytes → Option Bytes → Effect (Option ℕ)
    token_balance_of address none = pure none
    token_balance_of address (some info) = do
      value ←
          call Method.get_token_account_balance (two (text (chain.key_text address)) at_commitment)
      amount ← lift (token_amount_of chain value)
      pure (some amount)

    unfoldable pub token_balance : Bytes → Effect (Option ℕ)
    unfolding account_info
    token_balance address = do info ← account_info address; token_balance_of address info

    unfoldable pub token_decimals : Bytes → Effect ℕ
    unfolding call
    token_decimals mint = do
      result ← call Method.get_token_supply (two (text (chain.key_text mint)) at_commitment)
      lift (decimals_of chain result)

    unfoldable pub latest_blockhash : Effect BlockhashContext
    unfolding call
    latest_blockhash = do
      result ← call Method.get_latest_blockhash (one at_commitment)
      lift (blockhash_of chain result)

    unfoldable pub block_height : BlockhashContext → Effect ℕ
    unfolding call
    block_height context = do
      result ← call Method.get_block_height (
          one (
            object (
              field (ascii "commitment") (text (ascii "confirmed"))
                (field (ascii "minContextSlot") (number context.context_slot) end))))
      lift (height_of chain result)

    unfoldable pub fee_for_message : Bytes → Effect ℕ
    unfolding call
    fee_for_message message = do
      wire ← lift (chain.serialize_message message)
      result ← call Method.get_fee_for_message (two (text (chain.base64 wire)) at_commitment)
      lift (fee_from_response chain result)

    unfoldable pub token_accounts : Bytes → Bytes → Effect (List TokenAccount)
    unfolding call
    token_accounts owner program = do
      result ← call Method.get_token_accounts_by_owner (
          array (
            cons (text (chain.key_text owner)) (
              cons (entry (ascii "programId") (text (chain.key_text program))) (
                cons
                  (object (
                    field (ascii "encoding") (text (ascii "jsonParsed"))
                      (field (ascii "commitment") (text (ascii "confirmed")) end)))
                  nil))))
      lift (parse_token_accounts chain result program)

    unfoldable pub signatures : Bytes → ℕ → Effect (List Bytes)
    unfolding call
    signatures address limit = do
      result ← call Method.get_signatures_for_address (
          two (text (chain.key_text address)) (
            object (
              field (ascii "limit") (number limit)
                (field (ascii "commitment") (text (ascii "confirmed")) end))))
      lift (rows_of chain result limit)

    unfoldable pub simulate_at : Bytes → ℕ → Effect Bytes
    unfolding call
    simulate_at wire slot = do
      result ←
          call Method.simulate_transaction (two (text (chain.base64 wire)) (simulate_options slot))
      lift (simulation_of chain result)

    unfoldable pub simulate : Bytes → Effect Bytes
    unfolding simulate_at
    simulate wire = simulate_at wire 0

    unfoldable pub send : Bytes → Effect Bytes
    unfolding call
    send wire = do
      result ← call Method.send_transaction (two (text (chain.base64 wire)) send_options)
      lift (signature_of chain result)

    -- The loop of `confirm`, with the polls left; the sleep reads the clock once more.
    unfoldable pub poll : ℕ → ℕ → Bytes → Effect Bool
    unfolding call_with_timeout
    poll zero deadline signature = pure false
    poll (suc left) deadline signature = do
      now ← answer env.instant
      let rest = poll left deadline signature
      if deadline - now == 0 then pure false else (do
        result ←
            call_with_timeout Method.get_signature_statuses
              (two (one (text signature))
                (entry (ascii "searchTransactionHistory") (boolean false)))
              (min (rpc.timeout * second) (deadline - now))
        final ← lift (status_of chain result)
        if final then pure true else (do woken ← answer env.instant; rest))

    unfoldable pub confirm : Bytes → Effect Bool
    unfolding poll
    confirm signature = do now ← answer env.instant; poll 20 (now + 60 * second) signature

    -- The closure of `submit_and_confirm`.
    unfoldable pub submit : Bytes → Bytes → Effect Bool
    unfolding send confirm
    submit wire expected = do
      sent ← send wire
      lift
          (if sent == expected then ok tt else err "RPC returned a different transaction signature")
      confirm expected

    abbrev pub outcome_of : Bytes → Result Bool → Result SubmissionOutcome
    outcome_of signature (ok true) = ok (confirmed signature)
    outcome_of signature (ok false) = ok (unknown signature)
    outcome_of signature (err reason) = ok (unknown signature)
    outcome_of signature panicked = panicked

    unfoldable pub submit_and_confirm : Bytes → Bytes → Effect SubmissionOutcome
    unfolding submit
    submit_and_confirm wire signature = do
      result ← attempt (submit wire (chain.signature_text signature))
      lift (outcome_of signature result)
