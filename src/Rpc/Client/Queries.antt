-- ===== src/Rpc/Client/Queries.antt =====
-- The requests of src/rpc.rs other than `sendTransaction` send no transaction and change no settings.
use solx.Common.{ℕ, zero, suc, ◌≡◌, refl, true, false, List, Bytes, Option, none, some, Result}
use solx.Effects.{Doc, Method, request, Env, ◌>>=◌, lift, emit}
use solx.Effects.Keeps.{
  sent, sent_of, Silent, Keeps-lift, Keeps-pure, Silent-answer, Silent-ask, Keeps-if, Keeps->>=,
}
use solx.Rpc.Values.{Chain}
use solx.Rpc.Connection.{Rpc}
use solx.Rpc.Responses.{BlockhashContext}
use solx.Rpc.Client.{
  call_with_timeout, call, verify_cluster, balance, account_info, token_balance_of, token_balance,
  token_decimals, latest_blockhash, block_height, fee_for_message, token_accounts, signatures,
  simulate_at, simulate, poll, confirm,
}

-- A method that sends nothing.
abbrev pub IsQuery : Method → Type 0
IsQuery method = (params : Doc) (rest : List Doc) → sent_of method params rest ≡ rest

Silent-request :
    (method : Method) (params : Doc) (timeout : ℕ)
    → IsQuery method
    → Silent (emit (request method params timeout))
unfolding sent emit
Silent-request method params timeout query = record {
  at = λ w. λ i. (query params (sent w.log) i, w.app.config);
}

module _ (env : Env) (chain : Chain) where
  pub call_with_timeout-Silent :
      (method : Method) (params : Doc) (timeout : ℕ)
      → IsQuery method
      → Silent (call_with_timeout env chain method params timeout)
  unfolding call_with_timeout
  call_with_timeout-Silent method params timeout query =
      Keeps->>= (Silent-request method params timeout query)
        (λ done. Keeps->>= (Silent-ask _) (λ reply. Keeps-lift _))

  module _ (rpc : Rpc) where
    pub call-Silent :
        (method : Method) (params : Doc)
        → IsQuery method
        → Silent (call env chain rpc method params)
    unfolding call
    call-Silent method params query = call_with_timeout-Silent method params _ query

    -- A request and the reading of its answer.
    read-Silent :
        {A : Type 0} (method : Method) (params : Doc) (read : Bytes → Result A)
        → IsQuery method
        → Silent (call env chain rpc method params >>= λ result. lift (read result))
    read-Silent method params read query =
        Keeps->>= (call-Silent method params query) (λ result. Keeps-lift (read result))

    pub verify_cluster-Silent : Silent (verify_cluster env chain rpc)
    unfolding verify_cluster
    verify_cluster-Silent = read-Silent _ _ _ (λ p r. refl)

    pub balance-Silent : (address : Bytes) → Silent (balance env chain rpc address)
    unfolding balance
    balance-Silent address = read-Silent _ _ _ (λ p r. refl)

    pub account_info-Silent : (address : Bytes) → Silent (account_info env chain rpc address)
    unfolding account_info
    account_info-Silent address = read-Silent _ _ _ (λ p r. refl)

    pub token_decimals-Silent : (mint : Bytes) → Silent (token_decimals env chain rpc mint)
    unfolding token_decimals
    token_decimals-Silent mint = read-Silent _ _ _ (λ p r. refl)

    pub latest_blockhash-Silent : Silent (latest_blockhash env chain rpc)
    unfolding latest_blockhash
    latest_blockhash-Silent = read-Silent _ _ _ (λ p r. refl)

    pub block_height-Silent :
        (context : BlockhashContext) → Silent (block_height env chain rpc context)
    unfolding block_height
    block_height-Silent context = read-Silent _ _ _ (λ p r. refl)

    pub token_accounts-Silent :
        (owner : Bytes) (program : Bytes) → Silent (token_accounts env chain rpc owner program)
    unfolding token_accounts
    token_accounts-Silent owner program = read-Silent _ _ _ (λ p r. refl)

    pub signatures-Silent :
        (address : Bytes) (limit : ℕ) → Silent (signatures env chain rpc address limit)
    unfolding signatures
    signatures-Silent address limit = read-Silent _ _ _ (λ p r. refl)

    pub simulate_at-Silent :
        (wire : Bytes) (slot : ℕ) → Silent (simulate_at env chain rpc wire slot)
    unfolding simulate_at
    simulate_at-Silent wire slot = read-Silent _ _ _ (λ p r. refl)

    pub simulate-Silent : (wire : Bytes) → Silent (simulate env chain rpc wire)
    unfolding simulate
    simulate-Silent wire = simulate_at-Silent wire 0

    pub fee_for_message-Silent : (message : Bytes) → Silent (fee_for_message env chain rpc message)
    unfolding fee_for_message
    fee_for_message-Silent message =
        Keeps->>= (Keeps-lift _) (λ wire. read-Silent _ _ _ (λ p r. refl))

    token_balance_of-Silent :
        (address : Bytes) (info : Option Bytes)
        → Silent (token_balance_of env chain rpc address info)
    token_balance_of-Silent address none = Keeps-pure none
    token_balance_of-Silent address (some info) =
        Keeps->>= (call-Silent _ _ (λ p r. refl))
          (λ value. Keeps->>= (Keeps-lift _) (λ amount. Keeps-pure (some amount)))

    pub token_balance-Silent : (address : Bytes) → Silent (token_balance env chain rpc address)
    unfolding token_balance
    token_balance-Silent address =
        Keeps->>= (account_info-Silent address) (λ info. token_balance_of-Silent address info)

    poll-Silent :
        (left deadline : ℕ) (signature : Bytes)
        → Silent (poll env chain rpc left deadline signature)
    unfolding poll
    poll-Silent zero deadline signature = Keeps-pure false
    poll-Silent (suc left) deadline signature = Keeps->>= (Silent-answer _) (λ now.
        Keeps-if _ (Keeps-pure false) (
          Keeps->>= (call_with_timeout-Silent _ _ _ (λ p r. refl)) (λ result.
            Keeps->>= (Keeps-lift _) (λ final.
              Keeps-if final (Keeps-pure true)
                (Keeps->>= (Silent-answer _) (λ woken. poll-Silent left deadline signature))))))

    pub confirm-Silent : (signature : Bytes) → Silent (confirm env chain rpc signature)
    unfolding confirm
    confirm-Silent signature = Keeps->>= (Silent-answer _) (λ now. poll-Silent 20 _ signature)
