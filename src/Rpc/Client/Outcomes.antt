-- ===== src/Rpc/Client/Outcomes.antt =====
-- What `submit_and_confirm` of src/rpc.rs does and reports.
use solx.Common.{
  ℕ, zero, suc, ◌+◌, ◌≤◌, ◌≡◌, ◌≢◌, Bool, true, false, ◌∷◌, Bytes, String, Result, ok, err,
  panicked, arith,
}
use solx.Common.Eq.{nat_eq, list_eq}
use solx.Effects.{
  Doc, text, Method, request, Env, World, continue, result_of, ◌>>=◌, lift, attempt, emit,
}
use solx.Effects.Keeps.{
  sent, Sends, Sends->>=, Sends-request, Sends-attempt, Keeps, settings, Silent-settings,
  Keeps-emit, Keeps-attempt, Keeps->>=, Silent-ask, Silent-Quiet, Keeps-lift,
}
use solx.Effects.Counts.{
  requests, Within, Within-lift, Within-pure, Within-answer, Within-ask, Within-if, Within->>=,
  Within-attempt,
}
use solx.Rpc.Values.{Chain}
use solx.Rpc.Connection.{Rpc}
use solx.Rpc.Client.{
  two, send_options, call_with_timeout, call, send, poll, confirm, submit, submit_and_confirm,
  outcome_of,
}
use solx.Rpc.Client.Queries.{confirm-Silent}

handled :
    {A B : Type 0} (r : Result A × World) (next : Result A → Result B)
    → ((a : Result A) (message : String) → next a ≢ err message)
    → {message : String} → (continue (result_of r) (λ a. lift (next a))).0 ≢ err message
unfolding lift
handled (ok a, w) next no_error e = no_error (ok a) _ e
handled (err reason, w) next no_error e = no_error (err reason) _ e
handled (panicked, w) next no_error e = cc

Within-request :
    (method : Method) (params : Doc) (timeout : ℕ) → Within 1 (emit (request method params timeout))
unfolding requests emit
Within-request method params timeout = record { at = λ w. omega arith }

module _ (env : Env) (chain : Chain) where
  call_with_timeout-Within :
      (method : Method) (params : Doc) (timeout : ℕ)
      → Within 1 (call_with_timeout env chain method params timeout)
  unfolding call_with_timeout
  call_with_timeout-Within method params timeout =
      Within->>= 1 0 (Within-request method params timeout)
        (λ done. Within->>= 0 0 (Within-ask 0 _) (λ reply. Within-lift 0 _) (omega arith))
        (omega arith)

  module _ (rpc : Rpc) where
    poll-Within :
        (left deadline : ℕ) (signature : Bytes)
        → Within left (poll env chain rpc left deadline signature)
    unfolding poll
    poll-Within zero deadline signature = Within-pure 0 false
    poll-Within (suc left) deadline signature =
        Within->>= 0 (suc left) (Within-answer 0 _)
          (λ now. Within-if (suc left) _ (Within-pure (suc left) false) (
            Within->>= 1 left (call_with_timeout-Within _ _ _)
              (λ result.
                Within->>= 0 left (Within-lift 0 _)
                  (λ final. Within-if left final (Within-pure left true) (
                    Within->>= 0 left (Within-answer 0 _)
                      (λ woken. poll-Within left deadline signature) (omega arith)))
                  (omega arith))
              (omega arith)))
          (omega arith)

    -- The parameters of the one `sendTransaction`.
    abbrev pub wire_params : Bytes → Doc
    wire_params wire = two (text (chain.base64 wire)) send_options

    send-Sends : (wire : Bytes) → Sends (wire_params wire) (send env chain rpc wire)
    unfolding send call call_with_timeout
    send-Sends wire =
        Sends->>=
          (Sends->>= (Sends-request (wire_params wire) _)
            (λ done. Keeps->>= (Silent-Quiet (Silent-ask _)) (λ reply. Keeps-lift _)))
          (λ result. Keeps-lift _)

    submit-Sends :
        (wire expected : Bytes) → Sends (wire_params wire) (submit env chain rpc wire expected)
    unfolding submit
    submit-Sends wire expected = Sends->>= (send-Sends wire) (λ sent.
        Keeps->>= (Keeps-lift _) (λ same. Silent-Quiet (confirm-Silent env chain rpc expected)))

    submit-Within : (wire expected : Bytes) → Within 21 (submit env chain rpc wire expected)
    unfolding submit send confirm call
    submit-Within wire expected =
        Within->>= 1 20
          (Within->>= 1 0 (call_with_timeout-Within _ _ _) (λ result. Within-lift 0 _)
            (omega arith))
          (λ sent.
            Within->>= 0 20 (Within-lift 0 _)
              (λ same.
                Within->>= 0 20 (Within-answer 0 _) (λ now. poll-Within 20 _ expected)
                  (omega arith))
              (omega arith))
          (omega arith)

    outcome-ne-err :
        (signature : Bytes) (result : Result Bool) (message : String)
        → outcome_of env chain rpc signature result ≢ err message
    outcome-ne-err signature (ok true) message e = cc
    outcome-ne-err signature (ok false) message e = cc
    outcome-ne-err signature (err reason) message e = cc
    outcome-ne-err signature panicked message e = cc

    -- Whatever the server answers, submitting a transaction sends exactly that transaction, once; it
    -- makes at most 21 requests, and its result is no error.
    pub submit_and_confirm_bounded :
        (wire signature : Bytes) (w : World)
        → (let after = submit_and_confirm env chain rpc wire signature w in
            (sent after.1.log ≡ wire_params wire ∷ sent w.log)
            × (requests after.1.log ≤ requests w.log + 21)
            × ((message : String) → after.0 ≢ err message))
    unfolding submit_and_confirm ◌>>=◌ attempt
    submit_and_confirm_bounded wire signature w = (
      (Sends->>= (Sends-attempt (submit-Sends wire _))
            (λ result. Keeps-lift (outcome_of env chain rpc signature result))).at
          w,
      (Within->>= 21 0 (Within-attempt 21 (submit-Within wire _)) (λ result. Within-lift 0 _)
            (omega arith)).at
          w,
      λ message.
          handled (submit env chain rpc wire (chain.signature_text signature) w)
            (outcome_of env chain rpc signature) (outcome-ne-err signature),
    )

    pub submit_and_confirm-Sends :
        (wire signature : Bytes)
        → Sends (wire_params wire) (submit_and_confirm env chain rpc wire signature)
    submit_and_confirm-Sends wire signature = record {
      at = λ w. (submit_and_confirm_bounded wire signature w).0;
    }

    -- A submission keeps the settings.
    pub submit_and_confirm-Keeps :
        (wire signature : Bytes) → Keeps settings (submit_and_confirm env chain rpc wire signature)
    unfolding submit_and_confirm submit send call call_with_timeout
    submit_and_confirm-Keeps wire signature =
        Keeps->>=
          (Keeps-attempt _ (
            Keeps->>=
              (Keeps->>=
                (Keeps->>= (Keeps-emit _)
                  (λ done. Keeps->>= (Silent-settings (Silent-ask _)) (λ reply. Keeps-lift _)))
                (λ result. Keeps-lift _))
              (λ sent.
                Keeps->>= (Keeps-lift _)
                  (λ same. Silent-settings (confirm-Silent env chain rpc _)))))
          (λ result. Keeps-lift _)
