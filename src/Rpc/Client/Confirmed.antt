-- ===== src/Rpc/Client/Confirmed.antt =====
-- When a submission of src/rpc.rs is reported as confirmed.
use solx.Common.{ℕ, ◌≡◌, true, Bytes, ok}
use solx.Common.Eq.{nat_eq, list_eq}
use solx.Effects.{Reply, Env, ◌>>=◌}
use solx.Rpc.Values.{Chain}
use solx.Rpc.Connection.{Rpc}
use solx.Rpc.Responses.{decode_response, signature_of, status_of}

module _ (env : Env) (chain : Chain) (rpc : Rpc) where
  -- A moment at which the server answered that the transaction is confirmed.
  abbrev pub WasConfirmed : Type 0
  WasConfirmed =
      (moment : ℕ) × (reply : Reply) × (result : Bytes) × (env.reply moment ≡ ok reply)
      × (decode_response chain reply ≡ ok result)
      × (status_of chain result ≡ ok true)

  -- The server answered the submission at `moment` with this text of a signature.
  abbrev pub WasAccepted : ℕ → Bytes → Type 0
  WasAccepted moment expected =
      (reply : Reply) × (result : Bytes) × (env.reply moment ≡ ok reply)
      × (decode_response chain reply ≡ ok result)
      × (signature_of chain result ≡ ok expected)
