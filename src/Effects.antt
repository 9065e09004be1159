-- ===== src/Effects.antt =====
-- The outside of the program: the answers of the network, the terminal, the clock and the disk, and
-- the log of what the program asks for. An action of the source is a function on this state; every
-- answer is read at a moment of its own, so that two calls may be answered differently.
pub mod Runs
pub mod Keeps
pub mod Counts
pub mod Sending
pub mod Writing
pub mod Revealing
use solx.Common.{
  ℕ, zero, suc, ◌+◌, Bool, List, [], ◌∷◌, ◌++◌, Bytes, String, Option, none, some, Result, ok, err,
  panicked,
}
use solx.Config.{Config}
use solx.Vault.Session.{Session, Disk, Faults}

-- What the `json!` macro builds.
mutual
  pub data Doc : Type 0 where
    text : Bytes → Doc
    number : ℕ → Doc
    boolean : Bool → Doc
    array : Docs → Doc
    object : Fields → Doc

  pub data Docs : Type 0 where
    nil : Docs
    cons : Doc → Docs → Docs

  pub data Fields : Type 0 where
    end : Fields
    field : Bytes → Doc → Fields → Fields

-- The methods of the JSON-RPC server.
pub data Method : Type 0 where
  get_genesis_hash get_balance get_account_info get_token_account_balance : Method
  get_token_supply get_latest_blockhash get_block_height get_fee_for_message : Method
  get_token_accounts_by_owner get_signatures_for_address simulate_transaction : Method
  send_transaction get_signature_statuses get_minimum_balance : Method

-- What the program does that can be seen from outside.
pub data Event : Type 0 where
  -- a request of the client, with its timeout in nanoseconds
  request : Method → Doc → ℕ → Event
  -- the summary before the approval: the network fee, the rent, and the amount of a transfer of
  -- everything
  preview : ℕ → ℕ → Option ℕ → Event
  -- a question that a typed line answers
  question : Bytes → Event
  -- a secret that is printed
  reveal : Bytes → Event

-- An HTTP response: whether its status is a success, and its body.
pub record Reply : Type 0 where
  pub success : Bool
  pub body : Bytes

-- The answers at each moment.
pub record Env : Type 0 where
  pub reply : ℕ → Result Reply
  -- `read_bounded_line`
  pub line : ℕ → Result (Option Bytes)
  -- `secret::prompt`
  pub password : ℕ → Result Bytes
  -- `vault::fresh_entropy`
  pub entropy : ℕ → Result Bytes
  pub prepare_memlock : ℕ → Result (Unit {0})
  -- `Instant::now`, in nanoseconds
  pub instant : ℕ → ℕ
  pub faults : ℕ → Faults

-- `App` of src/main.rs
pub record App : Type 0 where
  pub config : Config
  pub session : Option Session
  pub shell : Bool
  pub last_history : Option ℕ

pub record World : Type 0 where
  pub moment : ℕ
  pub app : App
  pub disk : Disk
  -- the newest event first
  pub log : List Event

abbrev pub Effect : Type 0 → Type 0
Effect A = World → Result A × World

-- `?`: what follows an action that returned.
abbrev pub continue : {A B : Type 0} → Result A × World → (A → Effect B) → Result B × World
continue (ok a, w) next = next a w
continue (err message, w) next = (err message, w)
continue (panicked, w) next = (panicked, w)

infixl 5 ◌>>=◌ ◌>>◌
unfoldable pub ◌>>=◌ : {A B : Type 0} → Effect A → (A → Effect B) → Effect B
◌>>=◌ first next w = continue (first w) next

abbrev pub ◌>>◌ : {B : Type 0} → Effect (Unit {0}) → Effect B → Effect B
first >> next = first >>= λ done. next

unfoldable pub lift : {A : Type 0} → Result A → Effect A
lift r w = (r, w)

unfoldable pub pure : {A : Type 0} → A → Effect A
pure a w = (ok a, w)

-- The result of an action as a value; a panic goes on.
abbrev pub result_of : {A : Type 0} → Result A × World → Result (Result A) × World
result_of (ok a, w) = (ok (ok a), w)
result_of (err message, w) = (ok (err message), w)
result_of (panicked, w) = (panicked, w)

unfoldable pub attempt : {A : Type 0} → Effect A → Effect (Result A)
attempt action w = result_of (action w)

unfoldable pub emit : Event → Effect (Unit {0})
emit e w = (ok tt, record w { log = e ∷ w.log })

unfoldable pub the_app : Effect App
the_app w = (ok w.app, w)

unfoldable pub update_app : (App → App) → Effect (Unit {0})
update_app f w = (ok tt, record w { app = f w.app })

-- An answer of the environment takes a moment.
unfoldable pub answer : {A : Type 0} → (ℕ → A) → Effect A
answer f w = (ok (f w.moment), record w { moment = w.moment + 1 })

unfoldable pub ask : {A : Type 0} → (ℕ → Result A) → Effect A
ask f w = (f w.moment, record w { moment = w.moment + 1 })

-- A call on the vault file.
unfoldable pub access : {A : Type 0} → (ℕ → Disk → Result A × Disk) → Effect A
access f w =
    let (result, disk) = f w.moment w.disk in
    (result, record w { moment = w.moment + 1; disk = disk })
