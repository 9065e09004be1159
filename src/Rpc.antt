-- ===== src/Rpc.antt =====
-- The JSON-RPC client of src/rpc.rs.
pub mod Genesis
pub mod Values
pub mod Responses
pub mod Connection
pub mod Client
