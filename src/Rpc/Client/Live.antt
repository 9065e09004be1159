-- ===== src/Rpc/Client/Live.antt =====
-- When a submission of src/rpc.rs is confirmed.
use solx.Common.Eq.{nat_eq, list_eq}
use solx.Rpc.Connection.{Rpc}
