-- ===== src/Vault/Audit/Edits.antt =====
-- The count of settings edits in src/vault.rs.
use solx.Common.{ℕ, ◌+◌, ◌^◌, ◌≤◌, ◌<◌, ◌≡◌, ◌↔◌, ok, arith}
use solx.Common.Eq.{nat_eq, bool_beq}
use solx.Vault.{ConfigAudit}
use solx.Vault.Audit.{validate_audit, record_edit}

-- An audit that a file may hold: no edit and no time, or some edits and the time of the last, no
-- later than the end of the year 9999.
abbrev pub IsAudit : ConfigAudit → Type 0
IsAudit a = ((a.edits ≡ 0) ↔ (a.last_edit_unix ≡ 0)) × (a.last_edit_unix ≤ 253_402_300_799)

-- `validate` accepts exactly the audits that are consistent and end before the year 10000.
pub validate_audit_iff : (a : ConfigAudit) → (validate_audit a ≡ ok tt) ↔ IsAudit a
unfolding validate_audit bool_beq
validate_audit_iff a = ground arith

-- Recording an edit succeeds exactly when the clock reads a time after the epoch, not before the last
-- edit and before the year 10000, and the counter has room; it then counts one edit at that time.
pub record_edit_iff :
    (a after : ConfigAudit) (now : ℕ)
    → (record_edit a now ≡ ok after) ↔ (
        (0 < now)
        × (a.last_edit_unix ≤ now)
        × (now ≤ 253_402_300_799)
        × (a.edits + 1 < 2 ^ 64)
        × (after.edits ≡ a.edits + 1)
        × (after.last_edit_unix ≡ now))
unfolding record_edit validate_audit bool_beq
record_edit_iff a after now = ground arith
