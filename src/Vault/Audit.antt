-- ===== src/Vault/Audit.antt =====
-- `ConfigAudit` of src/vault.rs: the authenticated count of settings edits.
pub mod Edits
use solx.Common.{
  ℕ, ◌+◌, ◌-◌, ◌^◌, ◌≤◌, ◌<◌, ◌≡◌, ◌≢◌, Bool, true, false, ◌||◌, not, Option, none, some, Result,
  ok, err, panicked, ◌>>=◌, ◌>>◌, fail_if, ok_or, ltb, ◌==◌, if◌then◌else◌, arith,
}
use solx.Common.Eq.{bool_beq}
use solx.Vault.{ConfigAudit}

unfoldable pub last_edit : ConfigAudit → Option ℕ
last_edit a = if not (a.edits == 0) then some a.last_edit_unix else none

unfoldable pub validate_audit : ConfigAudit → Result (Unit {0})
unfolding bool_beq
validate_audit a =
    fail_if
      (not (bool_beq (a.edits == 0) (a.last_edit_unix == 0))
        || ltb 253_402_300_799 a.last_edit_unix)
      "invalid authenticated settings history"

-- `u64::checked_add(1)`
abbrev pub checked_next : ℕ → Option ℕ
checked_next n = if ltb (n + 1) (2 ^ 64) then some (n + 1) else none

unfoldable pub record_edit : ConfigAudit → ℕ → Result ConfigAudit
unfolding validate_audit
record_edit a now = do
  fail_if (now == 0 || ltb now a.last_edit_unix)
      "system clock is earlier than the last settings edit; correct the clock before saving"
  edits ← ok_or (checked_next a.edits) "settings edit counter exhausted"
  let after : ConfigAudit = record { edits = edits; last_edit_unix = now }
  validate_audit after
  ok after
