-- ===== src/Vault/Session/Counted.antt =====
-- Which saves of src/vault.rs count as an edit of the settings.
use solx.Common.{
  ℕ, ◌+◌, ◌≤◌, ◌≡◌, refl, sym, ◌⊎◌, inl, inr, Bool-cases, true, false, some, ok, >>=-eq-ok, ok_inj,
}
use solx.Vault.{Vault, ConfigAudit}
use solx.Vault.Audit.Edits.{record_edit_iff}
use solx.Vault.Session.{Crates, Session, Disk, Faults}
use solx.Vault.Session.Save.{settings_changed, next_audit, save}
use solx.Vault.Session.Commit.{save_atomic}

-- What one save does to the audit: an edit at the time of the clock, or nothing.
abbrev pub CountsEdit : Faults → ConfigAudit → ConfigAudit → Type 0
CountsEdit faults before after =
    (now : ℕ) × (faults.clock ≡ ok now)
    × (before.last_edit_unix ≤ now)
    × (after.edits ≡ before.edits + 1)
    × (after.last_edit_unix ≡ now)

next_audit-ok :
    (faults : Faults) (v : Vault) (audit : ConfigAudit)
    → next_audit faults v ≡ ok audit
    → ((settings_changed v.config v.saved_config ≡ true) × CountsEdit faults v.config_audit audit)
      ⊎ ((settings_changed v.config v.saved_config ≡ false) × (audit ≡ v.config_audit))
unfolding next_audit
next_audit-ok faults v audit e = elim (Bool-cases (settings_changed v.config v.saved_config)) [
  | inl changed ↦
      let (now, clock, edit) = >>=-eq-ok faults.clock _ (rw changed at e) in
      let (_, after, _, _, one, time) = (record_edit_iff v.config_audit audit now).0 edit in
      inl (changed, (now, clock, after, one, time))
  | inr same ↦ inr (same, sym (ok_inj (rw same at e)))
]

-- A save that returned ok counts one edit, at the time of the clock and not before the last one, when
-- the settings differ from those that were loaded or last saved; when they are the same, or none were
-- stored, the audit stays. Either way the settings in memory become the baseline.
pub save_counts :
    (crates : Crates) (session : Session) (faults : Faults) (v : Vault) (disk : Disk)
    → (save crates session faults v disk).result ≡ ok tt
    → (let v' = (save crates session faults v disk).vault in
        (v'.saved_config ≡ some v.config)
        × (((settings_changed v.config v.saved_config ≡ true)
              × CountsEdit faults v.config_audit v'.config_audit)
            ⊎ ((settings_changed v.config v.saved_config ≡ false)
                × (v'.config_audit ≡ v.config_audit))))
save_counts crates session faults v disk e = elim (save_atomic crates session faults v disk) [
  | inl untouched ↦ absurd (untouched.0 e)
  | inr (encrypted, audit, ready, _, counted, (vault, _, _)) ↦
      rw vault (refl, next_audit-ok faults v audit counted)
]
