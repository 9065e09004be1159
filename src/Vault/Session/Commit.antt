-- ===== src/Vault/Session/Commit.antt =====
-- The commit of a save in src/vault.rs: the calls that may fail, and what they leave.
use solx.Common.{
  map_err, ◌≡◌, ◌≢◌, refl, sym, ap, ◌∙◌, ◌⊎◌, inl, inr, Option-cases, false, not, [], ◌++◌, String,
  Bytes, take, Option, none, some, Result, ok, err, panicked, >>=-eq-ok, fail_if, fail_if-eq-ok,
  ok_or-eq-ok, ok_inj, ltb, length, arith, ok_or,
}
use solx.Common.Eq.{◌==◌, nat_eq, list_eq, list_beq_iff}
use solx.Vault.{Vault, ConfigAudit}
use solx.Secret.{LockedBytes}
use solx.Vault.Header.{encode, max_file}
use solx.Vault.Codec.Encode.{encode_with_audit}
use solx.Vault.Session.{Crates, Session, Disk, Faults, call, read_file, read_stored}
use solx.Vault.Session.Save.{
  next_audit, vacant, expect_source, Outcome, clean, committed, renamed, sync_directory,
  rename_step, sync_step, write_step, create_step, replace_file, prepare, save_prepared, save,
}

-- The temporary file that is left: as it was, none, or one whose removal failed.
abbrev pub Leaves : Faults → Option Bytes → Option Bytes → Type 0
Leaves faults before after = (after ≡ before) ⊎ ((after ≡ none) ⊎ (faults.remove ≢ none))

-- Nothing happened: the call failed, the vault and the file are as before, and a temporary file was
-- not touched or is gone, unless its removal failed.
abbrev pub Untouched : Faults → Vault → Disk → Outcome → Type 0
Untouched faults v disk o =
    (o.result ≢ ok tt)
    × (o.vault ≡ v)
    × (o.disk.file ≡ disk.file)
    × Leaves faults disk.temporary o.disk.temporary

-- The file is the new one; only the flushing of the directory may have failed.
abbrev pub Replaced : Vault → Bytes → ConfigAudit → Outcome → Type 0
Replaced v encrypted audit o =
    (o.vault ≡ committed v encrypted audit)
    × (o.disk ≡ renamed encrypted)
    × ((o.result ≡ ok tt) ⊎ (o.result ≡ err "vault saved, but directory sync failed"))

some-ne-none : {a : String} → some a ≢ none
some-ne-none e = cc

-- An error before the renaming, at a disk that differs in the temporary file at most.
clean-Untouched :
    (faults : Faults) (message : String) (v : Vault) (disk : Disk) (left : Option Bytes)
    → Untouched faults v disk (clean faults.remove message v (record disk { temporary = left }))
clean-Untouched faults message v disk left = elim (Option-cases faults.remove) [
  | inl fine ↦ rw fine ((λ e. cc), refl, refl, inr (inl refl))
  | inr (reason, broken) ↦ rw broken ((λ e. cc), refl, refl, inr (inr some-ne-none))
]

module _ (faults : Faults) (encrypted : Bytes) (audit : ConfigAudit) (v : Vault) where
  abbrev Swapped : Disk → Outcome → Type 0
  Swapped disk o = Untouched faults v disk o ⊎ Replaced v encrypted audit o

  sync_directory-Replaced :
      (call : Option String)
      → Replaced v encrypted audit
          (sync_directory faults call (committed v encrypted audit) (renamed encrypted))
  sync_directory-Replaced none = (refl, refl, inl refl)
  sync_directory-Replaced (some message) = elim (Option-cases faults.remove) [
    | inl fine ↦ rw fine (refl, refl, inr refl)
    | inr (reason, broken) ↦ rw broken (refl, refl, inr refl)
  ]

  -- Each step, from a disk that differs in the temporary file at most.
  abbrev StepSwaps : (Option String → Disk → Outcome) → Type 0
  StepSwaps step =
      (call : Option String) (disk : Disk) (left : Option Bytes)
      → Swapped disk (step call (record disk { temporary = left }))

  rename_step-Swapped : StepSwaps (λ call disk. rename_step faults call encrypted audit v disk)
  rename_step-Swapped none disk left = inr (sync_directory-Replaced faults.directory_sync)
  rename_step-Swapped (some message) disk left = inl (clean-Untouched faults message v disk left)

  sync_step-Swapped : StepSwaps (λ call disk. sync_step faults call encrypted audit v disk)
  sync_step-Swapped none disk left = rename_step-Swapped faults.rename disk left
  sync_step-Swapped (some message) disk left = inl (clean-Untouched faults message v disk left)

  write_step-Swapped : StepSwaps (λ call disk. write_step faults call encrypted audit v disk)
  write_step-Swapped none disk left = sync_step-Swapped faults.file_sync disk (some encrypted)
  write_step-Swapped (some message) disk left =
      inl (clean-Untouched faults message v disk (some (take faults.written encrypted)))

  create_step-Swapped :
      (call : Option String) (disk : Disk)
      → Swapped disk (create_step faults call encrypted audit v disk)
  create_step-Swapped none disk = write_step-Swapped faults.write disk (some [])
  create_step-Swapped (some message) disk =
      inl (clean-Untouched faults message v disk disk.temporary)

read_file-ok :
    (faults : Faults) (bytes stored : Bytes) → read_file faults bytes ≡ ok stored → stored ≡ bytes
unfolding read_file
read_file-ok faults bytes stored e =
    let (_, _, k) = >>=-eq-ok (fail_if (ltb max_file (length bytes)) _) _ e in
    let (_, _, k') = >>=-eq-ok (call faults.private) _ k in sym (ok_inj k')

vacant-ok : (file : Option Bytes) → vacant file ≡ ok tt → file ≡ none
vacant-ok none e = refl
vacant-ok (some bytes) e = cc

-- The check passes only if the file is the one that the vault came from.
expect_source-ok :
    (faults : Faults) (disk : Disk) (source : Option Bytes)
    → expect_source faults disk source ≡ ok tt
    → disk.file ≡ source
unfolding expect_source read_stored
expect_source-ok faults disk none e =
    let (_, _, k) = >>=-eq-ok (call faults.access) _ e in vacant-ok disk.file k
expect_source-ok faults disk (some original) e =
    let (stored, e1, k1) = >>=-eq-ok (read_stored faults disk) _ e in
    let (_, _, k2) = >>=-eq-ok (call faults.access) _ e1 in
    let (bytes, e3, k3) = >>=-eq-ok (ok_or disk.file "no such file") _ k2 in
    let present : disk.file ≡ some bytes = ok_or-eq-ok disk.file _ e3 in
    let read : stored ≡ bytes = read_file-ok faults bytes stored k3 in
    let checked : not (stored == original) ≡ false = fail_if-eq-ok _ _ k1 in
    let same : stored ≡ original = ground (arith, list_beq_iff stored original) in
    present ∙ ap some (sym read ∙ same)

-- What a preparation that succeeded did.
pub record Parts (crates : Crates) (session : Session) (faults : Faults) (v : Vault) (disk : Disk)
    (encrypted : Bytes) (audit : ConfigAudit) : Type 0 where
  pub nonce : Bytes
  pub plain : LockedBytes
  pub sealed : LockedBytes
  pub counted : next_audit faults v ≡ ok audit
  pub random : faults.nonce ≡ ok nonce
  pub encoded : encode_with_audit crates.parsers crates.json v audit ≡ ok plain
  pub locked :
      map_err
        (crates.aead.encrypt_in_place session.key nonce
          (encode (record session.header { nonce = nonce }))
          plain)
        "vault encryption failed"
      ≡ ok sealed
  pub current : disk.file ≡ v.source_bytes
  pub text : encrypted ≡ encode (record session.header { nonce = nonce }) ++ sealed.bytes

pub prepare-ok :
    (crates : Crates) (session : Session) (faults : Faults) (v : Vault) (disk : Disk)
    (encrypted : Bytes) (audit : ConfigAudit)
    → prepare crates session faults v disk ≡ ok (encrypted, audit)
    → Parts crates session faults v disk encrypted audit
unfolding prepare
prepare-ok crates session faults v disk encrypted audit e =
    let (audit', e1, k1) = >>=-eq-ok (next_audit faults v) _ e in
    let (nonce, e2, k2) = >>=-eq-ok faults.nonce _ k1 in
    let (plain, e3, k3) = >>=-eq-ok (encode_with_audit crates.parsers crates.json v audit') _ k2 in
    let header = encode (record session.header { nonce = nonce }) in
    let (sealed, e4, k4) =
      >>=-eq-ok
        (map_err (crates.aead.encrypt_in_place session.key nonce header plain)
          "vault encryption failed")
        _ k3 in
    let (_, _, k5) = >>=-eq-ok (call faults.directory) _ k4 in
    let (_, _, k6) = >>=-eq-ok (call faults.lock) _ k5 in
    let (_, e7, k7) = >>=-eq-ok (expect_source faults disk v.source_bytes) _ k6 in
    let (_, _, k8) = >>=-eq-ok (call faults.name) _ k7 in
    let pair = ok_inj k8 in
    record {
      nonce = nonce;
      plain = plain;
      sealed = sealed;
      counted = e1 ∙ ap (λ p. ok (p.1)) pair;
      random = e2;
      encoded = ap (λ p. encode_with_audit crates.parsers crates.json v (p.1)) (sym pair) ∙ e3;
      locked = e4;
      current = expect_source-ok faults disk v.source_bytes e7;
      text = ap (λ p. p.0) (sym pair);
    }

-- Nothing happened, or the file that the vault came from was replaced as a whole.
abbrev pub SavesAtomically : Crates → Session → Faults → Vault → Disk → Outcome → Type 0
SavesAtomically crates session faults v disk o =
    Untouched faults v disk o
    ⊎ ((encrypted : Bytes) × (audit : ConfigAudit) × (prepare crates session faults v disk
          ≡ ok (encrypted, audit))
        × (disk.file ≡ v.source_bytes)
        × (next_audit faults v ≡ ok audit)
        × Replaced v encrypted audit o)

-- Whichever calls fail, a save either fails and leaves the vault and the file as they were, and the
-- temporary file as it was, or none, unless the removal of it failed too; or it replaces the whole file, which was then exactly what the vault had
-- been loaded from (or absent, for a new vault), by the new text, and the vault in memory is marked
-- as that text, with the audit of this edit, even if the directory could not be flushed.
pub save_atomic :
    (crates : Crates) (session : Session) (faults : Faults) (v : Vault) (disk : Disk)
    → SavesAtomically crates session faults v disk (save crates session faults v disk)
unfolding save replace_file
save_atomic crates session faults v disk = go (prepare crates session faults v disk) refl
  where
    go :
        (p : Result (Bytes × ConfigAudit))
        → prepare crates session faults v disk ≡ p
        → (let o = save_prepared crates faults p v disk in
            Untouched faults v disk o
            ⊎ ((encrypted : Bytes) × (audit : ConfigAudit) × (p ≡ ok (encrypted, audit))
                × (disk.file ≡ v.source_bytes)
                × (next_audit faults v ≡ ok audit)
                × Replaced v encrypted audit o))
    go (ok (encrypted, audit)) e =
        elim (create_step-Swapped faults encrypted audit v faults.create disk) [
          | inl untouched ↦ inl untouched
          | inr replaced ↦
              let parts = prepare-ok crates session faults v disk encrypted audit e in
              inr (encrypted, audit, refl, parts.current, parts.counted, replaced)
        ]
    go (err message) e = inl ((λ p. cc), refl, refl, inl refl)
    go panicked e = inl ((λ p. cc), refl, refl, inl refl)
