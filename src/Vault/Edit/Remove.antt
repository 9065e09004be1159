-- ===== src/Vault/Edit/Remove.antt =====
-- `recovery_phrase_use` and `remove_account` of src/vault.rs.
use solx.Common.{
  ℕ, zero, suc, ◌-◌, Bool, true, false, ◌&&◌, not, List, [], ◌∷◌, map, Bytes, get_elem?, erase_idx,
  length, Option, none, some, Result, ok, panicked, ◌>>=◌, ◌>>◌, fail_if, ok_or, or_panic, ltb,
  if◌then◌else◌,
}
use solx.Common.Eq.{◌==◌, nat_eq, list_eq}
use solx.Vault.{
  Vault, Master, Account, AccountKind, derived, imported, RecoveryPhraseUse, imported_key, shared,
  unused_after_deletion, account, max_masters,
}

-- `matches!(kind, Derived { master, .. } if self.masters[master].entropy == entropy)`
abbrev pub uses_phrase : List Master → Bytes → AccountKind → Result Bool
uses_phrase masters entropy (derived master index) = do
  m ← or_panic (get_elem? masters master)
  ok (m.entropy == entropy)
uses_phrase masters entropy (imported keypair) = ok false

-- The closure of `any`: `other.name != name && matches!(…)`
abbrev pub shares : List Master → Bytes → Bytes → Account → Result Bool
shares masters entropy name other =
    if not (other.name == name) then uses_phrase masters entropy other.kind else ok false

-- `any` stops at the first account that shares the phrase.
unfoldable pub shared_by_any : List Master → Bytes → Bytes → List Account → Result Bool
shared_by_any masters entropy name [] = ok false
shared_by_any masters entropy name (other ∷ rest) =
    let later = shared_by_any masters entropy name rest in
    do found ← shares masters entropy name other; if found then ok true else later

unfoldable pub use_of_kind : Vault → Bytes → AccountKind → Result RecoveryPhraseUse
use_of_kind v name (imported keypair) = ok imported_key
use_of_kind v name (derived master index) = do
  m ← or_panic (get_elem? v.masters master)
  found ← shared_by_any v.masters m.entropy name v.accounts
  ok (if found then shared else unused_after_deletion)

unfoldable pub recovery_phrase_use : Vault → Bytes → Result RecoveryPhraseUse
recovery_phrase_use v name = do a ← account v name; use_of_kind v name a.kind

abbrev pub is_unused : RecoveryPhraseUse → Bool
is_unused imported_key = false
is_unused shared = false
is_unused unused_after_deletion = true

-- `accounts.iter().position(|a| a.name == name)`
unfoldable pub position : Bytes → List Account → Option ℕ
position name [] = none
position name (a ∷ rest) =
    if a.name == name
    then some 0
    else (elim (position name rest) [ none ↦ none | some i ↦ some (suc i) ])

-- The array `erase`. Its 32 slots are indexed by every master, which panics beyond them.
abbrev pub erase_flags : Bool → List Master → AccountKind → Result (List Bool)
erase_flags true masters (derived master index) = do
  m ← or_panic (get_elem? masters master)
  ok (map (λ candidate. candidate.entropy == m.entropy) masters)
erase_flags true masters (imported keypair) = ok (map (λ candidate. false) masters)
erase_flags false masters kind = ok (map (λ candidate. false) masters)

-- `if *master > index { *master -= 1 }`
abbrev pub renumber_kind : ℕ → AccountKind → AccountKind
renumber_kind i (derived master index) = derived (if ltb i master then master - 1 else master) index
renumber_kind i (imported keypair) = imported keypair

abbrev pub renumber : ℕ → Account → Account
renumber i a = record a { kind = renumber_kind i a.kind }

abbrev pub flagged : List Bool → ℕ → Bool
flagged flags i = elim (get_elem? flags i) [ none ↦ false | some flag ↦ flag ]

abbrev pub panic_if : Bool → Result (Unit {0})
panic_if true = panicked
panic_if false = ok tt

-- The body of the loop at one index.
unfoldable pub erase_at : ℕ → List Master × List Account → List Master × List Account
erase_at i (masters, accounts) = (erase_idx masters i, map (renumber i) accounts)

-- `for index in (0..masters.len()).rev() { if erase[index] { … } }`
unfoldable pub erase_masters :
    List Bool → ℕ → List Master × List Account → List Master × List Account
unfolding erase_at
erase_masters flags zero state = state
erase_masters flags (suc i) state =
    erase_masters flags i (if flagged flags i then erase_at i state else state)

unfoldable pub remove_account : Vault → Bytes → Bool → Result Vault
remove_account v name erase_phrase = do
  usage ← recovery_phrase_use v name
  fail_if (erase_phrase && not (is_unused usage))
      "recovery phrase is still used or this wallet has no recovery phrase"
  i ← ok_or (position name v.accounts) "unknown wallet"
  a ← or_panic (get_elem? v.accounts i)
  panic_if (ltb max_masters (length v.masters))
  flags ← erase_flags erase_phrase v.masters a.kind
  let (masters, accounts) =
      erase_masters flags (length v.masters) (v.masters, erase_idx v.accounts i)
  ok (record v { masters = masters; accounts = accounts })
