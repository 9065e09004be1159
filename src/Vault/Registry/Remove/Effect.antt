-- ===== src/Vault/Registry/Remove/Effect.antt =====
-- What `remove_account` of src/vault.rs does to the registry and to the masters.
use solx.Common.{
  ℕ, ◌≡◌, refl, ap, ◌∙◌, ◌⊎◌, inl, inr, Bool, true, false, List, [], ◌∷◌, Bytes, length, take, drop,
  append-nil, erase_idx, some, ok,
}
use solx.Vault.{Vault, Account, Master, find_name}
use solx.Vault.Phrase.{Crypto}
use solx.Vault.Edit.Remove.{position, remove_account}
use solx.Vault.Valid.{IsValid}
use solx.Vault.Registry.{phrase_at, origin, registry, remove_entry}
use solx.Vault.Registry.Erase.{
  Unused, without_phrase, entries-erase_masters, masters-erase_masters, erase_masters-none,
}
use solx.Vault.Registry.Remove.Position.{erase_idx-position, entries-erase_idx, All-erase_idx}
use solx.Vault.Registry.Remove.Account.{Erasable, Unused-rest, removal}

pub Unused-after :
    (c : Crypto) (v : Vault) (name : Bytes) (a : Account) (i : ℕ)
    → IsValid c v
    → position name v.accounts ≡ some i
    → (found : Erasable v name a) → Unused (found.m.entropy) v.masters (erase_idx v.accounts i)
Unused-after c v name a i valid at found =
    Unused-rest found.m.entropy name v.masters (erase_idx v.accounts i)
      (All-erase_idx _ v.accounts i found.free)
      (erase_idx-position name v.accounts i valid.names_differ at)

-- Removing a wallet from a valid vault takes its entry out of the registry and changes no other:
-- each remaining wallet keeps its place, name, address and secret, although erasing a phrase
-- renumbers the masters under the accounts.
pub registry-remove_account :
    (c : Crypto) (v v' : Vault) (name : Bytes) (erase : Bool)
    → IsValid c v
    → remove_account v name erase ≡ ok v'
    → registry v' ≡ remove_entry name (registry v)
registry-remove_account c v v' name erase valid e =
    let r = removal c v v' name erase valid e in
    let less = erase_idx v.accounts r.i in
    rw (r.shape) (elim r.plan [
      | inl (_, clear) ↦
          rw (erase_masters-none r.flags (length v.masters) (v.masters, less) clear)
            (entries-erase_idx v.masters name v.accounts r.i r.at)
      | inr (_, found, marks) ↦
          entries-erase_masters found.m.entropy r.flags (length v.masters) v.masters less marks
            (Unused-after c v name r.a r.i valid r.at found)
          ∙ entries-erase_idx v.masters name v.accounts r.i r.at
    ])

take_all : (masters : List Master) → take (length masters) masters ≡ masters
take_all [] = refl
take_all (m ∷ rest) = ap (λ l. m ∷ l) (take_all rest)

drop_all : (masters : List Master) → drop (length masters) masters ≡ []
drop_all [] = refl
drop_all (m ∷ rest) = drop_all rest

-- The masters after a removal, with and without the wish to erase the phrase.
abbrev pub KeepsOrErases : Vault → Vault → Bytes → Bool → Type 0
KeepsOrErases v v' name erase =
    ((erase ≡ false) × (v'.masters ≡ v.masters))
    ⊎ ((erase ≡ true)
        × (a : Account) × (target : Bytes) × (index : ℕ) × (find_name name v.accounts ≡ some a)
        × (origin v.masters a.kind ≡ phrase_at target index)
        × (v'.masters ≡ without_phrase target v.masters))

-- Removing a wallet keeps every master when `erase` is off; when it is on, the wallet was derived
-- from a phrase, and exactly the masters that hold a copy of that phrase are gone, the others in
-- their order.
pub masters-remove_account :
    (c : Crypto) (v v' : Vault) (name : Bytes) (erase : Bool)
    → IsValid c v
    → remove_account v name erase ≡ ok v'
    → KeepsOrErases v v' name erase
masters-remove_account c v v' name erase valid e =
    let r = removal c v v' name erase valid e in
    let less = erase_idx v.accounts r.i in
    elim r.plan [
      | inl (spared, clear) ↦ inl (
        spared,
        rw (r.shape, erase_masters-none r.flags (length v.masters) (v.masters, less) clear),
      )
      | inr (wanted, found, marks) ↦ inr (
        wanted,
        r.a,
        found.m.entropy,
        found.index,
        r.stored,
        rw (found.kind, found.stored),
        rw r.shape (
            masters-erase_masters found.m.entropy r.flags (length v.masters) v.masters less marks
            ∙ rw (
              take_all v.masters,
              drop_all v.masters,
              append-nil (without_phrase found.m.entropy v.masters),
            )),
      )
    ]
