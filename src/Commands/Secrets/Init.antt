-- ===== src/Commands/Secrets/Init.antt =====
-- The command `init` of src/commands.rs, and what it writes.
use solx.Common.{
  ℕ, ◌≡◌, ◌≤◌, ◌+◌, refl, sym, ap, ◌∙◌, ◌⊎◌, inl, inr, Bool, true, false, not, ◌&&◌, List, [], ◌∷◌,
  length, Bytes, ascii, some, Result, ok, err, panicked, fail_if, fail_if-eq-ok, >>=-eq-ok, ltb,
  arith,
}
use mathlib.Core.Path.{subst}
use solx.Common.Eq.{◌==◌, nat_eq, list_eq}
use solx.Config.{valid_name}
use solx.Vault.{Vault, default_vault, account}
use solx.Vault.Phrase.{phrase}
use solx.Vault.Edit.{add_master}
use solx.Vault.Session.{Crates, Session, Disk}
use solx.Vault.Session.Save.{Outcome, has_file, new_session, save_new, save, create}
use solx.Effects.{
  reveal, Env, App, World, Effect, ◌>>=◌, ◌>>◌, lift, pure, emit, the_app, update_app, ask, access,
}
use solx.Effects.Runs.{
  Returns, Returns-split, Returns-lift, Returns-pure, Returns-ask, Returns-access, Returns-the_app,
}
use solx.Effects.Keeps.{Keeps-lift, Keeps-pure, Keeps->>=}
use solx.Effects.Writing.{
  storage, Calm, Calm-emit, Calm-ask, Calm-the_app, Calm-update_app, OnlyWrites, OnlyChanges->>=,
  OnlyChanges-lift, OnlyChanges->>=-Keeps, OnlyChanges-implies,
}
use solx.Commands.Send.Signed.{passed, equal, not-false}
use solx.App.{done, cached, when}
use solx.Commands.Secrets.{Sources}

abbrev pub init_name : List Bytes → Result Bytes
init_name [] = ok (ascii "main")
init_name (name ∷ []) = ok name
init_name _ = err "usage: solx init [NAME]"

abbrev pub made_with : Result Session × Outcome → Result (Session × Vault) × Disk
made_with (ok session, o) = (ok (session, o.vault), o.disk)
made_with (err message, o) = (err message, o.disk)
made_with (panicked, o) = (panicked, o.disk)

module _ (sources : Sources) (env : Env) (crates : Crates) where
  -- `Session::create`
  unfoldable pub create_vault : Bytes → Vault → Effect (Session × Vault)
  unfolding create
  create_vault password v = access (λ moment disk.
      made_with (create crates (sources.salt moment) (env.faults moment) password v disk))

  abbrev pub keep_session : Session → Effect (Unit {0})
  keep_session session = do
    app ← the_app
    when (app.shell && cached app) (update_app (λ app. record app { session = some session }))

  -- The password, typed twice.
  unfoldable pub new_password : Effect Bytes
  new_password = do
    password ← ask env.password
    confirmation ← ask env.password
    lift (fail_if (not (password == confirmation)) "passwords do not match")
    lift (fail_if (ltb (length password) 12) "password must be at least 12 bytes")
    pure password

  unfoldable pub init : List Bytes → Effect (Unit {0})
  unfolding valid_name phrase add_master create_vault account new_password
  init args = do
    name ← lift (init_name args)
    lift (fail_if (not (valid_name name)) "invalid wallet name")
    found ← access (λ moment disk. (ok (has_file crates disk.file), disk))
    lift (fail_if found "vault already exists")
    ask env.prepare_memlock
    password ← new_password
    entropy ← ask env.entropy
    text ← lift (phrase crates.crypto entropy)
    app ← the_app
    v ← lift (
        add_master crates.crypto (record (default_vault app.config.vault) { config = app.config })
          name entropy)
    made ← create_vault password v
    a ← lift (account made.1 name)
    emit (reveal text)
    keep_session made.0

  -- A password of at least 12 bytes that was typed at this moment, and again at the next.
  abbrev pub IsNewPassword : ℕ → Bytes → Type 0
  IsNewPassword moment password =
      (12 ≤ length password)
      × (env.password moment ≡ ok password)
      × (env.password (moment + 1) ≡ ok password)

  at_least : (n : ℕ) → ltb n 12 ≡ false → 12 ≤ n
  at_least n e = ground arith

  new_password-Returns :
      (w : World) {password : Bytes} {after : World}
      → Returns new_password w password after
      → IsNewPassword w.moment password × (after.moment ≡ w.moment + 1 + 1) × (after.app ≡ w.app)
  unfolding new_password
  new_password-Returns w e = Returns-split _ _ w e (λ first w1 e1 r1.
      Returns-split _ _ w1 r1 (λ second w2 e2 r2. Returns-split _ _ w2 r2 (λ same w3 e3 r3.
        Returns-split _ _ w3 r3 (λ long w4 e4 r4.
          let (typed, moved) = Returns-ask env.password w e1 in
          let (again, moved') = Returns-ask env.password w1 e2 in
          let (password_of, still) = Returns-pure first w4 r4 in
          let ends =
            still
            ∙ (Returns-lift _ w3 e4).1
            ∙ (Returns-lift _ w2 e3).1
            ∙ moved'
            ∙ ap (λ (v : World). record v { moment = v.moment + 1 }) moved in
          (
            subst (IsNewPassword w.moment) password_of (
              at_least (length first) (passed _ _ w3 e4),
              typed,
              sym (ap (λ (v : World). env.password v.moment) moved)
                  ∙ again
                  ∙ ap ok (sym (equal first second _ w2 e3)),
            ),
            ap (λ (v : World). v.moment) ends,
            ap (λ (v : World). v.app) ends,
          )))))

  -- The first save of a vault, where there was no file.
  pub record IsCreated (password : Bytes) (v : Vault) (moment : ℕ) (before after : Disk)
      : Type 0 where
    pub session : Session
    pub absent : has_file crates before.file ≡ false
    pub started : new_session crates (sources.salt moment) password before ≡ ok session
    pub written : after ≡ (save crates session (env.faults moment) v before).disk

  made_with_disk : (made : Result Session × Outcome) → (made_with made).1 ≡ made.1.disk
  made_with_disk (ok session, o) = refl
  made_with_disk (err message, o) = refl
  made_with_disk (panicked, o) = refl

  new_session-absent :
      (salt : Result Bytes) (password : Bytes) (disk : Disk) {session : Session}
      → new_session crates salt password disk ≡ ok session
      → has_file crates disk.file ≡ false
  unfolding new_session
  new_session-absent salt password disk e =
      let (done, known, rest) = >>=-eq-ok (fail_if (has_file crates disk.file) _) _ e in
      fail_if-eq-ok _ _ known

  save_new-IsCreated :
      (password : Bytes) (v : Vault) (moment : ℕ) (before : Disk) (started : Result Session)
      → new_session crates (sources.salt moment) password before ≡ started
      → let after = (save_new crates started (env.faults moment) v before).1.disk in
        (after ≡ before) ⊎ IsCreated password v moment before after
  save_new-IsCreated password v moment before (ok session) e = inr (record {
    session = session;
    absent = new_session-absent (sources.salt moment) password before e;
    started = e;
    written = refl;
  })
  save_new-IsCreated password v moment before (err message) e = inl refl
  save_new-IsCreated password v moment before panicked e = inl refl

  create_vault-IsCreated :
      (password : Bytes) (v : Vault) (w : World)
      → OnlyWrites (IsCreated password v w.moment) (create_vault password v) w
  unfolding create_vault create access
  create_vault-IsCreated password v w =
      subst (λ d. (d ≡ w.disk) ⊎ IsCreated password v w.moment w.disk d) (sym (made_with_disk _))
        (save_new-IsCreated password v w.moment w.disk _ refl)

  -- A new vault in a run from `w`: its password was typed at two moments, one right after the other, its
  -- one wallet is made of entropy that was drawn after that, and its settings are those of the start.
  pub record IsInit (args : List Bytes) (w : World) (before after : Disk) : Type 0 where
    pub name : Bytes
    pub password : Bytes
    pub entropy : Bytes
    pub v : Vault
    pub named : init_name args ≡ ok name
    pub valid : valid_name name ≡ true
    pub typed : IsNewPassword (w.moment + 2) password
    pub drawn : env.entropy (w.moment + 4) ≡ ok entropy
    pub added :
        add_master crates.crypto
          (record (default_vault w.app.config.vault) { config = w.app.config })
          name
          entropy
        ≡ ok v
    pub created : IsCreated password v (w.moment + 5) before after

  new_password-Calm : Calm new_password
  unfolding new_password
  new_password-Calm = Keeps->>= (Calm-ask _) (λ first. Keeps->>= (Calm-ask _) (λ second.
      Keeps->>= (Keeps-lift _) (λ same. Keeps->>= (Keeps-lift _) (λ long. Keeps-pure _))))

  keep_session-Calm : (session : Session) → Calm (keep_session session)
  keep_session-Calm session = Keeps->>= Calm-the_app (λ app. when-Calm (app.shell && cached app))
    where
      when-Calm :
          (test : Bool)
          → Calm (when test (update_app (λ app. record app { session = some session })))
      when-Calm true = Calm-update_app _
      when-Calm false = Keeps-pure done

  has_file-Calm : Calm (access (λ moment disk. (ok (has_file crates disk.file), disk)))
  unfolding access
  has_file-Calm = record { at = λ w. refl }

  -- The moments of the four answers before the file is written.
  moments :
      (m m1 m2 m3 m4 : ℕ)
      → m1 ≡ m + 1
      → m2 ≡ m1 + 1
      → m3 ≡ m2 + 1 + 1
      → m4 ≡ m3 + 1
      → (m2 ≡ m + 2) × (m3 ≡ m + 4) × (m4 ≡ m + 5)
  moments m m1 m2 m3 m4 e1 e2 e3 e4 = (omega arith, omega arith, omega arith)

  -- `init` leaves the disk as it is, or creates the vault file where there was none, under a password of
  -- at least 12 bytes that was typed twice, at two moments in a row, with the settings of the start and
  -- one wallet: the first key of a phrase of the entropy drawn next, under a valid name.
  pub init-IsInit : (args : List Bytes) (w : World) → OnlyWrites (IsInit args w) (init args) w
  unfolding init
  init-IsInit args w =
      let Q = IsInit args w in
      OnlyChanges-lift storage Q _ _ w (λ name e1. OnlyChanges-lift storage Q _ _ w (λ valid e2.
        OnlyChanges->>= storage Q _ _ w has_file-Calm (λ found w1 e3.
          OnlyChanges-lift storage Q _ _ w1 (λ absent e4.
            OnlyChanges->>= storage Q _ _ w1 (Calm-ask _) (λ prepared w2 e5.
              OnlyChanges->>= storage Q _ _ w2 new_password-Calm (λ password w3 e6.
                OnlyChanges->>= storage Q _ _ w3 (Calm-ask _) (λ entropy w4 e7.
                  OnlyChanges-lift storage Q _ _ w4 (λ text e8.
                    OnlyChanges->>= storage Q _ _ w4 Calm-the_app (λ app w5 e9.
                      OnlyChanges-lift storage Q _ _ w5 (λ v e10.
                        OnlyChanges->>=-Keeps storage Q _ _ w5
                          (OnlyChanges-implies storage {R = Q} (create_vault password v) w5
                            (create_vault-IsCreated password v w5)
                            (λ before after created.
                              let (clock1, app1) = Returns-access _ w e3 in
                              let moved2 = (Returns-ask env.prepare_memlock w1 e5).1 in
                              let (typed, clock3, app3) = new_password-Returns w2 e6 in
                              let (drawn, moved4) = Returns-ask env.entropy w3 e7 in
                              let (app5, still5) = Returns-the_app w4 e9 in
                              let (at2, at3, at4) =
                                moments w.moment w1.moment w2.moment w3.moment w4.moment clock1
                                  (ap (λ (u : World). u.moment) moved2) clock3
                                  (ap (λ (u : World). u.moment) moved4) in
                              let started =
                                sym app5
                                ∙ ap (λ (u : World). u.app) moved4
                                ∙ app3
                                ∙ ap (λ (u : World). u.app) moved2
                                ∙ app1 in
                              record {
                                name = name;
                                password = password;
                                entropy = entropy;
                                v = v;
                                named = e1;
                                valid = not-false (fail_if-eq-ok _ _ e2);
                                typed = subst (λ m. IsNewPassword m password) at2 typed;
                                drawn = ap env.entropy (sym at3) ∙ drawn;
                                added =
                                    ap
                                      (λ (a : App).
                                        add_master crates.crypto
                                          (record (default_vault a.config.vault) {
                                            config = a.config;
                                          })
                                          name entropy)
                                      (sym started)
                                    ∙ e10;
                                created =
                                    subst (λ m. IsCreated password v m before after)
                                      (ap (λ (u : World). u.moment) still5 ∙ at4) created;
                              }))
                          (λ made. Keeps->>= (Keeps-lift _) (λ a.
                            Keeps->>= (Calm-emit _) (λ told. keep_session-Calm made.0)))))))))))))
