-- ===== src/Agent/Auth/Disabled.antt =====
-- What a user that is disabled can still do, whatever the service is asked for afterwards.
use agent_setup.Base.{
  ℕ, ◌≡◌, ◌≢◌, refl, sym, ap, ◌∙◌, Bool, true, false, not, ◌&&◌, Option, none, some, List, [], ◌∷◌,
  String, inl, inr, Bool-cases, ltb, All, false≢true, if◌then◌else◌, arith,
}
use agent_setup.Base.Eq.{◌==◌, number_eq, text_eq, ==_eq, ==_refl}
use agent_setup.Base.Dict.{Dict, get, get-insert}
use agent_setup.Base.Result.{Result, ok, raise, key_error, chain, ok-injective}
use agent_setup.Agent.Auth.{
  Role, AuthUser, UserRow, SessionRow, Database, Library, get_user, update_user, with_row,
  without_user, set_role, set_disabled, change_password, user_for_session, validate_password,
  may_change, outranks, join, joined,
}
use agent_setup.Agent.Auth.Roles.{
  Call, call_set_role, call_set_disabled, call_set_permission, call_change_password,
  call_create_session, call_logout, step, serve, or_unchanged, permitted, pair_is,
  set_permission-users, create_session-users, logout-users,
}
use agent_setup.Agent.Auth.Sessions.{LoggedOut, NoRow, without_user-get, joined-user}

-- The user's row says that it is disabled.
abbrev Off : ℕ → Dict ℕ UserRow → Type 0
Off i users = (row : UserRow) × (get users i ≡ some row) × (row.disabled ≡ true)

-- The call does not enable the user again.
abbrev pub NotEnabling : ℕ → Call → Type 0
NotEnabling i (call_set_disabled actor target disabled) = target ≡ i → disabled ≡ true
NotEnabling i call = Unit {0}

module _ (i : ℕ) where
  Off-as : (users users' : Dict ℕ UserRow) → users' ≡ users → Off i users → Off i users'
  Off-as users users' e (row, at, off) = (row, ap (λ d. get d i) e ∙ at, off)

  update_user-Off :
      (db : Database) (target : ℕ) (change : UserRow → UserRow)
      → ((row : UserRow) → target ≡ i → row.disabled ≡ true → (change row).disabled ≡ true)
      → Off i db.users
      → Off i (update_user db target change).users
  unfolding update_user
  update_user-Off db target change keeps (row, at, off) = elim (Bool-cases (target == i)) [
    | inl same ↦
        let e : target ≡ i = ==_eq target i same in
        let there : get db.users target ≡ some row = rw e at in
        (change row, found e there, keeps row e off)
    | inr other ↦ (row, apart (get db.users target) other, off)
  ]
    where
      found :
          target ≡ i
          → get db.users target ≡ some row
          → get (with_row db target change (get db.users target)).users i ≡ some (change row)
      found e there =
          rw there (
            get-insert db.users target i (change row)
            ∙ (rw ((number_eq.is_equal_iff target i).1 e)))

      apart :
          (o : Option UserRow)
          → (target == i) ≡ false
          → get (with_row db target change o).users i ≡ some row
      apart none other = at
      apart (some old) other = get-insert db.users target i (change old) ∙ (rw other at)

  -- A user that is disabled has no valid session, even where a row is left.
  joined-Off :
      (s : SessionRow) (now : ℕ) (o : Option UserRow) (row : UserRow) (u : AuthUser) (csrf : String)
      → o ≡ some row
      → row.disabled ≡ true
      → joined s now o ≡ some (u, csrf)
      → ⊥
  joined-Off s now none row u csrf at off h = absurd (cc)
  joined-Off s now (some other) row u csrf at off h =
      let e : other ≡ row = cc in
      let off' : other.disabled ≡ true = rw e off in
      elim (Bool-cases (ltb now s.expires_at && not other.disabled)) [
        | inl valid ↦ absurd (ground arith)
        | inr gone ↦ lost (rw gone at h)
      ]
    where
      lost : ◌≡◌ {A = Option (AuthUser × String)} none (some (u, csrf)) → ⊥
      lost q = cc

  Off-LoggedOut : (lib : Library) (db : Database) → Off i db.users → LoggedOut lib db i
  unfolding user_for_session
  Off-LoggedOut lib db (row, at, off) token now u csrf h = elim (Bool-cases (token == "")) [
    | inl empty ↦ absurd (lost (rw empty at h))
    | inr some_ ↦ session (get db.login_sessions (lib.token_hash token)) (rw some_ at h)
  ]
    where
      lost : ◌≡◌ {A = Option (AuthUser × String)} none (some (u, csrf)) → ⊥
      lost e = cc

      session : (o : Option SessionRow) → join db now o ≡ some (u, csrf) → u.user_id ≢ i
      session none q same = lost q
      session (some s) q same =
          let own = sym (joined-user s now (get db.users s.user_id) u csrf q) ∙ same in
          joined-Off s now (get db.users s.user_id) row u csrf (ap (get db.users) own ∙ at) off q

set_role-users :
    (db db' : Database) (actor : AuthUser) (target : ℕ) (role : Role) (u : AuthUser)
    → set_role db actor target role ≡ ok (db', u)
    → db'.users ≡ (update_user db target (λ row. record row { role = role })).users
unfolding set_role
set_role-users db db' actor target role u h =
    let (old, found, h1) = chain (get_user db target) _ (db', u) h in
    let (may, h2) = permitted (outranks actor old.role && outranks actor role) _ (db', u) h1 in
    let changed = update_user db target (λ row. record row { role = role }) in
    let (after, got, h3) = chain (get_user changed target) _ (db', u) h2 in
    ap (λ (p : Database × AuthUser). p.0.users) (sym (ok-injective (changed, after) (db', u) h3))

-- The users and the sessions after a user is disabled or enabled.
set_disabled-tables :
    (db db' : Database) (actor : AuthUser) (target : ℕ) (disabled : Bool) (u : AuthUser)
    → set_disabled db actor target disabled ≡ ok (db', u)
    → (db'.users ≡ (update_user db target (λ row. record row { disabled = disabled })).users)
      × (disabled ≡ true → NoRow db' target)
unfolding set_disabled
set_disabled-tables db db' actor target disabled u h =
    let (old, found, h1) = chain (get_user db target) _ (db', u) h in
    let (may, h2) = permitted (outranks actor old.role) _ (db', u) h1 in
    let (after, got, h3) = chain (get_user (dropped disabled) target) _ (db', u) h2 in
    let e : dropped disabled ≡ db' =
      ap (λ (p : Database × AuthUser). p.0) (ok-injective (dropped disabled, after) (db', u) h3) in
    rw (← e) (same_users disabled, λ on. no_row disabled on)
  where
    changed : Database
    changed = update_user db target (λ row. record row { disabled = disabled })

    dropped : Bool → Database
    dropped b =
        if b
        then record changed { login_sessions = without_user target changed.login_sessions }
        else changed

    same_users : (b : Bool) → (dropped b).users ≡ changed.users
    same_users true = refl
    same_users false = refl

    no_row : (b : Bool) → b ≡ true → NoRow (dropped b) target
    no_row true on = λ k s. without_user-get target changed.login_sessions k s
    no_row false on = absurd (false≢true on)

change_password-users :
    (lib : Library) (db db' : Database) (i : ℕ) (current : Option String) (new salt : String)
    (force : Bool)
    → change_password lib db i current new salt force ≡ ok db'
    → db'.users
      ≡ (update_user db i
          (λ row. record row { password = some (lib.password_hash new salt, salt) })).users
unfolding change_password
change_password-users lib db db' i current new salt force h =
    let (old, found, h1) = chain (get_user db i) _ db' h in
    let (may, h2) = permitted (may_change lib db old current force (get db.users i)) _ db' h1 in
    let (u, valid, h3) = chain (validate_password lib new) _ db' h2 in
    ap (λ (d : Database). d.users) (sym (ok-injective _ db' h3))

module _ (i : ℕ) (lib : Library) where
  step-Off :
      (db db' : Database) (call : Call)
      → NotEnabling i call
      → step lib db call ≡ ok db'
      → Off i db.users
      → Off i db'.users
  unfolding step
  step-Off db db' (call_set_role actor target role) stays h off =
      let (u, e) = pair_is (set_role db actor target role) db' h in
      Off-as i _ db'.users (set_role-users db db' actor target role u e)
        (update_user-Off i db target _ (λ row same q. q) off)
  step-Off db db' (call_set_disabled actor target disabled) stays h off =
      let (u, e) = pair_is (set_disabled db actor target disabled) db' h in
      Off-as i _ db'.users (set_disabled-tables db db' actor target disabled u e).0
        (update_user-Off i db target _ (λ row same q. stays same) off)
  step-Off db db' (call_set_permission actor target permission allowed) stays h off =
      Off-as i db.users db'.users (set_permission-users db db' actor target permission allowed h)
        off
  step-Off db db' (call_change_password target current new salt force) stays h off =
      Off-as i _ db'.users (change_password-users lib db db' target current new salt force h)
        (update_user-Off i db target _ (λ row same q. q) off)
  step-Off db db' (call_create_session target now lifetime token csrf) stays h off =
      Off-as i db.users db'.users (create_session-users lib db db' target now lifetime token csrf h)
        off
  step-Off db db' (call_logout token) stays h off =
      Off-as i db.users db'.users
        (ap (λ (d : Database). d.users) (sym (ok-injective _ db' h)) ∙ logout-users lib db token)
        off

  serve-Off :
      (calls : List Call) (db : Database)
      → All (NotEnabling i) calls
      → Off i db.users
      → Off i (serve lib db calls).users
  unfolding serve
  serve-Off [] db all off = off
  serve-Off (call ∷ calls) db all off =
      serve-Off calls (or_unchanged db (step lib db call)) all.1 (stepped (step lib db call) refl)
    where
      stepped : (m : Result Database) → step lib db call ≡ m → Off i (or_unchanged db m).users
      stepped (ok db') e = step-Off db db' call all.0 e off
      stepped (raise x) e = off

unknown :
    (db : Database) (i : ℕ) (old : AuthUser) → get db.users i ≡ none → get_user db i ≡ ok old → ⊥
unfolding get_user
unknown db i old e h = raised (rw e at h)
  where
    raised : raise key_error ≡ ok old → ⊥
    raised q = cc

disabled-Off :
    (db : Database) (actor u : AuthUser) (i : ℕ) (db' : Database)
    → set_disabled db actor i true ≡ ok (db', u)
    → Off i db'.users
unfolding set_disabled update_user
disabled-Off db actor u i db' h =
    Off-as i _ db'.users (set_disabled-tables db db' actor i true u h).0
      (there (get db.users i) refl)
  where
    there :
        (o : Option UserRow)
        → get db.users i ≡ o
        → Off i (update_user db i (λ row. record row { disabled = true })).users
    there none e =
        let (old, found, h1) = chain (get_user db i) _ (db', u) h in
        absurd (unknown db i old e found)
    there (some row) e = (
      record row { disabled = true },
      rw e (get-insert db.users i i (record row { disabled = true }) ∙ (rw (==_refl i))),
      refl,
    )

-- When a user is disabled its rows of the sessions are gone, and after any further calls that set
-- roles, permissions, passwords or whether a user is disabled, make sessions, new ones for it
-- included, or log out, no token is a session of it, as long as no call asks to enable it again.
pub set_disabled-LoggedOut :
    (lib : Library) (db db' : Database) (actor u : AuthUser) (i : ℕ) (calls : List Call)
    → set_disabled db actor i true ≡ ok (db', u)
    → All (NotEnabling i) calls
    → ((k : String) (s : SessionRow) → get db'.login_sessions k ≡ some s → s.user_id ≢ i)
      × LoggedOut lib (serve lib db' calls) i
set_disabled-LoggedOut lib db db' actor u i calls h all = (
  (set_disabled-tables db db' actor i true u h).1 refl,
  Off-LoggedOut i lib (serve lib db' calls)
      (serve-Off i lib calls db' all (disabled-Off db actor u i db' h)),
)
