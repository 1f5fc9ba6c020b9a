-- ===== src/Agent/Auth/Sessions.antt =====
-- Which sessions and OAuth states stay valid.
use agent_setup.Base.{
  ℕ, ◌≡◌, ◌≢◌, refl, sym, ap, ◌∙◌, Bool, true, false, not, ◌&&◌, Option, none, some, String, inl,
  inr, Bool-cases, ltb, false≢true, keep_if-Mem,
}
use agent_setup.Base.Eq.{◌==◌, number_eq, text_eq, ==_refl}
use agent_setup.Base.Dict.{Dict, get, without, get-without, get-Mem}
use agent_setup.Base.Result.{ok, raise, permission_error, chain, ok-injective}
use agent_setup.Agent.Auth.{
  AuthUser, UserRow, SessionRow, Database, Library, user_from_row, get_user, update_user,
  without_user, change_password, user_for_session, consume_oauth_state, fresh_state,
  validate_password, may_change, join, joined,
}
use agent_setup.Agent.Auth.Roles.{permitted}

-- No token is a session of the user.
abbrev pub LoggedOut : Library → Database → ℕ → Type 0
LoggedOut lib db i =
    (token : String) (now : ℕ) (u : AuthUser) (csrf : String)
    → user_for_session lib db token now ≡ some (u, csrf)
    → u.user_id ≢ i

-- No row of the sessions is the user's.
abbrev pub NoRow : Database → ℕ → Type 0
NoRow db i = (k : String) (s : SessionRow) → get db.login_sessions k ≡ some s → s.user_id ≢ i

pub without_user-get :
    (i : ℕ) (d : Dict String SessionRow) (k : String) (s : SessionRow)
    → get (without_user i d) k ≡ some s
    → s.user_id ≢ i
unfolding without_user
without_user-get i d k s h e =
    let (m, test) = keep_if-Mem _ d (k, s) (get-Mem _ k s h) in
    false≢true (sym (ap not ((number_eq.is_equal_iff s.user_id i).1 e)) ∙ test)

pub joined-user :
    (s : SessionRow) (now : ℕ) (row : Option UserRow) (u : AuthUser) (csrf : String)
    → joined s now row ≡ some (u, csrf)
    → u.user_id ≡ s.user_id
joined-user s now none u csrf h = absurd (cc)
joined-user s now (some row) u csrf h =
    elim (Bool-cases (ltb now s.expires_at && not row.disabled)) [
      | inl valid ↦ found (rw valid at h)
      | inr gone ↦ absurd (lost (rw gone at h))
    ]
  where
    found :
        ◌≡◌ {A = Option (AuthUser × String)}
          (some (user_from_row s.user_id row, s.csrf_token))
          (some (u, csrf))
        → u.user_id ≡ s.user_id
    found e = ap id_of (sym e)
      where
        id_of : Option (AuthUser × String) → ℕ
        id_of none = 0
        id_of (some (x, c)) = x.user_id

    lost : ◌≡◌ {A = Option (AuthUser × String)} none (some (u, csrf)) → ⊥
    lost e = cc

NoRow-LoggedOut : (lib : Library) (db : Database) (i : ℕ) → NoRow db i → LoggedOut lib db i
unfolding user_for_session
NoRow-LoggedOut lib db i absent token now u csrf h = elim (Bool-cases (token == "")) [
  | inl empty ↦ absurd (lost (rw empty at h))
  | inr some_ ↦ at (get db.login_sessions (lib.token_hash token)) refl (rw some_ at h)
]
  where
    lost : ◌≡◌ {A = Option (AuthUser × String)} none (some (u, csrf)) → ⊥
    lost e = cc

    at :
        (o : Option SessionRow)
        → get db.login_sessions (lib.token_hash token) ≡ o
        → join db now o ≡ some (u, csrf)
        → u.user_id ≢ i
    at none e q same = absurd (lost q)
    at (some s) e q same =
        absent (lib.token_hash token) s e (sym (joined-user s now _ u csrf q) ∙ same)

-- After a change of password no session of the user is valid, old or new.
pub change_password-LoggedOut :
    (lib : Library) (db db' : Database) (i : ℕ) (current : Option String) (new salt : String)
    (force : Bool)
    → change_password lib db i current new salt force ≡ ok db'
    → LoggedOut lib db' i
unfolding change_password
change_password-LoggedOut lib db db' i current new salt force h =
    let (old, found, h1) = chain (get_user db i) _ db' h in
    let (may, h2) = permitted (may_change lib db old current force (get db.users i)) _ db' h1 in
    let (u, valid, h3) = chain (validate_password lib new) _ db' h2 in
    let changed =
      update_user db i (λ row. record row { password = some (lib.password_hash new salt, salt) }) in
    let final = record changed { login_sessions = without_user i changed.login_sessions } in
    rw (← ok-injective final db' h3)
      (NoRow-LoggedOut lib final i (λ k s. without_user-get i changed.login_sessions k s))

-- An OAuth state works at most once: whatever the first use gives, a later one is refused, and a
-- state with another hash is answered as it was before.
pub consume_oauth_state-once :
    (lib : Library) (db : Database) (state other : String) (now later : ℕ)
    → (lib.token_hash state == lib.token_hash other) ≡ false
    → ((consume_oauth_state lib (consume_oauth_state lib db state now).0 state later).1
        ≡ raise permission_error)
      × ((consume_oauth_state lib (consume_oauth_state lib db state now).0 other later).1
          ≡ (consume_oauth_state lib db other later).1)
unfolding consume_oauth_state
consume_oauth_state-once lib db state other now later apart = (
  ap (fresh_state later) (used (lib.token_hash state) (==_refl (lib.token_hash state))),
  ap (fresh_state later) (unused (lib.token_hash other) apart),
)
  where
    used :
        (k : String)
        → (lib.token_hash state == k) ≡ true
        → get (without db.oauth_states (lib.token_hash state)) k ≡ none
    used k e = get-without db.oauth_states (lib.token_hash state) k ∙ (rw e)

    unused :
        (k : String)
        → (lib.token_hash state == k) ≡ false
        → get (without db.oauth_states (lib.token_hash state)) k ≡ get db.oauth_states k
    unused k e = get-without db.oauth_states (lib.token_hash state) k ∙ (rw e)
