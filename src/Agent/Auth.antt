-- ===== src/Agent/Auth.antt =====
-- tools/src/exo_tools/agent_core/auth.py, class `AuthService`. The tables of the database are the
-- fields of one record; a column that nothing reads back is left out. Hashes, random draws, the
-- normal form and the length of texts are parameters. A time is a number: the texts that the code
-- compares are ISO times in UTC, which compare as the times do. Its unit is the microsecond.
pub mod Roles
pub mod Sessions
pub mod Disabled
pub mod Login
pub mod Names
pub mod Google
use agent_setup.Base.{
  ℕ, suc, ◌+◌, Bool, true, false, not, ◌&&◌, ◌||◌, Option, none, some, List, [], ◌∷◌, ◌++◌, String,
  leb, ltb, keep_if, any_of, if◌then◌else◌,
}
use agent_setup.Base.Eq.{Eq, ◌==◌, text_eq, number_eq}
use agent_setup.Base.Dict.{Dict, get, has, insert, without}
use agent_setup.Base.Result.{
  Result, ok, raise, key_error, value_error, permission_error, integrity_error, ◌>>=◌, ◌>>◌,
  or_raise,
}

pub data Role : Type 0 where
  user admin master : Role

-- ROLE_RANK
abbrev pub rank : Role → ℕ
rank user = 1
rank admin = 2
rank master = 3

-- ROLE_PERMISSIONS
abbrev pub role_permissions : Role → List String
role_permissions user =
    "chat:read" ∷ "chat:write" ∷ "resources:read" ∷ "resources:update" ∷ "account:password" ∷ []
role_permissions admin =
    "users:read" ∷ "users:create" ∷ "users:update" ∷ "permissions:update" ∷ "cluster:manage" ∷ []
role_permissions master = "admins:create" ∷ "admins:update" ∷ "system:manage" ∷ []

pub record AuthUser : Type 0 where
  pub user_id : ℕ
  pub username : String
  pub role : Role
  pub google_email : Option String
  pub disabled : Bool

-- A row of the table `users`; the hash stands with its salt.
pub record UserRow : Type 0 where
  pub username : String
  pub password : Option (String × String)
  pub role : Role
  pub google_sub : Option String
  pub google_email : Option String
  pub disabled : Bool

pub record SessionRow : Type 0 where
  pub user_id : ℕ
  pub csrf_token : String
  pub expires_at : ℕ

pub record StateRow : Type 0 where
  pub user_id : Option ℕ
  pub expires_at : ℕ

-- The database. `overrides` holds the rows of permission_overrides for each user.
pub record Database : Type 0 where
  pub users : Dict ℕ UserRow
  pub next_id : ℕ
  pub overrides : Dict ℕ (Dict String Bool)
  pub login_sessions : Dict String SessionRow
  pub oauth_states : Dict String StateRow

-- What the service calls: hashlib, and the methods of `str`.
pub record Library : Type 0 where
  pub password_hash : String → String → String
  pub token_hash : String → String
  pub strip_lower : String → String
  pub length_of : String → ℕ
  pub utf8_length : String → ℕ
  pub name_characters : String → Bool

abbrev pub check : Bool → Result (Unit {0})
check true = ok tt
check false = raise value_error

abbrev pub permit : Bool → Result (Unit {0})
permit true = ok tt
permit false = raise permission_error

abbrev pub constraint : Bool → Result (Unit {0})
constraint true = ok tt
constraint false = raise integrity_error

-- _user_from_row
abbrev pub user_from_row : ℕ → UserRow → AuthUser
user_from_row user_id row = record {
  user_id = user_id;
  username = row.username;
  role = row.role;
  google_email = row.google_email;
  disabled = row.disabled;
}

-- SELECT * FROM users WHERE username = ?
unfoldable pub find_username : String → Dict ℕ UserRow → Option (ℕ × UserRow)
find_username name [] = none
find_username name ((i, row) ∷ rows) =
    let rest = find_username name rows in if row.username == name then some (i, row) else rest

-- SELECT * FROM users WHERE google_sub = ?
unfoldable pub find_google_sub : String → Dict ℕ UserRow → Option (ℕ × UserRow)
find_google_sub sub [] = none
find_google_sub sub ((i, row) ∷ rows) =
    let rest = find_google_sub sub rows in
    elim row.google_sub [ none ↦ rest | some own ↦ if own == sub then some (i, row) else rest ]

abbrev pub is_there {ℓ} : {A : Type ℓ} → Option A → Bool
is_there none = false
is_there (some a) = true

-- DELETE FROM login_sessions WHERE user_id = ?
unfoldable pub without_user : ℕ → Dict String SessionRow → Dict String SessionRow
without_user user_id sessions =
    keep_if (λ (p : String × SessionRow). not (p.1.user_id == user_id)) sessions

unfoldable pub get_user : Database → ℕ → Result AuthUser
get_user db user_id =
    or_raise (get db.users user_id) key_error >>= λ row. ok (user_from_row user_id row)

unfoldable pub get_user_by_google_sub : Database → String → Option AuthUser
get_user_by_google_sub db sub = elim (find_google_sub sub db.users) [
  | none ↦ none
  | some (i, row) ↦ some (user_from_row i row)
]

unfoldable pub list_users : Dict ℕ UserRow → List AuthUser
list_users [] = []
list_users ((i, row) ∷ rows) = user_from_row i row ∷ list_users rows

abbrev pub outranks : AuthUser → Role → Bool
outranks actor role = not (leb (rank actor.role) (rank role))

abbrev pub with_row : Database → ℕ → (UserRow → UserRow) → Option UserRow → Database
with_row db user_id change none = db
with_row db user_id change (some row) = record db { users = insert db.users user_id (change row) }

-- UPDATE users SET … WHERE user_id = ?
unfoldable pub update_user : Database → ℕ → (UserRow → UserRow) → Database
update_user db user_id change = with_row db user_id change (get db.users user_id)

unfoldable pub set_role : Database → AuthUser → ℕ → Role → Result (Database × AuthUser)
set_role db actor target_user_id role = do
  target ← get_user db target_user_id
  permit (outranks actor target.role && outranks actor role)
  let db' = update_user db target_user_id (λ row. record row { role = role })
  after ← get_user db' target_user_id
  ok (db', after)

unfoldable pub set_disabled : Database → AuthUser → ℕ → Bool → Result (Database × AuthUser)
set_disabled db actor target_user_id disabled = do
  target ← get_user db target_user_id
  permit (outranks actor target.role)
  let db' = update_user db target_user_id (λ row. record row { disabled = disabled })
  let db'' =
      if disabled
      then record db' { login_sessions = without_user target_user_id db'.login_sessions }
      else db'
  after ← get_user db'' target_user_id
  ok (db'', after)

abbrev pub or_none : Option (Dict String Bool) → Dict String Bool
or_none none = []
or_none (some d) = d

unfoldable pub set_permission : Database → AuthUser → ℕ → String → Bool → Result Database
set_permission db actor target_user_id permission allowed = do
  target ← get_user db target_user_id
  permit (outranks actor target.role)
  ok (record db {
    overrides =
        insert db.overrides target_user_id
          (insert (or_none (get db.overrides target_user_id)) permission allowed);
  })

-- Sets of texts as lists: `add` and `discard`.
abbrev pub contains : List String → String → Bool
contains xs x = any_of (λ y. y == x) xs

unfoldable pub override_all : Dict String Bool → List String → List String
override_all [] permissions = permissions
override_all ((permission, allowed) ∷ rows) permissions = override_all rows (
    if allowed
    then (if contains permissions permission then permissions else permissions ++ permission ∷ [])
    else keep_if (λ p. not (p == permission)) permissions)

abbrev pub granted : AuthUser → Role → List String
granted u role = if leb (rank role) (rank u.role) then role_permissions role else []

unfoldable pub permissions : Database → AuthUser → List String
permissions db u =
    override_all (or_none (get db.overrides u.user_id))
      (granted u user ++ (granted u admin ++ granted u master))

unfoldable pub require : Database → AuthUser → String → Result (Unit {0})
require db u permission = permit (contains (permissions db u) permission)

unfoldable pub logout : Library → Database → String → Database
logout lib db token =
    if token == ""
    then db
    else record db { login_sessions = without db.login_sessions (lib.token_hash token) }

unfoldable pub create_session :
    Library → Database → ℕ → (now lifetime : ℕ) → (token csrf_token : String) → Result Database
create_session lib db user_id now lifetime token csrf_token = do
  constraint (has db.users user_id && not (has db.login_sessions (lib.token_hash token)))
  ok (record db {
    login_sessions =
        insert db.login_sessions (lib.token_hash token)
          (record { user_id = user_id; csrf_token = csrf_token; expires_at = now + lifetime });
  })

-- The row of a session that is joined with its user: WHERE expires_at > ? AND disabled = 0
abbrev pub joined : SessionRow → ℕ → Option UserRow → Option (AuthUser × String)
joined session now none = none
joined session now (some row) =
    if ltb now session.expires_at && not row.disabled
    then some (user_from_row session.user_id row, session.csrf_token)
    else none

abbrev pub join : Database → ℕ → Option SessionRow → Option (AuthUser × String)
join db now none = none
join db now (some session) = joined session now (get db.users session.user_id)

unfoldable pub user_for_session : Library → Database → String → ℕ → Option (AuthUser × String)
user_for_session lib db token now =
    if token == "" then none else join db now (get db.login_sessions (lib.token_hash token))

-- hmac.compare_digest on the hash of the candidate.
abbrev pub verified : Library → String → ℕ → UserRow → Option (String × String) → Option AuthUser
verified lib password user_id row none = none
verified lib password user_id row (some (hash, salt)) =
    if lib.password_hash password salt == hash then some (user_from_row user_id row) else none

abbrev pub log_in : Library → String → Option (ℕ × UserRow) → Option AuthUser
log_in lib password none = none
log_in lib password (some (user_id, row)) =
    if row.disabled then none else verified lib password user_id row row.password

unfoldable pub authenticate : Library → Database → (username password : String) → Option AuthUser
authenticate lib db username password =
    log_in lib password (find_username (lib.strip_lower username) db.users)

-- _validate_username
unfoldable pub validate_username : Library → String → Result String
validate_username lib username = do
  let normalized = lib.strip_lower username
  check (leb 3 (lib.length_of normalized) && leb (lib.length_of normalized) 32)
  check (lib.name_characters normalized)
  ok normalized

-- _validate_password
unfoldable pub validate_password : Library → String → Result (Unit {0})
validate_password lib password = do
  check (leb 12 (lib.length_of password))
  check (leb (lib.utf8_length password) 256)

-- The hash of a new password with a fresh salt; no password at all has none.
abbrev pub hashed : Library → Option String → String → Result (Option (String × String))
hashed lib none salt = ok none
hashed lib (some password) salt =
    validate_password lib password >> ok (some (lib.password_hash password salt, salt))

unfoldable pub create_user :
    Library
    → Database
    → String
    → Option String
    → Role
    → (salt : String) → Result (Database × AuthUser)
create_user lib db username password role salt = do
  normalized ← validate_username lib username
  stored ← hashed lib password salt
  constraint (not (is_there (find_username normalized db.users)))
  let row : UserRow = record {
    username = normalized;
    password = stored;
    role = role;
    google_sub = none;
    google_email = none;
    disabled = false;
  }
  let db' = record db { users = insert db.users db.next_id row; next_id = suc db.next_id }
  created ← get_user db' db.next_id
  ok (db', created)

-- The current password is right, or need not be.
abbrev pub may_change : Library → Database → AuthUser → Option String → Bool → Option UserRow → Bool
may_change lib db u current force none = true
may_change lib db u current force (some row) =
    force
    || (not (is_there row.password)
        || elim current [ none ↦ false | some c ↦ is_there (authenticate lib db u.username c) ])

unfoldable pub change_password :
    Library
    → Database
    → ℕ
    → (current : Option String) → (new salt : String) → (force : Bool) → Result Database
change_password lib db user_id current new salt force = do
  u ← get_user db user_id
  permit (may_change lib db u current force (get db.users user_id))
  validate_password lib new
  let db' =
      update_user db user_id
        (λ row. record row { password = some (lib.password_hash new salt, salt) })
  ok (record db' { login_sessions = without_user user_id db'.login_sessions })

unfoldable pub create_oauth_state :
    Library → Database → Option ℕ → (now : ℕ) → (state : String) → Result Database
create_oauth_state lib db user_id now state = do
  constraint (
      (elim user_id [ none ↦ true | some i ↦ has db.users i ])
      && not (has db.oauth_states (lib.token_hash state)))
  ok (record db {
    oauth_states =
        insert db.oauth_states (lib.token_hash state)
          (record { user_id = user_id; expires_at = now + 600000000 });
  })

abbrev pub fresh_state : ℕ → Option StateRow → Result (Option ℕ)
fresh_state now none = raise permission_error
fresh_state now (some row) =
    if ltb now row.expires_at then ok row.user_id else raise permission_error

-- The state is gone whether or not it was valid: the new database, and the result.
unfoldable pub consume_oauth_state :
    Library → Database → (state : String) → (now : ℕ) → Database × Result (Option ℕ)
consume_oauth_state lib db state now = (
  record db { oauth_states = without db.oauth_states (lib.token_hash state) },
  fresh_state now (get db.oauth_states (lib.token_hash state)),
)

-- Another user has the Google account already: the column is unique.
abbrev pub taken_by_other : ℕ → Option (ℕ × UserRow) → Bool
taken_by_other user_id none = false
taken_by_other user_id (some (i, row)) = not (i == user_id)

unfoldable pub link_google : Database → ℕ → (sub email : String) → Result (Database × AuthUser)
link_google db user_id sub email = do
  constraint
      (not (has db.users user_id) || not (taken_by_other user_id (find_google_sub sub db.users)))
  let db' =
      update_user db user_id
        (λ row. record row { google_sub = some sub; google_email = some email })
  linked ← get_user db' user_id
  ok (db', linked)
