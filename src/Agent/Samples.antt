-- ===== src/Agent/Samples.antt =====
-- The theorems on the agent core at concrete inputs.
use agent_setup.Base.{
  ◌≢◌, ◌≡◌, refl, true, false, none, some, List, [], ◌∷◌, String, arith, leb, length, keep_if,
  if◌then◌else◌,
}
use agent_setup.Base.Eq.{◌==◌, text_eq, number_eq}
use agent_setup.Base.Dict.{get, insert}
use agent_setup.Base.Result.{ok, raise, permission_error}
use agent_setup.Agent.Auth.{
  SessionRow, Role, AuthUser, UserRow, Database, Library, user_from_row, get_user, find_username,
  update_user, without_user, set_disabled, change_password, create_user, authenticate,
  validate_password, validate_username, consume_oauth_state,
}
use agent_setup.Agent.Auth.Roles.{
  Call, call_set_role, call_set_disabled, call_create_session, Protected, serve, serve-Protected,
}
use agent_setup.Agent.Auth.Sessions.{LoggedOut, change_password-LoggedOut, consume_oauth_state-once}
use agent_setup.Agent.Auth.Disabled.{set_disabled-LoggedOut}
use agent_setup.Agent.Auth.Login.{create_user-authenticate}
use agent_setup.Agent.Auth.Google.{google_name, username_exists, free_name, google_name-ends}
use agent_setup.Agent.Auth.Names.{
  Characters, base_of, before_at, kept_characters, first_characters, text_append, digits_from,
  decimal, numbered_name,
}
use agent_setup.Agent.RateLimit.{LoginRateLimiter, check_key}
use agent_setup.Agent.RateLimit.Window.{Action, fails, checks, act_all, failures_since, recent}
use agent_setup.Agent.RateLimit.Limit.{check_key-recent}

-- A library whose hashes are the texts themselves, and for which every text has length 12.
abbrev lib : Library
lib = record {
  password_hash = λ password salt. password;
  token_hash = λ token. token;
  strip_lower = λ name. name;
  length_of = λ text. 12;
  utf8_length = λ text. 12;
  name_characters = λ name. true;
}

abbrev row : String → Role → UserRow
row name role = record {
  username = name;
  password = some ("old", "salt");
  role = role;
  google_sub = none;
  google_email = none;
  disabled = false;
}

-- A master and a user, with a session and an OAuth state.
abbrev db : Database
db = record {
  users = (1, row "root" Role.master) ∷ (2, row "ann" Role.user) ∷ [];
  next_id = 3;
  overrides = [];
  login_sessions = ("t", record { user_id = 2; csrf_token = "c"; expires_at = 100 }) ∷ [];
  oauth_states = ("s", record { user_id = none; expires_at = 100 }) ∷ [];
}

abbrev root : AuthUser
root = user_from_row 1 (row "root" Role.master)

abbrev an_admin : AuthUser
an_admin = user_from_row 9 (row "adm" Role.admin)

-- An admin tries to take the master's role, and gives another user away.
abbrev calls : List Call
calls = call_set_role an_admin 1 Role.user ∷ call_set_disabled an_admin 2 true ∷ []

serve-Protected_example : Protected 2 db (serve lib db calls)
serve-Protected_example = serve-Protected 2 lib calls db (omega arith, (omega arith, tt))

abbrev changed : Database
changed = record db {
  users =
      (1, row "root" Role.master)
      ∷ (2, record (row "ann" Role.user) { password = some ("new", "salt") })
      ∷ [];
  login_sessions = [];
}

password_changed : change_password lib db 2 (some "old") "new" "salt" false ≡ ok changed
unfolding change_password get_user get insert authenticate find_username validate_password
    update_user without_user keep_if
password_changed = refl

change_password-LoggedOut_example : LoggedOut lib changed 2
change_password-LoggedOut_example =
    change_password-LoggedOut lib db changed 2 (some "old") "new" "salt" false password_changed

abbrev ann_off : UserRow
ann_off = record (row "ann" Role.user) { disabled = true }

abbrev disabled_ann : Database
disabled_ann = record db {
  users = (1, row "root" Role.master) ∷ (2, ann_off) ∷ [];
  login_sessions = [];
}

ann_disabled : set_disabled db root 2 true ≡ ok (disabled_ann, user_from_row 2 ann_off)
unfolding set_disabled get_user get insert update_user without_user keep_if
ann_disabled = refl

-- A session is made for the user that is disabled.
abbrev calls_after : List Call
calls_after = call_create_session 2 5 100 "t2" "csrf" ∷ call_set_disabled root 2 true ∷ []

set_disabled-LoggedOut_example :
    ((k : String) (s : SessionRow) → get disabled_ann.login_sessions k ≡ some s → s.user_id ≢ 2)
    × LoggedOut lib (serve lib disabled_ann calls_after) 2
set_disabled-LoggedOut_example =
    set_disabled-LoggedOut lib db disabled_ann root (user_from_row 2 ann_off) 2 calls_after
      ann_disabled (tt, ((λ e. refl), tt))

consume_oauth_state-once_example :
    ((consume_oauth_state lib (consume_oauth_state lib db "s" 1).0 "s" 2).1
      ≡ raise permission_error)
    × ((consume_oauth_state lib (consume_oauth_state lib db "s" 1).0 "r" 2).1
        ≡ (consume_oauth_state lib db "r" 2).1)
consume_oauth_state-once_example = consume_oauth_state-once lib db "s" "r" 1 2 refl

abbrev bob : UserRow
bob = record (row "bob" Role.user) { password = some ("secret", "salt") }

abbrev with_bob : Database
with_bob = record db {
  users = (1, row "root" Role.master) ∷ (2, row "ann" Role.user) ∷ (3, bob) ∷ [];
  next_id = 4;
}

bob_created :
    create_user lib db "bob" (some "secret") Role.user "salt" ≡ ok (with_bob, user_from_row 3 bob)
unfolding create_user validate_username validate_password find_username get_user get insert
bob_created = refl

create_user-authenticate_example :
    authenticate lib with_bob "bob" "secret"
    ≡ (if ◌==◌ {K = String} "secret" "secret" then some (user_from_row 3 bob) else none)
unfolding get
create_user-authenticate_example =
    create_user-authenticate lib db with_bob "bob" "secret" "salt" Role.user (user_from_row 3 bob)
      "bob" "secret" refl bob_created refl

abbrev limiter : LoginRateLimiter
limiter = record { max_failures = 2; window_seconds = 300; failures = [] }

abbrev tries : List Action
tries = fails 10 "k" ∷ fails 20 "other" ∷ checks 25 "k" ∷ fails 400 "k" ∷ []

check_key-recent_example : (check_key (act_all limiter tries) 410 "k").1 ≡ (
    if leb 2 (length (recent 300 410 (failures_since "k" tries [])))
    then raise permission_error
    else ok tt)
check_key-recent_example = check_key-recent limiter tries 410 "k" refl (omega arith)

-- A library whose lower case is the text itself, and for which every character is alphanumeric.
abbrev characters : Characters
characters = record { lower = λ text. text; is_alnum = λ c. true }

-- The first name is taken, and the second one is its base with a number.
ann_again : google_name characters db.users "ann@example.com" ≡ some "ann-2"
unfolding google_name base_of before_at kept_characters first_characters free_name username_exists
    find_username numbered_name text_append decimal digits_from
ann_again = refl

google_name-ends_example :
    (name : String) × (google_name characters db.users "ann@example.com" ≡ some name)
    × (username_exists db.users name ≡ false)
google_name-ends_example = google_name-ends characters db.users "ann@example.com"
