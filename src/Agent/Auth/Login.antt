-- ===== src/Agent/Auth/Login.antt =====
-- Who can log in.
use agent_setup.Base.{
  subst, ℕ, suc, ◌≡◌, refl, sym, ap, ◌∙◌, Bool, true, false, not, Option, none, some, [], ◌∷◌, ◌++◌,
  String, inl, inr, Bool-cases, if◌then◌else◌, arith,
}
use agent_setup.Base.Eq.{◌==◌, number_eq, text_eq, ==_refl}
use agent_setup.Base.Dict.{Dict, get, insert, get-insert, insert-append}
use agent_setup.Base.Result.{Result, ok, ◌>>◌, chain, ok-injective}
use agent_setup.Agent.Auth.{
  Role, AuthUser, UserRow, Database, Library, user_from_row, get_user, find_username,
  validate_username, validate_password, hashed, is_there, create_user, authenticate, constraint,
}

constrained :
    {B : Type 0} (b : Bool) (m : Result B) (x : B)
    → (constraint b >> m) ≡ ok x
    → (b ≡ true) × (m ≡ ok x)
constrained true m x h = (refl, h)
constrained false m x h = absurd (cc)

find-append :
    (name : String) (d : Dict ℕ UserRow) (i : ℕ) (row : UserRow)
    → find_username name d ≡ none
    → row.username ≡ name
    → find_username name (d ++ (i, row) ∷ []) ≡ some (i, row)
unfolding find_username
find-append name [] i row h e = rw (e, ==_refl name)
find-append name ((j, old) ∷ d) i row h e = elim (Bool-cases (old.username == name)) [
  | inl same ↦ absurd (clash (rw same at h))
  | inr other ↦ rw other (find-append name d i row (rw other at h) e)
]
  where
    clash : ◌≡◌ {A = Option (ℕ × UserRow)} (some (j, old)) none → ⊥
    clash q = cc

-- The name of a row that is stored is the normal form.
validated :
    (lib : Library) (name normalized : String)
    → validate_username lib name ≡ ok normalized
    → normalized ≡ lib.strip_lower name
unfolding validate_username
validated lib name normalized h = ground arith

abbrev row_of : String → Option (String × String) → Role → UserRow
row_of name password role = record {
  username = name;
  password = password;
  role = role;
  google_sub = none;
  google_email = none;
  disabled = false;
}

abbrev stored : Database → UserRow → Database
stored db row = record db { users = insert db.users db.next_id row; next_id = suc db.next_id }

not_there : (o : Option (ℕ × UserRow)) → not (is_there o) ≡ true → o ≡ none
not_there none h = refl
not_there (some p) h = absurd (cc)

-- What a creation that returns has done.
abbrev Created : Database → Database → AuthUser → UserRow → Type 0
Created db db' u row =
    (find_username row.username db.users ≡ none)
    × (stored db row ≡ db')
    × (get_user (stored db row) db.next_id ≡ ok u)

create_user-Created :
    (lib : Library) (db db' : Database) (name password salt : String) (role : Role) (u : AuthUser)
    → create_user lib db name (some password) role salt ≡ ok (db', u)
    → Created db db' u
        (row_of (lib.strip_lower name) (some (lib.password_hash password salt, salt)) role)
unfolding create_user
create_user-Created lib db db' name password salt role u h =
    let (normalized, valid, h1) = chain (validate_username lib name) _ (db', u) h in
    let (hash, made, h2) = chain (hashed lib (some password) salt) _ (db', u) h1 in
    let (v, strong, made') = chain (validate_password lib password) _ hash made in
    let (free, h3) =
      constrained (not (is_there (find_username normalized db.users))) _ (db', u) h2 in
    let (found, got, h4) =
      chain (get_user (stored db (row_of normalized hash role)) db.next_id) _ (db', u) h3 in
    let e = ok-injective (stored db (row_of normalized hash role), found) (db', u) h4 in
    let at : Created db db' u (row_of normalized hash role) = (
      not_there (find_username normalized db.users) free,
      ap (λ (p : Database × AuthUser). p.0) e,
      got ∙ ap (λ (p : Database × AuthUser). ok p.1) e,
    ) in
    subst (λ n. Created db db' u (row_of n (some (lib.password_hash password salt, salt)) role))
      (validated lib name normalized valid)
      (subst (λ p. Created db db' u (row_of normalized p role)) (sym (ok-injective _ hash made'))
        at)

-- If the next identifier of the table is free, a user that was created with a password logs in
-- under every spelling of the name that has the same normal form, with exactly the passwords that
-- have the same hash.
pub create_user-authenticate :
    (lib : Library) (db db' : Database) (name password salt : String) (role : Role) (u : AuthUser)
    (name' password' : String)
    → get db.users db.next_id ≡ none
    → create_user lib db name (some password) role salt ≡ ok (db', u)
    → lib.strip_lower name' ≡ lib.strip_lower name
    → authenticate lib db' name' password' ≡ (
        if lib.password_hash password' salt == lib.password_hash password salt
        then some u
        else none)
unfolding authenticate get_user
create_user-authenticate lib db db' name password salt role u name' password' new h e =
    let row = row_of (lib.strip_lower name) (some (lib.password_hash password salt, salt)) role in
    let (free, after, got) = create_user-Created lib db db' name password salt role u h in
    let found : find_username (lib.strip_lower name') db'.users ≡ some (db.next_id, row) =
      ap (λ n. find_username n db'.users) e
      ∙ ap (λ (d : Database). find_username (lib.strip_lower name) d.users) (sym after)
      ∙ ap (find_username (lib.strip_lower name)) (insert-append db.users db.next_id row new)
      ∙ find-append (lib.strip_lower name) db.users db.next_id row free refl in
    let is : user_from_row db.next_id row ≡ u =
      ok-injective (user_from_row db.next_id row) u
        (sym (rw (get-insert, ==_refl db.next_id)) ∙ got) in
    rw (found, is)
