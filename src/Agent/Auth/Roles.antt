-- ===== src/Agent/Auth/Roles.antt =====
-- What the calls of the auth service can do to the roles of the users.
use agent_setup.Base.{
  ℕ, ◌+◌, ◌≤◌, ◌<◌, ◌≡◌, refl, sym, ap, ◌∙◌, Bool, true, false, not, ◌&&◌, Option, none, some, List,
  [], ◌∷◌, String, All, inl, inr, Bool-cases, &&-eq-true, if◌then◌else◌, arith,
}
use agent_setup.Base.Eq.{◌==◌, number_eq, text_eq, ==_eq}
use agent_setup.Base.Dict.{get, has, insert, get-insert}
use agent_setup.Base.Result.{Result, ok, raise, ◌>>◌, chain, ok-injective}
use agent_setup.Agent.Auth.{
  Role, rank, AuthUser, UserRow, Database, Library, user_from_row, get_user, outranks, update_user,
  without_user, set_role, set_disabled, set_permission, change_password, create_session, logout,
  validate_password, permit, with_row, may_change, constraint,
}

-- Users from the rank r up keep their role and whether they are disabled; those below stay below.
pub record Kept (r : ℕ) (row row' : UserRow) : Type 0 where
  pub above : r ≤ rank row.role → (row'.role ≡ row.role) × (row'.disabled ≡ row.disabled)
  pub below : rank row.role < r → rank row'.role < r

abbrev pub Protected : ℕ → Database → Database → Type 0
Protected r before after =
    (i : ℕ) (row : UserRow)
    → get before.users i ≡ some row
    → (row' : UserRow) × (get after.users i ≡ some row') × Kept r row row'

Protected-refl : (r : ℕ) (db db' : Database) → db'.users ≡ db.users → Protected r db db'
Protected-refl r db db' e i row h =
    (row, ap (λ d. get d i) e ∙ h, record { above = λ le. (refl, refl); below = λ lt. lt })

Protected-trans : (r : ℕ) (a b c : Database) → Protected r a b → Protected r b c → Protected r a c
Protected-trans r a b c p q i row h =
    let (row1, h1, k1) = p i row h in
    let (row2, h2, k2) = q i row1 h1 in
    (
      row2,
      h2,
      record {
        above =
            λ le. let (e, d) = k1.above le in let (e', d') = k2.above (rw e le) in (e' ∙ e, d' ∙ d);
        below = λ lt. k2.below (k1.below lt);
      },
    )

-- An update of a row that it may change.
update_user-Protected :
    (r : ℕ) (db : Database) (target : ℕ) (change : UserRow → UserRow)
    → ((row : UserRow) → get db.users target ≡ some row → Kept r row (change row))
    → Protected r db (update_user db target change)
unfolding update_user
update_user-Protected r db target change kept i row h = elim (Bool-cases (target == i)) [
  | inl same ↦
      let e : target ≡ i = ==_eq target i same in
      let at : get db.users target ≡ some row = rw e h in (change row, found e at, kept row at)
  | inr other ↦ (
    row,
    apart (get db.users target) other,
    record { above = λ le. (refl, refl); below = λ lt. lt },
  )
]
  where
    found :
        target ≡ i
        → get db.users target ≡ some row
        → get (with_row db target change (get db.users target)).users i ≡ some (change row)
    found e at =
        rw at
          (get-insert db.users target i (change row) ∙ (rw ((number_eq.is_equal_iff target i).1 e)))

    apart :
        (o : Option UserRow)
        → (target == i) ≡ false
        → get (with_row db target change o).users i ≡ some row
    apart none other = h
    apart (some old) other = get-insert db.users target i (change old) ∙ (rw other h)

pub permitted :
    {B : Type 0} (b : Bool) (m : Result B) (x : B)
    → (permit b >> m) ≡ ok x
    → (b ≡ true) × (m ≡ ok x)
permitted true m x h = (refl, h)
permitted false m x h = absurd (cc)

-- The user that is found is the row's.
get_user-row :
    (db : Database) (i : ℕ) (u : AuthUser) (row : UserRow)
    → get_user db i ≡ ok u
    → get db.users i ≡ some row
    → row.role ≡ u.role
unfolding get_user
get_user-row db i u row h at =
    ap (λ (x : AuthUser). x.role) (ok-injective (user_from_row i row) u (sym (rw at) ∙ h))

set_role-Protected :
    (r : ℕ) (db db' : Database) (actor : AuthUser) (target : ℕ) (role : Role) (u : AuthUser)
    → rank actor.role ≤ r
    → set_role db actor target role ≡ ok (db', u)
    → Protected r db db'
unfolding set_role
set_role-Protected r db db' actor target role u le h =
    let (old, found, h1) = chain (get_user db target) _ (db', u) h in
    let (may, h2) = permitted (outranks actor old.role && outranks actor role) _ (db', u) h1 in
    let changed = update_user db target (λ row. record row { role = role }) in
    let (after, got, h3) = chain (get_user changed target) _ (db', u) h2 in
    let e : changed ≡ db' =
      ap (λ (p : Database × AuthUser). p.0) (ok-injective (changed, after) (db', u) h3) in
    let (over_old, over_new) = &&-eq-true (outranks actor old.role) (outranks actor role) may in
    rw (← e) (
      update_user-Protected r db target (λ row. record row { role = role })
        (λ row at.
          let same = get_user-row db target old row found at in
          record {
            above = λ high. absurd (too_high row old same over_old high);
            below = λ low. low_enough over_new;
          }))
  where
    too_high :
        (row : UserRow) (old : AuthUser)
        → row.role ≡ old.role
        → outranks actor old.role ≡ true
        → r ≤ rank row.role
        → ⊥
    too_high row old same over high =
        let high' : r ≤ rank old.role = rw same at high in ground arith

    low_enough : outranks actor role ≡ true → rank role < r
    low_enough over = ground arith

set_disabled-Protected :
    (r : ℕ) (db db' : Database) (actor : AuthUser) (target : ℕ) (disabled : Bool) (u : AuthUser)
    → rank actor.role ≤ r
    → set_disabled db actor target disabled ≡ ok (db', u)
    → Protected r db db'
unfolding set_disabled
set_disabled-Protected r db db' actor target disabled u le h =
    let (old, found, h1) = chain (get_user db target) _ (db', u) h in
    let (may, h2) = permitted (outranks actor old.role) _ (db', u) h1 in
    let changed = update_user db target (λ row. record row { disabled = disabled }) in
    let dropped =
      if disabled
      then record changed { login_sessions = without_user target changed.login_sessions }
      else changed in
    let (after, got, h3) = chain (get_user dropped target) _ (db', u) h2 in
    let e : dropped ≡ db' =
      ap (λ (p : Database × AuthUser). p.0) (ok-injective (dropped, after) (db', u) h3) in
    rw (← e) (
      Protected-trans r db changed dropped
        (update_user-Protected r db target (λ row. record row { disabled = disabled })
          (λ row at.
            let same = get_user-row db target old row found at in
            record { above = λ high. absurd (too_high row old same may high); below = λ low. low }))
        (Protected-refl r changed dropped (same_users changed disabled)))
  where
    too_high :
        (row : UserRow) (old : AuthUser)
        → row.role ≡ old.role
        → outranks actor old.role ≡ true
        → r ≤ rank row.role
        → ⊥
    too_high row old same over high =
        let high' : r ≤ rank old.role = rw same at high in ground arith

    same_users :
        (d : Database) (b : Bool)
        → (if b
            then record d { login_sessions = without_user target d.login_sessions }
            else d).users
          ≡ d.users
    same_users d true = refl
    same_users d false = refl

pub set_permission-users :
    (db db' : Database) (actor : AuthUser) (target : ℕ) (permission : String) (allowed : Bool)
    → set_permission db actor target permission allowed ≡ ok db'
    → db'.users ≡ db.users
unfolding set_permission
set_permission-users db db' actor target permission allowed h =
    let (old, found, h1) = chain (get_user db target) _ db' h in
    let (may, h2) = permitted (outranks actor old.role) _ db' h1 in
    ap (λ (d : Database). d.users) (sym (ok-injective _ db' h2))

change_password-Protected :
    (r : ℕ) (lib : Library) (db db' : Database) (i : ℕ) (current : Option String)
    (new salt : String) (force : Bool)
    → change_password lib db i current new salt force ≡ ok db'
    → Protected r db db'
unfolding change_password
change_password-Protected r lib db db' i current new salt force h =
    let (old, found, h1) = chain (get_user db i) _ db' h in
    let (may, h2) = permitted (may_change lib db old current force (get db.users i)) _ db' h1 in
    let (u, valid, h3) = chain (validate_password lib new) _ db' h2 in
    let change : UserRow → UserRow =
      λ row. record row { password = some (lib.password_hash new salt, salt) } in
    let changed = update_user db i change in
    let final = record changed { login_sessions = without_user i changed.login_sessions } in
    rw (← ok-injective final db' h3) (
      Protected-trans r db changed final
        (update_user-Protected r db i change
          (λ row at. record { above = λ le. (refl, refl); below = λ lt. lt }))
        (Protected-refl r changed final refl))

pub create_session-users :
    (lib : Library) (db db' : Database) (i now lifetime : ℕ) (token csrf : String)
    → create_session lib db i now lifetime token csrf ≡ ok db'
    → db'.users ≡ db.users
unfolding create_session
create_session-users lib db db' i now lifetime token csrf h =
    kept_users (has db.users i && not (has db.login_sessions (lib.token_hash token))) h
  where
    kept_users :
        (b : Bool)
        → (constraint b
            >> ok (record db {
              login_sessions =
                  insert db.login_sessions
                    (lib.token_hash token)
                    (record { user_id = i; csrf_token = csrf; expires_at = now + lifetime });
            }))
          ≡ ok db'
        → db'.users ≡ db.users
    kept_users true e = ap (λ (d : Database). d.users) (sym (ok-injective _ db' e))
    kept_users false e = absurd (cc)

pub logout-users :
    (lib : Library) (db : Database) (token : String) → (logout lib db token).users ≡ db.users
unfolding logout
logout-users lib db token = elim (Bool-cases (token == "")) [ inl e ↦ rw e | inr e ↦ rw e ]

-- What the users of the service ask of it. The actor is the user whose session the server found.
pub data Call : Type 0 where
  call_set_role : AuthUser → ℕ → Role → Call
  call_set_disabled : AuthUser → ℕ → Bool → Call
  call_set_permission : AuthUser → ℕ → String → Bool → Call
  call_change_password : ℕ → Option String → String → String → Bool → Call
  call_create_session : ℕ → ℕ → ℕ → String → String → Call
  call_logout : String → Call

-- The rank of the call's actor is at most r.
abbrev pub ActsBelow : ℕ → Call → Type 0
ActsBelow r (call_set_role actor target role) = rank actor.role ≤ r
ActsBelow r (call_set_disabled actor target disabled) = rank actor.role ≤ r
ActsBelow r (call_set_permission actor target permission allowed) = rank actor.role ≤ r
ActsBelow r call = Unit {0}

-- An exception leaves the database as it was.
abbrev pub or_unchanged : Database → Result Database → Database
or_unchanged db (ok db') = db'
or_unchanged db (raise e) = db

abbrev pub first_of_pair : Result (Database × AuthUser) → Result Database
first_of_pair (ok (db, u)) = ok db
first_of_pair (raise e) = raise e

unfoldable pub step : Library → Database → Call → Result Database
step lib db (call_set_role actor target role) = first_of_pair (set_role db actor target role)
step lib db (call_set_disabled actor target disabled) =
    first_of_pair (set_disabled db actor target disabled)
step lib db (call_set_permission actor target permission allowed) =
    set_permission db actor target permission allowed
step lib db (call_change_password i current new salt force) =
    change_password lib db i current new salt force
step lib db (call_create_session i now lifetime token csrf) =
    create_session lib db i now lifetime token csrf
step lib db (call_logout token) = ok (logout lib db token)

unfoldable pub serve : Library → Database → List Call → Database
serve lib db [] = db
serve lib db (call ∷ calls) = serve lib (or_unchanged db (step lib db call)) calls

pub pair_is :
    (m : Result (Database × AuthUser)) (db : Database)
    → first_of_pair m ≡ ok db
    → (u : AuthUser) × (m ≡ ok (db, u))
pair_is (ok (d, u)) db h = (u, ap (λ x. ok (x, u)) (ok-injective d db h))
pair_is (raise e) db h = absurd (cc)

step-Protected :
    (r : ℕ) (lib : Library) (db db' : Database) (call : Call)
    → ActsBelow r call
    → step lib db call ≡ ok db'
    → Protected r db db'
unfolding step
step-Protected r lib db db' (call_set_role actor target role) le h =
    let (u, e) = pair_is (set_role db actor target role) db' h in
    set_role-Protected r db db' actor target role u le e
step-Protected r lib db db' (call_set_disabled actor target disabled) le h =
    let (u, e) = pair_is (set_disabled db actor target disabled) db' h in
    set_disabled-Protected r db db' actor target disabled u le e
step-Protected r lib db db' (call_set_permission actor target permission allowed) le h =
    Protected-refl r db db' (set_permission-users db db' actor target permission allowed h)
step-Protected r lib db db' (call_change_password i current new salt force) le h =
    change_password-Protected r lib db db' i current new salt force h
step-Protected r lib db db' (call_create_session i now lifetime token csrf) le h =
    Protected-refl r db db' (create_session-users lib db db' i now lifetime token csrf h)
step-Protected r lib db db' (call_logout token) le h =
    Protected-refl r db db'
      (ap (λ (d : Database). d.users) (sym (ok-injective _ db' h)) ∙ logout-users lib db token)

-- Whatever is asked, as long as no actor's rank is above r: a user whose rank is r or above keeps
-- its role and whether it is disabled, a user below r stays below r, and no user is lost.
pub serve-Protected :
    (r : ℕ) (lib : Library) (calls : List Call) (db : Database)
    → All (ActsBelow r) calls
    → Protected r db (serve lib db calls)
unfolding serve
serve-Protected r lib [] db all = Protected-refl r db db refl
serve-Protected r lib (call ∷ calls) db all =
    Protected-trans r db next (serve lib next calls) (stepped (step lib db call) refl)
      (serve-Protected r lib calls next all.1)
  where
    next : Database
    next = or_unchanged db (step lib db call)

    stepped : (m : Result Database) → step lib db call ≡ m → Protected r db (or_unchanged db m)
    stepped (ok db') e = step-Protected r lib db db' call all.0 e
    stepped (raise x) e = Protected-refl r db db refl
