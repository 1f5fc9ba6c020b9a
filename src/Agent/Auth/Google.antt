-- ===== src/Agent/Auth/Google.antt =====
-- tools/src/exo_tools/agent_core/auth.py, `create_google_user`: a user for a Google account, under
-- the first name that is free.
use agent_setup.Base.{
  ℕ, zero, suc, ◌+◌, ◌≤◌, ◌<◌, ◌≡◌, refl, sym, ap, ◌∙◌, Bool, true, false, not, inl, inr,
  Bool-cases, Option, none, some, [], ◌∷◌, String, length, keep_if, nat_beq, if◌then◌else◌, arith,
}
use agent_setup.Base.Eq.{◌==◌, text_eq, ==_eq}
use agent_setup.Base.Dict.{Dict}
use agent_setup.Base.Result.{Result, ok, raise}
use agent_setup.Agent.Auth.Names.{Characters, base_of, numbered_name, numbered_name-injective}
use agent_setup.Agent.Auth.{
  Role, AuthUser, UserRow, Database, Library, find_username, is_there, create_user, link_google,
}

-- _username_exists
unfoldable pub username_exists : Dict ℕ UserRow → String → Bool
username_exists users name = is_there (find_username name users)

-- The `while` loop: the first name that no user has, from a suffix on.
unfoldable pub free_name : (ℕ → String) → (fuel suffix : ℕ) → Dict ℕ UserRow → Option String
free_name name zero suffix users = none
free_name name (suc fuel) suffix users =
    let rest = free_name name fuel (suc suffix) users in
    if username_exists users (name suffix) then rest else some (name suffix)

-- base, then the numbered names.
abbrev pub nth_candidate : String → ℕ → String
nth_candidate base suffix = if nat_beq suffix 1 then base else numbered_name base suffix

-- The loop ends within two more rounds than there are users.
unfoldable pub google_name : Characters → Dict ℕ UserRow → (google_email : String) → Option String
google_name chars users google_email =
    free_name (nth_candidate (base_of chars google_email)) (length users + 2) 1 users

-- The user is there, even when the account cannot be linked then.
abbrev pub after_link : Database → Result (Database × AuthUser) → Database × Result AuthUser
after_link db (raise e) = (db, raise e)
after_link db (ok (db', u)) = (db', ok u)

abbrev pub then_link :
    Database
    → (google_sub google_email : String) → Result (Database × AuthUser)
    → Database × Result AuthUser
then_link db google_sub google_email (raise e) = (db, raise e)
then_link db google_sub google_email (ok (db', u)) =
    after_link db' (link_google db' u.user_id google_sub google_email)

unfoldable pub create_google_user :
    Characters
    → Library
    → Database
    → (google_sub google_email : String) → Option (Database × Result AuthUser)
create_google_user chars lib db google_sub google_email =
    elim (google_name chars db.users google_email) [
      | none ↦ none
      | some username ↦
          some
            (then_link db google_sub google_email (create_user lib db username none Role.user ""))
    ]

-- The users whose name is another one.
abbrev other_users : String → Dict ℕ UserRow → Dict ℕ UserRow
other_users name users = keep_if (λ (p : ℕ × UserRow). not (p.1.username == name)) users

exists-other_users :
    (name other : String) (users : Dict ℕ UserRow)
    → (name == other) ≡ false
    → username_exists (other_users name users) other ≡ username_exists users other
unfolding username_exists find_username keep_if
exists-other_users name other [] apart = refl
exists-other_users name other ((i, row) ∷ users) apart = elim (Bool-cases (row.username == name)) [
  | inl same ↦
      let e : (row.username == other) ≡ false =
        ap (λ n. n == other) (==_eq row.username name same) ∙ apart in
      rw (same, e) (exists-other_users name other users apart)
  | inr differs ↦ elim (Bool-cases (row.username == other)) [
    | inl found ↦ rw (differs, found)
    | inr not_found ↦ rw (differs, not_found) (exists-other_users name other users apart)
  ]
]

other_users_fewer :
    (name : String) (users : Dict ℕ UserRow) → length (other_users name users) ≤ length users
unfolding keep_if
other_users_fewer name [] = omega arith
other_users_fewer name ((i, row) ∷ users) = elim (Bool-cases (row.username == name)) [
  | inl same ↦ rw same (omega (arith, other_users_fewer name users))
  | inr differs ↦ rw differs (omega (arith, other_users_fewer name users))
]

exists-fewer :
    (name : String) (users : Dict ℕ UserRow)
    → username_exists users name ≡ true
    → length (other_users name users) < length users
unfolding username_exists find_username keep_if
exists-fewer name [] h = absurd (cc)
exists-fewer name ((i, row) ∷ users) h = elim (Bool-cases (row.username == name)) [
  | inl same ↦ rw same (omega (arith, other_users_fewer name users))
  | inr differs ↦ rw differs (omega (arith, exists-fewer name users (rw differs at h)))
]

module _ (name : ℕ → String) (distinct : (i j : ℕ) → i < j → (name i == name j) ≡ false) where
  free_name-other_users :
      (fuel early suffix : ℕ) (users : Dict ℕ UserRow)
      → early < suffix
      → free_name name fuel suffix (other_users (name early) users)
        ≡ free_name name fuel suffix users
  unfolding free_name
  free_name-other_users zero early suffix users lt = refl
  free_name-other_users (suc fuel) early suffix users lt = rw (
    exists-other_users (name early) (name suffix) users (distinct early suffix lt),
    free_name-other_users fuel early (suc suffix) users (omega arith),
  )

  -- The loop ends when there is more fuel than users.
  free_name-ends :
      (fuel suffix : ℕ) (users : Dict ℕ UserRow)
      → length users < fuel
      → (found : String) × (free_name name fuel suffix users ≡ some found)
  unfolding free_name
  free_name-ends zero suffix users enough = absurd (omega arith)
  free_name-ends (suc fuel) suffix users enough =
      elim (Bool-cases (username_exists users (name suffix))) [
        | inl taken ↦
            let fewer = exists-fewer (name suffix) users taken in
            let (found, e) =
              free_name-ends fuel (suc suffix) (other_users (name suffix) users) (omega arith) in
            (
              found,
              rw taken
                  (sym (free_name-other_users fuel suffix (suc suffix) users (omega arith)) ∙ e),
            )
        | inr free ↦ (name suffix, rw free)
      ]

-- From the second round on the names are the numbered ones.
numbered_on :
    (base : String) (fuel suffix : ℕ) (users : Dict ℕ UserRow)
    → 2 ≤ suffix
    → free_name (nth_candidate base) fuel suffix users
      ≡ free_name (numbered_name base) fuel suffix users
unfolding free_name
numbered_on base zero suffix users le = refl
numbered_on base (suc fuel) suffix users le =
    let later : nat_beq suffix 1 ≡ false = ground arith in
    rw (later, numbered_on base fuel (suc suffix) users (omega arith))

free_name-free :
    (name : ℕ → String) (fuel suffix : ℕ) (users : Dict ℕ UserRow) (found : String)
    → free_name name fuel suffix users ≡ some found
    → username_exists users found ≡ false
unfolding free_name
free_name-free name zero suffix users found h = absurd (cc)
free_name-free name (suc fuel) suffix users found h =
    elim (Bool-cases (username_exists users (name suffix))) [
      | inl taken ↦ free_name-free name fuel (suc suffix) users found (rw taken at h)
      | inr free ↦
          let e = some_injective (rw free at h) in ap (username_exists users) (sym e) ∙ free
    ]
  where
    some_injective : {x y : String} → some x ≡ some y → x ≡ y
    some_injective e = cc

numbered_name-apart :
    (base : String) (i j : ℕ) → i < j → (numbered_name base i == numbered_name base j) ≡ false
numbered_name-apart base i j lt = elim (Bool-cases (numbered_name base i == numbered_name base j)) [
  | inl same ↦
      let e =
        numbered_name-injective base i j
          (==_eq (numbered_name base i) (numbered_name base j) same) in
      absurd (omega arith)
  | inr apart ↦ apart
]

-- The search for the name of a Google user ends within two more rounds than there are users, with a
-- name that no user has.
pub google_name-ends :
    (chars : Characters) (users : Dict ℕ UserRow) (google_email : String)
    → (name : String) × (google_name chars users google_email ≡ some name)
      × (username_exists users name ≡ false)
unfolding google_name free_name
google_name-ends chars users google_email =
    let base = base_of chars google_email in
    let (name, e) = rounds base (length users + 2) (omega arith) in
    (name, e, free_name-free (nth_candidate base) (length users + 2) 1 users name e)
  where
    rounds :
        (base : String) (fuel : ℕ)
        → suc (length users) < fuel
        → (name : String) × (free_name (nth_candidate base) fuel 1 users ≡ some name)
    rounds base zero enough = absurd (omega arith)
    rounds base (suc fuel) enough = elim (Bool-cases (username_exists users base)) [
      | inl taken ↦
          let (name, e) =
            free_name-ends (numbered_name base) (numbered_name-apart base) fuel 2 users
              (omega arith) in
          (name, unfold free_name in rw taken (numbered_on base fuel 2 users (omega arith) ∙ e))
      | inr free ↦ (base, unfold free_name in rw free)
    ]
