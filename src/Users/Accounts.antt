-- ===== src/Users/Accounts.antt =====
-- The abstract view of the users' database: a map from nicknames to passwords, and the calls on it.
use fspserver.Base.{
  true, false, Text, if◌then◌else◌, Option, none, some, List, [], ◌∷◌, same, ◌≡◌, refl,
}
use fspserver.Users.{
  StatusCode, User, user_credentials_ok, user_not_found, user_pswd_incorrect, registered_succes,
  user_already_registered, user_removed, user_failed_to_remove, internal_error,
}
use fspserver.Users.Database.{c_string}

-- What the database is for its clients: a map from nicknames to passwords.
abbrev pub Accounts : Type 0
Accounts = Text → Option Text

pub data Call : Type 0 where
  retrieve register erase : User → Call

abbrev pub checked : Text → Option Text → StatusCode
checked password none = user_not_found
checked password (some w) =
    if same password (c_string w) then user_credentials_ok else user_pswd_incorrect

pub checked_right :
    (password w : Text)
    → same password (c_string w) ≡ true
    → checked password (some w) ≡ user_credentials_ok
checked_right password w e = rw e refl

pub checked_wrong :
    (password w : Text)
    → same password (c_string w) ≡ false
    → checked password (some w) ≡ user_pswd_incorrect
checked_wrong password w e = rw e refl

-- A call, on the map.
unfoldable pub answered : Call → Accounts → StatusCode × Accounts
answered (retrieve u) a = (checked u.password (a (c_string u.nickname)), a)
answered (register u) a = elim (a (c_string u.nickname)) [
  | some w ↦ (user_already_registered, a)
  | none ↦ (
    registered_succes,
    λ m. if same m (c_string u.nickname) then some (c_string u.password) else a m,
  )
]
answered (erase u) a = elim (a (c_string u.nickname)) [
  | some w ↦ (user_removed, λ m. if same m (c_string u.nickname) then none else a m)
  | none ↦ (user_failed_to_remove, a)
]

-- A run of calls on the map, in which any call may be refused with an internal error.
pub data Serves : List Call → Accounts → List StatusCode → Accounts → Type 0 where
  rests : {a : Accounts} → Serves [] a [] a
  serves :
      (c : Call) {calls : List Call} {a b : Accounts} {answers : List StatusCode}
      → Serves calls (answered c a).1 answers b
      → Serves (c ∷ calls) a ((answered c a).0 ∷ answers) b
  refuses :
      (c : Call) {calls : List Call} {a b : Accounts} {answers : List StatusCode}
      → Serves calls a answers b
      → Serves (c ∷ calls) a (internal_error ∷ answers) b

pub erase-none :
    (u : User) (a : Accounts)
    → a (c_string u.nickname) ≡ none
    → answered (erase u) a ≡ (user_failed_to_remove, a)
unfolding answered
erase-none u a h = rw (h, answered) refl

pub erase-some :
    (u : User) (a : Accounts) (w : Text)
    → a (c_string u.nickname) ≡ some w
    → answered (erase u) a ≡ (user_removed, λ m. if same m (c_string u.nickname) then none else a m)
unfolding answered
erase-some u a w h = rw (h, answered) refl

pub register-none :
    (u : User) (a : Accounts)
    → a (c_string u.nickname) ≡ none
    → answered (register u) a ≡ (
      registered_succes,
      λ m. if same m (c_string u.nickname) then some (c_string u.password) else a m,
    )
unfolding answered
register-none u a h = rw (h, answered) refl

pub register-some :
    (u : User) (a : Accounts) (w : Text)
    → a (c_string u.nickname) ≡ some w
    → answered (register u) a ≡ (user_already_registered, a)
unfolding answered
register-some u a w h = rw (h, answered) refl
