-- ===== src/Users/Database.antt =====
-- SQLiteDB.cpp: the methods of the users' database, over the commands that they give to the SQL
-- library. The library is the parameter Driver; what its documentation promises is Documented.
use fspserver.Base.{
  ℕ, Text, Bool, true, false, not, ◌||◌, ◌==◌, if◌then◌else◌, Option, none, some, List, [], ◌∷◌,
  ◌++◌, same, keep_if, count_if, ◌≡◌, ◌⊎◌,
}
use fspserver.Users.{
  StatusCode, User, user_credentials_ok, user_not_found, user_pswd_incorrect, registered_succes,
  user_already_registered, user_removed, user_failed_to_remove, internal_error,
}

-- What a `char const*` shows of a string: the bytes before the first one that is zero.
unfoldable pub c_string : Text → Text
c_string [] = []
c_string (x ∷ xs) = let rest = c_string xs in if x == 0 then [] else x ∷ rest

-- The four statements, with the strings bound to them.
pub data Command : Type 0 where
  select_password select_nickname delete_client : Text → Command
  insert_client : Text → Text → Command

-- FetchNext with the last column of the row: it throws, there is no row, or there is one.
pub data Fetch : Type 0 where
  fetch_failed no_row : Fetch
  row : Text → Fetch

-- A command after its Execute.
pub record Done : Type 0 where
  pub is_executed : Bool
  pub is_result_set : Bool
  pub fetch_next : Fetch
  pub rows_affected : ℕ

-- SAConnection and SACommand, over a state of theirs. Execute throws, or leaves a command to ask.
pub record Driver (S : Type 0) : Type 0 where
  pub is_connected : S → Bool
  pub is_alive : S → Bool
  pub execute : Command → S → Option Done × S

-- What retrieve_user makes of the row that FetchNext gives.
unfoldable pub matched : Text → Fetch → StatusCode
matched password fetch_failed = internal_error
matched password no_row = user_not_found
matched password (row stored) =
    if same password (c_string stored) then user_credentials_ok else user_pswd_incorrect

unfoldable pub retrieved : Text → Option Done → StatusCode
unfolding matched
retrieved password none = internal_error
retrieved password (some r) =
    if not r.is_executed
    then internal_error
    else if not r.is_result_set
    then user_not_found
    else matched password r.fetch_next

-- What register_user makes of it: a code to return, or that there is no such user.
unfoldable pub present : Fetch → Option StatusCode
present fetch_failed = some internal_error
present no_row = none
present (row stored) = some user_already_registered

unfoldable pub looked_up : Option Done → Option StatusCode
unfolding present
looked_up none = some internal_error
looked_up (some r) =
    if not r.is_executed || not r.is_result_set then some internal_error else present r.fetch_next

unfoldable pub inserted : Option Done → StatusCode
inserted none = internal_error
inserted (some r) =
    if not r.is_executed
    then internal_error
    else if r.rows_affected == 0
    then internal_error
    else registered_succes

unfoldable pub erased : Option Done → StatusCode
erased none = internal_error
erased (some r) =
    if not r.is_executed
    then internal_error
    else if r.rows_affected == 0
    then user_failed_to_remove
    else user_removed

module _ {S : Type 0} (d : Driver S) where
  unfoldable pub down : S → Bool
  down s = not (d.is_connected s) || not (d.is_alive s)

  unfoldable pub retrieve_user : User → S → StatusCode × S
  unfolding down retrieved
  retrieve_user u s =
      if down s
      then (internal_error, s)
      else let done = d.execute (select_password (c_string u.nickname)) s in
        (retrieved u.password done.0, done.1)

  unfoldable pub register_user : User → S → StatusCode × S
  unfolding down looked_up inserted
  register_user u s =
      if down s
      then (internal_error, s)
      else let done = d.execute (select_nickname (c_string u.nickname)) s in
        elim (looked_up done.0) [
          | some status ↦ (status, done.1)
          | none ↦
              let inserting =
                d.execute (insert_client (c_string u.nickname) (c_string u.password)) done.1 in
              (inserted inserting.0, inserting.1)
        ]

  unfoldable pub erase_user : User → S → StatusCode × S
  unfolding down erased
  erase_user u s =
      if down s
      then (internal_error, s)
      else let done = d.execute (delete_client (c_string u.nickname)) s in (erased done.0, done.1)

abbrev pub Rows : Type 0
Rows = List (Text × Text)

-- The password in the first row of a nickname.
unfoldable pub first : Text → Rows → Option Text
first nick [] = none
first nick ((n, w) ∷ rows) = if same nick n then some w else first nick rows

abbrev pub named : Text → Text × Text → Bool
named nick r = same nick r.0

abbrev pub succeeded : Option Done → Bool
succeeded none = false
succeeded (some r) = r.is_executed

-- A select has a result set, whose first row is that of the nickname, if there is one.
abbrev pub Shows : (Text → Fetch) → Option Text → Done → Type 0
Shows column none r =
    (r.is_result_set ≡ true) × ((r.fetch_next ≡ fetch_failed) ⊎ (r.fetch_next ≡ no_row))
Shows column (some w) r =
    (r.is_result_set ≡ true) × ((r.fetch_next ≡ fetch_failed) ⊎ (r.fetch_next ≡ column w))

-- The library as it is documented, on the rows of the table Clients: a statement that is executed does
-- what it says, and one that fails or throws does not change the table.
pub record Documented {S : Type 0} (d : Driver S) (clients : S → Rows) : Type 0 where
  pub passwords :
      (nick : Text) (s : S) (r : Done)
      → (d.execute (select_password nick) s).0 ≡ some r
      → r.is_executed ≡ true
      → Shows row (first nick (clients s)) r
  pub passwords_keep :
      (nick : Text) (s : S) → clients (d.execute (select_password nick) s).1 ≡ clients s
  pub nicknames :
      (nick : Text) (s : S) (r : Done)
      → (d.execute (select_nickname nick) s).0 ≡ some r
      → r.is_executed ≡ true
      → Shows (λ w. row nick) (first nick (clients s)) r
  pub nicknames_keep :
      (nick : Text) (s : S) → clients (d.execute (select_nickname nick) s).1 ≡ clients s
  pub inserts :
      (nick password : Text) (s : S)
      → let done = d.execute (insert_client nick password) s in
        clients done.1
        ≡ (if succeeded done.0 then clients s ++ ((nick, password) ∷ []) else clients s)
  pub inserts_one :
      (nick password : Text) (s : S) (r : Done)
      → (d.execute (insert_client nick password) s).0 ≡ some r
      → r.is_executed ≡ true
      → r.rows_affected ≡ 1
  pub deletes :
      (nick : Text) (s : S)
      → let done = d.execute (delete_client nick) s in
        clients done.1
        ≡ (if succeeded done.0 then keep_if (λ r. not (named nick r)) (clients s) else clients s)
  pub deletes_all :
      (nick : Text) (s : S) (r : Done)
      → (d.execute (delete_client nick) s).0 ≡ some r
      → r.is_executed ≡ true
      → r.rows_affected ≡ count_if (named nick) (clients s)
