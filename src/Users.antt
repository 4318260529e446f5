-- ===== src/Users.antt =====
-- IUsersDB.h and IUsersDB.cpp: the answers of the users' database, a user, and what the methods of the
-- database promise to answer.
pub mod Database
pub mod Accounts
pub mod Outcomes
pub mod Refines
pub mod Reliable
use fspserver.Base.{Text, codes, List, [], ◌∷◌}

pub data StatusCode : Type 0 where
  user_credentials_ok user_not_found user_pswd_incorrect : StatusCode
  registered_succes user_already_registered : StatusCode
  user_removed user_failed_to_remove : StatusCode
  internal_error : StatusCode

pub record User : Type 0 where
  pub nickname : Text
  pub password : Text

-- What the header lists as the return values of each method.
abbrev pub retrieve_answers : List StatusCode
retrieve_answers = internal_error ∷ user_not_found ∷ user_pswd_incorrect ∷ user_credentials_ok ∷ []

abbrev pub register_answers : List StatusCode
register_answers = internal_error ∷ user_already_registered ∷ registered_succes ∷ []

abbrev pub erase_answers : List StatusCode
erase_answers = internal_error ∷ user_failed_to_remove ∷ user_removed ∷ []

unfoldable pub to_string : StatusCode → Text
to_string user_credentials_ok = codes "User credentials ok"
to_string user_not_found = codes "User wasn't found"
to_string user_pswd_incorrect = codes "User password is not correct"
to_string registered_succes = codes "User was registered with succes"
to_string user_already_registered = codes "User is already registered"
to_string user_removed = codes "User was removed successfully"
to_string user_failed_to_remove = codes "User was not removed"
to_string internal_error = codes "Internal error"
