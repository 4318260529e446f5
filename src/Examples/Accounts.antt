-- ===== src/Examples/Accounts.antt =====
-- A SQL library that keeps the table in memory, and the users' database over it.
use fspserver.Base.{
  ℕ, Text, codes, same, true, not, Option, none, some, List, [], ◌∷◌, ◌++◌, keep_if, count_if,
  Among, ◌≡◌, ◌⊎◌, inr, refl, sym, ap, subst,
}
use fspserver.Users.{
  User, user_pswd_incorrect, registered_succes, user_already_registered, user_removed,
  internal_error, retrieve_answers, register_answers, erase_answers,
}
use fspserver.Users.Database.{
  c_string, Command, select_password, select_nickname, delete_client, insert_client, Fetch, no_row,
  row, Done, Driver, Rows, first, named, Shows, Documented, retrieve_user, register_user,
  erase_user,
}
use fspserver.Users.Accounts.{Call, retrieve, register, erase, Serves}
use fspserver.Users.Refines.{accounts, run, called, run-Serves}
use fspserver.Users.Reliable.{with_password, methods-Among, register_user-retrieve_user}

abbrev shown : (Text → Fetch) → Option Text → Fetch
shown column none = no_row
shown column (some w) = column w

abbrev executed : Fetch → ℕ → Done
executed fetch n = record {
  is_executed = true;
  is_result_set = true;
  fetch_next = fetch;
  rows_affected = n;
}

abbrev execute_memory : Command → Rows → Option Done × Rows
execute_memory (select_password nick) rows = (some (executed (shown row (first nick rows)) 0), rows)
execute_memory (select_nickname nick) rows =
    (some (executed (shown (λ w. row nick) (first nick rows)) 0), rows)
execute_memory (insert_client nick password) rows =
    (some (executed no_row 1), rows ++ ((nick, password) ∷ []))
execute_memory (delete_client nick) rows =
    (some (executed no_row (count_if (named nick) rows)), keep_if (λ r. not (named nick r)) rows)

abbrev pub memory : Driver Rows
memory = record { is_connected = λ rows. true; is_alive = λ rows. true; execute = execute_memory }

shown-Shows :
    (column : Text → Fetch) (o : Option Text) → Shows column o (executed (shown column o) 0)
shown-Shows column none = (refl, inr refl)
shown-Shows column (some w) = (refl, inr refl)

or_done : Done → Option Done → Done
or_done x none = x
or_done x (some r) = r

same_done : {r s : Done} → some r ≡ some s → r ≡ s
unfolding or_done
same_done {r} {s} e = ap (or_done r) e

pub memory-Documented : Documented memory (λ rows. rows)
memory-Documented = record {
  passwords = λ nick rows r e done.
      subst (Shows row (first nick rows)) (same_done e) (shown-Shows row (first nick rows));
  passwords_keep = λ nick rows. refl;
  nicknames = λ nick rows r e done.
      subst (Shows (λ w. row nick) (first nick rows)) (same_done e)
        (shown-Shows (λ w. row nick) (first nick rows));
  nicknames_keep = λ nick rows. refl;
  inserts = λ nick password rows. refl;
  inserts_one = λ nick password rows r e done. ap (λ x. x.rows_affected) (sym (same_done e));
  deletes = λ nick rows. refl;
  deletes_all = λ nick rows r e done. ap (λ x. x.rows_affected) (sym (same_done e));
}

abbrev pub ann_user : User
ann_user = record { nickname = codes "ann"; password = codes "pw" }

abbrev ann_calls : List Call
ann_calls =
    register ann_user
    ∷ register ann_user
    ∷ retrieve (with_password (codes "no") ann_user)
    ∷ erase ann_user
    ∷ []

run-Serves_example :
    Serves ann_calls
      (accounts [])
      (registered_succes ∷ user_already_registered ∷ user_pswd_incorrect ∷ user_removed ∷ [])
      (accounts [])
unfolding run called retrieve_user register_user erase_user first same c_string keep_if count_if
run-Serves_example = run-Serves memory (λ rows. rows) memory-Documented ann_calls []

methods-Among_example :
    Among (retrieve_user memory ann_user []).0 retrieve_answers
    × Among (register_user memory ann_user []).0 register_answers
    × Among (erase_user memory ann_user []).0 erase_answers
methods-Among_example = methods-Among memory ann_user []

ann_registers : (register_user memory ann_user []).0 ≡ registered_succes
unfolding register_user first c_string same
ann_registers = refl

-- The table after Ann's registration.
abbrev with_ann : Rows
with_ann = (codes "ann", codes "pw") ∷ []

register_user-retrieve_user_example :
    ((retrieve_user memory (with_password (codes "no") ann_user) with_ann).0 ≡ internal_error)
    ⊎ ((retrieve_user memory (with_password (codes "no") ann_user) with_ann).0
        ≡ user_pswd_incorrect)
unfolding register_user first c_string same
register_user-retrieve_user_example =
    register_user-retrieve_user memory (λ rows. rows) memory-Documented ann_user (codes "no") []
      ann_registers
