-- ===== src/Users/Refines.antt =====
-- The users' database implements a map from nicknames to passwords.
use fspserver.Base.{
  not, ◌==◌, if◌then◌else◌, Option, none, List, [], ◌∷◌, ◌++◌, keep_if, count_if, ◌≡◌, ◌⊎◌, inl,
  inr, refl, ap, ◌∙◌, subst, Bool-cases, Option-cases,
}
use mathlib.Core.Path.{fun_ext}
use fspserver.Users.{
  StatusCode, User, registered_succes, user_removed, user_failed_to_remove, internal_error,
}
use fspserver.Users.Database.{
  c_string, Done, Driver, Documented, Rows, first, named, succeeded, select_password,
  select_nickname, insert_client, delete_client, looked_up, inserted, erased, down, retrieve_user,
  register_user, erase_user,
}
use fspserver.Base.{sym}
use fspserver.Users.Accounts.{
  Serves, rests, serves, refuses, Accounts, Call, retrieve, register, erase, answered, erase-none,
  erase-some, register-none, register-some,
}
use fspserver.Users.Outcomes.{
  first-append, first-keep_if, removed_none, count_if-none, count_if-some, retrieved_any, Reads,
  looked_up_any, inserted_any, erased_any,
}

-- A call, on the database.
unfoldable pub called : {S : Type 0} → Driver S → Call → S → StatusCode × S
unfolding retrieve_user register_user erase_user
called d (retrieve u) s = retrieve_user d u s
called d (register u) s = register_user d u s
called d (erase u) s = erase_user d u s

-- A run of calls on the database.
unfoldable pub run : {S : Type 0} → Driver S → List Call → S → List StatusCode × S
unfolding called
run d [] s = ([], s)
run d (c ∷ calls) s =
    let now = called d c s in let later = run d calls now.1 in (now.0 ∷ later.0, later.1)

-- The map that a table stands for.
abbrev pub accounts : Rows → Accounts
accounts rows = λ m. first m rows

-- A call that answered and left a table did as the map does, or failed and changed nothing.
abbrev pub Refined : Call → Rows → StatusCode → Rows → Type 0
Refined c rows status after =
    ((status ≡ internal_error) × (accounts after ≡ accounts rows))
    ⊎ ((status ≡ (answered c (accounts rows)).0)
        × (accounts after ≡ (answered c (accounts rows)).1))

erases :
    (u : User) (rows after : Rows) (x : Option Done)
    → erased x ≡ (
        if succeeded x
        then if count_if (named (c_string u.nickname)) rows == 0
          then user_failed_to_remove
          else user_removed
        else internal_error)
    → after
      ≡ (if succeeded x then keep_if (λ r. not (named (c_string u.nickname) r)) rows else rows)
    → Refined (erase u) rows (erased x) after
unfolding answered
erases u rows after x status left =
    let nick = c_string u.nickname in
    elim (Bool-cases (succeeded x)) [
      | inr f ↦ inl (status ∙ rw f refl, ap accounts (left ∙ rw f refl))
      | inl f ↦ elim (Option-cases (first nick rows)) [
        | inl g ↦ rw (erase-none u (accounts rows) g) (
            inr (
              status ∙ rw (f, count_if-none nick rows g) refl,
              ap accounts left ∙ fun_ext (λ m. rw f (removed_none nick rows m g)),
            ))
        | inr (w, g) ↦ rw (erase-some u (accounts rows) w g) (
            inr (
              status ∙ rw (f, count_if-some nick w rows g) refl,
              ap accounts left ∙ fun_ext (λ m. rw f (first-keep_if nick rows m)),
            ))
      ]
    ]

registers :
    (u : User) (rows middle after : Rows) (x : Option Done)
    → first (c_string u.nickname) rows ≡ none
    → middle ≡ rows
    → inserted x ≡ (if succeeded x then registered_succes else internal_error)
    → after ≡ (
        if succeeded x then middle ++ ((c_string u.nickname, c_string u.password) ∷ []) else middle)
    → Refined (register u) rows (inserted x) after
registers u rows middle after x new same_rows status left =
    let nick = c_string u.nickname in
    let word = c_string u.password in
    elim (Bool-cases (succeeded x)) [
      | inr f ↦ inl (status ∙ rw f refl, ap accounts (left ∙ rw f same_rows))
      | inl f ↦ rw (register-none u (accounts rows) new) (
          inr (
            status ∙ rw f refl,
            ap accounts left ∙ fun_ext (λ m. rw (f, same_rows) (first-append nick word rows m new)),
          ))
    ]

module _ {S : Type 0} (d : Driver S) (clients : S → Rows) (law : Documented d clients) where
  abbrev pub Refines : Call → S → StatusCode × S → Type 0
  Refines c s result = Refined c (clients s) result.0 (clients result.1)

  pub retrieve_user-Refines : (u : User) (s : S) → Refines (retrieve u) s (retrieve_user d u s)
  unfolding retrieve_user answered
  retrieve_user-Refines u s =
      let nick = c_string u.nickname in
      let done = d.execute (select_password nick) s in
      let kept = ap accounts (law.passwords_keep nick s) in
      elim (Bool-cases (down d s)) [
        | inl e ↦ rw e (inl (refl, refl))
        | inr e ↦
            rw e
              (elim (retrieved_any u.password (first nick (clients s)) done.0
                (law.passwords nick s)) [ inl f ↦ inl (f, kept) | inr f ↦ inr (f, kept) ])
      ]

  pub erase_user-Refines : (u : User) (s : S) → Refines (erase u) s (erase_user d u s)
  unfolding erase_user
  erase_user-Refines u s =
      let nick = c_string u.nickname in
      let done = d.execute (delete_client nick) s in
      elim (Bool-cases (down d s)) [
        | inl e ↦ rw e (inl (refl, refl))
        | inr e ↦ rw e (
            erases u (clients s) (clients done.1) done.0
              (erased_any (count_if (named nick) (clients s)) done.0 (law.deletes_all nick s))
              (law.deletes nick s))
      ]

  pub register_user-Refines : (u : User) (s : S) → Refines (register u) s (register_user d u s)
  unfolding register_user
  register_user-Refines u s =
      let nick = c_string u.nickname in
      let done = d.execute (select_nickname nick) s in
      let kept = law.nicknames_keep nick s in
      let inserting = d.execute (insert_client nick (c_string u.password)) done.1 in
      elim (Bool-cases (down d s)) [
        | inl e ↦ rw e (inl (refl, refl))
        | inr e ↦ rw e (elim (Option-cases (first nick (clients s))) [
          | inl g ↦
              elim (subst (λ o. Reads o (looked_up done.0)) g
                (looked_up_any nick (first nick (clients s)) done.0 (law.nicknames nick s))) [
                  | inl f ↦ rw f (inl (refl, ap accounts kept))
                  | inr f ↦ rw f (
                      registers u (clients s) (clients done.1) (clients inserting.1) inserting.0 g
                        kept
                        (inserted_any inserting.0
                          (law.inserts_one nick (c_string u.password) done.1))
                        (law.inserts nick (c_string u.password) done.1))
                ]
          | inr (w, g) ↦
              elim (subst (λ o. Reads o (looked_up done.0)) g
                (looked_up_any nick (first nick (clients s)) done.0 (law.nicknames nick s))) [
                  | inl f ↦ rw f (inl (refl, ap accounts kept))
                  | inr f ↦
                      rw (f, register-some u (accounts (clients s)) w g)
                        (inr (refl, ap accounts kept))
                ]
        ])
      ]

  pub called-Refines : (c : Call) (s : S) → Refines c s (called d c s)
  unfolding called
  called-Refines (retrieve u) s = retrieve_user-Refines u s
  called-Refines (register u) s = register_user-Refines u s
  called-Refines (erase u) s = erase_user-Refines u s

  -- Where the SQL library behaves as it is documented, whatever it fails at, the answers that a run of
  -- calls gets are those of a map from nicknames to passwords: the map is what the table stands for
  -- before and after, and a call that answers an internal error has left it alone.
  pub run-Serves :
      (calls : List Call) (s : S)
      → Serves calls (accounts (clients s)) (run d calls s).0 (accounts (clients (run d calls s).1))
  unfolding run
  run-Serves [] s = rests
  run-Serves (c ∷ calls) s =
      let now = called d c s in
      let later = run d calls now.1 in
      let after = accounts (clients later.1) in
      let rest = run-Serves calls now.1 in
      elim (called-Refines c s) [
        | inl (e, k) ↦
            subst (λ x. Serves (c ∷ calls) (accounts (clients s)) (x ∷ later.0) after) (sym e)
              (refuses c (subst (λ a. Serves calls a later.0 after) k rest))
        | inr (e, k) ↦
            subst (λ x. Serves (c ∷ calls) (accounts (clients s)) (x ∷ later.0) after) (sym e)
              (serves c (subst (λ a. Serves calls a later.0 after) k rest))
      ]
