-- ===== src/Users/Reliable.antt =====
-- What a caller can rely on: the answers of the methods, and a registration that is read back.
use fspserver.Base.{
  Text, if◌then◌else◌, Option, none, some, [], ◌∷◌, same, same_self, Among, ◌≡◌, ◌⊎◌, inl, inr,
  refl, sym, ap, ◌∙◌, arith, Bool-cases, Option-cases,
}
use fspserver.Users.{
  StatusCode, User, user_credentials_ok, user_pswd_incorrect, registered_succes,
  user_already_registered, internal_error, retrieve_answers, register_answers, erase_answers,
}
use fspserver.Users.Database.{
  c_string, Done, Driver, Documented, Rows, first, fetch_failed, no_row, row, retrieved, looked_up,
  matched, present, Fetch, inserted, erased, down, retrieve_user, register_user, erase_user,
  select_password, select_nickname, insert_client, delete_client,
}
use fspserver.Users.Accounts.{answered, checked, register-none, register-some}
use fspserver.Users.Refines.{accounts, retrieve_user-Refines, register_user-Refines}

c_string-c_string : (xs : Text) → c_string (c_string xs) ≡ c_string xs
unfolding c_string
c_string-c_string [] = refl
c_string-c_string (x ∷ xs) = ground (arith, c_string-c_string xs)

matched-Among : (password : Text) (x : Fetch) → Among (matched password x) retrieve_answers
unfolding matched
matched-Among password fetch_failed = inl refl
matched-Among password no_row = inr (inl refl)
matched-Among password (row stored) = grind arith

retrieved-Among :
    (password : Text) (x : Option Done) → Among (retrieved password x) retrieve_answers
unfolding retrieved
retrieved-Among password none = inl refl
retrieved-Among password (some r) = elim (Bool-cases r.is_executed) [
  | inr e ↦ rw e (inl refl)
  | inl e ↦ elim (Bool-cases r.is_result_set) [
    | inr f ↦ rw (e, f) (inr (inl refl))
    | inl f ↦ rw (e, f) (matched-Among password r.fetch_next)
  ]
]

present-Among :
    (x : Fetch) (status : StatusCode) → present x ≡ some status → Among status register_answers
unfolding present
present-Among fetch_failed status e = grind (arith, e)
present-Among no_row status e = cc
present-Among (row stored) status e = grind (arith, e)

looked_up-Among :
    (x : Option Done) (status : StatusCode)
    → looked_up x ≡ some status
    → Among status register_answers
unfolding looked_up
looked_up-Among none status e = grind (arith, e)
looked_up-Among (some r) status e = grind (arith, e, present-Among r.fetch_next status)

inserted-Among : (x : Option Done) → Among (inserted x) register_answers
unfolding inserted
inserted-Among none = inl refl
inserted-Among (some r) = grind arith

erased-Among : (x : Option Done) → Among (erased x) erase_answers
unfolding erased
erased-Among none = inl refl
erased-Among (some r) = grind arith

module _ {S : Type 0} (d : Driver S) where
  pub retrieve_user-Among : (u : User) (s : S) → Among (retrieve_user d u s).0 retrieve_answers
  unfolding retrieve_user
  retrieve_user-Among u s =
      let done = d.execute (select_password (c_string u.nickname)) s in
      elim (Bool-cases (down d s)) [
        | inl e ↦ rw e (inl refl)
        | inr e ↦ rw e (retrieved-Among u.password done.0)
      ]

  pub register_user-Among : (u : User) (s : S) → Among (register_user d u s).0 register_answers
  unfolding register_user
  register_user-Among u s =
      let done = d.execute (select_nickname (c_string u.nickname)) s in
      let inserting =
        d.execute (insert_client (c_string u.nickname) (c_string u.password)) done.1 in
      elim (Bool-cases (down d s)) [
        | inl e ↦ rw e (inl refl)
        | inr e ↦ rw e (elim (Option-cases (looked_up done.0)) [
          | inl f ↦ rw f (inserted-Among inserting.0)
          | inr (status, f) ↦ rw f (looked_up-Among done.0 status f)
        ])
      ]

  pub erase_user-Among : (u : User) (s : S) → Among (erase_user d u s).0 erase_answers
  unfolding erase_user
  erase_user-Among u s =
      let done = d.execute (delete_client (c_string u.nickname)) s in
      elim (Bool-cases (down d s)) [ inl e ↦ rw e (inl refl) | inr e ↦ rw e (erased-Among done.0) ]

  -- Whatever the SQL library does, each method answers one of the values that its interface lists.
  pub methods-Among :
      (u : User) (s : S)
      → Among (retrieve_user d u s).0 retrieve_answers
        × Among (register_user d u s).0 register_answers
        × Among (erase_user d u s).0 erase_answers
  methods-Among u s = (retrieve_user-Among u s, register_user-Among u s, erase_user-Among u s)

-- The same user, with another password.
abbrev pub with_password : Text → User → User
with_password password u = record u { password = password }

module _ {S : Type 0} (d : Driver S) (clients : S → Rows) (law : Documented d clients) where
  not_twice : registered_succes ≡ user_already_registered → ⊥
  not_twice h = cc

  not_refused : registered_succes ≡ internal_error → ⊥
  not_refused h = cc

  registered-accounts :
      (u : User) (s : S)
      → (register_user d u s).0 ≡ registered_succes
      → first (c_string u.nickname) (clients (register_user d u s).1) ≡ some (c_string u.password)
  registered-accounts u s e =
      let a = accounts (clients s) in
      elim (register_user-Refines d clients law u s) [
        | inl (f, k) ↦ absurd (not_refused (sym e ∙ f))
        | inr (f, k) ↦ elim (Option-cases (a (c_string u.nickname))) [
          | inl g ↦
              ap (λ b. b (c_string u.nickname)) (k ∙ ap (λ r. r.1) (register-none u a g))
              ∙ rw (same_self (c_string u.nickname)) refl
          | inr (w, g) ↦ absurd (not_twice (sym e ∙ f ∙ ap (λ r. r.0) (register-some u a w g)))
        ]
      ]

  -- Where the SQL library behaves as it is documented, a user who has been registered is read back: a
  -- password is found to be correct exactly when it is the registered one up to that one's first zero
  -- byte, unless the database answers an internal error.
  pub register_user-retrieve_user :
      (u : User) (password : Text) (s : S)
      → (register_user d u s).0 ≡ registered_succes
      → let after = (register_user d u s).1 in
        let status = (retrieve_user d (with_password password u) after).0 in
        (status ≡ internal_error)
        ⊎ (status ≡ (
            if same password (c_string u.password)
            then user_credentials_ok
            else user_pswd_incorrect))
  unfolding answered
  register_user-retrieve_user u password s e =
      elim (retrieve_user-Refines d clients law (with_password password u)
        (register_user d u s).1) [
          | inl (f, k) ↦ inl f
          | inr (f, k) ↦ inr (
              f
              ∙ ap (checked password) (registered-accounts u s e)
              ∙ rw (c_string-c_string u.password) refl)
        ]
