-- ===== src/Handler/Signing.antt =====
-- Sign-in, with the users' database that answers it.
use fspserver.Base.{
  ℕ, Text, true, false, List, [], ◌∷◌, some, same, Among, ◌≡◌, ◌⊎◌, inl, inr, refl, ap, ◌∙◌, lookup,
  Bool-cases, Option-cases,
}
use fspserver.Protocol.{Protocol}
use fspserver.Hub.State.{Builder, Hub, Connection}
use fspserver.Hub.Notify.{log_in, is_logged}
use fspserver.Users.{StatusCode, User}
use fspserver.Users.Database.{c_string, Driver, Documented, Rows, first, retrieve_user}
use fspserver.Users.Accounts.{answered, checked, checked_right, checked_wrong}
use fspserver.Users.Refines.{retrieve_user-Refines}
use fspserver.Handler.Accounts.{answer, signin_switch, do_signin}

module _ (p : Protocol) (b : Builder) where
  open p use {responses as rsp}

  -- A request that gets one reply of a list of codes, and changes nothing else.
  abbrev pub Refuses : List Text → Text → ℕ → Hub → Hub → Type 0
  Refuses refusals id address h result =
      (code : Text) × Among code refusals × (result ≡ answer p b address code id h)

  abbrev pub signin_refusals : List Text
  signin_refusals =
      rsp.user_already_logged ∷ rsp.nickname_incorrect ∷ rsp.password_incorrect
      ∷ rsp.internal_server_err ∷ []

  do_signin_at :
      {status : StatusCode} {expected : StatusCode} (id login : Text) (address : ℕ) (c : Connection)
      (h : Hub)
      → lookup address h.connections ≡ some c
      → status ≡ expected
      → do_signin p b status id login address h ≡ signin_switch p b expected id login address h
  unfolding do_signin
  do_signin_at id login address c h at e = rw (at, do_signin, e) refl

  module _ {S : Type 0} (d : Driver S) (clients : S → Rows) (law : Documented d clients) where
    -- The user is logged in, with the password of the table, and was not logged in before.
    abbrev pub LogsIn : User → Text → ℕ → S → Hub → Hub → Type 0
    LogsIn u id address s h result =
        (result ≡ answer p b address rsp.login_successfull id (log_in address u.nickname h))
        × (is_logged u.nickname h ≡ false)
        × ((stored : Text) × (first (c_string u.nickname) (clients s) ≡ some stored)
            × (same u.password (c_string stored) ≡ true))

    -- A sign-in over a connection that is there is answered. Where the SQL library behaves as it is
    -- documented, it logs the user in only with the password that the table has for the nickname, and
    -- only where no connection has the nickname; in every other case nothing but the reply changes.
    pub do_signin_checked :
        (u : User) (id : Text) (address : ℕ) (c : Connection) (s : S) (h : Hub)
        → lookup address h.connections ≡ some c
        → let result = do_signin p b (retrieve_user d u s).0 id u.nickname address h in
          LogsIn u id address s h result ⊎ Refuses signin_refusals id address h result
    unfolding signin_switch answered
    do_signin_checked u id address c s h at =
        let nick = c_string u.nickname in
        elim (retrieve_user-Refines d clients law u s) [
          | inl (f, k) ↦ inr (
            rsp.internal_server_err,
            inr (inr (inr (inl refl))),
            do_signin_at id u.nickname address c h at f,
          )
          | inr (f, k) ↦ elim (Option-cases (first nick (clients s))) [
            | inl g ↦ inr (
              rsp.nickname_incorrect,
              inr (inl refl),
              do_signin_at id u.nickname address c h at (f ∙ ap (checked u.password) g),
            )
            | inr (w, g) ↦ elim (Bool-cases (same u.password (c_string w))) [
              | inr e ↦ inr (
                rsp.password_incorrect,
                inr (inr (inl refl)),
                do_signin_at id u.nickname address c h at
                    (f ∙ ap (checked u.password) g ∙ checked_wrong u.password w e),
              )
              | inl e ↦
                  let accepted =
                    do_signin_at id u.nickname address c h at
                      (f ∙ ap (checked u.password) g ∙ checked_right u.password w e) in
                  elim (Bool-cases (is_logged u.nickname h)) [
                    | inl l ↦ inr (rsp.user_already_logged, inl refl, accepted ∙ rw l refl)
                    | inr l ↦ inl (accepted ∙ rw l refl, l, (w, g, e))
                  ]
            ]
          ]
        ]
