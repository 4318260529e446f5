-- ===== src/Handler/Accounts.antt =====
-- do_signin, do_signup, do_delete_account and do_logout. The database's answer is an argument.
use fspserver.Base.{ℕ, Text, [], none, some, if◌then◌else◌, lookup}
use fspserver.Protocol.{Protocol}
use fspserver.Users.{
  StatusCode, user_credentials_ok, user_not_found, user_pswd_incorrect, registered_succes,
  user_already_registered, user_removed, user_failed_to_remove, internal_error,
}
use fspserver.Hub.State.{reply, Builder, Hub}
use fspserver.Hub.Notify.{write, log_in, is_logged, stop}

module _ (p : Protocol) (b : Builder) where
  open p use {responses as rsp}

  -- A reply with no further headers.
  abbrev pub answer : ℕ → Text → Text → Hub → Hub
  answer address code id = write address (b.build (reply code id []))

  unfoldable pub signin_switch : StatusCode → Text → Text → ℕ → Hub → Hub
  signin_switch user_credentials_ok id login address h =
      if is_logged login h
      then answer address rsp.user_already_logged id h
      else answer address rsp.login_successfull id (log_in address login h)
  signin_switch user_not_found id login address h = answer address rsp.nickname_incorrect id h
  signin_switch user_pswd_incorrect id login address h = answer address rsp.password_incorrect id h
  signin_switch internal_error id login address h = answer address rsp.internal_server_err id h
  signin_switch _ id login address h = h

  unfoldable pub do_signin : StatusCode → Text → Text → ℕ → Hub → Hub
  unfolding signin_switch
  do_signin status id login address h = elim (lookup address h.connections) [
    | none ↦ h
    | some c ↦ signin_switch status id login address h
  ]

  unfoldable pub signup_switch : StatusCode → Text → Text → ℕ → Hub → Hub
  signup_switch registered_succes id login address h =
      answer address rsp.registering_successfull id (log_in address login h)
  signup_switch user_already_registered id login address h =
      answer address rsp.user_already_registered id h
  signup_switch internal_error id login address h = answer address rsp.internal_server_err id h
  signup_switch _ id login address h = h

  unfoldable pub do_signup : StatusCode → Text → Text → ℕ → Hub → Hub
  unfolding signup_switch
  do_signup status id login address h = elim (lookup address h.connections) [
    | none ↦ h
    | some c ↦ signup_switch status id login address h
  ]

  unfoldable pub delete_switch : StatusCode → Text → ℕ → Hub → Hub
  delete_switch user_removed id address h = answer address rsp.deleting_account_successfull id h
  delete_switch user_failed_to_remove id address h = answer address rsp.remove_account_failed id h
  delete_switch internal_error id address h = answer address rsp.internal_server_err id h
  delete_switch _ id address h = h

  unfoldable pub do_delete_account : StatusCode → Text → ℕ → Hub → Hub
  unfolding delete_switch
  do_delete_account status id address h = elim (lookup address h.connections) [
    | none ↦ h
    | some c ↦ delete_switch status id address h
  ]

  unfoldable pub do_logout : ℕ → Hub → Hub
  do_logout address h = elim (lookup address h.connections) [
    | none ↦ h
    | some c ↦ stop p b address h
  ]
