-- ===== src/Validators/Confirmator.antt =====
-- confirmator.cpp.
use fspserver.Base.{Text, Option, none, some, if◌then◌else◌, same}
use fspserver.Protocol.{Protocol, Message}

unfoldable pub confirm : Protocol → Message → Option Text
confirm p m =
    if same m.command c.signin
    then some r.signin_cmd_accepted
    else if same m.command c.signup
    then some r.signup_cmd_accepted
    else if same m.command c.delete_account
    then some r.delete_account_cmd_accepted
    else if same m.command c.logout
    then some r.logout_cmd_accepted
    else if same m.command c.push_files
    then some r.push_files_cmd_accepted
    else if same m.command c.querry
    then some r.querry_cmd_accepted
    else none
  where
    open p use {commands as c, responses as r}
