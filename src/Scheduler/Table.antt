-- ===== src/Scheduler/Table.antt =====
-- The table of protocol_impl.h, which nothing includes, against the priorities that
-- server_side_handler.cpp gives its tasks.
use fspserver.Base.{
  Text, if◌then◌else◌, same, same_iff, Option, none, some, List, [], ◌∷◌, Among, ◌≡◌, arith,
}
use fspserver.Protocol.{Protocol, Message}
use fspserver.Handler.Tasks.{Priority, very_low, low, medium, high, very_high, Task, handle_message}
use fspserver.Machine.Commands.{CommandsApart}

-- The commands of the table that the handler does not know.
pub record OtherCommands : Type 0 where
  pub update_file_list_notification : Text
  pub user_logged_out_notification : Text
  pub remove_files : Text
  pub download_file : Text
  pub reply_notification : Text

abbrev pub cmd_priorities : Protocol → OtherCommands → List (Text × Priority)
cmd_priorities p x =
    (p.commands.signin, high)
    ∷ (p.commands.signup, high)
    ∷ (p.commands.delete_account, low)
    ∷ (p.commands.logout, very_high)
    ∷ (p.commands.push_files, medium)
    ∷ (x.update_file_list_notification, high)
    ∷ (x.user_logged_out_notification, very_high)
    ∷ (x.remove_files, medium)
    ∷ (x.download_file, low)
    ∷ (x.reply_notification, very_low)
    ∷ []

-- Of two entries of a std::map's list with one key, the first counts.
unfoldable pub priority_of : Text → List (Text × Priority) → Option Priority
priority_of t [] = none
priority_of t ((u, priority) ∷ rest) = if same t u then some priority else priority_of t rest

abbrev served : Protocol → List Text
served p =
    p.commands.signin ∷ p.commands.signup ∷ p.commands.push_files ∷ p.commands.delete_account
    ∷ p.commands.logout ∷ []

abbrev AllRanked : Option Priority → List (Priority × Task) → Type 0
AllRanked priority [] = Unit
AllRanked priority ((q, task) ∷ rest) = (priority ≡ some q) × AllRanked priority rest

-- The commands that the handler serves itself get the priorities that the table has for them, where no
-- two commands are one text.
pub handle_message-priority_of :
    (p : Protocol) (x : OtherCommands) (m : Message) (files : List Text)
    → CommandsApart p
    → Among m.command (served p)
    → AllRanked (priority_of m.command (cmd_priorities p x)) (handle_message p m files)
unfolding handle_message priority_of
handle_message-priority_of p x m files apart h = ground (
  arith,
  h,
  apart,
  same_iff m.command p.commands.signin,
  same_iff m.command p.commands.signup,
  same_iff m.command p.commands.push_files,
  same_iff m.command p.commands.querry,
  same_iff m.command p.commands.delete_account,
  same_iff m.command p.commands.logout,
)
