-- ===== src/Validators/Transition.antt =====
-- transition_validator.cpp: which commands a client may send in its state (client.h).
use fspserver.Base.{
  Text, Option, none, some, not, ◌&&◌, if◌then◌else◌, same, same_iff, List, [], ◌∷◌, ◌≡◌, ◌⊎◌, ◌↔◌,
  arith,
}
use fspserver.Protocol.{Protocol, Message, OneOf}

-- client::State
pub data State : Type 0 where
  connected logged processing : State

unfoldable pub validate : Protocol → Message → State → Option Text
validate p m connected =
    if not (same m.command p.commands.signin) && not (same m.command p.commands.signup)
    then some p.responses.invalid_cmd_while_in_conn_state
    else none
validate p m logged =
    if not (same m.command p.commands.push_files)
      && (not (same m.command p.commands.delete_account) && not (same m.command p.commands.logout))
    then some p.responses.invalid_cmd_while_in_logged_state
    else none
validate p m processing =
    if not (same m.command p.commands.delete_account)
      && (not (same m.command p.commands.logout)
          && (not (same m.command p.commands.querry) && not (same m.command p.commands.reply)))
    then some p.responses.invalid_cmd_while_in_processing_state
    else none

-- The commands that belong to a state.
abbrev pub allowed : Protocol → State → List Text
allowed p connected = p.commands.signin ∷ p.commands.signup ∷ []
allowed p logged = p.commands.push_files ∷ p.commands.delete_account ∷ p.commands.logout ∷ []
allowed p processing =
    p.commands.delete_account ∷ p.commands.logout ∷ p.commands.querry ∷ p.commands.reply ∷ []

-- The code by which a state refuses every other command.
abbrev pub refusal : Protocol → State → Text
refusal p connected = p.responses.invalid_cmd_while_in_conn_state
refusal p logged = p.responses.invalid_cmd_while_in_logged_state
refusal p processing = p.responses.invalid_cmd_while_in_processing_state

-- A command passes exactly when it is one of those that belong to the client's state, and every
-- other command is refused with the code of that state.
pub validate_exact :
    (p : Protocol) (m : Message) (s : State)
    → ((validate p m s ≡ none) ↔ OneOf m.command (allowed p s))
      × ((validate p m s ≡ none) ⊎ (validate p m s ≡ some (refusal p s)))
unfolding validate
validate_exact p m connected =
    grind (arith, same_iff m.command p.commands.signin, same_iff m.command p.commands.signup)
validate_exact p m logged = grind (
  arith,
  same_iff m.command p.commands.push_files,
  same_iff m.command p.commands.delete_account,
  same_iff m.command p.commands.logout,
)
validate_exact p m processing = grind (
  arith,
  same_iff m.command p.commands.delete_account,
  same_iff m.command p.commands.logout,
  same_iff m.command p.commands.querry,
  same_iff m.command p.commands.reply,
)
