-- ===== src/Connection/ReadAction.antt =====
-- connection::start_read and connection::read_action: what a connection does with the messages that
-- the parser finds in the bytes that it has read.
pub mod Gate
use fspserver.Base.{
  ℕ, ◌+◌, ◌≤◌, Text, Bool, true, false, not, ◌&&◌, Option, none, some, if◌then◌else◌, same, List,
  [], ◌∷◌, ◌≡◌, arith,
}
use fspserver.Protocol.{Protocol, Message}
use fspserver.Validators.Transition.{State}
use fspserver.Validators
use fspserver.Validators.Basic
use fspserver.Validators.Transition
use fspserver.Validators.Semantic
use fspserver.Validators.Confirmator.{confirm}

-- It echoes the heartbeat, refuses by a response code under a request id, hands a reply to the
-- download logic, or confirms the command by a code (`none` for nullptr) under its id and passes the
-- request to the handler.
pub data Reaction : Type 0 where
  heartbeat : Reaction
  refused : Text → Text → Reaction
  download_reply : Message → Reaction
  accepted : Option Text → Text → Message → Reaction

abbrev serve : Protocol → Message → Reaction
serve p m =
    if same m.command p.commands.reply
    then download_reply m
    else accepted (confirm p m) (m.header p.headers.command_id) m

abbrev or_refuse : Option Text → Text → Reaction → Reaction
or_refuse none id next = next
or_refuse (some code) id next = refused code id

unfoldable pub read_action : Protocol → State → Message → Reaction
read_action p s m =
    if same m.command p.commands.heartbeat
    then heartbeat
    else or_refuse (Basic.validate p m) p.cmd_id_when_no_cmdid_present (
        or_refuse (Transition.validate p m s) id (or_refuse (Semantic.validate p m) id (serve p m)))
  where
    id : Text
    id = m.header p.headers.command_id

-- What the parser makes of the bytes at hand: a message, which meets the client's state of that
-- moment, an error, or the beginning of a message.
pub data Parsed : Type 0 where
  good : State → Message → Parsed
  bad : Parsed
  indeterminate : Parsed

-- The effects of the read handler: an answer, the error reply, the timer stopped or started.
pub data Effect : Type 0 where
  reacts : Reaction → Effect
  syntactic_error : Effect
  deadline_stopped : Effect
  deadline_started : Effect

-- The `while` of the read handler, over the parser's results, with `SyntacticErrorSentBefore`.
unfoldable pub read_loop : Protocol → Bool → List Parsed → List Effect
read_loop p sent_before [] = []
read_loop p sent_before (good s m ∷ rest) =
    deadline_stopped ∷ reacts (read_action p s m) ∷ read_loop p false rest
read_loop p true (bad ∷ rest) = read_loop p true rest
read_loop p false (bad ∷ rest) = syntactic_error ∷ read_loop p true rest
read_loop p sent_before (indeterminate ∷ rest) = deadline_started ∷ []
