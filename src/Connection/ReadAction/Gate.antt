-- ===== src/Connection/ReadAction/Gate.antt =====
-- What gets through to the request handler, and what is answered before it.
use fspserver.Base.{
  ℕ, suc, ◌+◌, ◌≤◌, Text, Bool, true, false, Option, none, same_iff, List, [], ◌∷◌, ◌≡◌, ◌≢◌, arith,
}
use fspserver.Protocol.{Protocol, Message, OneOf}
use fspserver.Validators.Transition.{State, connected, logged, processing, allowed, validate_exact}
use fspserver.Validators.Basic
use fspserver.Validators.Semantic
use fspserver.Validators.Confirmator.{confirm}
use fspserver.Connection.ReadAction.{
  download_reply, accepted, read_action, Parsed, good, bad, indeterminate, Effect, reacts,
  syntactic_error, deadline_stopped, deadline_started, read_loop,
}

-- Every command that belongs to a state has a confirmation, but for the reply.
confirm_known :
    (p : Protocol) (m : Message) (s : State)
    → OneOf m.command (allowed p s)
    → m.command ≢ p.commands.reply
    → confirm p m ≢ none
unfolding confirm
confirm_known p m connected a n =
    ground (arith, same_iff m.command p.commands.signin, same_iff m.command p.commands.signup)
confirm_known p m logged a n = ground (
  arith,
  same_iff m.command p.commands.push_files,
  same_iff m.command p.commands.delete_account,
  same_iff m.command p.commands.logout,
)
confirm_known p m processing a n = ground (
  arith,
  same_iff m.command p.commands.querry,
  same_iff m.command p.commands.delete_account,
  same_iff m.command p.commands.logout,
)

-- A request reaches the handler only with a command id, with a command that belongs to the client's
-- state and is neither the heartbeat nor a reply, and past the semantic checks; the connection then
-- has a confirmation for it (never nullptr) and sends it under the request's own id.
pub read_action-accepted :
    (p : Protocol) (s : State) (m n : Message) (code : Option Text) (id : Text)
    → read_action p s m ≡ accepted code id n
    → (m.have_header p.headers.command_id ≡ true)
      × OneOf m.command (allowed p s)
      × (m.command ≢ p.commands.heartbeat)
      × (m.command ≢ p.commands.reply)
      × (Semantic.validate p m ≡ none)
      × (code ≢ none)
      × (id ≡ m.header p.headers.command_id)
      × (n ≡ m)
unfolding read_action Basic.validate
read_action-accepted p s m n code id h = ground (
  arith,
  same_iff m.command p.commands.heartbeat,
  same_iff m.command p.commands.reply,
  (validate_exact p m s).0,
  confirm_known p m s,
)

-- A reply reaches the download logic only from a client in the processing state, with a command id.
pub read_action-download_reply :
    (p : Protocol) (s : State) (m n : Message)
    → p.commands.reply ≢ p.commands.signin
    → p.commands.reply ≢ p.commands.signup
    → p.commands.reply ≢ p.commands.push_files
    → p.commands.reply ≢ p.commands.delete_account
    → p.commands.reply ≢ p.commands.logout
    → read_action p s m ≡ download_reply n
    → (s ≡ processing) × (m.have_header p.headers.command_id ≡ true) × (n ≡ m)
unfolding read_action Basic.validate
read_action-download_reply p connected m n a b c d e h =
    ground (arith, same_iff m.command p.commands.reply, (validate_exact p m connected).0)
read_action-download_reply p logged m n a b c d e h =
    ground (arith, same_iff m.command p.commands.reply, (validate_exact p m logged).0)
read_action-download_reply p processing m n a b c d e h =
    ground (arith, same_iff m.command p.commands.reply, (validate_exact p m processing).0)

abbrev pub messages : List Parsed → ℕ
messages [] = 0
messages (good s m ∷ rest) = suc (messages rest)
messages (bad ∷ rest) = messages rest
messages (indeterminate ∷ rest) = 0

abbrev pub reactions : List Effect → ℕ
reactions [] = 0
reactions (reacts r ∷ rest) = suc (reactions rest)
reactions (syntactic_error ∷ rest) = reactions rest
reactions (deadline_stopped ∷ rest) = reactions rest
reactions (deadline_started ∷ rest) = reactions rest

abbrev pub errors : List Effect → ℕ
errors [] = 0
errors (reacts r ∷ rest) = errors rest
errors (syntactic_error ∷ rest) = suc (errors rest)
errors (deadline_stopped ∷ rest) = errors rest
errors (deadline_started ∷ rest) = errors rest

abbrev sendable : Bool → ℕ
sendable true = 0
sendable false = 1

read_loop_counts :
    (p : Protocol) (sent_before : Bool) (results : List Parsed)
    → (reactions (read_loop p sent_before results) ≡ messages results)
      × (errors (read_loop p sent_before results) ≤ messages results + sendable sent_before)
unfolding read_loop
read_loop_counts p b [] = omega arith
read_loop_counts p b (good s m ∷ rest) =
    let ih = read_loop_counts p false rest in ground (arith, ih.0, ih.1)
read_loop_counts p true (bad ∷ rest) = read_loop_counts p true rest
read_loop_counts p false (bad ∷ rest) =
    let ih = read_loop_counts p true rest in ground (arith, ih.0, ih.1)
read_loop_counts p b (indeterminate ∷ rest) = omega arith

-- Over one read, each message that the parser completes before its first indeterminate result gets
-- one reaction, and there are at most as many syntactic errors sent as such messages, and one more.
pub read_loop_answers :
    (p : Protocol) (results : List Parsed)
    → (reactions (read_loop p false results) ≡ messages results)
      × (errors (read_loop p false results) ≤ messages results + 1)
read_loop_answers p results = read_loop_counts p false results
