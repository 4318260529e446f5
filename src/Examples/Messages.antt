-- ===== src/Examples/Messages.antt =====
-- The validators and the connection at concrete messages.
use fspserver.Base.{
  codes, same, same_apart, true, false, if◌then◌else◌, ◌≤◌, List, [], ◌∷◌, none, some, ◌≡◌, ◌≢◌,
  ◌⊎◌, ◌↔◌, refl, arith, drop,
}
use fspserver.Protocol.{Message, OneOf}
use fspserver.Validators.Basic
use fspserver.Validators.Transition
use fspserver.Validators.Semantic
use fspserver.Validators.Transition.{
  State, connected, logged, processing, allowed, refusal, validate_exact,
}
use fspserver.Validators.Semantic.{
  NameIsNoQuerry, validate_querry, validate_querry_unchecked, validate_authentication,
}
use fspserver.Validators.Confirmator.{confirm}
use fspserver.Connection.ReadAction.{
  accepted, download_reply, read_action, Parsed, good, bad, indeterminate,
}
use fspserver.Connection.ReadAction.Gate.{read_action-accepted}
use fspserver.Connection.ReadAction.{bad}
use fspserver.Connection.Reading.{
  Reader, new_reader, start_read, stop_connection, read_completed, deadline_expired, Reads, starts,
  completes, expires, stops, Reads-one,
}
use fspserver.Connection.Writes.{
  Completion, sent, done, async_write, async_write_complete, async_write_finishes,
}
use fspserver.Examples.Samples.{sample_protocol, message}

abbrev sign_in : Message
sign_in = message (codes "signin") (
    (codes "command_id", codes "5")
    ∷ (codes "nickname", codes "cid")
    ∷ (codes "password", codes "pw")
    ∷ [])

sign_in-accepted :
    read_action sample_protocol connected sign_in
    ≡ accepted (some (codes "signin_cmd_accepted")) (codes "5") sign_in
unfolding read_action Basic.validate Transition.validate Semantic.validate validate_authentication
    confirm same
sign_in-accepted = refl

read_action-accepted_example :
    (sign_in.have_header (codes "command_id") ≡ true)
    × OneOf sign_in.command (allowed sample_protocol connected)
    × (sign_in.command ≢ codes "heartbeat")
    × (sign_in.command ≢ codes "reply")
    × (Semantic.validate sample_protocol sign_in ≡ none)
    × (some (codes "signin_cmd_accepted") ≢ none)
    × (codes "5" ≡ sign_in.header (codes "command_id"))
    × (sign_in ≡ sign_in)
read_action-accepted_example =
    read_action-accepted sample_protocol connected sign_in sign_in
      (some (codes "signin_cmd_accepted")) (codes "5") sign_in-accepted

validate_exact_example :
    ((Transition.validate sample_protocol sign_in logged ≡ none)
      ↔ OneOf (codes "signin") (allowed sample_protocol logged))
    × ((Transition.validate sample_protocol sign_in logged ≡ none)
        ⊎ (Transition.validate sample_protocol sign_in logged
            ≡ some (codes "invalid_cmd_while_in_logged_state")))
validate_exact_example = validate_exact sample_protocol sign_in logged

abbrev approval : Message
approval = message (codes "reply") ((codes "command_id", codes "9") ∷ [])

approval_passed : read_action sample_protocol processing approval ≡ download_reply approval
unfolding read_action Basic.validate Transition.validate Semantic.validate same
approval_passed = refl

-- A message, noise, and the beginning of another message.
abbrev results : List Parsed
results = good connected sign_in ∷ bad ∷ bad ∷ indeterminate ∷ []

abbrev events : List Completion
events = sent 2 ∷ sent 3 ∷ []

events-done : (async_write (codes "hello") 0 events).1 ≡ done
unfolding async_write
events-done = refl

async_write_complete_example : (async_write (codes "hello") 0 events).0 ≡ drop 0 (codes "hello")
async_write_complete_example = async_write_complete (codes "hello") 0 events events-done

async_write_finishes_example :
    (async_write (codes "hey") 0 (sent 1 ∷ sent 1 ∷ sent 1 ∷ [])).1 ≡ done
async_write_finishes_example =
    async_write_finishes (codes "hey") 0 (sent 1 ∷ sent 1 ∷ sent 1 ∷ []) (omega arith) (omega arith)
      (ground arith) tt

abbrev bare_download : Message
bare_download = message (codes "querry") ((codes "querry_type", codes "download_file") ∷ [])

bare_download-has_type : bare_download.have_header (codes "querry_type") ≡ true
unfolding same
bare_download-has_type = refl

sample-NameIsNoQuerry : NameIsNoQuerry sample_protocol
unfolding same
sample-NameIsNoQuerry = record {
  no_download = same_apart (codes "querry_type") (codes "download_file") refl;
  no_remove = same_apart (codes "querry_type") (codes "remove_path") refl;
  no_rename = same_apart (codes "querry_type") (codes "rename_path") refl;
}

-- A connection that reads an error, whose deadline then expires, and which is then stopped.
abbrev read_once : Reader
read_once = read_completed sample_protocol false false (bad ∷ []) none (start_read new_reader)

abbrev left : Reader
left = stop_connection (deadline_expired true false true read_once)

left-Reads : Reads sample_protocol left
unfolding start_read
left-Reads = stops (expires true false true (completes false (bad ∷ []) none starts (omega arith)))

Reads-one_example :
    (left.has_stopped ≡ false → left.has_thrown ≡ false → left.reads ≡ 1)
    × (left.reads ≤ 1)
    × (left.disconnections ≡ (if left.has_stopped then 1 else 0))
Reads-one_example = Reads-one left-Reads
