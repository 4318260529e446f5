-- ===== src/Examples/Worlds.antt =====
-- Requests executed over a server with three connections and a table with one user.
use fspserver.Base.{
  codes, same, same_apart, true, false, none, some, [], ◌∷◌, erase, ◌≡◌, ◌⊎◌, ◌↔◌, refl, lookup,
}
use fspserver.Protocol.{Message}
use fspserver.Validators.Transition.{logged, processing, validate}
use fspserver.FileTree.Paths.Tokens.{splitter}
use fspserver.Hub.Keeping.{Valid}
use fspserver.Users.{User}
use fspserver.Users.Database.{Rows, retrieve_user}
use fspserver.Handler.Tasks.{logout, very_high, handle_message}
use fspserver.Handler.Accounts.{do_signin, do_logout}
use fspserver.Handler.Signing.{LogsIn, Refuses, signin_refusals, do_signin_checked}
use fspserver.Machine.Commands.{CommandsApart, HasRow, machine_state, validate-HasRow}
use fspserver.Machine.{on_logout, on_delete_account, find_row}
use fspserver.Downloads.{Disk}
use fspserver.System.{World, execute, perform, set_hub, hub_of as world_hub}
use fspserver.System.Moves.{event_of, Accepts, Follows, execute-Follows}
use fspserver.System.Working.{AllOnTime, Works, begins, goes_on, reads, executes}
use fspserver.System.Orderly.{Works-Valid}
use fspserver.Examples.Accounts.{memory, memory-Documented}
use fspserver.Examples.Requests.{no_transfers}
use fspserver.Examples.Hubs.{joining-Valid, joining-Room, joining-ann}
use fspserver.Examples.Samples.{
  sample_protocol, sample_builder, joining, newcomer, ann_logged, message,
}

abbrev cid_table : Rows
cid_table = (codes "cid", codes "pw") ∷ []

abbrev cid_user : User
cid_user = record { nickname = codes "cid"; password = codes "pw" }

joining_newcomer : lookup 3 joining.connections ≡ some newcomer
unfolding lookup
joining_newcomer = refl

do_signin_checked_example :
    LogsIn sample_protocol sample_builder memory
      (λ rows. rows)
      memory-Documented
      cid_user
      (codes "5")
      3
      cid_table
      joining
      (do_signin sample_protocol sample_builder
        (retrieve_user memory cid_user cid_table).0
        (codes "5")
        (codes "cid")
        3
        joining)
    ⊎ Refuses sample_protocol sample_builder
        (signin_refusals sample_protocol sample_builder)
        (codes "5")
        3
        joining
        (do_signin sample_protocol sample_builder
          (retrieve_user memory cid_user cid_table).0
          (codes "5")
          (codes "cid")
          3
          joining)
do_signin_checked_example =
    do_signin_checked sample_protocol sample_builder memory (λ rows. rows) memory-Documented
      cid_user (codes "5") 3 newcomer cid_table joining joining_newcomer

abbrev logout_message : Message
logout_message = message (codes "logout") ((codes "command_id", codes "9") ∷ [])

apart : CommandsApart sample_protocol
unfolding same
apart = (
  (
    same_apart _ _ refl,
    (
      same_apart _ _ refl,
      (
        same_apart _ _ refl,
        (same_apart _ _ refl, (same_apart _ _ refl, (same_apart _ _ refl, tt))),
      ),
    ),
  ),
  (
    (
      same_apart _ _ refl,
      (
        same_apart _ _ refl,
        (same_apart _ _ refl, (same_apart _ _ refl, (same_apart _ _ refl, tt))),
      ),
    ),
    (
      (
        same_apart _ _ refl,
        (same_apart _ _ refl, (same_apart _ _ refl, (same_apart _ _ refl, tt))),
      ),
      (
        (same_apart _ _ refl, (same_apart _ _ refl, (same_apart _ _ refl, tt))),
        ((same_apart _ _ refl, (same_apart _ _ refl, tt)), ((same_apart _ _ refl, tt), (tt, tt))),
      ),
    ),
  ),
)

abbrev world : World Rows
world = record {
  server = record {
    hub = joining;
    backups = [];
    transfers = no_transfers;
    transactions_id_counter = 0;
  };
  users = cid_table;
}

abbrev no_disk : Disk
no_disk = record { size = λ path. none; opens = λ path. false }

-- Ann has logged out.
abbrev without_ann : World Rows
without_ann = set_hub world (do_logout sample_protocol sample_builder 1 joining)

logout_done :
    execute sample_protocol sample_builder splitter 44 no_disk memory none 1 logout world
    ≡ some without_ann
unfolding execute perform lookup
logout_done = refl

logout_accepted : Accepts (event_of logout) logged
unfolding find_row
logout_accepted = (_, refl)

execute-Follows_example :
    Follows sample_protocol sample_builder splitter 44 no_disk memory none 1 ann_logged world
      joining-ann logout without_ann
execute-Follows_example =
    execute-Follows sample_protocol sample_builder splitter 44 no_disk memory none 1 ann_logged
      world joining-ann logout without_ann logout_accepted logout_done

logout_passes : validate sample_protocol logout_message logged ≡ none
unfolding validate same
logout_passes = refl

logout_run :
    Works sample_protocol sample_builder splitter 44 no_disk memory true world without_ann []
unfolding lookup handle_message same erase
logout_run =
    goes_on
      (goes_on begins
        (reads 1 ann_logged logout_message [] very_high logout joining-ann refl logout_passes refl))
      (executes none 1 logout without_ann joining-Room refl logout_done)

logout_run-AllOnTime :
    AllOnTime sample_protocol sample_builder splitter 44 no_disk memory true logout_run
unfolding logout_run
logout_run-AllOnTime = ((tt, tt), tt)

Works-Valid_example : Valid (world_hub without_ann)
Works-Valid_example =
    Works-Valid sample_protocol sample_builder splitter 44 no_disk memory true apart joining-Valid
      logout_run logout_run-AllOnTime

validate-HasRow_example : (validate sample_protocol logout_message logged ≡ none) ↔ (
    HasRow (machine_state logged) on_logout
    ⊎ ((logged ≡ processing) × (on_logout ≡ on_delete_account)))
validate-HasRow_example = validate-HasRow sample_protocol logout_message logged on_logout apart refl
