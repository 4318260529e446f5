-- ===== src/System/Moves.antt =====
-- The tasks of requests move the clients along the table of the state machine.
use fspserver.Base.{
  Bool, true, false, if◌then◌else◌, ℕ, Text, List, Option, none, some, ◌≡◌, refl, subst, lookup,
}
use fspserver.Protocol.{Protocol}
use fspserver.Validators.Transition.{State, connected, logged, processing}
use fspserver.FileTree.Paths.{Splitter}
use fspserver.FileTree.Tree.{Tree}
use fspserver.Hub.State.{Builder, Connection}
use fspserver.Machine.{
  MachineState, is_connected, is_logged as in_logged, is_running, is_disconnected, Event, kind,
  Kind, process_event, find_row, transition_table,
}
use fspserver.Machine.Commands.{machine_state, HasRow}
use fspserver.Machine
use fspserver.Machine.Commands.{no_row}
use fspserver.Users.Database.{Driver}
use fspserver.Handler.Tasks.{
  Task, signin, signup, push_files, delete_account, logout, download_file, add_file, remove_path,
  rename_path,
}
use fspserver.Downloads.{Disk}
use fspserver.System.{World, hub_of, execute}
use fspserver.System.Reached.{target, succeeds, execute-Reached}
use fspserver.System.States.{Moved}

-- The event of the state machine that a task is.
abbrev pub event_of : Task → Option Event
event_of (signin id login password) = some (Machine.signin login password)
event_of (signup id login password) = some (Machine.signup login password)
event_of (push_files id paths) = some (Machine.push_files (some paths))
event_of (delete_account id) = some Machine.delete_account
event_of logout = some Machine.logout
event_of _ = none

-- The table has a row for the event; what is no event is always accepted.
abbrev pub Accepts : Option Event → State → Type 0
Accepts none st = Unit
Accepts (some e) st = HasRow (machine_state st) (kind e)

abbrev pub next_state : Option Event → MachineState → MachineState
next_state none st = st
next_state (some e) st = (process_event e st).0

next-signin :
    (login password : Text) (st : State)
    → Accepts (some (Machine.signin login password)) st
    → in_logged ≡ next_state (some (Machine.signin login password)) (machine_state st)
unfolding process_event find_row
next-signin login password connected r = refl
next-signin login password logged r = absurd (no_row r.1)
next-signin login password processing r = absurd (no_row r.1)

next-signup :
    (login password : Text) (st : State)
    → Accepts (some (Machine.signup login password)) st
    → in_logged ≡ next_state (some (Machine.signup login password)) (machine_state st)
unfolding process_event find_row
next-signup login password connected r = refl
next-signup login password logged r = absurd (no_row r.1)
next-signup login password processing r = absurd (no_row r.1)

next-push_files :
    (files : Option (List Text)) (st : State)
    → Accepts (some (Machine.push_files files)) st
    → is_running ≡ next_state (some (Machine.push_files files)) (machine_state st)
unfolding process_event find_row
next-push_files files connected r = absurd (no_row r.1)
next-push_files files logged r = refl
next-push_files files processing r = absurd (no_row r.1)

next-logout :
    (st : State)
    → Accepts (some Machine.logout) st
    → is_disconnected ≡ next_state (some Machine.logout) (machine_state st)
unfolding process_event find_row
next-logout connected r = absurd (no_row r.1)
next-logout logged r = refl
next-logout processing r = refl

-- The tasks that can move a client, or are no event.
abbrev Moving : Task → Type 0
Moving (delete_account id) = ⊥
Moving _ = Unit

-- Where a task that succeeds brings its client is where the machine brings it.
target-next :
    (task : Task) (st : State)
    → Accepts (event_of task) st
    → (succeeded : Bool) → (succeeded ≡ true → Moving task)
    → (if succeeded then target task (machine_state st) else machine_state st)
      ≡ (if succeeded then next_state (event_of task) (machine_state st) else machine_state st)
target-next task st r false moving = refl
target-next (signin id login password) st r true moving = next-signin login password st r
target-next (signup id login password) st r true moving = next-signup login password st r
target-next (push_files id paths) st r true moving = next-push_files (some paths) st r
target-next logout st r true moving = next-logout st r
target-next (delete_account id) st r true moving = absurd (moving refl)
target-next (download_file q) st r true moving = refl
target-next (add_file id name) st r true moving = refl
target-next (remove_path id path) st r true moving = refl
target-next (rename_path id path name) st r true moving = refl

module _ (p : Protocol) (b : Builder) (s : Splitter) (delimiter : ℕ) (disk : Disk) {S : Type 0}
    (d : Driver S) (thrown : Option Tree) (address : ℕ) (c : Connection) (w : World S)
    (at : lookup address (hub_of w).connections ≡ some c) where
  -- The client has come to the state that the machine gives it for the task's event, if the task
  -- succeeded, and is where it was otherwise; no other client has moved.
  abbrev pub Follows : Task → World S → Type 0
  Follows task after =
      Moved address
        (if succeeds p b s delimiter disk d thrown address c w at task
          then next_state (event_of task) (machine_state c.client.state)
          else machine_state c.client.state)
        (hub_of w).connections (hub_of after).connections

  moving :
      (task : Task)
      → succeeds p b s delimiter disk d thrown address c w at task ≡ true
      → Moving task
  moving (delete_account id) e = cc
  moving (signin id login password) e = tt
  moving (signup id login password) e = tt
  moving (push_files id paths) e = tt
  moving logout e = tt
  moving (download_file q) e = tt
  moving (add_file id name) e = tt
  moving (remove_path id path) e = tt
  moving (rename_path id path name) e = tt

  -- A task that is executed while its connection is there, in a state for which the table of the state
  -- machine has a row for its event, brings its client to the state that the machine gives exactly if it
  -- succeeds, leaves it where it was otherwise, and moves no other client. A sign-in succeeds if the
  -- database finds the password correct and no connection has the nickname, a sign-up if the database
  -- takes the user, a push if no call of the file system throws, a logout if the connection was not
  -- stopped before. The deletion of an account leaves the client in its state, though the machine would
  -- disconnect it; a task that is no event moves none. The connection is not stopped during the task.
  pub execute-Follows :
      (task : Task) (after : World S)
      → Accepts (event_of task) c.client.state
      → execute p b s delimiter disk d thrown address task w ≡ some after
      → Follows task after
  execute-Follows task after r e =
      subst (λ t. Moved address t (hub_of w).connections (hub_of after).connections)
        (target-next task c.client.state r _ (moving task))
        (execute-Reached p b s delimiter disk d thrown address c w at task after e)
