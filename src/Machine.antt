-- ===== src/Machine.antt =====
-- The state machine of a client: the transition table of state_machine.h with the guards of guards.h
-- and the actions of actions.h. Boost's machine that runs the table is not part of the repository; it
-- takes the row of the current state and the event whose guard holds, or calls no_transition.
pub mod Commands
use fspserver.Base.{
  ℕ, Text, Bool, true, false, ◌&&◌, ◌==◌, if◌then◌else◌, codes, Option, none, some, List, [], ◌∷◌,
  ◌++◌,
}

pub data MachineState : Type 0 where
  is_connected is_logged is_running is_disconnected : MachineState

-- The events, with the members of those that have some. The files may be a null pointer.
pub data Event : Type 0 where
  signin signup : Text → Text → Event
  push_files : Option (List Text) → Event
  connection_closed logout delete_account : Event

-- The types of the events, by which the rows of the table select.
pub data Kind : Type 0 where
  on_signin on_signup on_push_files on_connection_closed on_logout on_delete_account : Kind

abbrev pub kind : Event → Kind
kind (signin nickname password) = on_signin
kind (signup nickname password) = on_signup
kind (push_files files) = on_push_files
kind connection_closed = on_connection_closed
kind logout = on_logout
kind delete_account = on_delete_account

-- The identifier that the machine gives a state, in the order of the table.
abbrev pub state_id : MachineState → ℕ
state_id is_connected = 0
state_id is_logged = 1
state_id is_running = 2
state_id is_disconnected = 3

abbrev pub kind_id : Kind → ℕ
kind_id on_signin = 0
kind_id on_signup = 1
kind_id on_push_files = 2
kind_id on_connection_closed = 3
kind_id on_logout = 4
kind_id on_delete_account = 5

-- What is printed: a text, or the report of no_transition.
pub data Line : Type 0 where
  line : Text → Line
  no_transition : ℕ → Kind → Line

-- The guards of guards.h print their name and hold.
pub data Guard : Type 0 where
  guard_signin guard_signup guard_push_files : Guard

unfoldable pub check_guard : Guard → Bool × Line
check_guard guard_signin = (true, line (codes "client_msm_::guard_signin"))
check_guard guard_signup = (true, line (codes "client_msm_::guard_signup"))
check_guard guard_push_files = (true, line (codes "client_msm_::guard_push_files"))

-- The transition actions of actions.h print their name.
pub data Action : Type 0 where
  do_signin do_signup do_push_files do_logout do_delete_account : Action

unfoldable pub perform : Action → Line
perform do_signin = line (codes "client_msm_::do_signin")
perform do_signup = line (codes "client_msm_::do_signup")
perform do_push_files = line (codes "client_msm_::do_push_files")
perform do_logout = line (codes "client_msm_::do_logout")
perform do_delete_account = line (codes "client_msm_::do_delete_account")

unfoldable pub on_entry : MachineState → List Line
on_entry is_logged = line (codes "entering: Logged") ∷ []
on_entry is_running = line (codes "entering: Running") ∷ []
on_entry _ = []

unfoldable pub on_exit : MachineState → List Line
on_exit is_logged = line (codes "leaving: Logged") ∷ []
on_exit is_running = line (codes "leaving: Running") ∷ []
on_exit _ = []

pub record Row : Type 0 where
  pub source : MachineState
  pub event : Kind
  pub guard : Option Guard
  pub action : Option Action
  pub target : MachineState

abbrev row : MachineState → Kind → Option Guard → Option Action → MachineState → Row
row source event guard action target = record {
  source = source;
  event = event;
  guard = guard;
  action = action;
  target = target;
}

abbrev pub transition_table : List Row
transition_table =
    row is_connected on_signin (some guard_signin) (some do_signin) is_logged
    ∷ row is_connected on_signup (some guard_signup) (some do_signup) is_logged
    ∷ row is_connected on_connection_closed none none is_disconnected
    ∷ row is_logged on_push_files (some guard_push_files) (some do_push_files) is_running
    ∷ row is_logged on_logout none (some do_logout) is_disconnected
    ∷ row is_logged on_delete_account none (some do_delete_account) is_disconnected
    ∷ row is_logged on_connection_closed none none is_disconnected
    ∷ row is_running on_logout none (some do_logout) is_disconnected
    ∷ row is_running on_connection_closed none none is_disconnected
    ∷ []

unfoldable pub find_row : MachineState → Kind → List Row → Option Row
find_row s k [] = none
find_row s k (r ∷ rows) =
    if state_id s == state_id r.source && kind_id k == kind_id r.event
    then some r
    else find_row s k rows

abbrev pub guarded : Option Guard → Bool × List Line
guarded none = (true, [])
guarded (some g) = ((check_guard g).0, (check_guard g).1 ∷ [])

abbrev pub performed : Option Action → List Line
performed none = []
performed (some a) = perform a ∷ []

abbrev pub fire : MachineState → Kind → Option Row → MachineState × List Line
fire s k none = (s, no_transition (state_id s) k ∷ [])
fire s k (some r) =
    if (guarded r.guard).0
    then (r.target, (guarded r.guard).1 ++ (on_exit s ++ (performed r.action ++ on_entry r.target)))
    else (s, (guarded r.guard).1 ++ (no_transition (state_id s) k ∷ []))

-- process_event: the next state, and what is printed.
unfoldable pub process_event : Event → MachineState → MachineState × List Line
unfolding find_row check_guard perform on_entry on_exit
process_event e s = fire s (kind e) (find_row s (kind e) transition_table)

unfoldable pub process_all : List Event → MachineState → List MachineState
unfolding process_event
process_all [] s = []
process_all (e ∷ es) s = let next = (process_event e s).0 in next ∷ process_all es next

-- The events of `test`.
abbrev pub test_events : List Event
test_events =
    push_files none
    ∷ signin (codes "marin") (codes "235689")
    ∷ push_files (some [])
    ∷ logout
    ∷ connection_closed
    ∷ []
