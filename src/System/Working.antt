-- ===== src/System/Working.antt =====
-- The server at work: requests are read, validated and posted, and their tasks are executed in any
-- order, while connections come and go and shared writes end. The source does not keep a connection from
-- being stopped by the thread of the sockets while a task of it runs on a thread of the scheduler: what
-- the task then still does to the counters are the late steps.
use fspserver.Base.{ℕ, Text, Bool, List, [], ◌∷◌, Option, none, some, ◌≡◌, lookup, erase}
use fspserver.Protocol.{Protocol, Message}
use fspserver.Validators.Transition.{connected, validate}
use fspserver.FileTree.Paths.{Splitter}
use fspserver.FileTree.Tree.{Tree}
use fspserver.Hub.State.{Outgoing, Builder, Connection}
use fspserver.Hub.Notify.{
  notify_files_registration, do_notify, notify_disconnection, start, stop, shared_write_ended,
}
use fspserver.Hub.Keeping.{Room}
use fspserver.Hub.Completion.{Pending}
use fspserver.Users.Database.{Driver}
use fspserver.Handler.Tasks.{Priority, Task, handle_message}
use fspserver.Downloads.{Disk}
use fspserver.System.{World, set_hub, hub_of, execute}

-- The requests that were posted and not executed, by the address of the connection.
abbrev pub Posted : Type 0
Posted = List (ℕ × Task)

module _ (p : Protocol) (b : Builder) (s : Splitter) (delimiter : ℕ) (disk : Disk) {S : Type 0}
    (d : Driver S) (asserts : Bool) where
  -- One step. A client sends its next request once the one before has been executed; which of the
  -- posted requests is executed next is free. Each request is checked against the state that its
  -- client has when it is read.
  pub data Step : World S → Posted → World S → Posted → Type 0 where
    connects :
        (address : ℕ) (c : Connection) {w : World S} {posted : Posted}
        → lookup address (hub_of w).connections ≡ none
        → lookup address posted ≡ none
        → c.client.state ≡ connected
        → Step w posted (set_hub w (start address c (hub_of w))) posted
    reads :
        (address : ℕ) (c : Connection) (m : Message) (files : List Text) (priority : Priority)
        (task : Task) {w : World S} {posted : Posted}
        → lookup address (hub_of w).connections ≡ some c
        → lookup address posted ≡ none
        → validate p m c.client.state ≡ none
        → handle_message p m files ≡ (priority, task) ∷ []
        → Step w posted w ((address, task) ∷ posted)
    executes :
        (thrown : Option Tree) (address : ℕ) (task : Task) (after : World S) {w : World S}
        {posted : Posted}
        → Room (hub_of w)
        → lookup address posted ≡ some task
        → execute p b s delimiter disk d thrown address task w ≡ some after
        → Step w posted after (erase address posted)
    ends :
        (failed : Bool) (address id : ℕ) {w : World S} {posted : Posted}
        → Room (hub_of w)
        → Pending address id (hub_of w).shared_writes
        → Step w posted
            (set_hub w (shared_write_ended p b asserts failed address id (hub_of w)))
            posted
    stops :
        (address : ℕ) {w : World S} {posted : Posted}
        → Room (hub_of w)
        → Step w posted (set_hub w (stop p b address (hub_of w))) posted
    -- The connection of a push, or of a change of the files, has left the set since its task began.
    registers_late :
        (address : ℕ) (c : Connection) {w : World S} {posted : Posted}
        → lookup address (hub_of w).connections ≡ none
        → Step w posted
            (set_hub w (notify_files_registration p b address c (hub_of w)))
            (erase address posted)
    announces_late :
        (address : ℕ) (c : Connection) (message : Outgoing) {w : World S} {posted : Posted}
        → lookup address (hub_of w).connections ≡ none
        → Step w posted
            (set_hub w (do_notify p b c.client.nickname message (hub_of w)))
            (erase address posted)
    -- A connection leaves with a state or a nickname that has changed since it was read.
    leaves_late :
        (address : ℕ) (c : Connection) {w : World S} {posted : Posted}
        → Step w posted (set_hub w (notify_disconnection p b address c (hub_of w))) posted

  -- No step is late.
  abbrev pub OnTime : {w after : World S} {posted left : Posted} → Step w posted after left → Type 0
  OnTime (registers_late address c gone) = ⊥
  OnTime (announces_late address c message gone) = ⊥
  OnTime (leaves_late address c) = ⊥
  OnTime _ = Unit

  pub data Works (first : World S) : World S → Posted → Type 0 where
    begins : Works first first []
    goes_on :
        {w after : World S} {posted left : Posted}
        → Works first w posted
        → Step w posted after left
        → Works first after left

  abbrev pub AllOnTime : {first last : World S} {posted : Posted} → Works first last posted → Type 0
  AllOnTime begins = Unit
  AllOnTime (goes_on run step) = AllOnTime run × OnTime step
