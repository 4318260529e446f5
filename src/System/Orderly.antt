-- ===== src/System/Orderly.antt =====
-- The invariant of the server at work.
use fspserver.Base.{
  some_same, not_there, ℕ, Text, Bool, List, [], ◌∷◌, Option, none, some, ◌≡◌, inl, inr, refl, sym,
  ◌∙◌, subst, lookup, erase, Option-cases,
}
use fspserver.Protocol.{Protocol, Message}
use fspserver.Validators.Transition.{State, validate}
use fspserver.FileTree.Paths.{Splitter}
use fspserver.FileTree.Tree.{Tree}
use fspserver.Hub.State.{Builder}
use fspserver.Hub.Keeping.{Valid, Room}
use fspserver.Hub.Completion.{stop-Valid, shared_write_ended-Valid, start-Valid}
use fspserver.Users.Database.{Driver}
use fspserver.Handler.Tasks.{Priority, Task, handle_message}
use fspserver.Machine.Commands.{CommandsApart}
use fspserver.Downloads.{Disk}
use fspserver.System.{World, hub_of, execute, execute_gone}
use fspserver.System.States.{Clients, stop-kept, shared_write_ended-kept}
use fspserver.System.Reached.{execute-others}
use fspserver.System.Keeping.{Enabled, AllEnabled, handle_message-AllEnabled, execute-Enabled-Valid}
use fspserver.System.Working.{
  Posted, Step, connects, reads, executes, ends, stops, registers_late, announces_late, leaves_late,
  OnTime, AllOnTime, Works, begins, goes_on,
}
use fspserver.System.Ready.{
  Ready, Ready-kept, Ready-posted, Ready-erase, Ready-start, Ready-Enabled,
}

module _ (p : Protocol) (b : Builder) (s : Splitter) (delimiter : ℕ) (disk : Disk) {S : Type 0}
    (d : Driver S) (asserts : Bool) (apart : CommandsApart p) where
  -- The counters are right, and every posted request is ready.
  abbrev pub InOrder : World S → Posted → Type 0
  InOrder w posted = Valid (hub_of w) × Ready (hub_of w).connections posted

  executes-InOrder :
      (thrown : Option Tree) (address : ℕ) (task : Task) (w after : World S) (posted : Posted)
      → Room (hub_of w)
      → lookup address posted ≡ some task
      → execute p b s delimiter disk d thrown address task w ≡ some after
      → InOrder w posted
      → InOrder after (erase address posted)
  executes-InOrder thrown address task w after posted room at e (v, ready) =
      elim (Option-cases (lookup address (hub_of w).connections)) [
        | inl gone ↦
            let same_world : w ≡ after =
              some_same
                (sym (execute_gone p b s delimiter disk d thrown address task w gone) ∙ e) in
            subst (λ x. InOrder x (erase address posted)) same_world
              (
                v,
                Ready-erase (hub_of w).connections (hub_of w).connections address posted
                    (λ j apart_from. refl) ready,
              )
        | inr (c, there) ↦ (
          execute-Enabled-Valid p b s delimiter disk d thrown address c w there v room task after
              (Ready-Enabled (hub_of w).connections posted address task c there at ready) e,
          Ready-erase (hub_of w).connections (hub_of after).connections address posted
              (execute-others p b s delimiter disk d thrown address c w there task after e) ready,
        )
      ]

  posts-Enabled :
      (m : Message) (files : List Text) (st : State) (priority : Priority) (task : Task)
      → validate p m st ≡ none
      → handle_message p m files ≡ (priority, task) ∷ []
      → Enabled st task
  posts-Enabled m files st priority task passed posted =
      (subst (AllEnabled st) posted (handle_message-AllEnabled p m files st apart passed)).0

  Step-InOrder :
      {w after : World S} {posted left : Posted}
      (step : Step p b s delimiter disk d asserts w posted after left)
      → OnTime p b s delimiter disk d asserts step
      → InOrder w posted
      → InOrder after left
  Step-InOrder (registers_late address c gone) late order = absurd late
  Step-InOrder (announces_late address c message gone) late order = absurd late
  Step-InOrder (leaves_late address c) late order = absurd late
  Step-InOrder (connects address c {w} {posted} free none_posted new) on_time (v, ready) = (
    start-Valid address c (hub_of w) v free (rw new),
    Ready-start address c (hub_of w) posted free none_posted ready,
  )
  Step-InOrder (reads address c m files priority task {w} {posted} there none_posted passed one)
        on_time (v, ready) =
      (
        v,
        Ready-posted (hub_of w).connections address task c posted there
            (posts-Enabled m files c.client.state priority task passed one) ready,
      )
  Step-InOrder (executes thrown address task after {w} {posted} room at e) on_time order =
      executes-InOrder thrown address task w after posted room at e order
  Step-InOrder (ends failed address id {w} {posted} room pending) on_time (v, ready) = (
    shared_write_ended-Valid p b asserts failed address id (hub_of w) v room pending,
    Ready-kept (hub_of w).connections _ posted
        (shared_write_ended-kept p b asserts failed address id (hub_of w)) ready,
  )
  Step-InOrder (stops address {w} {posted} room) on_time (v, ready) = (
    stop-Valid p b address (hub_of w) v room,
    Ready-kept (hub_of w).connections _ posted (stop-kept p b address (hub_of w)) ready,
  )

  begins-Ready : (m : Clients) → Ready m []
  unfolding lookup
  begins-Ready m j task e = absurd (not_there e)

  -- The server as a whole: in a run without late steps in which each client waits for a request to be
  -- executed before it sends the next, nothing makes the counters wrong, whatever the order in which the
  -- requests of different clients are executed, and whatever the SQL library and the file systems do. The
  -- processing counter is the number of processing connections, and the counter of every shared buffer
  -- covers its writes in flight. A step is late if a connection has left the set when its own push or
  -- change of files is counted, or leaves in another state than was read; the code does not prevent that.
  -- A task whose connection stays is one step. No two commands are one text, and buffer ids and
  -- connections have room.
  pub Works-Valid :
      {first last : World S} {posted : Posted}
      → Valid (hub_of first)
      → (run : Works p b s delimiter disk d asserts first last posted)
      → AllOnTime p b s delimiter disk d asserts run
      → Valid (hub_of last)
  Works-Valid {first} v run on_time = (Works-InOrder run on_time).0
    where
      Works-InOrder :
          {last : World S} {posted : Posted}
          (run : Works p b s delimiter disk d asserts first last posted)
          → AllOnTime p b s delimiter disk d asserts run
          → InOrder last posted
      Works-InOrder begins on_time = (v, begins-Ready (hub_of first).connections)
      Works-InOrder (goes_on before step) on_time =
          Step-InOrder step on_time.1 (Works-InOrder before on_time.0)
