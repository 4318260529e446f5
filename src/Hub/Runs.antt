-- ===== src/Hub/Runs.antt =====
-- The hub as its clients drive it, in runs of the critical sections of its operations.
use fspserver.Base.{
  true, sym, subst, ℕ, Text, Bool, false, none, some, ◌≡◌, ◌≢◌, arith, lookup, UniqueKeys-modify,
  count_values-modify,
}
use fspserver.Protocol.{Protocol}
use fspserver.Validators.Transition.{connected}
use fspserver.Hub.State.{Outgoing, Builder, Connection, Hub, processes}
use fspserver.Hub.Notify.{
  start, stop_all, notify_disconnection, notify_files_registration, do_notify, shared_write_ended,
  log_in, logged_as,
}
use fspserver.Hub.Leaving.{notify_disconnection-Valid}
use fspserver.Hub.Counting.{Covers}
use fspserver.Hub.Keeping.{Valid, Room, notify_files_registration-Valid, do_notify-Valid}
use fspserver.Hub.Completion.{
  Pending, outstanding-Pending, shared_write_ended-Valid, start-Valid, stop_all-Valid,
}

-- One critical section at a time, with what the code checks and no more: an operation may come from a
-- connection that has left the set or changed its state in the meantime, and a connection leaves with the
-- state and the nickname that were read before the lock was taken.
pub data Step (p : Protocol) (b : Builder) (asserts : Bool) : Hub → Hub → Type 0 where
  starts :
      (address : ℕ) (c : Connection) {h : Hub}
      → lookup address h.connections ≡ none
      → c.client.state ≡ connected
      → Step p b asserts h (start address c h)
  logs_in :
      (address : ℕ) (nickname : Text) {h : Hub} → Step p b asserts h (log_in address nickname h)
  registers :
      (address : ℕ) (c : Connection) {h : Hub}
      → Step p b asserts h (notify_files_registration p b address c h)
  announces :
      (notifier : Text) (message : Outgoing) {h : Hub}
      → Step p b asserts h (do_notify p b notifier message h)
  leaves :
      (address : ℕ) (c : Connection) {h : Hub}
      → Step p b asserts h (notify_disconnection p b address c h)
  ends :
      (failed : Bool) (address id : ℕ) {h : Hub}
      → Pending address id h.shared_writes
      → Step p b asserts h (shared_write_ended p b asserts failed address id h)
  stops_all : {h : Hub} → Step p b asserts h (stop_all h)

pub data Run (p : Protocol) (b : Builder) (asserts : Bool) (first : Hub) : Hub → Type 0 where
  here : Run p b asserts first first
  next : {h k : Hub} → Run p b asserts first h → Step p b asserts h k → Run p b asserts first k

-- What an operation counts on when it gets the lock, and does not check: who logs in or registers is in
-- the set and not processing, who announces is in the set and processing, and who leaves is in the set
-- with the state and the nickname that were read. Buffer ids and connections have room.
abbrev pub Timely :
    {p : Protocol} {b : Builder} {asserts : Bool} {h k : Hub} → Step p b asserts h k → Type 0
Timely (starts address c free idle) = Unit
Timely (logs_in address nickname {h}) =
    (c : Connection) × (lookup address h.connections ≡ some c) × (processes c ≡ false)
Timely (registers address c {h}) =
    Room h × (lookup address h.connections ≡ some c) × (processes c ≡ false)
Timely (announces notifier message {h}) =
    Room h
    × ((address : ℕ) × (c : Connection) × (lookup address h.connections ≡ some c)
        × (processes c ≡ true)
        × (notifier ≡ c.client.nickname))
Timely (leaves address c {h}) =
    Room h × ((d : Connection) × (lookup address h.connections ≡ some d) × (c.client ≡ d.client))
Timely (ends failed address id {h} pending) = Room h
Timely stops_all = Unit

abbrev pub AllTimely :
    {p : Protocol} {b : Builder} {asserts : Bool} {first last : Hub}
    → Run p b asserts first last
    → Type 0
AllTimely here = Unit
AllTimely (next run step) = AllTimely run × Timely step

pub log_in-Valid :
    (address : ℕ) (nickname : Text) (c : Connection) (h : Hub)
    → Valid h
    → lookup address h.connections ≡ some c
    → processes c ≡ false
    → Valid (log_in address nickname h)
log_in-Valid address nickname c h v at idle = record {
  counts = record {
    unique = UniqueKeys-modify address (logged_as nickname) h.connections v.counts.unique;
    counted = ground (
      arith,
      v.counts.counted,
      count_values-modify processes address (logged_as nickname) c h.connections v.counts.unique at,
      idle,
    );
    small = v.counts.small;
  };
  covers = record { covered = v.covers.covered; fits = v.covers.fits; fresh = v.covers.fresh };
}

pub Step-Valid :
    {p : Protocol} {b : Builder} {asserts : Bool} {h k : Hub} (step : Step p b asserts h k)
    → Timely step
    → Valid h
    → Valid k
Step-Valid (starts address c {h} free idle) timely v = start-Valid address c h v free (rw idle)
Step-Valid (logs_in address nickname {h}) (c, at, idle) v =
    log_in-Valid address nickname c h v at idle
Step-Valid {p} {b} (registers address c {h}) (room, at, idle) v =
    notify_files_registration-Valid p b address c h v room at idle
Step-Valid {p} {b} {asserts} (announces notifier message {h}) (room, (address, c, at, busy, named))
      v =
    subst (λ n. Valid (do_notify p b n message h)) (sym named)
      (do_notify-Valid p b address c message h v room at busy)
Step-Valid {p} {b} (leaves address c {h}) (room, (d, at, same_client)) v =
    notify_disconnection-Valid p b address d c h v room at same_client
Step-Valid {p} {b} {asserts} (ends failed address id {h} pending) room v =
    shared_write_ended-Valid p b asserts failed address id h v room pending
Step-Valid (stops_all {h}) timely v = stop_all-Valid h v

-- In every run in which each operation gets the lock in time, the counters that were right at first are
-- right in the end: the processing counter is the number of processing connections, and no buffer has
-- more writes in flight than its counter. In time means: who logs in or registers files is then in the set
-- of connections and not processing, who announces a change is in the set and processing, and who leaves
-- is in the set with the state and the nickname that were read before the lock. The code checks none of
-- this. Buffer ids and connections have room.
pub Run-Valid :
    {p : Protocol} {b : Builder} {asserts : Bool} {first last : Hub}
    → Valid first
    → (run : Run p b asserts first last) → AllTimely run
    → Valid last
Run-Valid v here timely = v
Run-Valid v (next run step) timely = Step-Valid step timely.1 (Run-Valid v run timely.0)

missing :
    (address id : ℕ) (h : Hub)
    → Covers h
    → Pending address id h.shared_writes
    → lookup id h.shared_storage ≢ none
missing address id h v pending gone =
    ground (arith, outstanding-Pending address id h.shared_writes pending, v.covered id, gone)

-- In every run from a hub with right counters in which each operation gets the lock in time, each shared
-- write that has not completed still has its buffer in the shared storage. In time means: who logs in or
-- registers files is then in the set of connections and not processing, who announces a change is in the
-- set and processing, and who leaves is in the set with the state and the nickname that were read before
-- the lock. The code checks none of this. Buffer ids and connections have room.
pub Run-buffer_kept :
    {p : Protocol} {b : Builder} {asserts : Bool} {first last : Hub} (address id : ℕ)
    → Valid first
    → (run : Run p b asserts first last) → AllTimely run
    → Pending address id last.shared_writes
    → lookup id last.shared_storage ≢ none
Run-buffer_kept {last = h} address id v run timely pending =
    missing address id h (Run-Valid v run timely).covers pending
