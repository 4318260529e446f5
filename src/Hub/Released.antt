-- ===== src/Hub/Released.antt =====
-- Runs in which every buffer of the shared storage is given back.
use fspserver.Base.{
  ℕ, suc, Text, true, false, Option, none, some, ◌≡◌, refl, arith, lookup, count_values,
}
use fspserver.Protocol.{Protocol}
use fspserver.Hub.State.{Builder, Connection, Hub, processes}
use fspserver.Hub.Notify.{start, stop_all, shared_write_ended, notified_besides}
use fspserver.Hub.Counting.{outstanding}
use fspserver.Hub.Keeping.{Valid}
use fspserver.Hub.Completion.{Pending}
use fspserver.Hub.Tidy.{
  Matches, Tidy, done-Tidy, notify_files_registration-Tidy, do_notify-Tidy, leaving-Tidy,
}
use fspserver.Hub.Runs.{
  Step, starts, logs_in, registers, announces, leaves, ends, stops_all, Run, here, next, Timely,
  AllTimely, Run-Valid,
}

-- A step without the accidents that lose a buffer: a shared write ends without an error while its
-- connection is still there, and a client that notifies is the only processing one of its name.
abbrev pub Clean : {p : Protocol} {b : Builder} {h k : Hub} → Step p b true h k → Type 0
Clean (announces notifier message {h}) =
    suc (count_values (notified_besides notifier) h.connections)
    ≡ count_values processes h.connections
Clean (ends failed address id {h} pending) =
    (failed ≡ false) × ((c : Connection) × (lookup address h.connections ≡ some c))
Clean _ = Unit

abbrev pub AllClean :
    {p : Protocol} {b : Builder} {first last : Hub} → Run p b true first last → Type 0
AllClean here = Unit
AllClean (next run step) = AllClean run × Clean step

ended-Tidy :
    (p : Protocol) (b : Builder) (address id : ℕ) (c : Connection) (h : Hub)
    → Valid h
    → Tidy h
    → Pending address id h.shared_writes
    → lookup address h.connections ≡ some c
    → Tidy (shared_write_ended p b true false address id h)
unfolding shared_write_ended
ended-Tidy p b address id c h v tidy pending at =
    rw (at, shared_write_ended) (done-Tidy address id h v.covers tidy pending)

Step-Tidy :
    {p : Protocol} {b : Builder} {h k : Hub} (step : Step p b true h k)
    → Timely step
    → Clean step
    → Valid h
    → Tidy h
    → Tidy k
unfolding start stop_all
Step-Tidy (starts address c free idle) timely clean v tidy = tidy
Step-Tidy (logs_in address nickname) timely clean v tidy = tidy
Step-Tidy {p} {b} (registers address c {h}) (room, at, idle) clean v tidy =
    notify_files_registration-Tidy p b address c h v room tidy
Step-Tidy {p} {b} (announces notifier message {h}) (room, who) clean v tidy =
    do_notify-Tidy p b notifier message h v room clean tidy
Step-Tidy {p} {b} (leaves address c {h}) (room, (d, at, same_client)) clean v tidy =
    leaving-Tidy p b address d c h v room at same_client tidy
Step-Tidy {p} {b} (ends failed address id {h} pending) room clean v tidy =
    let (went, (c, at)) = clean in rw went (ended-Tidy p b address id c h v tidy pending at)
Step-Tidy stops_all timely clean v tidy = tidy

Run-Tidy :
    {p : Protocol} {b : Builder} {first last : Hub} (run : Run p b true first last)
    → AllTimely run
    → AllClean run
    → Valid first
    → Tidy first
    → Tidy last
Run-Tidy here timely clean v tidy = tidy
Run-Tidy (next run step) timely clean v tidy =
    Step-Tidy step timely.1 clean.1 (Run-Valid v run timely.0)
      (Run-Tidy run timely.0 clean.0 v tidy)

unused : (o : Option (Text × ℕ)) → Matches o 0 → o ≡ none
unused none h = refl
unused (some (buffer, n)) h = absurd (omega (arith, h.1))

-- With assertions compiled, in every run from a hub with right counters and no idle buffers in which each
-- operation gets the lock in time, every shared write that ends does so without an error while its
-- connection is there, and a client that announces is the only processing one of its name: a buffer none
-- of whose writes is in flight is no longer in the shared storage. In time means: who logs in or registers
-- files is then in the set of connections and not processing (so nobody registers twice), who announces
-- a change is in the set and processing, and who leaves is in the set with the state and the nickname
-- that were read before the lock. The code checks none of this. Buffer ids and connections have room.
pub Run-released :
    {p : Protocol} {b : Builder} {first last : Hub} (id : ℕ) (run : Run p b true first last)
    → Valid first
    → Tidy first
    → AllTimely run
    → AllClean run
    → outstanding id last.shared_writes ≡ 0
    → lookup id last.shared_storage ≡ none
Run-released {last = h} id run v tidy timely clean ended =
    unused (lookup id h.shared_storage) (rw ended at (Run-Tidy run timely clean v tidy id))
