-- ===== src/Examples/Hubs.antt =====
-- The hub's theorems at small hubs.
use fspserver.Base.{
  suc, codes, [], same, true, false, none, some, ◌≡◌, ◌≢◌, refl, inl, arith, lookup, erase, modify,
  inc64, dec64, count_values,
}
use fspserver.Hub.State.{processes, Connection, Hub, notification}
use fspserver.Hub.Notify.{
  notified_besides, do_notify, start_shared_writes, share, notify_disconnection,
  notify_files_registration, notify_shared_write_done, shared_write_ended, take_out, stop,
}
use fspserver.Hub.Counting.{outstanding, uses, Counts}
use fspserver.Hub.Keeping.{Valid, Room}
use fspserver.Hub.Completion.{Pending, stop-Valid}
use fspserver.Hub.Late.{do_notify-late}
use fspserver.Hub.Tidy.{Tidy}
use fspserver.Hub.Released.{AllClean, Run-released}
use fspserver.Hub.Runs.{ends, Run, here, next, registers, AllTimely, Run-Valid, Run-buffer_kept}
use fspserver.Examples.Samples.{
  sample_protocol, sample_builder, ann, ann_logged, bob, joining, both,
}

pub joining-Valid : Valid joining
unfolding lookup count_values outstanding
joining-Valid = record {
  counts = record { unique = (refl, (refl, (refl, tt))); counted = refl; small = omega arith };
  covers = record { covered = λ k. omega arith; fits = λ k. omega arith; fresh = λ k above. refl };
}

pub joining-Room : Room joining
joining-Room = record { ids = omega arith; connections = omega arith }

pub joining-ann : lookup 1 joining.connections ≡ some ann_logged
unfolding lookup
joining-ann = refl

-- Ann registers her files: Bob is told through a shared buffer.
abbrev registered : Hub
registered = notify_files_registration sample_protocol sample_builder 1 ann_logged joining

registered-Run : Run sample_protocol sample_builder true joining registered
registered-Run = next here (registers 1 ann_logged)

registered-AllTimely : AllTimely registered-Run
unfolding registered-Run
registered-AllTimely = (tt, (joining-Room, joining-ann, refl))

registered-Pending : Pending 2 1 registered.shared_writes
unfolding notify_files_registration share start_shared_writes inc64
registered-Pending = inl (refl, refl)

registered-Room : Room registered
unfolding notify_files_registration share inc64
registered-Room = record { ids = omega arith; connections = omega arith }

registered-Valid_example : Valid registered
registered-Valid_example = Run-Valid joining-Valid registered-Run registered-AllTimely

Run-buffer_kept_example : lookup 1 registered.shared_storage ≢ none
Run-buffer_kept_example =
    Run-buffer_kept 2 1 joining-Valid registered-Run registered-AllTimely registered-Pending

-- Bob's connection stops while the buffer is being sent to him.
abbrev bob_left : Hub
bob_left = stop sample_protocol sample_builder 2 registered

bob_left-Valid : Valid bob_left
bob_left-Valid =
    stop-Valid sample_protocol sample_builder 2 registered
      (Run-Valid joining-Valid registered-Run registered-AllTimely) registered-Room

bob_left-Pending : Pending 2 1 bob_left.shared_writes
unfolding stop notify_disconnection lookup modify notify_files_registration share
    start_shared_writes inc64 dec64
bob_left-Pending = inl (refl, refl)

bob_left-gone : lookup 2 bob_left.connections ≡ none
unfolding stop notify_disconnection lookup modify erase notify_files_registration share
    start_shared_writes inc64 dec64
bob_left-gone = refl

both-Counts : Counts both
unfolding lookup count_values
both-Counts = record { unique = (refl, (refl, tt)); counted = refl; small = omega arith }

pub both-Room : Room both
both-Room = record { ids = omega arith; connections = omega arith }

pub both-ann : lookup 1 both.connections ≡ some ann
unfolding lookup
both-ann = refl

joining-Tidy : Tidy joining
unfolding lookup outstanding
joining-Tidy = λ k. refl

-- The write to Bob ends.
abbrev told : Hub
told = shared_write_ended sample_protocol sample_builder true false 2 1 registered

told-Run : Run sample_protocol sample_builder true joining told
told-Run = next registered-Run (ends false 2 1 registered-Pending)

told-AllTimely : AllTimely told-Run
unfolding told-Run
told-AllTimely = (registered-AllTimely, registered-Room)

bob_there : (c : Connection) × (lookup 2 registered.connections ≡ some c)
unfolding lookup modify notify_files_registration share start_shared_writes inc64
bob_there = (bob, refl)

told-AllClean : AllClean told-Run
unfolding registered-Run told-Run
told-AllClean = ((tt, tt), (refl, bob_there))

told-ended : outstanding 1 told.shared_writes ≡ 0
unfolding shared_write_ended notify_shared_write_done take_out lookup modify
    notify_files_registration share start_shared_writes inc64 outstanding
told-ended = refl

Run-released_example : lookup 1 told.shared_storage ≡ none
Run-released_example =
    Run-released 1 told-Run joining-Valid joining-Tidy told-AllTimely told-AllClean told-ended

-- A client that has left announces a change: two writes start, and the buffer's counter is one.
abbrev announced_late : Hub
announced_late =
    do_notify sample_protocol sample_builder (codes "cid") (notification (codes "added") [] []) both

pub both-Valid : Valid both
unfolding lookup count_values outstanding
both-Valid = record {
  counts = both-Counts;
  covers = record { covered = λ k. omega arith; fits = λ k. omega arith; fresh = λ k above. refl };
}

nobody_named :
    count_values (notified_besides (codes "cid")) both.connections
    ≡ count_values processes both.connections
unfolding count_values same
nobody_named = refl

do_notify-late_example :
    suc (uses (inc64 both.shared_storage_id_counter) announced_late)
    ≡ outstanding (inc64 both.shared_storage_id_counter) announced_late.shared_writes
do_notify-late_example =
    do_notify-late sample_protocol sample_builder (codes "cid") (notification (codes "added") [] [])
      both both-Valid both-Room nobody_named (omega arith)
