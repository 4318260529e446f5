-- ===== src/Hub/Leaks.antt =====
-- Shared buffers that are not given back, and a client that is counted twice.
use fspserver.Base.{
  ℕ, ◌<◌, Bool, true, false, [], none, some, ◌≡◌, ◌≢◌, arith, lookup, emplace, lookup-emplace,
  lookup-modify, inc64_exact, count_values-modify,
}
use fspserver.Protocol.{Protocol}
use fspserver.Validators.Transition.{processing}
use fspserver.Hub.State.{Builder, Connection, Hub, processes, with_state}
use fspserver.Hub.Notify.{
  share, notify_files_registration, notify_shared_write_done, shared_write_ended, count_down,
  release, decrement,
}
use fspserver.Hub.Counting.{outstanding, uses, Counts}
use fspserver.Hub.Keeping.{Valid, Room}
use fspserver.Hub.Completion.{Pending, outstanding-take_out}

-- Where assertions are not compiled, no completed write takes its buffer out of the shared storage.
pub notify_shared_write_done-stays :
    (id : ℕ) (h : Hub) → lookup id (notify_shared_write_done false id h).shared_storage ≢ none
unfolding notify_shared_write_done release count_down
notify_shared_write_done-stays id h = ground (
  arith,
  lookup-modify id id decrement (emplace id ([], 0) h.shared_storage),
  lookup-emplace id id ([], 0) h.shared_storage,
)

-- A shared write that completes after its connection has left is not counted: from then on the
-- buffer's counter is above the number of its writes, and those cannot bring it down to 0.
pub shared_write_ended-gone :
    (p : Protocol) (b : Builder) (asserts failed : Bool) (address id : ℕ) (h : Hub)
    → Valid h
    → Pending address id h.shared_writes
    → lookup address h.connections ≡ none
    → let after = shared_write_ended p b asserts failed address id h in
      outstanding id after.shared_writes < uses id after
unfolding shared_write_ended
shared_write_ended-gone p b asserts failed address id h v pending gone =
    rw (gone, shared_write_ended)
      (ground
        (arith, outstanding-take_out address id id h.shared_writes pending, v.covers.covered id))

-- A client that pushes its files again while it is processing is counted twice: afterwards the
-- counter is not the number of processing connections.
pub notify_files_registration-twice :
    (p : Protocol) (b : Builder) (address : ℕ) (c : Connection) (h : Hub)
    → Counts h
    → Room h
    → lookup address h.connections ≡ some c
    → processes c ≡ true
    → ¬ Counts (notify_files_registration p b address c h)
unfolding notify_files_registration share
notify_files_registration-twice p b address c h v room at busy after = ground (
  arith,
  after.counted,
  v.counted,
  count_values-modify processes address (with_state processing) c h.connections v.unique at,
  busy,
  inc64_exact h.processing_counter,
  room.connections,
)
