-- ===== src/Hub/Late.antt =====
-- What do_notify does for a client that has left the set, which it does not check.
use fspserver.Base.{
  ◌-◌, inl, inr, Bool-cases, ==_iff, sub64, suc, ◌<◌, Text, ◌≡◌, arith, inc64, inc64_exact,
  sub64_exact, ◌==◌, count_values,
}
use fspserver.Protocol.{Protocol}
use fspserver.Hub.State.{Outgoing, Builder, Hub, processes}
use fspserver.Hub.Notify.{do_notify, notified_besides}
use fspserver.Hub.Counting.{outstanding, uses, lookup-share, outstanding-share}
use fspserver.Hub.Keeping.{Valid, Room}

-- A change that is announced in the name of a client that is no longer among the processing ones, while
-- two or more are processing, gets a buffer whose counter is one below its writes in flight, so that the
-- buffer goes before the last write. The counters were right, and buffer ids have room.
pub do_notify-late :
    (p : Protocol) (b : Builder) (notifier : Text) (message : Outgoing) (h : Hub)
    → Valid h
    → Room h
    → count_values (notified_besides notifier) h.connections ≡ count_values processes h.connections
    → 1 < h.processing_counter
    → let id = inc64 h.shared_storage_id_counter in
      let after = do_notify p b notifier message h in
      suc (uses id after) ≡ outstanding id after.shared_writes
unfolding do_notify
do_notify-late p b notifier message h v room absent several =
    rw id_suc (elim (Bool-cases (h.processing_counter == 1)) [
      | inl e ↦ absurd (omega (arith, several, (==_iff h.processing_counter 1).0 e))
      | inr e ↦
          rw (e, do_notify)
            (ground (
              arith,
              lookup-share (notified_besides notifier) (b.build message)
                  (sub64 h.processing_counter 1) h (suc h.shared_storage_id_counter) v.covers
                  room.ids,
              outstanding-share (notified_besides notifier) (b.build message)
                  (sub64 h.processing_counter 1) h (suc h.shared_storage_id_counter) room.ids,
              exact,
              unused,
              absent,
              v.counts.counted,
              several,
            ))
    ])
  where
    id_suc : inc64 h.shared_storage_id_counter ≡ suc h.shared_storage_id_counter
    id_suc = omega (arith, inc64_exact h.shared_storage_id_counter, room.ids)

    exact : sub64 h.processing_counter 1 ≡ h.processing_counter - 1
    exact =
        sub64_exact h.processing_counter 1 (omega (arith, v.counts.small)) (omega (arith, several))

    unused : outstanding (suc h.shared_storage_id_counter) h.shared_writes ≡ 0
    unused = ground (
      arith,
      v.covers.covered (suc h.shared_storage_id_counter),
      v.covers.fresh (suc h.shared_storage_id_counter) (omega arith),
    )
