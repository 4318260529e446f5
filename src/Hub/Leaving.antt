-- ===== src/Hub/Leaving.antt =====
-- A connection that leaves keeps the counters right.
use fspserver.Base.{
  ℕ, Text, true, false, ◌==◌, if◌then◌else◌, some, ◌≡◌, inl, inr, refl, arith, lookup, erase, dec64,
  dec64_exact, UniqueKeys-erase, count_values-erase, Bool-cases,
}
use fspserver.Protocol.{Protocol}
use fspserver.Hub.State.{Builder, Connection, Hub, is_processing, processes}
use fspserver.Hub.Notify.{share, notify_disconnection, remove_directory}
use fspserver.Hub.Counting.{Counts, share-Covers}
use fspserver.Hub.Keeping.{Valid, Room, same_storage, share-Counts}

erased-Counts :
    (address : ℕ) (c : Connection) (h : Hub)
    → Counts h
    → lookup address h.connections ≡ some c
    → processes c ≡ true
    → Counts (record h {
      connections = erase address h.connections;
      processing_counter = dec64 h.processing_counter;
    })
erased-Counts address c h v at t = record {
  unique = UniqueKeys-erase address h.connections v.unique;
  counted = ground (
    arith,
    v.counted,
    v.small,
    count_values-erase processes address c h.connections v.unique at,
    t,
    dec64_exact h.processing_counter,
  );
  small = ground (
    arith,
    v.counted,
    v.small,
    count_values-erase processes address c h.connections v.unique at,
    t,
    dec64_exact h.processing_counter,
  );
}

remove_directory-Valid : (nick : Text) (h : Hub) → Valid h → Valid (remove_directory nick h)
remove_directory-Valid nick h v = record {
  counts = record { unique = v.counts.unique; counted = v.counts.counted; small = v.counts.small };
  covers = same_storage h h.connections h.processing_counter h.written _ v.covers;
}

-- A processing connection is taken out, and the rest is told.
leave-Valid :
    (log_out nick : Text) (address n : ℕ) (c : Connection) (h : Hub)
    → Valid h
    → Room h
    → lookup address h.connections ≡ some c
    → processes c ≡ true
    → n ≡ dec64 h.processing_counter
    → let erased = record h { connections = erase address h.connections; processing_counter = n } in
      Valid (if n == 0 then erased else remove_directory nick (share processes log_out n erased))
leave-Valid log_out nick address n c h v room at busy e = elim (Bool-cases (n == 0)) [
  | inl z ↦ rw z erased-Valid
  | inr z ↦ rw z (
      remove_directory-Valid nick _ (record {
        counts = share-Counts processes log_out n _ erased-Valid.counts;
        covers =
            share-Covers processes log_out n _ erased-Valid.covers room.ids
              (omega (arith, erased-Valid.counts.counted))
              (omega (arith, erased-Valid.counts.small));
      }))
]
  where
    erased-Valid :
        Valid (record h { connections = erase address h.connections; processing_counter = n })
    erased-Valid = record {
      counts = rw e (erased-Counts address c h v.counts at busy);
      covers = same_storage h _ n h.written h.removed_directories v.covers;
    }

-- A connection that is not processing is taken out.
leave_idle-Valid :
    (nick : Text) (address : ℕ) (c : Connection) (h : Hub)
    → Valid h
    → lookup address h.connections ≡ some c
    → processes c ≡ false
    → Valid (remove_directory nick (record h { connections = erase address h.connections }))
leave_idle-Valid nick address c h v at idle = record {
  counts = record {
    unique = UniqueKeys-erase address h.connections v.counts.unique;
    counted = ground (
      arith,
      v.counts.counted,
      count_values-erase processes address c h.connections v.counts.unique at,
      idle,
    );
    small = v.counts.small;
  };
  covers = same_storage h _ h.processing_counter h.written _ v.covers;
}

-- A connection that leaves, whatever its state: the others hear of it, and the counters stay right.
pub notify_disconnection-Valid :
    (p : Protocol) (b : Builder) (address : ℕ) (c d : Connection) (h : Hub)
    → Valid h
    → Room h
    → lookup address h.connections ≡ some c
    → d.client ≡ c.client
    → Valid (notify_disconnection p b address d h)
unfolding notify_disconnection
notify_disconnection-Valid p b address c d h v room at same_client =
    elim (Bool-cases (is_processing d.client.state)) [
      | inl e ↦
          rw (e, notify_disconnection)
            (leave-Valid _ d.client.nickname address _ c h v room at (rw same_client at e) refl)
      | inr e ↦
          rw (e, notify_disconnection)
            (leave_idle-Valid d.client.nickname address c h v at (rw same_client at e))
    ]
