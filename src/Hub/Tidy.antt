-- ===== src/Hub/Tidy.antt =====
-- Exact counters of the shared buffers: what keeps the shared storage free of buffers that nobody uses.
use fspserver.Base.{
  ℕ, suc, ◌-◌, ◌<◌, Text, Bool, true, ◌&&◌, ◌==◌, if◌then◌else◌, List, Option, none, some, ◌≡◌,
  refl, inl, inr, arith, lookup, erase, lookup-erase, inc64, dec64, sub64, inc64_exact, dec64_exact,
  sub64_exact, u64_mod, count_values, count_values-erase, Bool-cases,
}
use fspserver.Protocol.{Protocol}
use fspserver.Hub.State.{Outgoing, Builder, Connection, Hub, is_processing, processes}
use fspserver.Hub.Notify.{
  share, notify_disconnection, notify_files_registration, do_notify, notify_shared_write_done,
  notified_besides, counter_of, count_down, release,
}
use fspserver.Hub.Counting.{outstanding, Covers, lookup-share, outstanding-share}
use fspserver.Hub.Keeping.{Valid, Room}
use fspserver.Hub.Completion.{
  Pending, outstanding-take_out, outstanding-Pending, lookup-count_down, without,
}

-- An entry of the storage has as many writes in flight as its counter says, and has some.
abbrev pub Matches : Option (Text × ℕ) → ℕ → Type 0
Matches none writes = writes ≡ 0
Matches (some (buffer, n)) writes = (n ≡ writes) × (0 < writes)

abbrev pub Tidy : Hub → Type 0
Tidy h = (id : ℕ) → Matches (lookup id h.shared_storage) (outstanding id h.shared_writes)

-- Sharing a buffer with as many connections as its counter says, and at least one, keeps it tidy.
pub share-Tidy :
    (test : Connection → Bool) (buffer : Text) (n : ℕ) (h : Hub)
    → Covers h
    → suc h.shared_storage_id_counter < u64_mod
    → count_values test h.connections ≡ n
    → 0 < n
    → Tidy h
    → Tidy (share test buffer n h)
share-Tidy test buffer n h v room exact positive tidy k = ground (
  arith,
  lookup-share test buffer n h k v room,
  outstanding-share test buffer n h k room,
  v.fresh k,
  tidy k,
  exact,
  positive,
)

lookup-release_exact :
    (id k : ℕ) (m : List (ℕ × (Text × ℕ)))
    → lookup k (release true id m)
      ≡ (if counter_of (lookup id m) == 0 && id == k then none else lookup k m)
unfolding release
lookup-release_exact id k m = elim (Bool-cases (counter_of (lookup id m) == 0)) [
  | inl e ↦ rw (e, release) (lookup-erase id k m)
  | inr e ↦ rw (e, release) refl
]

counter-Matches :
    (o : Option (Text × ℕ)) (n : ℕ) → Matches o n → 0 < n → (buffer : Text) × (o ≡ some (buffer, n))
counter-Matches none n h positive = absurd (omega (arith, h, positive))
counter-Matches (some (buffer, k)) n h positive = (buffer, rw h.0 refl)

-- A write that went through is counted, and the last one takes its buffer out.
pub done-Tidy :
    (address id : ℕ) (h : Hub)
    → Covers h
    → Tidy h
    → Pending address id h.shared_writes
    → Tidy (notify_shared_write_done true id (without address id h))
unfolding notify_shared_write_done
done-Tidy address id h v tidy pending k =
    let n = outstanding id h.shared_writes in
    let positive : 0 < n = outstanding-Pending address id h.shared_writes pending in
    let (buffer, at) = counter-Matches (lookup id h.shared_storage) n (tidy id) positive in
    ground (
      arith,
      lookup-release_exact id k (count_down id h.shared_storage),
      lookup-count_down id k n buffer h.shared_storage at,
      lookup-count_down id id n buffer h.shared_storage at,
      at,
      dec64_exact n,
      v.fits id,
      positive,
      outstanding-take_out address id k h.shared_writes pending,
      tidy k,
    )

module _ (p : Protocol) (b : Builder) where
  -- A registration counts the connections that it tells.
  pub notify_files_registration-Tidy :
      (address : ℕ) (c : Connection) (h : Hub)
      → Valid h
      → Room h
      → Tidy h
      → Tidy (notify_files_registration p b address c h)
  unfolding notify_files_registration
  notify_files_registration-Tidy address c h v room tidy =
      elim (Bool-cases (inc64 h.processing_counter == 1)) [
        | inl e ↦ rw (e, notify_files_registration) tidy
        | inr e ↦
            rw (e, notify_files_registration)
              (share-Tidy processes _ (sub64 (inc64 h.processing_counter) 1)
                (record h { processing_counter = inc64 h.processing_counter })
                (record {
                  covered = v.covers.covered;
                  fits = v.covers.fits;
                  fresh = v.covers.fresh;
                })
                room.ids (omega (arith, told)) (ground (arith, told, e, counted)) tidy)
      ]
    where
      counted : inc64 h.processing_counter ≡ suc h.processing_counter
      counted = omega (arith, inc64_exact h.processing_counter, room.connections)

      told : count_values processes h.connections ≡ sub64 (inc64 h.processing_counter) 1
      told = omega (
        arith,
        counted,
        v.counts.counted,
        room.connections,
        sub64_exact (inc64 h.processing_counter) 1,
      )

  -- A notification counts the connections that it tells, where nobody else has the notifier's name.
  pub do_notify-Tidy :
      (nickname : Text) (message : Outgoing) (h : Hub)
      → Valid h
      → Room h
      → suc (count_values (notified_besides nickname) h.connections)
        ≡ count_values processes h.connections
      → Tidy h
      → Tidy (do_notify p b nickname message h)
  unfolding do_notify
  do_notify-Tidy nickname message h v room alone tidy =
      elim (Bool-cases (h.processing_counter == 1)) [
        | inl e ↦ rw (e, do_notify) tidy
        | inr e ↦
            rw (e, do_notify)
              (share-Tidy (notified_besides nickname) _ (sub64 h.processing_counter 1) h v.covers
                room.ids told (ground (arith, exact, alone, v.counts.counted, e)) tidy)
      ]
    where
      exact : sub64 h.processing_counter 1 ≡ h.processing_counter - 1
      exact =
          omega (arith, alone, v.counts.counted, v.counts.small, sub64_exact h.processing_counter 1)

      told : count_values (notified_besides nickname) h.connections ≡ sub64 h.processing_counter 1
      told = omega (arith, exact, alone, v.counts.counted)

  pub leaving-Tidy :
      (address : ℕ) (c d : Connection) (h : Hub)
      → Valid h
      → Room h
      → lookup address h.connections ≡ some c
      → d.client ≡ c.client
      → Tidy h
      → Tidy (notify_disconnection p b address d h)
  unfolding notify_disconnection
  leaving-Tidy address c d h v room at same_client tidy =
      elim (Bool-cases (is_processing d.client.state)) [
        | inr e ↦ rw (e, notify_disconnection) tidy
        | inl e ↦ elim (Bool-cases (dec64 h.processing_counter == 0)) [
          | inl z ↦ rw (e, notify_disconnection) (rw z tidy)
          | inr z ↦
              rw (e, notify_disconnection)
                (rw z (
                  share-Tidy processes _ (dec64 h.processing_counter)
                    (record h {
                      connections = erase address h.connections;
                      processing_counter = dec64 h.processing_counter;
                    })
                    (record {
                      covered = v.covers.covered;
                      fits = v.covers.fits;
                      fresh = v.covers.fresh;
                    })
                    room.ids (left (rw same_client at e)) (ground (arith, z)) tidy))
        ]
      ]
    where
      left :
          processes c ≡ true
          → count_values processes (erase address h.connections) ≡ dec64 h.processing_counter
      left busy = ground (
        arith,
        busy,
        v.counts.counted,
        v.counts.small,
        count_values-erase processes address c h.connections v.counts.unique at,
        dec64_exact h.processing_counter,
      )
