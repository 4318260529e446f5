-- ===== src/Hub/Completion.antt =====
-- The completion of shared writes, and the connections that come and go.
use fspserver.Base.{
  ℕ, ◌+◌, ◌-◌, ◌<◌, Text, Bool, true, false, ◌&&◌, ◌==◌, if◌then◌else◌, List, [], ◌∷◌, Option, none,
  some, ◌≡◌, ◌⊎◌, inl, inr, refl, arith, lookup, emplace, lookup-emplace, lookup-erase,
  lookup-modify, dec64, dec64_exact, u64_mod, count_values, UniqueKeys-insert_at,
  count_values-insert_at, emplace_new, Bool-cases, Option-cases,
}
use fspserver.Protocol.{Protocol}
use fspserver.Hub.State.{Builder, Connection, Hub, processes}
use fspserver.Hub.Notify.{
  start, stop_all, stop, notify_shared_write_done, shared_write_ended, take_out, counter_of,
  decrement, count_down, release,
}
use fspserver.Hub.Counting.{outstanding, uses}
use fspserver.Hub.Keeping.{Valid, Room}
use fspserver.Hub.Leaving.{notify_disconnection-Valid}

-- The write is among those that have not completed.
abbrev pub Pending : ℕ → ℕ → List (ℕ × ℕ) → Type 0
Pending address id [] = ⊥
Pending address id ((a, i) ∷ rest) = ((a ≡ address) × (i ≡ id)) ⊎ Pending address id rest

pub outstanding-take_out :
    (address id k : ℕ) (writes : List (ℕ × ℕ))
    → Pending address id writes
    → outstanding k (take_out address id writes) + (if id == k then 1 else 0) ≡ outstanding k writes
unfolding outstanding take_out
outstanding-take_out address id k [] h = elim h [ ]
outstanding-take_out address id k ((a, i) ∷ rest) h =
    grind (arith, outstanding-take_out address id k rest)

pub outstanding-Pending :
    (address id : ℕ) (writes : List (ℕ × ℕ)) → Pending address id writes → 0 < outstanding id writes
outstanding-Pending address id writes h =
    ground (arith, outstanding-take_out address id id writes h)

pub lookup-count_down :
    (id k n : ℕ) (buffer : Text) (m : List (ℕ × (Text × ℕ)))
    → lookup id m ≡ some (buffer, n)
    → lookup k (count_down id m) ≡ (if id == k then some (buffer, dec64 n) else lookup k m)
unfolding count_down
lookup-count_down id k n buffer m at =
    ground (
      arith,
      lookup-modify id k decrement (emplace id ([], 0) m),
      lookup-emplace id k ([], 0) m,
      at,
    )

lookup-release :
    (asserts : Bool) (id k : ℕ) (m : List (ℕ × (Text × ℕ)))
    → (counter_of (lookup k (release asserts id m)) ≡ counter_of (lookup k m))
      × (lookup k m ≡ none → lookup k (release asserts id m) ≡ none)
unfolding release
lookup-release asserts id k m = elim (Bool-cases (counter_of (lookup id m) == 0 && asserts)) [
  | inl e ↦
      rw (e, release)
        (ground (arith, lookup-erase id k m, e), λ q. ground (arith, lookup-erase id k m, q))
  | inr e ↦ rw (e, release) (refl, λ q. q)
]

uses_positive :
    (o : Option (Text × ℕ)) → 0 < counter_of o → (buffer : Text) × (n : ℕ) × (o ≡ some (buffer, n))
uses_positive none h = absurd (omega arith)
uses_positive (some (buffer, n)) h = (buffer, n, refl)

-- What `notify_shared_write_done` leaves of each counter.
pub uses-notify_shared_write_done :
    (asserts : Bool) (id k : ℕ) (h : Hub)
    → 0 < uses id h
    → uses id h < u64_mod
    → uses k (notify_shared_write_done asserts id h) ≡ uses k h - (if id == k then 1 else 0)
unfolding notify_shared_write_done
uses-notify_shared_write_done asserts id k h positive fits =
    let (buffer, n, at) = uses_positive (lookup id h.shared_storage) positive in
    ground (
      arith,
      (lookup-release asserts id k (count_down id h.shared_storage)).0,
      lookup-count_down id k n buffer h.shared_storage at,
      at,
      dec64_exact n,
      positive,
      fits,
    )

fresh-done :
    (asserts : Bool) (id k : ℕ) (h : Hub)
    → 0 < uses id h
    → lookup k h.shared_storage ≡ none
    → lookup k (notify_shared_write_done asserts id h).shared_storage ≡ none
unfolding notify_shared_write_done
fresh-done asserts id k h positive none_there =
    let (buffer, n, at) = uses_positive (lookup id h.shared_storage) positive in
    (lookup-release asserts id k (count_down id h.shared_storage)).1
      (ground (arith, lookup-count_down id k n buffer h.shared_storage at, at, none_there))

abbrev pub without : ℕ → ℕ → Hub → Hub
without address id h = record h { shared_writes = take_out address id h.shared_writes }

without-Valid :
    (address id : ℕ) (h : Hub)
    → Valid h
    → Pending address id h.shared_writes
    → Valid (without address id h)
without-Valid address id h v pending = record {
  counts = record { unique = v.counts.unique; counted = v.counts.counted; small = v.counts.small };
  covers = record {
    covered = λ k.
        omega
          (arith, outstanding-take_out address id k h.shared_writes pending, v.covers.covered k);
    fits = v.covers.fits;
    fresh = v.covers.fresh;
  };
}

done_keeps :
    (asserts : Bool) (id : ℕ) (h : Hub)
    → ((notify_shared_write_done asserts id h).shared_writes ≡ h.shared_writes)
      × ((notify_shared_write_done asserts id h).shared_storage_id_counter
          ≡ h.shared_storage_id_counter)
unfolding notify_shared_write_done
done_keeps asserts id h = (refl, refl)

done-Valid :
    (asserts : Bool) (address id : ℕ) (h : Hub)
    → Valid h
    → Pending address id h.shared_writes
    → Valid (notify_shared_write_done asserts id (without address id h))
done-Valid asserts address id h v pending = record {
  counts =
      unfold notify_shared_write_done in
      (record { unique = v.counts.unique; counted = v.counts.counted; small = v.counts.small });
  covers = record {
    covered = λ k. rw (done_keeps asserts id (without address id h)).0 (
        ground (
          arith,
          left k,
          outstanding-take_out address id k h.shared_writes pending,
          v.covers.covered k,
        ));
    fits = λ k. omega (arith, left k, v.covers.fits k);
    fresh = λ k above.
        fresh-done asserts id k (without address id h) positive
          (v.covers.fresh k (rw (done_keeps asserts id (without address id h)).1 at above));
  };
}
  where
    positive : 0 < uses id h
    positive =
        omega (arith, outstanding-Pending address id h.shared_writes pending, v.covers.covered id)

    left :
        (k : ℕ)
        → uses k (notify_shared_write_done asserts id (without address id h))
          ≡ uses k h - (if id == k then 1 else 0)
    left k =
        uses-notify_shared_write_done asserts id k (without address id h) positive
          (v.covers.fits id)

-- `stop` of any address.
pub stop-Valid :
    (p : Protocol) (b : Builder) (address : ℕ) (h : Hub)
    → Valid h
    → Room h
    → Valid (stop p b address h)
unfolding stop
stop-Valid p b address h v room = elim (Option-cases (lookup address h.connections)) [
  | inl e ↦ rw (e, stop) v
  | inr (c, e) ↦ elim (Bool-cases c.stopped) [
    | inl s ↦ rw (e, stop) (rw s v)
    | inr s ↦
        rw (e, stop)
          (rw s (
            notify_disconnection-Valid p b address c (record c { stopped = true }) h v room e refl))
  ]
]

-- The end of a shared write that is in flight, whether it went through or failed, and whether its
-- connection is still there.
pub shared_write_ended-Valid :
    (p : Protocol) (b : Builder) (asserts failed : Bool) (address id : ℕ) (h : Hub)
    → Valid h
    → Room h
    → Pending address id h.shared_writes
    → Valid (shared_write_ended p b asserts failed address id h)
unfolding shared_write_ended
shared_write_ended-Valid p b asserts failed address id h v room pending =
    elim (Option-cases (lookup address h.connections)) [
      | inl e ↦ rw (e, shared_write_ended) (without-Valid address id h v pending)
      | inr (c, e) ↦ elim (Bool-cases failed) [
        | inl f ↦
            rw (e, shared_write_ended)
              (rw f (
                stop-Valid p b address (without address id h) (without-Valid address id h v pending)
                  (record { ids = room.ids; connections = room.connections })))
        | inr f ↦ rw (e, shared_write_ended) (rw f (done-Valid asserts address id h v pending))
      ]
    ]

-- A connection that starts, at a new address and not processing.
pub start-Valid :
    (address : ℕ) (c : Connection) (h : Hub)
    → Valid h
    → lookup address h.connections ≡ none
    → processes c ≡ false
    → Valid (start address c h)
unfolding start
start-Valid address c h v free idle = record {
  counts = record {
    unique =
        rw (emplace_new address c h.connections free)
          (UniqueKeys-insert_at address c h.connections free v.counts.unique);
    counted = rw (emplace_new address c h.connections free) (
        ground (
          arith,
          count_values-insert_at processes address c h.connections,
          v.counts.counted,
          idle,
        ));
    small = v.counts.small;
  };
  covers = record { covered = v.covers.covered; fits = v.covers.fits; fresh = v.covers.fresh };
}

pub stop_all-Valid : (h : Hub) → Valid h → Valid (stop_all h)
unfolding stop_all count_values
stop_all-Valid h v = record {
  counts = record { unique = tt; counted = refl; small = omega arith };
  covers = record { covered = v.covers.covered; fits = v.covers.fits; fresh = v.covers.fresh };
}
