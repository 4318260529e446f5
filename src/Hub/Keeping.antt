-- ===== src/Hub/Keeping.antt =====
-- What each operation of the hub keeps: the counters agree with the connections, and the shared
-- storage covers the writes in flight.
use fspserver.Base.{
  ℕ, suc, ◌-◌, ◌≤◌, ◌<◌, Text, Bool, true, false, ◌==◌, if◌then◌else◌, same_self, List, [], ◌∷◌,
  some, ◌≡◌, inl, inr, refl, arith, lookup, modify, sub64, inc64_exact, sub64_exact, u64_mod,
  count_values, UniqueKeys, UniqueKeys-modify, count_values-erase, count_values-modify, Bool-cases,
}
use fspserver.Protocol.{Protocol}
use fspserver.Validators.Transition.{processing}
use fspserver.Hub.State.{Outgoing, Builder, Connection, Hub, processes, with_state}
use fspserver.Hub.Notify.{
  share, notify_files_registration, do_notify, notified_besides, write, set_processing,
}
use fspserver.Hub.Counting.{Covers, Counts, share-Covers}

pub record Valid (h : Hub) : Type 0 where
  pub counts : Counts h
  pub covers : Covers h

-- There is room for another buffer id, and for another processing connection.
pub record Room (h : Hub) : Type 0 where
  pub ids : suc h.shared_storage_id_counter < u64_mod
  pub connections : suc (suc h.processing_counter) < u64_mod

count_positive :
    (k : ℕ) (c : Connection) (m : List (ℕ × Connection))
    → UniqueKeys m
    → lookup k m ≡ some c
    → processes c ≡ true
    → 0 < count_values processes m
count_positive k c m u h t = ground (arith, count_values-erase processes k c m u h, t)

besides-le :
    (nick : Text) (m : List (ℕ × Connection))
    → count_values (notified_besides nick) m ≤ count_values processes m
unfolding count_values
besides-le nick [] = omega arith
besides-le nick ((j, d) ∷ m) = ground (arith, besides-le nick m)

-- The processing connections among which one has the notifier's name outnumber the others.
besides-lt :
    (nick : Text) (k : ℕ) (c : Connection) (m : List (ℕ × Connection))
    → lookup k m ≡ some c
    → processes c ≡ true
    → c.client.nickname ≡ nick
    → count_values (notified_besides nick) m < count_values processes m
unfolding count_values lookup
besides-lt nick k c [] h t e = cc
besides-lt nick k c ((j, d) ∷ m) h t e =
    ground (arith, besides-le nick m, besides-lt nick k c m, same_self nick)

-- What the storage covers does not depend on the connections, their counter, the messages written or
-- the directories removed.
pub same_storage :
    (h : Hub) (m : List (ℕ × Connection)) (n : ℕ) (w : List (ℕ × Text)) (r : List Text)
    → Covers h
    → Covers
        (record h { connections = m; processing_counter = n; written = w; removed_directories = r })
same_storage h m n w r v = record { covered = v.covered; fits = v.fits; fresh = v.fresh }

pub share-Counts :
    (test : Connection → Bool) (buffer : Text) (n : ℕ) (h : Hub)
    → Counts h
    → Counts (share test buffer n h)
unfolding share
share-Counts test buffer n h v = record { unique = v.unique; counted = v.counted; small = v.small }

register-Valid :
    (registered : Text) (users : Text) (address n : ℕ) (c : Connection) (h : Hub)
    → Valid h
    → Room h
    → lookup address h.connections ≡ some c
    → processes c ≡ false
    → n ≡ suc h.processing_counter
    → let counted = record h { processing_counter = n } in
      Valid (
        if n == 1
        then set_processing address counted
        else set_processing address
            (write address users (share processes registered (sub64 n 1) counted)))
register-Valid registered users address n c h v room at idle e = elim (Bool-cases (n == 1)) [
  | inl z ↦ rw z (record {
    counts = counts;
    covers = same_storage h _ n h.written h.removed_directories v.covers;
  })
  | inr z ↦ rw z (record {
    counts =
        unfold share in
        (record { unique = counts.unique; counted = counts.counted; small = counts.small });
    covers = same_storage _ _ _ _ _ (
        share-Covers processes registered (sub64 n 1) _
          (same_storage h h.connections n h.written h.removed_directories v.covers) room.ids
          (omega (arith, v.counts.counted, sub64_exact n 1, room.connections))
          (omega (arith, sub64_exact n 1, room.connections)));
  })
]
  where
    counts : Counts (record h {
      connections = modify address (with_state processing) h.connections;
      processing_counter = n;
    })
    counts = record {
      unique = UniqueKeys-modify address (with_state processing) h.connections v.counts.unique;
      counted = ground (
        arith,
        e,
        v.counts.counted,
        count_values-modify processes address (with_state processing) c h.connections
            v.counts.unique at,
        idle,
      );
      small = omega (arith, e, room.connections);
    }

-- A connection that registers its files joins the processing ones.
pub notify_files_registration-Valid :
    (p : Protocol) (b : Builder) (address : ℕ) (c : Connection) (h : Hub)
    → Valid h
    → Room h
    → lookup address h.connections ≡ some c
    → processes c ≡ false
    → Valid (notify_files_registration p b address c h)
unfolding notify_files_registration
notify_files_registration-Valid p b address c h v room at idle =
    register-Valid _ _ address _ c h v room at idle
      (omega (arith, inc64_exact h.processing_counter, room.connections))

-- A notification of a processing connection to the others.
pub do_notify-Valid :
    (p : Protocol) (b : Builder) (address : ℕ) (c : Connection) (message : Outgoing) (h : Hub)
    → Valid h
    → Room h
    → lookup address h.connections ≡ some c
    → processes c ≡ true
    → Valid (do_notify p b c.client.nickname message h)
unfolding do_notify
do_notify-Valid p b address c message h v room at busy =
    elim (Bool-cases (h.processing_counter == 1)) [
      | inl e ↦ rw (e, do_notify) v
      | inr e ↦
          rw (e, do_notify)
            (record {
              counts = share-Counts _ (b.build message) _ h v.counts;
              covers =
                  share-Covers _ (b.build message) _ h v.covers room.ids
                    (omega (arith, others, v.counts.counted, exact))
                    (omega (arith, exact, others, v.counts.counted, v.counts.small));
            })
    ]
  where
    others :
        count_values (notified_besides c.client.nickname) h.connections
        < count_values processes h.connections
    others = besides-lt c.client.nickname address c h.connections at busy refl

    exact : sub64 h.processing_counter 1 ≡ h.processing_counter - 1
    exact =
        sub64_exact h.processing_counter 1 (omega (arith, v.counts.small))
          (omega (arith, others, v.counts.counted))
