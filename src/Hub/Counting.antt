-- ===== src/Hub/Counting.antt =====
-- The counters of the hub: how many connections are in the processing state, and how many writes use
-- a shared buffer.
use fspserver.Base.{
  ℕ, suc, ◌+◌, ◌≤◌, ◌<◌, Text, Bool, ◌==◌, if◌then◌else◌, List, [], ◌∷◌, ◌++◌, none, some, ◌≡◌, ap,
  ◌∙◌, arith, lookup, lookup-emplace, inc64, inc64_exact, u64_mod, count_values, UniqueKeys,
}
use fspserver.Hub.State.{Connection, Hub, processes}
use fspserver.Hub.Notify.{start_shared_writes, share, counter_of}

-- The number of writes of a buffer that have not completed.
unfoldable pub outstanding : ℕ → List (ℕ × ℕ) → ℕ
outstanding id [] = 0
outstanding id ((a, i) ∷ rest) = (if i == id then 1 else 0) + outstanding id rest

-- The counter of a buffer in the shared storage; 0 where there is none.
abbrev pub uses : ℕ → Hub → ℕ
uses id h = counter_of (lookup id h.shared_storage)

-- The storage covers the writes: no buffer has more writes than its counter says, and the ids above
-- the last one are free.
pub record Covers (h : Hub) : Type 0 where
  pub covered : (id : ℕ) → outstanding id h.shared_writes ≤ uses id h
  pub fits : (id : ℕ) → uses id h < u64_mod
  pub fresh : (id : ℕ) → h.shared_storage_id_counter < id → lookup id h.shared_storage ≡ none

-- The counter of processing connections is their number.
pub record Counts (h : Hub) : Type 0 where
  pub unique : UniqueKeys h.connections
  pub counted : h.processing_counter ≡ count_values processes h.connections
  pub small : suc h.processing_counter < u64_mod

outstanding-append :
    (id : ℕ) (xs ys : List (ℕ × ℕ))
    → outstanding id (xs ++ ys) ≡ outstanding id xs + outstanding id ys
unfolding outstanding
outstanding-append id [] ys = omega arith
outstanding-append id ((a, i) ∷ xs) ys = omega (arith, outstanding-append id xs ys)

outstanding-start_shared_writes :
    (test : Connection → Bool) (id k : ℕ) (m : List (ℕ × Connection))
    → outstanding k (start_shared_writes test id m) ≡ (if id == k then count_values test m else 0)
unfolding outstanding start_shared_writes count_values
outstanding-start_shared_writes test id k [] = ground arith
outstanding-start_shared_writes test id k ((a, c) ∷ m) =
    ground (arith, outstanding-start_shared_writes test id k m)

-- The new buffer gets an entry of its own.
pub lookup-share :
    (test : Connection → Bool) (buffer : Text) (n : ℕ) (h : Hub) (k : ℕ)
    → Covers h
    → suc h.shared_storage_id_counter < u64_mod
    → lookup k (share test buffer n h).shared_storage ≡ (
        if suc h.shared_storage_id_counter == k
        then some (buffer, n)
        else lookup k h.shared_storage)
unfolding share
lookup-share test buffer n h k v room = rw (
  id_suc,
  lookup-emplace (suc h.shared_storage_id_counter) k (buffer, n) h.shared_storage,
  v.fresh (suc h.shared_storage_id_counter) (omega arith),
)
  where
    id_suc : inc64 h.shared_storage_id_counter ≡ suc h.shared_storage_id_counter
    id_suc = omega (arith, inc64_exact h.shared_storage_id_counter)

pub outstanding-share :
    (test : Connection → Bool) (buffer : Text) (n : ℕ) (h : Hub) (k : ℕ)
    → suc h.shared_storage_id_counter < u64_mod
    → outstanding k (share test buffer n h).shared_writes
      ≡ outstanding k h.shared_writes
        + (if suc h.shared_storage_id_counter == k then count_values test h.connections else 0)
unfolding share
outstanding-share test buffer n h k room =
    outstanding-append k h.shared_writes _
    ∙ ap (◌+◌ (outstanding k h.shared_writes)) (
        rw id_suc
          (outstanding-start_shared_writes test (suc h.shared_storage_id_counter) k h.connections))
  where
    id_suc : inc64 h.shared_storage_id_counter ≡ suc h.shared_storage_id_counter
    id_suc = omega (arith, inc64_exact h.shared_storage_id_counter)

-- Sharing a buffer keeps the storage covering, where its counter is at least the number of writes that
-- it starts.
pub share-Covers :
    (test : Connection → Bool) (buffer : Text) (n : ℕ) (h : Hub)
    → Covers h
    → suc h.shared_storage_id_counter < u64_mod
    → count_values test h.connections ≤ n
    → n < u64_mod
    → Covers (share test buffer n h)
unfolding share
share-Covers test buffer n h v room enough fits = record {
  covered = λ k. ground (
    arith,
    lookup-share test buffer n h k v room,
    outstanding-share test buffer n h k room,
    v.covered k,
    v.fresh k,
  );
  fits = λ k. ground (arith, lookup-share test buffer n h k v room, v.fits k);
  fresh = λ k above. ground (
    arith,
    lookup-share test buffer n h k v room,
    inc64_exact h.shared_storage_id_counter,
    v.fresh k,
  );
}
