-- ===== src/Connection/Reading.antt =====
-- connection::start, start_read, stop and the deadline of connection.cpp: what a connection does as its
-- reads complete, its deadline expires, and it is stopped.
use fspserver.Base.{
  Option, none, some, ℕ, ◌+◌, ◌-◌, ◌<◌, ◌≤◌, Bool, true, false, not, ◌||◌, if◌then◌else◌, List, [],
  ◌∷◌, ◌++◌, ◌≡◌, arith,
}
use fspserver.Protocol.{Protocol}
use fspserver.Connection.ReadAction.{
  Parsed, Effect, reacts, syntactic_error, deadline_stopped, deadline_started, read_loop,
}

-- The reads that have not completed, whether the deadline's timer runs, the flag of `stop`, whether a handler has thrown, how often
-- the manager was told of the end, and what the reads have brought about.
pub record Reader : Type 0 where
  pub reads : ℕ
  pub deadline_runs : Bool
  pub has_stopped : Bool
  pub has_thrown : Bool
  pub disconnections : ℕ
  pub effects : List Effect

abbrev pub new_reader : Reader
new_reader = record {
  reads = 0;
  deadline_runs = false;
  has_stopped = false;
  has_thrown = false;
  disconnections = 0;
  effects = [];
}

unfoldable pub start_read : Reader → Reader
start_read r = record r { reads = r.reads + 1 }

-- stop: the flag is tested and set, the deadline stopped, and the manager told.
unfoldable pub stop_connection : Reader → Reader
stop_connection r = if r.has_stopped then r else record r {
  has_stopped = true;
  deadline_runs = false;
  disconnections = r.disconnections + 1;
}

-- The deadline after the effects of a read: a message stops it, the beginning of one starts it.
unfoldable pub deadline_after : Bool → List Effect → Bool
deadline_after runs [] = runs
deadline_after runs (reacts reaction ∷ rest) = deadline_after runs rest
deadline_after runs (syntactic_error ∷ rest) = deadline_after runs rest
deadline_after runs (deadline_stopped ∷ rest) = deadline_after false rest
deadline_after runs (deadline_started ∷ rest) = deadline_after true rest

abbrev completed : Reader → Reader
completed r = record r { reads = r.reads - 1 }

-- What has been done before the exception, which leaves the handler.
abbrev read_partly : List Effect → Reader → Reader
read_partly effects r = record r {
  effects = r.effects ++ effects;
  deadline_runs = deadline_after r.deadline_runs effects;
  has_thrown = true;
}

abbrev read_all : Protocol → List Parsed → Reader → Reader
read_all p results r = record r {
  effects = r.effects ++ read_loop p false results;
  deadline_runs = deadline_after r.deadline_runs (read_loop p false results);
}

-- The handler of a read, given whether the connection is gone, whether the read failed, what the parser
-- makes of the bytes, and, if the handling of a message throws (as resolve_download_reply can), what was
-- done until then: the handler is left before the next read.
unfoldable pub read_completed :
    Protocol → Bool → Bool → List Parsed → Option (List Effect) → Reader → Reader
unfolding start_read stop_connection deadline_after
read_completed p true failed results thrown r = completed r
read_completed p false true results thrown r = stop_connection (completed r)
read_completed p false false results none r = start_read (read_all p results (completed r))
read_completed p false false results (some effects) r = read_partly effects (completed r)

-- The handler of the deadline, given whether its weak pointer has expired, whether the wait was
-- aborted, and whether the timer is active.
unfoldable pub deadline_expired : Bool → Bool → Bool → Reader → Reader
unfolding stop_connection
deadline_expired expired aborted active r =
    if expired || (aborted || not active) then r else stop_connection r

-- The connection from its start on, as long as it is there.
pub data Reads (p : Protocol) : Reader → Type 0 where
  starts : Reads p (start_read new_reader)
  completes :
      (failed : Bool) (results : List Parsed) (thrown : Option (List Effect)) {r : Reader}
      → Reads p r
      → 0 < r.reads
      → Reads p (read_completed p false failed results thrown r)
  expires :
      (expired aborted active : Bool) {r : Reader}
      → Reads p r
      → Reads p (deadline_expired expired aborted active r)
  stops : {r : Reader} → Reads p r → Reads p (stop_connection r)

abbrev Live : Reader → Type 0
Live r =
    (r.has_stopped ≡ false → r.has_thrown ≡ false → r.reads ≡ 1)
    × (r.reads ≤ 1)
    × (r.disconnections ≡ (if r.has_stopped then 1 else 0))

stop_connection-Live : (r : Reader) → Live r → Live (stop_connection r)
unfolding stop_connection
stop_connection-Live r (one, few, told) = ground (arith, one, few, told)

-- As long as a connection is there, has not been stopped, and no handler of a read of it has thrown, it
-- has exactly one read outstanding; at no time has it more; and it tells the manager of its end exactly
-- once when it is stopped, and not before.
pub Reads-one :
    {p : Protocol} {r : Reader}
    → Reads p r
    → (r.has_stopped ≡ false → r.has_thrown ≡ false → r.reads ≡ 1)
      × (r.reads ≤ 1)
      × (r.disconnections ≡ (if r.has_stopped then 1 else 0))
unfolding start_read read_completed deadline_expired
Reads-one starts = ground arith
Reads-one (completes false results none {r} before waits) =
    let (one, few, told) = Reads-one before in ground (arith, one, few, told)
Reads-one (completes false results (some effects) {r} before waits) =
    let (one, few, told) = Reads-one before in ground (arith, one, few, told)
Reads-one {p} (completes true results thrown {r} before waits) = stopped_late r (Reads-one before)
  where
    stopped_late : (r : Reader) → Live r → Live (stop_connection (completed r))
    stopped_late r (one, few, told) = unfold stop_connection in ground (arith, one, few, told)
Reads-one (expires expired aborted active {r} before) =
    let live = Reads-one before in ground (arith, live, stop_connection-Live r live)
Reads-one (stops {r} before) = stop_connection-Live r (Reads-one before)
