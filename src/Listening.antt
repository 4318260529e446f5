-- ===== src/Listening.antt =====
-- The two accept loops: Server.cpp, with its signals, and the temporary sessions of download_manager.cpp.
-- Boost's acceptor calls the handler of an accept that is outstanding, with an error or a socket.
use fspserver.Base.{
  ℕ, suc, ◌+◌, ◌-◌, ◌≤◌, ◌<◌, ◌==◌, ◌++◌, Bool, true, false, not, if◌then◌else◌, List, [], ◌∷◌,
  Option, none, some, ◌≡◌, ◌⊎◌, inl, refl, arith,
}
use fspserver.Hub.State.{Hub, Connection}
use fspserver.Hub.Notify.{start}

-- Server: whether the acceptor is open, how many accepts and waits for a signal are outstanding, and
-- the connection manager, with how many connections it was given to start.
pub record Listener : Type 0 where
  pub is_open : Bool
  pub accepts : ℕ
  pub waits : ℕ
  pub hub : Hub
  pub started : ℕ

-- do_accept
unfoldable pub do_accept : Listener → Listener
do_accept l = record l { accepts = l.accepts + 1 }

-- do_await_stop
unfoldable pub do_await_stop : Listener → Listener
do_await_stop l = record l { waits = l.waits + 1 }

-- init
unfoldable pub init : Listener → Listener
unfolding do_await_stop
init l = do_await_stop l

-- The constructors: the signals are waited for, the acceptor listens, and the first accept starts.
unfoldable pub construct : Hub → Listener
unfolding init do_accept
construct h =
    do_accept
      (record (init (record { is_open = false; accepts = 0; waits = 0; hub = h; started = 0 })) {
        is_open = true;
      })

-- The handler of an accept. A socket makes a connection, at some address.
unfoldable pub accepted : Option (ℕ × Connection) → Listener → Listener
unfolding do_accept
accepted o l =
    let completed = record l { accepts = l.accepts - 1 } in
    if not l.is_open then completed else elim o [
      | none ↦ do_accept completed
      | some (address, c) ↦
          do_accept (record completed { hub = start address c l.hub; started = suc l.started })
    ]

-- The handler of a signal, or of a wait that was cancelled.
unfoldable pub signalled : Listener → Listener
signalled l = record l { waits = l.waits - 1; is_open = false }

-- The calls of the handlers, one at a time. What the connections themselves do changes the hub.
pub data Calls (first : Listener) : Listener → Type 0 where
  here : Calls first first
  accepts_one :
      (o : Option (ℕ × Connection)) {l : Listener}
      → Calls first l
      → 0 < l.accepts
      → Calls first (accepted o l)
  signals : {l : Listener} → Calls first l → 0 < l.waits → Calls first (signalled l)
  serves : (h : Hub) {l : Listener} → Calls first l → Calls first (record l { hub = h })

-- The server goes on listening: from its construction on it has exactly one accept outstanding as long
-- as its acceptor is open, and at most one once a signal has closed it.
pub Calls-accepts :
    (h : Hub) {l : Listener}
    → Calls (construct h) l
    → ((l.is_open ≡ true) × (l.accepts ≡ 1)) ⊎ ((l.is_open ≡ false) × (l.accepts ≤ 1))
unfolding construct do_accept init do_await_stop accepted signalled
Calls-accepts h here = inl (refl, omega arith)
Calls-accepts h (accepts_one none {l} run some_accept) =
    ground (arith, Calls-accepts h run, some_accept)
Calls-accepts h (accepts_one (some (address, c)) {l} run some_accept) =
    ground (arith, Calls-accepts h run, some_accept)
Calls-accepts h (signals run waiting) = ground (arith, Calls-accepts h run)
Calls-accepts h (serves k run) = Calls-accepts h run

-- Once the acceptor is closed it stays closed and no connection is started, whatever accepts complete.
pub Calls-closed :
    {first l : Listener}
    → first.is_open ≡ false
    → Calls first l
    → (l.is_open ≡ false) × (l.started ≡ first.started) × (l.accepts ≤ first.accepts)
unfolding accepted signalled
Calls-closed closed here = (closed, refl, omega arith)
Calls-closed closed (accepts_one o {l} run some_accept) =
    ground (arith, Calls-closed closed run, some_accept)
Calls-closed closed (signals run waiting) = ground (arith, Calls-closed closed run)
Calls-closed closed (serves h run) = Calls-closed closed run

-- download_manager: the temporary sessions that were made, and those that were started. Each accept has
-- a session of its own; an error deletes it.
pub record Sessions : Type 0 where
  pub waiting : List ℕ
  pub running : List ℕ
  pub made : ℕ

-- StartAccept
unfoldable pub start_accept : Sessions → Sessions
start_accept t = record t { waiting = t.waiting ++ (t.made ∷ []); made = suc t.made }

abbrev without : ℕ → List ℕ → List ℕ
without n [] = []
without n (x ∷ xs) = if x == n then xs else x ∷ without n xs

-- HandleAccept, for a session, with whether the accept failed.
unfoldable pub handle_accept : Bool → ℕ → Sessions → Sessions
unfolding start_accept
handle_accept failed session t =
    let taken = record t { waiting = without session t.waiting } in
    start_accept (if failed then taken else record taken { running = t.running ++ (session ∷ []) })

pub data Accepting : Sessions → Type 0 where
  begins : Accepting (start_accept (record { waiting = []; running = []; made = 0 }))
  accepts_next :
      (failed : Bool) (session : ℕ) {t : Sessions}
      → Accepting t
      → t.waiting ≡ session ∷ []
      → Accepting (handle_accept failed session t)

-- Exactly one session waits for a peer, whatever accepts fail.
pub Accepting-waiting : {t : Sessions} → Accepting t → (session : ℕ) × (t.waiting ≡ session ∷ [])
unfolding start_accept handle_accept
Accepting-waiting begins = (0, refl)
Accepting-waiting (accepts_next true session {t} run at) = (t.made, rw at (ground arith))
Accepting-waiting (accepts_next false session {t} run at) = (t.made, rw at (ground arith))
