-- ===== src/System/Served.antt =====
-- Every request that is executed is served.
use fspserver.Base.{ℕ, true, none, ◌≡◌, ◌⊎◌, lookup}
use fspserver.Protocol.{Protocol}
use fspserver.FileTree.Paths.{Splitter}
use fspserver.FileTree.Tree.{Tree}
use fspserver.Hub.State.{Builder, Hub, Connection}
use fspserver.Users.Database.{Driver}
use fspserver.Handler.Tasks.{Task, logout, download_file}
use fspserver.Downloads.{Disk, querry_of}
use fspserver.Downloads.Serving.{Handled}
use fspserver.System.{World, hub_of}
use fspserver.System.Replies.{Replied}

module _ (p : Protocol) (b : Builder) (s : Splitter) (delimiter : ℕ) (disk : Disk) {S : Type 0}
    (d : Driver S) where
  -- What a task owes the connection that it came from: a reply, and for a download its answer, a place
  -- among those who wait, or the question to the owner; a logout takes the connection out of the set,
  -- or changes nothing of the hub if it has been stopped before.
  abbrev pub Serves : Task → ℕ → Connection → World S → World S → Type 0
  Serves (download_file q) address c w after =
      Handled p b delimiter address (querry_of p b delimiter q) w.server after.server
  Serves logout address c w after =
      ((c.stopped ≡ true) × (hub_of after ≡ hub_of w))
      ⊎ (lookup address (hub_of after).connections ≡ none)
  Serves _ address c w after = Replied address (hub_of w) (hub_of after)
