-- ===== src/Hub/State.antt =====
-- The state of `connection_manager` (connection_manager.h) with the clients of its connections
-- (client.h), and the messages that it sends.
use fspserver.Base.{ℕ, Text, Bool, true, false, List}
use fspserver.Validators.Transition.{State, connected, logged, processing}
use fspserver.FileTree.Tree.{Tree, DiskCall}

-- The message builders and their formats are not part of the repository. What they are given is
-- listed; what they build is a parameter.
pub data Outgoing : Type 0 where
  reply : Text → Text → List (Text × Text) → Outgoing
  notification : Text → List (Text × Text) → Text → Outgoing
  querry : Text → Text → List (Text × Text) → Outgoing

pub record Builder : Type 0 where
  pub build : Outgoing → Text
  pub build_list : List Text → Text
  pub build_map : List (Text × List Text) → Text
  pub to_string : ℕ → Text
  pub csv_list : Text
  pub csv_map : Text

pub record Client : Type 0 where
  pub nickname : Text
  pub state : State
  pub files : Tree

-- A connection: its client, and the flag that `stop` sets.
pub record Connection : Type 0 where
  pub client : Client
  pub stopped : Bool

-- `connections_` is a set of pointers, in the order of their addresses. A buffer of the shared storage
-- has the number of writes that still use it. `written` lists the messages whose writes were started,
-- by address, and `shared_writes` the writes of shared buffers that have not completed, by address
-- and buffer. `removed_directories` lists the calls of std::filesystem::remove_all, and `disk_calls`
-- those that the clients' file systems make.
pub record Hub : Type 0 where
  pub connections : List (ℕ × Connection)
  pub shared_storage : List (ℕ × (Text × ℕ))
  pub processing_counter : ℕ
  pub shared_storage_id_counter : ℕ
  pub written : List (ℕ × Text)
  pub shared_writes : List (ℕ × ℕ)
  pub removed_directories : List Text
  pub disk_calls : List DiskCall

abbrev pub is_processing : State → Bool
is_processing connected = false
is_processing logged = false
is_processing processing = true

abbrev pub processes : Connection → Bool
processes c = is_processing c.client.state

abbrev pub with_state : State → Connection → Connection
with_state s c = record c { client = record (c.client) { state = s } }
