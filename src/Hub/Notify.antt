-- ===== src/Hub/Notify.antt =====
-- The notifications of connection_manager.cpp and the shared buffers behind them, with `stop` and the
-- completion of a shared write of connection.cpp.
use fspserver.Base.{
  ℕ, Text, Bool, true, false, not, ◌&&◌, ◌==◌, if◌then◌else◌, same, precedes, List, [], ◌∷◌, ◌++◌,
  Option, none, some, length, lookup, emplace, erase, modify, inc64, dec64, sub64,
}
use fspserver.Protocol.{Protocol}
use fspserver.Validators.Transition.{logged, processing}
use fspserver.FileTree.Tree.{Tree, file, get, empty}
use fspserver.Hub.State.{
  Outgoing, notification, Builder, Client, Connection, Hub, is_processing, processes, with_state,
}

-- The writes that a loop over the connections starts: one to each connection that passes the test.
unfoldable pub start_shared_writes : (Connection → Bool) → ℕ → List (ℕ × Connection) → List (ℕ × ℕ)
start_shared_writes test id [] = []
start_shared_writes test id ((address, c) ∷ rest) =
    if test c
    then (address, id) ∷ start_shared_writes test id rest
    else start_shared_writes test id rest

-- The test of do_notify's loop.
abbrev pub notified_besides : Text → Connection → Bool
notified_besides notifier c = processes c && not (same c.client.nickname notifier)

-- What three methods do alike: a buffer gets the next id and a counter in the shared storage, and its
-- writes are started.
unfoldable pub share : (Connection → Bool) → Text → ℕ → Hub → Hub
unfolding start_shared_writes
share test buffer counter h = record h {
  shared_storage_id_counter = id;
  shared_storage = emplace id (buffer, counter) h.shared_storage;
  shared_writes = h.shared_writes ++ start_shared_writes test id h.connections;
}
  where
    id : ℕ
    id = inc64 h.shared_storage_id_counter

-- connection::start_write
abbrev pub write : ℕ → Text → Hub → Hub
write address message h = record h { written = h.written ++ ((address, message) ∷ []) }

abbrev pub remove_directory : Text → Hub → Hub
remove_directory nickname h = record h {
  removed_directories = h.removed_directories ++ (nickname ∷ []);
}

abbrev pub set_processing : ℕ → Hub → Hub
set_processing address h = record h {
  connections = modify address (with_state processing) h.connections;
}

abbrev pub logged_as : Text → Connection → Connection
logged_as nickname c = record c {
  client = record (c.client) { nickname = nickname; state = logged };
}

-- The part of do_signin and do_signup that changes the client.
abbrev pub log_in : ℕ → Text → Hub → Hub
log_in address nickname h = record h {
  connections = modify address (logged_as nickname) h.connections;
}

-- connection_manager::start: the connection starts reading and joins the set.
unfoldable pub start : ℕ → Connection → Hub → Hub
start address c h = record h { connections = emplace address c h.connections }

-- stop_all, without the threads that it stops.
unfoldable pub stop_all : Hub → Hub
stop_all h = record h { connections = []; processing_counter = 0 }

unfoldable pub is_logged_in : Text → List (ℕ × Connection) → Bool
is_logged_in nickname [] = false
is_logged_in nickname ((a, c) ∷ rest) =
    if same c.client.nickname nickname then true else is_logged_in nickname rest

-- isLogged
unfoldable pub is_logged : Text → Hub → Bool
unfolding is_logged_in
is_logged nickname h = is_logged_in nickname h.connections

-- `FileSystemsOfUsers[nickname]`, extended by `Get`.
unfoldable pub extend_files : Text → Tree → List (Text × List Text) → List (Text × List Text)
extend_files nickname files [] = (nickname, get files file []) ∷ []
extend_files nickname files ((n, paths) ∷ rest) =
    if same n nickname
    then (n, get files file paths) ∷ rest
    else if precedes nickname n
    then (nickname, get files file []) ∷ (n, paths) ∷ rest
    else (n, paths) ∷ extend_files nickname files rest

-- The loop of notify_files_registration that collects the files of the users in processing state.
unfoldable pub files_of_users :
    List (ℕ × Connection) → List (Text × List Text) → List (Text × List Text)
unfolding extend_files
files_of_users [] found = found
files_of_users ((a, c) ∷ rest) found =
    files_of_users rest
      (if processes c then extend_files c.client.nickname c.client.files found else found)

abbrev pub counter_of : Option (Text × ℕ) → ℕ
counter_of none = 0
counter_of (some (buffer, n)) = n

abbrev pub decrement : Text × ℕ → Text × ℕ
decrement (buffer, n) = (buffer, dec64 n)

-- `--shared_storage_[id].second`, where operator[] makes an entry that is missing.
unfoldable pub count_down : ℕ → List (ℕ × (Text × ℕ)) → List (ℕ × (Text × ℕ))
count_down id m = modify id decrement (emplace id ([], 0) m)

-- The entry is erased inside an `assert`, so only where assertions are compiled.
unfoldable pub release : Bool → ℕ → List (ℕ × (Text × ℕ)) → List (ℕ × (Text × ℕ))
release asserts id m = if counter_of (lookup id m) == 0 && asserts then erase id m else m

unfoldable pub notify_shared_write_done : Bool → ℕ → Hub → Hub
unfolding count_down release
notify_shared_write_done asserts id h = record h {
  shared_storage = release asserts id (count_down id h.shared_storage);
}

-- The first write of a buffer to an address leaves the list.
unfoldable pub take_out : ℕ → ℕ → List (ℕ × ℕ) → List (ℕ × ℕ)
take_out address id [] = []
take_out address id ((a, i) ∷ rest) =
    if a == address && i == id then rest else (a, i) ∷ take_out address id rest

module _ (p : Protocol) (b : Builder) where
  open p use {headers as hdr, notifications as note}

  -- notify_disconnection, from the connection as it was when its state and nickname were read: the
  -- source reads them before it takes the lock.
  unfoldable pub notify_disconnection : ℕ → Connection → Hub → Hub
  notify_disconnection address c h =
      let erased = record h { connections = erase address h.connections } in
      if is_processing c.client.state
      then (if counter == 0
          then record erased { processing_counter = counter }
          else remove_directory nickname (
              share processes (b.build log_out) counter
                (record erased { processing_counter = counter })))
      else remove_directory nickname erased
    where
      nickname : Text
      nickname = c.client.nickname

      counter : ℕ
      counter = dec64 h.processing_counter

      log_out : Outgoing
      log_out = notification note.user_logged_out ((hdr.file_owner, nickname) ∷ []) []

  -- connection::stop, for a connection that is still in the set.
  unfoldable pub stop : ℕ → Hub → Hub
  unfolding notify_disconnection
  stop address h = elim (lookup address h.connections) [
    | none ↦ h
    | some c ↦ if c.stopped then h else notify_disconnection address (record c { stopped = true }) h
  ]

  abbrev pub registered : Client → Outgoing
  registered c =
      if not (empty c.files)
      then notification note.user_registered_files
          ((hdr.file_owner, c.nickname)
            ∷ (hdr.content_length, b.to_string (length (b.build_list (get c.files file []))))
            ∷ (hdr.content_type, b.csv_list)
            ∷ [])
          (b.build_list (get c.files file []))
      else notification note.user_registered_files ((hdr.file_owner, c.nickname) ∷ []) []

  abbrev pub files_of_others : List (Text × List Text) → Outgoing
  files_of_others users =
      notification note.files_of_other_users
        ((hdr.content_length, b.to_string (length (b.build_map users)))
          ∷ (hdr.content_type, b.csv_map)
          ∷ [])
        (b.build_map users)

  -- notify_files_registration
  unfoldable pub notify_files_registration : ℕ → Connection → Hub → Hub
  unfolding files_of_users
  notify_files_registration address c h =
      if counter == 1
      then set_processing address counted
      else set_processing address (
          write address (b.build (files_of_others (files_of_users h.connections [])))
            (share processes (b.build (registered c.client)) (sub64 counter 1) counted))
    where
      counter : ℕ
      counter = inc64 h.processing_counter

      counted : Hub
      counted = record h { processing_counter = counter }

  -- do_notify, with the lock held. Whether the notifier is still in the set and processing is not
  -- checked: its counter is one less than the processing counter all the same.
  unfoldable pub do_notify : Text → Outgoing → Hub → Hub
  do_notify notifier message h =
      if h.processing_counter == 1
      then h
      else share (notified_besides notifier) (b.build message) (sub64 h.processing_counter 1) h

  unfoldable pub notify_file_add : Text → Connection → Hub → Hub
  unfolding do_notify
  notify_file_add file_name c = do_notify c.client.nickname (
      notification note.user_added_new_file
        ((hdr.file_owner, c.client.nickname) ∷ (hdr.file_name, file_name) ∷ []) [])

  unfoldable pub notify_path_removed : Text → Connection → Hub → Hub
  unfolding do_notify
  notify_path_removed path c = do_notify c.client.nickname (
      notification note.user_deleted_file
        ((hdr.file_owner, c.client.nickname) ∷ (hdr.file_name, path) ∷ []) [])

  unfoldable pub notify_path_renamed : Text → Text → Connection → Hub → Hub
  unfolding do_notify
  notify_path_renamed old_path new_name c = do_notify c.client.nickname (
      notification note.user_renamed_file
        ((hdr.file_owner, c.client.nickname)
          ∷ (hdr.file_name, old_path)
          ∷ (hdr.file_new_name, new_name)
          ∷ [])
        [])

  -- The end of a shared write: the handler of connection::async_shared_write after its last send, which
  -- went through or failed. A connection that is gone does nothing.
  unfoldable pub shared_write_ended : Bool → Bool → ℕ → ℕ → Hub → Hub
  unfolding stop take_out
  shared_write_ended asserts failed address id h = elim (lookup address h.connections) [
    | none ↦ rest
    | some c ↦ if failed then stop address rest else notify_shared_write_done asserts id rest
  ]
    where
      rest : Hub
      rest = record h { shared_writes = take_out address id h.shared_writes }
