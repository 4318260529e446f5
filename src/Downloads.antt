-- ===== src/Downloads.antt =====
-- The downloads of connection_manager.cpp: a client asks for a file, its owner is asked for it, and
-- those who wait for it are served or denied.
pub mod Serving
pub mod Ending
pub mod Replies
pub mod Quiet
use fspserver.Base.{
  ℕ, Text, Bool, true, false, not, ◌&&◌, ◌==◌, if◌then◌else◌, same, List, [], ◌∷◌, ◌++◌, Option,
  none, some, lookup, modify, inc64,
}
use fspserver.Protocol.{Protocol, Message}
use fspserver.FileTree.Paths.{Splitter}
use fspserver.FileTree.Tree.{Tree, find, set_cached}
use fspserver.Hub.State.{Outgoing, reply, notification, querry, Builder, Client, Connection, Hub}
use fspserver.Hub.Notify.{write}
use fspserver.Handler.Accounts.{answer}
use fspserver.Handler.Tasks.{Download}
use fspserver.Requests.{
  Request, DownloadInfo, Backups, for_each_and_remove, backup_and_start_timer, is_request_id_valid,
  is_download_pending,
}
use fspserver.Transfers.{
  Transfers, supported_compressions, begin_download_transaction, begin_upload_transaction,
  end_download_transaction,
}

pub record Server : Type 0 where
  pub hub : Hub
  pub backups : Backups
  pub transfers : Transfers
  pub transactions_id_counter : ℕ

-- What std::filesystem and CreateFile answer for a path: its size, if it has one, and whether it opens.
pub record Disk : Type 0 where
  pub size : Text → Option ℕ
  pub opens : Text → Bool

-- connection_manager::DownloadQuerry
pub record DownloadQuerry : Type 0 where
  pub querry_id : Text
  pub file_owner : Text
  pub file_path : Text
  pub ssl_version : ℕ
  pub compressions : List ℕ

abbrev contains : ℕ → List ℕ → Bool
contains c [] = false
contains c (x ∷ xs) = if c == x then true else contains c xs

abbrev pub on_hub : (Hub → Hub) → Server → Server
on_hub f s = record s { hub = f s.hub }

-- Whether the weak pointer to a connection locks.
abbrev pub alive : Hub → ℕ → Bool
alive h address = elim (lookup address h.connections) [ none ↦ false | some c ↦ true ]

-- find_if by nickname, over the set of connections.
unfoldable pub find_owner : Text → List (ℕ × Connection) → Option (ℕ × Connection)
find_owner owner [] = none
find_owner owner ((a, c) ∷ rest) =
    if same c.client.nickname owner then some (a, c) else find_owner owner rest

-- CSVCompressions: each name with the delimiter behind it, without the last delimiter.
unfoldable pub csv_names : ℕ → List Text → Text
csv_names delimiter [] = []
csv_names delimiter (n ∷ []) = n
csv_names delimiter (n ∷ m ∷ ns) = n ++ (delimiter ∷ csv_names delimiter (m ∷ ns))

module _ (p : Protocol) (b : Builder) (delimiter : ℕ) where
  open p use {
    headers as hdr, responses as rsp, querries as qry, notifications as note, compressions as compr,
    ssl_versions as ssl,
  }

  -- The two loops of GetCompression.
  unfoldable pub first_common : List ℕ → List ℕ → ℕ
  first_common [] user = compr.nocompression
  first_common (c ∷ server) user = if contains c user then c else first_common server user

  unfoldable pub get_compression : List ℕ → ℕ
  unfolding first_common
  get_compression [] = compr.nocompression
  get_compression (c ∷ cs) = first_common (supported_compressions p) (c ∷ cs)

  abbrev approved : Text → ℕ → ℕ → ℕ → ℕ → Outgoing
  approved request_id size port id c = reply rsp.download_file_querry_approved request_id (
      (hdr.file_size, b.to_string size)
      ∷ (hdr.download_port, b.to_string port)
      ∷ (hdr.download_transaction_id, b.to_string id)
      ∷ (hdr.compressions, compr.compression_name c)
      ∷ [])

  -- The reply of DeliverFileFromLocalStorage, given the file's size and the transaction, if it began.
  abbrev pub delivery : ℕ → Text → Option ℕ → Option (ℕ × ℕ) → Server → Server
  delivery address request_id (some size) (some (id, c)) s =
      on_hub (write address (b.build (approved request_id size s.transfers.port id c))) s
  delivery address request_id _ _ s = on_hub (answer p b address rsp.download_deny request_id) s

  -- DeliverFileFromLocalStorage
  unfoldable pub deliver_file_from_local_storage : Disk → ℕ → ℕ → Text → Text → Server → Server
  deliver_file_from_local_storage disk address c request_id path s =
      let (transfers, begun) =
        begin_upload_transaction p (disk.size path) (disk.opens path) path c s.transfers in
      delivery address request_id (disk.size path) begun (record s { transfers = transfers })

  -- GetDownloadDenyHandler, for each of the requests.
  unfoldable pub deny_all : List Request → Server → Server
  deny_all [] s = s
  deny_all (r ∷ rest) s =
      deny_all rest (on_hub (answer p b r.connection rsp.download_deny r.request_id) s)

  -- ForEachAndRemoveWrapper with the deny handler.
  unfoldable pub deny_waiting : ℕ → Server → Server
  unfolding deny_all
  deny_waiting id s =
      let (left, waiting) = for_each_and_remove (alive s.hub) id s.backups in
      deny_all waiting (record s { backups = left })

  unfoldable pub deliver_all : Disk → Text → List Request → Server → Server
  unfolding deliver_file_from_local_storage
  deliver_all disk path [] s = s
  deliver_all disk path (r ∷ rest) s =
      deliver_all disk path rest
        (deliver_file_from_local_storage disk r.connection r.compression r.request_id path s)

  abbrev pub file_querry : ℕ → Text → Outgoing
  file_querry id path = querry qry.download_file (b.to_string id) (
      (hdr.file_name, path)
      ∷ (hdr.ssl_version, ssl.version_name ssl.sslv23)
      ∷ (
        hdr.compressions,
        csv_names delimiter
            (compr.compression_name compr.zlib ∷ compr.compression_name compr.gzip ∷ []),
      )
      ∷ [])

  -- The end of resolve_download_file_querry: the file is asked of its owner, unless it was before. The
  -- question and the storing of the backup are two critical sections of the backup manager; here no
  -- other query comes in between.
  unfoldable pub ask_owner : ℕ → ℕ → ℕ → DownloadQuerry → Server → Server
  ask_owner owner_address address c q s =
      let (waiting, pending) = is_download_pending q.file_owner q.file_path request s.backups in
      if pending then record s { backups = waiting } else record s {
        transactions_id_counter = id;
        hub = write owner_address (b.build (file_querry id q.file_path)) s.hub;
        backups =
            backup_and_start_timer id
              (record {
                file_owner = q.file_owner;
                file_path = q.file_path;
                requests = request ∷ [];
              })
              waiting;
      }
    where
      id : ℕ
      id = inc64 s.transactions_id_counter

      request : Request
      request = record { connection = address; compression = c; request_id = q.querry_id }

  -- What follows once the owner is found, and the flag of the file, if it has the file.
  abbrev pub resolve_owned : Disk → ℕ → ℕ → Option Bool → DownloadQuerry → Server → Server
  resolve_owned disk owner_address address none q s =
      on_hub (answer p b address rsp.download_deny q.querry_id) s
  resolve_owned disk owner_address address (some true) q s =
      deliver_file_from_local_storage disk address (get_compression q.compressions) q.querry_id
        (q.file_owner ++ q.file_path) s
  resolve_owned disk owner_address address (some false) q s =
      ask_owner owner_address address (get_compression q.compressions) q s

  -- resolve_download_file_querry
  unfoldable pub resolve_download_file_querry :
      Splitter → Disk → ℕ → DownloadQuerry → Server → Server
  unfolding ask_owner deliver_file_from_local_storage
  resolve_download_file_querry split disk address q s =
      if ssl.sslv23 == q.ssl_version
      then elim (find_owner q.file_owner s.hub.connections) [
        | none ↦ on_hub (answer p b address rsp.download_deny q.querry_id) s
        | some (owner_address, owner) ↦
            resolve_owned disk owner_address address (find split owner.client.files q.file_path) q s
      ]
      else on_hub (answer p b address rsp.ssl_version_incompatible q.querry_id) s

  -- The query that do_download_file makes of what a client asked for.
  abbrev pub querry_of : Download → DownloadQuerry
  querry_of d = record {
    querry_id = d.request_id;
    file_owner = d.file_owner;
    file_path = d.file_path;
    ssl_version = ssl.version d.ssl_version;
    compressions = compr.csv_compressions d.compressions;
  }

  -- do_download_file of server_side_handler.cpp.
  unfoldable pub do_download_file : Splitter → Disk → Download → ℕ → Server → Server
  unfolding resolve_download_file_querry
  do_download_file split disk d address s = elim (lookup address s.hub.connections) [
    | none ↦ s
    | some c ↦ resolve_download_file_querry split disk address (querry_of d) s
  ]
