-- ===== src/Transfers.antt =====
-- The file transfers of download_manager.cpp: which transactions are open, and how they begin, start
-- and end. Whether a file can be opened, and its size, are arguments.
pub mod Beginning
pub mod Handshakes
pub mod Closing
pub mod Lifetimes
pub mod Timers
pub mod Staying
pub mod Waiting
pub mod Sessions
use fspserver.Base.{
  ℕ, Text, Bool, true, false, ◌==◌, ltb, if◌then◌else◌, List, [], ◌∷◌, Option, none, some, lookup,
  emplace, erase, modify, inc64,
}
use fspserver.Protocol.{Protocol}

-- The class of the receiver or deliverer; `null` where the pointer is left null.
pub data Mode : Type 0 where
  stream compressed null : Mode

pub record Receiver : Type 0 where
  pub file_name : Text
  pub file_size : ℕ
  pub mode : Mode
  pub file_open : Bool
  pub has_socket : Bool
  pub timer_runs : Bool

pub record Deliverer : Type 0 where
  pub file_name : Text
  pub mode : Mode
  pub has_socket : Bool
  pub timer_runs : Bool

pub record Transfers : Type 0 where
  pub port : ℕ
  pub downloads : List (ℕ × Receiver)
  pub uploads : List (ℕ × Deliverer)
  pub upload_id_counter : ℕ

abbrev pub start_timer : Receiver → Receiver
start_timer r = record r { timer_runs = true }

module _ (p : Protocol) where
  open p use {compressions as compr}

  -- GetSupportedCompressionsEnum
  abbrev pub supported_compressions : List ℕ
  supported_compressions = compr.zlib ∷ compr.gzip ∷ []

  -- The two tests that make a receiver or a deliverer.
  abbrev pub mode_for : ℕ → Mode
  mode_for c =
      if c == compr.zlib then compressed else if c == compr.nocompression then stream else null

  -- BeginDownloadTransaction, given whether the file could be created.
  unfoldable pub begin_download_transaction : Bool → ℕ → Text → ℕ → ℕ → Transfers → Transfers × Bool
  begin_download_transaction false id name size c t = (t, false)
  begin_download_transaction true id name size c t =
      (record t { downloads = modify id start_timer (emplace id receiver t.downloads) }, true)
    where
      receiver : Receiver
      receiver = record {
        file_name = name;
        file_size = size;
        mode = mode_for c;
        file_open = true;
        has_socket = false;
        timer_runs = false;
      }

  -- The compression that an upload gets: only files above 100 MB are compressed, and only by zlib.
  unfoldable pub upload_compression : ℕ → ℕ → ℕ
  upload_compression size c =
      if ltb 104857600 size
      then (if c == compr.zlib then c else compr.nocompression)
      else compr.nocompression

  unfoldable pub open_upload : ℕ → Text → Transfers → Transfers × Option (ℕ × ℕ)
  open_upload c path t = (
    record t {
      uploads = emplace t.upload_id_counter deliverer t.uploads;
      upload_id_counter = inc64 t.upload_id_counter;
    },
    some (t.upload_id_counter, c),
  )
    where
      deliverer : Deliverer
      deliverer = record {
        file_name = path;
        mode = mode_for c;
        has_socket = false;
        timer_runs = false;
      }

  -- BeginUploadTransaction, given the file's size, if it has one, and whether it could be opened: the
  -- transaction's id and compression, or nothing.
  unfoldable pub begin_upload_transaction :
      Option ℕ → Bool → Text → ℕ → Transfers → Transfers × Option (ℕ × ℕ)
  unfolding open_upload upload_compression
  begin_upload_transaction none opened path c t = (t, none)
  begin_upload_transaction (some size) opened path c t =
      if size == 0
      then (t, none)
      else if opened
      then open_upload (upload_compression size c) path t
      else (t, none)

abbrev pub stop_timer : Receiver → Receiver
stop_timer r = record r { timer_runs = false }

abbrev pub connect_receiver : Receiver → Receiver
connect_receiver r = record r { has_socket = true; timer_runs = false }

-- TryStartDownloadTransaction: `none` where it calls a null receiver.
unfoldable pub try_start_download_transaction : ℕ → Transfers → Option Transfers
try_start_download_transaction id t = elim (lookup id t.downloads) [
  | none ↦ some t
  | some r ↦ elim r.mode [
    | null ↦ none
    | _ ↦ some (record t { downloads = modify id connect_receiver t.downloads })
  ]
]

abbrev pub connect_deliverer : Deliverer → Deliverer
connect_deliverer r = record r { has_socket = true; timer_runs = false }

-- TryStartUploadTransaction
unfoldable pub try_start_upload_transaction : ℕ → Transfers → Option Transfers
try_start_upload_transaction id t = elim (lookup id t.uploads) [
  | none ↦ some t
  | some r ↦ elim r.mode [
    | null ↦ none
    | _ ↦ some (record t { uploads = modify id connect_deliverer t.uploads })
  ]
]

-- EndDownloadTransaction and EndUploadTransaction
unfoldable pub end_download_transaction : ℕ → Transfers → Transfers
end_download_transaction id t = record t { downloads = erase id t.downloads }

unfoldable pub end_upload_transaction : ℕ → Transfers → Transfers
end_upload_transaction id t = record t { uploads = erase id t.uploads }

-- The expiry of a download's timer, given whether its wait was aborted and whether it is active: what
-- becomes of the table, and whether TimerHandler is called. The transaction is ended inside an
-- `assert`, so only where assertions are compiled.
unfoldable pub download_timer_expired : Bool → Bool → Bool → ℕ → Transfers → Transfers × Bool
unfolding end_download_transaction
download_timer_expired asserts true active id t = (t, false)
download_timer_expired asserts false false id t = (t, false)
download_timer_expired true false true id t = (end_download_transaction id t, true)
download_timer_expired false false true id t =
    (record t { downloads = modify id stop_timer t.downloads }, true)

abbrev pub stop_upload_timer : Deliverer → Deliverer
stop_upload_timer d = record d { timer_runs = false }

-- The expiry of an upload's timer, likewise; it ends the transaction inside an `assert`.
unfoldable pub upload_timer_expired : Bool → Bool → Bool → ℕ → Transfers → Transfers
unfolding end_upload_transaction
upload_timer_expired asserts true active id t = t
upload_timer_expired asserts false false id t = t
upload_timer_expired true false true id t = end_upload_transaction id t
upload_timer_expired false false true id t = record t {
  uploads = modify id stop_upload_timer t.uploads;
}

-- CleanUpHandler of an upload, which its deliverer calls at its end.
unfoldable pub upload_cleaned_up : Bool → ℕ → Transfers → Transfers
unfolding end_upload_transaction
upload_cleaned_up true id t = end_upload_transaction id t
upload_cleaned_up false id t = t

abbrev pub close_receiver : Receiver → Receiver
close_receiver r = record r { file_open = false }

-- CloseDownloadTransaction: `none` where it calls a null receiver, or shuts a null socket down.
unfoldable pub close_download_transaction : ℕ → Transfers → Option Transfers
close_download_transaction id t = elim (lookup id t.downloads) [
  | none ↦ some t
  | some r ↦ elim r.mode [
    | null ↦ none
    | _ ↦
        if r.has_socket
        then some (record t { downloads = modify id close_receiver t.downloads })
        else none
  ]
]

-- What InternalDownloadCompletionHandlerWrapper does to the table, with the transaction's end inside an
-- `assert`.
unfoldable pub download_completed : Bool → ℕ → Transfers → Option Transfers
unfolding close_download_transaction end_download_transaction
download_completed asserts id t = elim (close_download_transaction id t) [
  | none ↦ none
  | some closed ↦ if asserts then some (end_download_transaction id closed) else some closed
]
