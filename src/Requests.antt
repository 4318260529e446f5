-- ===== src/Requests.antt =====
-- The requests for files that wait for the files' owners (backup_requests_manager.h and .cpp). A weak
-- pointer to a connection is its address; whether it can be locked is asked of the caller.
pub mod Files
use fspserver.Base.{
  ℕ, ◌+◌, Text, Bool, true, false, ◌&&◌, ◌==◌, if◌then◌else◌, same, List, [], ◌∷◌, Option, none,
  some, lookup, emplace, erase, modify,
}

pub record Request : Type 0 where
  pub connection : ℕ
  pub compression : ℕ
  pub request_id : Text

pub record DownloadInfo : Type 0 where
  pub file_owner : Text
  pub file_path : Text
  pub requests : List Request

-- A backup with its timer: `none` for the null pointer of a default-made entry, and whether it runs.
pub record Backup : Type 0 where
  pub info : DownloadInfo
  pub timer : Option Bool

abbrev pub Backups : Type 0
Backups = List (ℕ × Backup)

-- DownloadInfo::AddRequest
abbrev pub add_request : Request → DownloadInfo → DownloadInfo
add_request r i = record i { requests = r ∷ i.requests }

-- DownloadInfo::RemoveRequest: equal if both lock to the same connection, or neither locks.
unfoldable pub remove_request : (ℕ → Bool) → ℕ → List Request → List Request
remove_request alive address [] = []
remove_request alive address (r ∷ rest) =
    if locks_alike then remove_request alive address rest else r ∷ remove_request alive address rest
  where
    locks_alike : Bool
    locks_alike =
        if alive r.connection
        then alive address && r.connection == address
        else (if alive address then false else true)

-- DownloadInfo::ForEach: the calls that it makes.
unfoldable pub for_each : (ℕ → Bool) → List Request → List Request
for_each alive [] = []
for_each alive (r ∷ rest) =
    if alive r.connection then r ∷ for_each alive rest else for_each alive rest

abbrev pub default_backup : Backup
default_backup = record {
  info = record { file_owner = []; file_path = []; requests = [] };
  timer = none;
}

abbrev pub requests_of : Option Backup → List Request
requests_of none = []
requests_of (some k) = k.info.requests

-- ForEachAndRemoveWrapper, where operator[] makes an entry that is missing.
unfoldable pub for_each_and_remove : (ℕ → Bool) → ℕ → Backups → Backups × List Request
unfolding for_each
for_each_and_remove alive id m =
    let present = emplace id default_backup m in
    (erase id present, for_each alive (requests_of (lookup id present)))

abbrev pub set_timer : Bool → Backup → Backup
set_timer runs k = elim k.timer [ none ↦ k | some _ ↦ record k { timer = some runs } ]

-- BackupAndStartTimer
unfoldable pub backup_and_start_timer : ℕ → DownloadInfo → Backups → Backups
backup_and_start_timer id info m =
    modify id (set_timer true) (emplace id (record { info = info; timer = some false }) m)

-- The timer's handler, when it was not aborted.
unfoldable pub timer_expired : (ℕ → Bool) → ℕ → Backups → Backups × List Request
unfolding for_each_and_remove
timer_expired alive id m = elim (lookup id m) [
  | none ↦ (m, [])
  | some k ↦ elim k.timer [
    | none ↦ (m, [])
    | some runs ↦ if runs then for_each_and_remove alive id m else (m, [])
  ]
]

-- Remove, where operator[] makes an entry that is missing: `none` where it stops the null timer of such
-- an entry.
unfoldable pub remove_backup : ℕ → Backups → Option Backups
remove_backup id m = elim (lookup id m) [
  | none ↦ none
  | some k ↦ elim k.timer [ none ↦ none | some _ ↦ some (erase id m) ]
]

-- IsRequestIDValid: the file's path and owner.
unfoldable pub is_request_id_valid : ℕ → Backups → Backups × Option (Text × Text)
is_request_id_valid id m = elim (lookup id m) [
  | none ↦ (m, none)
  | some k ↦ (modify id (set_timer false) m, some (k.info.file_path, k.info.file_owner))
]

abbrev pub is_for : Text → Text → Backup → Bool
is_for owner path k = same k.info.file_owner owner && same k.info.file_path path

abbrev pub with_request : Request → Backup → Backup
with_request r k = record k { info = add_request r k.info }

-- IsDownloadPending: the first backup for the file gets the request.
unfoldable pub is_download_pending : Text → Text → Request → Backups → Backups × Bool
is_download_pending owner path r [] = ([], false)
is_download_pending owner path r ((id, k) ∷ m) =
    let (later, found) = is_download_pending owner path r m in
    if is_for owner path k then ((id, with_request r k) ∷ m, true) else ((id, k) ∷ later, found)
