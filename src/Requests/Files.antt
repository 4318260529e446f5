-- ===== src/Requests/Files.antt =====
-- A file is asked of its owner once, however many clients want it.
use fspserver.Base.{
  ℕ, Text, Bool, true, false, if◌then◌else◌, same_iff, [], ◌∷◌, Option, none, some, ◌≡◌, ◌≢◌, refl,
  arith, lookup, modify, insert_at, emplace_new, modify_absent, UniqueKeys, Bool-cases, inl, inr,
}
use fspserver.Requests.{
  Request, DownloadInfo, Backup, Backups, is_for, with_request, is_download_pending,
  backup_and_start_timer, set_timer,
}

-- The key of the first backup for a file.
unfoldable pub find_file : Text → Text → Backups → Option ℕ
find_file owner path [] = none
find_file owner path ((id, k) ∷ m) = if is_for owner path k then some id else find_file owner path m

-- No two backups are for one file.
abbrev pub FilesUnique : Backups → Type 0
FilesUnique [] = Unit
FilesUnique ((id, k) ∷ m) = (find_file k.info.file_owner k.info.file_path m ≡ none) × FilesUnique m

-- IsDownloadPending is true exactly when there is a backup for the file, and changes nothing otherwise.
pub is_download_pending-find_file :
    (owner path : Text) (r : Request) (m : Backups)
    → ((is_download_pending owner path r m).1
        ≡ elim (find_file owner path m) [ none ↦ false | some _ ↦ true ])
      × (find_file owner path m ≡ none → (is_download_pending owner path r m).0 ≡ m)
unfolding is_download_pending find_file
is_download_pending-find_file owner path r [] = (refl, λ _. refl)
is_download_pending-find_file owner path r ((id, k) ∷ m) =
    let ih = is_download_pending-find_file owner path r m in ground (arith, ih.0, ih.1)

find_file_known :
    (owner path : Text) (id : ℕ) (m : Backups)
    → find_file owner path m ≡ some id
    → lookup id m ≢ none
unfolding find_file lookup
find_file_known owner path id [] h = cc
find_file_known owner path id ((j, k) ∷ m) h = ground (arith, find_file_known owner path id m)

-- What the list of backups becomes, given the key of the file's first backup.
abbrev pub joined : Request → Backups → Option ℕ → Backups × Bool
joined r m none = (m, false)
joined r m (some id) = (modify id (with_request r) m, true)

joined-cons :
    (owner path : Text) (r : Request) (id : ℕ) (k : Backup) (m : Backups) (found : Option ℕ)
    → find_file owner path m ≡ found
    → lookup id m ≡ none
    → ((id, k) ∷ (joined r m found).0, (joined r m found).1) ≡ joined r ((id, k) ∷ m) found
unfolding modify
joined-cons owner path r id k m none e free = refl
joined-cons owner path r id k m (some j) e free =
    ground (arith, find_file_known owner path j m e, free)

-- IsDownloadPending adds the request to the backup for the file, if there is one, and then answers
-- true; otherwise it changes nothing and answers false.
pub is_download_pending_exact :
    (owner path : Text) (r : Request) (m : Backups)
    → UniqueKeys m
    → is_download_pending owner path r m ≡ joined r m (find_file owner path m)
unfolding is_download_pending find_file
is_download_pending_exact owner path r [] u = refl
is_download_pending_exact owner path r ((id, k) ∷ m) u = elim (Bool-cases (is_for owner path k)) [
  | inl e ↦
      rw (e, is_download_pending)
        (unfold modify in ground (arith, modify_absent id (with_request r) m u.0))
  | inr e ↦
      rw (e, is_download_pending)
        (rw (is_download_pending_exact owner path r m u.1)
          (joined-cons owner path r id k m (find_file owner path m) refl u.0))
]

pending_files :
    (owner path o q : Text) (r : Request) (m : Backups)
    → find_file o q (is_download_pending owner path r m).0 ≡ find_file o q m
unfolding is_download_pending find_file
pending_files owner path o q r [] = refl
pending_files owner path o q r ((id, k) ∷ m) = ground (arith, pending_files owner path o q r m)

pub is_download_pending-FilesUnique :
    (owner path : Text) (r : Request) (m : Backups)
    → FilesUnique m
    → FilesUnique (is_download_pending owner path r m).0
unfolding is_download_pending
is_download_pending-FilesUnique owner path r [] u = tt
is_download_pending-FilesUnique owner path r ((id, k) ∷ m) u = ground (
  arith,
  is_download_pending-FilesUnique owner path r m u.1,
  pending_files owner path k.info.file_owner k.info.file_path r m,
)

find_file-insert_at :
    (o q : Text) (id : ℕ) (k : Backup) (m : Backups)
    → is_for o q k ≡ false
    → find_file o q (insert_at id k m) ≡ find_file o q m
unfolding find_file insert_at
find_file-insert_at o q id k [] h = ground (arith, h)
find_file-insert_at o q id k ((j, w) ∷ m) h = ground (arith, find_file-insert_at o q id k m h)

insert_at-FilesUnique :
    (id : ℕ) (k : Backup) (m : Backups)
    → find_file k.info.file_owner k.info.file_path m ≡ none
    → FilesUnique m
    → FilesUnique (insert_at id k m)
unfolding find_file insert_at
insert_at-FilesUnique id k [] h u = (refl, tt)
insert_at-FilesUnique id k ((j, w) ∷ m) h u = ground (
  arith,
  insert_at-FilesUnique id k m,
  find_file-insert_at w.info.file_owner w.info.file_path id k m,
  same_iff k.info.file_owner w.info.file_owner,
  same_iff k.info.file_path w.info.file_path,
  same_iff w.info.file_owner k.info.file_owner,
  same_iff w.info.file_path k.info.file_path,
)

set_timer-info : (runs : Bool) (k : Backup) → (set_timer runs k).info ≡ k.info
set_timer-info runs k = ground arith

find_file-set_timer :
    (o q : Text) (id : ℕ) (runs : Bool) (m : Backups)
    → find_file o q (modify id (set_timer runs) m) ≡ find_file o q m
unfolding find_file modify
find_file-set_timer o q id runs [] = refl
find_file-set_timer o q id runs ((j, k) ∷ m) =
    ground (arith, set_timer-info runs k, find_file-set_timer o q id runs m)

set_timer-FilesUnique :
    (id : ℕ) (runs : Bool) (m : Backups)
    → FilesUnique m
    → FilesUnique (modify id (set_timer runs) m)
unfolding modify
set_timer-FilesUnique id runs [] u = tt
set_timer-FilesUnique id runs ((j, k) ∷ m) u = ground (
  arith,
  set_timer-info runs k,
  set_timer-FilesUnique id runs m u.1,
  find_file-set_timer k.info.file_owner k.info.file_path id runs m,
)

pub backup_and_start_timer-FilesUnique :
    (id : ℕ) (info : DownloadInfo) (m : Backups)
    → lookup id m ≡ none
    → find_file info.file_owner info.file_path m ≡ none
    → FilesUnique m
    → FilesUnique (backup_and_start_timer id info m)
unfolding backup_and_start_timer
backup_and_start_timer-FilesUnique id info m free absent u =
    rw (emplace_new id (record { info = info; timer = some false }) m free)
      (set_timer-FilesUnique id true _ (insert_at-FilesUnique id _ m absent u))
