-- ===== src/Transfers/Beginning.antt =====
-- How transfers begin.
use fspserver.Base.{
  ◌<◌, ◌≤◌, ℕ, Text, true, false, none, some, ◌≡◌, ◌≢◌, ◌⊎◌, arith, lookup, ◌∙◌, lookup-emplace,
  lookup-modify,
}
use fspserver.Protocol.{Protocol}
use fspserver.Transfers.{
  start_timer, null, Transfers, mode_for, begin_download_transaction, upload_compression,
  try_start_download_transaction,
}

pub lookup_begun :
    (p : Protocol) (id : ℕ) (name : Text) (size c : ℕ) (t : Transfers)
    → lookup id t.downloads ≡ none
    → lookup id (begin_download_transaction p true id name size c t).0.downloads
      ≡ some (record {
        file_name = name;
        file_size = size;
        mode = mode_for p c;
        file_open = true;
        has_socket = false;
        timer_runs = true;
      })
unfolding begin_download_transaction
lookup_begun p id name size c t free =
    lookup-modify id id start_timer _ ∙ rw (lookup-emplace id id, free) (ground arith)

-- A download that is begun under a new id with a compression that is neither zlib nor none, though the
-- file could be created, has no receiver: starting it calls a null pointer.
pub try_start_download_transaction-null :
    (p : Protocol) (id : ℕ) (name : Text) (size c : ℕ) (t : Transfers)
    → lookup id t.downloads ≡ none
    → c ≢ p.compressions.zlib
    → c ≢ p.compressions.nocompression
    → try_start_download_transaction id (begin_download_transaction p true id name size c t).0
      ≡ none
unfolding try_start_download_transaction
try_start_download_transaction-null p id name size c t free z n =
    rw (lookup_begun p id name size c t free, try_start_download_transaction) (ground (arith, z, n))

pub upload_mode-known :
    (p : Protocol) (size c : ℕ) → mode_for p (upload_compression p size c) ≢ null
unfolding upload_compression
upload_mode-known p size c = ground arith

-- What an upload is sent as: compressed exactly where zlib was asked for and the file has more than
-- 100 MB.
abbrev pub Chosen : Protocol → ℕ → ℕ → ℕ → Type 0
Chosen p size c d =
    ((d ≡ p.compressions.zlib) × (c ≡ p.compressions.zlib) × (104857600 < size))
    ⊎ ((d ≡ p.compressions.nocompression) × ((c ≢ p.compressions.zlib) ⊎ (size ≤ 104857600)))
