-- ===== src/Examples/Requests.antt =====
-- Requests, transfers and downloads at small states.
use fspserver.Base.{
  ℕ, codes, true, [], ◌∷◌, Option, none, some, ◌≡◌, refl, arith, lookup, UniqueKeys,
}
use fspserver.FileTree.Paths.{AllFree}
use fspserver.FileTree.Paths.Tokens.{splitter, tokens}
use fspserver.Transfers.Sessions.{try_init_transaction}
use fspserver.Transfers.Sessions.Hello.{AllDigits, try_init_transaction-join}
use fspserver.Requests.{Request, Backups, is_download_pending}
use fspserver.Requests.Files.{find_file, joined, is_download_pending_exact}
use fspserver.Transfers.{Transfers, begin_upload_transaction}
use fspserver.Downloads.{Server, Disk, DownloadQuerry, ask_owner}
use fspserver.Examples.Samples.{sample_protocol, sample_builder, both}

abbrev request : Request
request = record { connection = 2; compression = 1; request_id = codes "7" }

-- Somebody waits for Ann's notes.
abbrev waiting : Backups
waiting =
    (
      3,
      record {
        info = record {
          file_owner = codes "ann";
          file_path = codes "/docs/notes";
          requests = request ∷ [];
        };
        timer = some true;
      },
    )
    ∷ []

is_download_pending_exact_example :
    is_download_pending (codes "ann") (codes "/docs/notes") request waiting
    ≡ joined request waiting (find_file (codes "ann") (codes "/docs/notes") waiting)
is_download_pending_exact_example =
    is_download_pending_exact (codes "ann") (codes "/docs/notes") request waiting waiting-UniqueKeys
  where
    waiting-UniqueKeys : UniqueKeys waiting
    waiting-UniqueKeys = unfold lookup in (refl, tt)

abbrev pub no_transfers : Transfers
no_transfers = record { port = 9000; downloads = []; uploads = []; upload_id_counter = 5 }

no_download : lookup 4 no_transfers.downloads ≡ none
unfolding lookup
no_download = refl

abbrev upload : Transfers × Option (ℕ × ℕ)
upload =
    begin_upload_transaction sample_protocol (some 200000000) true (codes "ann/film") 1 no_transfers

abbrev sample_server : Server
sample_server = record {
  hub = both;
  backups = waiting;
  transfers = no_transfers;
  transactions_id_counter = 3;
}

abbrev sample_disk : Disk
sample_disk = record { size = λ path. some 10; opens = λ path. true }

-- Bob wants Ann's photo.
abbrev sample_querry : DownloadQuerry
sample_querry = record {
  querry_id = codes "8";
  file_owner = codes "ann";
  file_path = codes "/docs/photo";
  ssl_version = 0;
  compressions = 1 ∷ [];
}

abbrev asked : Server
asked = ask_owner sample_protocol sample_builder 44 1 2 1 sample_querry sample_server

twelve : AllDigits (codes "12")
twelve = (refl, (refl, tt))

hello-AllFree : AllFree 124 (codes "receiver" ∷ codes "12" ∷ [])
unfolding tokens
hello-AllFree = splitter.split-free 124 (codes "receiver|12")

try_init_transaction-join_example :
    try_init_transaction splitter 124
      (codes "receiver")
      (codes "sender")
      true
      (some (codes "receiver|12"))
    ≡ some (record { hello_type = codes "receiver"; transaction_id = 12 })
try_init_transaction-join_example =
    try_init_transaction-join splitter 124 (codes "receiver") (codes "sender") (codes "receiver") 49
      (50 ∷ []) hello-AllFree twelve (omega arith)
