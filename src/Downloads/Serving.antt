-- ===== src/Downloads/Serving.antt =====
-- Who is asked for a file, who is served, and with which compression.
use fspserver.Base.{
  ℕ, Text, true, inc64, List, [], ◌∷◌, none, some, ◌≡◌, ◌⊎◌, inl, refl, arith, lookup, Among,
}
use fspserver.Protocol.{Protocol}
use fspserver.Hub.State.{Builder, Connection, reply}
use fspserver.Hub.Notify.{write}
use fspserver.Requests.{Request, Backup, Backups}
use fspserver.Requests.Files.{find_file}
use fspserver.Transfers.{supported_compressions}
use fspserver.Downloads.{
  Server, DownloadQuerry, file_querry, contains, first_common, get_compression, find_owner,
}

contains-Among : (c : ℕ) (xs : List ℕ) → contains c xs ≡ true → Among c xs
contains-Among c [] h = cc
contains-Among c (x ∷ xs) h = ground (arith, contains-Among c xs)

first_common_lem :
    (p : Protocol) (b : Builder) (delimiter : ℕ) (server user : List ℕ)
    → let c = first_common p b delimiter server user in
      (c ≡ p.compressions.nocompression) ⊎ (Among c server × Among c user)
unfolding first_common
first_common_lem p b d [] user = inl refl
first_common_lem p b d (c ∷ server) user =
    ground (arith, contains-Among c user, first_common_lem p b d server user)

-- The compression chosen for a client is none, or one that both the server and the client name.
pub get_compression-common :
    (p : Protocol) (b : Builder) (delimiter : ℕ) (user : List ℕ)
    → let c = get_compression p b delimiter user in
      (c ≡ p.compressions.nocompression) ⊎ (Among c (supported_compressions p) × Among c user)
unfolding get_compression
get_compression-common p b d [] = inl refl
get_compression-common p b d (c ∷ cs) = first_common_lem p b d (supported_compressions p) (c ∷ cs)

-- The request stands in one of the backups.
abbrev pub Waits : Request → Backups → Type 0
Waits r [] = ⊥
Waits r ((id, k) ∷ m) = Among r k.info.requests ⊎ Waits r m

abbrev pub request_of : ℕ → ℕ → DownloadQuerry → Request
request_of address c q = record { connection = address; compression = c; request_id = q.querry_id }

-- The first backup of a file, for one request, with its timer started.
abbrev pub backup_of : ℕ → ℕ → DownloadQuerry → Backup
backup_of address c q = record {
  info = record {
    file_owner = q.file_owner;
    file_path = q.file_path;
    requests = request_of address c q ∷ [];
  };
  timer = some true;
}

-- The client gets a reply under its query's id, and nothing else is written or stored.
abbrev pub Answered : Builder → ℕ → DownloadQuerry → Server → Server → Type 0
Answered b address q s after =
    (code : Text) × (headers : List (Text × Text)) × (after.hub
      ≡ write address (b.build (reply code q.querry_id headers)) s.hub)
    × (after.backups ≡ s.backups)

-- The file was asked for before: nothing is written, and the request waits with the others.
abbrev pub Joined : ℕ → ℕ → DownloadQuerry → Server → Server → Type 0
Joined address c q s after =
    (id : ℕ) × (find_file q.file_owner q.file_path s.backups ≡ some id)
    × (after.hub ≡ s.hub)
    × Waits (request_of address c q) after.backups

-- The file was not asked for: the owner gets the query under a new id, and nothing else is written; the
-- request waits under this id, for as long as its timer runs.
abbrev pub Asked : Protocol → Builder → ℕ → ℕ → ℕ → ℕ → DownloadQuerry → Server → Server → Type 0
Asked p b d owner address c q s after =
    let id = inc64 s.transactions_id_counter in
    (find_file q.file_owner q.file_path s.backups ≡ none)
    × (after.hub ≡ write owner (b.build (file_querry p b d id q.file_path)) s.hub)
    × (lookup id after.backups ≡ some (backup_of address c q))

-- The query is answered, or joins those that wait, or the file is asked of the connection of its owner.
abbrev pub Handled : Protocol → Builder → ℕ → ℕ → DownloadQuerry → Server → Server → Type 0
Handled p b d address q s after =
    Answered b address q s after
    ⊎ ((c : ℕ) × Joined address c q s after)
    ⊎ ((owner : ℕ) × (o : Connection) × (c : ℕ) × (find_owner q.file_owner s.hub.connections
          ≡ some (owner, o))
        × Asked p b d owner address c q s after)
