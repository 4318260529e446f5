-- ===== src/Downloads/Replies.antt =====
-- resolve_download_reply: the owner of a file replies to the server's query for it.
use fspserver.Base.{ℕ, Text, if◌then◌else◌, same, Option, none, some}
use fspserver.Protocol.{Protocol, Message}
use fspserver.Hub.State.{Builder}
use fspserver.Requests.{Backups, is_request_id_valid}
use fspserver.Transfers.Sessions.{stoull}
use fspserver.Downloads.{Server, Disk, get_compression}
use fspserver.Downloads.Ending.{begin_download}

-- A call that returns, or throws what std::stoull throws, with the state that it leaves.
pub data Outcome : Type 0 where
  returns throws : Server → Outcome

module _ (p : Protocol) (b : Builder) (delimiter : ℕ) where
  open p use {headers as hdr, responses as rsp, compressions as compr}

  -- The part for an approval, once IsRequestIDValid has answered and stopped the request's timer.
  abbrev pub approve : Disk → Message → ℕ → Backups × Option (Text × Text) → Server → Outcome
  approve disk m id (stopped, none) s = returns s
  approve disk m id (stopped, some file) s = elim (stoull (m.header hdr.file_size)) [
    | none ↦ throws (record s { backups = stopped })
    | some size ↦ returns (
        begin_download p b delimiter disk id
          (get_compression p b delimiter (compr.csv_compressions (m.header hdr.compressions))) size
          s)
  ]

  unfoldable pub resolve_download_reply : Disk → Message → Server → Outcome
  unfolding begin_download
  resolve_download_reply disk m s = elim (stoull (m.header hdr.command_id)) [
    | none ↦ throws s
    | some id ↦
        if same (m.header hdr.reply_code) rsp.download_file_querry_approved
        then approve disk m id (is_request_id_valid id s.backups) s
        else returns s
  ]
