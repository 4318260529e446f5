-- ===== src/Downloads/Ending.antt =====
-- The replies to queries for files, and the ends of downloads (connection_manager.cpp).
use fspserver.Base.{
  ℕ, Text, Bool, true, false, if◌then◌else◌, [], ◌∷◌, ◌++◌, Option, none, some, modify,
}
use fspserver.Protocol.{Protocol}
use fspserver.FileTree.Paths.{Splitter}
use fspserver.FileTree.Tree.{set_cached}
use fspserver.Hub.State.{notification, Builder, Hub}
use fspserver.Hub.Notify.{write}
use fspserver.Requests.{for_each_and_remove, is_request_id_valid}
use fspserver.Transfers.{
  close_download_transaction, begin_download_transaction, end_download_transaction,
}
use fspserver.Downloads.{Server, Disk, on_hub, alive, find_owner, deny_waiting, deliver_all}

module _ (p : Protocol) (b : Builder) (delimiter : ℕ) where
  open p use {headers as hdr, notifications as note, compressions as compr}

  -- SetFileToCached. The flag is set inside an `assert`, so only where assertions are compiled.
  unfoldable pub set_file_to_cached : Splitter → Bool → Text → Text → Hub → Hub
  set_file_to_cached split asserts owner path h = elim (find_owner owner h.connections) [
    | none ↦ h
    | some (a, c) ↦
        if asserts
        then record h {
          connections =
              modify a
                (λ d. record d {
                  client = record (d.client) {
                    files = (set_cached split d.client.files path true).0;
                  };
                })
                h.connections;
        }
        else h
  ]

  -- NotifyFileDownload
  unfoldable pub notify_file_download : Text → ℕ → ℕ → Server → Server
  notify_file_download owner id c s = elim (find_owner owner s.hub.connections) [
    | none ↦ s
    | some (a, d) ↦
        on_hub
          (write a (
            b.build (
              notification note.user_requested_file_download
                ((hdr.download_transaction_id, b.to_string id)
                  ∷ (hdr.download_port, b.to_string s.transfers.port)
                  ∷ (hdr.compressions, compr.compression_name c)
                  ∷ [])
                [])))
          s
  ]

  abbrev pub begun_or_denied : Text → ℕ → ℕ → Bool → Server → Server
  begun_or_denied owner id c true s = notify_file_download owner id c s
  begun_or_denied owner id c false s = deny_waiting p b delimiter id s

  -- The owner approved: the download begins, given the size that it states.
  unfoldable pub begin_download : Disk → ℕ → ℕ → ℕ → Server → Server
  unfolding notify_file_download deny_waiting
  begin_download disk id c size s =
      let (stopped, file) = is_request_id_valid id s.backups in
      elim file [
        | none ↦ record s { backups = stopped }
        | some (path, owner) ↦
            let (transfers, begun) =
              begin_download_transaction p (disk.opens (owner ++ path)) id (owner ++ path) size c
                s.transfers in
            begun_or_denied owner id c begun (record s { backups = stopped; transfers = transfers })
      ]

  -- The download of a file ended, well or not: the handler that BeginDownloadTransaction is given, with
  -- the path and the owner that it captured.
  unfoldable pub download_ended : Splitter → Disk → Bool → Bool → ℕ → Text → Text → Server → Server
  unfolding set_file_to_cached deny_waiting deliver_all
  download_ended split disk asserts success id owner path s =
      if success then delivered else deny_waiting p b delimiter id s
    where
      cached : Hub
      cached = set_file_to_cached split asserts owner path s.hub

      delivered : Server
      delivered =
          let (left, waiting) = for_each_and_remove (alive cached) id s.backups in
          deliver_all p b delimiter disk (owner ++ path) waiting
            (record s { hub = cached; backups = left })

  -- InternalDownloadCompletionHandlerWrapper: the transaction is closed, the handler is called, and the
  -- transaction is ended, inside an `assert`. `none` where there is no receiver or no socket to close.
  unfoldable pub download_wrapped_up :
      Splitter → Disk → Bool → Bool → ℕ → Text → Text → Server → Option Server
  unfolding download_ended
  download_wrapped_up split disk asserts success id owner path s =
      elim (close_download_transaction id s.transfers) [
        | none ↦ none
        | some closed ↦
            let answered =
              download_ended split disk asserts success id owner path
                (record s { transfers = closed }) in
            if asserts
            then some
                (record answered { transfers = end_download_transaction id answered.transfers })
            else some answered
      ]
