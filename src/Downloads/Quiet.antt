-- ===== src/Downloads/Quiet.antt =====
-- A download query changes nothing of the hub but the messages that were written.
use fspserver.Base.{
  ℕ, Text, Bool, true, false, ◌==◌, List, Option, none, some, ◌≡◌, inl, inr, refl, Bool-cases,
  Option-cases,
}
use fspserver.Protocol.{Protocol}
use fspserver.FileTree.Paths.{Splitter}
use fspserver.Hub.State.{Builder}
use fspserver.Downloads.{
  Server, Disk, DownloadQuerry, delivery, deliver_file_from_local_storage, ask_owner, resolve_owned,
  resolve_download_file_querry, find_owner,
}
use fspserver.Requests.{is_download_pending}

abbrev pub Quiet : Server → Server → Type 0
Quiet s after = (m : List (ℕ × Text)) × (after.hub ≡ record (s.hub) { written = m })

module _ (p : Protocol) (b : Builder) (delimiter : ℕ) (disk : Disk) where
  delivery-Quiet :
      (address : ℕ) (id : Text) (size : Option ℕ) (t : Option (ℕ × ℕ)) (s : Server)
      → Quiet s (delivery p b delimiter address id size t s)
  delivery-Quiet address id none t s = (_, refl)
  delivery-Quiet address id (some n) none s = (_, refl)
  delivery-Quiet address id (some n) (some (i, c)) s = (_, refl)

  deliver-Quiet :
      (address c : ℕ) (id path : Text) (s : Server)
      → Quiet s (deliver_file_from_local_storage p b delimiter disk address c id path s)
  unfolding deliver_file_from_local_storage
  deliver-Quiet address c id path s = delivery-Quiet address id _ _ _

  ask_owner-Quiet :
      (owner address c : ℕ) (q : DownloadQuerry) (s : Server)
      → Quiet s (ask_owner p b delimiter owner address c q s)
  unfolding ask_owner
  ask_owner-Quiet owner address c q s =
      elim (Bool-cases
        (is_download_pending q.file_owner q.file_path
          (record { connection = address; compression = c; request_id = q.querry_id })
          s.backups).1) [
            | inl e ↦ rw (e, ask_owner) (_, refl)
            | inr e ↦ rw (e, ask_owner) (_, refl)
          ]

  resolve_owned-Quiet :
      (owner address : ℕ) (found : Option Bool) (q : DownloadQuerry) (s : Server)
      → Quiet s (resolve_owned p b delimiter disk owner address found q s)
  resolve_owned-Quiet owner address none q s = (_, refl)
  resolve_owned-Quiet owner address (some true) q s = deliver-Quiet address _ _ _ s
  resolve_owned-Quiet owner address (some false) q s = ask_owner-Quiet owner address _ q s

  pub resolve_download_file_querry-Quiet :
      (split : Splitter) (address : ℕ) (q : DownloadQuerry) (s : Server)
      → Quiet s (resolve_download_file_querry p b delimiter split disk address q s)
  unfolding resolve_download_file_querry
  resolve_download_file_querry-Quiet split address q s =
      elim (Bool-cases (p.ssl_versions.sslv23 == q.ssl_version)) [
        | inr e ↦ rw (e, resolve_download_file_querry) (_, refl)
        | inl e ↦ elim (Option-cases (find_owner q.file_owner s.hub.connections)) [
          | inl n ↦ rw (e, resolve_download_file_querry) (rw n (_, refl))
          | inr ((a, c), n) ↦
              rw (e, resolve_download_file_querry) (rw n (resolve_owned-Quiet a address _ q s))
        ]
      ]
