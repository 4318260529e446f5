-- ===== src/Transfers/Lifetimes.antt =====
-- The life of the transactions of download_manager.cpp, as sequences of the events that change the
-- tables: each takes its table's lock.
use fspserver.Base.{ℕ, Text, Bool, true, List, [], ◌∷◌, Option, none, some, ◌≡◌, lookup}
use fspserver.Protocol.{Protocol}
use fspserver.FileTree.Paths.{Splitter}
use fspserver.Transfers.{
  Receiver, Deliverer, upload_timer_expired, Transfers, begin_download_transaction,
  begin_upload_transaction, download_timer_expired, download_completed, upload_cleaned_up,
}
use fspserver.Transfers.Sessions.{handle_handshake}

-- What happens to the tables.
pub data Event : Type 0 where
  download_begins upload_begins peer_comes : Event
  timer_expires upload_expires download_completes upload_completes : ℕ → Event

module _ (p : Protocol) (s : Splitter) (delimiter : ℕ) (receiver_code sender_code : Text)
    (type_first asserts : Bool) where
  -- A download begins under an id that no download has; a timer expires while it runs.
  pub data Step (t : Transfers) : Event → Transfers → Type 0 where
    begins_download :
        (opened : Bool) (id : ℕ) (name : Text) (size c : ℕ)
        → lookup id t.downloads ≡ none
        → Step t download_begins (begin_download_transaction p opened id name size c t).0
    begins_upload :
        (size : Option ℕ) (opened : Bool) (path : Text) (c : ℕ)
        → Step t upload_begins (begin_upload_transaction p size opened path c t).0
    shakes_hands :
        (failed : Bool) (line : Option Text) (after : Transfers)
        → handle_handshake s delimiter receiver_code sender_code type_first failed line t
          ≡ some after
        → Step t peer_comes after
    expires :
        (aborted active : Bool) (id : ℕ) (r : Receiver)
        → lookup id t.downloads ≡ some r
        → r.timer_runs ≡ true
        → Step t (timer_expires id) (download_timer_expired asserts aborted active id t).0
    expires_upload :
        (aborted active : Bool) (id : ℕ) (d : Deliverer)
        → lookup id t.uploads ≡ some d
        → d.timer_runs ≡ true
        → Step t (upload_expires id) (upload_timer_expired asserts aborted active id t)
    completes_download :
        (id : ℕ) (after : Transfers)
        → download_completed asserts id t ≡ some after
        → Step t (download_completes id) after
    completes_upload : (id : ℕ) → Step t (upload_completes id) (upload_cleaned_up asserts id t)

  -- The events, the last one first.
  pub data Run (first : Transfers) : List Event → Transfers → Type 0 where
    here : Run first [] first
    next :
        {events : List Event} {event : Event} {t after : Transfers}
        → Run first events t
        → Step t event after
        → Run first (event ∷ events) after
