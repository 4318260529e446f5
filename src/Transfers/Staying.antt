-- ===== src/Transfers/Staying.antt =====
-- Downloads of download_manager.cpp that a peer has come for.
use fspserver.Base.{
  some_same, not_there, ℕ, Text, Bool, true, false, ◌&&◌, ◌==◌, ==_iff, List, Option, none, some,
  Among, ◌≡◌, ◌≢◌, inl, inr, refl, sym, ap, ◌∙◌, subst, arith, lookup, modify, lookup-modify_apart,
  lookup-modify_at, lookup-emplace_apart, lookup-erase_apart, Bool-cases,
}
use fspserver.Protocol.{Protocol}
use fspserver.FileTree.Paths.{Splitter}
use fspserver.Transfers.{
  upload_timer_expired, Receiver, Transfers, close_receiver, start_timer, stop_timer,
  connect_receiver, begin_download_transaction, begin_upload_transaction, open_upload,
  download_timer_expired, upload_cleaned_up, end_download_transaction, end_upload_transaction,
}
use fspserver.Transfers.Closing.{closed_if, erased_if, Completes, download_completed-Completes}
use fspserver.Transfers.Timers.{Timed, Run-Timed}
use fspserver.Transfers.Handshakes.{Connects, handle_handshake-Connects}
use fspserver.Transfers.Lifetimes.{
  Event, download_completes, Step, begins_download, begins_upload, shakes_hands, expires,
  expires_upload, completes_download, completes_upload, Run, here, next,
}

-- A peer has come for the download, which is still there.
abbrev pub Served : ℕ → Transfers → Type 0
Served id t = (r : Receiver) × (lookup id t.downloads ≡ some r) × (r.has_socket ≡ true)

both : {a b : Bool} → a ≡ true → b ≡ true → (a && b) ≡ false → ⊥
both e f g = ground (arith, e, f, g)

-- The table of downloads after a change at another key.
apart-Served :
    (id : ℕ) (m n : List (ℕ × Receiver))
    → lookup id n ≡ lookup id m
    → ((r : Receiver) × (lookup id m ≡ some r) × (r.has_socket ≡ true))
    → (r : Receiver) × (lookup id n ≡ some r) × (r.has_socket ≡ true)
apart-Served id m n e (r, at, socket) = (r, e ∙ at, socket)

begin_download-Served :
    (p : Protocol) (opened : Bool) (id j : ℕ) (name : Text) (size c : ℕ) (t : Transfers)
    → lookup j t.downloads ≡ none
    → Served id t
    → Served id (begin_download_transaction p opened j name size c t).0
unfolding begin_download_transaction
begin_download-Served p false id j name size c t free served = served
begin_download-Served p true id j name size c t free (r, at, socket) = elim (Bool-cases (j == id)) [
  | inl e ↦
      absurd (not_there (sym free ∙ (ap (λ k. lookup k t.downloads) ((==_iff j id).0 e) ∙ at)))
  | inr apart ↦ (
    r,
    lookup-modify_apart j id start_timer _ apart
        ∙ (lookup-emplace_apart j id _ t.downloads apart ∙ at),
    socket,
  )
]

begin_upload-downloads :
    (p : Protocol) (size : Option ℕ) (opened : Bool) (path : Text) (c : ℕ) (t : Transfers)
    → (begin_upload_transaction p size opened path c t).0.downloads ≡ t.downloads
unfolding begin_upload_transaction open_upload
begin_upload-downloads p none opened path c t = refl
begin_upload-downloads p (some n) opened path c t = ground arith

connect-Served :
    (id j : ℕ) (t : Transfers)
    → Served id t
    → Served id (record t { downloads = modify j connect_receiver t.downloads })
connect-Served id j t (r, at, socket) = elim (Bool-cases (j == id)) [
  | inl e ↦ (
    connect_receiver r,
    ap (λ k. lookup id (modify k connect_receiver t.downloads)) ((==_iff j id).0 e)
        ∙ lookup-modify_at id connect_receiver r t.downloads at,
    refl,
  )
  | inr apart ↦ (r, lookup-modify_apart j id connect_receiver t.downloads apart ∙ at, socket)
]

Connects-Served : (id : ℕ) (t after : Transfers) → Connects t after → Served id t → Served id after
Connects-Served id t after (inl e) served = subst (Served id) (sym e) served
Connects-Served id t after (inr (inl (j, e))) served = subst (Served id) (sym e) served
Connects-Served id t after (inr (inr (j, e))) served =
    subst (Served id) (sym e) (connect-Served id j t served)

-- The timer of another download.
expired_apart :
    (asserts aborted active : Bool) (id j : ℕ) (t : Transfers)
    → (j == id) ≡ false
    → lookup id (download_timer_expired asserts aborted active j t).0.downloads
      ≡ lookup id t.downloads
unfolding download_timer_expired end_download_transaction
expired_apart asserts true active id j t apart = refl
expired_apart asserts false false id j t apart = refl
expired_apart true false true id j t apart = lookup-erase_apart j id t.downloads apart
expired_apart false false true id j t apart = lookup-modify_apart j id stop_timer t.downloads apart

closed_apart :
    (closed : Bool) (id j : ℕ) (m : List (ℕ × Receiver))
    → (j == id) ≡ false
    → lookup id (closed_if closed j m) ≡ lookup id m
closed_apart true id j m apart = lookup-modify_apart j id close_receiver m apart
closed_apart false id j m apart = refl

erased_apart :
    (asserts : Bool) (id j : ℕ) (m : List (ℕ × Receiver))
    → (j == id) ≡ false
    → lookup id (erased_if asserts j m) ≡ lookup id m
erased_apart true id j m apart = lookup-erase_apart j id m apart
erased_apart false id j m apart = refl

-- The end of another download.
Completes-Served :
    (asserts : Bool) (id j : ℕ) (t after : Transfers)
    → (j == id) ≡ false
    → Completes asserts j t after
    → Served id t
    → Served id after
Completes-Served asserts id j t after apart (closed, e) served = subst (Served id) (sym e) (
    apart-Served id t.downloads _
      (erased_apart asserts id j _ apart ∙ closed_apart closed id j t.downloads apart) served)

upload_cleaned_up-downloads :
    (asserts : Bool) (id : ℕ) (t : Transfers)
    → (upload_cleaned_up asserts id t).downloads ≡ t.downloads
unfolding upload_cleaned_up end_upload_transaction
upload_cleaned_up-downloads true id t = refl
upload_cleaned_up-downloads false id t = refl

upload_expired-downloads :
    (asserts aborted active : Bool) (id : ℕ) (t : Transfers)
    → (upload_timer_expired asserts aborted active id t).downloads ≡ t.downloads
unfolding upload_timer_expired end_upload_transaction
upload_expired-downloads asserts true active id t = refl
upload_expired-downloads asserts false false id t = refl
upload_expired-downloads true false true id t = refl
upload_expired-downloads false false true id t = refl

module _ (p : Protocol) (s : Splitter) (delimiter : ℕ) (receiver_code sender_code : Text)
    (type_first asserts : Bool) where
  Step-Served :
      (id : ℕ) {event : Event} {t after : Transfers}
      → Step p s delimiter receiver_code sender_code type_first asserts t event after
      → Timed t
      → download_completes id ≢ event
      → Served id t
      → Served id after
  Step-Served id {t = t} (begins_download opened j name size c free) v other served =
      begin_download-Served p opened id j name size c t free served
  Step-Served id {t = t} (begins_upload size opened path c) v other served =
      apart-Served id t.downloads _ (ap (lookup id) (begin_upload-downloads p size opened path c t))
        served
  Step-Served id {t = t} (shakes_hands failed line after e) v other served =
      Connects-Served id t after
        (handle_handshake-Connects s delimiter receiver_code sender_code type_first failed line t
          after e)
        served
  Step-Served id {t = t} (expires aborted active j r at runs) v other (q, there, socket) =
      elim (Bool-cases (j == id)) [
        | inr apart ↦
            apart-Served id t.downloads _ (expired_apart asserts aborted active id j t apart)
              (q, there, socket)
        | inl e ↦
            let same_receiver : q ≡ r =
              some_same
                (sym there ∙ (ap (λ k. lookup k t.downloads) (sym ((==_iff j id).0 e)) ∙ at)) in
            absurd
              (both socket (ap (λ x. x.timer_runs) same_receiver ∙ runs) (v.receivers id q there))
      ]
  Step-Served id {t = t} (expires_upload aborted active j d at runs) v other served =
      apart-Served id t.downloads _
        (ap (lookup id) (upload_expired-downloads asserts aborted active j t)) served
  Step-Served id {t = t} (completes_download j after done) v other served =
      elim (Bool-cases (j == id)) [
        | inl e ↦ absurd (other (ap download_completes (sym ((==_iff j id).0 e))))
        | inr apart ↦
            Completes-Served asserts id j t after apart
              (download_completed-Completes asserts j t after done) served
      ]
  Step-Served id {t = t} (completes_upload j) v other served =
      apart-Served id t.downloads _ (ap (lookup id) (upload_cleaned_up-downloads asserts j t))
        served

  -- A download that a peer has come for stays in the table, with a socket, until it completes: no
  -- timer, no other peer and no other transaction ends it. New downloads get ids that no download has,
  -- and at first the timer of a download does not run once a peer has come for it.
  pub Run-download_stays :
      (id : ℕ) {first last : Transfers} {events : List Event}
      → Timed first
      → Served id first
      → (Among (download_completes id) events → ⊥)
      → Run p s delimiter receiver_code sender_code type_first asserts first events last
      → Served id last
  Run-download_stays id v served never here = served
  Run-download_stays id v served never (next before step) =
      Step-Served id step
        (Run-Timed p s delimiter receiver_code sender_code type_first asserts v before)
        (λ e. never (inl e)) (Run-download_stays id v served (λ e. never (inr e)) before)
