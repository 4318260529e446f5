-- ===== src/Transfers/Waiting.antt =====
-- Uploads of download_manager.cpp that wait for a peer.
use fspserver.Base.{
  arith, ℕ, Text, Bool, true, false, ◌==◌, ==_iff, List, Option, none, some, Among, ◌≡◌, ◌≢◌, inl,
  inr, refl, sym, ap, ◌∙◌, subst, lookup, emplace, modify, lookup-modify_apart, lookup-modify_at,
  lookup-emplace, lookup-emplace_apart, lookup-erase_apart, Bool-cases,
}
use fspserver.Protocol.{Protocol}
use fspserver.FileTree.Paths.{Splitter}
use fspserver.Transfers.{
  stop_upload_timer, upload_timer_expired, Deliverer, Transfers, connect_deliverer,
  begin_download_transaction, begin_upload_transaction, open_upload, download_timer_expired,
  upload_cleaned_up, end_download_transaction, end_upload_transaction,
}
use fspserver.Transfers.Timers.{Timed, Run-Timed}
use fspserver.Transfers.Closing.{Completes, download_completed-Completes}
use fspserver.Transfers.Handshakes.{Connects, handle_handshake-Connects}
use fspserver.Transfers.Lifetimes.{
  Event, upload_completes, Step, begins_download, begins_upload, shakes_hands, expires,
  expires_upload, completes_download, completes_upload, Run, here, next,
}

-- The upload is still there.
abbrev pub Open : ℕ → Transfers → Type 0
Open id t = (d : Deliverer) × (lookup id t.uploads ≡ some d)

begin_upload-Open :
    (p : Protocol) (size : Option ℕ) (opened : Bool) (path : Text) (id c : ℕ) (t : Transfers)
    → Open id t
    → Open id (begin_upload_transaction p size opened path c t).0
unfolding begin_upload_transaction open_upload
begin_upload-Open p none opened path id c t there = there
begin_upload-Open p (some n) opened path id c t there = elim (Bool-cases (n == 0)) [
  | inl z ↦ rw (z, begin_upload_transaction) there
  | inr z ↦ elim (Bool-cases opened) [
    | inr o ↦ rw (z, begin_upload_transaction) (rw o there)
    | inl o ↦ rw (z, begin_upload_transaction) (rw o (emplaced _ there))
  ]
]
  where
    emplaced :
        (d : Deliverer)
        → Open id t
        → (e : Deliverer) × (lookup id (emplace t.upload_id_counter d t.uploads) ≡ some e)
    emplaced d (e, at) = elim (Bool-cases (t.upload_id_counter == id)) [
      | inr apart ↦ (e, lookup-emplace_apart t.upload_id_counter id d t.uploads apart ∙ at)
      | inl f ↦ (_, rw f at (lookup-emplace t.upload_id_counter id d t.uploads))
    ]

connect-Open :
    (id j : ℕ) (t : Transfers)
    → Open id t
    → Open id (record t { uploads = modify j connect_deliverer t.uploads })
connect-Open id j t (d, at) = elim (Bool-cases (j == id)) [
  | inl e ↦ (
    connect_deliverer d,
    ap (λ k. lookup id (modify k connect_deliverer t.uploads)) ((==_iff j id).0 e)
        ∙ lookup-modify_at id connect_deliverer d t.uploads at,
  )
  | inr apart ↦ (d, lookup-modify_apart j id connect_deliverer t.uploads apart ∙ at)
]

Connects-Open : (id : ℕ) (t after : Transfers) → Connects t after → Open id t → Open id after
Connects-Open id t after (inl e) there = subst (Open id) (sym e) there
Connects-Open id t after (inr (inl (j, e))) there =
    subst (Open id) (sym e) (connect-Open id j t there)
Connects-Open id t after (inr (inr (j, e))) there = subst (Open id) (sym e) there

expired-uploads :
    (asserts aborted active : Bool) (id : ℕ) (t : Transfers)
    → (download_timer_expired asserts aborted active id t).0.uploads ≡ t.uploads
unfolding download_timer_expired end_download_transaction
expired-uploads asserts true active id t = refl
expired-uploads asserts false false id t = refl
expired-uploads true false true id t = refl
expired-uploads false false true id t = refl

Completes-Open :
    (asserts : Bool) (id j : ℕ) (t after : Transfers)
    → Completes asserts j t after
    → Open id t
    → Open id after
Completes-Open asserts id j t after (closed, e) there = subst (Open id) (sym e) there

cleaned_apart :
    (asserts : Bool) (id j : ℕ) (t : Transfers)
    → (j == id) ≡ false
    → lookup id (upload_cleaned_up asserts j t).uploads ≡ lookup id t.uploads
unfolding upload_cleaned_up end_upload_transaction
cleaned_apart false id j t apart = refl
cleaned_apart true id j t apart = lookup-erase_apart j id t.uploads apart

-- The timer of another upload.
upload_expired_apart :
    (asserts aborted active : Bool) (id j : ℕ) (t : Transfers)
    → (j == id) ≡ false
    → lookup id (upload_timer_expired asserts aborted active j t).uploads ≡ lookup id t.uploads
unfolding upload_timer_expired end_upload_transaction
upload_expired_apart asserts true active id j t apart = refl
upload_expired_apart asserts false false id j t apart = refl
upload_expired_apart true false true id j t apart = lookup-erase_apart j id t.uploads apart
upload_expired_apart false false true id j t apart =
    lookup-modify_apart j id stop_upload_timer t.uploads apart

runs_not : {b : Bool} → b ≡ true → b ≡ false → ⊥
runs_not e f = ground (arith, e, f)

module _ (p : Protocol) (s : Splitter) (delimiter : ℕ) (receiver_code sender_code : Text)
    (type_first asserts : Bool) where
  Step-Open :
      (id : ℕ) {event : Event} {t after : Transfers}
      → Step p s delimiter receiver_code sender_code type_first asserts t event after
      → Timed t
      → upload_completes id ≢ event
      → Open id t
      → Open id after
  unfolding begin_download_transaction
  Step-Open id (begins_download false j name size c free) v other open_here = open_here
  Step-Open id (begins_download true j name size c free) v other open_here = open_here
  Step-Open id {t = t} (begins_upload size opened path c) v other open_here =
      begin_upload-Open p size opened path id c t open_here
  Step-Open id {t = t} (shakes_hands failed line after e) v other open_here =
      Connects-Open id t after
        (handle_handshake-Connects s delimiter receiver_code sender_code type_first failed line t
          after e)
        open_here
  Step-Open id {t = t} (expires aborted active j r at runs) v other (d, there) =
      (d, ap (lookup id) (expired-uploads asserts aborted active j t) ∙ there)
  Step-Open id {t = t} (expires_upload aborted active j d at runs) v other (c, there) =
      elim (Bool-cases (j == id)) [
        | inl e ↦ absurd (runs_not runs (v.deliverers j d at).0)
        | inr apart ↦ (c, upload_expired_apart asserts aborted active id j t apart ∙ there)
      ]
  Step-Open id {t = t} (completes_download j after done) v other open_here =
      Completes-Open asserts id j t after (download_completed-Completes asserts j t after done)
        open_here
  Step-Open id {t = t} (completes_upload j) v other (d, there) = elim (Bool-cases (j == id)) [
    | inl e ↦ absurd (other (ap upload_completes (sym ((==_iff j id).0 e))))
    | inr apart ↦ (d, cleaned_apart asserts id j t apart ∙ there)
  ]

  -- An upload stays in the table until it completes: no timer ends it, though nobody comes for it,
  -- since no timer of an upload runs. At first that is so, and every upload has a deliverer, and the
  -- timer of a download does not run once a peer has come for it.
  pub Run-upload_stays :
      (id : ℕ) {first last : Transfers} {events : List Event}
      → Timed first
      → Open id first
      → (Among (upload_completes id) events → ⊥)
      → Run p s delimiter receiver_code sender_code type_first asserts first events last
      → Open id last
  Run-upload_stays id v opened never here = opened
  Run-upload_stays id v opened never (next before step) =
      Step-Open id step
        (Run-Timed p s delimiter receiver_code sender_code type_first asserts v before)
        (λ e. never (inl e)) (Run-upload_stays id v opened (λ e. never (inr e)) before)
