-- ===== src/Transfers/Timers.antt =====
-- The timers of the transactions of download_manager.cpp.
use fspserver.Base.{
  ℕ, Text, Bool, true, false, ◌&&◌, ◌==◌, ==_iff, List, Option, none, some, ◌≡◌, ◌≢◌, inl, inr,
  refl, sym, ap, ◌∙◌, subst, arith, lookup, Holds, Holds-erase, Holds-emplace, Holds-modify,
  lookup-modify_apart, lookup-emplace_apart, Bool-cases,
}
use fspserver.Protocol.{Protocol}
use fspserver.FileTree.Paths.{Splitter}
use fspserver.Transfers.{
  stop_upload_timer, upload_timer_expired, close_receiver, null, Receiver, Deliverer, Transfers,
  start_timer, stop_timer, connect_receiver, connect_deliverer, begin_download_transaction,
  begin_upload_transaction, open_upload, mode_for, download_timer_expired, upload_cleaned_up,
  end_download_transaction, end_upload_transaction,
}
use fspserver.Transfers.Beginning.{lookup_begun, upload_mode-known}
use fspserver.Transfers.Handshakes.{Connects, handle_handshake-Connects}
use fspserver.Transfers.Closing.{closed_if, erased_if, Completes, download_completed-Completes}
use fspserver.Transfers.Lifetimes.{
  Event, Step, begins_download, begins_upload, shakes_hands, expires, expires_upload,
  completes_download, completes_upload, Run, here, next,
}

-- A receiver with a peer has no timer that runs.
abbrev pub Undisturbed : Receiver → Type 0
Undisturbed r = (r.has_socket && r.timer_runs) ≡ false

-- No timer of a deliverer runs, and it is not null.
abbrev pub Deliverable : Deliverer → Type 0
Deliverable d = (d.timer_runs ≡ false) × (d.mode ≢ null)

pub record Timed (t : Transfers) : Type 0 where
  pub receivers : Holds Undisturbed t.downloads
  pub deliverers : Holds Deliverable t.uploads

connect-Undisturbed : (r : Receiver) → Undisturbed r → Undisturbed (connect_receiver r)
connect-Undisturbed r u = refl

stop_timer-Undisturbed : (r : Receiver) → Undisturbed r → Undisturbed (stop_timer r)
stop_timer-Undisturbed r u = ground arith

connect-Deliverable : (d : Deliverer) → Deliverable d → Deliverable (connect_deliverer d)
connect-Deliverable d (off, known) = (refl, known)

Connects-Timed : (t after : Transfers) → Connects t after → Timed t → Timed after
Connects-Timed t after (inl e) v = subst Timed (sym e) v
Connects-Timed t after (inr (inl (id, e))) v = subst Timed (sym e) (record {
  receivers = v.receivers;
  deliverers =
      Holds-modify Deliverable id connect_deliverer t.uploads connect-Deliverable v.deliverers;
})
Connects-Timed t after (inr (inr (id, e))) v = subst Timed (sym e) (record {
  receivers =
      Holds-modify Undisturbed id connect_receiver t.downloads connect-Undisturbed v.receivers;
  deliverers = v.deliverers;
})

module _ (p : Protocol) where
  begin_download-Timed :
      (opened : Bool) (id : ℕ) (name : Text) (size c : ℕ) (t : Transfers)
      → lookup id t.downloads ≡ none
      → Timed t
      → Timed (begin_download_transaction p opened id name size c t).0
  unfolding begin_download_transaction
  begin_download-Timed false id name size c t free v = v
  begin_download-Timed true id name size c t free v = record {
    receivers = begun;
    deliverers = v.deliverers;
  }
    where
      begun : Holds Undisturbed (begin_download_transaction p true id name size c t).0.downloads
      begun j r e = elim (Bool-cases (id == j)) [
        | inl at ↦
            let same_id : id ≡ j = (==_iff id j).0 at in
            new_socket (
              sym (lookup_begun p id name size c t free)
              ∙ (ap (λ k. lookup k (begin_download_transaction p true id name size c t).0.downloads)
                    same_id
                  ∙ e))
        | inr apart ↦ v.receivers j r (
            sym (
              lookup-modify_apart id j start_timer _ apart
              ∙ lookup-emplace_apart id j _ t.downloads apart)
            ∙ e)
      ]
        where
          new_socket :
              some (record {
                file_name = name;
                file_size = size;
                mode = mode_for p c;
                file_open = true;
                has_socket = false;
                timer_runs = true;
              })
                ≡ some r
              → Undisturbed r
          new_socket f = subst (λ o. elim o [ none ↦ Unit | some x ↦ Undisturbed x ]) f refl

  begin_upload-Timed :
      (size : Option ℕ) (opened : Bool) (path : Text) (c : ℕ) (t : Transfers)
      → Timed t
      → Timed (begin_upload_transaction p size opened path c t).0
  unfolding begin_upload_transaction open_upload
  begin_upload-Timed none opened path c t v = v
  begin_upload-Timed (some n) opened path c t v = elim (Bool-cases (n == 0)) [
    | inl z ↦ rw (z, begin_upload_transaction) v
    | inr z ↦ elim (Bool-cases opened) [
      | inr o ↦ rw (z, begin_upload_transaction) (rw o v)
      | inl o ↦
          rw (z, begin_upload_transaction)
            (rw o (record {
              receivers = v.receivers;
              deliverers =
                  Holds-emplace Deliverable t.upload_id_counter _ t.uploads
                    (refl, upload_mode-known p n c) v.deliverers;
            }))
    ]
  ]

expired-Timed :
    (asserts aborted active : Bool) (id : ℕ) (t : Transfers)
    → Timed t
    → Timed (download_timer_expired asserts aborted active id t).0
unfolding download_timer_expired end_download_transaction
expired-Timed asserts true active id t v = v
expired-Timed asserts false false id t v = v
expired-Timed true false true id t v = record {
  receivers = Holds-erase Undisturbed id t.downloads v.receivers;
  deliverers = v.deliverers;
}
expired-Timed false false true id t v = record {
  receivers = Holds-modify Undisturbed id stop_timer t.downloads stop_timer-Undisturbed v.receivers;
  deliverers = v.deliverers;
}

stop_timer-Deliverable : (d : Deliverer) → Deliverable d → Deliverable (stop_upload_timer d)
stop_timer-Deliverable d (off, known) = (refl, known)

upload_expired-Timed :
    (asserts aborted active : Bool) (id : ℕ) (t : Transfers)
    → Timed t
    → Timed (upload_timer_expired asserts aborted active id t)
unfolding upload_timer_expired end_upload_transaction
upload_expired-Timed asserts true active id t v = v
upload_expired-Timed asserts false false id t v = v
upload_expired-Timed true false true id t v = record {
  receivers = v.receivers;
  deliverers = Holds-erase Deliverable id t.uploads v.deliverers;
}
upload_expired-Timed false false true id t v = record {
  receivers = v.receivers;
  deliverers =
      Holds-modify Deliverable id stop_upload_timer t.uploads stop_timer-Deliverable v.deliverers;
}

closed-Undisturbed :
    (closed : Bool) (id : ℕ) (m : List (ℕ × Receiver))
    → Holds Undisturbed m
    → Holds Undisturbed (closed_if closed id m)
closed-Undisturbed true id m u = Holds-modify Undisturbed id close_receiver m (λ r v. v) u
closed-Undisturbed false id m u = u

erased-Undisturbed :
    (asserts : Bool) (id : ℕ) (m : List (ℕ × Receiver))
    → Holds Undisturbed m
    → Holds Undisturbed (erased_if asserts id m)
erased-Undisturbed true id m u = Holds-erase Undisturbed id m u
erased-Undisturbed false id m u = u

Completes-Timed :
    (asserts : Bool) (id : ℕ) (t after : Transfers)
    → Completes asserts id t after
    → Timed t
    → Timed after
Completes-Timed asserts id t after (closed, e) v = subst Timed (sym e) (record {
  receivers =
      erased-Undisturbed asserts id _ (closed-Undisturbed closed id t.downloads v.receivers);
  deliverers = v.deliverers;
})

upload_cleaned_up-Timed :
    (asserts : Bool) (id : ℕ) (t : Transfers) → Timed t → Timed (upload_cleaned_up asserts id t)
unfolding upload_cleaned_up end_upload_transaction
upload_cleaned_up-Timed false id t v = v
upload_cleaned_up-Timed true id t v = record {
  receivers = v.receivers;
  deliverers = Holds-erase Deliverable id t.uploads v.deliverers;
}

module _ (p : Protocol) (s : Splitter) (delimiter : ℕ) (receiver_code sender_code : Text)
    (type_first asserts : Bool) where
  Step-Timed :
      {event : Event} {t after : Transfers}
      → Step p s delimiter receiver_code sender_code type_first asserts t event after
      → Timed t
      → Timed after
  Step-Timed {t = t} (begins_download opened id name size c free) v =
      begin_download-Timed p opened id name size c t free v
  Step-Timed {t = t} (begins_upload size opened path c) v =
      begin_upload-Timed p size opened path c t v
  Step-Timed {t = t} (shakes_hands failed line after e) v =
      Connects-Timed t after
        (handle_handshake-Connects s delimiter receiver_code sender_code type_first failed line t
          after e)
        v
  Step-Timed {t = t} (expires aborted active id r at runs) v =
      expired-Timed asserts aborted active id t v
  Step-Timed {t = t} (expires_upload aborted active id d at runs) v =
      upload_expired-Timed asserts aborted active id t v
  Step-Timed {t = t} (completes_download id after e) v =
      Completes-Timed asserts id t after (download_completed-Completes asserts id t after e) v
  Step-Timed {t = t} (completes_upload id) v = upload_cleaned_up-Timed asserts id t v

  -- In every run from tables in which this is so, the timer of a download does not run once a peer has
  -- come for it, no timer of an upload runs, and no upload is without a deliverer, so that a peer can
  -- come for each. New downloads get ids that no download has.
  pub Run-Timed :
      {first last : Transfers} {events : List Event}
      → Timed first
      → Run p s delimiter receiver_code sender_code type_first asserts first events last
      → Timed last
  Run-Timed v here = v
  Run-Timed v (next before step) = Step-Timed step (Run-Timed v before)
