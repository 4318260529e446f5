-- ===== src/Examples/Lifetimes.antt =====
-- Transactions of both kinds over a run of events.
use fspserver.Base.{
  codes, true, false, List, [], ◌∷◌, some, Holds, Among, inl, inr, refl, arith, lookup, same,
  modify, emplace,
}
use fspserver.FileTree.Paths.Tokens.{splitter, tokens}
use fspserver.Transfers.{
  stream, compressed, Receiver, Deliverer, Transfers, begin_download_transaction,
  begin_upload_transaction, download_timer_expired, try_start_download_transaction,
}
use fspserver.Transfers.Sessions.{handle_handshake}
use fspserver.Transfers.Lifetimes.{
  Event, download_begins, upload_begins, peer_comes, timer_expires, download_completes,
  upload_completes, begins_download, begins_upload, shakes_hands, expires, Run, here, next,
}
use fspserver.Transfers.Timers.{Undisturbed, Deliverable, Timed, Run-Timed}
use fspserver.Transfers.Staying.{Served, Run-download_stays}
use fspserver.Transfers.Waiting.{Open, Run-upload_stays}
use fspserver.Examples.Samples.{sample_protocol}

abbrev arriving : Receiver
arriving = record {
  file_name = codes "ann/song";
  file_size = 10;
  mode = stream;
  file_open = true;
  has_socket = true;
  timer_runs = false;
}

abbrev leaving : Deliverer
leaving = record {
  file_name = codes "ann/film";
  mode = compressed;
  has_socket = false;
  timer_runs = false;
}

-- A song comes in, and a film waits for its peer.
abbrev busy : Transfers
busy = record {
  port = 9000;
  downloads = (3, arriving) ∷ [];
  uploads = (4, leaving) ∷ [];
  upload_id_counter = 5;
}

only_arriving : Holds Undisturbed ((3, arriving) ∷ [])
unfolding lookup
only_arriving k r e = ground (arith, e)

only_leaving : Holds Deliverable ((4, leaving) ∷ [])
unfolding lookup
only_leaving k d e = ground (arith, e)

busy-Timed : Timed busy
busy-Timed = record { receivers = only_arriving; deliverers = only_leaving }

-- A second download begins, and another upload.
abbrev with_notes : Transfers
with_notes = (begin_download_transaction sample_protocol true 7 (codes "ann/notes") 20 0 busy).0

abbrev with_upload : Transfers
with_upload =
    (begin_upload_transaction sample_protocol (some 200) true (codes "ann/map") 0 with_notes).0

-- Nobody comes for the second download, and its timer ends it.
abbrev expired : Transfers
expired = (download_timer_expired true false true 7 with_upload).0

abbrev happened : List Event
happened = timer_expires 7 ∷ peer_comes ∷ upload_begins ∷ download_begins ∷ []

abbrev notes : Receiver
notes = record {
  file_name = codes "ann/notes";
  file_size = 20;
  mode = stream;
  file_open = true;
  has_socket = false;
  timer_runs = true;
}

busy_run :
    Run sample_protocol splitter 124
      (codes "receiver")
      (codes "sender")
      true
      true
      busy
      happened
      expired
unfolding lookup handle_handshake begin_download_transaction begin_upload_transaction tokens same
    try_start_download_transaction modify emplace
busy_run =
    next
      (next
        (next (next here (begins_download true 7 (codes "ann/notes") 20 0 refl))
          (begins_upload (some 200) true (codes "ann/map") 0))
        (shakes_hands false (some (codes "sender|9")) with_upload refl))
      (expires false true 7 notes refl refl)

Run-Timed_example : Timed expired
Run-Timed_example =
    Run-Timed sample_protocol splitter 124 (codes "receiver") (codes "sender") true true busy-Timed
      busy_run

never_arrived : Among (download_completes 3) happened → ⊥
never_arrived (inl e) = cc
never_arrived (inr (inl e)) = cc
never_arrived (inr (inr (inl e))) = cc
never_arrived (inr (inr (inr (inl e)))) = cc
never_arrived (inr (inr (inr (inr e)))) = elim e [ ]

never_left : Among (upload_completes 4) happened → ⊥
never_left (inl e) = cc
never_left (inr (inl e)) = cc
never_left (inr (inr (inl e))) = cc
never_left (inr (inr (inr (inl e)))) = cc
never_left (inr (inr (inr (inr e)))) = elim e [ ]

busy-Served : Served 3 busy
unfolding lookup
busy-Served = (arriving, refl, refl)

busy-Open : Open 4 busy
unfolding lookup
busy-Open = (leaving, refl)

Run-download_stays_example : Served 3 expired
Run-download_stays_example =
    Run-download_stays sample_protocol splitter 124 (codes "receiver") (codes "sender") true true 3
      busy-Timed busy-Served never_arrived busy_run

Run-upload_stays_example : Open 4 expired
Run-upload_stays_example =
    Run-upload_stays sample_protocol splitter 124 (codes "receiver") (codes "sender") true true 4
      busy-Timed busy-Open never_left busy_run
