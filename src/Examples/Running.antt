-- ===== src/Examples/Running.antt =====
-- The scheduler and the transfers of files at small runs.
use fspserver.Base.{
  ◌+◌, ◌≤◌, codes, same, Bool, true, false, List, [], ◌∷◌, ◌++◌, ◌≡◌, refl, inl, arith, map, length,
  count_if,
}
use fspserver.Protocol.{Message}
use fspserver.Handler.Tasks.{Task, add_file, remove_path, handle_message, resolve_querry}
use fspserver.Scheduler.{
  item_comp, Takes, takes_top, Scheduler, Run, idle, requests, no_tasks, post_all, post,
}
use fspserver.Scheduler.Order.{urgency, counted_tasks, Run-accounted, taken-urgency}
use fspserver.Streams.{
  Receiving, finished, start_receiving, received, stored, Delivering, more, eof, cleaned,
  start_delivering, loaded, sent_block,
}
use fspserver.Streams.Whole.{
  Receives, begins, reads, writes, finished-whole, Delivers, opens, loads, ends, sends,
  cleaned-whole,
}
use fspserver.Examples.Samples.{sample_protocol, message}

abbrev add_song : Message
add_song = message (codes "querry") (
    (codes "command_id", codes "1")
    ∷ (codes "querry_type", codes "add_file")
    ∷ (codes "file_name", codes "/song")
    ∷ [])

abbrev remove_song : Message
remove_song = message (codes "querry") (
    (codes "command_id", codes "2")
    ∷ (codes "querry_type", codes "remove_path")
    ∷ (codes "file_name", codes "/song")
    ∷ [])

-- A client adds a file and removes it, and neither task has run.
abbrev waiting_tasks : Scheduler
waiting_tasks =
    post_all (handle_message sample_protocol remove_song [])
      (post_all (handle_message sample_protocol add_song []) no_tasks)

abbrev posted_tasks : List Task
posted_tasks =
    map (λ x. x.1) (handle_message sample_protocol remove_song [])
    ++ (map (λ x. x.1) (handle_message sample_protocol add_song []) ++ [])

waiting-Run : Run sample_protocol waiting_tasks posted_tasks []
waiting-Run = requests remove_song [] (requests add_song [] idle)

abbrev is_removal : Task → Bool
is_removal (remove_path id path) = true
is_removal _ = false

Run-accounted_example :
    count_if is_removal posted_tasks
    ≡ count_if is_removal [] + counted_tasks is_removal waiting_tasks.queue
Run-accounted_example = Run-accounted is_removal waiting-Run

abbrev removal : Task
removal = remove_path (codes "2") (codes "/song")

abbrev addition : Task
addition = add_file (codes "1") (codes "/song")

-- A thread takes the removal.
abbrev without_removal : Scheduler
without_removal = record waiting_tasks { queue = (2, addition) ∷ [] }

removal-Takes : Takes waiting_tasks removal without_removal
unfolding post_all post handle_message resolve_querry same item_comp
removal-Takes = takes_top [] ((2, addition) ∷ []) 3 removal refl refl (refl, (refl, tt))

taken-urgency_example : urgency addition ≤ urgency removal
taken-urgency_example = taken-urgency 2 addition waiting-Run removal-Takes (inl refl)

-- Three bytes arrive in two blocks.
abbrev receiver : Receiving
receiver = received true [] (
    stored false 1 (codes "y") (
      received false (codes "y")
        (stored false 2 (codes "ke") (received false (codes "ke") (start_receiving 3)))))

receiver-Receives : Receives 3 receiver (((codes "ke") ++ codes "y") ++ [])
unfolding received stored
receiver-Receives =
    reads true []
      (writes (codes "y")
        (reads false (codes "y") (writes (codes "ke") (reads false (codes "ke") begins refl) refl)
          refl)
        refl)
      refl

receiver-finished : receiver.phase ≡ finished true
unfolding received stored
receiver-finished = refl

finished-whole_example : (receiver.on_disk ≡ codes "key") × (length (codes "key") ≡ 3)
finished-whole_example = finished-whole receiver-Receives receiver-finished (omega arith)

-- Three bytes are sent in two blocks.
abbrev deliverer : Delivering
deliverer = sent_block false (codes "y") (
    loaded eof (codes "y")
      (sent_block false (codes "ke") (loaded more (codes "ke") start_delivering)))

deliverer-Delivers : Delivers (codes "key") deliverer []
unfolding loaded sent_block
deliverer-Delivers =
    sends (codes "y") (ends (sends (codes "ke") (loads (codes "ke") opens refl) refl) refl) refl

deliverer-cleaned : deliverer.stage ≡ cleaned
unfolding loaded sent_block
deliverer-cleaned = refl

cleaned-whole_example : deliverer.sent ≡ codes "key"
cleaned-whole_example = cleaned-whole deliverer-Delivers deliverer-cleaned
