-- ===== src/Examples/Packing.antt =====
-- A file in compressed mode, and the accept loop, at small runs.
use fspserver.Base.{
  ◌^◌, ◌≤◌, ◌<◌, Text, codes, true, false, ◌==◌, Option, none, some, [], ◌∷◌, ◌++◌, length, ◌≡◌,
  ◌⊎◌, refl, arith,
}
use fspserver.Listening.{
  Listener, construct, init, do_await_stop, do_accept, accepted, signalled, Calls, here,
  accepts_one, signals, Calls-accepts,
}
use fspserver.Examples.Samples.{nobody, newcomer}
use fspserver.Streams.{cleaned, start_delivering, more, eof, Delivering}
use fspserver.Streams.Framing.{atoll}
use fspserver.Streams.Compressed.{
  Compressor, start_unpacking, await_chunk, chunk_stored, chunk_received, halted, packed, pack,
  sent_chunk, receive, receive_file,
}
use fspserver.Transfers.Sessions.{digits}
use fspserver.Streams.Compressed.Counting.{receive_file-sized}
use fspserver.Streams.Compressed.Whole.{Fits}
use fspserver.Streams.Compressed.Sending.{Packs, opens, loads, ends, sends}
use fspserver.Streams.Compressed.Delivered.{receive_file-Packs}

-- A compressor that marks what it has compressed.
abbrev marker : Compressor
marker = record { compress = λ t. 7 ∷ t; decompress = unmark }
  where
    unmark : Text → Option Text
    unmark [] = none
    unmark (x ∷ xs) = some xs

-- Five bytes in two blocks, under headers of two digits.
abbrev packing : Delivering
packing = sent_chunk false (7 ∷ codes "lo") (
    packed marker 2 false eof (codes "lo") (
      sent_chunk false (7 ∷ codes "hel")
        (packed marker 2 false more (codes "hel") start_delivering)))

packing-Packs : Packs marker 2 (codes "hello") packing (codes "hel" ∷ codes "lo" ∷ []) []
unfolding packed pack sent_chunk
packing-Packs =
    sends (7 ∷ codes "lo")
      (ends 108 (codes "o") (sends (7 ∷ codes "hel") (loads (codes "hel") opens refl) refl) refl)
      refl

packing_cleaned : packing.stage ≡ cleaned
unfolding packed pack sent_chunk
packing_cleaned = refl

packing-Fits : Fits marker 2 100 (codes "hel" ∷ codes "lo" ∷ [])
packing-Fits = ((omega arith, omega arith), ((omega arith, omega arith), tt))

receive_file-Packs_example :
    ((receive_file marker 2 100 5 packing.sent).on_disk ≡ codes "hello")
    × ((receive_file marker 2 100 5 packing.sent).phase ≡ halted true)
receive_file-Packs_example =
    receive_file-Packs marker 2 100 (λ t. refl) (omega arith) (omega arith) packing-Packs
      packing_cleaned packing-Fits (omega arith)

-- A stream that breaks off inside its second chunk.
abbrev broken_off : Text
broken_off = codes "04" ++ (7 ∷ (codes "hel" ++ (codes "03" ++ (7 ∷ []))))

broken_length : length (receive_file marker 2 100 5 broken_off).on_disk ≡ 3
unfolding receive chunk_received chunk_stored await_chunk start_unpacking atoll digits
broken_length = refl

broken_small : length (receive_file marker 2 100 5 broken_off).on_disk < 2 ^ 64
broken_small = omega (arith, broken_length)

receive_file-sized_example :
    (receive_file marker 2 100 5 broken_off).phase
    ≡ halted (length (receive_file marker 2 100 5 broken_off).on_disk == 5)
receive_file-sized_example =
    receive_file-sized marker 2 100 5 broken_off (omega arith) (omega arith) broken_small

-- A peer connects, a signal comes, and the accept that was outstanding completes.
abbrev closed_after_one : Listener
closed_after_one = accepted none (signalled (accepted (some (4, newcomer)) (construct nobody)))

one_open : 0 < (construct nobody).accepts
unfolding construct init do_await_stop do_accept
one_open = omega arith

closed-Calls : Calls (construct nobody) closed_after_one
unfolding construct init do_await_stop do_accept accepted signalled
closed-Calls =
    accepts_one none (signals (accepts_one (some (4, newcomer)) here (omega arith)) (omega arith))
      (omega arith)

Calls-accepts_example :
    ((closed_after_one.is_open ≡ true) × (closed_after_one.accepts ≡ 1))
    ⊎ ((closed_after_one.is_open ≡ false) × (closed_after_one.accepts ≤ 1))
Calls-accepts_example = Calls-accepts nobody closed-Calls

abbrev closing : Listener
closing = signalled (construct nobody)
