-- ===== src/Streams/Compressed/Delivered.antt =====
-- The two sides of a transfer in compressed mode: what a deliverer sends, a receiver writes.
use fspserver.Base.{
  ℕ, suc, ◌+◌, ◌<◌, ◌≤◌, Text, true, ◌==◌, ==_iff, some, List, [], ◌∷◌, ◌++◌, drop, length,
  length-append, u64_mod, ◌≡◌, refl, ap, ◌∙◌, subst, arith,
}
use fspserver.Streams.{cleaned, Delivering}
use fspserver.Streams.Framing.{chunk_header, i64_mod, length-chunk_header}
use fspserver.Streams.Compressed.{
  Compressor, expecting, halted, Unpacking, start_unpacking, await_chunk, read_header, receive,
  receive_file,
}
use fspserver.Streams.Compressed.Counting.{receive_file-sized}
use fspserver.Streams.Compressed.Whole.{
  frames, joined, Fits, unpacks, frame_step, no_header, receive-halted,
}
use fspserver.Streams.Compressed.Sending.{Packs, Carries, Packs-Carries}

module _ (z : Compressor) (width capacity : ℕ)
    (inverse : (b : Text) → z.decompress (z.compress b) ≡ some b) (some_width : 0 < width)
    (capacity_small : capacity < i64_mod) where
  length-frames :
      (bs : List Text) → Fits z width capacity bs → length bs ≤ length (frames z width bs)
  length-frames [] fits = omega arith
  length-frames (b ∷ bs) ((short, held), fits) =
      let header = chunk_header width (length (z.compress b)) in
      omega (
        arith,
        length-frames bs fits,
        length-chunk_header width (length (z.compress b)) short some_width,
        length-append header (z.compress b ++ frames z width bs),
        length-append (z.compress b) (frames z width bs),
        some_width,
      )

  abbrev started : ℕ → Unpacking
  started size = record { file_size = size; bytes_written = 0; on_disk = []; phase = expecting 0 }

  receive_file-frames :
      (size : ℕ) (bs : List Text)
      → Fits z width capacity bs
      → (receive_file z width capacity size (frames z width bs)).on_disk ≡ joined bs
  unfolding start_unpacking await_chunk
  receive_file-frames size [] fits =
      rw
        (
          no_header z width capacity inverse some_width capacity_small,
          receive-halted z width capacity 2 (drop width []) (0 == size) (started size),
        )
        refl
  receive_file-frames size (b ∷ bs) fits =
      let incoming = frames z width (b ∷ bs) in
      let fuel = length incoming + length incoming + 1 in
      let enough = length-frames (b ∷ bs) fits in
      let all : suc fuel ≡ length incoming + length incoming + 2 = omega arith in
      subst
        (λ n.
          (receive z width capacity n (drop width incoming)
            (await_chunk capacity (read_header z width capacity incoming) (started size))).on_disk
          ≡ joined (b ∷ bs))
        all
        (rw
          (frame_step z width capacity inverse some_width capacity_small fuel b bs (started size)
            fits)
          (unpacks z width capacity inverse some_width capacity_small fuel bs b (started size)
            fits.1 (omega (arith, enough))))

  -- What a deliverer has sent, once it has ended without a failure, is received whole, and the receiver
  -- reports success: where the compressor is inverted by its decompressor, the receiver was told the
  -- file's size, which is below 2^64, and each compressed block is as short as its header can say and
  -- as the receiver's buffer is.
  pub receive_file-Packs :
      {whole left : Text} {bs : List Text} {d : Delivering}
      → Packs z width whole d bs left
      → d.stage ≡ cleaned
      → Fits z width capacity bs
      → length whole < u64_mod
      → let r = receive_file z width capacity (length whole) d.sent in
        (r.on_disk ≡ whole) × (r.phase ≡ halted true)
  receive_file-Packs {whole} {left} {bs} {d} run at fits small =
      let (sent, all) =
        subst (λ s. Carries z width s d bs left whole) at (Packs-Carries z width run) in
      let r = receive_file z width capacity (length whole) d.sent in
      let written : r.on_disk ≡ whole =
        rw sent (receive_file-frames (length whole) bs fits ∙ all) in
      let exact =
        receive_file-sized z width capacity (length whole) d.sent some_width small
          (rw written small) in
      (written, exact ∙ ap halted ((==_iff _ _).1 (ap length written)))
