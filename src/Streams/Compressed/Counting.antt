-- ===== src/Streams/Compressed/Counting.antt =====
-- What a receiver in compressed mode reports.
use fspserver.Base.{
  ap₂, take_all, ℕ, zero, suc, ◌+◌, ◌%◌, ◌<◌, Text, Bool, false, not, ◌||◌, ◌==◌, ltb, Option, none,
  some, [], ◌++◌, take, drop, length, length-append, u64_mod, ◌≡◌, refl, ap, ◌∙◌, subst, arith,
  Bool-cases, Option-cases, inl, inr,
}
use fspserver.FileTree.Paths.{is_empty}
use fspserver.Streams.Compressed.{
  Compressor, ChunkPhase, expecting, storing, halted, Unpacking, await_chunk, start_unpacking,
  chunk_stored, chunk_received, read_header, receive, receive_file,
}
use fspserver.Streams.Compressed.Halting.{receive_file-Halted}

-- A receiver's count is that of its file, and it reports by it.
abbrev pub Decided : ChunkPhase → Unpacking → Type 0
Decided (halted b) r = b ≡ (r.bytes_written == r.file_size)
Decided (expecting n) r = Unit
Decided (storing chunk) r = Unit

pub record Counted (size : ℕ) (r : Unpacking) : Type 0 where
  pub sized : r.file_size ≡ size
  pub counted : r.bytes_written ≡ length r.on_disk % u64_mod
  pub decided : Decided r.phase r

module _ (z : Compressor) (width capacity : ℕ) where
  await_chunk-Counted :
      (size : ℕ) (header : Option Text) (r : Unpacking)
      → r.file_size ≡ size
      → r.bytes_written ≡ length r.on_disk % u64_mod
      → Counted size (await_chunk capacity header r)
  unfolding await_chunk
  await_chunk-Counted size none r e f = record { sized = e; counted = f; decided = refl }
  await_chunk-Counted size (some header) r e f = record { sized = e; counted = f; decided = tt }

  chunk_received-Counted :
      (size : ℕ) (failed : Bool) (block : Text) (r : Unpacking)
      → r.file_size ≡ size
      → r.bytes_written ≡ length r.on_disk % u64_mod
      → Counted size (chunk_received z failed block r)
  unfolding chunk_received
  chunk_received-Counted size failed block r e f =
      elim (Bool-cases (not failed || not (is_empty block))) [
        | inr g ↦ rw g (record { sized = e; counted = f; decided = refl })
        | inl g ↦ rw g (elim (Option-cases (z.decompress block)) [
          | inl k ↦ rw k (record { sized = e; counted = f; decided = refl })
          | inr (chunk, k) ↦ rw k (record { sized = e; counted = f; decided = tt })
        ])
      ]

  pub receive-Counted :
      (size fuel : ℕ) (incoming : Text) (r : Unpacking) (phase : ChunkPhase)
      → r.phase ≡ phase
      → Counted size r
      → Counted size (receive z width capacity fuel incoming r)
  unfolding receive chunk_stored
  receive-Counted size zero incoming r phase at c = c
  receive-Counted size (suc fuel) incoming r (halted b) at c = rw (at, receive) c
  receive-Counted size (suc fuel) incoming r (expecting n) at c =
      let block = take n incoming in
      let next = chunk_received z (ltb (length incoming) n) block r in
      rw (at, receive)
        (receive-Counted size fuel (drop n incoming) next next.phase refl
          (chunk_received-Counted size (ltb (length incoming) n) block r c.sized c.counted))
  receive-Counted size (suc fuel) incoming r (storing chunk) at c =
      let header = read_header z width capacity incoming in
      let next = chunk_stored capacity false (length chunk) chunk header r in
      rw (at, receive)
        (receive-Counted size fuel (drop width incoming) next next.phase refl (
          await_chunk-Counted size header
            (record r {
              bytes_written = (r.bytes_written + length chunk) % u64_mod;
              on_disk = r.on_disk ++ take (length chunk) chunk;
            })
            c.sized
            (rw (take_all chunk) (omega (arith, c.counted, length-append r.on_disk chunk)))))

  pub receive_file-Counted :
      (size : ℕ) (incoming : Text) → Counted size (receive_file z width capacity size incoming)
  unfolding start_unpacking
  receive_file-Counted size incoming =
      let header = read_header z width capacity incoming in
      let start = start_unpacking capacity size header in
      receive-Counted size (length incoming + length incoming + 2) (drop width incoming) start
        start.phase refl
        (await_chunk-Counted size header
          (record { file_size = size; bytes_written = 0; on_disk = []; phase = expecting 0 }) refl
          (omega arith))

  halted-Decided :
      (b : Bool) (r : Unpacking) → r.phase ≡ halted b → Decided r.phase r → Decided (halted b) r
  halted-Decided b r at d = subst (λ f. Decided f r) at d

  -- A receiver in compressed mode that is given any bytes comes to an end, and reports success exactly
  -- when it has written as many bytes as were announced, where both are fewer than 2^64.
  pub receive_file-sized :
      (size : ℕ) (incoming : Text)
      → 0 < width
      → size < u64_mod
      → length (receive_file z width capacity size incoming).on_disk < u64_mod
      → let r = receive_file z width capacity size incoming in
        r.phase ≡ halted (length r.on_disk == size)
  receive_file-sized size incoming some_width fits small =
      let r = receive_file z width capacity size incoming in
      let (b, at) = receive_file-Halted z width capacity some_width size incoming in
      let c = receive_file-Counted size incoming in
      let decided = halted-Decided b r at c.decided in
      let count : r.bytes_written ≡ length r.on_disk = omega (arith, c.counted, small) in
      at ∙ ap halted (decided ∙ ap₂ (λ m n. m == n) count c.sized)
