-- ===== src/Streams/Compressed/Halting.antt =====
-- A receiver in compressed mode comes to an end.
use fspserver.Base.{
  ℕ, zero, suc, ◌+◌, ◌<◌, ◌≤◌, Text, Bool, false, not, ◌||◌, ltb, Option, none, some, take, drop,
  length, length-drop, ◌≡◌, refl, arith, Bool-cases, Option-cases, inl, inr,
}
use fspserver.FileTree.Paths.{is_empty}
use fspserver.Streams.Compressed.{
  Compressor, ChunkPhase, expecting, storing, halted, Unpacking, await_chunk, start_unpacking,
  chunk_stored, chunk_received, read_header, receive, receive_file,
}

-- The rounds that are left to a receiver, at most.
abbrev pub rounds : ChunkPhase → Text → ℕ
rounds (expecting n) incoming = length incoming + length incoming + 2
rounds (storing chunk) incoming = length incoming + length incoming + 1
rounds (halted b) incoming = 0

abbrev pub Halted : Unpacking → Type 0
Halted r = (b : Bool) × (r.phase ≡ halted b)

module _ (z : Compressor) (width capacity : ℕ) (some_width : 0 < width) where
  rounds-chunk_received :
      (failed : Bool) (block rest : Text) (r : Unpacking)
      → rounds (chunk_received z failed block r).phase rest ≤ length rest + length rest + 1
  unfolding chunk_received
  rounds-chunk_received failed block rest r =
      elim (Bool-cases (not failed || not (is_empty block))) [
        | inr e ↦ rw e (omega arith)
        | inl e ↦ rw e (elim (Option-cases (z.decompress block)) [
          | inl f ↦ rw f (omega arith)
          | inr (chunk, f) ↦ rw f (omega arith)
        ])
      ]

  rounds-chunk_stored :
      (chunk incoming : Text) (r : Unpacking)
      → rounds
          (chunk_stored capacity false
            (length chunk)
            chunk
            (read_header z width capacity incoming)
            r).phase
          (drop width incoming)
        ≤ length incoming + length incoming
  unfolding chunk_stored await_chunk
  rounds-chunk_stored chunk incoming r = elim (Bool-cases (ltb (length incoming) width)) [
    | inl e ↦ rw e (omega arith)
    | inr e ↦ rw e (ground (arith, e, length-drop width incoming, some_width))
  ]

  pub receive-Halted :
      (fuel : ℕ) (phase : ChunkPhase) (incoming : Text) (r : Unpacking)
      → r.phase ≡ phase
      → rounds phase incoming ≤ fuel
      → Halted (receive z width capacity fuel incoming r)
  unfolding receive
  receive-Halted zero (expecting n) incoming r at enough = absurd (omega (arith, enough))
  receive-Halted zero (storing chunk) incoming r at enough = absurd (omega (arith, enough))
  receive-Halted zero (halted b) incoming r at enough = (b, at)
  receive-Halted (suc fuel) (halted b) incoming r at enough = rw (at, receive) (b, at)
  receive-Halted (suc fuel) (expecting n) incoming r at enough =
      let block = take n incoming in
      let failed = ltb (length incoming) n in
      let next = chunk_received z failed block r in
      rw (at, receive)
        (receive-Halted fuel next.phase (drop n incoming) next refl (
          omega (
            arith,
            enough,
            rounds-chunk_received failed block (drop n incoming) r,
            length-drop n incoming,
          )))
  receive-Halted (suc fuel) (storing chunk) incoming r at enough =
      let header = read_header z width capacity incoming in
      let next = chunk_stored capacity false (length chunk) chunk header r in
      rw (at, receive)
        (receive-Halted fuel next.phase (drop width incoming) next refl
          (omega (arith, enough, rounds-chunk_stored chunk incoming r)))

  rounds-start_unpacking :
      (size : ℕ) (header : Option Text) (rest : Text)
      → rounds (start_unpacking capacity size header).phase rest ≤ length rest + length rest + 2
  unfolding start_unpacking await_chunk
  rounds-start_unpacking size none rest = omega arith
  rounds-start_unpacking size (some header) rest = omega arith

  -- Two rounds for each byte are enough.
  pub receive_file-Halted :
      (size : ℕ) (incoming : Text) → Halted (receive_file z width capacity size incoming)
  receive_file-Halted size incoming =
      let rest = drop width incoming in
      let start = start_unpacking capacity size (read_header z width capacity incoming) in
      receive-Halted (length incoming + length incoming + 2) start.phase rest start refl (
        omega (
          arith,
          rounds-start_unpacking size (read_header z width capacity incoming) rest,
          length-drop width incoming,
        ))
