-- ===== src/Streams/Compressed.antt =====
-- The transfers of a file in compressed mode: CompressedModeFileReceiver
-- (compressed_mode_file_receiver.cpp) and CompressedModeFileDeliver (compressed_mode_file_deliver.cpp).
-- The compressor is not part of the repository; its two functions are parameters, and so are the
-- protocol's constants: the width of a header and the capacity of the receiver's buffer.
pub mod Halting
pub mod Counting
pub mod Whole
pub mod Sending
pub mod Delivered
use fspserver.Base.{
  ℕ, zero, suc, ◌+◌, ◌%◌, Text, Bool, true, false, not, ◌||◌, ◌==◌, ltb, if◌then◌else◌, Option,
  none, some, List, [], ◌∷◌, ◌++◌, take, drop, length, u64_mod,
}
use fspserver.FileTree.Paths.{is_empty}
use fspserver.Streams.{FileRead, more, eof, broken, Stage, loading, sending, cleaned, Delivering}
use fspserver.Streams.Framing.{chunk_header, atoll}

-- compress, and decompress with `none` where it throws.
pub record Compressor : Type 0 where
  pub compress : Text → Text
  pub decompress : Text → Option Text

-- What a receiver waits for: a chunk of some length, or the write of a chunk that it has decompressed.
-- It is halted once it has called its handler.
pub data ChunkPhase : Type 0 where
  expecting : ℕ → ChunkPhase
  storing : Text → ChunkPhase
  halted : Bool → ChunkPhase

-- The receiver, with what stands in its file.
pub record Unpacking : Type 0 where
  pub file_size : ℕ
  pub bytes_written : ℕ
  pub on_disk : Text
  pub phase : ChunkPhase

-- CHECK_FILE_DOWNLOAD_SUCCESS
abbrev pub check_success : Unpacking → Unpacking
check_success r = record r { phase = halted (r.bytes_written == r.file_size) }

module _ (capacity : ℕ) where
  -- The blocking read of a header, and the start of the read of its chunk. The read's buffer is an
  -- array, so it is never longer than the array.
  unfoldable pub await_chunk : Option Text → Unpacking → Unpacking
  await_chunk none r = check_success r
  await_chunk (some header) r =
      let n = atoll header in
      record r { phase = expecting (if ltb capacity n then capacity else n) }

  -- CompressedModeFileReceiver::Start, with the header, unless its read fails.
  unfoldable pub start_unpacking : ℕ → Option Text → Unpacking
  unfolding await_chunk
  start_unpacking size header =
      await_chunk header
        (record { file_size = size; bytes_written = 0; on_disk = []; phase = expecting 0 })

  -- CompressedModeFileReceiver::handle_write, for a write of the chunk that transferred n bytes, with
  -- the next header.
  unfoldable pub chunk_stored : Bool → ℕ → Text → Option Text → Unpacking → Unpacking
  unfolding await_chunk
  chunk_stored true n chunk header r = check_success r
  chunk_stored false n chunk header r = await_chunk header (record r {
    bytes_written = (r.bytes_written + n) % u64_mod;
    on_disk = r.on_disk ++ take n chunk;
  })

-- CompressedModeFileReceiver::handle_read
unfoldable pub chunk_received : Compressor → Bool → Text → Unpacking → Unpacking
chunk_received z failed block r =
    if not failed || not (is_empty block)
    then elim (z.decompress block) [
      | some chunk ↦ record r { phase = storing chunk }
      | none ↦ check_success r
    ]
    else check_success r

module _ (z : Compressor) (width : ℕ) where
  -- A chunk goes out behind its header, unless the write of the header fails.
  unfoldable pub pack : Bool → Text → Delivering → Delivering
  pack true block d = record d { stage = cleaned }
  pack false block d =
      let chunk = z.compress block in
      record d { sent = d.sent ++ chunk_header width (length chunk); stage = sending chunk }

  -- CompressedModeFileDeliver::handle_read
  unfoldable pub packed : Bool → FileRead → Text → Delivering → Delivering
  unfolding pack
  packed header_failed more block d = pack header_failed block d
  packed header_failed eof block d =
      if not (is_empty block)
      then pack header_failed block (record d { done_flag = true })
      else record d { stage = cleaned }
  packed header_failed broken block d = record d { stage = cleaned }

-- CompressedModeFileDeliver::handle_write
unfoldable pub sent_chunk : Bool → Text → Delivering → Delivering
sent_chunk true chunk d = record d { stage = cleaned }
sent_chunk false chunk d = record d {
  sent = d.sent ++ chunk;
  stage = if d.done_flag then cleaned else loading;
}

module _ (z : Compressor) (width capacity : ℕ) where
  abbrev pub read_header : Text → Option Text
  read_header incoming = if ltb (length incoming) width then none else some (take width incoming)

  -- A receiver given a stream of bytes that ends, on fuel. No write to the disk fails.
  unfoldable pub receive : ℕ → Text → Unpacking → Unpacking
  receive zero incoming r = r
  receive (suc fuel) incoming r = elim r.phase [
    | expecting n ↦
        receive fuel (drop n incoming)
          (chunk_received z (ltb (length incoming) n) (take n incoming) r)
    | storing chunk ↦
        receive fuel (drop width incoming)
          (chunk_stored capacity false (length chunk) chunk (read_header incoming) r)
    | halted b ↦ r
  ]

  -- Two rounds for each byte are enough.
  abbrev pub receive_file : ℕ → Text → Unpacking
  receive_file size incoming =
      receive (length incoming + length incoming + 2) (drop width incoming)
        (start_unpacking capacity size (read_header incoming))
