-- ===== src/Streams.antt =====
-- The transfers of a file in stream mode: StreamModeFileReceiver (stream_mode_file_receiver.cpp) and
-- StreamModeFileDeliver (stream_file_deliver.cpp), as their handlers change them.
pub mod Whole
pub mod Framing
pub mod Compressed
use fspserver.Base.{
  ℕ, ◌+◌, ◌%◌, Text, Bool, true, false, not, ◌||◌, ◌==◌, if◌then◌else◌, List, [], ◌∷◌, ◌++◌, take,
  u64_mod,
}
use fspserver.FileTree.Paths.{is_empty}

-- What a receiver waits for: a read of the socket, or the write of a block to the disk. It is
-- finished once it has called its handler.
pub data Phase : Type 0 where
  reading : Phase
  writing : Text → Phase
  finished : Bool → Phase

-- AbstractFileReceiver, with what stands in its file.
pub record Receiving : Type 0 where
  pub file_size : ℕ
  pub bytes_written : ℕ
  pub on_disk : Text
  pub phase : Phase

abbrev pub start_receiving : ℕ → Receiving
start_receiving size = record { file_size = size; bytes_written = 0; on_disk = []; phase = reading }

-- StreamModeFileReceiver::handle_read, with whether the read failed and what it transferred.
unfoldable pub received : Bool → Text → Receiving → Receiving
received failed block r =
    if not failed || not (is_empty block)
    then record r { phase = writing block }
    else record r { phase = finished (r.bytes_written == r.file_size) }

-- StreamModeFileReceiver::handle_write, for a write of the block that transferred n bytes.
unfoldable pub stored : Bool → ℕ → Text → Receiving → Receiving
stored true n block r = record r { phase = finished false }
stored false n block r = record r {
  bytes_written = (r.bytes_written + n) % u64_mod;
  on_disk = r.on_disk ++ take n block;
  phase = reading;
}

-- How a read of the file ends.
pub data FileRead : Type 0 where
  more eof broken : FileRead

-- What a deliverer waits for; it ends by a call of its clean-up handler.
pub data Stage : Type 0 where
  loading : Stage
  sending : Text → Stage
  cleaned : Stage

-- AbstractFileDeliver, with what went out.
pub record Delivering : Type 0 where
  pub sent : Text
  pub done_flag : Bool
  pub stage : Stage

abbrev pub start_delivering : Delivering
start_delivering = record { sent = []; done_flag = false; stage = loading }

-- StreamModeFileDeliver::handle_read.
unfoldable pub loaded : FileRead → Text → Delivering → Delivering
loaded more block d = record d { stage = sending block }
loaded eof block d =
    if not (is_empty block)
    then record d { done_flag = true; stage = sending block }
    else record d { stage = cleaned }
loaded broken block d = record d { stage = cleaned }

-- StreamModeFileDeliver::handle_write, for a write of the block.
unfoldable pub sent_block : Bool → Text → Delivering → Delivering
sent_block true block d = record d { stage = cleaned }
sent_block false block d = record d {
  sent = d.sent ++ block;
  stage = if d.done_flag then cleaned else loading;
}
