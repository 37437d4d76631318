-- ===== src/Transfer/Receiver.antt =====
-- transfer_file.rs: `receive_file`. The streams arrive as a list: each is read whole or fails, and
-- the connection is lost behind the last.
pub mod Filling
pub mod Assembly
pub mod Whole
pub mod Guarded
pub mod Queue
use p2pfile_transfer.Common.{
  ℕ, ◌+◌, ◌*◌, ◌%◌, Bool, true, false, List, [], ◌∷◌, ◌++◌, Option, none, some, ltb, leb,
  if◌then◌else◌, length,
}
use p2pfile_transfer.Common.Counting.{contains}
use p2pfile_transfer.Errors.{Result, ok, err, panic, protocol, quic}
use p2pfile_transfer.Effects.{M, and_then, ◌>>=◌, ◌>>◌, done, fail, lift, modify, gets}
use p2pfile_transfer.Protocol.{Digest, ConfigMessage}
use p2pfile_transfer.Compression.{Zstd}
use p2pfile_transfer.Transfer.{
  u64_mod, max_chunk_stream_bytes, chunk_header_bytes, stream_index, stream_flags, stream_payload,
  is_compressed,
}
use p2pfile_transfer.Transfer.Disk.{ChunkWriter, open_partial, write_chunk}

-- How the calls of `finalize` on the file go: `sync_all`, `rename`, `File::open` and the reads.
pub record Closing : Type 0 where
  pub synced : Result (Unit {0})
  pub renamed : Result (Unit {0})
  pub reopened : Result (Unit {0})
  pub reread : Result (Unit {0})

abbrev pub well : Closing
well = record { synced = ok tt; renamed = ok tt; reopened = ok tt; reread = ok tt }

-- `finished` is the file under its final name, which `finalize` gives it.
pub record Receiver : Type 0 where
  pub writer : ChunkWriter
  pub seen : List ℕ
  pub progress : ℕ
  pub marked : List ℕ
  pub finished : Option (List ℕ)
  pub closing : Closing

-- Before `ChunkWriter::new`: `leftover` is what the `.partial` file holds.
unfoldable pub new_receiver : Closing → ConfigMessage → List ℕ → Receiver
new_receiver closing config leftover = record {
  writer = record { content = leftover; chunk_size = config.chunk_size };
  seen = [];
  progress = 0;
  marked = [];
  finished = none;
  closing = closing;
}

open_writer : ℕ → Receiver → Receiver
open_writer expected_file_size r = record r {
  writer = open_partial r.writer.content r.writer.chunk_size expected_file_size;
}

-- Write the chunk, add to the progress bar and call the callback.
store : ℕ → List ℕ → Receiver → Receiver
store index bytes r = record r {
  writer = write_chunk index bytes r.writer;
  progress = (r.progress + length bytes) % u64_mod;
  marked = r.marked ++ (index ∷ []);
}

module _ (z : Zstd) (config : ConfigMessage) where
  -- The bytes of a chunk: decompressed if the flag is set, which needs a decompressor.
  unfoldable pub unpack : List ℕ → Result (List ℕ)
  unpack raw =
      if is_compressed (stream_flags raw)
      then (if config.compression_enabled then z.decode (stream_payload raw) else err protocol)
      else ok (stream_payload raw)

  -- The index counts as seen before its payload is unpacked.
  accept_chunk : ℕ → List ℕ → M Receiver (Unit {0})
  unfolding store
  accept_chunk index raw = do
    modify (λ r. record r { seen = index ∷ r.seen })
    bytes ← lift (unpack raw)
    modify (store index bytes)

  -- The body of the loop for a stream that was read.
  unfoldable pub receive_stream : ℕ → List ℕ → M Receiver (Unit {0})
  unfolding accept_chunk
  receive_stream total_chunks raw r =
      if ltb max_chunk_stream_bytes (length raw)
      then (err quic, r)
      else if ltb (length raw) chunk_header_bytes
      then (err protocol, r)
      else if leb total_chunks (stream_index raw)
      then (err protocol, r)
      else if contains r.seen (stream_index raw)
      then (ok tt, r)
      else accept_chunk (stream_index raw) raw r

  unfoldable pub receive_loop : ℕ → ℕ → List (Result (List ℕ)) → M Receiver (Unit {0})
  receive_loop total_chunks wanted [] r =
      if ltb (length r.seen) wanted then (err quic, r) else (ok tt, r)
  receive_loop total_chunks wanted (arrival ∷ later) r =
      let rest = receive_loop total_chunks wanted later in
      if ltb (length r.seen) wanted
      then and_then (and_then (lift arrival r) (receive_stream total_chunks)) (λ _. rest)
      else (ok tt, r)

  -- The streams that `receive_loop` leaves to the next file: it takes one more while it wants one.
  not_taken_behind :
      Result (Unit {0}) × Receiver
      → List (Result (List ℕ))
      → (Receiver → List (Result (List ℕ)))
      → List (Result (List ℕ))
  not_taken_behind (ok _, r) later next = next r
  not_taken_behind (err e, r) later next = later
  not_taken_behind (panic, r) later next = later

  not_taken : ℕ → ℕ → List (Result (List ℕ)) → Receiver → List (Result (List ℕ))
  unfolding not_taken_behind
  not_taken total_chunks wanted [] r = []
  not_taken total_chunks wanted (arrival ∷ later) r =
      let next = not_taken total_chunks wanted later in
      if ltb (length r.seen) wanted
      then not_taken_behind (and_then (lift arrival r) (receive_stream total_chunks)) later next
      else arrival ∷ later

  unfoldable pub streams_left : ℕ → ℕ → List (Result (List ℕ)) → Receiver → List (Result (List ℕ))
  unfolding not_taken open_writer
  streams_left total_chunks streams_to_receive arrivals r =
      if ltb total_chunks streams_to_receive
      then arrivals
      else not_taken total_chunks streams_to_receive arrivals
          (open_writer (total_chunks * config.chunk_size % u64_mod) r)

  module _ (sha256 : List ℕ → Digest) where
    -- The file under its final name is read for its checksum.
    rehash : M Receiver Digest
    rehash r =
        and_then (r.closing.reopened, r)
          (λ _ s. and_then (r.closing.reread, s) (λ _ t. (ok (sha256 t.writer.content), t)))

    -- `ChunkWriter::finalize`: sync and rename the file, then hash what stands there.
    finalize : M Receiver Digest
    unfolding rehash
    finalize r =
        and_then (r.closing.synced, r)
          (λ _ s.
            and_then (r.closing.renamed, s)
              (λ _ t. rehash (record t { finished = some t.writer.content })))

    -- `receive_file`, from the check of the two counts to the checksum.
    unfoldable pub receive_file : ℕ → ℕ → List (Result (List ℕ)) → M Receiver Digest
    unfolding finalize open_writer
    receive_file total_chunks streams_to_receive arrivals r =
        if ltb total_chunks streams_to_receive
        then (err protocol, r)
        else and_then
            (receive_loop total_chunks streams_to_receive arrivals
              (open_writer (total_chunks * config.chunk_size % u64_mod) r))
            (λ _. finalize)
