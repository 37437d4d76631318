-- ===== src/Transfer/Sender.antt =====
-- transfer_file.rs: `ChunkReader`, `send_chunk_stream` and `send_file`. The file does not change
-- while it is sent; the wait for bandwidth only delays and is left out.
pub mod Progress
pub mod Run
pub mod Marks
use p2pfile_transfer.Common.{
  ℕ, zero, suc, ◌+◌, ◌-◌, ◌*◌, ◌%◌, Bool, true, false, List, [], ◌∷◌, ◌++◌, Option, none, some, leb,
  min, if◌then◌else◌, length, take, drop,
}
use p2pfile_transfer.Common.Counting.{contains}
use p2pfile_transfer.Errors.{Result, ok, err, panic, network, quic}
use p2pfile_transfer.Effects.{M, and_then, ◌>>=◌, ◌>>◌, done, lift, modify, gets}
use p2pfile_transfer.Protocol.{Digest, ConfigMessage}
use p2pfile_transfer.Compression.{Zstd, AdaptiveCompressor, Packed, new, compress}
use p2pfile_transfer.Transfer.{u64_mod, chunk_count, chunk_stream}

-- `hasher` holds the bytes that were fed to the running SHA-256.
pub record ChunkReader : Type 0 where
  pub file : List ℕ
  pub chunk_size : ℕ
  pub total_chunks : ℕ
  pub file_size : ℕ
  pub hasher : List ℕ

-- `ChunkReader::new`, once the file is open.
unfoldable pub open_file : List ℕ → ℕ → Result ChunkReader
open_file file chunk_size = elim (chunk_count (length file) chunk_size) [
  | ok total_chunks ↦ ok (record {
    file = file;
    chunk_size = chunk_size;
    total_chunks = total_chunks;
    file_size = length file;
    hasher = [];
  })
  | err e ↦ err e
  | panic ↦ panic
]

-- `seek` and `read_exact`: a read past the end of the file fails.
read_exact : ℕ → ℕ → M ChunkReader (List ℕ)
read_exact offset to_read r =
    if leb (offset + to_read) (length r.file)
    then (
      ok (take to_read (drop offset r.file)),
      record r { hasher = r.hasher ++ take to_read (drop offset r.file) },
    )
    else (err network, r)

-- The u64 product and difference wrap.
unfoldable pub read_chunk : ℕ → M ChunkReader (List ℕ)
unfolding read_exact
read_chunk index r =
    let offset = index * r.chunk_size % u64_mod in
    let remaining = (r.file_size + u64_mod - offset) % u64_mod in
    read_exact offset (min remaining r.chunk_size) r

unfoldable pub fold_chunk : ℕ → M ChunkReader (Unit {0})
fold_chunk index r = and_then (read_chunk index r) (λ _ s. (ok tt, s))

-- `link` tells of each stream to come whether the peer acknowledges it (after the end all are);
-- `streams` are those that were, `marked` the indices handed to the completion callback and
-- `progress` the bytes added to the progress bar.
pub record Sender : Type 0 where
  pub reader : ChunkReader
  pub compressor : Option AdaptiveCompressor
  pub link : List Bool
  pub streams : List (List ℕ)
  pub compressed_bytes_sent : ℕ
  pub uncompressed_bytes_sent : ℕ
  pub progress : ℕ
  pub marked : List ℕ

in_reader : {A : Type 0} → M ChunkReader A → M Sender A
in_reader m s = ((m s.reader).0, record s { reader = (m s.reader).1 })

send_over : List Bool → List ℕ → M Sender (Unit {0})
send_over [] stream s = (ok tt, record s { streams = s.streams ++ (stream ∷ []) })
send_over (true ∷ link) stream s =
    (ok tt, record s { link = link; streams = s.streams ++ (stream ∷ []) })
send_over (false ∷ link) stream s = (err quic, record s { link = link })

-- `send_chunk_stream` returns once the peer has acknowledged the whole stream.
unfoldable pub send_chunk_stream : ℕ → Bool → List ℕ → M Sender (Unit {0})
unfolding send_over
send_chunk_stream index compressed bytes s =
    send_over s.link (chunk_stream index compressed bytes) s

-- The counters, the progress bar and the callback after a chunk is sent.
account : ℕ → ℕ → ℕ → Sender → Sender
account index sent size s = record s {
  compressed_bytes_sent = (s.compressed_bytes_sent + sent) % u64_mod;
  uncompressed_bytes_sent = (s.uncompressed_bytes_sent + size) % u64_mod;
  progress = (s.progress + size) % u64_mod;
  marked = s.marked ++ (index ∷ []);
}

-- The compressor that `send_file` sets up.
unfoldable pub new_compressor : ConfigMessage → Option AdaptiveCompressor
new_compressor config =
    if config.compression_enabled
    then some (new config.compression_level (if config.adaptive_compression then 3 else 0))
    else none

unfoldable pub new_sender : ChunkReader → ConfigMessage → List Bool → Sender
new_sender reader config link = record {
  reader = reader;
  compressor = new_compressor config;
  link = link;
  streams = [];
  compressed_bytes_sent = 0;
  uncompressed_bytes_sent = 0;
  progress = 0;
  marked = [];
}

module _ (z : Zstd) where
  pack : Option AdaptiveCompressor → List ℕ → M Sender Packed
  pack none chunk s = (ok (record { bytes = chunk; used = false; changed = false }), s)
  pack (some c) chunk s =
      ((compress z chunk c).0, record s { compressor = some (compress z chunk c).1 })

  -- One chunk from the compressor to the completion callback.
  deliver : ℕ → List ℕ → M Sender (Unit {0})
  unfolding account
  deliver index chunk = do
    p ← (λ s. pack s.compressor chunk s)
    send_chunk_stream index p.used p.bytes
    modify (account index (length p.bytes) (length chunk))

  -- The body of the loop: a chunk that the peer has is only hashed.
  unfoldable pub send_chunk : List ℕ → ℕ → M Sender (Unit {0})
  unfolding in_reader deliver pack
  send_chunk completed index s =
      if contains completed index
      then in_reader (fold_chunk index) s
      else and_then (in_reader (read_chunk index) s) (deliver index)

  unfoldable pub send_chunks : List ℕ → ℕ → ℕ → M Sender (Unit {0})
  send_chunks completed zero index = done tt
  send_chunks completed (suc rounds) index = do
    send_chunk completed index
    send_chunks completed rounds (index + 1)

  module _ (sha256 : List ℕ → Digest) where
    -- `send_file` after the reader is open.
    unfoldable pub send_file : List ℕ → M Sender Digest
    send_file completed = do
      total_chunks ← gets (λ s. s.reader.total_chunks)
      send_chunks completed total_chunks 0
      gets (λ s. sha256 s.reader.hasher)
