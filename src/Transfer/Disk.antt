-- ===== src/Transfer/Disk.antt =====
-- transfer_file.rs: `ChunkWriter`, over the bytes of the `.partial` file.
pub mod Places
use p2pfile_transfer.Common.{
  ℕ, zero, suc, ◌+◌, ◌*◌, ◌%◌, ◌<◌, List, [], ◌∷◌, ltb, length, take, if◌then◌else◌,
}
use p2pfile_transfer.Transfer.{u64_mod}

-- A write that begins at the front: it replaces what is there, and extends the file.
unfoldable pub overlay : List ℕ → List ℕ → List ℕ
overlay [] old = old
overlay (b ∷ bytes) [] = b ∷ bytes
overlay (b ∷ bytes) (o ∷ old) = b ∷ overlay bytes old

-- A write past the end fills the gap with zeros.
seek_write : ℕ → List ℕ → List ℕ → List ℕ
unfolding overlay
seek_write zero bytes old = overlay bytes old
seek_write (suc offset) bytes [] = 0 ∷ seek_write offset bytes []
seek_write (suc offset) bytes (o ∷ old) = o ∷ seek_write offset bytes old

-- `seek` and `write_all`: writing no bytes changes nothing, wherever the cursor is.
unfoldable pub write_at : ℕ → List ℕ → List ℕ → List ℕ
unfolding seek_write
write_at offset [] old = old
write_at offset (b ∷ bytes) old = seek_write offset (b ∷ bytes) old

pub record ChunkWriter : Type 0 where
  pub content : List ℕ
  pub chunk_size : ℕ

-- `ChunkWriter::new` on a `.partial` file that may be left over: one that is too long is cut.
unfoldable pub open_partial : List ℕ → ℕ → ℕ → ChunkWriter
open_partial leftover chunk_size expected_file_size = record {
  content =
      if ltb expected_file_size (length leftover)
      then take expected_file_size leftover
      else leftover;
  chunk_size = chunk_size;
}

-- `ChunkWriter::write_chunk`
unfoldable pub write_chunk : ℕ → List ℕ → ChunkWriter → ChunkWriter
write_chunk index bytes w = record w {
  content = write_at (index * w.chunk_size % u64_mod) bytes w.content;
}
