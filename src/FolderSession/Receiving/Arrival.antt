-- ===== src/FolderSession/Receiving/Arrival.antt =====
-- transfer_folder.rs: one file received from an end that works as it should, and the count of what is there.
use Prim.Native.String.{String}
use p2pfile_transfer.Common.{
  ℕ, ◌+◌, ◌-◌, ◌*◌, ◌/◌, ◌%◌, ltb, ◌<◌, ◌≡◌, refl, ◌∙◌, true, false, List, [], ◌∷◌, ◌++◌, Option,
  some, none, arith, length, map, ◌==◌, bytes_eq_refl, if◌then◌else◌,
}
use p2pfile_transfer.Common.Maps.{get, insert, remove}
use p2pfile_transfer.Errors.{Result, ok, err, panic}
use p2pfile_transfer.Protocol.{Uuid, Digest, FileMetadata, ConfigMessage, Message, ResumePoint}
use p2pfile_transfer.Compression.{Zstd}
use p2pfile_transfer.Handshake.Agreement.{
  Wire, Fits, talking, send_message-talking, recv_message-talking,
}
use p2pfile_transfer.Transfer.{chunk_count, u64_mod}
use p2pfile_transfer.Transfer.Sender.{ChunkReader, open_file}
use p2pfile_transfer.Transfer.Receiver.{Receiver, new_receiver, well, streams_left}
use p2pfile_transfer.Transfer.Receiver.Queue.{receive_file-append}
use p2pfile_transfer.Transfer.Exchange.{sent_file_arrives}
use p2pfile_transfer.FileExchange.{checksum_message, receive_single_file}
use p2pfile_transfer.FolderSession.Jobs.{Job}
use p2pfile_transfer.FolderSession.Receiving.{
  RelativePath, path_key, partial_path, or_empty, settle, resumed_part, add_part,
  already_transferred, file_at, sizes_before,
}

length-map_ok : (xs : List (List ℕ)) → length (map {B = Result (List ℕ)} ok xs) ≡ length xs
length-map_ok [] = refl
length-map_ok (x ∷ xs) = omega (arith, length-map_ok xs)

pub open_file-total_chunks :
    (content : List ℕ) (chunk_size : ℕ) (reader : ChunkReader)
    → open_file content chunk_size ≡ ok reader
    → chunk_count (length content) chunk_size ≡ ok reader.total_chunks
unfolding open_file
open_file-total_chunks content chunk_size reader e =
    counted (chunk_count (length content) chunk_size) refl
  where
    counted :
        (c : Result ℕ)
        → chunk_count (length content) chunk_size ≡ c
        → chunk_count (length content) chunk_size ≡ ok reader.total_chunks
    counted (ok n) d =
        let same = rw (d, open_file) at e in
        let found : n ≡ reader.total_chunks = ground (arith, same) in rw found at d
    counted (err x) d = let never = rw (d, open_file) at e in cc
    counted panic d = let never = rw (d, open_file) at e in cc

module _ (config : ConfigMessage) (positive : 0 < config.chunk_size) where
  counts : (size : ℕ) → (n : ℕ) × (chunk_count size config.chunk_size ≡ ok n)
  unfolding chunk_count
  counts size =
      let no : (config.chunk_size == 0) ≡ false = ground arith in
      (
        ((size + config.chunk_size) % u64_mod + u64_mod - 1) % u64_mod / config.chunk_size,
        rw no refl,
      )

  resumed_part-ok :
      (completed : List ℕ) (file : Option FileMetadata)
      → (n : ℕ) × (resumed_part config completed file ≡ ok n)
  unfolding resumed_part
  resumed_part-ok completed none = (0, refl)
  resumed_part-ok completed (some file) =
      let (n, e) = counts file.size in
      (
        (if ltb (length completed) n
            then length completed * config.chunk_size % u64_mod
            else file.size),
        rw (e, resumed_part) refl,
      )

  pub already_transferred-ok :
      (items : List FileMetadata) (point : Option ResumePoint)
      → (n : ℕ) × (already_transferred config items point ≡ ok n)
  unfolding already_transferred add_part
  already_transferred-ok items none = (0, refl)
  already_transferred-ok items (some point) =
      let (n, e) = resumed_part-ok point.completed_chunks (file_at items point.file_index) in
      ((sizes_before point.file_index items + n) % u64_mod, rw e refl)

module _ (z : Zstd) (sha256 : List ℕ → Digest) (disk : Option String → Result (List ℕ))
    (config : ConfigMessage) (transfer_id : Uuid) (before : List (RelativePath × List ℕ)) where
  -- One file, with the sender's checksum message to come.
  pub file_received :
      (i : ℕ) (completed : List ℕ) (file : FileMetadata)
      (job : Job z sha256 disk config transfer_id before completed file)
      (later : List (Result (List ℕ))) (out coming : List Message) (wire : Wire)
      → Fits wire.to_vec (checksum_message transfer_id i job.digest)
      → let m = checksum_message transfer_id i job.digest in
        let r0 = new_receiver well config (or_empty (get before (partial_path job.path))) in
        let n = job.reader.total_chunks in
        (r : Receiver) × (receive_single_file z sha256 transfer_id i config n
            (n - length completed)
            (map ok job.arrivals ++ later)
            (talking out (m ∷ coming) wire, r0)
          ≡ (ok tt, (talking (out ++ (m ∷ [])) coming wire, r)))
        × (r.finished ≡ some job.content)
        × (streams_left z config n (n - length completed) (map ok job.arrivals ++ later) r0 ≡ later)
  unfolding receive_single_file
  file_received i completed file job later out coming wire fits =
      let m = checksum_message transfer_id i job.digest in
      let leftover = or_empty (get before (partial_path job.path)) in
      let n = job.reader.total_chunks in
      let (_, r, got, whole) =
        sent_file_arrives z sha256 config job.content job.reader completed leftover [] job.arrivals
          job.digest job.run job.prepared job.sent job.limit job.delivery in
      let (front, left) =
        receive_file-append z config n sha256 (n - length completed) (map ok job.arrivals) later
          leftover job.digest r (length-map_ok job.arrivals ∙ job.once) got in
      let index : (i == i) ≡ true = ground arith in
      (
        r,
        rw
            (
              front,
              send_message-talking m out (m ∷ coming) wire fits,
              recv_message-talking m (out ++ (m ∷ [])) coming wire fits,
              index,
              bytes_eq_refl job.digest,
            )
            refl,
        whole,
        left,
      )

  pub settle-finished :
      (path : RelativePath) (r : Receiver) (d : List (RelativePath × List ℕ)) (content : List ℕ)
      → r.finished ≡ some content
      → settle path r d ≡ insert (remove d (partial_path path)) path content
  unfolding settle
  settle-finished path r d content e = rw e refl
