-- ===== src/FolderSession/Receiving/Delivery.antt =====
-- transfer_folder.rs: the receiving end among two that work as they should.
use Prim.Native.String.{String}
use p2pfile_transfer.Common.{
  ℕ, ◌+◌, ◌-◌, ◌<◌, ◌≤◌, ◌≡◌, ◌≢◌, refl, sym, ap, ◌∙◌, inl, inr, true, false, List, [], ◌∷◌, ◌++◌,
  Option, arith, length, map, All,
}
use p2pfile_transfer.Common.Counting.{contains}
use p2pfile_transfer.Common.Maps.{
  get, insert, remove, get-insert_same, get-insert_other, get-remove_other,
}
use mathlib.Core.List.{append_assoc, append-nil}
use p2pfile_transfer.Errors.{Result, ok}
use p2pfile_transfer.Protocol.{Uuid, Digest, FileMetadata, ConfigMessage, Message, TransferInfo}
use p2pfile_transfer.Compression.{Zstd}
use p2pfile_transfer.Handshake.Agreement.{Wire, Fits, talking}
use p2pfile_transfer.Transfer.{chunk_count}
use p2pfile_transfer.Transfer.Receiver.{new_receiver, well, streams_left}
use p2pfile_transfer.Folder.{FolderTransferState, get_completed_chunks}
use p2pfile_transfer.FileExchange.{checksum_message, receive_single_file}
use p2pfile_transfer.FolderSession.{as_u32}
use p2pfile_transfer.FolderSession.Jobs.{Apart, Job, Jobs, checksums, arrived, places, InPlace}
use p2pfile_transfer.FolderSession.Receiving.{
  RelativePath, path_key, FolderReceiver, partial_path, or_empty, settle, skips, already_sent,
  receive_at, receive_next, receive_files,
}
use p2pfile_transfer.FolderSession.Receiving.Arrival.{
  file_received, settle-finished, open_file-total_chunks,
}

module _ (z : Zstd) (sha256 : List ℕ → Digest) (disk : Option String → Result (List ℕ))
    (config : ConfigMessage) (transfer_id : Uuid) (before : List (RelativePath × List ℕ)) where
  module _ (s : FolderTransferState) (info : TransferInfo) (wire : Wire) where
    -- What the announcement says of file `j` is what the sender's state does.
    abbrev pub Planned : ℕ → Type 0
    Planned j =
        (skips info j ≡ contains s.completed_files j)
        × (contains s.completed_files j ≡ false
            → already_sent j info.resume_from ≡ length (get_completed_chunks s j))

    -- The receiver in the loop.
    pub record Waits (out coming : List Message) (arrivals : List (Result (List ℕ)))
        (t : FolderReceiver) : Type 0 where
      pub line : t.conn ≡ talking out coming wire
      pub queue : t.arrivals ≡ arrivals
      pub closes : t.closing ≡ (λ i. well)

    receives :
        (i : ℕ) (file : FileMetadata) (out coming : List Message) (later : List (Result (List ℕ)))
        (t : FolderReceiver)
        → contains s.completed_files i ≡ false
        → (job : Job z sha256 disk config transfer_id before (get_completed_chunks s i) file)
        → skips info i ≡ contains s.completed_files i
        → already_sent i info.resume_from ≡ length (get_completed_chunks s i)
        → get t.disk (partial_path job.path) ≡ get before (partial_path job.path)
        → Fits wire.to_vec (checksum_message transfer_id (as_u32 i) job.digest)
        → let m = checksum_message transfer_id (as_u32 i) job.digest in
          Waits out (m ∷ coming) (map ok job.arrivals ++ later) t
          → (u : FolderReceiver) × (receive_next z sha256 config transfer_id info i file t
              ≡ (ok tt, u))
            × Waits (out ++ (m ∷ [])) coming later u
            × (u.disk ≡ insert (remove t.disk (partial_path job.path)) job.path job.content)
    unfolding receive_next receive_at
    receives i file out coming later t new job skipping sent_before same fits h =
        let m = checksum_message transfer_id (as_u32 i) job.digest in
        let n = job.reader.total_chunks in
        let (r, got, whole, left) =
          file_received z sha256 disk config transfer_id before (as_u32 i)
            (get_completed_chunks s i) file job later out coming wire fits in
        let r0 =
          new_receiver (t.closing i) config (or_empty (get t.disk (partial_path job.path))) in
        let counted : chunk_count file.size config.chunk_size ≡ ok n =
          rw job.sized
            (open_file-total_chunks job.content config.chunk_size job.reader job.prepared.opened) in
        let ran : receive_single_file z sha256 transfer_id (as_u32 i) config n
              (n - length (get_completed_chunks s i)) t.arrivals (t.conn, r0)
            ≡ (ok tt, (talking (out ++ (m ∷ [])) coming wire, r)) =
          rw (h.queue, h.line, h.closes, same) got in
        let rest : streams_left z config n (n - length (get_completed_chunks s i)) t.arrivals r0
            ≡ later =
          rw (h.queue, h.closes, same) left in
        (
          record t {
            conn = talking (out ++ (m ∷ [])) coming wire;
            disk = settle job.path r t.disk;
            arrivals = later;
          },
          rw (skipping ∙ new, job.safe, counted, sent_before, ran, rest) refl,
          record { line = refl; queue = refl; closes = h.closes },
          settle-finished z sha256 disk config transfer_id before job.path r t.disk job.content
              whole,
        )

    -- A file that is put in place changes no path that is apart from it and its `.partial`.
    frame :
        (d e : List (RelativePath × List ℕ)) (path q : RelativePath) (content : List ℕ)
        → e ≡ insert (remove d (partial_path path)) path content
        → path ≢ q
        → partial_path path ≢ q
        → get e q ≡ get d q
    frame d e path q content made a b =
        ap (λ x. get x q) made
        ∙ get-insert_other (remove d (partial_path path)) path q content a
        ∙ get-remove_other d (partial_path path) q b

    still_fresh :
        (d e : List (RelativePath × List ℕ)) (path : RelativePath) (content : List ℕ)
        (ps : List RelativePath)
        → e ≡ insert (remove d (partial_path path)) path content
        → All (λ q. path ≢ q) ps
        → All (λ q. partial_path path ≢ q) ps
        → All (λ q. get d q ≡ get before q) ps
        → All (λ q. get e q ≡ get before q) ps
    still_fresh d e path content [] made a b h = tt
    still_fresh d e path content (q ∷ ps) made a b h = (
      frame d e path q content made a.0 b.0 ∙ h.0,
      still_fresh d e path content ps made a.1 b.1 h.1,
    )

    flip :
        (path : RelativePath) (ps : List RelativePath)
        → All (λ q. path ≢ q) ps
        → All (λ p. p ≢ path) ps
    flip path [] h = tt
    flip path (q ∷ ps) h = (λ e. h.0 (sym e), flip path ps h.1)

    receive_next_skipped :
        (i : ℕ) (file : FileMetadata) (t : FolderReceiver)
        → skips info i ≡ true
        → receive_next z sha256 config transfer_id info i file t ≡ (ok tt, t)
    unfolding receive_next
    receive_next_skipped i file t e = rw e refl

    pub files_received :
        (i : ℕ) (rest : List FileMetadata)
        (jobs : Jobs z sha256 disk config transfer_id before s i rest) (out coming : List Message)
        (later : List (Result (List ℕ))) (t : FolderReceiver)
        → ((j : ℕ) → i ≤ j → j < i + length rest → Planned j)
        → Apart (places z sha256 disk config transfer_id before s i rest jobs)
        → All
            (λ q. get t.disk q ≡ get before q)
            (places z sha256 disk config transfer_id before s i rest jobs)
        → All (Fits wire.to_vec) (checksums z sha256 disk config transfer_id before s i rest jobs)
        → Waits out
            (checksums z sha256 disk config transfer_id before s i rest jobs ++ coming)
            (arrived z sha256 disk config transfer_id before s i rest jobs ++ later)
            t
        → (u : FolderReceiver) × (receive_files z sha256 config transfer_id info i rest t
            ≡ (ok tt, u))
          × Waits
              (out ++ checksums z sha256 disk config transfer_id before s i rest jobs)
              coming
              later
              u
          × InPlace z sha256 disk config transfer_id before s u.disk i rest jobs
          × ((q : RelativePath)
              → All (λ p. p ≢ q) (places z sha256 disk config transfer_id before s i rest jobs)
              → get u.disk q ≡ get t.disk q)
    unfolding receive_files
    files_received i [] jobs out coming later t plan apart fresh fits h = (
      t,
      refl,
      record {
        line = h.line ∙ ap (λ o. talking o coming wire) (sym (append-nil out));
        queue = h.queue;
        closes = h.closes;
      },
      tt,
      λ q _. refl,
    )
    files_received i (file ∷ rest) (inl old, jobs) out coming later t plan apart fresh fits h =
        let (u, e, w, there, same) =
          files_received (i + 1) rest jobs out coming later t
            (λ j a b. plan j (omega arith) (omega arith)) apart fresh fits h in
        let skipped : skips info i ≡ true = (plan i (omega arith) (omega arith)).0 ∙ old in
        (u, rw (receive_next_skipped i file t skipped) e, w, there, same)
    files_received i (file ∷ rest) (inr (new, job), jobs) out coming later t plan apart fresh fits
          h =
        let m = checksum_message transfer_id (as_u32 i) job.digest in
        let more = checksums z sha256 disk config transfer_id before s (i + 1) rest jobs in
        let streams = arrived z sha256 disk config transfer_id before s (i + 1) rest jobs in
        let (skipping, counted) = plan i (omega arith) (omega arith) in
        let (t', e, w, made) =
          receives i file out (more ++ coming) (streams ++ later) t new job skipping (counted new)
            fresh.1.0 fits.0
            (record {
              line = h.line;
              queue = h.queue ∙ append_assoc (map ok job.arrivals) streams later;
              closes = h.closes;
            }) in
        let (u, d, v, there, same) =
          files_received (i + 1) rest jobs (out ++ (m ∷ [])) coming later t'
            (λ j a b. plan j (omega arith) (omega arith)) apart.1.1
            (still_fresh t.disk t'.disk job.path job.content
              (places z sha256 disk config transfer_id before s (i + 1) rest jobs) made apart.0.1
              apart.1.0 fresh.1.1)
            fits.1 w in
        (
          u,
          rw e d,
          record {
            line = v.line ∙ ap (λ o. talking o coming wire) (append_assoc out (m ∷ []) more);
            queue = v.queue;
            closes = v.closes;
          },
          (
            same job.path (flip job.path _ apart.0.1)
                ∙ ap (λ x. get x job.path) made
                ∙ get-insert_same (remove t.disk (partial_path job.path)) job.path job.content,
            there,
          ),
          λ q a. same q a.1.1 ∙ frame t.disk t'.disk job.path q job.content made a.0 a.1.0,
        )
