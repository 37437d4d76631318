-- ===== src/FolderSession/Sending/Delivery.antt =====
-- transfer_folder.rs: the sending end among two that work as they should.
use Prim.Native.String.{String}
use p2pfile_transfer.Common.{
  ℕ, suc, ◌+◌, ◌≤◌, ◌≡◌, ◌≢◌, refl, ap, ◌∙◌, inl, inr, true, false, List, [], ◌∷◌, ◌++◌, Option,
  some, arith, length, bytes_eq_refl, All,
}
use p2pfile_transfer.Common.Counting.{contains, contains-append}
use mathlib.Core.List.{append_assoc, append-nil}
use p2pfile_transfer.Errors.{Result, ok}
use p2pfile_transfer.Protocol.{Uuid, Digest, FileMetadata, ConfigMessage, Message}
use p2pfile_transfer.Compression.{Zstd}
use p2pfile_transfer.Handshake.Agreement.{
  Wire, Fits, talking, send_message-talking, recv_message-talking,
}
use p2pfile_transfer.Transfer.Sender.{new_sender}
use p2pfile_transfer.Folder.{FolderTransferState, new, get_completed_chunks, mark_file_complete}
use p2pfile_transfer.FileExchange.{checksum_message, send_single_file}
use p2pfile_transfer.FolderSession.{as_u32}
use p2pfile_transfer.FolderSession.Receiving.{RelativePath}
use p2pfile_transfer.FolderSession.Jobs.{Job, Jobs, checksums}
use p2pfile_transfer.FolderSession.Sending.{
  FolderSender, path_at, mark_all, finish_file, take_over, record_done, send_opened, opened_at,
  send_next, send_files,
}
use p2pfile_transfer.FolderSession.Sending.Bookkeeping.{
  mark_all-SameFiles, get_completed_chunks-mark_all_other,
}

module _ (z : Zstd) (sha256 : List ℕ → Digest) (disk : Option String → Result (List ℕ))
    (config : ConfigMessage) (transfer_id : Uuid) (before : List (RelativePath × List ℕ)) where
  -- One file, with the receiver's checksum message to come.
  file_sent :
      (i : ℕ) (completed : List ℕ) (file : FileMetadata)
      (job : Job z sha256 disk config transfer_id before completed file) (out coming : List Message)
      (wire : Wire)
      → Fits wire.to_vec (checksum_message transfer_id i job.digest)
      → let m = checksum_message transfer_id i job.digest in
        send_single_file z sha256 transfer_id i completed
          (talking out (m ∷ coming) wire, new_sender job.reader config [])
        ≡ (ok tt, (talking (out ++ (m ∷ [])) coming wire, job.run))
  unfolding send_single_file
  file_sent i completed file job out coming wire fits =
      let m = checksum_message transfer_id i job.digest in
      rw
        (
          job.sent,
          send_message-talking m out (m ∷ coming) wire fits,
          recv_message-talking m (out ++ (m ∷ [])) coming wire fits,
          bytes_eq_refl job.digest,
        )
        refl

  module _ (s : FolderTransferState) where
    -- From file `i` on the state is as it was at the start.
    pub record SoFar (i : ℕ) (t : FolderTransferState) : Type 0 where
      pub same_files : t.files ≡ s.files
      pub same_done : (j : ℕ) → i ≤ j → contains t.completed_files j ≡ contains s.completed_files j
      pub same_chunks : (j : ℕ) → i ≤ j → get_completed_chunks t j ≡ get_completed_chunks s j

    done_files : (i : ℕ) (t : FolderTransferState) → (mark_file_complete i t).files ≡ t.files
    unfolding mark_file_complete
    done_files i t = ground arith

    done_chunks :
        (i j : ℕ) (t : FolderTransferState)
        → get_completed_chunks (mark_file_complete i t) j ≡ get_completed_chunks t j
    unfolding mark_file_complete get_completed_chunks
    done_chunks i j t = ground arith

    done_others :
        (i j : ℕ) (t : FolderTransferState)
        → i ≢ j
        → contains (mark_file_complete i t).completed_files j ≡ contains t.completed_files j
    unfolding mark_file_complete
    done_others i j t d = ground (arith, contains-append t.completed_files i j, d)

    advanced-SoFar :
        (i : ℕ) (chunks : List ℕ) (t : FolderTransferState)
        → SoFar i t
        → SoFar (i + 1) (finish_file i (mark_all i chunks t))
    unfolding finish_file get_completed_chunks
    advanced-SoFar i chunks t h =
        let u = mark_all i chunks t in
        let same = mark_all-SameFiles i chunks t in
        record {
          same_files = done_files i u ∙ same.files ∙ h.same_files;
          same_done = λ j l.
              done_others i j u (λ e. absurd (omega (arith, e, l)))
              ∙ ap (λ c. contains c j) same.completed_files
              ∙ h.same_done j (omega arith);
          same_chunks = λ j l.
              done_chunks i j u
              ∙ get_completed_chunks-mark_all_other i j chunks t (λ e. absurd (omega (arith, e, l)))
              ∙ h.same_chunks j (omega arith);
        }

    -- The sender at file `i`.
    pub record At (i : ℕ) (out coming : List Message) (wire : Wire) (t : FolderSender)
        : Type 0 where
      pub so_far : SoFar i t.state
      pub line : t.conn ≡ talking out coming wire
      pub holds : t.link ≡ []

    module _ (wire : Wire) (i : ℕ) where
      stays :
          (out coming : List Message) (t : FolderSender)
          → contains s.completed_files i ≡ true
          → At i out coming wire t
          → (send_next z sha256 disk config transfer_id i t ≡ (ok tt, t))
            × At (i + 1) out coming wire t
      unfolding send_next
      stays out coming t old h = (
        rw (h.so_far.same_done i (omega arith) ∙ old) refl,
        record {
          so_far = record {
            same_files = h.so_far.same_files;
            same_done = λ j l. h.so_far.same_done j (omega arith);
            same_chunks = λ j l. h.so_far.same_chunks j (omega arith);
          };
          line = h.line;
          holds = h.holds;
        },
      )

      sends :
          (file : FileMetadata) (out coming : List Message) (t : FolderSender)
          → contains s.completed_files i ≡ false
          → (job : Job z sha256 disk config transfer_id before (get_completed_chunks s i) file)
          → path_at s.files i ≡ some file.path
          → Fits wire.to_vec (checksum_message transfer_id (as_u32 i) job.digest)
          → let m = checksum_message transfer_id (as_u32 i) job.digest in
            At i out (m ∷ coming) wire t
            → (u : FolderSender) × (send_next z sha256 disk config transfer_id i t ≡ (ok tt, u))
              × At (i + 1) (out ++ (m ∷ [])) coming wire u
      unfolding send_next send_opened opened_at
      sends file out coming t new job place fits h =
          let m = checksum_message transfer_id (as_u32 i) job.digest in
          let ran : send_single_file z sha256 transfer_id (as_u32 i)
                (get_completed_chunks t.state i) (t.conn, new_sender job.reader config t.link)
              ≡ (ok tt, (talking (out ++ (m ∷ [])) coming wire, job.run)) =
            rw (h.so_far.same_chunks i (omega arith), h.line, h.holds)
              (file_sent (as_u32 i) (get_completed_chunks s i) file job out coming wire fits) in
          let there : path_at t.state.files i ≡ some file.path =
            ap (λ f. path_at f i) h.so_far.same_files ∙ place in
          (
            record_done i
                (take_over i (ok tt, (talking (out ++ (m ∷ [])) coming wire, job.run)) t).1,
            rw
                (
                  h.so_far.same_done i (omega arith) ∙ new,
                  there,
                  job.stands,
                  job.prepared.opened,
                  ran,
                )
                (unfold take_over in refl),
            unfold take_over record_done in
                record {
                  so_far = advanced-SoFar i job.run.marked t.state h.so_far;
                  line = refl;
                  holds = job.holds;
                },
          )

    -- The files that `rest` stands for are those from number `i` on.
    abbrev pub From : ℕ → List FileMetadata → Type 0
    From i rest = (k : ℕ) → path_at s.files (i + k) ≡ path_at rest k

    From-suc :
        (i : ℕ) (file : FileMetadata) (rest : List FileMetadata)
        → From i (file ∷ rest)
        → From (i + 1) rest
    unfolding path_at
    From-suc i file rest from k = ap (path_at s.files) (omega arith) ∙ from (suc k)

    module _ (wire : Wire) where
      pub files_sent :
          (i : ℕ) (rest : List FileMetadata)
          (jobs : Jobs z sha256 disk config transfer_id before s i rest) (out coming : List Message)
          (t : FolderSender)
          → From i rest
          → All (Fits wire.to_vec) (checksums z sha256 disk config transfer_id before s i rest jobs)
          → At i out
              (checksums z sha256 disk config transfer_id before s i rest jobs ++ coming)
              wire
              t
          → (u : FolderSender) × (send_files z sha256 disk config transfer_id (length rest) i t
              ≡ (ok tt, u))
            × (u.conn
                ≡ talking
                    (out ++ checksums z sha256 disk config transfer_id before s i rest jobs)
                    coming
                    wire)
      unfolding send_files path_at
      files_sent i [] jobs out coming t from fits h = (t, refl, rw (append-nil out) h.line)
      files_sent i (file ∷ rest) (inl old, jobs) out coming t from fits h =
          let (e, g) =
            stays wire i out
              (checksums z sha256 disk config transfer_id before s (i + 1) rest jobs ++ coming) t
              old h in
          rw e (files_sent (i + 1) rest jobs out coming t (From-suc i file rest from) fits g)
      files_sent i (file ∷ rest) (inr (new, job), jobs) out coming t from fits h =
          let m = checksum_message transfer_id (as_u32 i) job.digest in
          let more = checksums z sha256 disk config transfer_id before s (i + 1) rest jobs in
          let first : path_at s.files i ≡ some file.path =
            ap (path_at s.files) (omega arith) ∙ from 0 in
          let (t', e, g) = sends wire i file out (more ++ coming) t new job first fits.0 h in
          let (u, d, l) =
            files_sent (i + 1) rest jobs (out ++ (m ∷ [])) coming t' (From-suc i file rest from)
              fits.1 g in
          (u, rw e d, l ∙ ap (λ o. talking o coming wire) (append_assoc out (m ∷ []) more))
