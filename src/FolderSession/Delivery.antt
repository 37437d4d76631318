-- ===== src/FolderSession/Delivery.antt =====
-- transfer_folder.rs: both ends of a folder, from the announcement to the last message.
use Prim.Native.String.{String}
use p2pfile_transfer.Common.{
  ℕ, ◌-◌, ◌^◌, ◌<◌, ◌≤◌, ◌≡◌, ◌≢◌, refl, sym, ap, List, [], ◌∷◌, ◌++◌, Option, arith, length, map,
  All,
}
use p2pfile_transfer.Common.Maps.{get}
use mathlib.Core.List.{append-nil}
use p2pfile_transfer.Errors.{Result, ok}
use p2pfile_transfer.Protocol.{
  Uuid, Digest, FileMetadata, ConfigMessage, Message, TransferInfo, ResumePoint,
}
use p2pfile_transfer.Compression.{Zstd}
use p2pfile_transfer.Handshake.Agreement.{
  Wire, Fits, talking, send_message-talking, recv_message-talking,
}
use p2pfile_transfer.Transfer.Receiver.{well}
use p2pfile_transfer.Folder.{FolderTransferState, total_size}
use p2pfile_transfer.FolderSession.{resume_point, transfer_info_of, complete_message}
use p2pfile_transfer.FolderSession.Jobs.{Apart, Jobs, checksums, arrived, places, InPlace}
use p2pfile_transfer.FolderSession.Sending.{FolderSender, Found, begin, path_at, send, send_all}
use p2pfile_transfer.FolderSession.Sending.Bookkeeping.{Resumable}
use p2pfile_transfer.FolderSession.Sending.Resume.{begin-Resumable}
use p2pfile_transfer.FolderSession.Sending.Delivery.{At, files_sent}
use p2pfile_transfer.FolderSession.Sending.Opening.{announced}
use p2pfile_transfer.FolderSession.Receiving.{
  RelativePath, path_key, FolderReceiver, TransferSummary, accept, validate_files, receive_folder,
  receive_accepted, first_path, some_items, decide,
}
use p2pfile_transfer.FolderSession.Receiving.Plan.{resume_agreement}
use p2pfile_transfer.FolderSession.Receiving.Arrival.{already_transferred-ok}
use p2pfile_transfer.FolderSession.Receiving.Delivery.{files_received}

module _ (z : Zstd) (sha256 : List ℕ → Digest) (disk : Option String → Result (List ℕ))
    (config : ConfigMessage) (transfer_id : Uuid) (before : List (RelativePath × List ℕ))
    (to_vec : Message → Option (List ℕ)) (seen_by_sender seen_by_receiver : Digest) where
  abbrev pub sender_wire : Wire
  sender_wire = record { to_vec = to_vec; seen = seen_by_sender }

  abbrev pub receiver_wire : Wire
  receiver_wire = record { to_vec = to_vec; seen = seen_by_receiver }

  -- The two ends of a transfer that resumes, or starts, from the state `s`.
  abbrev pub sending : FolderTransferState → List Message → FolderSender
  sending s coming = record {
    conn = talking [] coming sender_wire;
    state = s;
    link = [];
    streams = [];
    saved = [];
  }

  abbrev pub receiving : List Message → List (Result (List ℕ)) → FolderReceiver
  receiving coming arrivals = record {
    conn = talking [] coming receiver_wire;
    disk = before;
    arrivals = arrivals;
    closing = λ i. well;
  }

  module _ (s : FolderTransferState) (found : Found) (duration_ms : ℕ) where
    abbrev pub info : TransferInfo
    info = transfer_info_of transfer_id (resume_point transfer_id s) s

    -- The sender behind the peer's `Ready`.
    abbrev under_way : List Message → FolderSender
    under_way coming = record (sending s coming) {
      conn = talking (Message.transfer_info info ∷ []) coming sender_wire;
    }

    start-At :
        (coming : List Message)
        → At z sha256 disk config transfer_id before s 0
            (Message.transfer_info info ∷ [])
            coming
            sender_wire
            (under_way coming)
    start-At coming = record {
      so_far = record { same_files = refl; same_done = λ j l. refl; same_chunks = λ j l. refl };
      line = refl;
      holds = refl;
    }

    rest_sent :
        (jobs : Jobs z sha256 disk config transfer_id before s 0 s.files)
        → All (Fits to_vec) (checksums z sha256 disk config transfer_id before s 0 s.files jobs)
        → ((total : ℕ) → Fits to_vec (complete_message transfer_id total duration_ms))
        → let checks = checksums z sha256 disk config transfer_id before s 0 s.files jobs in
          (t : FolderSender) × (total : ℕ) × (send_all z sha256 disk config transfer_id duration_ms
              (under_way checks)
            ≡ (ok tt, t))
          × (t.conn
              ≡ talking
                  (Message.transfer_info info
                    ∷ (checks ++ (complete_message transfer_id total duration_ms ∷ [])))
                  []
                  sender_wire)
    unfolding send_all
    rest_sent jobs check_fits last_fits =
        let checks = checksums z sha256 disk config transfer_id before s 0 s.files jobs in
        let first = Message.transfer_info info in
        let (u, e, l) =
          files_sent z sha256 disk config transfer_id before s sender_wire 0 s.files jobs
            (first ∷ []) [] (under_way checks) (λ k. ap (path_at s.files) (omega arith)) check_fits
            (rw (append-nil checks) (start-At checks)) in
        let m = complete_message transfer_id u.state.total_bytes duration_ms in
        (
          record u { conn = talking ((first ∷ checks) ++ (m ∷ [])) [] sender_wire },
          u.state.total_bytes,
          rw
              (
                e,
                l,
                send_message-talking m (first ∷ checks) [] sender_wire
                    (last_fits u.state.total_bytes),
              )
              refl,
          refl,
        )

    nothing_yet : (ps : List RelativePath) → All (λ q. get before q ≡ get before q) ps
    nothing_yet [] = tt
    nothing_yet (p ∷ ps) = (refl, nothing_yet ps)

    rest_received :
        (jobs : Jobs z sha256 disk config transfer_id before s 0 s.files) (last : Message)
        → Resumable s
        → length s.files ≤ 2 ^ 32
        → 0 < config.chunk_size
        → Apart (places z sha256 disk config transfer_id before s 0 s.files jobs)
        → Fits to_vec Message.ready
        → All (Fits to_vec) (checksums z sha256 disk config transfer_id before s 0 s.files jobs)
        → Fits to_vec last
        → let checks = checksums z sha256 disk config transfer_id before s 0 s.files jobs in
          let arrivals = arrived z sha256 disk config transfer_id before s 0 s.files jobs in
          (summary : TransferSummary) × (u : FolderReceiver) × (receive_accepted z sha256 config
              info
              (record (receiving (checks ++ (last ∷ [])) arrivals) {
                conn = talking [] (checks ++ (last ∷ [])) receiver_wire;
              })
            ≡ (ok summary, u))
          × (u.conn.sent ≡ Message.ready ∷ checks)
          × InPlace z sha256 disk config transfer_id before s u.disk 0 s.files jobs
          × ((q : RelativePath)
              → All (λ p. p ≢ q) (places z sha256 disk config transfer_id before s 0 s.files jobs)
              → get u.disk q ≡ get before q)
    unfolding receive_accepted transfer_info_of
    rest_received jobs last r small pos apart ready_fits check_fits last_fits =
        let checks = checksums z sha256 disk config transfer_id before s 0 s.files jobs in
        let arrivals = arrived z sha256 disk config transfer_id before s 0 s.files jobs in
        let (n, counted) = already_transferred-ok config pos s.files (resume_point transfer_id s) in
        let start : FolderReceiver = record (receiving (checks ++ (last ∷ [])) arrivals) {
          conn = talking (Message.ready ∷ []) (checks ++ (last ∷ [])) receiver_wire;
        } in
        let (u, e, w, there, same) =
          files_received z sha256 disk config transfer_id before s info receiver_wire 0 s.files jobs
            (Message.ready ∷ []) (last ∷ []) [] start
            (λ j a b. resume_agreement transfer_id s r small j (omega arith)) apart
            (nothing_yet (places z sha256 disk config transfer_id before s 0 s.files jobs))
            check_fits (record { line = refl; queue = sym (append-nil arrivals); closes = refl }) in
        (
          record {
            root_name = first_path s.files;
            files = map (λ file. file.path) s.files;
            bytes = total_size s.files - n;
          },
          record u { conn = talking (Message.ready ∷ checks) [] receiver_wire },
          rw
              (
                counted,
                send_message-talking Message.ready [] (checks ++ (last ∷ [])) receiver_wire
                    ready_fits,
                e,
                w.line,
                recv_message-talking last (Message.ready ∷ checks) [] receiver_wire last_fits,
              )
              refl,
          refl,
          there,
          same,
        )

  items_there :
      (files : List FileMetadata) (s : FolderTransferState)
      → s.files ≡ files
      → files ≢ []
      → (resume : Option ResumePoint) → some_items (transfer_info_of transfer_id resume s) ≡ ok tt
  unfolding some_items transfer_info_of
  items_there [] s e filled resume = absurd (filled refl)
  items_there (file ∷ files) s e filled resume = rw (e, some_items) refl

  -- A folder is sent, for the first time or again from a state `e` that an earlier run left: the files
  -- that are not complete are read and sent over a link that holds, and their streams arrive once
  -- each, in any order within a file; the receiver's calls on its files work, and it has what `e` says of the chunks that arrived
  -- before. No two of the paths of the files and of their `.partial` files are the same. The messages,
  -- the announcement with the files' list and the resume point above all, serialize to at most the
  -- 10 MB of a frame. Then both
  -- ends succeed, each on exactly the messages that the other sends; every file that was not complete
  -- stands in its place with the sender's content, and no other file of the receiver has changed.
  pub folder_arrives :
      (e s : FolderTransferState) (found : Found) (duration_ms : ℕ)
      (jobs : Jobs z sha256 disk config transfer_id before s 0 s.files)
      → Resumable e
      → begin transfer_id config found e ≡ ok s
      → s.files ≢ []
      → length s.files ≤ 2 ^ 32
      → validate_files s.files ≡ ok tt
      → 0 < config.chunk_size
      → Apart (places z sha256 disk config transfer_id before s 0 s.files jobs)
      → Fits to_vec (Message.transfer_info (info s found duration_ms))
      → Fits to_vec Message.ready
      → All (Fits to_vec) (checksums z sha256 disk config transfer_id before s 0 s.files jobs)
      → ((total : ℕ) → Fits to_vec (complete_message transfer_id total duration_ms))
      → let checks = checksums z sha256 disk config transfer_id before s 0 s.files jobs in
        let arrivals = arrived z sha256 disk config transfer_id before s 0 s.files jobs in
        (t : FolderSender) × (sent : List Message) × (send z sha256 disk config transfer_id found
            duration_ms
            (sending e (Message.ready ∷ checks))
          ≡ (ok tt, t))
        × (t.conn ≡ talking sent [] sender_wire)
        × (summary : TransferSummary) × (u : FolderReceiver) × (receive_folder z sha256 config
              (λ info. accept)
              (receiving sent arrivals)
            ≡ (ok summary, u))
        × (u.conn.sent ≡ Message.ready ∷ checks)
        × InPlace z sha256 disk config transfer_id before s u.disk 0 s.files jobs
        × ((q : RelativePath)
            → All (λ p. p ≢ q) (places z sha256 disk config transfer_id before s 0 s.files jobs)
            → get u.disk q ≡ get before q)
  unfolding send receive_folder decide
  folder_arrives e s found duration_ms jobs r began filled small valid pos apart first_fits
        ready_fits check_fits last_fits =
      let checks = checksums z sha256 disk config transfer_id before s 0 s.files jobs in
      let (t, total, sent_all, line) = rest_sent s found duration_ms jobs check_fits last_fits in
      let first = Message.transfer_info (info s found duration_ms) in
      let items_valid : validate_files (info s found duration_ms).items ≡ ok tt =
        unfold transfer_info_of in valid in
      let last = complete_message transfer_id total duration_ms in
      let (summary, u, received, answered, there, same) =
        rest_received s found duration_ms jobs last
          (begin-Resumable transfer_id config found e.files e s refl r began) small pos apart
          ready_fits check_fits (last_fits total) in
      (
        t,
        first ∷ (checks ++ (last ∷ [])),
        rw
            (announced z sha256 disk config transfer_id found e s checks sender_wire began
              first_fits ready_fits)
            sent_all,
        line,
        summary,
        u,
        rw
            (
              recv_message-talking first [] (checks ++ (last ∷ [])) receiver_wire first_fits,
              items_there s.files s refl filled (resume_point transfer_id s),
              items_valid,
            )
            received,
        answered,
        there,
        same,
      )
