-- ===== src/FileExchange/Delivery.antt =====
-- transfer_folder.rs: both ends of one file, from the first chunk to the compared checksums.
use p2pfile_transfer.Common.{
  ℕ, ◌-◌, ◌≤◌, ◌≡◌, Bool, true, List, [], ◌∷◌, some, arith, All, map, length, ◌==◌, bytes_eq_refl,
}
use p2pfile_transfer.Errors.{Result, ok}
use p2pfile_transfer.Protocol.{Uuid, Digest, ConfigMessage}
use p2pfile_transfer.Compression.{Zstd}
use p2pfile_transfer.Handshake.Agreement.{
  Wire, Fits, conn, over, send_message-conn, recv_message-midway,
}
use p2pfile_transfer.Transfer.{max_chunk_stream_bytes}
use p2pfile_transfer.Transfer.Sender.{ChunkReader, Sender, send_file, new_sender}
use p2pfile_transfer.Transfer.Receiver.{Receiver, new_receiver, well, receive_file}
use p2pfile_transfer.Transfer.Exchange.{Prepared, Delivers, sent_file_arrives}
use p2pfile_transfer.FileExchange.{checksum_message, send_single_file, receive_single_file}

module _ (z : Zstd) (sha256 : List ℕ → Digest) (transfer_id : Uuid) (file_index : ℕ) (wire : Wire)
    (d : Digest) (fits : Fits wire.to_vec (checksum_message transfer_id file_index d)) where
  sender_agrees :
      (completed : List ℕ) (s0 s : Sender)
      → send_file z sha256 completed s0 ≡ (ok d, s)
      → send_single_file z sha256 transfer_id file_index completed
          (conn (checksum_message transfer_id file_index d ∷ []) wire, s0)
        ≡ (ok tt, (over (checksum_message transfer_id file_index d ∷ []) wire, s))
  unfolding send_single_file
  sender_agrees completed s0 s run =
      let m = checksum_message transfer_id file_index d in
      rw (run, send_message-conn m m wire fits, recv_message-midway m m wire fits, bytes_eq_refl d)

  receiver_agrees :
      (config : ConfigMessage) (n wanted : ℕ) (arrivals : List (Result (List ℕ))) (r0 r : Receiver)
      → receive_file z config sha256 n wanted arrivals r0 ≡ (ok d, r)
      → receive_single_file z sha256 transfer_id file_index config n wanted arrivals
          (conn (checksum_message transfer_id file_index d ∷ []) wire, r0)
        ≡ (ok tt, (over (checksum_message transfer_id file_index d ∷ []) wire, r))
  unfolding receive_single_file
  receiver_agrees config n wanted arrivals r0 r run =
      let m = checksum_message transfer_id file_index d in
      let index : (file_index == file_index) ≡ true = ground arith in
      rw (
        run,
        send_message-conn m m wire fits,
        recv_message-midway m m wire fits,
        index,
        bytes_eq_refl d,
      )

module _ (z : Zstd) (sha256 : List ℕ → Digest) (config : ConfigMessage) (file : List ℕ)
    (transfer_id : Uuid) (file_index : ℕ) where
  -- Let the chunks of a file be sent and delivered (in any order, with repeats; the chunks `completed`
  -- were there before), and let a checksum message fit a frame and the receiver's calls on the finished file work. Then both ends send the same checksum message, each of them succeeds on
  -- receiving the other's, and the receiver has exactly the sender's file.
  pub single_file_arrives :
      (reader : ChunkReader) (completed leftover : List ℕ) (link : List Bool)
      (arrivals : List (List ℕ)) (d : Digest) (sender_wire receiver_wire : Wire) (s : Sender)
      → Fits sender_wire.to_vec (checksum_message transfer_id file_index d)
      → Fits receiver_wire.to_vec (checksum_message transfer_id file_index d)
      → Prepared z sha256 config file reader completed leftover
      → send_file z sha256 completed (new_sender reader config link) ≡ (ok d, s)
      → All (λ raw. length raw ≤ max_chunk_stream_bytes) s.streams
      → Delivers s.streams arrivals
      → (send_single_file z sha256 transfer_id file_index completed (
        conn (checksum_message transfer_id file_index d ∷ []) sender_wire,
        new_sender reader config link,
      )
          ≡ (ok tt, (over (checksum_message transfer_id file_index d ∷ []) sender_wire, s)))
        × (r : Receiver) × (receive_single_file z sha256 transfer_id file_index config
              reader.total_chunks
              (reader.total_chunks - length completed)
              (map ok arrivals)
              (
                conn (checksum_message transfer_id file_index d ∷ []) receiver_wire,
                new_receiver well config leftover,
              )
            ≡ (ok tt, (over (checksum_message transfer_id file_index d ∷ []) receiver_wire, r)))
        × (r.finished ≡ some file)
  single_file_arrives reader completed leftover link arrivals d sender_wire receiver_wire s out back
        p run limit delivery =
      let (hashed, r, received, whole) =
        sent_file_arrives z sha256 config file reader completed leftover link arrivals d s p run
          limit delivery in
      (
        sender_agrees z sha256 transfer_id file_index sender_wire d out completed
            (new_sender reader config link) s run,
        r,
        receiver_agrees z sha256 transfer_id file_index receiver_wire d back config
            reader.total_chunks (reader.total_chunks - length completed) (map ok arrivals)
            (new_receiver well config leftover) r received,
        whole,
      )
