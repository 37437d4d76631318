-- ===== src/FileExchange/Runs.antt =====
-- transfer_folder.rs: the theorems on one file at concrete inputs.
use p2pfile_transfer.Common.{ℕ, ◌≡◌, refl, ap, arith, List, [], ◌∷◌, some, map}
use p2pfile_transfer.Errors.{Result, ok}
use p2pfile_transfer.Protocol.{Digest, Message}
use p2pfile_transfer.Handshake.{Conn}
use p2pfile_transfer.Handshake.Agreement.{Wire, conn, over}
use p2pfile_transfer.Transfer.Sender.{new_sender}
use p2pfile_transfer.Transfer.Receiver.{Receiver, new_receiver, well}
use p2pfile_transfer.Transfer.Runs.{
  toy_zstd, config, file, reader, leftover, arrivals, run, prepared, run_ok, streams_fit, delivered,
}
use p2pfile_transfer.FileExchange.{checksum_message, send_single_file, receive_single_file}
use p2pfile_transfer.FileExchange.Agreement.{Agreed, receive_single_file-Agreed}
use p2pfile_transfer.FileExchange.Delivery.{single_file_arrives}

abbrev sha256 : List ℕ → Digest
sha256 bytes = bytes

abbrev short : Digest → Wire
short seen = record { to_vec = λ m. some (0 ∷ []); seen = seen }

abbrev message : Message
message = checksum_message 9 0 file

single_file_arrives_example :
    (send_single_file toy_zstd sha256 9 0
        (1 ∷ [])
        (conn (message ∷ []) (short (4 ∷ [])), new_sender reader config [])
      ≡ (ok tt, (over (message ∷ []) (short (4 ∷ [])), run.1)))
    × (r : Receiver) × (receive_single_file toy_zstd sha256 9 0 config 3 2
          (map ok arrivals)
          (conn (message ∷ []) (short (5 ∷ [])), new_receiver well config leftover)
        ≡ (ok tt, (over (message ∷ []) (short (5 ∷ [])), r)))
    × (r.finished ≡ some file)
single_file_arrives_example =
    single_file_arrives toy_zstd sha256 config file 9 0 reader (1 ∷ []) leftover [] arrivals file
      (short (4 ∷ [])) (short (5 ∷ [])) run.1 (0 ∷ [], refl, omega arith)
      (0 ∷ [], refl, omega arith) prepared run_ok streams_fit delivered

abbrev received : Result (Unit {0}) × (Conn × Receiver)
received =
    receive_single_file toy_zstd sha256 9 0 config 3 2 (map ok arrivals)
      (conn (message ∷ []) (short (5 ∷ [])), new_receiver well config leftover)

received_ok : received ≡ (ok tt, (received.1.0, received.1.1))
received_ok =
    ap (λ x. (x, received.1))
      (ap (λ x. x.0)
        (single_file_arrives toy_zstd sha256 config file 9 0 reader (1 ∷ []) leftover [] arrivals
          file (short (4 ∷ [])) (short (5 ∷ [])) run.1 (0 ∷ [], refl, omega arith)
          (0 ∷ [], refl, omega arith) prepared run_ok streams_fit delivered).2)

receive_single_file-Agreed_example :
    Agreed toy_zstd sha256 9 0 config
      (conn (message ∷ []) (short (5 ∷ [])))
      received.1.0
      received.1.1
receive_single_file-Agreed_example =
    receive_single_file-Agreed toy_zstd sha256 9 0 config 3 2 (map ok arrivals) well leftover
      (conn (message ∷ []) (short (5 ∷ []))) received.1.0 received.1.1 received_ok
