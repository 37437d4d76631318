-- ===== src/Session/Runs.antt =====
-- session.rs: a send that is interrupted and picked up again, and the theorems at concrete inputs.
use p2pfile_transfer.Common.{
  ℕ, ◌≡◌, refl, true, List, [], ◌∷◌, ◌++◌, Option, some, none, arith, bytes_eq, All,
}
use p2pfile_transfer.Common.Counting.{contains}
use p2pfile_transfer.Common.Maps.{get, insert, remove}
use p2pfile_transfer.Common.Bytes.{to_le_bytes}
use p2pfile_transfer.Errors.{Result, ok, err, network, protocol, is_recoverable}
use p2pfile_transfer.Protocol.{Digest, Message}
use p2pfile_transfer.Compression
use p2pfile_transfer.Compression.{compress}
use p2pfile_transfer.Stun.{SocketAddr, v4}
use p2pfile_transfer.Handshake.{Side, send_message, recv_message, client_handshake}
use p2pfile_transfer.Handshake.Agreement.{Fits, from_client, from_server, learned}
use p2pfile_transfer.FileExchange.{checksum_message, send_single_file}
use p2pfile_transfer.Folder.{
  FolderTransferState, new, get_completed_chunks, next_file, mark_chunk_complete,
  mark_file_complete, total_size, size_at,
}
use p2pfile_transfer.Transfer.{chunk_count, chunk_stream}
use p2pfile_transfer.Transfer.Sender.{
  open_file, new_sender, new_compressor, send_file, send_chunks, send_chunk, read_chunk, fold_chunk,
  send_chunk_stream,
}
use p2pfile_transfer.Transfer.Runs.{toy_zstd, config, file}
use p2pfile_transfer.FolderSession.{resume_point, transfer_info_of, complete_message}
use p2pfile_transfer.FolderSession.Runs.{sha256, disk, files, short}
use p2pfile_transfer.FolderSession.Receiving.{TransferSummary}
use p2pfile_transfer.FolderSession.Sending.{
  folder, nameless, send, announce, begin, send_all, send_files, send_next, named_point,
  await_ready, path_at, mark_all, finish_file,
}
use p2pfile_transfer.Reconnect.{with_max_attempts, should_retry, backoff_delay}
use p2pfile_transfer.Session.{Connection, Live, dial, reconnect, from_rendezvous}
use p2pfile_transfer.Session.Authentic.{Reconnected, reconnect-Reconnected}
use p2pfile_transfer.Session.Pairing.{fresh_connection, session_with, from_rendezvous_pairs}
use p2pfile_transfer.Session.Sending.{
  World, StateFile, Ended, send_path, send_loop, run, load_from_file, sender_of, after_send,
  save_to_file, resume_live, remove_file, id_of, summary_of,
}
use p2pfile_transfer.Session.Sending.Ending.{IsEnded}
use p2pfile_transfer.Session.Sending.Outcome.{send_path-IsEnded}
use p2pfile_transfer.Session.Sending.Kept.{Kept, smooth, send_path-Kept}

abbrev us : Side
us = record { device_id = 1; fingerprint = 7 ∷ [] }

abbrev them : Side
them = record { device_id = 2; fingerprint = 8 ∷ [] }

abbrev target : SocketAddr × Digest
target = (record { ip = v4 (5 ∷ []); port = 6 }, 8 ∷ [])

-- Nothing can be sent over the first connection; the second has a handshake and a transfer coming.
abbrev broken : Connection
broken = record {
  conn = record {
    to_vec = (short (8 ∷ [])).to_vec;
    incoming = [];
    sent = [];
    link = err network ∷ [];
    peer_fingerprint = some (8 ∷ []);
  };
  link = [];
}

abbrev working : Connection
working =
    fresh_connection
      (from_server them
        ++ (Message.ready ∷ checksum_message 9 0 (7 ∷ []) ∷ checksum_message 9 1 file ∷ []))
      (short (8 ∷ []))

abbrev interrupted : Live
interrupted = record {
  session = record {
    connection = broken;
    side = us;
    session_id = 4;
    handshake = learned them config;
    initiator_target = some target;
  };
  network = record { dials = ok working ∷ []; accepts = []; dialled = target ∷ [] };
}

abbrev world : World
world = record { live = interrupted; file = smooth none }

reconnect-Reconnected_example : Reconnected interrupted (reconnect interrupted)
reconnect-Reconnected_example = reconnect-Reconnected interrupted

all_fit : (messages : List Message) → All (Fits (short []).to_vec) messages
all_fit [] = tt
all_fit (m ∷ messages) = ((0 ∷ [], refl, omega arith), all_fit messages)

from_rendezvous_pairs_example :
    (from_rendezvous
        (ok (fresh_connection (from_server them) (short them.fingerprint), them.device_id))
        us
        config
        3
      ≡ ok (session_with (short []).to_vec us them config 3 (from_client us config)))
    × (from_rendezvous
          (ok (fresh_connection (from_client us config) (short us.fingerprint), us.device_id))
          them
          config
          4
        ≡ ok (session_with (short []).to_vec them us config 4 (from_server them)))
from_rendezvous_pairs_example =
    from_rendezvous_pairs (short []).to_vec us them config config 3 4 (omega arith)
      (all_fit (from_client us config)) (all_fit (from_server them))

send_path-IsEnded_example :
    (r : Ended) × (send_path toy_zstd sha256
        (λ attempt. disk)
        (λ attempt. folder "d" (ok files))
        (λ attempt. 3)
        (with_max_attempts 3)
        true
        8
        9
        3
        world
      ≡ some r)
    × IsEnded
        (run toy_zstd sha256
          (λ attempt. disk)
          (λ attempt. folder "d" (ok files))
          (λ attempt. 3)
          (with_max_attempts 3)
          (id_of 9 (load_from_file (new 8 "" [] config) world.file)))
        3
        r
send_path-IsEnded_example =
    send_path-IsEnded toy_zstd sha256 (λ attempt. disk) (λ attempt. folder "d" (ok files))
      (λ attempt. 3) (with_max_attempts 3) 3 refl (omega arith) 8 9 world (omega arith) tt
      (refl, tt)

-- A path without a file name fails at once, and its state is left in the state file.
abbrev empty : FolderTransferState
empty = new 8 "" [] config

abbrev nameless_ended : Ended
nameless_ended = record {
  result = err protocol;
  state = empty;
  world = record { live = interrupted; file = smooth (some (ok empty)) };
  sends = 1;
  slept = [];
}

nameless_fails :
    send_path toy_zstd sha256
      (λ attempt. disk)
      (λ attempt. nameless)
      (λ attempt. 3)
      (with_max_attempts 3)
      true
      8
      9
      3
      world
    ≡ some nameless_ended
unfolding send_path send_loop run send announce begin load_from_file sender_of after_send
    save_to_file new is_recoverable
nameless_fails = refl

send_path-Kept_example : Kept empty (smooth (some (ok empty))) (err protocol)
send_path-Kept_example =
    send_path-Kept toy_zstd sha256 (λ attempt. disk) (λ attempt. nameless) (λ attempt. 3)
      (with_max_attempts 3) 8 9 3 world nameless_ended none refl nameless_fails

abbrev number_of_sends : Option Ended → ℕ × List ℕ × Option (List (SocketAddr × Digest))
number_of_sends none = (0, [], none)
number_of_sends (some r) = (r.sends, r.slept, some r.world.live.network.dialled)

abbrev result_of : Option Ended → Option (Result TransferSummary × Option StateFile)
result_of none = none
result_of (some r) = some (r.result, r.world.file)

-- The first send fails on the broken connection; the session waits, dials its target, and the second
-- send completes the transfer.
interrupted_send_completes :
    let ended =
      send_path toy_zstd sha256
        (λ attempt. disk)
        (λ attempt. folder "d" (ok files))
        (λ attempt. 3)
        (with_max_attempts 3)
        true
        8
        9
        3
        world in
    (number_of_sends ended ≡ (2, 3 ∷ [], some (target ∷ target ∷ [])))
    × (result_of ended
        ≡ some (
          ok (record { root_name = some "d"; files = "d/a.partial" ∷ "d/a" ∷ []; bytes = 6 }),
          smooth none,
        ))
unfolding send_path send_loop run send announce begin load_from_file sender_of after_send
    save_to_file new is_recoverable resume_live remove_file id_of summary_of should_retry
    backoff_delay reconnect dial client_handshake send_message recv_message bytes_eq send_all
    send_files send_next named_point await_ready get_completed_chunks get insert send_single_file
    open_file chunk_count new_sender new_compressor send_file send_chunks send_chunk read_chunk
    fold_chunk send_chunk_stream contains chunk_stream to_le_bytes compress Compression.new path_at
    mark_all mark_chunk_complete mark_file_complete next_file finish_file total_size size_at
    transfer_info_of resume_point complete_message remove
interrupted_send_completes = (refl, refl)
