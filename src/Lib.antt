-- ===== src/Lib.antt =====
-- The verification library of P2P File Transfer, a program that sends files and folders between two
-- computers over QUIC.
--
-- The program's parts and their files:
--
-- * p2p-core/src/transfer_file.rs sends one file as one stream per chunk. Transfer.antt has the chunk
--   arithmetic and the stream header; Transfer/Sender.antt has ChunkReader and send_file (new_sender,
--   send_chunk, send_chunks, send_file); Transfer/Disk.antt has ChunkWriter over the bytes of the
--   .partial file; Transfer/Receiver.antt has receive_file (receive_stream, receive_loop, finalize).
--   Transfer/Exchange.antt joins both ends.
-- * p2p-core/src/compression.rs is Compression.antt: AdaptiveCompressor::compress, which send_file calls.
-- * p2p-core/src/transfer_folder.rs is Folder.antt: FolderTransferState, which records what a folder
--   transfer has done, and sanitize_relative_path, through which each path of a peer goes; and
--   FileExchange.antt: send_single_file and receive_single_file, which run both ends of Transfer.antt
--   and compare checksums over the connection of Handshake.antt. FolderSession.antt is
--   FolderTransferSession: its child Source has scan_folder, Sending has send, and Receiving has
--   receive_folder over the files of the output directory.
-- * p2p-core/src/session.rs is Session.antt: P2PSession over a network whose dials and accepts have given
--   outcomes, with connect, accept, from_rendezvous, reconnect, reaccept and receive_to; its child
--   Sending has send_path, the loop of send, save and reconnect, and the state file.
-- * p2p-core/src/history.rs is History.antt (records, queries and append_record_locked) and
--   p2p-core/src/known_peers.rs is KnownPeers.antt (the store of trusted peers and its flush), both over
--   the disk of Files.antt, where any call may fail and a write may stop anywhere: what a failed call
--   leaves is also what a crash leaves.
-- * p2p-core/src/bandwidth.rs is Bandwidth.antt: BandwidthLimiter and its wait_for_tokens, which the
--   sender of Transfer.antt calls before a chunk; the model of the sender leaves that wait out.
-- * p2p-core/src/traversal/stun.rs is Stun.antt: the request, parse_binding_response and the loop of query.
--   p2p-core/src/traversal/mod.rs is Traversal.antt: classify_nat, establish_via_rendezvous and
--   generate_code; p2p-core/src/traversal/punch.rs is its child Punch, the race of the dial against the
--   accepts as a list of events. Its connections come from Quic.antt: QuicEndpoint::connect and accept of
--   p2p-core/src/network/quic.rs with the verifiers of p2p-core/src/tls.rs. The
--   session of Session.antt starts from what it establishes.
-- * p2p-core/src/discovery.rs and p2p-core/src/network/udp.rs are Discovery.antt: the beacons and the table of
--   peers, as a sequence of datagrams and cleanups.
-- * p2p-core/src/state.rs is State.antt: TransferState, the chunk bitmaps and file statuses of a
--   transfer, which no other part uses yet.
-- * p2p-core/src/handshake.rs is Handshake.antt: perform_handshake of both sides, with the calls of
--   QuicConnection in p2p-core/src/network/quic.rs that it uses, the limit of a frame included.
-- * p2p-core/src/network/framing.rs is Framing.antt: write_message and read_message, the bytes by which
--   the messages of Handshake.antt travel.
-- * p2p-core/src/protocol.rs is Protocol.antt, p2p-core/src/error.rs is Errors.antt.
-- * p2p-core/src/reconnect.rs is Reconnect.antt: backoff_delay, should_retry, retry_with_backoff.
-- * p2p-rendezvous/src/relay.rs is RelayHello.antt (the packet by which a peer joins) and Relay.antt
--   (RelayState and forward_step, a round of forward_loop with its rate limit).
-- * p2p-rendezvous/src/server.rs and p2p-rendezvous/src/protocol.rs are RendezvousProtocol.antt (messages and
--   checks) and Rendezvous.antt (handle_connection, cut into on_frame, on_register and resume, the
--   pieces between which other connections' tasks run; a deadline and the cleanup behind it are one
--   piece). Pairing with a relay reserves a session in the state of Relay.antt.
-- * p2p-rendezvous/src/lib.rs is RendezvousWire.antt, the frames on the stream to that server, and
--   p2p-rendezvous/src/client.rs is RendezvousClient.antt, register_full over them; Traversal.antt calls it.
--
-- Common.antt has lists, maps, byte strings and sets of numbers; Effects.antt has the calls that
-- change a state and may fail. Tests and the theorems at concrete inputs are in the modules Runs.
--
-- Conventions: numbers are natural numbers, and a sum or product that can exceed the machine's width
-- is taken modulo it, as in a release build. Bytes are numbers, files lists of bytes. A stream that
-- arrives is a byte list or the error of reading it; what a peer does is any list of those. The retry
-- loops of reconnect.rs and session.rs run on fuel, for which the number of allowed attempts is
-- enough, and so does the scan of a folder, with one round for each of its directories. The wait for
-- tokens runs on fuel too, and no fuel is enough for some requests. Every other loop is structural.
--
-- Parameters: SHA-256 (no law is assumed), zstd (what it encodes, it decodes), MessagePack and JSON
-- (likewise), and the floating-point operations of the compression ratio and of the rate limits.
--
-- Not modelled: QUIC and TLS beyond the check of a certificate (calls of libraries), the making and
-- the files of an identity; the failures of the file system other than a short read, but for
-- history.rs and known_peers.rs, where any call may fail, and for the calls that finish a received
-- file, whose outcomes are given; the failures of sockets, but for the control stream, the
-- traversal, the discovery and the rendezvous client, where their outcomes are given too; the parser
-- and the printer of bandwidths; logging and progress display; the start of the rendezvous server;
-- and the two front ends, which are argument parsing and views around the calls above.
pub mod Common
pub mod Errors
pub mod Protocol
pub mod Effects
pub mod Compression
pub mod Transfer
pub mod Reconnect
pub mod Files
pub mod Framing
pub mod RelayHello
pub mod Relay
pub mod Handshake
pub mod Folder
pub mod State
pub mod RendezvousProtocol
pub mod RendezvousWire
pub mod RendezvousClient
pub mod Quic
pub mod Traversal
pub mod Rendezvous
pub mod FileExchange
pub mod FolderSession
pub mod Session
pub mod History
pub mod KnownPeers
pub mod Bandwidth
pub mod Discovery
pub mod Stun
