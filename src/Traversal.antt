-- ===== src/Traversal.antt =====
-- p2p-core/src/traversal/mod.rs and stun.rs: how two peers behind NATs come to a connection. What the sockets and the
-- servers do is a record of their outcomes; the race is in Punch.
pub mod Punch
pub mod Race
pub mod Admission
pub mod Established
pub mod Codes
pub mod Sample
pub mod Hellos
pub mod Runs
use p2pfile_transfer.Common.{
  ℕ, zero, suc, ◌≡◌, ◌⊎◌, inl, inr, Bool, true, List, [], ◌∷◌, ◌++◌, Option, none, some, ◌==◌,
  if◌then◌else◌, get_elem?, replicate, bytes_eq,
}
use p2pfile_transfer.Errors.{Result, ok, err, panic, rendezvous}
use p2pfile_transfer.Effects.{M, and_then, ◌>>=◌, ◌>>◌, done, lift}
use p2pfile_transfer.Protocol.{Uuid, Digest}
use p2pfile_transfer.Stun.{SocketAddr, IpAddr, v4, v6}
use p2pfile_transfer.RendezvousProtocol.{RegisterRequest, protocol_version}
use p2pfile_transfer.RendezvousWire.{MessageCodec}
use p2pfile_transfer.RendezvousClient.{
  ClientError, PeerInfo, RelayInfo, MatchOutcome, direct, relay, Link, register_full,
}
use p2pfile_transfer.RelayHello.{RelayHello, encode}
use p2pfile_transfer.Quic.{QuicConnection}
use p2pfile_transfer.Traversal.Punch.{Happening, punch}

pub data NatClass : Type 0 where
  cone : SocketAddr → NatClass
  symmetric : NatClass

-- `classify_nat`, from the two answers.
unfoldable pub classify : SocketAddr → SocketAddr → NatClass
classify map_a map_b = if map_a.port == map_b.port then cone map_a else symmetric

pub record RendezvousParams : Type 0 where
  pub rendezvous_addr : SocketAddr
  pub code : List ℕ
  pub fingerprint : Digest
  pub device_id : Uuid
  pub force_relay : Bool

-- The address that the socket was bound to, the addresses that the two STUN servers were resolved to,
-- what a STUN query on the socket gives, the stream to the rendezvous server, whether a hello can be
-- sent, whether QUIC takes the socket over, and what happens on the socket when an address is dialled and
-- a fingerprint pinned. SHA-256 is a parameter.
pub record World : Type 0 where
  pub bound : Result SocketAddr
  pub stun_a : Result SocketAddr
  pub stun_b : Result SocketAddr
  pub query : SocketAddr → Result SocketAddr
  pub link : Link
  pub send_to : ℕ → Result (Unit {0})
  pub from_socket : Result (Unit {0})
  pub sha256 : List ℕ → Digest
  pub race : SocketAddr → Digest → List Happening

-- What was sent: bytes to the rendezvous server, datagrams to a relay.
pub record Traffic : Type 0 where
  pub to_server : List ℕ
  pub hellos : List (List ℕ × SocketAddr)

pub record EstablishedSession : Type 0 where
  pub connection : QuicConnection
  pub peer_endpoint : SocketAddr
  pub peer_fingerprint : Digest
  pub peer_device_id : Uuid

unfoldable pub is_loopback : IpAddr → Bool
is_loopback (v4 (b ∷ later)) = b == 127
is_loopback (v6 bytes) = bytes_eq bytes (replicate 15 0 ++ (1 ∷ []))
is_loopback _ = Bool.false

-- The `match` on the class.
registered_as : Bool → SocketAddr → NatClass → SocketAddr × Bool
registered_as force_relay own (cone addr) = (addr, force_relay)
registered_as force_relay own symmetric = (own, true)

unfoldable pub register_request : RendezvousParams → SocketAddr × Bool → RegisterRequest
register_request params (endpoint, want_relay) = record {
  protocol_version = protocol_version;
  code = params.code;
  public_endpoint = endpoint;
  cert_fingerprint = params.fingerprint;
  device_id = params.device_id;
  want_relay = want_relay;
}

-- The STUN queries, one after the other.
stunned : RendezvousParams → World → SocketAddr → M Traffic (SocketAddr × Bool)
unfolding registered_as
stunned params world own = do
  stun_a ← lift world.stun_a
  stun_b ← lift world.stun_b
  map_a ← lift (world.query stun_a)
  map_b ← lift (world.query stun_b)
  done (registered_as params.force_relay own (classify map_a map_b))

-- The public endpoint, and whether to ask for the relay.
unfoldable pub choose_endpoint :
    RendezvousParams → World → SocketAddr → M Traffic (SocketAddr × Bool)
unfolding stunned registered_as
choose_endpoint params world own t =
    if is_loopback params.rendezvous_addr.ip
    then (ok (own, params.force_relay), t)
    else stunned params world own t

rendezvous_outcome : (ClientError ⊎ MatchOutcome) × List ℕ → M Traffic MatchOutcome
rendezvous_outcome (inl e, bytes) t = (err rendezvous, record t { to_server = bytes })
rendezvous_outcome (inr outcome, bytes) t = (ok outcome, record t { to_server = bytes })

-- The loop that sends the hello.
unfoldable pub send_hellos : ℕ → List ℕ → SocketAddr → World → M Traffic (Unit {0})
send_hellos zero hello relay_endpoint world t = (ok tt, t)
send_hellos (suc n) hello relay_endpoint world t =
    and_then (world.send_to n, t)
      (λ _. λ t1.
        send_hellos n hello relay_endpoint world
          (record t1 { hellos = t1.hellos ++ ((hello, relay_endpoint) ∷ []) }))

-- QUIC takes the socket, and the punch.
unfoldable pub punched : World → SocketAddr → Digest → Uuid → M Traffic EstablishedSession
punched world peer_endpoint peer_fingerprint peer_device_id = do
  lift world.from_socket
  connection ← lift (
      punch world.sha256 peer_endpoint peer_fingerprint (world.race peer_endpoint peer_fingerprint))
  done (record {
    connection = connection;
    peer_endpoint = peer_endpoint;
    peer_fingerprint = peer_fingerprint;
    peer_device_id = peer_device_id;
  })

unfoldable pub establish_via_relay : Digest → World → RelayInfo → M Traffic EstablishedSession
establish_via_relay our_fp world info = do
  send_hellos 3 (encode (record { token = info.session_token; fingerprint = our_fp }))
      info.relay_endpoint world
  punched world info.relay_endpoint info.peer_fingerprint info.peer_device_id

unfoldable pub by_outcome : Digest → World → MatchOutcome → M Traffic EstablishedSession
by_outcome our_fp world (direct peer) = punched world peer.endpoint peer.fingerprint peer.device_id
by_outcome our_fp world (relay info) = establish_via_relay our_fp world info

unfoldable pub establish_via_rendezvous :
    MessageCodec → RendezvousParams → World → M Traffic EstablishedSession
unfolding rendezvous_outcome
establish_via_rendezvous codec params world = do
  own ← lift world.bound
  choice ← choose_endpoint params world own
  outcome ← rendezvous_outcome (register_full codec world.link (register_request params choice))
  by_outcome params.fingerprint world outcome

-- b"ABCDEFGHJKMNPQRSTVWXYZ23456789"
abbrev pub alphabet : List ℕ
alphabet =
    65 ∷ 66 ∷ 67 ∷ 68 ∷ 69 ∷ 70 ∷ 71 ∷ 72 ∷ 74 ∷ 75 ∷ 77 ∷ 78 ∷ 80 ∷ 81 ∷ 82 ∷ 83 ∷ 84 ∷ 86 ∷ 87
    ∷ 88 ∷ 89 ∷ 90 ∷ 50 ∷ 51 ∷ 52 ∷ 53 ∷ 54 ∷ 55 ∷ 56 ∷ 57 ∷ []

letter : Option ℕ → Result (List ℕ) → Result (List ℕ)
letter none later = panic
letter (some b) (ok code) = ok (b ∷ code)
letter (some b) (err e) = err e
letter (some b) panic = panic

-- The letters that the random numbers choose; an index out of range would panic.
unfoldable pub generate_code : List ℕ → Result (List ℕ)
unfolding letter
generate_code [] = ok []
generate_code (draw ∷ draws) = letter (get_elem? alphabet draw) (generate_code draws)
