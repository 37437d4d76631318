-- ===== src/Session.antt =====
-- p2p-core/src/session.rs: `P2PSession`, an authenticated connection and what it takes to bring it back.
-- An endpoint's calls of QUIC are the outcomes of a network to come; the rendezvous is one of them.
pub mod Sending
pub mod Runs
pub mod Pairing
pub mod Authentic
use p2pfile_transfer.Common.{
  ℕ, Bool, List, [], ◌∷◌, ◌++◌, Option, none, some, ltb, bytes_eq, if◌then◌else◌,
}
use p2pfile_transfer.Errors.{Error, Result, ok, err, panic, protocol, quic}
use p2pfile_transfer.Effects.{M, and_then, ◌>>=◌, ◌>>◌, done, lift}
use p2pfile_transfer.Protocol.{Uuid, Digest, ConfigMessage, TransferInfo}
use p2pfile_transfer.Stun.{SocketAddr}
use p2pfile_transfer.Handshake.{Conn, Side, HandshakeResult, client_handshake, server_handshake}
use p2pfile_transfer.Compression.{Zstd}
use p2pfile_transfer.Transfer.Receiver.{Closing}
use p2pfile_transfer.FolderSession.Receiving.{
  FolderReceiver, TransferSummary, AcceptDecision, RelativePath, receive_folder,
}

-- `QuicConnection`: its control stream, and which of the chunk streams opened on it will succeed.
pub record Connection : Type 0 where
  pub conn : Conn
  pub link : List Bool

-- `side` is the identity and the device id.
pub record P2PSession : Type 0 where
  pub connection : Connection
  pub side : Side
  pub session_id : Uuid
  pub handshake : HandshakeResult
  pub initiator_target : Option (SocketAddr × Digest)

-- What the binds, connects and accepts to come lead to, and whom this end has dialled. Behind the end
-- of a list every attempt fails.
pub record Network : Type 0 where
  pub dials : List (Result Connection)
  pub accepts : List (Result Connection)
  pub dialled : List (SocketAddr × Digest)

pub record Live : Type 0 where
  pub session : P2PSession
  pub network : Network

first : List (Result Connection) → Result Connection
first [] = err quic
first (r ∷ later) = r

rest : List (Result Connection) → List (Result Connection)
rest [] = []
rest (r ∷ later) = later

-- A dial that reaches an end with another certificate than the pinned one fails, as `verify_server_cert`
-- of Quic.antt has it.
certified_as : Digest → Connection → Option Digest → Result Connection
certified_as fingerprint c none = err quic
certified_as fingerprint c (some presented) =
    if bytes_eq presented fingerprint then ok c else err quic

pinned_to : Digest → Result Connection → Result Connection
unfolding certified_as
pinned_to fingerprint (ok c) = certified_as fingerprint c c.conn.peer_fingerprint
pinned_to fingerprint (err e) = err e
pinned_to fingerprint panic = panic

-- `QuicEndpoint::bind` and `QuicEndpoint::connect`, which pins the fingerprint.
unfoldable pub dial : SocketAddr × Digest → M Network Connection
unfolding first rest pinned_to
dial target n = (
  pinned_to target.1 (first n.dials),
  record n { dials = rest n.dials; dialled = n.dialled ++ (target ∷ []) },
)

unfoldable pub accept_next : M Network Connection
unfolding first rest
accept_next n = (first n.accepts, record n { accepts = rest n.accepts })

-- A handshake over a connection; the connection of a failed one is dropped.
shaken_over : Connection → Result HandshakeResult × Conn → Result (HandshakeResult × Connection)
shaken_over connection (ok h, c) = ok (h, record connection { conn = c })
shaken_over connection (err e, c) = err e
shaken_over connection (panic, c) = panic

shake_hands : M Conn HandshakeResult → Connection → Result (HandshakeResult × Connection)
unfolding shaken_over
shake_hands handshake connection = shaken_over connection (handshake connection.conn)

-- `P2PSession::connect`. The session id is a new one.
unfoldable pub connect : SocketAddr × Digest → Side → ConfigMessage → Uuid → M Network P2PSession
unfolding shake_hands
connect target side config session_id = do
  connection ← dial target
  shaken ← lift (shake_hands (client_handshake side config) connection)
  done (record {
    connection = shaken.1;
    side = side;
    session_id = session_id;
    handshake = shaken.0;
    initiator_target = some target;
  })

-- `P2PSession::accept`
unfoldable pub accept : Side → Uuid → M Network P2PSession
unfolding shake_hands
accept side session_id = do
  connection ← accept_next
  shaken ← lift (shake_hands (server_handshake side) connection)
  done (record {
    connection = shaken.1;
    side = side;
    session_id = session_id;
    handshake = shaken.0;
    initiator_target = none;
  })

unfoldable pub shake_by_role :
    Side → ConfigMessage → Connection × Uuid → Result (HandshakeResult × Connection)
unfolding shake_hands
shake_by_role side config (connection, peer_device_id) =
    if ltb side.device_id peer_device_id
    then shake_hands (client_handshake side config) connection
    else shake_hands (server_handshake side) connection

paired : Side → Uuid → Result (HandshakeResult × Connection) → Result P2PSession
paired side session_id (ok (h, connection)) = ok (record {
  connection = connection;
  side = side;
  session_id = session_id;
  handshake = h;
  initiator_target = none;
})
paired side session_id (err e) = err e
paired side session_id panic = panic

-- `P2PSession::from_rendezvous`: what the rendezvous and the hole punch established is a connection
-- and the peer's device id. The smaller device id initiates.
unfoldable pub from_rendezvous :
    Result (Connection × Uuid) → Side → ConfigMessage → Uuid → Result P2PSession
unfolding paired
from_rendezvous (ok established) side config session_id =
    paired side session_id (shake_by_role side config established)
from_rendezvous (err e) side config session_id = err e
from_rendezvous panic side config session_id = panic

abbrev pub on_network : {A : Type 0} → M Network A → M Live A
on_network m l = ((m l.network).0, record l { network = (m l.network).1 })

renewed : HandshakeResult × Connection → M Live (Unit {0})
renewed shaken l =
    (ok tt, record l { session = record l.session { connection = shaken.1; handshake = shaken.0 } })

-- The configuration that was agreed on is offered again.
reconnect_to : SocketAddr × Digest → M Live (Unit {0})
unfolding shake_hands renewed
reconnect_to target l = and_then (on_network (dial target) l) (λ connection. do
  shaken ←
      lift (shake_hands (client_handshake l.session.side l.session.handshake.config) connection)
  renewed shaken)

reconnect_at : Option (SocketAddr × Digest) → M Live (Unit {0})
unfolding reconnect_to
reconnect_at none l = (err protocol, l)
reconnect_at (some target) l = reconnect_to target l

-- `P2PSession::reconnect`
unfoldable pub reconnect : M Live (Unit {0})
unfolding reconnect_at
reconnect l = reconnect_at l.session.initiator_target l

-- `P2PSession::reaccept`
unfoldable pub reaccept : M Live (Unit {0})
unfolding shake_hands renewed
reaccept l = elim (l.session.initiator_target) [
  | some target ↦ (err protocol, l)
  | none ↦ and_then (on_network accept_next l) (λ connection. do
    shaken ← lift (shake_hands (server_handshake l.session.side) connection)
    renewed shaken)
]

-- `P2PSession::receive_to`. `made` tells how creating the output directory went; below it stand the
-- files of `disk`, and `arrivals` are the chunk streams to come and
-- `closing` how the calls on a file go when it is finished.
unfoldable pub receive_to :
    Zstd
    → (List ℕ → Digest)
    → Result (Unit {0})
    → (TransferInfo → AcceptDecision)
    → List (RelativePath × List ℕ)
    → List (Result (List ℕ))
    → (ℕ → Closing)
    → P2PSession
    → Result TransferSummary × (FolderReceiver × P2PSession)
receive_to z sha256 made accept_decision disk arrivals closing s =
    let start : FolderReceiver = record {
      conn = s.connection.conn;
      disk = disk;
      arrivals = arrivals;
      closing = closing;
    } in
    elim made [
      | err e ↦ (err e, (start, s))
      | panic ↦ (panic, (start, s))
      | ok _ ↦
          let r = receive_folder z sha256 s.handshake.config accept_decision start in
          (r.0, (r.1, record s { connection = record s.connection { conn = r.1.conn } }))
    ]
