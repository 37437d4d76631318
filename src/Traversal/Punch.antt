-- ===== src/Traversal/Punch.antt =====
-- traversal/punch.rs: the race of the dial against the accepts, both over one socket. What comes to pass is a list of
-- events in the order of time: the dial completes, a connection comes in, the time is up.
use p2pfile_transfer.Common.{ℕ, Bool, List, [], ◌∷◌, if◌then◌else◌, map}
use p2pfile_transfer.Errors.{Result, ok, err, panic, hole_punch_failed}
use p2pfile_transfer.Protocol.{Digest}
use p2pfile_transfer.Quic.{QuicConnection, Answer, Incoming, connect, accept}
use p2pfile_transfer.Stun.{SocketAddr, same_addr}

-- A happening on the socket: the dialled peer answers, a client comes in, the time is up.
pub data Happening : Type 0 where
  answered : Result Answer → Happening
  came_in : Result Incoming → Happening
  time_up : Happening

pub data RaceEvent : Type 0 where
  connected : Result QuicConnection → RaceEvent
  accepted : Result QuicConnection → RaceEvent
  elapsed : RaceEvent

unfoldable pub peer_matches : SocketAddr → SocketAddr → Bool
peer_matches observed expected = same_addr observed expected

-- A turn of the loop of `accept_from`: another peer's connection is dropped.
unfoldable pub accept_from :
    SocketAddr → Result QuicConnection → Result QuicConnection → Result QuicConnection
accept_from expected (ok conn) later =
    if peer_matches conn.peer_addr expected then ok conn else later
accept_from expected (err e) later = err e
accept_from expected panic later = panic

-- Behind the last event the time elapses.
unfoldable pub race_connect_and_accept : SocketAddr → List RaceEvent → Result QuicConnection
race_connect_and_accept peer_addr [] = err hole_punch_failed
race_connect_and_accept peer_addr (connected res ∷ later) = res
race_connect_and_accept peer_addr (accepted came ∷ later) =
    accept_from peer_addr came (race_connect_and_accept peer_addr later)
race_connect_and_accept peer_addr (elapsed ∷ later) = err hole_punch_failed

-- What QUIC makes of a happening, with the peer that is dialled.
unfoldable pub event_of : (List ℕ → Digest) → SocketAddr → Digest → Happening → RaceEvent
event_of sha256 addr fp (answered answer) = connected (connect sha256 addr fp answer)
event_of sha256 addr fp (came_in came) = accepted (accept sha256 came)
event_of sha256 addr fp time_up = elapsed

-- The endpoint's part of the race.
unfoldable pub punch :
    (List ℕ → Digest) → SocketAddr → Digest → List Happening → Result QuicConnection
punch sha256 addr fp happenings =
    race_connect_and_accept addr (map (event_of sha256 addr fp) happenings)
