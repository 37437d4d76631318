-- ===== src/Discovery.antt =====
-- p2p-core/src/discovery.rs and network/udp.rs: the beacons on the local network and the table of the peers that were
-- heard. The tasks of the manager share the table under a lock, so what they do is a sequence of
-- events; the clock is an argument, and so are the socket's outcomes.
pub mod Alive
pub mod Known
pub mod Runs
use Prim.Native.String.{String}
use p2pfile_transfer.Common.{
  ℕ, ◌-◌, ◌≡◌, Bool, true, false, List, [], ◌∷◌, ◌++◌, Option, none, some, ◌&&◌, ◌==◌, leb, ltb,
  not, take, length, if◌then◌else◌,
}
use p2pfile_transfer.Common.Maps.{number_key, get, insert, retain}
use p2pfile_transfer.Errors.{
  Result, ok, err, panic, ◌>>=◌, protocol, serialization, version_mismatch,
}
use p2pfile_transfer.Effects.{M, and_then}
use p2pfile_transfer.Protocol.{Uuid, Digest, DiscoveryBeacon, protocol_version}
use p2pfile_transfer.Stun.{IpAddr, SocketAddr}

-- `rmp_serde`: a beacon that was encoded decodes to itself.
pub record BeaconCodec : Type 0 where
  pub to_vec : DiscoveryBeacon → Option (List ℕ)
  pub from_slice : List ℕ → Option DiscoveryBeacon
  pub from_slice-to_vec :
      (beacon : DiscoveryBeacon) (packet : List ℕ)
      → to_vec beacon ≡ some packet
      → from_slice packet ≡ some beacon

abbrev pub max_packet_size : ℕ
max_packet_size = 1500

pub record DiscoveryService : Type 0 where
  pub device_id : Uuid
  pub device_name : String
  pub transfer_port : ℕ
  pub cert_fingerprint : Digest

pub record PeerInfo : Type 0 where
  pub device_id : Uuid
  pub device_name : String
  pub address : IpAddr
  pub port : ℕ
  pub cert_fingerprint : Digest
  pub last_seen : ℕ

-- The table, by device id.
abbrev pub Peers : Type 0
Peers = List (Uuid × PeerInfo)

unfoldable pub create_beacon : DiscoveryService → DiscoveryBeacon
create_beacon service = record {
  version = protocol_version;
  device_id = service.device_id;
  device_name = service.device_name;
  port = service.transfer_port;
  cert_fingerprint = service.cert_fingerprint;
}

-- A clock that stands before the last sighting counts as a dead peer.
unfoldable pub is_alive : ℕ → ℕ → PeerInfo → Bool
is_alive now ttl p = leb p.last_seen now && ltb (now - p.last_seen) ttl

unfoldable pub update_last_seen : ℕ → PeerInfo → PeerInfo
update_last_seen now p = record p { last_seen = now }

unfoldable pub socket_addr : PeerInfo → SocketAddr
socket_addr p = record { ip = p.address; port = p.port }

-- `PeerInfo::from`
unfoldable pub of_beacon : DiscoveryBeacon → IpAddr → ℕ → PeerInfo
of_beacon beacon address now = record {
  device_id = beacon.device_id;
  device_name = beacon.device_name;
  address = address;
  port = beacon.port;
  cert_fingerprint = beacon.cert_fingerprint;
  last_seen = now;
}

-- The peer of a beacon is refreshed, or entered; a beacon of our own is ignored.
unfoldable pub noticed : Uuid → ℕ → DiscoveryBeacon → IpAddr → Peers → Peers
noticed ours now beacon ip peers =
    if beacon.device_id == ours then peers else elim (get peers beacon.device_id) [
      | some existing ↦ insert peers beacon.device_id (update_last_seen now existing)
      | none ↦ insert peers beacon.device_id (of_beacon beacon ip now)
    ]

-- The receiver's turn of its loop: an error is logged.
unfoldable pub on_beacon : Uuid → ℕ → Result (DiscoveryBeacon × SocketAddr) → Peers → Peers
on_beacon ours now (ok (beacon, src_addr)) peers = noticed ours now beacon src_addr.ip peers
on_beacon ours now (err e) peers = peers
on_beacon ours now panic peers = peers

-- The turn of the cleanup task.
unfoldable pub cleanup : ℕ → ℕ → Peers → Peers
cleanup ttl now peers = retain (is_alive now ttl) peers

unfoldable pub get_peer : Uuid → Peers → Option PeerInfo
get_peer device_id peers = get peers device_id

-- What happens to the table, each at its time: the socket's `recv_from` returns, or the cleanup's
-- ticker fires.
pub data Event : Type 0 where
  received : ℕ → Result (List ℕ × SocketAddr) → Event
  tick : ℕ → Event

abbrev pub time_of : Event → ℕ
time_of (received now came) = now
time_of (tick now) = now

compatible : DiscoveryBeacon × SocketAddr → Result (DiscoveryBeacon × SocketAddr)
compatible (beacon, src_addr) =
    if beacon.version == protocol_version
    then ok (beacon, src_addr)
    else err (version_mismatch beacon.version protocol_version)

decoded : Option DiscoveryBeacon → SocketAddr → Result (DiscoveryBeacon × SocketAddr)
decoded none src_addr = err protocol
decoded (some beacon) src_addr = ok (beacon, src_addr)

module _ (codec : BeaconCodec) where
  -- The datagrams sent so far, and the outcome of `send_to`.
  unfoldable pub broadcast_beacon :
      Result (Unit {0}) → DiscoveryService → M (List (List ℕ)) (Unit {0})
  broadcast_beacon send_to service sent = elim (codec.to_vec (create_beacon service)) [
    | none ↦ (err serialization, sent)
    | some packet ↦
        if ltb max_packet_size (length packet)
        then (err protocol, sent)
        else and_then (send_to, sent) (λ _. λ s. (ok tt, s ++ (packet ∷ [])))
  ]

  -- The buffer holds 1500 bytes of a datagram.
  unfoldable pub recv_beacon : Result (List ℕ × SocketAddr) → Result (DiscoveryBeacon × SocketAddr)
  unfolding decoded compatible
  recv_beacon came =
      came >>= (λ p. decoded (codec.from_slice (take max_packet_size p.0)) p.1) >>= compatible

  unfoldable pub step : ℕ → Uuid → Event → Peers → Peers
  step ttl ours (received now came) peers = on_beacon ours now (recv_beacon came) peers
  step ttl ours (tick now) peers = cleanup ttl now peers

  -- The table after some events, the latest first.
  unfoldable pub after : ℕ → Uuid → List Event → Peers
  after ttl ours [] = []
  after ttl ours (event ∷ earlier) = step ttl ours event (after ttl ours earlier)
