-- ===== src/Discovery/Runs.antt =====
-- discovery.rs and network/udp.rs: runs, and the theorems at their events.
use Prim.Native.String.{String}
use p2pfile_transfer.Common.{ℕ, ◌≡◌, ◌≢◌, refl, List, [], ◌∷◌, Option, none, some, arith}
use p2pfile_transfer.Common.Maps.{get, insert, retain, passing}
use p2pfile_transfer.Errors.{ok, err, version_mismatch}
use p2pfile_transfer.Protocol.{DiscoveryBeacon}
use p2pfile_transfer.Stun.{SocketAddr, v4}
use p2pfile_transfer.Discovery.{
  BeaconCodec, DiscoveryService, PeerInfo, Event, received, tick, create_beacon, of_beacon,
  get_peer, broadcast_beacon, recv_beacon, step, after, on_beacon, noticed, cleanup, is_alive,
  update_last_seen,
}
use p2pfile_transfer.Discovery.Alive.{Before, last_seen, recent, heard, after-tick}
use p2pfile_transfer.Discovery.Known.{Introduced, get_peer-Introduced, recv_beacon-broadcast_beacon}

-- A codec for the beacons of devices without a name.
abbrev encode : ℕ → ℕ → String → ℕ → List ℕ → Option (List ℕ)
encode version device_id String.[] port fp = some (version ∷ device_id ∷ port ∷ fp)
encode version device_id (String.◌∷◌ c name) port fp = none

abbrev decode : List ℕ → Option DiscoveryBeacon
decode (version ∷ device_id ∷ port ∷ fp) = some (record {
  version = version;
  device_id = device_id;
  device_name = String.[];
  port = port;
  cert_fingerprint = fp;
})
decode _ = none

decode-encode :
    (version device_id : ℕ) (name : String) (port : ℕ) (fp packet : List ℕ)
    → encode version device_id name port fp ≡ some packet
    → decode packet
      ≡ some (record {
        version = version;
        device_id = device_id;
        device_name = name;
        port = port;
        cert_fingerprint = fp;
      })
decode-encode version device_id String.[] port fp packet e = ground (arith, e)
decode-encode version device_id (String.◌∷◌ c name) port fp packet e = cc

abbrev codec : BeaconCodec
codec = record {
  to_vec = λ b. encode b.version b.device_id b.device_name b.port b.cert_fingerprint;
  from_slice = decode;
  from_slice-to_vec =
      λ b. decode-encode b.version b.device_id b.device_name b.port b.cert_fingerprint;
}

abbrev service : DiscoveryService
service = record {
  device_id = 7;
  device_name = String.[];
  transfer_port = 14568;
  cert_fingerprint = 1 ∷ 2 ∷ [];
}

abbrev lan : ℕ → SocketAddr
lan host = record { ip = v4 (192 ∷ 168 ∷ 0 ∷ host ∷ []); port = 14567 }

abbrev packet : List ℕ
packet = 3 ∷ 7 ∷ 14568 ∷ 1 ∷ 2 ∷ []

sent : broadcast_beacon codec (ok tt) service [] ≡ (ok tt, packet ∷ [])
unfolding broadcast_beacon create_beacon
sent = refl

nobody : get_peer 7 [] ≡ none
unfolding get_peer get
nobody = refl

other_version : recv_beacon codec (ok (2 ∷ 7 ∷ 1 ∷ [], lan 5)) ≡ err (version_mismatch 2 3)
unfolding recv_beacon
other_version = refl

-- The device beacons from one address, then from another, and then no more; a packet of another
-- version arrives as well.
abbrev events : List Event
events =
    received 14 (ok (2 ∷ 8 ∷ 1 ∷ [], lan 9))
    ∷ received 12 (ok (packet, lan 6))
    ∷ tick 10
    ∷ received 8 (ok (packet, lan 5))
    ∷ []

-- The entry is refreshed and keeps the first address.
abbrev entry : PeerInfo
entry = record {
  device_id = 7;
  device_name = String.[];
  address = (lan 5).ip;
  port = 14568;
  cert_fingerprint = 1 ∷ 2 ∷ [];
  last_seen = 12;
}

refreshed : get_peer 7 (after codec 10 1 events) ≡ some entry
unfolding get_peer after get step on_beacon recv_beacon noticed cleanup retain insert is_alive
    of_beacon update_last_seen
refreshed = refl

get_peer-Introduced_example : (service.device_id ≢ 1) × Introduced codec 1 7 entry events
get_peer-Introduced_example = get_peer-Introduced codec 1 10 7 events entry refreshed

ordered : Before 15 events
ordered = (ground arith, (ground arith, (ground arith, (ground arith, tt))))

after-tick_example :
    last_seen 7 (after codec 10 1 (tick 15 ∷ events)) ≡ recent 10 15 (heard codec 1 7 events)
after-tick_example = after-tick codec 1 7 10 15 events ordered

gone : recent 10 22 (heard codec 1 7 events) ≡ none
unfolding recent heard recv_beacon passing
gone = refl

there : recent 10 15 (heard codec 1 7 events) ≡ some 12
unfolding recent heard recv_beacon passing
there = refl

recv_beacon-broadcast_beacon_example :
    (p : List ℕ) × ((packet ∷ []) ≡ (p ∷ []))
    × (recv_beacon codec (ok (p, lan 5)) ≡ ok (create_beacon service, lan 5))
    × (get_peer 7 (step codec 10 1 (received 8 (ok (p, lan 5))) [])
        ≡ some (of_beacon (create_beacon service) (lan 5).ip 8))
recv_beacon-broadcast_beacon_example =
    recv_beacon-broadcast_beacon codec (ok tt) service [] (packet ∷ []) 10 1 8 (lan 5) [] sent
      (ground arith) nobody
