-- ===== src/Discovery/Known.antt =====
-- discovery.rs and network/udp.rs: where the entries of the table come from.
use p2pfile_transfer.Common.{
  ℕ, ◌≤◌, ◌≡◌, ◌≢◌, ◌⊎◌, ◌∙◌, sym, ap, refl, inl, inr, true, false, List, [], ◌∷◌, ◌++◌, none, some,
  ◌==◌, ltb, take, length, take_past, arith, Bool-cases, Option-cases,
}
use p2pfile_transfer.Common.Maps.{number_key, get, get-retain, get-insert-some, get-insert_same}
use p2pfile_transfer.Errors.{Result, ok, err, panic, ◌>>=◌, bind_inv}
use p2pfile_transfer.Effects.{and_then}
use p2pfile_transfer.Protocol.{Uuid, DiscoveryBeacon, protocol_version}
use p2pfile_transfer.Stun.{IpAddr, SocketAddr}
use p2pfile_transfer.Discovery.{
  BeaconCodec, DiscoveryService, PeerInfo, Peers, Event, received, tick, is_alive, update_last_seen,
  max_packet_size, create_beacon, of_beacon, noticed, on_beacon, cleanup, get_peer,
  broadcast_beacon, recv_beacon, step, after, compatible, decoded,
}

module _ (codec : BeaconCodec) (ours : Uuid) where
  compatible_version :
      (r : DiscoveryBeacon × SocketAddr) (beacon : DiscoveryBeacon) (src_addr : SocketAddr)
      → compatible r ≡ ok (beacon, src_addr)
      → beacon.version ≡ protocol_version
  unfolding compatible
  compatible_version (b, a) beacon src_addr e = elim (Bool-cases (b.version == protocol_version)) [
    | inl same ↦
        let eq : b ≡ beacon = ground (arith, same, e) in
        ground (arith, same, ap DiscoveryBeacon.version eq)
    | inr other ↦ let never : ⊥ = ground (arith, other, e) in absurd never
  ]

  -- The event is a beacon of the device, of our version, and the entry is what it says.
  abbrev pub Introduces : Uuid → PeerInfo → Event → Type 0
  Introduces d p (received now came) =
      (beacon : DiscoveryBeacon) × (src_addr : SocketAddr) × (recv_beacon codec came
        ≡ ok (beacon, src_addr))
      × (beacon.version ≡ protocol_version)
      × (beacon.device_id ≡ d)
      × (update_last_seen p.last_seen (of_beacon beacon src_addr.ip now) ≡ p)
  Introduces d p (tick now) = ⊥

  abbrev pub Introduced : Uuid → PeerInfo → List Event → Type 0
  Introduced d p [] = ⊥
  Introduced d p (event ∷ earlier) = Introduces d p event ⊎ Introduced d p earlier

  recv_beacon_version :
      (came : Result (List ℕ × SocketAddr)) (beacon : DiscoveryBeacon) (src_addr : SocketAddr)
      → recv_beacon codec came ≡ ok (beacon, src_addr)
      → beacon.version ≡ protocol_version
  unfolding recv_beacon
  recv_beacon_version came beacon src_addr e =
      let (r, _, checked) =
        bind_inv (came >>= (λ p. decoded (codec.from_slice (take max_packet_size p.0)) p.1))
          compatible (beacon, src_addr) e in
      compatible_version r beacon src_addr checked

  Introduced-refreshed :
      (d : Uuid) (p q : PeerInfo) (events : List Event)
      → update_last_seen q.last_seen p ≡ q
      → Introduced d p events
      → Introduced d q events
  unfolding update_last_seen
  Introduced-refreshed d p q [] e i = absurd i
  Introduced-refreshed d p q (received now came ∷ earlier) e (inl (b, a, r, v, same, told)) =
      inl (b, a, r, v, same, ap (update_last_seen q.last_seen) told ∙ e)
  Introduced-refreshed d p q (tick now ∷ earlier) e (inl i) = absurd i
  Introduced-refreshed d p q (event ∷ earlier) e (inr i) =
      inr (Introduced-refreshed d p q earlier e i)

  get-noticed :
      (now : ℕ) (beacon : DiscoveryBeacon) (ip : IpAddr) (peers : Peers) (d : Uuid) (p : PeerInfo)
      → get (noticed ours now beacon ip peers) d ≡ some p
      → ((q : PeerInfo) × (get peers d ≡ some q) × (update_last_seen p.last_seen q ≡ p))
        ⊎ ((beacon.device_id ≡ d) × (d ≢ ours) × (of_beacon beacon ip now ≡ p))
  unfolding noticed update_last_seen
  get-noticed now beacon ip peers d p e = elim (Bool-cases (beacon.device_id == ours)) [
    | inl own ↦ inl (p, ground (arith, own, e), refl)
    | inr foreign ↦ elim (Option-cases (get peers beacon.device_id)) [
      | inl new ↦
          elim (get-insert-some peers beacon.device_id d (of_beacon beacon ip now) p
            (ground (arith, foreign, new, e))) [
              | inl (same, told) ↦ inr (same, (λ eq. ground (arith, same, eq, foreign)), told)
              | inr (_, found) ↦ inl (p, found, refl)
            ]
      | inr (q, old) ↦
          elim (get-insert-some peers beacon.device_id d (update_last_seen now q) p
            (ground (arith, foreign, old, e))) [
              | inl (same, told) ↦
                  inl (q, sym (ap (get peers) same) ∙ old, ap (update_last_seen p.last_seen) told)
              | inr (_, found) ↦ inl (p, found, refl)
            ]
    ]
  ]

  Introduced-on_beacon :
      (now : ℕ) (came : Result (List ℕ × SocketAddr)) (r : Result (DiscoveryBeacon × SocketAddr))
      (peers : Peers) (earlier : List Event) (d : Uuid) (p : PeerInfo)
      → ((q : PeerInfo) → get peers d ≡ some q → (d ≢ ours) × Introduced d q earlier)
      → recv_beacon codec came ≡ r
      → get (on_beacon ours now r peers) d ≡ some p
      → (d ≢ ours) × Introduced d p (received now came ∷ earlier)
  unfolding on_beacon update_last_seen
  Introduced-on_beacon now came (ok (beacon, src_addr)) peers earlier d p h came_eq e =
      elim (get-noticed now beacon src_addr.ip peers d p e) [
        | inl (q, found, newer) ↦
            ((h q found).0, inr (Introduced-refreshed d q p earlier newer (h q found).1))
        | inr (same, d', told) ↦ (
          d',
          inl (
            beacon,
            src_addr,
            came_eq,
            recv_beacon_version came beacon src_addr came_eq,
            same,
            ap (update_last_seen p.last_seen) told,
          ),
        )
      ]
  Introduced-on_beacon now came (err x) peers earlier d p h came_eq e = ((h p e).0, inr (h p e).1)
  Introduced-on_beacon now came panic peers earlier d p h came_eq e = ((h p e).0, inr (h p e).1)

  -- What the table has under a device id is what a beacon from that device said, one that was received
  -- before: its name, port and fingerprint, and the address that the datagram came from; only the
  -- time of the last sighting may differ. The beacon has our version, and the id is not our own.
  pub get_peer-Introduced :
      (ttl : ℕ) (d : Uuid) (events : List Event) (p : PeerInfo)
      → get_peer d (after codec ttl ours events) ≡ some p
      → (d ≢ ours) × Introduced d p events
  unfolding get_peer after step get cleanup
  get_peer-Introduced ttl d [] p e = let never : ⊥ = cc in absurd never
  get_peer-Introduced ttl d (tick now ∷ earlier) p e =
      let (found, _) = get-retain (is_alive now ttl) (after codec ttl ours earlier) d p e in
      let (other, i) = get_peer-Introduced ttl d earlier p found in (other, inr i)
  get_peer-Introduced ttl d (received now came ∷ earlier) p e =
      Introduced-on_beacon now came (recv_beacon codec came) (after codec ttl ours earlier) earlier
        d p (get_peer-Introduced ttl d earlier) refl e

appended_one :
    (send_to : Result (Unit {0})) (sent sent' : List (List ℕ)) (packet : List ℕ)
    → and_then (send_to, sent) (λ _. λ s. (ok tt, s ++ (packet ∷ []))) ≡ (ok tt, sent')
    → sent' ≡ sent ++ (packet ∷ [])
appended_one (ok _) sent sent' packet e = cc
appended_one (err x) sent sent' packet e = cc
appended_one panic sent sent' packet e = cc

module _ (codec : BeaconCodec) where
  broadcast_beacon_inv :
      (send_to : Result (Unit {0})) (service : DiscoveryService) (sent sent' : List (List ℕ))
      → broadcast_beacon codec send_to service sent ≡ (ok tt, sent')
      → (packet : List ℕ) × (codec.to_vec (create_beacon service) ≡ some packet)
        × (length packet ≤ max_packet_size)
        × (sent' ≡ sent ++ (packet ∷ []))
  unfolding broadcast_beacon
  broadcast_beacon_inv send_to service sent sent' e =
      elim (Option-cases (codec.to_vec (create_beacon service))) [
        | inl nothing ↦ let never : ⊥ = ground (arith, nothing, e) in absurd never
        | inr (packet, enc) ↦ elim (Bool-cases (ltb max_packet_size (length packet))) [
          | inl large ↦ let never : ⊥ = ground (arith, enc, large, e) in absurd never
          | inr fits ↦ (
            packet,
            enc,
            ground (arith, fits),
            appended_one send_to sent sent' packet (ground (arith, enc, fits, e)),
          )
        ]
      ]

  recv_beacon-to_vec :
      (beacon : DiscoveryBeacon) (packet : List ℕ) (src_addr : SocketAddr)
      → codec.to_vec beacon ≡ some packet
      → length packet ≤ max_packet_size
      → beacon.version ≡ protocol_version
      → recv_beacon codec (ok (packet, src_addr)) ≡ ok (beacon, src_addr)
  unfolding recv_beacon decoded compatible
  recv_beacon-to_vec beacon packet src_addr enc fits ours =
      let same : (beacon.version == protocol_version) ≡ true = ground (arith, ours) in
      rw (take_past max_packet_size packet fits, codec.from_slice-to_vec beacon packet enc, same)
        refl

get-noticed_new :
    (ours now : ℕ) (beacon : DiscoveryBeacon) (ip : IpAddr) (peers : Peers)
    → beacon.device_id ≢ ours
    → get_peer beacon.device_id peers ≡ none
    → get_peer beacon.device_id (noticed ours now beacon ip peers) ≡ some (of_beacon beacon ip now)
unfolding noticed get_peer
get-noticed_new ours now beacon ip peers d new =
    let foreign : (beacon.device_id == ours) ≡ false = ground (arith, d) in
    rw (foreign, new) (get-insert_same peers beacon.device_id _)

-- A beacon that was broadcast enters its device into the table of another one that receives the
-- datagram and did not know it: under its device id, with its name, port and fingerprint, and with
-- the address that the datagram came from.
pub recv_beacon-broadcast_beacon :
    (codec : BeaconCodec) (send_to : Result (Unit {0})) (service : DiscoveryService)
    (sent sent' : List (List ℕ)) (ttl : ℕ) (ours : Uuid) (now : ℕ) (src_addr : SocketAddr)
    (peers : Peers)
    → broadcast_beacon codec send_to service sent ≡ (ok tt, sent')
    → service.device_id ≢ ours
    → get_peer service.device_id peers ≡ none
    → (packet : List ℕ) × (sent' ≡ sent ++ (packet ∷ []))
      × (recv_beacon codec (ok (packet, src_addr)) ≡ ok (create_beacon service, src_addr))
      × (get_peer service.device_id
            (step codec ttl ours (received now (ok (packet, src_addr))) peers)
          ≡ some (of_beacon (create_beacon service) src_addr.ip now))
unfolding step on_beacon create_beacon
recv_beacon-broadcast_beacon codec send_to service sent sent' ttl ours now src_addr peers e d new =
    let (packet, enc, fits, out) = broadcast_beacon_inv codec send_to service sent sent' e in
    let beacon = create_beacon service in
    let back = recv_beacon-to_vec codec beacon packet src_addr enc fits refl in
    (packet, out, back, rw back (get-noticed_new ours now beacon src_addr.ip peers d new))
