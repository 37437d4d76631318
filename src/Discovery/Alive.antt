-- ===== src/Discovery/Alive.antt =====
-- discovery.rs: the table against the times at which beacons were heard.
use p2pfile_transfer.Common.{
  ℕ, ◌-◌, ◌≤◌, ◌≡◌, ◌≢◌, ◌∙◌, sym, ap, refl, inl, inr, true, false, List, [], ◌∷◌, Option, none,
  some, ◌&&◌, ◌==◌, leb, ltb, not, if◌then◌else◌, arith, Bool-cases, Option-cases,
}
use p2pfile_transfer.Common.Maps.{
  number_key, get, passing, get-retain-passing, get-insert_same, get-insert_other,
}
use p2pfile_transfer.Errors.{Result, ok, err, panic}
use p2pfile_transfer.Protocol.{Uuid, DiscoveryBeacon}
use p2pfile_transfer.Stun.{IpAddr, SocketAddr}
use p2pfile_transfer.Discovery.{
  BeaconCodec, PeerInfo, Peers, Event, received, tick, time_of, is_alive, update_last_seen,
  of_beacon, noticed, on_beacon, cleanup, recv_beacon, step, after,
}

-- A time less than `ttl` before `now`, or none.
unfoldable pub recent : ℕ → ℕ → Option ℕ → Option ℕ
recent ttl now o = passing (λ t. leb t now && ltb (now - t) ttl) o

abbrev pub sighting : Option PeerInfo → Option ℕ
sighting none = none
sighting (some p) = some p.last_seen

-- When the peer was last seen, as the table has it.
abbrev pub last_seen : Uuid → Peers → Option ℕ
last_seen d peers = sighting (get peers d)

-- A beacon of another device than ours counts.
abbrev pub heard_in : Uuid → Uuid → ℕ → Result (DiscoveryBeacon × SocketAddr) → Option ℕ → Option ℕ
heard_in ours d now (ok (beacon, src_addr)) earlier =
    if beacon.device_id == d && not (d == ours) then some now else earlier
heard_in ours d now (err e) earlier = earlier
heard_in ours d now panic earlier = earlier

-- The times of the events, the latest first, do not increase.
abbrev pub Before : ℕ → List Event → Type 0
Before now [] = Unit
Before now (event ∷ earlier) = (time_of event ≤ now) × Before (time_of event) earlier

Before-later : (s t : ℕ) (events : List Event) → s ≤ t → Before s events → Before t events
Before-later s t [] le b = tt
Before-later s t (event ∷ earlier) le b = (grind (arith, le, b.0), b.1)

module _ (ours d now : ℕ) where
  last_seen-noticed :
      (beacon : DiscoveryBeacon) (ip : IpAddr) (peers : Peers)
      → last_seen d (noticed ours now beacon ip peers)
        ≡ (if beacon.device_id == d && not (d == ours) then some now else last_seen d peers)
  unfolding noticed of_beacon update_last_seen
  last_seen-noticed beacon ip peers = elim (Bool-cases (beacon.device_id == ours)) [
    | inl own ↦
        let out : (beacon.device_id == d && not (d == ours)) ≡ false = ground (arith, own) in
        rw (own, out)
    | inr foreign ↦ elim (Bool-cases (beacon.device_id == d)) [
      | inl e ↦
          let eq : beacon.device_id ≡ d = ground (arith, e) in
          let counts : (beacon.device_id == d && not (d == ours)) ≡ true =
            ground (arith, foreign, e) in
          rw (foreign, counts)
            (elim (Option-cases (get peers beacon.device_id)) [
              | inl new ↦ rw (new, eq) (ap sighting (get-insert_same peers d _))
              | inr (p, old) ↦ rw (old, eq) (ap sighting (get-insert_same peers d _))
            ])
      | inr e ↦
          let d' : beacon.device_id ≢ d = λ eq. ground (arith, eq, e) in
          rw (foreign, e)
            (elim (Option-cases (get peers beacon.device_id)) [
              | inl new ↦ rw new (ap sighting (get-insert_other peers beacon.device_id d _ d'))
              | inr (p, old) ↦ rw old (ap sighting (get-insert_other peers beacon.device_id d _ d'))
            ])
    ]
  ]

  last_seen-on_beacon :
      (r : Result (DiscoveryBeacon × SocketAddr)) (peers : Peers)
      → last_seen d (on_beacon ours now r peers) ≡ heard_in ours d now r (last_seen d peers)
  unfolding on_beacon
  last_seen-on_beacon (ok (beacon, src_addr)) peers = last_seen-noticed beacon src_addr.ip peers
  last_seen-on_beacon (err e) peers = refl
  last_seen-on_beacon panic peers = refl

sighting-passing :
    (ttl now : ℕ) (o : Option PeerInfo)
    → sighting (passing (is_alive now ttl) o) ≡ recent ttl now (sighting o)
unfolding passing recent is_alive
sighting-passing ttl now none = refl
sighting-passing ttl now (some p) =
    elim (Bool-cases (leb p.last_seen now && ltb (now - p.last_seen) ttl)) [
      | inl e ↦ rw e refl
      | inr e ↦ rw e refl
    ]

last_seen-cleanup :
    (ttl now d : ℕ) (peers : Peers)
    → last_seen d (cleanup ttl now peers) ≡ recent ttl now (last_seen d peers)
unfolding cleanup
last_seen-cleanup ttl now d peers =
    ap sighting (get-retain-passing (is_alive now ttl) peers d)
    ∙ sighting-passing ttl now (get peers d)

recent_again :
    (ttl s t : ℕ) (o : Option ℕ)
    → s ≤ t
    → ((u : ℕ) → o ≡ some u → u ≤ s)
    → recent ttl t (recent ttl s o) ≡ recent ttl t o
unfolding recent passing
recent_again ttl s t none le h = refl
recent_again ttl s t (some u) le h = let early = h u refl in ground arith

recent-heard_in :
    (ttl ours d now t : ℕ) (r : Result (DiscoveryBeacon × SocketAddr)) (o o' : Option ℕ)
    → recent ttl t o ≡ recent ttl t o'
    → recent ttl t (heard_in ours d now r o) ≡ recent ttl t (heard_in ours d now r o')
recent-heard_in ttl ours d now t (ok (beacon, src_addr)) o o' e =
    elim (Bool-cases (beacon.device_id == d && not (d == ours))) [
      | inl c ↦ rw c refl
      | inr c ↦ rw c e
    ]
recent-heard_in ttl ours d now t (err x) o o' e = e
recent-heard_in ttl ours d now t panic o o' e = e

heard_in_early :
    (ours d now : ℕ) (r : Result (DiscoveryBeacon × SocketAddr)) (o : Option ℕ)
    → ((u : ℕ) → o ≡ some u → u ≤ now)
    → (u : ℕ) → heard_in ours d now r o ≡ some u
    → u ≤ now
heard_in_early ours d now (ok (beacon, src_addr)) o h u e =
    elim (Bool-cases (beacon.device_id == d && not (d == ours))) [
      | inl c ↦ ground (arith, c, e)
      | inr c ↦ h u (ground (arith, c, e))
    ]
heard_in_early ours d now (err x) o h u e = h u e
heard_in_early ours d now panic o h u e = h u e

recent_early : (ttl now : ℕ) (o : Option ℕ) (u : ℕ) → recent ttl now o ≡ some u → u ≤ now
unfolding recent passing
recent_early ttl now none u e = cc
recent_early ttl now (some v) u e = ground arith

module _ (codec : BeaconCodec) (ours d : ℕ) where
  -- When the peer was last heard, forgetting nothing.
  unfoldable pub heard : List Event → Option ℕ
  heard [] = none
  heard (received now came ∷ earlier) = heard_in ours d now (recv_beacon codec came) (heard earlier)
  heard (tick now ∷ earlier) = heard earlier

  last_seen_early :
      (ttl now : ℕ) (events : List Event)
      → Before now events
      → (u : ℕ) → last_seen d (after codec ttl ours events) ≡ some u
      → u ≤ now
  unfolding after step get
  last_seen_early ttl now [] b u e = let never : ⊥ = cc in absurd never
  last_seen_early ttl now (received t came ∷ earlier) b u e =
      let r = recv_beacon codec came in
      let peers = after codec ttl ours earlier in
      let early =
        heard_in_early ours d t r (last_seen d peers) (last_seen_early ttl t earlier b.1) u
          (sym (last_seen-on_beacon ours d t r peers) ∙ e) in
      grind (arith, early, b.0)
  last_seen_early ttl now (tick t ∷ earlier) b u e =
      let peers = after codec ttl ours earlier in
      let early =
        recent_early ttl t (last_seen d peers) u (sym (last_seen-cleanup ttl t d peers) ∙ e) in
      grind (arith, early, b.0)

  last_seen-heard :
      (ttl now : ℕ) (events : List Event)
      → Before now events
      → recent ttl now (last_seen d (after codec ttl ours events)) ≡ recent ttl now (heard events)
  unfolding after step heard get
  last_seen-heard ttl now [] b = refl
  last_seen-heard ttl now (received t came ∷ earlier) b =
      let r = recv_beacon codec came in
      let peers = after codec ttl ours earlier in
      ap (recent ttl now) (last_seen-on_beacon ours d t r peers)
      ∙ recent-heard_in ttl ours d t now r (last_seen d peers) (heard earlier)
          (last_seen-heard ttl now earlier (Before-later t now earlier b.0 b.1))
  last_seen-heard ttl now (tick t ∷ earlier) b =
      let peers = after codec ttl ours earlier in
      ap (recent ttl now) (last_seen-cleanup ttl t d peers)
      ∙ recent_again ttl t now (last_seen d peers) b.0 (last_seen_early ttl t earlier b.1)
      ∙ last_seen-heard ttl now earlier (Before-later t now earlier b.0 b.1)

  -- Right after a cleanup, and whatever came before it in the order of time, beacons that did not
  -- arrive or did not decode and other cleanups included, the table lists a peer exactly if a
  -- beacon of its was heard less than `ttl` ago, and then with the time of the latest one; it never
  -- lists this device itself.
  pub after-tick :
      (ttl now : ℕ) (events : List Event)
      → Before now events
      → last_seen d (after codec ttl ours (tick now ∷ events)) ≡ recent ttl now (heard events)
  unfolding after step
  after-tick ttl now events b =
      last_seen-cleanup ttl now d (after codec ttl ours events) ∙ last_seen-heard ttl now events b
