-- ===== src/Traversal/Race.antt =====
-- punch.rs: which event decides the race.
use p2pfile_transfer.Common.{
  ◌≡◌, ◌≢◌, ◌⊎◌, ap, refl, inl, inr, true, false, Bool-cases, List, [], ◌∷◌, ◌++◌, All,
}
use p2pfile_transfer.Errors.{Result, ok, err, panic, hole_punch_failed}
use p2pfile_transfer.Stun.{SocketAddr}
use p2pfile_transfer.Stun.Addresses.{same_addr→eq, same_addr_refl}
use p2pfile_transfer.Quic.{QuicConnection}
use p2pfile_transfer.Traversal.Punch.{
  RaceEvent, connected, accepted, elapsed, peer_matches, accept_from, race_connect_and_accept,
}

module _ (peer_addr : SocketAddr) where
  -- A connection that comes in from another address than the peer's.
  pub data Stranger : RaceEvent → Type 0 where
    stranger : (conn : QuicConnection) → conn.peer_addr ≢ peer_addr → Stranger (accepted (ok conn))

  -- The dial has come to an end, well or not; a connection has come in from the peer's address; no
  -- further one can come in; the time is up.
  pub data Decides : RaceEvent → Result QuicConnection → Type 0 where
    by_dial : (res : Result QuicConnection) → Decides (connected res) res
    by_accept :
        (conn : QuicConnection)
        → conn.peer_addr ≡ peer_addr
        → Decides (accepted (ok conn)) (ok conn)
    by_failure : (e : _) → Decides (accepted (err e)) (err e)
    by_panic : Decides (accepted panic) panic
    by_time : Decides elapsed (err hole_punch_failed)

  peer_matches→eq : (a : SocketAddr) → peer_matches a peer_addr ≡ true → a ≡ peer_addr
  unfolding peer_matches
  peer_matches→eq a e = same_addr→eq a peer_addr e

  peer_matches→neq : (a : SocketAddr) → peer_matches a peer_addr ≡ false → a ≢ peer_addr
  unfolding peer_matches
  peer_matches→neq a e same = let always = rw (same, same_addr_refl peer_addr) at e in cc

  -- Either only strangers come in until the time is up, or one event decides.
  abbrev pub Decided : List RaceEvent → Result QuicConnection → Type 0
  Decided events res =
      (All Stranger events × (res ≡ err hole_punch_failed))
      ⊎ ((before : List RaceEvent) × (event : RaceEvent) × (later : List RaceEvent) × (events
            ≡ before ++ (event ∷ later))
          × All Stranger before
          × Decides event res)

  after_stranger :
      (event : RaceEvent) (events : List RaceEvent) (res : Result QuicConnection)
      → Stranger event
      → Decided events res
      → Decided (event ∷ events) res
  after_stranger event events res s (inl (strangers, none_won)) = inl ((s, strangers), none_won)
  after_stranger event events res s (inr (before, decisive, later, split, strangers, d)) =
      inr (event ∷ before, decisive, later, ap (λ es. event ∷ es) split, (s, strangers), d)

  at_once :
      (event : RaceEvent) (events : List RaceEvent) (res : Result QuicConnection)
      → Decides event res
      → Decided (event ∷ events) res
  at_once event events res d = inr ([], event, events, refl, tt, d)

  -- The race always has a result, and that of the first event which is not a stranger's connection:
  -- the dial's result when it is the first to end, a failure too, although the peer might still come
  -- in; the connection that came in from exactly the expected address, IP and port, whatever certificate it has;
  -- the failure of an accept; or, when the time is up, a failed punch. Connections from other
  -- addresses change nothing, and where nothing else happens the punch has failed.
  pub race_connect_and_accept-Decided :
      (events : List RaceEvent) → Decided events (race_connect_and_accept peer_addr events)
  unfolding race_connect_and_accept accept_from
  race_connect_and_accept-Decided [] = inl (tt, refl)
  race_connect_and_accept-Decided (connected res ∷ later) = at_once _ later res (by_dial res)
  race_connect_and_accept-Decided (elapsed ∷ later) = at_once _ later _ by_time
  race_connect_and_accept-Decided (accepted (err e) ∷ later) = at_once _ later _ (by_failure e)
  race_connect_and_accept-Decided (accepted panic ∷ later) = at_once _ later _ by_panic
  race_connect_and_accept-Decided (accepted (ok conn) ∷ later) =
      elim (Bool-cases (peer_matches conn.peer_addr peer_addr)) [
        | inl same ↦
            rw same (at_once _ later _ (by_accept conn (peer_matches→eq conn.peer_addr same)))
        | inr other ↦ rw other (
            after_stranger _ later _ (stranger conn (peer_matches→neq conn.peer_addr other))
              (race_connect_and_accept-Decided later))
      ]
