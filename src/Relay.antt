-- ===== src/Relay.antt =====
-- p2p-rendezvous/src/relay.rs: the session table and the forwarding loop. A socket
-- address is a number, a point in time a number of nanoseconds. Tokens and fingerprints are byte
-- lists. The arithmetic of the token bucket (f64) is a parameter; logging is left out.
pub mod Sessions
pub mod Joining
pub mod Traffic
pub mod Limit
pub mod Runs
use p2pfile_transfer.Common.{
  ℕ, suc, ◌+◌, ◌-◌, ◌*◌, ◌%◌, ◌^◌, ◌≡◌, Bool, true, false, List, [], ◌∷◌, ◌++◌, Option, none, some,
  ltb, leb, ◌==◌, ◌||◌, ◌&&◌, not, bytes_eq, if◌then◌else◌, length, take, drop,
}
use p2pfile_transfer.RelayHello.{RelayHello, try_decode}
use p2pfile_transfer.Common.Maps.{Key, number_key, bytes_key, get, insert, remove, keys}

abbrev pub Addr : Type 0
Addr = ℕ

abbrev pub Instant : Type 0
Instant = ℕ

-- 120 seconds.
abbrev pub session_idle_timeout : ℕ
session_idle_timeout = 120 * 1000000000

pub record PeerState : Type 0 where
  pub addr : Addr
  pub fingerprint : List ℕ

pub record Session : Type 0 where
  pub peer_a : Option PeerState
  pub peer_b : Option PeerState
  pub created_at : Instant
  pub last_active : Instant
  pub peer_a_expected_fp : List ℕ
  pub peer_b_expected_fp : List ℕ

pub record RelayState : Type 0 where
  pub sessions : List (List ℕ × Session)
  pub addr_to_token : List (Addr × List ℕ)
  pub bytes_forwarded : ℕ

abbrev pub empty_relay : RelayState
empty_relay = record { sessions = []; addr_to_token = []; bytes_forwarded = 0 }

-- `none` is `RelayError::DuplicateFingerprint`.
unfoldable pub reserve : List ℕ → List ℕ → List ℕ → Instant → RelayState → Option RelayState
reserve token peer_a_fp peer_b_fp now s =
    if bytes_eq peer_a_fp peer_b_fp
    then none
    else some (record s {
      sessions = insert s.sessions token (record {
        peer_a = none;
        peer_b = none;
        created_at = now;
        last_active = now;
        peer_a_expected_fp = peer_a_fp;
        peer_b_expected_fp = peer_b_fp;
      });
    })

unfoldable pub drop_addr : Option PeerState → List (Addr × List ℕ) → List (Addr × List ℕ)
drop_addr none index = index
drop_addr (some peer) index = remove index peer.addr

unfoldable pub forget : List ℕ → RelayState → RelayState
forget token s = elim (get s.sessions token) [
  | none ↦ s
  | some session ↦ record s {
    sessions = remove s.sessions token;
    addr_to_token = drop_addr session.peer_b (drop_addr session.peer_a s.addr_to_token);
  }
]

abbrev pub is_none : {A : Type 0} → Option A → Bool
is_none none = true
is_none (some a) = false

-- The clock is monotonic; `duration_since` saturates at zero.
unfoldable pub is_stale : Instant → Session → Bool
is_stale now session =
    if is_none session.peer_a || is_none session.peer_b
    then ltb session_idle_timeout (now - session.created_at)
    else ltb session_idle_timeout (now - session.last_active)

stale_at : Instant → RelayState → List ℕ → Bool
unfolding is_stale
stale_at now s token = elim (get s.sessions token) [
  | none ↦ false
  | some session ↦ is_stale now session
]

stale_among : Instant → RelayState → List (List ℕ) → List (List ℕ)
stale_among now s [] = []
stale_among now s (token ∷ tokens) =
    let rest = stale_among now s tokens in if stale_at now s token then token ∷ rest else rest

forget_all : List (List ℕ) → RelayState → RelayState
forget_all [] s = s
forget_all (token ∷ tokens) s = forget_all tokens (forget token s)

unfoldable pub evict_idle : Instant → RelayState → RelayState
unfolding stale_at stale_among forget_all
evict_idle now s = forget_all (stale_among now s (keys s.sessions)) s

-- Where a session sends a datagram of `src` on to.
unfoldable pub partner : Addr → Session → Option Addr
partner src session = elim session.peer_a [
  | none ↦ none
  | some a ↦ elim session.peer_b [
    | none ↦ none
    | some b ↦ if src == a.addr then some b.addr else if src == b.addr then some a.addr else none
  ]
]

-- The slot that the hello's fingerprint is registered for, if it is free. `none` drops the packet.
unfoldable pub assign_slot : RelayHello → Addr → Session → Option Session
assign_slot hello src session =
    let peer : PeerState = record { addr = src; fingerprint = hello.fingerprint } in
    if bytes_eq hello.fingerprint session.peer_a_expected_fp
    then (if is_none session.peer_a then some (record session { peer_a = some peer }) else none)
    else if bytes_eq hello.fingerprint session.peer_b_expected_fp
    then (if is_none session.peer_b then some (record session { peer_b = some peer }) else none)
    else none

-- A datagram that the loop sends: where to, and what.
abbrev pub Sending : Type 0
Sending = Option (Addr × List ℕ)

-- A datagram of an address that has joined the session of `token`.
unfoldable pub forward : List ℕ → List ℕ → Addr → Instant → RelayState → Sending × RelayState
forward token packet src now s = elim (get s.sessions token) [
  | none ↦ (none, s)
  | some session ↦
      let touched : RelayState = record s {
        sessions = insert s.sessions token (record session { last_active = now });
      } in
      elim (partner src session) [
        | none ↦ (none, touched)
        | some dest ↦ (
          some (dest, packet),
          record touched { bytes_forwarded = (s.bytes_forwarded + length packet) % 2 ^ 64 },
        )
      ]
]

-- A hello of an address that has not joined: a refused one leaves the session as it was.
unfoldable pub join : RelayHello → Addr → Instant → RelayState → RelayState
join hello src now s = elim (get s.sessions hello.token) [
  | none ↦ s
  | some session ↦ elim (assign_slot hello src session) [
    | none ↦ s
    | some joined ↦ record s {
      sessions = insert s.sessions hello.token (record joined { last_active = now });
      addr_to_token = insert s.addr_to_token src hello.token;
    }
  ]
]

-- The part of the loop's body behind the rate limit.
unfoldable pub route : List ℕ → Addr → Instant → RelayState → Sending × RelayState
route packet src now s = elim (get s.addr_to_token src) [
  | some token ↦ forward token packet src now s
  | none ↦ elim (try_decode packet) [ none ↦ (none, s) | some hello ↦ (none, join hello src now s) ]
]

-- The f64 operations that the rate limit uses.
pub record F64 : Type 1 where
  pub Float : Type 0
  pub of_ℕ : ℕ → Float
  pub as_secs : ℕ → Float
  pub half : Float → Float
  pub plus : Float → Float → Float
  pub times : Float → Float → Float
  pub minus : Float → Float → Float
  pub minimum : Float → Float → Float
  pub greater : Float → Float → Bool

module _ (f : F64) (bandwidth_cap_bps : ℕ) where
  pub record ForwardLoop : Type 0 where
    pub relay : RelayState
    pub bucket_tokens : f.Float
    pub bucket_last : Instant

  topped_up : Instant → ForwardLoop → f.Float
  topped_up now l =
      f.minimum
        (f.plus l.bucket_tokens
          (f.times (f.as_secs (now - l.bucket_last)) (f.of_ℕ bandwidth_cap_bps)))
        (f.half (f.of_ℕ bandwidth_cap_bps))

  routed : List ℕ → Addr → Instant → ForwardLoop → Sending × ForwardLoop
  routed packet src now l =
      let (sending, relay) = route packet src now l.relay in (sending, record l { relay = relay })

  -- One round of `forward_loop`, for a datagram that was received; the clock is read at `arrived`
  -- for the bucket and at `now` for the session.
  unfoldable pub forward_step :
      List ℕ → Addr → Instant → Instant → ForwardLoop → Sending × ForwardLoop
  unfolding topped_up routed
  forward_step packet src arrived now l =
      if ltb 0 bandwidth_cap_bps
      then (let tokens = topped_up arrived l in
          if f.greater (f.of_ℕ (length packet)) tokens
          then (none, record l { bucket_tokens = tokens; bucket_last = arrived })
          else routed packet src now (record l {
            bucket_tokens = f.minus tokens (f.of_ℕ (length packet));
            bucket_last = arrived;
          }))
      else routed packet src now l
