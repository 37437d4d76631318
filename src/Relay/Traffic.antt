-- ===== src/Relay/Traffic.antt =====
-- relay.rs: the states that a relay reaches, and what it forwards in them.
use p2pfile_transfer.Common.{
  ℕ, ◌≡◌, ◌≢◌, refl, sym, ap, ◌∙◌, ◌⊎◌, inl, inr, true, false, List, Option, some, none, arith,
  ◌==◌, Bool-cases, Option-cases, subst, length, ◌+◌, ◌%◌, ◌^◌,
}
use p2pfile_transfer.Common.Maps.{number_key, bytes_key, get, insert}
use p2pfile_transfer.RelayHello.{try_decode}
use p2pfile_transfer.Relay.{
  Addr, Instant, PeerState, Session, RelayState, empty_relay, reserve, evict_idle, partner, forward,
  route,
}
use p2pfile_transfer.Relay.Sessions.{At, Holds, Presents, WellFormed, WellFormed-reserve}
use p2pfile_transfer.Relay.Joining.{WellFormed-route, WellFormed-evict_idle}

-- The states of a relay that started empty; tokens are drawn fresh.
pub data Reaches : RelayState → Type 0 where
  start : Reaches empty_relay
  reserved :
      {s s' : RelayState} (token a_fp b_fp : List ℕ) (now : Instant)
      → get s.sessions token ≡ none
      → reserve token a_fp b_fp now s ≡ some s'
      → Reaches s
      → Reaches s'
  received :
      {s : RelayState} (packet : List ℕ) (src : Addr) (now : Instant)
      → Reaches s
      → Reaches (route packet src now s).1
  swept : {s : RelayState} (now : Instant) → Reaches s → Reaches (evict_idle now s)

WellFormed-empty : WellFormed empty_relay
unfolding get
WellFormed-empty = record {
  indexed = λ addr token e. absurd (let never : ⊥ = cc in never);
  listed = λ token session addr e. absurd (let never : ⊥ = cc in never);
  fitting = λ token session e. absurd (let never : ⊥ = cc in never);
}

-- In every state that a relay reaches from the empty one by reserving fresh tokens, by datagrams
-- (any bytes, from any address) and by sweeps, the address index has exactly the joined peers of the
-- sessions, and no peer is in a session whose fingerprint it did not present.
pub Reaches-WellFormed : (s : RelayState) → Reaches s → WellFormed s
Reaches-WellFormed _ start = WellFormed-empty
Reaches-WellFormed _ (reserved {s} {s'} token a_fp b_fp now fresh e r) =
    WellFormed-reserve s (Reaches-WellFormed s r) token a_fp b_fp now s' fresh e
Reaches-WellFormed _ (received {s} packet src now r) =
    WellFormed-route s (Reaches-WellFormed s r) packet src now
Reaches-WellFormed _ (swept {s} now r) = WellFormed-evict_idle now s (Reaches-WellFormed s r)

-- Two peers of one session, each with the fingerprint of its slot.
pub record Paired (s : RelayState) (src dest : Addr) : Type 0 where
  pub token : List ℕ
  pub session : Session
  pub a : PeerState
  pub b : PeerState
  pub in_table : get s.sessions token ≡ some session
  pub slot_a : session.peer_a ≡ some a
  pub slot_b : session.peer_b ≡ some b
  pub presents_a : a.fingerprint ≡ session.peer_a_expected_fp
  pub presents_b : b.fingerprint ≡ session.peer_b_expected_fp
  pub differ : session.peer_a_expected_fp ≢ session.peer_b_expected_fp
  pub ends : ((src ≡ a.addr) × (dest ≡ b.addr)) ⊎ ((src ≡ b.addr) × (dest ≡ a.addr))

partner-ends :
    (src dest : Addr) (session : Session)
    → partner src session ≡ some dest
    → (a b : PeerState) × (session.peer_a ≡ some a)
      × (session.peer_b ≡ some b)
      × (((src ≡ a.addr) × (dest ≡ b.addr)) ⊎ ((src ≡ b.addr) × (dest ≡ a.addr)))
unfolding partner
partner-ends src dest session e = elim (Option-cases session.peer_a) [
  | inl no_a ↦ let never : ⊥ = ground (arith, no_a, e) in absurd never
  | inr (a, has_a) ↦ elim (Option-cases session.peer_b) [
    | inl no_b ↦ let never : ⊥ = ground (arith, has_a, no_b, e) in absurd never
    | inr (b, has_b) ↦ elim (Bool-cases (src == a.addr)) [
      | inl is_a ↦
          (a, b, has_a, has_b, inl (ground (arith, is_a), ground (arith, has_a, has_b, is_a, e)))
      | inr not_a ↦ elim (Bool-cases (src == b.addr)) [
        | inl is_b ↦ (
          a,
          b,
          has_a,
          has_b,
          inr (ground (arith, is_b), ground (arith, has_a, has_b, not_a, is_b, e)),
        )
        | inr not_b ↦ let never : ⊥ = ground (arith, has_a, has_b, not_a, not_b, e) in absurd never
      ]
    ]
  ]
]

module _ (s : RelayState) (w : WellFormed s) (packet : List ℕ) (src : Addr) (now : Instant)
    (dest : Addr) (bytes : List ℕ) where
  Presents-some :
      (o : Option PeerState) (p : PeerState) (fp : List ℕ)
      → o ≡ some p
      → Presents o fp
      → p.fingerprint ≡ fp
  Presents-some o p fp e h = subst (λ q. Presents q fp) e h

  computed :
      (token : List ℕ) (session : Session) (d : Addr)
      → get s.sessions token ≡ some session
      → partner src session ≡ some d
      → forward token packet src now s ≡ (
        some (d, packet),
        record s {
          sessions = insert s.sessions token (record session { last_active = now });
          bytes_forwarded = (s.bytes_forwarded + length packet) % 2 ^ 64;
        },
      )
  unfolding forward
  computed token session d known there = rw (forward, known, there)

  forward-Paired :
      (token : List ℕ) (s' : RelayState)
      → forward token packet src now s ≡ (some (dest, bytes), s')
      → (bytes ≡ packet)
        × Paired s src dest
        × (s'.bytes_forwarded ≡ (s.bytes_forwarded + length packet) % 2 ^ 64)
  unfolding forward
  forward-Paired token s' e = elim (Option-cases (get s.sessions token)) [
    | inl absent ↦ let never : ⊥ = ground (arith, absent, e) in absurd never
    | inr (session, known) ↦ elim (Option-cases (partner src session)) [
      | inl nowhere ↦ let never : ⊥ = ground (arith, known, nowhere, e) in absurd never
      | inr (d, there) ↦
          let (a, b, has_a, has_b, ends) = partner-ends src d session there in
          let f = w.fitting token session known in
          let sent : d ≡ dest = ground (arith, known, there, e) in
          (
            ground (arith, known, there, e),
            record {
              token = token;
              session = session;
              a = a;
              b = b;
              in_table = known;
              slot_a = has_a;
              slot_b = has_b;
              presents_a =
                  Presents-some session.peer_a a session.peer_a_expected_fp has_a f.a_known;
              presents_b =
                  Presents-some session.peer_b b session.peer_b_expected_fp has_b f.b_known;
              differ = f.distinct_fp;
              ends =
                  subst (λ x. ((src ≡ a.addr) × (x ≡ b.addr)) ⊎ ((src ≡ b.addr) × (x ≡ a.addr)))
                    sent ends;
            },
            sym (ap (λ x. x.1.bytes_forwarded) (sym (computed token session d known there) ∙ e)),
          )
    ]
  ]

  route-Paired :
      (s' : RelayState)
      → route packet src now s ≡ (some (dest, bytes), s')
      → (bytes ≡ packet)
        × Paired s src dest
        × (s'.bytes_forwarded ≡ (s.bytes_forwarded + length packet) % 2 ^ 64)
  unfolding route
  route-Paired s' e = elim (Option-cases (get s.addr_to_token src)) [
    | inl stranger ↦ elim (Option-cases (try_decode packet)) [
      | inl junk ↦ let never : ⊥ = ground (arith, stranger, junk, e) in absurd never
      | inr (hello, parsed) ↦ let never : ⊥ = ground (arith, stranger, parsed, e) in absurd never
    ]
    | inr (token, member) ↦ forward-Paired token s' (ground (arith, member, e))
  ]

-- Whatever a relay in a reachable state sends, it is the datagram it has just received, unchanged, and it goes
-- from one joined peer of a session to the other, each of which presented the fingerprint that the
-- session was reserved for; the two fingerprints differ. The byte counter grows by its length.
pub route_forwards :
    (s : RelayState) (packet : List ℕ) (src : Addr) (now : Instant) (dest : Addr) (bytes : List ℕ)
    (s' : RelayState)
    → Reaches s
    → route packet src now s ≡ (some (dest, bytes), s')
    → (bytes ≡ packet)
      × Paired s src dest
      × (s'.bytes_forwarded ≡ (s.bytes_forwarded + length packet) % 2 ^ 64)
route_forwards s packet src now dest bytes s' r =
    route-Paired s (Reaches-WellFormed s r) packet src now dest bytes s'

ends-partner :
    (src dest : Addr) (session : Session) (a b : PeerState)
    → session.peer_a ≡ some a
    → session.peer_b ≡ some b
    → (a.addr ≡ b.addr → ⊥)
    → ((src ≡ a.addr) × (dest ≡ b.addr)) ⊎ ((src ≡ b.addr) × (dest ≡ a.addr))
    → partner src session ≡ some dest
unfolding partner
ends-partner src dest session a b has_a has_b apart (inl (x, y)) =
    rw (has_a, has_b, x, y) (ground arith)
ends-partner src dest session a b has_a has_b apart (inr (x, y)) =
    let other : (b.addr == a.addr) ≡ false = ground (arith, apart) in
    let same : (b.addr == b.addr) ≡ true = ground arith in rw (has_a, has_b, x, y, other, same)

-- Between the two joined peers of a session of a reachable relay every datagram of either is sent on
-- to the other, also one that happens to look like a hello.
pub route_delivers :
    (s : RelayState) (packet : List ℕ) (src dest : Addr) (now : Instant)
    → Reaches s
    → Paired s src dest
    → (route packet src now s).0 ≡ some (dest, packet)
unfolding route
route_delivers s packet src dest now r p =
    rw (
      route,
      listed,
      computed s w packet src now dest packet p.token p.session dest p.in_table there,
    )
  where
    w : WellFormed s
    w = Reaches-WellFormed s r

    at_end : (o : Option PeerState) (peer : PeerState) → o ≡ some peer → src ≡ peer.addr → At o src
    at_end o peer e h = subst (λ q. At q src) (sym e) (sym h)

    holds : Holds p.session src
    holds = elim p.ends [
      | inl (x, y) ↦ inl (at_end p.session.peer_a p.a p.slot_a x)
      | inr (x, y) ↦ inr (at_end p.session.peer_b p.b p.slot_b x)
    ]

    listed : get s.addr_to_token src ≡ some p.token
    listed = w.listed p.token p.session src p.in_table holds

    apart : p.a.addr ≡ p.b.addr → ⊥
    apart e =
        (w.fitting p.token p.session p.in_table).apart p.b.addr
          (subst (λ q. At q p.b.addr) (sym p.slot_a) e)
          (subst (λ q. At q p.b.addr) (sym p.slot_b) refl)

    there : partner src p.session ≡ some dest
    there = ends-partner src dest p.session p.a p.b p.slot_a p.slot_b apart p.ends
