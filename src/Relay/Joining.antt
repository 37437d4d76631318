-- ===== src/Relay/Joining.antt =====
-- relay.rs: joining a session, and the sweep.
use p2pfile_transfer.Common.{
  ℕ, ◌≡◌, refl, sym, ap, ◌∙◌, ◌⊎◌, inl, inr, true, List, [], ◌∷◌, Option, some, none, arith,
  bytes_eq, bytes_eq→eq, Bool-cases, Option-cases, subst,
}
use p2pfile_transfer.Common.Maps.{
  number_key, bytes_key, get, insert, keys, get-insert_same, get-insert_other, key_decides,
}
use p2pfile_transfer.RelayHello.{RelayHello, try_decode}
use p2pfile_transfer.Relay.{
  Addr, Instant, PeerState, Session, RelayState, forget, evict_idle, stale_among, forget_all,
  is_none, assign_slot, join, route,
}
use p2pfile_transfer.Relay.Sessions.{
  At, Holds, Fits, WellFormed, WellFormed-insert, WellFormed-forget, WellFormed-forward,
}

record Joined (hello : RelayHello) (src : Addr) (session joined : Session) : Type 0 where
  fits : Fits joined
  new : Holds joined src
  kept : (addr : Addr) → Holds session addr → Holds joined addr
  only : (addr : Addr) → Holds joined addr → Holds session addr ⊎ (src ≡ addr)

is_none→none : {A : Type 0} (o : Option A) → is_none o ≡ true → o ≡ none
is_none→none none e = refl
is_none→none (some a) e = cc

module _ (hello : RelayHello) (src : Addr) (session : Session) (f : Fits session)
    (away : Holds session src → ⊥) where
  peer : PeerState
  peer = record { addr = src; fingerprint = hello.fingerprint }

  takes_a :
      session.peer_a ≡ none
      → hello.fingerprint ≡ session.peer_a_expected_fp
      → Joined hello src session (record session { peer_a = some peer })
  unfolding peer
  takes_a free known = record {
    fits = record {
      distinct_fp = f.distinct_fp;
      a_known = known;
      b_known = f.b_known;
      apart = λ addr ha hb. away (inr (subst (At session.peer_b) (sym ha) hb));
    };
    new = inl refl;
    kept = λ addr h. elim h [ inl x ↦ absurd (subst (λ o. At o addr) free x) | inr x ↦ inr x ];
    only = λ addr h. elim h [ inl x ↦ inr x | inr x ↦ inl (inr x) ];
  }

  takes_b :
      session.peer_b ≡ none
      → hello.fingerprint ≡ session.peer_b_expected_fp
      → Joined hello src session (record session { peer_b = some peer })
  unfolding peer
  takes_b free known = record {
    fits = record {
      distinct_fp = f.distinct_fp;
      a_known = f.a_known;
      b_known = known;
      apart = λ addr ha hb. away (inl (subst (At session.peer_a) (sym hb) ha));
    };
    new = inr refl;
    kept = λ addr h. elim h [ inl x ↦ inl x | inr x ↦ absurd (subst (λ o. At o addr) free x) ];
    only = λ addr h. elim h [ inl x ↦ inl (inl x) | inr x ↦ inr x ];
  }

  assign_slot-Joined :
      (joined : Session)
      → assign_slot hello src session ≡ some joined
      → Joined hello src session joined
  unfolding assign_slot peer
  assign_slot-Joined joined e =
      elim (Bool-cases (bytes_eq hello.fingerprint session.peer_a_expected_fp)) [
        | inl is_a ↦ elim (Bool-cases (is_none session.peer_a)) [
          | inl free ↦ subst (Joined hello src session) (ground (arith, is_a, free, e)) (
              takes_a (is_none→none session.peer_a free)
                (bytes_eq→eq hello.fingerprint session.peer_a_expected_fp is_a))
          | inr taken ↦ let never : ⊥ = ground (arith, is_a, taken, e) in absurd never
        ]
        | inr not_a ↦ elim (Bool-cases (bytes_eq hello.fingerprint session.peer_b_expected_fp)) [
          | inl is_b ↦ elim (Bool-cases (is_none session.peer_b)) [
            | inl free ↦ subst (Joined hello src session) (ground (arith, not_a, is_b, free, e)) (
                takes_b (is_none→none session.peer_b free)
                  (bytes_eq→eq hello.fingerprint session.peer_b_expected_fp is_b))
            | inr taken ↦ let never : ⊥ = ground (arith, not_a, is_b, taken, e) in absurd never
          ]
          | inr not_b ↦ let never : ⊥ = ground (arith, not_a, not_b, e) in absurd never
        ]
      ]

module _ (s : RelayState) (w : WellFormed s) where
  WellFormed-join :
      (hello : RelayHello) (src : Addr) (now : Instant)
      → get s.addr_to_token src ≡ none
      → WellFormed (join hello src now s)
  unfolding join
  WellFormed-join hello src now unknown = elim (Option-cases (get s.sessions hello.token)) [
    | inl absent ↦ rw (join, absent) w
    | inr (session, present) ↦ elim (Option-cases (assign_slot hello src session)) [
      | inl refused ↦ rw (join, present, refused) w
      | inr (joined, assigned) ↦
          rw (join, present, assigned) (entered session joined present assigned)
    ]
  ]
    where
      entered :
          (session joined : Session)
          → get s.sessions hello.token ≡ some session
          → assign_slot hello src session ≡ some joined
          → WellFormed (record s {
            sessions = insert s.sessions hello.token (record joined { last_active = now });
            addr_to_token = insert s.addr_to_token src hello.token;
          })
      entered session joined present assigned =
          let f = w.fitting hello.token session present in
          let away : Holds session src → ⊥ =
            λ h. (let l = w.listed hello.token session src present h in cc) in
          let j = assign_slot-Joined hello src session f away joined assigned in
          let g = j.fits in
          WellFormed-insert s w hello.token (record joined { last_active = now })
            (insert s.addr_to_token src hello.token) s.bytes_forwarded
            (record {
              distinct_fp = g.distinct_fp;
              a_known = g.a_known;
              b_known = g.b_known;
              apart = g.apart;
            })
            (λ addr h. elim (key_decides src addr) [
              | inl same ↦
                  subst (λ k. get (insert s.addr_to_token src hello.token) k ≡ some hello.token)
                    same (get-insert_same s.addr_to_token src hello.token)
              | inr d ↦ elim (j.only addr h) [
                | inl old ↦
                    get-insert_other s.addr_to_token src addr hello.token d
                    ∙ w.listed hello.token session addr present old
                | inr same ↦ absurd (d same)
              ]
            ])
            (λ addr t h. elim (key_decides src addr) [
              | inl same ↦
                  let newest : get (insert s.addr_to_token src hello.token) addr
                      ≡ some hello.token =
                    subst (λ k. get (insert s.addr_to_token src hello.token) k ≡ some hello.token)
                      same (get-insert_same s.addr_to_token src hello.token) in
                  inl (let e : t ≡ hello.token = cc in e, subst (Holds joined) same j.new)
              | inr d ↦
                  let old = sym (get-insert_other s.addr_to_token src addr hello.token d) ∙ h in
                  elim (key_decides hello.token t) [
                    | inl same ↦
                        (let (other, k, holds) = w.indexed addr t old in
                          let eq : other ≡ session = (let l = ap (get s.sessions) same in cc) in
                          inl (sym same, j.kept addr (subst (λ x. Holds x addr) eq holds)))
                    | inr e ↦ inr (e, old)
                  ]
            ])
            (λ addr t d h.
              get-insert_other s.addr_to_token src addr hello.token
                (λ eq. (let k = ap (get s.addr_to_token) eq in cc))
              ∙ h)

  -- A datagram keeps the table and the index in agreement, whatever it holds and whoever sent it.
  pub WellFormed-route :
      (packet : List ℕ) (src : Addr) (now : Instant) → WellFormed (route packet src now s).1
  unfolding route
  WellFormed-route packet src now = elim (Option-cases (get s.addr_to_token src)) [
    | inl stranger ↦ elim (Option-cases (try_decode packet)) [
      | inl junk ↦ rw (route, stranger, junk) w
      | inr (hello, parsed) ↦ rw (route, stranger, parsed) (WellFormed-join hello src now stranger)
    ]
    | inr (token, member) ↦ rw (route, member) (WellFormed-forward s w token packet src now)
  ]

WellFormed-forget_all :
    (tokens : List (List ℕ)) (s : RelayState) → WellFormed s → WellFormed (forget_all tokens s)
unfolding forget_all
WellFormed-forget_all [] s w = w
WellFormed-forget_all (token ∷ tokens) s w =
    WellFormed-forget_all tokens (forget token s) (WellFormed-forget s w token)

pub WellFormed-evict_idle :
    (now : Instant) (s : RelayState) → WellFormed s → WellFormed (evict_idle now s)
unfolding evict_idle
WellFormed-evict_idle now s w = WellFormed-forget_all (stale_among now s (keys s.sessions)) s w
