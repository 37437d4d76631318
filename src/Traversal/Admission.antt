-- ===== src/Traversal/Admission.antt =====
-- punch.rs, quic.rs and tls.rs: what the peer of the connection that a punch leads to has shown.
use p2pfile_transfer.Common.{
  ℕ, suc, ◌≡◌, ◌∙◌, ap, sym, subst, refl, inl, inr, true, List, [], ◌∷◌, some, ◌&&◌, bytes_eq,
  bytes_eq→eq, get_elem?, Bool-cases, Option-cases, arith,
}
use p2pfile_transfer.Errors.{Result, ok, err, panic, bind_inv}
use p2pfile_transfer.Protocol.{Digest}
use p2pfile_transfer.Framing.{protocol_magic}
use p2pfile_transfer.Stun.{SocketAddr}
use p2pfile_transfer.Quic.{
  QuicConnection, Answer, Incoming, connect, accept, verify_server_cert, verify_client_cert,
  open_control_responder,
}
use p2pfile_transfer.Traversal.Punch.{
  Happening, answered, came_in, time_up, peer_matches, accept_from, race_connect_and_accept,
  event_of, punch,
}

module _ (sha256 : List ℕ → Digest) (addr : SocketAddr) (fp : Digest) where
  -- The dialled peer has signed with the key of a certificate of the pinned fingerprint; or a client has
  -- come in from the dialled address and has signed with the key of the certificate it has.
  abbrev pub Admits : Happening → QuicConnection → Type 0
  Admits (answered (ok a)) conn =
      (a.signed ≡ true)
      × (sha256 a.certificate ≡ fp)
      × (conn ≡ record { peer_addr = addr; presented = fp })
  Admits (answered _) conn = ⊥
  Admits (came_in (ok i)) conn =
      (certificate : List ℕ) × (i.certificate ≡ some certificate)
      × (i.signed ≡ true)
      × (i.control ≡ ok protocol_magic)
      × (conn ≡ record { peer_addr = i.addr; presented = sha256 certificate })
      × (peer_matches i.addr addr ≡ true)
  Admits (came_in _) conn = ⊥
  Admits time_up conn = ⊥

  abbrev pub Admitted : List Happening → QuicConnection → Type 0
  Admitted happenings conn =
      (i : ℕ) × (h : Happening) × (get_elem? happenings i ≡ some h) × Admits h conn

  connect-Admits :
      (a : Answer) (conn : QuicConnection)
      → connect sha256 addr fp (ok a) ≡ ok conn
      → Admits (answered (ok a)) conn
  unfolding connect verify_server_cert
  connect-Admits a conn e = elim (Bool-cases (bytes_eq (sha256 a.certificate) fp && a.signed)) [
    | inr refused ↦ let never : ⊥ = ground (arith, refused, e) in absurd never
    | inl verified ↦
        let shown : QuicConnection = record {
          peer_addr = addr;
          presented = sha256 a.certificate;
        } in
        let (_, _, made) = bind_inv a.control (λ _. ok shown) conn (ground (arith, verified, e)) in
        let same : shown ≡ conn = cc in
        let pinned : sha256 a.certificate ≡ fp =
          bytes_eq→eq (sha256 a.certificate) fp (ground (arith, verified)) in
        (
          ground (arith, verified),
          pinned,
          sym same
              ∙ ap
                  (λ (d : Digest).
                    let c : QuicConnection = record { peer_addr = addr; presented = d } in c)
                  pinned,
        )
  ]

  accept-Admits :
      (i : Incoming) (conn : QuicConnection)
      → accept sha256 (ok i) ≡ ok conn
      → peer_matches conn.peer_addr addr ≡ true
      → Admits (came_in (ok i)) conn
  unfolding accept verify_client_cert open_control_responder
  accept-Admits i conn e same = elim (Option-cases i.certificate) [
    | inl missing ↦ let never : ⊥ = ground (arith, missing, e) in absurd never
    | inr (certificate, shown) ↦ elim (Bool-cases i.signed) [
      | inr unsigned ↦ let never : ⊥ = ground (arith, shown, unsigned, e) in absurd never
      | inl signed ↦
          let (magic, opened, made) =
            bind_inv i.control (open_control_responder i.addr (sha256 certificate)) conn
              (ground (arith, shown, signed, e)) in
          elim (Bool-cases (bytes_eq magic protocol_magic)) [
            | inr other ↦ let never : ⊥ = ground (arith, other, made) in absurd never
            | inl right ↦
                let made_conn : QuicConnection = record {
                  peer_addr = i.addr;
                  presented = sha256 certificate;
                } in
                let conn_same : made_conn ≡ conn = ground (arith, right, made) in
                (
                  certificate,
                  shown,
                  signed,
                  opened ∙ ap ok (bytes_eq→eq magic protocol_magic right),
                  sym conn_same,
                  subst (λ (c : QuicConnection). peer_matches c.peer_addr addr ≡ true)
                      (sym conn_same) same,
                )
          ]
    ]
  ]

  further :
      (h : Happening) (later : List Happening) (conn : QuicConnection)
      → Admitted later conn
      → Admitted (h ∷ later) conn
  further h later conn (i, at_i, found, a) = (suc i, at_i, found, a)

  came_in-Admitted :
      (i : Incoming) (later : List Happening) (r : Result QuicConnection)
      → accept sha256 (ok i) ≡ r
      → (conn : QuicConnection) → (punch sha256 addr fp later ≡ ok conn → Admitted later conn)
      → accept_from addr r (punch sha256 addr fp later) ≡ ok conn
      → Admitted (came_in (ok i) ∷ later) conn
  unfolding accept_from
  came_in-Admitted i later (err x) a conn h e = let never : ⊥ = cc in absurd never
  came_in-Admitted i later panic a conn h e = let never : ⊥ = cc in absurd never
  came_in-Admitted i later (ok c) a conn h e = elim (Bool-cases (peer_matches c.peer_addr addr)) [
    | inl same ↦
        let won : c ≡ conn = ground (arith, same, e) in
        let expected : peer_matches conn.peer_addr addr ≡ true =
          subst (λ (c : QuicConnection). peer_matches c.peer_addr addr ≡ true) won same in
        (0, _, refl, accept-Admits i conn (a ∙ ap ok won) expected)
    | inr other ↦ further (came_in (ok i)) later conn (h (ground (arith, other, e)))
  ]

  -- A punch that succeeds.
  pub punch-Admitted :
      (happenings : List Happening) (conn : QuicConnection)
      → punch sha256 addr fp happenings ≡ ok conn
      → Admitted happenings conn
  unfolding punch race_connect_and_accept event_of connect accept accept_from
  punch-Admitted [] conn e = let never : ⊥ = cc in absurd never
  punch-Admitted (answered (ok a) ∷ later) conn e = (0, _, refl, connect-Admits a conn e)
  punch-Admitted (answered (err x) ∷ later) conn e = let never : ⊥ = cc in absurd never
  punch-Admitted (answered panic ∷ later) conn e = let never : ⊥ = cc in absurd never
  punch-Admitted (came_in (err x) ∷ later) conn e = let never : ⊥ = cc in absurd never
  punch-Admitted (came_in panic ∷ later) conn e = let never : ⊥ = cc in absurd never
  punch-Admitted (time_up ∷ later) conn e = let never : ⊥ = cc in absurd never
  punch-Admitted (came_in (ok i) ∷ later) conn e =
      came_in-Admitted i later (accept sha256 (ok i)) refl conn (punch-Admitted later conn) e
