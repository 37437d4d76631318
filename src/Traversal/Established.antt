-- ===== src/Traversal/Established.antt =====
-- mod.rs: whom an established session is with.
use p2pfile_transfer.Common.{
  ℕ, ◌≡◌, ◌⊎◌, ◌∙◌, sym, ap, subst, inl, inr, true, List, [], some, All-get_elem?, get_elem?,
}
use p2pfile_transfer.Errors.{ok}
use p2pfile_transfer.Effects.{and_then_inv, lift_inv}
use p2pfile_transfer.Protocol.{Uuid, Digest}
use p2pfile_transfer.Stun.{SocketAddr}
use p2pfile_transfer.RendezvousProtocol.{RegisterRequest, Message}
use p2pfile_transfer.RendezvousWire.{MessageCodec, write_message}
use p2pfile_transfer.RendezvousClient.{
  ClientError, MatchOutcome, RelayInfo, direct, relay, outcome_of, register_full,
}
use p2pfile_transfer.RendezvousClient.Laws.{Short, read_back, register_full_inv}
use p2pfile_transfer.RelayHello.{encode}
use p2pfile_transfer.Rendezvous.{Server}
use p2pfile_transfer.Rendezvous.Pairing.{History, Meets, MessageOk}
use p2pfile_transfer.Rendezvous.Meeting.{Reaches, sent-MessageOk}
use p2pfile_transfer.Traversal.Hellos.{
  Greeted, Greeted-before, choose_endpoint_inv, send_hellos_inv,
}
use p2pfile_transfer.Traversal.Admission.{Admitted, punch-Admitted}
use p2pfile_transfer.Traversal.Punch.{punch}
use p2pfile_transfer.Traversal.{
  RendezvousParams, World, Traffic, EstablishedSession, register_request, choose_endpoint,
  rendezvous_outcome, send_hellos, punched, establish_via_relay, by_outcome,
  establish_via_rendezvous,
}

-- The session is the outcome of the punch towards its own peer fields.
abbrev pub Punched : World → EstablishedSession → Type 0
Punched world s =
    punch world.sha256 s.peer_endpoint s.peer_fingerprint
      (world.race s.peer_endpoint s.peer_fingerprint)
    ≡ ok s.connection

-- The address is the one that the message gives: the other peer's, or the relay's.
abbrev pub EndpointOk : Message → RegisterRequest → SocketAddr → Type 0
EndpointOk (Message.matched endpoint fp d) r addr = addr ≡ r.public_endpoint
EndpointOk (Message.relay_match endpoint token fp d) r addr = addr ≡ endpoint
EndpointOk _ r addr = ⊥

-- The session is with the peer of this registration.
abbrev pub With : Message → RegisterRequest → EstablishedSession → Type 0
With answer r s =
    EndpointOk answer r s.peer_endpoint
    × (s.peer_fingerprint ≡ r.cert_fingerprint)
    × (s.peer_device_id ≡ r.device_id)

module _ (world : World) where
  punched_inv :
      (addr : SocketAddr) (fp : Digest) (d : Uuid) (t t' : Traffic) (s : EstablishedSession)
      → punched world addr fp d t ≡ (ok s, t')
      → (s.peer_endpoint ≡ addr)
        × (s.peer_fingerprint ≡ fp)
        × (s.peer_device_id ≡ d)
        × Punched world s
        × (t ≡ t')
  unfolding punched
  punched_inv addr fp d t t' s e =
      let (_, _, later) = lift_inv world.from_socket t _ s t' e in
      let (c, won, made) =
        lift_inv (punch world.sha256 addr fp (world.race addr fp)) t _ s t' later in
      let made_session : EstablishedSession = record {
        connection = c;
        peer_endpoint = addr;
        peer_fingerprint = fp;
        peer_device_id = d;
      } in
      let same : made_session ≡ s = cc in
      (
        sym (ap EstablishedSession.peer_endpoint same),
        sym (ap EstablishedSession.peer_fingerprint same),
        sym (ap EstablishedSession.peer_device_id same),
        subst (Punched world) same won,
        cc,
      )

module _ (codec : MessageCodec) where
  rendezvous_outcome_inv :
      (r : (ClientError ⊎ MatchOutcome) × List ℕ) (t t' : Traffic) (outcome : MatchOutcome)
      → rendezvous_outcome r t ≡ (ok outcome, t')
      → (r.0 ≡ inr outcome) × (t'.hellos ≡ t.hellos)
  unfolding rendezvous_outcome
  rendezvous_outcome_inv (inl e, bytes) t t' outcome h = let never : ⊥ = cc in absurd never
  rendezvous_outcome_inv (inr o, bytes) t t' outcome h =
      let told : o ≡ outcome = cc in
      let same : record t { to_server = bytes } ≡ t' = cc in
      (ap inr told, ap Traffic.hellos (sym same))

  by_outcome-With :
      (params : RendezvousParams) (world : World) (t t' : Traffic) (answer : Message)
      (outcome : MatchOutcome) (s : EstablishedSession) (hist : History) (task : ℕ)
      → outcome_of answer ≡ inr outcome
      → by_outcome params.fingerprint world outcome t ≡ (ok s, t')
      → MessageOk hist task answer
      → (r : RegisterRequest) × Meets hist task r
        × With answer r s
        × Punched world s
        × Greeted params.fingerprint answer t t'
  unfolding outcome_of by_outcome establish_via_relay
  by_outcome-With params world t t' (Message.matched a fp d) outcome s hist task o e
        (r, m, ea, ef, ed) =
      let same : outcome ≡ direct (record { endpoint = a; fingerprint = fp; device_id = d }) = cc in
      let (at_addr, with_fp, with_id, won, last) =
        punched_inv world a fp d t t' s
          (subst (λ x. by_outcome params.fingerprint world x t ≡ (ok s, t')) same e) in
      (r, m, (at_addr ∙ ea, with_fp ∙ ef, with_id ∙ ed), won, ap Traffic.hellos (sym last))
  by_outcome-With params world t t' (Message.relay_match a token fp d) outcome s hist task o e
        (r, m, ef, ed) =
      let info : RelayInfo = record {
        relay_endpoint = a;
        session_token = token;
        peer_fingerprint = fp;
        peer_device_id = d;
      } in
      let same : outcome ≡ relay info = cc in
      let hello : List ℕ = encode (record { token = token; fingerprint = params.fingerprint }) in
      let (_, t1, greeted, later) =
        and_then_inv (send_hellos 3 hello a world t) (λ _. punched world a fp d) s t'
          (subst (λ x. by_outcome params.fingerprint world x t ≡ (ok s, t')) same e) in
      let (at_addr, with_fp, with_id, won, last) = punched_inv world a fp d t1 t' s later in
      (
        r,
        m,
        (at_addr, with_fp ∙ ef, with_id ∙ ed),
        won,
        ap Traffic.hellos (sym last) ∙ send_hellos_inv world 3 hello a t t1 greeted,
      )
  by_outcome-With params world t t' Message.expired outcome s hist task o e m =
      let never : ⊥ = cc in absurd never
  by_outcome-With params world t t' Message.rejected outcome s hist task o e m =
      let never : ⊥ = cc in absurd never
  by_outcome-With params world t t' (Message.register r) outcome s hist task o e m = absurd m

  -- Whatever the peers of the rendezvous server do and in whichever order, a session that is
  -- established from its answer is with another connection that registered under the same code as
  -- this one: it has that one's fingerprint and device id, and its address is the one of a direct
  -- match, or the relay's. Its connection is the outcome of the punch towards that address: either
  -- the dialled peer has signed with the key of a certificate that has that fingerprint, or a client
  -- has come in from that address with a certificate of its own, whichever it is, and has signed with
  -- its key. A relay was sent three hellos with the token of the match and this peer's fingerprint,
  -- and nothing is sent where the match is direct. The hypotheses say that the answer is one that the
  -- server sent to this peer's task, in one frame.
  pub establish-With :
      (params : RendezvousParams) (world : World) (t t' : Traffic) (s : EstablishedSession)
      (hist : History) (server : Server) (i task : ℕ) (answer : Message) (response : List ℕ)
      → Reaches hist server
      → get_elem? server.sent i ≡ some (task, answer)
      → Short codec answer
      → write_message codec true answer [] ≡ (inr tt, response)
      → world.link.response ≡ some response
      → establish_via_rendezvous codec params world t ≡ (ok s, t')
      → (r : RegisterRequest) × Meets hist task r
        × With answer r s
        × Punched world s
        × Greeted params.fingerprint answer t t'
        × Admitted world.sha256 s.peer_endpoint s.peer_fingerprint
            (world.race s.peer_endpoint s.peer_fingerprint)
            s.connection
  unfolding establish_via_rendezvous
  establish-With params world t t' s hist server i task answer response reach sent short wrote came
        e =
      let (own, _, later) = lift_inv world.bound t _ s t' e in
      let (choice, t1, chosen, later2) =
        and_then_inv (choose_endpoint params world own t) _ s t' later in
      let r = register_full codec world.link (register_request params choice) in
      let (outcome, t2, heard, last) = and_then_inv (rendezvous_outcome r t1) _ s t' later2 in
      let (matched, kept) = rendezvous_outcome_inv r t1 t2 outcome heard in
      let told =
        register_full_inv codec world.link (register_request params choice) outcome response answer
          matched came (read_back codec answer response short wrote) in
      let unsent : t2.hellos ≡ t.hellos =
        kept ∙ ap Traffic.hellos (sym (choose_endpoint_inv params world own t t1 choice chosen)) in
      let (peer, met, with_peer, won, greeted) =
        by_outcome-With params world t2 t' answer outcome s hist task told last (
          All-get_elem? (λ m. MessageOk hist m.0 m.1) server.sent i
            (sent-MessageOk hist server reach) sent) in
      (
        peer,
        met,
        with_peer,
        won,
        Greeted-before params.fingerprint answer t t2 t' unsent greeted,
        punch-Admitted world.sha256 s.peer_endpoint s.peer_fingerprint
            (world.race s.peer_endpoint s.peer_fingerprint) s.connection won,
      )
