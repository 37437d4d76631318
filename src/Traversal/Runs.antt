-- ===== src/Traversal/Runs.antt =====
-- mod.rs, punch.rs and client.rs: runs, and the theorems at their inputs.
use p2pfile_transfer.Common.{
  ℕ, ◌^◌, ◌<◌, ◌≡◌, refl, subst, true, false, List, [], ◌∷◌, some, length, replicate, arith, inr,
  bytes_eq,
}
use p2pfile_transfer.Common.Bytes.{to_be_bytes, from_be_bytes}
use p2pfile_transfer.Traversal.Sample.{encode, of_register, of_match, codec}
use p2pfile_transfer.Errors.{ok, err, quic, hole_punch_failed}
use p2pfile_transfer.Stun.{v4, same_addr, same_ip}
use p2pfile_transfer.RendezvousProtocol.{RegisterRequest, Message, stamp}
use p2pfile_transfer.RendezvousWire.{write_message, read_message}
use p2pfile_transfer.RendezvousClient.{Link, outcome_of, register_full}
use p2pfile_transfer.RendezvousClient.Laws.{Short, Answers, register_full-answered}
use p2pfile_transfer.Rendezvous.Pairing.{Meets}
use p2pfile_transfer.Rendezvous.Match.{about}
use p2pfile_transfer.Rendezvous.Runs.{
  addr, request, finished, history, finished-Reaches, first_told,
}
use p2pfile_transfer.Traversal.{
  RendezvousParams, World, Traffic, EstablishedSession, establish_via_rendezvous, generate_code,
  choose_endpoint, is_loopback, register_request, by_outcome, punched,
}
use p2pfile_transfer.Traversal.Punch.{
  Happening, answered, came_in, punch, event_of, RaceEvent, connected, accepted, accept_from,
  peer_matches, race_connect_and_accept,
}
use p2pfile_transfer.Quic.{
  QuicConnection, Incoming, accept, open_control_responder, verify_client_cert, connect,
  verify_server_cert,
}
use p2pfile_transfer.Framing.{protocol_magic}
use p2pfile_transfer.Traversal.Admission.{Admitted}
use p2pfile_transfer.Traversal.Hellos.{Greeted}
use p2pfile_transfer.Traversal.Race.{Decided, race_connect_and_accept-Decided}
use p2pfile_transfer.Traversal.Established.{With, Punched, establish-With}

-- Another peer comes in first, then the expected one, and then the dial fails.
abbrev conn : ℕ → QuicConnection
conn n = record { peer_addr = addr n; presented = 9 ∷ [] }

abbrev events : List RaceEvent
events = accepted (ok (conn 66)) ∷ accepted (ok (conn 20)) ∷ connected (err quic) ∷ []

race_connect_and_accept-Decided_example :
    Decided (addr 20) events (race_connect_and_accept (addr 20) events)
race_connect_and_accept-Decided_example = race_connect_and_accept-Decided (addr 20) events

kept : race_connect_and_accept (addr 20) events ≡ ok (conn 20)
unfolding race_connect_and_accept accept_from peer_matches same_addr same_ip bytes_eq
kept = refl

-- A dial that fails ends the race before the peer comes in.
lost : race_connect_and_accept (addr 20) (connected (err quic) ∷ events) ≡ err quic
unfolding race_connect_and_accept accept_from peer_matches same_addr same_ip bytes_eq
lost = refl

only_strangers :
    race_connect_and_accept (addr 20) (accepted (ok (conn 66)) ∷ []) ≡ err hole_punch_failed
unfolding race_connect_and_accept accept_from peer_matches same_addr same_ip bytes_eq
only_strangers = refl

abbrev draws : List ℕ
draws = 0 ∷ 29 ∷ 7 ∷ 7 ∷ 22 ∷ 21 ∷ []

generated : generate_code draws ≡ ok (65 ∷ 57 ∷ 72 ∷ 72 ∷ 50 ∷ 90 ∷ [])
unfolding generate_code
generated = refl

short :
    (msg : Message) (bytes : List ℕ)
    → encode msg ≡ some bytes
    → length bytes < 2 ^ 32
    → Short codec msg
short msg bytes e l payload enc =
    let same : bytes ≡ payload = cc in subst (λ p. length p < 2 ^ 32) same l

abbrev answer : Message
answer = about (addr 20) (request 8)

abbrev response : List ℕ
response = (write_message codec true answer []).1

abbrev sent : List ℕ
sent = (write_message codec true (Message.register (request 7)) []).1

wrote : write_message codec true (Message.register (request 7)) [] ≡ (inr tt, sent)
unfolding write_message
wrote = refl

responded : write_message codec true answer [] ≡ (inr tt, response)
unfolding write_message stamp
responded = refl

request-Short : Short codec (Message.register (request 7))
request-Short = short (Message.register (request 7)) (of_register (request 7)) refl (omega arith)

answer-Short : Short codec answer
unfolding stamp
answer-Short = short answer (of_match (addr 20) (replicate 32 8) 8) refl (omega arith)

abbrev link : Link
link = record { connects = true; writable = true; response = some response }

register_full-answered_example :
    Answers codec answer (register_full codec link (request 7)).0
    × ((register_full codec link (request 7)).1 ≡ sent)
    × (read_message codec sent ≡ inr (Message.register (request 7), []))
register_full-answered_example =
    register_full-answered codec (request 7) answer sent response request-Short answer-Short wrote
      responded

-- The server is on this host.
abbrev params : RendezvousParams
params = record {
  rendezvous_addr = record { ip = v4 (127 ∷ 0 ∷ 0 ∷ 1 ∷ []); port = 14570 };
  code = 65 ∷ 66 ∷ 67 ∷ 49 ∷ [];
  fingerprint = replicate 32 7;
  device_id = 7;
  force_relay = false;
}

abbrev sha256 : List ℕ → List ℕ
sha256 certificate = certificate

-- A client from another address comes in, and then one from the expected address.
abbrev client : ℕ → Incoming
client n = record {
  addr = addr n;
  certificate = some (9 ∷ []);
  signed = true;
  control = ok protocol_magic;
}

abbrev happenings : List Happening
happenings = came_in (ok (client 66)) ∷ came_in (ok (client 20)) ∷ answered (err quic) ∷ []

abbrev world : World
world = record {
  bound = ok (addr 99);
  stun_a = err quic;
  stun_b = err quic;
  query = λ _. err quic;
  link = link;
  send_to = λ _. err quic;
  from_socket = ok tt;
  sha256 = sha256;
  race = λ _ _. happenings;
}

abbrev nothing : Traffic
nothing = record { to_server = []; hellos = [] }

abbrev session : EstablishedSession
session = record {
  connection = conn 20;
  peer_endpoint = addr 20;
  peer_fingerprint = replicate 32 8;
  peer_device_id = 8;
}

abbrev traffic : Traffic
traffic = record { to_server = sent; hellos = [] }

established : establish_via_rendezvous codec params world nothing ≡ (ok session, traffic)
unfolding establish_via_rendezvous choose_endpoint is_loopback register_request register_full
    write_message read_message outcome_of by_outcome punched punch event_of accept
    open_control_responder verify_client_cert race_connect_and_accept accept_from peer_matches
    same_addr same_ip bytes_eq stamp to_be_bytes from_be_bytes
established = refl

establish-With_example :
    (r : RegisterRequest) × Meets history 1 r
    × With answer r session
    × Punched world session
    × Greeted params.fingerprint answer nothing traffic
    × Admitted sha256 (addr 20) (replicate 32 8) happenings (conn 20)
establish-With_example =
    establish-With codec params world nothing traffic session history finished 0 1 answer response
      finished-Reaches first_told answer-Short responded refl established

-- The dial refuses a certificate of another fingerprint.
impostor :
    connect sha256
      (addr 20)
      (8 ∷ [])
      (ok (record { certificate = 9 ∷ []; signed = true; control = ok tt }))
    ≡ err quic
unfolding connect verify_server_cert bytes_eq
impostor = refl
