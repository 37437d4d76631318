-- ===== src/Handshake/Laws.antt =====
-- handshake.rs: what a completed handshake has checked, whoever the peer is.
use p2pfile_transfer.Common.{
  ℕ, ◌≡◌, refl, sym, ap, ◌∙◌, inl, inr, List, [], ◌∷◌, ◌++◌, Option, some, none, arith, ltb, length,
  bytes_eq, bytes_eq→eq, Bool-cases,
}
use mathlib.Core.List.{append_assoc}
use p2pfile_transfer.Errors.{Result, ok, err, panic}
use p2pfile_transfer.Effects.{and_then_inv, lift_inv}
use p2pfile_transfer.Protocol.{Digest, Message, HelloMessage, ConfigMessage}
use p2pfile_transfer.Framing.{max_message_size}
use p2pfile_transfer.Handshake.{
  Conn, HandshakeResult, Side, hello_of, check_payload, read_payload, sent_over, send_message, next,
  recv_message, expect_hello_ack, expect_hello, expect_config, expect_config_ack, check_version,
  cross_check_fingerprint, result_of, client_handshake, server_handshake,
}

-- A message went out; nothing else about the connection changed.
pub record SentOne (message : Message) (c c' : Conn) : Type 0 where
  pub out : c'.sent ≡ c.sent ++ (message ∷ [])
  pub still : c'.incoming ≡ c.incoming
  pub same_peer : c'.peer_fingerprint ≡ c.peer_fingerprint

pub record GotOne (message : Message) (c c' : Conn) : Type 0 where
  pub came : c.incoming ≡ ok message ∷ c'.incoming
  pub silent : c'.sent ≡ c.sent
  pub same_peer : c'.peer_fingerprint ≡ c.peer_fingerprint

sent_over_inv :
    (message : Message) (link : List (Result (Unit {0}))) (c c' : Conn)
    → sent_over message link c ≡ (ok tt, c')
    → SentOne message c c'
unfolding sent_over
sent_over_inv message [] c c' e = record { out = cc; still = cc; same_peer = cc }
sent_over_inv message (ok _ ∷ link) c c' e = record { out = cc; still = cc; same_peer = cc }
sent_over_inv message (err x ∷ link) c c' e = absurd (let never : ⊥ = cc in never)
sent_over_inv message (panic ∷ link) c c' e = absurd (let never : ⊥ = cc in never)

pub send_inv :
    (message : Message) (c c' : Conn) → send_message message c ≡ (ok tt, c') → SentOne message c c'
unfolding send_message
send_inv message c c' e =
    let (_, _, k) =
      lift_inv (check_payload (c.to_vec message)) c (λ _ d. sent_over message d.link d) tt c' e in
    sent_over_inv message c.link c c' k

read_payload_inv :
    (payload : Option (List ℕ)) (m message : Message)
    → read_payload payload m ≡ ok message
    → m ≡ message
read_payload_inv none m message e = cc
read_payload_inv (some payload) m message e =
    elim (Bool-cases (ltb max_message_size (length payload))) [
      | inl large ↦ let never = rw large at e in cc
      | inr fits ↦ let same = rw fits at e in cc
    ]

next_inv :
    (l : List (Result Message)) (message : Message) (c c' : Conn)
    → c.incoming ≡ l
    → next l c ≡ (ok message, c')
    → GotOne message c c'
unfolding next
next_inv [] message c c' h e = absurd (let never : ⊥ = cc in never)
next_inv (ok m ∷ later) message c c' h e =
    let read : read_payload (c.to_vec m) m ≡ ok message = cc in
    let same = read_payload_inv (c.to_vec m) m message read in
    record { came = cc; silent = cc; same_peer = cc }
next_inv (err x ∷ later) message c c' h e = absurd (let never : ⊥ = cc in never)
next_inv (panic ∷ later) message c c' h e = absurd (let never : ⊥ = cc in never)

pub recv_inv :
    (message : Message) (c c' : Conn) → recv_message c ≡ (ok message, c') → GotOne message c c'
unfolding recv_message
recv_inv message c c' e = next_inv c.incoming message c c' refl e

hello_ack_inv :
    (m : Message) (h : HelloMessage) → expect_hello_ack m ≡ ok h → m ≡ Message.hello_ack h
hello_ack_inv (Message.hello_ack x) h e = cc
hello_ack_inv _ h e = cc

hello_inv : (m : Message) (h : HelloMessage) → expect_hello m ≡ ok h → m ≡ Message.hello h
hello_inv (Message.hello x) h e = cc
hello_inv _ h e = cc

config_inv : (m : Message) (c : ConfigMessage) → expect_config m ≡ ok c → m ≡ Message.config c
config_inv (Message.config x) c e = cc
config_inv _ c e = cc

config_ack_inv : (m : Message) → expect_config_ack m ≡ ok tt → m ≡ Message.config_ack
config_ack_inv Message.config_ack e = refl
config_ack_inv _ e = cc

version_inv : (h : HelloMessage) → check_version h ≡ ok tt → h.protocol_version ≡ 3
version_inv h e = ground (arith, e)

cross_check_inv :
    (claimed : Digest) (observed : Option Digest)
    → cross_check_fingerprint claimed observed ≡ ok tt
    → observed ≡ some claimed
cross_check_inv claimed none e = cc
cross_check_inv claimed (some seen) e = elim (Bool-cases (bytes_eq claimed seen)) [
  | inl same ↦ ap some (sym (bytes_eq→eq claimed seen same))
  | inr differ ↦ let never : ⊥ = ground (arith, differ, e) in absurd never
]

sent_twice :
    (c c' : Conn) (m n : Message) (middle : List Message)
    → middle ≡ c.sent ++ (m ∷ [])
    → c'.sent ≡ middle ++ (n ∷ [])
    → c'.sent ≡ c.sent ++ (m ∷ n ∷ [])
sent_twice c c' m n middle d e =
    e ∙ ap (λ l. l ++ (n ∷ [])) d ∙ append_assoc c.sent (m ∷ []) (n ∷ [])

-- What the hello of the peer said, for the result.
pub record Vouched (h : HelloMessage) (observed : Option Digest) (r : HandshakeResult)
    : Type 0 where
  pub version : h.protocol_version ≡ 3
  pub device : r.peer_device_id ≡ h.device_id
  pub fingerprint : r.peer_fingerprint ≡ h.cert_fingerprint
  pub certified : observed ≡ some r.peer_fingerprint

client_trace :
    (side : Side) (config : ConfigMessage) (c c1 c2 c7 c8 c' : Conn) (h : HelloMessage)
    (m2 m8 : Message) (r : HandshakeResult)
    → SentOne (Message.hello (hello_of side)) c c1
    → GotOne m2 c1 c2
    → m2 ≡ Message.hello_ack h
    → h.protocol_version ≡ 3
    → c2.peer_fingerprint ≡ some h.cert_fingerprint
    → SentOne (Message.config config) c2 c7
    → GotOne m8 c7 c8
    → m8 ≡ Message.config_ack
    → ◌≡◌ {A = Result HandshakeResult × Conn} (ok (result_of h config), c8) (ok r, c')
    → (h : HelloMessage) × (c.incoming
        ≡ ok (Message.hello_ack h) ∷ ok Message.config_ack ∷ c'.incoming)
      × (c'.sent ≡ c.sent ++ (Message.hello (hello_of side) ∷ Message.config config ∷ []))
      × (r.config ≡ config)
      × Vouched h c.peer_fingerprint r
client_trace side config c c1 c2 c7 c8 c' h m2 m8 r first second is_ack v seen third fourth
      is_config_ack last =
    let result : result_of h config ≡ r = cc last in
    let end : c8 ≡ c' = cc last in
    let tail : c2.incoming ≡ ok m8 ∷ c8.incoming = sym third.still ∙ fourth.came in
    let both : ok m2 ∷ c2.incoming
        ≡ ok (Message.hello_ack h) ∷ ok Message.config_ack ∷ c'.incoming =
      rw (is_ack, tail, is_config_ack, end) in
    (
      h,
      sym first.still ∙ second.came ∙ both,
      sent_twice c c' (Message.hello (hello_of side)) (Message.config config) c2.sent
          (second.silent ∙ first.out) (ap (λ x. x.sent) (sym end) ∙ fourth.silent ∙ third.out),
      ap (λ x. x.config) (sym result),
      record {
        version = v;
        device = ap (λ x. x.peer_device_id) (sym result);
        fingerprint = ap (λ x. x.peer_fingerprint) (sym result);
        certified =
            sym first.same_peer
            ∙ sym second.same_peer
            ∙ seen
            ∙ ap (λ x. some x.peer_fingerprint) result;
      },
    )

server_trace :
    (side : Side) (c c1 c5 c6 c8 c' : Conn) (h : HelloMessage) (config : ConfigMessage)
    (m1 m6 : Message) (r : HandshakeResult)
    → GotOne m1 c c1
    → m1 ≡ Message.hello h
    → h.protocol_version ≡ 3
    → c1.peer_fingerprint ≡ some h.cert_fingerprint
    → SentOne (Message.hello_ack (hello_of side)) c1 c5
    → GotOne m6 c5 c6
    → m6 ≡ Message.config config
    → SentOne Message.config_ack c6 c8
    → ◌≡◌ {A = Result HandshakeResult × Conn} (ok (result_of h config), c8) (ok r, c')
    → (h : HelloMessage) × (c.incoming
        ≡ ok (Message.hello h) ∷ ok (Message.config r.config) ∷ c'.incoming)
      × (c'.sent ≡ c.sent ++ (Message.hello_ack (hello_of side) ∷ Message.config_ack ∷ []))
      × Vouched h c.peer_fingerprint r
server_trace side c c1 c5 c6 c8 c' h config m1 m6 r first is_hello v seen second third is_config
      fourth last =
    let result : result_of h config ≡ r = cc last in
    let end : c8 ≡ c' = cc last in
    let same : config ≡ r.config = ap (λ x. x.config) result in
    let tail : c1.incoming ≡ ok m6 ∷ c8.incoming =
      sym second.still ∙ third.came ∙ ap (λ l. ok m6 ∷ l) (sym fourth.still) in
    let both : ok m1 ∷ c1.incoming
        ≡ ok (Message.hello h) ∷ ok (Message.config r.config) ∷ c'.incoming =
      rw (is_hello, tail, is_config, same, end) in
    (
      h,
      first.came ∙ both,
      sent_twice c c' (Message.hello_ack (hello_of side)) Message.config_ack c6.sent
          (third.silent
            ∙ second.out
            ∙ ap (λ l. l ++ (Message.hello_ack (hello_of side) ∷ [])) first.silent)
          (ap (λ x. x.sent) (sym end) ∙ fourth.out),
      record {
        version = v;
        device = ap (λ x. x.peer_device_id) (sym result);
        fingerprint = ap (λ x. x.peer_fingerprint) (sym result);
        certified = sym first.same_peer ∙ seen ∙ ap (λ x. some x.peer_fingerprint) result;
      },
    )

-- Against any peer, the initiator's handshake succeeds only if the peer answered with a hello of
-- version 3 that claims the very fingerprint TLS observed, and acknowledged the configuration; it
-- has then sent its hello and its configuration and nothing else.
pub client_handshake_checks :
    (side : Side) (config : ConfigMessage) (c c' : Conn) (r : HandshakeResult)
    → client_handshake side config c ≡ (ok r, c')
    → (h : HelloMessage) × (c.incoming
        ≡ ok (Message.hello_ack h) ∷ ok Message.config_ack ∷ c'.incoming)
      × (c'.sent ≡ c.sent ++ (Message.hello (hello_of side) ∷ Message.config config ∷ []))
      × (r.config ≡ config)
      × Vouched h c.peer_fingerprint r
unfolding client_handshake
client_handshake_checks side config c c' r e =
    let (_, c1, e1, k1) = and_then_inv (send_message (Message.hello (hello_of side)) c) _ r c' e in
    let (m2, c2, e2, k2) = and_then_inv (recv_message c1) _ r c' k1 in
    let (h, e3, k3) = lift_inv (expect_hello_ack m2) c2 _ r c' k2 in
    let (_, e4, k4) = lift_inv (check_version h) c2 _ r c' k3 in
    let (_, e6, k6) =
      lift_inv (cross_check_fingerprint h.cert_fingerprint c2.peer_fingerprint) c2 _ r c' k4 in
    let (_, c7, e7, k7) = and_then_inv (send_message (Message.config config) c2) _ r c' k6 in
    let (m8, c8, e8, k8) = and_then_inv (recv_message c7) _ r c' k7 in
    let (_, e9, k9) = lift_inv (expect_config_ack m8) c8 _ r c' k8 in
    client_trace side config c c1 c2 c7 c8 c' h m2 m8 r
      (send_inv (Message.hello (hello_of side)) c c1 e1) (recv_inv m2 c1 c2 e2)
      (hello_ack_inv m2 h e3) (version_inv h e4)
      (cross_check_inv h.cert_fingerprint c2.peer_fingerprint e6)
      (send_inv (Message.config config) c2 c7 e7) (recv_inv m8 c7 c8 e8) (config_ack_inv m8 e9) k9

-- Against any peer, the responder's handshake succeeds only if the peer sent a hello of version 3
-- that claims the very fingerprint TLS observed, and then a configuration, which is the one taken;
-- it has then sent its own hello and the acknowledgement and nothing else.
pub server_handshake_checks :
    (side : Side) (c c' : Conn) (r : HandshakeResult)
    → server_handshake side c ≡ (ok r, c')
    → (h : HelloMessage) × (c.incoming
        ≡ ok (Message.hello h) ∷ ok (Message.config r.config) ∷ c'.incoming)
      × (c'.sent ≡ c.sent ++ (Message.hello_ack (hello_of side) ∷ Message.config_ack ∷ []))
      × Vouched h c.peer_fingerprint r
unfolding server_handshake
server_handshake_checks side c c' r e =
    let (m1, c1, e1, k1) = and_then_inv (recv_message c) _ r c' e in
    let (h, e2, k2) = lift_inv (expect_hello m1) c1 _ r c' k1 in
    let (_, e3, k3) = lift_inv (check_version h) c1 _ r c' k2 in
    let (_, e4, k4) =
      lift_inv (cross_check_fingerprint h.cert_fingerprint c1.peer_fingerprint) c1 _ r c' k3 in
    let (_, c5, e5, k5) =
      and_then_inv (send_message (Message.hello_ack (hello_of side)) c1) _ r c' k4 in
    let (m6, c6, e6, k6) = and_then_inv (recv_message c5) _ r c' k5 in
    let (config, e7, k7) = lift_inv (expect_config m6) c6 _ r c' k6 in
    let (_, c8, e8, k8) = and_then_inv (send_message Message.config_ack c6) _ r c' k7 in
    server_trace side c c1 c5 c6 c8 c' h config m1 m6 r (recv_inv m1 c c1 e1) (hello_inv m1 h e2)
      (version_inv h e3) (cross_check_inv h.cert_fingerprint c1.peer_fingerprint e4)
      (send_inv (Message.hello_ack (hello_of side)) c1 c5 e5) (recv_inv m6 c5 c6 e6)
      (config_inv m6 config e7) (send_inv Message.config_ack c6 c8 e8) k8
