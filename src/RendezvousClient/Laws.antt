-- ===== src/RendezvousClient/Laws.antt =====
-- client.rs and lib.rs: a registration and its answer, at both ends of the stream.
use p2pfile_transfer.Common.{
  ℕ, ◌^◌, ◌<◌, ◌≡◌, ap, sym, ◌∙◌, ◌⊎◌, inl, inr, true, List, [], Option, some, length, Bool-cases,
  arith,
}
use mathlib.Core.List.{append-nil}
use p2pfile_transfer.RendezvousProtocol.{RegisterRequest, Message}
use p2pfile_transfer.RendezvousWire.{MessageCodec, ProtoError, write_message, read_message}
use p2pfile_transfer.RendezvousWire.Laws.{read_message-write_message}
use p2pfile_transfer.RendezvousClient.{
  MatchOutcome, direct, relay, ClientError, expired, rejected, unexpected_from_server, Link,
  outcome_of, received, awaited, after_write, register_full,
}

module _ (codec : MessageCodec) where
  -- The payloads of a message are shorter than 4 GiB.
  abbrev pub Short : Message → Type 0
  Short msg = (payload : List ℕ) → codec.to_vec msg ≡ some payload → length payload < 2 ^ 32

  -- What the client is to make of a message that the server wrote.
  pub data Answers : Message → ClientError ⊎ MatchOutcome → Type 0 where
    on_match :
        (endpoint : _) (fingerprint : _) (device_id : _)
        → Answers (Message.matched endpoint fingerprint device_id) (
            inr (
              direct
                (record { endpoint = endpoint; fingerprint = fingerprint; device_id = device_id })))
    on_relay :
        (relay_endpoint : _) (token : _) (fingerprint : _) (device_id : _)
        → Answers (Message.relay_match relay_endpoint token fingerprint device_id) (
            inr (
              relay (record {
                relay_endpoint = relay_endpoint;
                session_token = token;
                peer_fingerprint = fingerprint;
                peer_device_id = device_id;
              })))
    on_expiry : Answers Message.expired (inl expired)
    on_rejection : Answers Message.rejected (inl rejected)
    on_echo : (r : RegisterRequest) → Answers (Message.register r) (inl unexpected_from_server)

  outcome_of-Answers : (msg : Message) → Answers msg (outcome_of msg)
  unfolding outcome_of
  outcome_of-Answers (Message.matched endpoint fingerprint device_id) =
      on_match endpoint fingerprint device_id
  outcome_of-Answers (Message.relay_match relay_endpoint token fingerprint device_id) =
      on_relay relay_endpoint token fingerprint device_id
  outcome_of-Answers Message.expired = on_expiry
  outcome_of-Answers Message.rejected = on_rejection
  outcome_of-Answers (Message.register r) = on_echo r

  pub read_back :
      (msg : Message) (bytes : List ℕ)
      → Short msg
      → write_message codec true msg [] ≡ (inr tt, bytes)
      → read_message codec bytes ≡ inr (msg, [])
  read_back msg bytes short e =
      let (frame, out, back) = read_message-write_message codec msg true [] bytes short e in
      ap (read_message codec) (out ∙ sym (append-nil frame)) ∙ back []

  -- Over a stream that works at both ends, with messages that fit a frame, the server reads exactly
  -- the registration that the client made, and the client returns what the message that the server
  -- wrote says, and has sent nothing else: the peer of a match, the relay of a relay match, `Expired` on
  -- that message, `Rejected` on that one, and an unexpected answer on a registration.
  pub register_full-answered :
      (req : RegisterRequest) (answer : Message) (sent response : List ℕ)
      → Short (Message.register req)
      → Short answer
      → write_message codec true (Message.register req) [] ≡ (inr tt, sent)
      → write_message codec true answer [] ≡ (inr tt, response)
      → let registered =
          register_full codec
            (record { connects = true; writable = true; response = some response })
            req in
        Answers answer registered.0
        × (registered.1 ≡ sent)
        × (read_message codec sent ≡ inr (Message.register req, []))
  unfolding register_full after_write awaited received
  register_full-answered req answer sent response short_req short_answer wrote answered = (
    rw (wrote, read_back answer response short_answer answered) (outcome_of-Answers answer),
    rw wrote,
    read_back (Message.register req) sent short_req wrote,
  )

  after_write_inv :
      (response : Option (List ℕ)) (w : (ProtoError ⊎ Unit {0}) × List ℕ) (outcome : MatchOutcome)
      → (after_write codec response w).0 ≡ inr outcome
      → awaited codec response ≡ inr outcome
  unfolding after_write
  after_write_inv response (inl x, sent) outcome e = cc
  after_write_inv response (inr _, sent) outcome e = e

  pub register_full_inv :
      (link : Link) (req : RegisterRequest) (outcome : MatchOutcome) (response : List ℕ)
      (answer : Message)
      → (register_full codec link req).0 ≡ inr outcome
      → link.response ≡ some response
      → read_message codec response ≡ inr (answer, [])
      → outcome_of answer ≡ inr outcome
  unfolding register_full awaited received
  register_full_inv link req outcome response answer e came back = elim (Bool-cases link.connects) [
    | inr off ↦ let never : ⊥ = ground (arith, off, e) in absurd never
    | inl on ↦
        let w = write_message codec link.writable (Message.register req) [] in
        let opened : register_full codec link req ≡ after_write codec link.response w = rw on in
        let heard = after_write_inv link.response w outcome (sym (ap (λ x. x.0) opened) ∙ e) in
        sym (ap (awaited codec) came ∙ ap received back) ∙ heard
  ]
