-- ===== src/Traversal/Sample.antt =====
-- RendezvousWire: a codec for the tests.
use p2pfile_transfer.Common.{
  ℕ, zero, suc, ◌≡◌, refl, subst, Bool, true, false, List, ◌∷◌, ◌++◌, Option, none, some, length,
  take, drop, take_front, drop_front,
}
use p2pfile_transfer.Stun.{IpAddr, SocketAddr, v4, v6}
use p2pfile_transfer.RendezvousProtocol.{RegisterRequest, Message}
use p2pfile_transfer.RendezvousWire.{MessageCodec}

-- A codec for registrations and direct matches.
abbrev pub octets : IpAddr → List ℕ
octets (v4 bytes) = bytes
octets (v6 bytes) = bytes

abbrev pub ip_tag : IpAddr → ℕ
ip_tag (v4 bytes) = 0
ip_tag (v6 bytes) = 1

abbrev pub of_tag : ℕ → List ℕ → IpAddr
of_tag zero bytes = v4 bytes
of_tag (suc n) bytes = v6 bytes

abbrev pub flag : Bool → ℕ
flag false = 0
flag true = 1

abbrev pub of_flag : ℕ → Bool
of_flag zero = false
of_flag (suc n) = true

abbrev pub of_register : RegisterRequest → List ℕ
of_register r =
    0
    ∷ r.protocol_version
    ∷ r.public_endpoint.port
    ∷ r.device_id
    ∷ flag r.want_relay
    ∷ ip_tag r.public_endpoint.ip
    ∷ length r.code
    ∷ length (octets r.public_endpoint.ip)
    ∷ (r.code ++ (octets r.public_endpoint.ip ++ r.cert_fingerprint))

abbrev pub of_match : SocketAddr → List ℕ → ℕ → List ℕ
of_match a fp d = 1 ∷ a.port ∷ d ∷ ip_tag a.ip ∷ length (octets a.ip) ∷ (octets a.ip ++ fp)

abbrev pub encode : Message → Option (List ℕ)
encode (Message.register r) = some (of_register r)
encode (Message.matched a fp d) = some (of_match a fp d)
encode (Message.relay_match a token fp d) = none
encode Message.expired = none
encode Message.rejected = none

abbrev pub decode : List ℕ → Option Message
decode (zero ∷ version ∷ port ∷ d ∷ w ∷ tag ∷ n ∷ k ∷ xs) = some (
    Message.register (record {
      protocol_version = version;
      code = take n xs;
      public_endpoint = record { ip = of_tag tag (take k (drop n xs)); port = port };
      cert_fingerprint = drop k (drop n xs);
      device_id = d;
      want_relay = of_flag w;
    }))
decode (suc _ ∷ port ∷ d ∷ tag ∷ k ∷ xs) =
    some (Message.matched (record { ip = of_tag tag (take k xs); port = port }) (drop k xs) d)
decode _ = none

of_flag-flag : (b : Bool) → of_flag (flag b) ≡ b
of_flag-flag false = refl
of_flag-flag true = refl

of_tag-ip_tag : (ip : IpAddr) → of_tag (ip_tag ip) (octets ip) ≡ ip
of_tag-ip_tag (v4 bytes) = refl
of_tag-ip_tag (v6 bytes) = refl

register_back : (r : RegisterRequest) → decode (of_register r) ≡ some (Message.register r)
register_back r =
    let ip = octets r.public_endpoint.ip in
    rw (
      take_front r.code refl (ip ++ r.cert_fingerprint),
      drop_front r.code refl (ip ++ r.cert_fingerprint),
      take_front ip refl r.cert_fingerprint,
      drop_front ip refl r.cert_fingerprint,
      of_tag-ip_tag r.public_endpoint.ip,
      of_flag-flag r.want_relay,
    )

match_back :
    (a : SocketAddr) (fp : List ℕ) (d : ℕ)
    → decode (of_match a fp d) ≡ some (Message.matched a fp d)
match_back a fp d =
    rw (take_front (octets a.ip) refl fp, drop_front (octets a.ip) refl fp, of_tag-ip_tag a.ip)

pub decode-encode :
    (msg : Message) (payload : List ℕ) → encode msg ≡ some payload → decode payload ≡ some msg
decode-encode (Message.register r) payload e =
    let same : of_register r ≡ payload = cc in
    subst (λ p. decode p ≡ some (Message.register r)) same (register_back r)
decode-encode (Message.matched a fp d) payload e =
    let same : of_match a fp d ≡ payload = cc in
    subst (λ p. decode p ≡ some (Message.matched a fp d)) same (match_back a fp d)
decode-encode (Message.relay_match a token fp d) payload e = cc
decode-encode Message.expired payload e = cc
decode-encode Message.rejected payload e = cc

abbrev pub codec : MessageCodec
codec = record { to_vec = encode; from_slice = decode; from_slice-to_vec = decode-encode }
