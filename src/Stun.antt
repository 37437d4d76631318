-- ===== src/Stun.antt =====
-- p2p-core/src/traversal/stun.rs: the request to a STUN server, the parse of its answer, and the query that waits
-- for the answer among the packets of a shared socket. Offsets into a packet are numbers, as in the
-- source.
pub mod Addresses
pub mod Attributes
pub mod Response
pub mod Parsing
pub mod Answer
pub mod Runs
use Prim.Native.Nat.{bit_xor}
use p2pfile_transfer.Common.{
  ℕ, zero, suc, ◌+◌, ◌*◌, ◌/◌, ◌%◌, ◌≡◌, Bool, true, false, List, [], ◌∷◌, ◌++◌, Option, none, some,
  take, drop, length, min, leb, ltb, ◌==◌, ◌&&◌, not, bytes_eq, if◌then◌else◌, map,
}
use p2pfile_transfer.Common.Bytes.{to_be_bytes, from_be_bytes}
use p2pfile_transfer.Errors.{Error, Result, ok, err, panic, protocol, network, timeout}

abbrev pub binding_request : ℕ
binding_request = 1

abbrev pub binding_response : ℕ
binding_response = 0x0101

abbrev pub magic_cookie : ℕ
magic_cookie = 0x2112A442

abbrev pub attr_mapped_address : ℕ
attr_mapped_address = 1

abbrev pub attr_xor_mapped_address : ℕ
attr_xor_mapped_address = 0x20

-- `IpAddr`, by its octets.
pub data IpAddr : Type 0 where
  v4 : List ℕ → IpAddr
  v6 : List ℕ → IpAddr

pub record SocketAddr : Type 0 where
  pub ip : IpAddr
  pub port : ℕ

-- `tx` are twelve random bytes.
unfoldable pub build_binding_request : List ℕ → List ℕ
build_binding_request tx =
    to_be_bytes 2 binding_request ++ (0 ∷ 0 ∷ (to_be_bytes 4 magic_cookie ++ tx))

-- The number in `n` bytes at an offset.
abbrev pub number_at : ℕ → ℕ → List ℕ → ℕ
number_at n offset bytes = from_be_bytes (take n (drop offset bytes))

unfoldable pub xored : List ℕ → List ℕ → List ℕ
xored [] key = []
xored (b ∷ bytes) [] = b ∷ bytes
xored (b ∷ bytes) (k ∷ key) = bit_xor b k ∷ xored bytes key

unfoldable pub parse_xor_mapped : List ℕ → List ℕ → Result SocketAddr
parse_xor_mapped attr tx_id =
    let family = number_at 1 1 attr in
    let port = bit_xor (number_at 2 2 attr) (magic_cookie / 65536) in
    if ltb (length attr) 8
    then err protocol
    else if family == 1
    then ok (record {
      ip = v4 (to_be_bytes 4 (bit_xor (number_at 4 4 attr) magic_cookie));
      port = port;
    })
    else if family == 2
    then (if ltb (length attr) 20
        then err protocol
        else ok (record {
          ip = v6 (xored (take 16 (drop 4 attr)) (to_be_bytes 4 magic_cookie ++ tx_id));
          port = port;
        }))
    else err protocol

unfoldable pub parse_mapped : List ℕ → Result SocketAddr
parse_mapped attr =
    let family = number_at 1 1 attr in
    let port = number_at 2 2 attr in
    if ltb (length attr) 8
    then err protocol
    else if family == 1
    then ok (record { ip = v4 (take 4 (drop 4 attr)); port = port })
    else if family == 2
    then (if ltb (length attr) 20
        then err protocol
        else ok (record { ip = v6 (take 16 (drop 4 attr)); port = port }))
    else err protocol

-- The `match` on an attribute's type: the address, if it has one.
unfoldable pub address_in : ℕ → List ℕ → List ℕ → Option SocketAddr
address_in attr_type attr tx_id =
    let found : Result SocketAddr =
      if attr_type == attr_xor_mapped_address
      then parse_xor_mapped attr tx_id
      else if attr_type == attr_mapped_address
      then parse_mapped attr
      else err protocol in
    elim found [ ok address ↦ some address | err e ↦ none | panic ↦ none ]

-- `(attr_len + 3) & !3`
unfoldable pub padded : ℕ → ℕ
padded attr_len = (attr_len + 3) / 4 * 4

-- The loop over the attributes, on fuel; the outer `none` says that the fuel ran out.
unfoldable pub find_address : ℕ → List ℕ → List ℕ → ℕ → ℕ → Option (Result SocketAddr)
find_address zero bytes tx_id end offset = none
find_address (suc fuel) bytes tx_id end offset =
    let attr_type = number_at 2 offset bytes in
    let attr_len = number_at 2 (offset + 2) bytes in
    let start = offset + 4 in
    let later = find_address fuel bytes tx_id end (start + padded attr_len) in
    if leb (offset + 4) end
    then (if ltb end (start + attr_len)
        then some (err protocol)
        else elim (address_in attr_type (take attr_len (drop start bytes)) tx_id) [
          | some address ↦ some (ok address)
          | none ↦ later
        ])
    else some (err protocol)

-- One round for each byte is fuel enough.
unfoldable pub parse_binding_response : List ℕ → Option (Result SocketAddr)
parse_binding_response bytes =
    let end = min (20 + number_at 2 2 bytes) (length bytes) in
    let walked = find_address (suc (length bytes)) bytes (take 12 (drop 8 bytes)) end 20 in
    if ltb (length bytes) 20
    then some (err protocol)
    else if not (number_at 2 0 bytes == binding_response)
    then some (err protocol)
    else if not (number_at 4 4 bytes == magic_cookie)
    then some (err protocol)
    else walked

unfoldable pub same_ip : IpAddr → IpAddr → Bool
same_ip (v4 a) (v4 b) = bytes_eq a b
same_ip (v6 a) (v6 b) = bytes_eq a b
same_ip _ _ = false

unfoldable pub same_addr : SocketAddr → SocketAddr → Bool
same_addr a b = same_ip a.ip b.ip && (a.port == b.port)

-- What arrives at the socket: a packet, or an error.
pub data Arrival : Type 0 where
  packet : SocketAddr → List ℕ → Arrival
  broken : Arrival

unfoldable pub is_answer : SocketAddr → List ℕ → SocketAddr → List ℕ → Bool
is_answer server tx from bytes =
    same_addr from server && not (ltb (length bytes) 20) && bytes_eq (take 12 (drop 8 bytes)) tx

-- The loop of `query`, once the request is sent, over what arrives before the deadline; a packet is cut
-- at the size of the buffer.
unfoldable pub await_answer : SocketAddr → List ℕ → List Arrival → Option (Result SocketAddr)
await_answer server tx [] = some (err timeout)
await_answer server tx (broken ∷ later) = some (err network)
await_answer server tx (packet from bytes ∷ later) =
    let others = await_answer server tx later in
    if is_answer server tx from (take 1024 bytes)
    then parse_binding_response (take 1024 bytes)
    else others
