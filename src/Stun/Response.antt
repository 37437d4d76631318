-- ===== src/Stun/Response.antt =====
-- stun.rs: the response of a server, as RFC 5389 lays it out, is parsed.
use Prim.Native.Nat.{bit_xor}
use p2pfile_transfer.Common.{
  ℕ, suc, ◌+◌, ◌/◌, ◌^◌, ◌<◌, ◌≡◌, refl, ap, ◌∙◌, true, false, List, [], ◌∷◌, ◌++◌, some, arith,
  take, drop, length, leb, ltb, min, take_front, drop_front, length-append, take_past, All,
}
use p2pfile_transfer.Common.Bytes.{
  to_be_bytes, from_be_bytes, length-to_be_bytes, from_be_bytes-to_be_bytes,
}
use p2pfile_transfer.Common.Xor.{bit_xor_twice, bit_xor-lt}
use p2pfile_transfer.Errors.{ok}
use p2pfile_transfer.Stun.Attributes.{
  drop_add, Attribute, all_laid_out, Unrelated, length-all_laid_out, walk,
}
use p2pfile_transfer.Stun.{
  SocketAddr, v4, magic_cookie, find_address, parse_binding_response, address_in, parse_xor_mapped,
}

-- The value of XOR-MAPPED-ADDRESS for an IPv4 address.
abbrev pub xor_value : ℕ → ℕ → List ℕ
xor_value ip port =
    0
    ∷ 1
    ∷ (to_be_bytes 2 (bit_xor port (magic_cookie / 65536))
        ++ to_be_bytes 4 (bit_xor ip magic_cookie))

-- The attributes of an answer: some without an address, XOR-MAPPED-ADDRESS, and anything behind it.
abbrev pub attributes : List Attribute → ℕ → ℕ → List ℕ → List ℕ
attributes before ip port after =
    all_laid_out before ++ (0 ∷ 0x20 ∷ 0 ∷ 8 ∷ (xor_value ip port ++ after))

-- A binding response with them.
abbrev pub response : List ℕ → List Attribute → ℕ → ℕ → List ℕ → List ℕ
response tx before ip port after =
    1
    ∷ 1
    ∷ (to_be_bytes 2 (length (attributes before ip port after))
        ++ (0x21 ∷ 0x12 ∷ 0xA4 ∷ 0x42 ∷ (tx ++ attributes before ip port after)))

module _ (tx : List ℕ) (ip port : ℕ) (twelve : length tx ≡ 12) (small_ip : ip < 2 ^ 32)
    (small_port : port < 2 ^ 16) where
  abbrev key_port : ℕ
  key_port = magic_cookie / 65536

  p : List ℕ
  p = to_be_bytes 2 (bit_xor port key_port)

  q : List ℕ
  q = to_be_bytes 4 (bit_xor ip magic_cookie)

  p_two : length p ≡ 2
  unfolding p
  p_two = length-to_be_bytes 2 (bit_xor port key_port)

  q_four : length q ≡ 4
  unfolding q
  q_four = length-to_be_bytes 4 (bit_xor ip magic_cookie)

  port_back : bit_xor (from_be_bytes p) key_port ≡ port
  unfolding p
  port_back =
      ap (λ x. bit_xor x key_port)
        (from_be_bytes-to_be_bytes 2 (bit_xor port key_port)
          (bit_xor-lt 16 port key_port small_port (omega arith)))
      ∙ bit_xor_twice port key_port

  ip_back : bit_xor (from_be_bytes q) magic_cookie ≡ ip
  unfolding q
  ip_back =
      ap (λ x. bit_xor x magic_cookie)
        (from_be_bytes-to_be_bytes 4 (bit_xor ip magic_cookie)
          (bit_xor-lt 32 ip magic_cookie small_ip (omega arith)))
      ∙ bit_xor_twice ip magic_cookie

  attr : List ℕ
  attr = 0 ∷ 1 ∷ (p ++ q)

  length-attr : length attr ≡ 8
  unfolding attr
  length-attr = omega (arith, length-append p q, p_two, q_four)

  family : from_be_bytes (1 ∷ []) ≡ 1
  unfolding from_be_bytes
  family = refl

  attr_parses : parse_xor_mapped attr tx ≡ ok (record { ip = v4 (to_be_bytes 4 ip); port = port })
  unfolding parse_xor_mapped attr
  attr_parses =
      let long : ltb (length attr) 8 ≡ false = ground (arith, length-attr) in
      rw (
        long,
        family,
        take_front p p_two q,
        drop_front p p_two q,
        take_past 4 q (omega (arith, q_four)),
        port_back,
        ip_back,
      )

  abbrev expected : SocketAddr
  expected = record { ip = v4 (to_be_bytes 4 ip); port = port }

  type_read : from_be_bytes (0 ∷ 0x20 ∷ []) ≡ 0x20
  unfolding from_be_bytes
  type_read = refl

  length_read : from_be_bytes (0 ∷ 8 ∷ []) ≡ 8
  unfolding from_be_bytes
  length_read = refl

  address_found : address_in 0x20 attr tx ≡ some expected
  unfolding address_in
  address_found = rw (attr_parses, address_in)

  header :
      (from_be_bytes (1 ∷ 1 ∷ []) ≡ 0x0101)
      × (from_be_bytes (0x21 ∷ 0x12 ∷ 0xA4 ∷ 0x42 ∷ []) ≡ magic_cookie)
  unfolding from_be_bytes
  header = (refl, refl)

  module _ (before : List Attribute) (after : List ℕ) (unrelated : All Unrelated before)
      (short : length (attributes before ip port after) < 2 ^ 16) where
    -- The attribute with the address, and what is behind it.
    abbrev tail : List ℕ
    tail = 0 ∷ 0x20 ∷ 0 ∷ 8 ∷ (attr ++ after)

    abbrev attrs : List ℕ
    attrs = all_laid_out before ++ tail

    -- What is behind the two fields of the header.
    abbrev body : List ℕ
    body = 0x21 ∷ 0x12 ∷ 0xA4 ∷ 0x42 ∷ (tx ++ attrs)

    abbrev bytes : List ℕ
    bytes = 1 ∷ 1 ∷ (to_be_bytes 2 (length attrs) ++ body)

    same_attributes : attrs ≡ attributes before ip port after
    unfolding attr p q
    same_attributes = refl

    small : length attrs < 2 ^ 16
    small = omega (arith, ap length same_attributes, short)

    length-bytes : length bytes ≡ 20 + length attrs
    length-bytes = omega (
      arith,
      length-append (to_be_bytes 2 (length attrs)) body,
      length-to_be_bytes 2 (length attrs),
      length-append tx attrs,
      twelve,
    )

    size_read : from_be_bytes (take 2 (to_be_bytes 2 (length attrs) ++ body)) ≡ length attrs
    size_read =
        ap from_be_bytes
          (take_front (to_be_bytes 2 (length attrs)) (length-to_be_bytes 2 (length attrs)) body)
        ∙ from_be_bytes-to_be_bytes 2 (length attrs) (omega (arith, small))

    body_at : drop 2 (to_be_bytes 2 (length attrs) ++ body) ≡ body
    body_at = drop_front (to_be_bytes 2 (length attrs)) (length-to_be_bytes 2 (length attrs)) body

    tx_at : drop 6 (to_be_bytes 2 (length attrs) ++ body) ≡ tx ++ attrs
    tx_at = drop_add 2 4 (to_be_bytes 2 (length attrs) ++ body) ∙ ap (drop 4) body_at

    attrs_at : drop 20 bytes ≡ attrs
    attrs_at =
        drop_add 6 12 (to_be_bytes 2 (length attrs) ++ body)
        ∙ ap (drop 12) tx_at
        ∙ drop_front tx twelve attrs

    -- The round of the loop that is at the address.
    arrive :
        (end left k : ℕ)
        → drop k bytes ≡ tail
        → k + length tail ≡ end
        → find_address (suc left) bytes tx end k ≡ some (ok expected)
    unfolding find_address
    arrive end left k at room =
        let sized = length-append attr after in
        let inside : leb (k + 4) end ≡ true = ground (arith, room, sized, length-attr) in
        let fits : ltb end (k + 4 + 8) ≡ false = ground (arith, room, sized, length-attr) in
        rw
          (
            at,
            drop_add k 2 bytes ∙ ap (drop 2) at,
            drop_add k 4 bytes ∙ ap (drop 4) at,
            type_read,
            length_read,
            inside,
            fits,
            take_front attr length-attr after,
            address_found,
          )
          refl

    found : find_address (suc (length bytes)) bytes tx (length bytes) 20 ≡ some (ok expected)
    found =
        walk bytes tx (length bytes) (some (ok expected)) before tail (suc (length bytes)) 20
          unrelated attrs_at (omega (arith, length-bytes))
          (omega (
            arith,
            length-bytes,
            length-all_laid_out before,
            length-append (all_laid_out before) tail,
          ))
          (arrive (length bytes))

    parsed : parse_binding_response bytes ≡ some (ok expected)
    unfolding parse_binding_response
    parsed =
        let (kind, cookie) = header in
        let long : ltb (length bytes) 20 ≡ false = ground (arith, length-bytes) in
        let whole : min (20 + length attrs) (length bytes) ≡ length bytes =
          ground (arith, length-bytes) in
        rw (long, kind, size_read, body_at, tx_at, cookie, whole, take_front tx twelve attrs, found)
          refl

  -- The answer of a server, as RFC 5389 lays it out with an XOR-MAPPED-ADDRESS for IPv4, is parsed to
  -- the address and the port that the server saw: for any transaction id of twelve bytes, any address
  -- and any port, whatever attributes of other types stand before it and whatever stands behind it.
  pub parse_binding_response-response :
      (before : List Attribute) (after : List ℕ)
      → All Unrelated before
      → length (attributes before ip port after) < 2 ^ 16
      → parse_binding_response (response tx before ip port after)
        ≡ some (ok (record { ip = v4 (to_be_bytes 4 ip); port = port }))
  unfolding attr p q
  parse_binding_response-response before after unrelated short = parsed before after unrelated short

  module _ (before : List Attribute) (after : List ℕ) (unrelated : All Unrelated before)
      (short : length (attributes before ip port after) < 2 ^ 16) where
    pub length-response :
        length (response tx before ip port after) ≡ 20 + length (attributes before ip port after)
    unfolding attr p q
    length-response = length-bytes before after unrelated short

    pub tx_in_response :
        drop 8 (response tx before ip port after) ≡ tx ++ attributes before ip port after
    unfolding attr p q
    tx_in_response = tx_at before after unrelated short
