-- ===== src/Stun/Answer.antt =====
-- stun.rs: the answer of a server is found among what arrives, and understood.
use p2pfile_transfer.Common.{
  ℕ, ◌+◌, ◌^◌, ◌≤◌, ◌<◌, ◌≡◌, refl, ◌∙◌, true, false, List, [], ◌∷◌, ◌++◌, some, arith, take, drop,
  length, ltb, take_front, take_past, All, bytes_eq_refl,
}
use p2pfile_transfer.Common.Bytes.{to_be_bytes}
use p2pfile_transfer.Errors.{ok}
use p2pfile_transfer.Stun.Attributes.{Attribute, Unrelated}
use p2pfile_transfer.Stun.Response.{
  attributes, response, length-response, tx_in_response, parse_binding_response-response,
}
use p2pfile_transfer.Stun.Addresses.{same_addr_refl}
use p2pfile_transfer.Stun.{SocketAddr, v4, Arrival, packet, broken, is_answer, await_answer}

-- Packets that are not the server's answer to this request.
abbrev pub Foreign : SocketAddr → List ℕ → Arrival → Type 0
Foreign server tx (packet from bytes) = is_answer server tx from (take 1024 bytes) ≡ false
Foreign server tx broken = ⊥

ignored :
    (server : SocketAddr) (tx : List ℕ) (before later : List Arrival)
    → All (Foreign server tx) before
    → await_answer server tx (before ++ later) ≡ await_answer server tx later
unfolding await_answer
ignored server tx [] later h = refl
ignored server tx (packet from bytes ∷ before) later (f, h) =
    rw f (ignored server tx before later h)
ignored server tx (broken ∷ before) later (f, h) = absurd f

module _ (server : SocketAddr) (tx : List ℕ) (ip port : ℕ) (twelve : length tx ≡ 12)
    (small_ip : ip < 2 ^ 32) (small_port : port < 2 ^ 16) (attrs_before : List Attribute)
    (attrs_after : List ℕ) (unrelated : All Unrelated attrs_before)
    (fits : length (attributes attrs_before ip port attrs_after) ≤ 1004) where
  abbrev answer : List ℕ
  answer = response tx attrs_before ip port attrs_after

  short : length (attributes attrs_before ip port attrs_after) < 2 ^ 16
  short = omega (arith, fits)

  length-answer : length answer ≡ 20 + length (attributes attrs_before ip port attrs_after)
  length-answer =
      length-response tx ip port twelve small_ip small_port attrs_before attrs_after unrelated short

  whole : take 1024 answer ≡ answer
  whole = take_past 1024 answer (omega (arith, length-answer, fits))

  tx_at_8 : drop 8 answer ≡ tx ++ attributes attrs_before ip port attrs_after
  tx_at_8 =
      tx_in_response tx ip port twelve small_ip small_port attrs_before attrs_after unrelated short

  is_answer-response : is_answer server tx server answer ≡ true
  unfolding is_answer
  is_answer-response =
      let long : ltb (length answer) 20 ≡ false = ground (arith, length-answer) in
      rw (
        same_addr_refl server,
        long,
        tx_at_8,
        take_front tx twelve (attributes attrs_before ip port attrs_after),
        bytes_eq_refl tx,
      )

  -- A query returns the address that the server's answer names, for any transaction id of twelve bytes,
  -- any IPv4 address and any port. The answer, of 1024 bytes at most, has an XOR-MAPPED-ADDRESS;
  -- any attributes that are no addresses may stand before it, of any length and padded, and any
  -- bytes behind it. Whatever packets that are not its answer arrive before, and whatever arrives
  -- behind it.
  pub await_answer-response :
      (before later : List Arrival)
      → All (Foreign server tx) before
      → await_answer server tx (before ++ (packet server answer ∷ later))
        ≡ some (ok (record { ip = v4 (to_be_bytes 4 ip); port = port }))
  unfolding await_answer
  await_answer-response before later h =
      ignored server tx before (packet server answer ∷ later) h
      ∙ rw (whole, is_answer-response)
          (parse_binding_response-response tx ip port twelve small_ip small_port attrs_before
            attrs_after unrelated short)
