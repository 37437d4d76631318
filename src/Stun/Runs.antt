-- ===== src/Stun/Runs.antt =====
-- stun.rs: the theorems at concrete inputs.
use p2pfile_transfer.Common.{
  ℕ, ◌≡◌, refl, false, List, [], ◌∷◌, some, take, arith, length, ◌≤◌, bytes_eq,
}
use p2pfile_transfer.Common.Bytes.{to_be_bytes}
use p2pfile_transfer.Errors.{ok}
use p2pfile_transfer.Stun.{
  SocketAddr, v4, Arrival, packet, is_answer, await_answer, same_addr, same_ip, padded,
}
use p2pfile_transfer.Stun.Attributes.{Attribute, Unrelated}
use p2pfile_transfer.Stun.Response.{attributes, response}
use p2pfile_transfer.Stun.Answer.{await_answer-response}

abbrev server : SocketAddr
server = record { ip = v4 (9 ∷ 9 ∷ 9 ∷ 9 ∷ []); port = 3478 }

abbrev stranger : SocketAddr
stranger = record { ip = v4 (6 ∷ 6 ∷ 6 ∷ 6 ∷ []); port = 3478 }

abbrev tx : List ℕ
tx = 1 ∷ 2 ∷ 3 ∷ 4 ∷ 5 ∷ 6 ∷ 7 ∷ 8 ∷ 9 ∷ 10 ∷ 11 ∷ 12 ∷ []

-- The address 1.2.3.4, and a spoofed answer that comes first.
abbrev spoofed : Arrival
spoofed = packet stranger (0 ∷ [])

spoofed_foreign : is_answer server tx stranger (take 1024 (0 ∷ [])) ≡ false
unfolding is_answer same_addr same_ip bytes_eq
spoofed_foreign = refl

-- SOFTWARE, with a name of three bytes.
abbrev software : Attribute
software = record { kind = 0x8022; value = 97 ∷ 98 ∷ 99 ∷ [] }

software-Unrelated : Unrelated software
software-Unrelated = record {
  small_kind = omega arith;
  short = omega arith;
  not_mapped = λ e. omega (arith, e);
  not_xor_mapped = λ e. omega (arith, e);
}

short : length (attributes (software ∷ []) 0x01020304 5000 (0 ∷ [])) ≤ 1004
unfolding padded to_be_bytes
short = omega arith

await_answer-response_example :
    await_answer server tx
      (spoofed ∷ packet server (response tx (software ∷ []) 0x01020304 5000 (0 ∷ [])) ∷ [])
    ≡ some (ok (record { ip = v4 (to_be_bytes 4 0x01020304); port = 5000 }))
await_answer-response_example =
    await_answer-response server tx 0x01020304 5000 refl (omega arith) (omega arith) (software ∷ [])
      (0 ∷ []) (software-Unrelated, tt) short (spoofed ∷ []) [] (spoofed_foreign, tt)
