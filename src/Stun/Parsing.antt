-- ===== src/Stun/Parsing.antt =====
-- stun.rs: every packet is parsed in finitely many rounds, and the answer of a server is understood.
use p2pfile_transfer.Common.{
  ℕ, zero, suc, ◌+◌, ◌<◌, ◌≡◌, refl, inl, inr, Bool, true, false, List, Option, none, some, arith,
  take, drop, length, min, leb, ltb, ◌==◌, not, Bool-cases, if◌then◌else◌,
}
use p2pfile_transfer.Errors.{Result, ok, err, protocol}
use p2pfile_transfer.Stun.{
  SocketAddr, binding_response, magic_cookie, find_address, parse_binding_response, address_in,
  padded, number_at,
}

module _ (bytes tx_id : List ℕ) (end : ℕ) where
  find_address-some :
      (fuel offset : ℕ)
      → 0 < fuel
      → end < offset + fuel
      → (r : Result SocketAddr) × (find_address fuel bytes tx_id end offset ≡ some r)
  unfolding find_address padded
  find_address-some zero offset pos h = absurd (omega arith)
  find_address-some (suc fuel) offset pos h = elim (Bool-cases (leb (offset + 4) end)) [
    | inr past ↦ (err protocol, rw past refl)
    | inl inside ↦
        let attr_len = number_at 2 (offset + 2) bytes in
        elim (Bool-cases (ltb end (offset + 4 + attr_len))) [
          | inl long ↦ (err protocol, rw (inside, long) refl)
          | inr fits ↦
              let found =
                address_in (number_at 2 offset bytes) (take attr_len (drop (offset + 4) bytes))
                  tx_id in
              by_address inside fits found refl (
                find_address-some fuel (offset + 4 + padded attr_len) (ground (arith, inside))
                  (ground (arith, inside)))
        ]
  ]
    where
      by_address :
          leb (offset + 4) end ≡ true
          → ltb end (offset + 4 + number_at 2 (offset + 2) bytes) ≡ false
          → (o : Option SocketAddr)
          → address_in
              (number_at 2 offset bytes)
              (take (number_at 2 (offset + 2) bytes) (drop (offset + 4) bytes))
              tx_id
            ≡ o
          → (r : Result SocketAddr) × (find_address fuel bytes tx_id end
                (offset + 4 + padded (number_at 2 (offset + 2) bytes))
              ≡ some r)
          → (r : Result SocketAddr) × (find_address (suc fuel) bytes tx_id end offset ≡ some r)
      by_address inside fits (some a) e later = (ok a, rw (inside, fits, e, find_address) refl)
      by_address inside fits none e (r, later) = (r, rw (inside, fits, e, find_address) later)

guarded :
    (b : Bool) (x : Option (Result SocketAddr))
    → (r : Result SocketAddr) × (x ≡ some r)
    → (r : Result SocketAddr) × ((if b then some (err protocol) else x) ≡ some r)
guarded true x h = (err protocol, refl)
guarded false x h = h

-- Whatever the bytes are, the parse ends, with an address or an error.
parse_binding_response-some :
    (bytes : List ℕ) → (r : Result SocketAddr) × (parse_binding_response bytes ≡ some r)
unfolding parse_binding_response
parse_binding_response-some bytes = guarded (ltb (length bytes) 20) _ (
    guarded (not (number_at 2 0 bytes == binding_response)) _ (
      guarded (not (number_at 4 4 bytes == magic_cookie)) _ (
        find_address-some bytes (take 12 (drop 8 bytes))
          (min (20 + number_at 2 2 bytes) (length bytes)) (suc (length bytes)) 20 (omega arith)
          (omega arith))))
