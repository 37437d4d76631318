-- ===== src/Traversal/Codes.antt =====
-- mod.rs and server.rs: the codes that are generated.
use p2pfile_transfer.Common.{
  ℕ, suc, ◌≡◌, ◌<◌, ap, refl, true, List, [], ◌∷◌, some, All, get_elem?, get_elem?-some, length,
  arith,
}
use p2pfile_transfer.Errors.{ok}
use p2pfile_transfer.RendezvousProtocol.{is_valid_code}
use p2pfile_transfer.RendezvousProtocol.Codes.{is_valid_code_from}
use p2pfile_transfer.Traversal.{alphabet, letter, generate_code}

abbrev In : ℕ → Type 0
In b = (i : ℕ) × (get_elem? alphabet i ≡ some b)

alphabet_valid : is_valid_code alphabet ≡ true
unfolding is_valid_code
alphabet_valid = refl

generate_code_all :
    (draws : List ℕ)
    → All (λ d. d < 30) draws
    → (code : List ℕ) × (generate_code draws ≡ ok code) × (length code ≡ length draws) × All In code
unfolding generate_code letter
generate_code_all [] h = ([], refl, refl, tt)
generate_code_all (d ∷ draws) (l, h) =
    let (code, e, size, all_in) = generate_code_all draws h in
    let (b, at_d) = get_elem?-some alphabet d l in
    (b ∷ code, rw (at_d, e), ap suc size, ((d, at_d), all_in))

-- Six random numbers below the size of the alphabet give a code, never a panic, and the rendezvous
-- server's test of a code lets it pass.
generate_code-is_valid_code :
    (draws : List ℕ)
    → length draws ≡ 6
    → All (λ d. d < 30) draws
    → (code : List ℕ) × (generate_code draws ≡ ok code) × (is_valid_code code ≡ true)
generate_code-is_valid_code draws six h =
    let (code, e, size, all_in) = generate_code_all draws h in
    (
      code,
      e,
      is_valid_code_from alphabet alphabet_valid code all_in (omega (arith, six, size))
          (omega (arith, six, size)),
    )
