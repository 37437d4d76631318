-- ===== src/RendezvousProtocol/Codes.antt =====
-- server.rs: which codes pass `is_valid_code`.
use p2pfile_transfer.Common.{
  ℕ, suc, ◌≡◌, ◌≤◌, true, List, [], ◌∷◌, some, All, get_elem?, length, arith, zero,
}
use p2pfile_transfer.RendezvousProtocol.{is_valid_code, all_alphanumeric, between}

all_alphanumeric-get_elem? :
    (bytes : List ℕ) (i b : ℕ)
    → all_alphanumeric bytes ≡ true
    → get_elem? bytes i ≡ some b
    → all_alphanumeric (b ∷ []) ≡ true
unfolding all_alphanumeric
all_alphanumeric-get_elem? [] i b h e = let never : ⊥ = cc in absurd never
all_alphanumeric-get_elem? (x ∷ bytes) zero b h e = ground (arith, h, e)
all_alphanumeric-get_elem? (x ∷ bytes) (suc i) b h e =
    all_alphanumeric-get_elem? bytes i b (ground (arith, h)) e

module _ (alphabet : List ℕ) (valid : is_valid_code alphabet ≡ true) where
  letters : all_alphanumeric alphabet ≡ true
  unfolding is_valid_code
  letters = ground (arith, valid)

  all_alphanumeric_from :
      (code : List ℕ)
      → All (λ b. (i : ℕ) × (get_elem? alphabet i ≡ some b)) code
      → all_alphanumeric code ≡ true
  unfolding all_alphanumeric
  all_alphanumeric_from [] h = ground arith
  all_alphanumeric_from (b ∷ code) ((i, at_i), h) =
      let one = all_alphanumeric-get_elem? alphabet i b letters at_i in
      ground (arith, one, all_alphanumeric_from code h)

  pub is_valid_code_from :
      (code : List ℕ)
      → All (λ b. (i : ℕ) × (get_elem? alphabet i ≡ some b)) code
      → 4 ≤ length code
      → length code ≤ 32
      → is_valid_code code ≡ true
  unfolding is_valid_code between
  is_valid_code_from code h long short = ground (arith, all_alphanumeric_from code h)
