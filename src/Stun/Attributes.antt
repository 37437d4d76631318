-- ===== src/Stun/Attributes.antt =====
-- stun.rs: the attributes of an answer, as RFC 5389 lays them out, and the walk over those in front of the
-- one that has the address.
use p2pfile_transfer.Common.{
  ℕ, zero, suc, ◌+◌, ◌-◌, ◌%◌, ◌^◌, ◌≤◌, ◌<◌, ◌≡◌, ◌≢◌, refl, sym, ap, ◌∙◌, true, false, List, [],
  ◌∷◌, ◌++◌, Option, arith, take, drop, length, leb, ltb, ◌==◌, take_front, drop_front,
  length-append, replicate, All,
}
use p2pfile_transfer.Common.Bytes.{
  to_be_bytes, from_be_bytes, length-to_be_bytes, from_be_bytes-to_be_bytes,
}
use mathlib.Core.List.{append_assoc}
use p2pfile_transfer.Errors.{Result}
use p2pfile_transfer.Stun.{SocketAddr, find_address, address_in, padded, number_at}

drop_nothing : {A : Type 0} (n : ℕ) → drop {A = A} n [] ≡ []
drop_nothing zero = refl
drop_nothing (suc n) = refl

pub drop_add : {A : Type 0} (m n : ℕ) (l : List A) → drop (m + n) l ≡ drop n (drop m l)
drop_add zero n l = ap (λ k. drop k l) (omega arith)
drop_add (suc m) n [] = drop_nothing (suc m + n) ∙ sym (drop_nothing n)
drop_add (suc m) n (x ∷ l) =
    let e : suc m + n ≡ suc (m + n) = omega arith in ap (λ k. drop k (x ∷ l)) e ∙ drop_add m n l

length-zeros : (n : ℕ) → length {A = ℕ} (replicate n 0) ≡ n
length-zeros zero = refl
length-zeros (suc n) = omega (arith, length-zeros n)

pub record Attribute : Type 0 where
  pub kind : ℕ
  pub value : List ℕ

-- How many bytes fill a value up to a multiple of four.
abbrev pub fill : ℕ → ℕ
fill n = (4 - n % 4) % 4

-- Type, length and value, and zeros behind it.
abbrev pub laid_out : Attribute → List ℕ
laid_out a =
    to_be_bytes 2 a.kind
    ++ (to_be_bytes 2 (length a.value) ++ (a.value ++ replicate (fill (length a.value)) 0))

abbrev pub all_laid_out : List Attribute → List ℕ
all_laid_out [] = []
all_laid_out (a ∷ attributes) = laid_out a ++ all_laid_out attributes

-- Neither MAPPED-ADDRESS nor XOR-MAPPED-ADDRESS.
pub record Unrelated (a : Attribute) : Type 0 where
  pub small_kind : a.kind < 2 ^ 16
  pub short : length a.value < 2 ^ 16
  pub not_mapped : a.kind ≢ 1
  pub not_xor_mapped : a.kind ≢ 0x20

padded-fill : (n : ℕ) → padded n ≡ n + fill n
unfolding padded
padded-fill n = omega arith

module _ (a : Attribute) where
  abbrev value_bytes : List ℕ
  value_bytes = a.value ++ replicate (fill (length a.value)) 0

  length-value_bytes : length value_bytes ≡ padded (length a.value)
  length-value_bytes = omega (
    arith,
    length-append a.value (replicate (fill (length a.value)) 0),
    length-zeros (fill (length a.value)),
    padded-fill (length a.value),
  )

  length-laid_out : length (laid_out a) ≡ 4 + padded (length a.value)
  length-laid_out = omega (
    arith,
    length-append (to_be_bytes 2 a.kind) (to_be_bytes 2 (length a.value) ++ value_bytes),
    length-append (to_be_bytes 2 (length a.value)) value_bytes,
    length-to_be_bytes 2 a.kind,
    length-to_be_bytes 2 (length a.value),
    length-value_bytes,
  )

pub length-all_laid_out :
    (attributes : List Attribute) → length attributes ≤ length (all_laid_out attributes)
length-all_laid_out [] = omega arith
length-all_laid_out (a ∷ attributes) = omega (
  arith,
  length-append (laid_out a) (all_laid_out attributes),
  length-laid_out a,
  length-all_laid_out attributes,
)

module _ (bytes tx : List ℕ) (end : ℕ) (r : Option (Result SocketAddr)) where
  field_read :
      (n offset : ℕ) (rest : List ℕ)
      → n < 2 ^ 16
      → drop offset bytes ≡ to_be_bytes 2 n ++ rest
      → number_at 2 offset bytes ≡ n
  field_read n offset rest small at =
      ap (λ l. from_be_bytes (take 2 l)) at
      ∙ ap from_be_bytes (take_front (to_be_bytes 2 n) (length-to_be_bytes 2 n) rest)
      ∙ from_be_bytes-to_be_bytes 2 n (omega (arith, small))

  -- An attribute without an address is stepped over, its padding included.
  step :
      (a : Attribute) (rest : List ℕ) (fuel offset : ℕ)
      → Unrelated a
      → drop offset bytes ≡ laid_out a ++ rest
      → offset + length (laid_out a ++ rest) ≡ end
      → find_address fuel bytes tx end (offset + 4 + padded (length a.value)) ≡ r
      → find_address (suc fuel) bytes tx end offset ≡ r
  unfolding find_address address_in
  step a rest fuel offset u at room later =
      rw (kind_read, size_read, inside, in_end, no_xor, no_plain)
        (ap (λ n. find_address fuel bytes tx end (offset + 4 + padded n)) size_read ∙ later)
    where
      split :
          drop offset bytes
          ≡ to_be_bytes 2 a.kind ++ (to_be_bytes 2 (length a.value) ++ (value_bytes a ++ rest))
      split =
          at
          ∙ append_assoc (to_be_bytes 2 a.kind) (to_be_bytes 2 (length a.value) ++ value_bytes a)
              rest
          ∙ ap (λ l. to_be_bytes 2 a.kind ++ l)
              (append_assoc (to_be_bytes 2 (length a.value)) (value_bytes a) rest)

      kind_read : number_at 2 offset bytes ≡ a.kind
      kind_read =
          field_read a.kind offset (to_be_bytes 2 (length a.value) ++ (value_bytes a ++ rest))
            (omega (arith, u.small_kind)) split

      size_read : number_at 2 (offset + 2) bytes ≡ length a.value
      size_read =
          field_read (length a.value) (offset + 2) (value_bytes a ++ rest) (omega (arith, u.short))
            (drop_add offset 2 bytes
              ∙ ap (drop 2) split
              ∙ drop_front (to_be_bytes 2 a.kind) (length-to_be_bytes 2 a.kind)
                  (to_be_bytes 2 (length a.value) ++ (value_bytes a ++ rest)))

      total : offset + 4 + padded (length a.value) ≤ end
      total = omega (arith, room, length-append (laid_out a) rest, length-laid_out a)

      inside : leb (offset + 4) end ≡ true
      inside = ground (arith, total)

      in_end : ltb end (offset + 4 + length a.value) ≡ false
      in_end = ground (arith, total, padded-fill (length a.value))

      no_xor : (a.kind == 0x20) ≡ false
      no_xor = ground (arith, u.not_xor_mapped)

      no_plain : (a.kind == 1) ≡ false
      no_plain = ground (arith, u.not_mapped)

  -- The walk comes to what stands behind the attributes that have no address.
  pub walk :
      (before : List Attribute) (tail : List ℕ) (fuel offset : ℕ)
      → All Unrelated before
      → drop offset bytes ≡ all_laid_out before ++ tail
      → offset + length (all_laid_out before ++ tail) ≡ end
      → length before < fuel
      → ((left k : ℕ)
          → drop k bytes ≡ tail
          → k + length tail ≡ end
          → find_address (suc left) bytes tx end k ≡ r)
      → find_address fuel bytes tx end offset ≡ r
  walk before tail zero offset h at room enough arrive = absurd (omega (arith, enough))
  walk [] tail (suc fuel) offset h at room enough arrive = arrive fuel offset at room
  walk (a ∷ before) tail (suc fuel) offset (u, h) at room enough arrive =
      let split = append_assoc (laid_out a) (all_laid_out before) tail in
      let rest = all_laid_out before ++ tail in
      let next = offset + 4 + padded (length a.value) in
      step a rest fuel offset u (at ∙ split) (ap (λ l. offset + length l) (sym split) ∙ room) (
        walk before tail fuel next h
          (ap (λ k. drop k bytes) (omega (arith, length-laid_out a))
            ∙ drop_add offset (4 + padded (length a.value)) bytes
            ∙ ap (drop (4 + padded (length a.value))) (at ∙ split)
            ∙ drop_front (laid_out a) (length-laid_out a) rest)
          (omega (arith, room, ap length split, length-append (laid_out a) rest, length-laid_out a))
          (omega (arith, enough)) arrive)
