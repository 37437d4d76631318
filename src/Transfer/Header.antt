-- ===== src/Transfer/Header.antt =====
-- transfer_file.rs: the receiver reads back what `send_chunk_stream` wrote.
use p2pfile_transfer.Common.{
  ℕ, suc, ◌+◌, ◌^◌, ◌<◌, ◌≡◌, refl, ap, ◌∙◌, Bool, true, false, List, [], ◌∷◌, ◌++◌, arith, length,
  length-append, drop, take_front, drop_front, if◌then◌else◌,
}
use p2pfile_transfer.Common.Bytes.{
  to_le_bytes, from_le_bytes, length-to_le_bytes, from_le_bytes-to_le_bytes,
}
use p2pfile_transfer.Transfer.{
  chunk_stream, stream_index, stream_flags, stream_payload, is_compressed, first_or_zero,
}

drop-suc : (n : ℕ) (xs : List ℕ) (y : ℕ) (ys : List ℕ) → drop n xs ≡ y ∷ ys → drop (suc n) xs ≡ ys
drop-suc ℕ.zero [] y ys e = cc
drop-suc ℕ.zero (x ∷ xs) y ys e = cc
drop-suc (suc n) [] y ys e = cc
drop-suc (suc n) (x ∷ xs) y ys e = drop-suc n xs y ys e

module _ (index : ℕ) (compressed : Bool) (payload : List ℕ) where
  -- The chunk index, the compression flag and the payload of a stream are read back as sent, for
  -- every u64 index.
  pub chunk_stream_parts :
      index < 2 ^ 64
      → (stream_index (chunk_stream index compressed payload) ≡ index)
        × (is_compressed (stream_flags (chunk_stream index compressed payload)) ≡ compressed)
        × (stream_payload (chunk_stream index compressed payload) ≡ payload)
  unfolding chunk_stream stream_index stream_flags stream_payload is_compressed
  chunk_stream_parts h = (
    ap from_le_bytes (take_front front eight rest) ∙ from_le_bytes-to_le_bytes 8 index h,
    rw (drop_front front eight rest) (flag compressed),
    drop-suc 8 (front ++ rest) _ payload (drop_front front eight rest),
  )
    where
      front : List ℕ
      front = to_le_bytes 8 index

      eight : length front ≡ 8
      eight = length-to_le_bytes 8 index

      rest : List ℕ
      rest = (if compressed then 1 else 0) ∷ payload

      flag : (b : Bool) → is_compressed (first_or_zero ((if b then 1 else 0) ∷ payload)) ≡ b
      flag true = refl
      flag false = refl

  pub length-chunk_stream : length (chunk_stream index compressed payload) ≡ 9 + length payload
  unfolding chunk_stream
  length-chunk_stream =
      let byte : ℕ = if compressed then 1 else 0 in
      omega
        (arith, length-append (to_le_bytes 8 index) (byte ∷ payload), length-to_le_bytes 8 index)
