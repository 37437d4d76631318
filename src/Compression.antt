-- ===== src/Compression.antt =====
-- p2p-core/src/compression.rs: the adaptive compressor. zstd and the floating-point comparison of
-- the ratio are parameters.
pub mod Laws
use p2pfile_transfer.Common.{
  ℕ, ◌+◌, ◌%◌, ◌^◌, ◌≡◌, Bool, true, false, List, [], ◌∷◌, ◌++◌, leb, ◌==◌, if◌then◌else◌, length,
  not, ◌&&◌,
}
use p2pfile_transfer.Common.Int.{ℤ}
use p2pfile_transfer.Errors.{Result, ok, err, panic}
use p2pfile_transfer.Effects.{M, ◌>>=◌, ◌>>◌, lift, done}

-- `encode_all`, `decode_all` and the test `original as f64 / compressed as f64 < 1.05`. The law is
-- zstd's contract: what was encoded is decoded to the same bytes.
pub record Zstd : Type 0 where
  pub encode : ℤ → List ℕ → Result (List ℕ)
  pub decode : List ℕ → Result (List ℕ)
  pub ratio_low : ℕ → ℕ → Bool
  pub decode-encode :
      (level : ℤ) (bytes packed : List ℕ)
      → encode level bytes ≡ ok packed
      → decode packed ≡ ok bytes

pub record AdaptiveCompressor : Type 0 where
  pub level : ℤ
  pub sample_size : ℕ
  pub chunks_sampled : ℕ
  pub total_original_size : ℕ
  pub total_compressed_size : ℕ
  pub compression_enabled : Bool
  pub compression_decided : Bool

-- `AdaptiveCompressor::new`
unfoldable pub new : ℤ → ℕ → AdaptiveCompressor
new level sample_size = record {
  level = level;
  sample_size = sample_size;
  chunks_sampled = 0;
  total_original_size = 0;
  total_compressed_size = 0;
  compression_enabled = true;
  compression_decided = sample_size == 0;
}

-- The bytes to send, whether they are compressed, and whether the decision has just changed.
pub record Packed : Type 0 where
  pub bytes : List ℕ
  pub used : Bool
  pub changed : Bool

-- The sampling counters after one more chunk.
sampled : AdaptiveCompressor → ℕ → ℕ → AdaptiveCompressor
sampled c original_size compressed_size = record c {
  chunks_sampled = (c.chunks_sampled + 1) % 2 ^ 64;
  total_original_size = (c.total_original_size + original_size) % 2 ^ 64;
  total_compressed_size = (c.total_compressed_size + compressed_size) % 2 ^ 64;
}

module _ (z : Zstd) where
  -- The decision, once enough chunks are sampled.
  decide_now : AdaptiveCompressor → Bool × AdaptiveCompressor
  decide_now c =
      if z.ratio_low c.total_original_size c.total_compressed_size
      then (true, record c { compression_enabled = false; compression_decided = true })
      else (false, record c { compression_decided = true })

  after_encode : AdaptiveCompressor → ℕ → List ℕ → Packed × AdaptiveCompressor
  unfolding sampled decide_now
  after_encode c original_size packed =
      let c' = sampled c original_size (length packed) in
      if c.compression_decided
      then (record { bytes = packed; used = true; changed = false }, c)
      else if leb c'.sample_size c'.chunks_sampled
      then (record { bytes = packed; used = true; changed = (decide_now c').0 }, (decide_now c').1)
      else (record { bytes = packed; used = true; changed = false }, c')

  -- A failing encoder leaves the counters as they were.
  encoded : AdaptiveCompressor → ℕ → Result (List ℕ) → Result Packed × AdaptiveCompressor
  unfolding after_encode
  encoded c original_size (ok packed) =
      (ok (after_encode c original_size packed).0, (after_encode c original_size packed).1)
  encoded c original_size (err e) = (err e, c)
  encoded c original_size panic = (panic, c)

  -- `AdaptiveCompressor::compress`
  unfoldable pub compress : List ℕ → M AdaptiveCompressor Packed
  unfolding encoded
  compress bytes c =
      if c.compression_decided && not c.compression_enabled
      then (ok (record { bytes = bytes; used = false; changed = false }), c)
      else encoded c (length bytes) (z.encode c.level bytes)
