-- ===== src/Compression/Laws.antt =====
-- compression.rs: what the adaptive compressor returns and when it decides.
use p2pfile_transfer.Common.{
  ℕ, ◌+◌, ◌%◌, ◌^◌, ◌<◌, ◌≡◌, refl, sym, ap, ◌∙◌, true, false, ◌&&◌, not, leb, List, length, arith,
  if◌then◌else◌,
}
use p2pfile_transfer.Errors.{Result, ok, err, panic}
use p2pfile_transfer.Compression.{
  Zstd, AdaptiveCompressor, Packed, compress, encoded, after_encode, sampled, decide_now,
}

module _ (z : Zstd) where
  -- What the receiver makes of the packed bytes.
  abbrev pub Unpacks : Packed → List ℕ → Type 0
  Unpacks p bytes = if p.used then z.decode p.bytes ≡ ok bytes else p.bytes ≡ bytes

  after_encode-bytes :
      (c : AdaptiveCompressor) (n : ℕ) (packed : List ℕ)
      → ((after_encode z c n packed).0.bytes ≡ packed) × ((after_encode z c n packed).0.used ≡ true)
  unfolding after_encode
  after_encode-bytes c n packed = ground arith

  encoded-Unpacks :
      (c : AdaptiveCompressor) (bytes : List ℕ) (r : Result (List ℕ)) (p : Packed)
      → z.encode c.level bytes ≡ r
      → (encoded z c (length bytes) r).0 ≡ ok p
      → Unpacks p bytes
  unfolding encoded
  encoded-Unpacks c bytes (ok packed) p e h =
      ground
        (arith, after_encode-bytes c (length bytes) packed, z.decode-encode c.level bytes packed)
  encoded-Unpacks c bytes (err x) p e h = ground arith
  encoded-Unpacks c bytes panic p e h = ground arith

  -- What `compress` returns unpacks to the chunk: compressed bytes decode to it, and bytes that
  -- are not marked compressed are the chunk itself.
  pub compress-Unpacks :
      (c : AdaptiveCompressor) (bytes : List ℕ) (p : Packed)
      → (compress z bytes c).0 ≡ ok p
      → Unpacks p bytes
  unfolding compress
  compress-Unpacks c bytes p h =
      ground (arith, encoded-Unpacks c bytes (z.encode c.level bytes) p refl)

  after_encode-sampling :
      (c : AdaptiveCompressor) (n : ℕ) (packed : List ℕ)
      → c.compression_decided ≡ false
      → c.chunks_sampled + 1 < 2 ^ 64
      → ((after_encode z c n packed).1.chunks_sampled ≡ c.chunks_sampled + 1)
        × ((after_encode z c n packed).1.compression_decided
            ≡ leb c.sample_size (c.chunks_sampled + 1))
        × ((after_encode z c n packed).0.used ≡ true)
  unfolding after_encode sampled decide_now
  after_encode-sampling c n packed u l =
      let plain : (c.chunks_sampled + 1) % 2 ^ 64 ≡ c.chunks_sampled + 1 = omega arith in
      ground (arith, plain)

  encoded-sampling :
      (c : AdaptiveCompressor) (n : ℕ) (r : Result (List ℕ)) (p : Packed)
      → c.compression_decided ≡ false
      → c.chunks_sampled + 1 < 2 ^ 64
      → (encoded z c n r).0 ≡ ok p
      → ((encoded z c n r).1.chunks_sampled ≡ c.chunks_sampled + 1)
        × ((encoded z c n r).1.compression_decided ≡ leb c.sample_size (c.chunks_sampled + 1))
        × (p.used ≡ true)
  unfolding encoded
  encoded-sampling c n (ok packed) p u l h =
      let (a, b, d) = after_encode-sampling c n packed u l in
      let same : (after_encode z c n packed).0 ≡ p = cc h in (a, b, ap (λ x. x.used) (sym same) ∙ d)
  encoded-sampling c n (err x) p u l h = cc
  encoded-sampling c n panic p u l h = cc

  undecided-encoded :
      (c : AdaptiveCompressor) (bytes : List ℕ)
      → c.compression_decided ≡ false
      → compress z bytes c ≡ encoded z c (length bytes) (z.encode c.level bytes)
  unfolding compress
  undecided-encoded c bytes u =
      let off : (c.compression_decided && not c.compression_enabled) ≡ false = ground (arith, u) in
      rw (compress, off)

  -- Until the compressor has decided, a chunk that is compressed without error is sent compressed and
  -- counts as a sample, and the decision falls at the sample that brings the count to
  -- `sample_size`, not before (the count stays below 2 ^ 64).
  compress-sampling :
      (c : AdaptiveCompressor) (bytes : List ℕ) (p : Packed)
      → c.compression_decided ≡ false
      → c.chunks_sampled + 1 < 2 ^ 64
      → (compress z bytes c).0 ≡ ok p
      → ((compress z bytes c).1.chunks_sampled ≡ c.chunks_sampled + 1)
        × ((compress z bytes c).1.compression_decided ≡ leb c.sample_size (c.chunks_sampled + 1))
        × (p.used ≡ true)
  compress-sampling c bytes p u l h =
      let same = undecided-encoded c bytes u in
      let (a, b, d) =
        encoded-sampling c (length bytes) (z.encode c.level bytes) p u l
          (ap (λ x. x.0) (sym same) ∙ h) in
      (ap (λ x. x.1.chunks_sampled) same ∙ a, ap (λ x. x.1.compression_decided) same ∙ b, d)

  encoded-decided :
      (c : AdaptiveCompressor) (n : ℕ) (r : Result (List ℕ))
      → c.compression_decided ≡ true
      → (encoded z c n r).1 ≡ c
  unfolding encoded after_encode
  encoded-decided c n (ok packed) e = ground (arith, e)
  encoded-decided c n (err x) e = refl
  encoded-decided c n panic e = refl

  -- Once it has decided, no call changes the compressor: the decision is final.
  pub compress-decided :
      (c : AdaptiveCompressor) (bytes : List ℕ)
      → c.compression_decided ≡ true
      → (compress z bytes c).1 ≡ c
  unfolding compress
  compress-decided c bytes e =
      ground (arith, encoded-decided c (length bytes) (z.encode c.level bytes) e)
