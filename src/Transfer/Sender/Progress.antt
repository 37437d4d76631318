-- ===== src/Transfer/Sender/Progress.antt =====
-- transfer_file.rs: what `send_file` has sent, marked and hashed after each round of its loop.
use p2pfile_transfer.Common.{
  ℕ, ◌+◌, ◌-◌, ◌*◌, ◌%◌, ◌^◌, ◌≤◌, ◌<◌, ◌≡◌, sym, inl, inr, true, false, List, [], ◌∷◌, ◌++◌, map,
  arith, length, length-drop, take, drop, All, All-append, ◌==◌, Bool-cases, min, take-add,
  take-min, map-append_one,
}
use p2pfile_transfer.Common.Counting.{contains, Distinct, contains-append, Distinct-append}
use p2pfile_transfer.Errors.{ok}
use p2pfile_transfer.Protocol.{ConfigMessage}
use p2pfile_transfer.Compression.{Zstd, Packed}
use p2pfile_transfer.Compression.Laws.{Unpacks}
use p2pfile_transfer.Transfer.{u64_mod, stream_index, chunk_stream}
use p2pfile_transfer.Transfer.Chunk.{chunk_of}
use p2pfile_transfer.Transfer.Header.{chunk_stream_parts, length-chunk_stream}
use p2pfile_transfer.Transfer.Receiver.{unpack}
use p2pfile_transfer.Transfer.Receiver.Filling.{Carries}
use p2pfile_transfer.Transfer.Sender.{ChunkReader, read_chunk}

module _ (z : Zstd) (config : ConfigMessage) (file : List ℕ) (n : ℕ) (completed : List ℕ) where
  abbrev pub cs : ℕ
  cs = config.chunk_size

  -- The streams and marks once the chunks below `i` are dealt with.
  pub record Sent (i : ℕ) (streams : List (List ℕ)) (marked : List ℕ) : Type 0 where
    pub carried : All (Carries z config file n completed) streams
    pub indices : map stream_index streams ≡ marked
    pub covered : (k : ℕ) → k < i → contains completed k ≡ false → contains marked k ≡ true
    pub fresh : (k : ℕ) → i ≤ k → contains marked k ≡ false
    pub distinct : Distinct marked

  -- The reader has hashed the file up to chunk `i`.
  pub record Reads (i : ℕ) (r : ChunkReader) : Type 0 where
    pub same_file : r.file ≡ file
    pub layout : r.chunk_size ≡ cs
    pub same_size : r.file_size ≡ length file
    pub hashed : r.hasher ≡ take (i * cs) file

  pub skip-Sent :
      {i : ℕ} {streams : List (List ℕ)} {marked : List ℕ}
      → contains completed i ≡ true
      → Sent i streams marked
      → Sent (i + 1) streams marked
  skip-Sent {i} {streams} {marked} old s = record {
    carried = s.carried;
    indices = s.indices;
    covered = λ k h new. elim (Bool-cases (k == i)) [
      | inl e ↦ let e' : k ≡ i = ground arith in cc (rw e' at new, old)
      | inr e ↦ s.covered k (ground (arith, e)) new
    ];
    fresh = λ k h. s.fresh k (omega arith);
    distinct = s.distinct;
  }

  pub chunk_stream-Carries :
      (i : ℕ) (p : Packed)
      → i < n
      → i < 2 ^ 64
      → contains completed i ≡ false
      → (p.used ≡ true → config.compression_enabled ≡ true)
      → Unpacks z p (chunk_of file cs i)
      → Carries z config file n completed (chunk_stream i p.used p.bytes)
  unfolding unpack
  chunk_stream-Carries i p h fits new enabled u =
      let (index, flag, payload) = chunk_stream_parts i p.used p.bytes fits in
      record {
        long = omega (arith, length-chunk_stream i p.used p.bytes);
        known = rw index h;
        missing = rw index new;
        bytes = rw (index, flag, payload) (ground (arith, enabled, u));
      }

  pub send-Sent :
      {i : ℕ} {streams : List (List ℕ)} {marked : List ℕ} (stream : List ℕ)
      → Carries z config file n completed stream
      → stream_index stream ≡ i
      → Sent i streams marked
      → Sent (i + 1) (streams ++ (stream ∷ [])) (marked ++ (i ∷ []))
  send-Sent {i} {streams} {marked} stream c e s = record {
    carried = All-append _ streams (stream ∷ []) s.carried (c, tt);
    indices = rw (map-append_one stream_index streams stream, s.indices, e);
    covered = λ k h new. rw (contains-append marked i k) (ground (arith, s.covered k));
    fresh = λ k h. rw (contains-append marked i k) (ground (arith, s.fresh k));
    distinct = Distinct-append marked i s.distinct (s.fresh i (omega arith));
  }

  module _ (fits : length file < 2 ^ 63) (small : config.chunk_size < 2 ^ 32) where
    -- Reading chunk `i` gives its bytes, and feeds them to the hash.
    pub read_chunk-Reads :
        (i : ℕ) (r : ChunkReader)
        → i * cs ≤ length file
        → Reads i r
        → (r' : ChunkReader) × (read_chunk i r ≡ (ok (chunk_of file cs i), r')) × Reads (i + 1) r'
    unfolding read_chunk
    read_chunk-Reads i r h v = (
      record r { hasher = r.hasher ++ chunk_of file cs i },
      rw (v.layout, offset, v.same_size, remaining, v.same_file) (ground (arith, bytes)),
      record {
        same_file = v.same_file;
        layout = v.layout;
        same_size = v.same_size;
        hashed = rw v.hashed (
            let e : (i + 1) * cs ≡ i * cs + cs = omega arith in
            rw e (sym (take-add (i * cs) cs file)));
      },
    )
      where
        offset : i * cs % u64_mod ≡ i * cs
        offset = omega arith

        remaining : (length file + u64_mod - i * cs) % u64_mod ≡ length file - i * cs
        remaining = omega arith

        bytes : take (min (length file - i * cs) cs) (drop (i * cs) file) ≡ chunk_of file cs i
        bytes = rw (← length-drop (i * cs) file) (take-min cs (drop (i * cs) file))
