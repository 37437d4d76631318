-- ===== src/Transfer/Receiver/Filling.antt =====
-- transfer_file.rs: what the receiver's file holds while honest chunk streams arrive.
use p2pfile_transfer.Common.{
  ℕ, ◌+◌, ◌*◌, ◌%◌, ◌^◌, ◌≤◌, ◌<◌, ◌≡◌, ◌⊎◌, inl, inr, true, false, List, ◌∷◌, arith, length,
  get_elem?, All,
}
use p2pfile_transfer.Common.Counting.{contains, Distinct}
use p2pfile_transfer.Errors.{ok}
use p2pfile_transfer.Protocol.{ConfigMessage}
use p2pfile_transfer.Compression.{Zstd}
use p2pfile_transfer.Transfer.{u64_mod, stream_index, max_chunk_stream_bytes}
use p2pfile_transfer.Transfer.Disk.{write_at, write_chunk}
use p2pfile_transfer.Transfer.Chunk.{chunk_of, write_right, length-write_own, mul_step}
use p2pfile_transfer.Transfer.Receiver.{well, Receiver, unpack, store}

module _ (z : Zstd) (config : ConfigMessage) (file : List ℕ) (n : ℕ) (completed : List ℕ) where
  abbrev pub cs : ℕ
  cs = config.chunk_size

  -- A stream that carries a chunk of the file which the receiver does not have yet.
  pub record Carries (raw : List ℕ) : Type 0 where
    pub long : 9 ≤ length raw
    pub known : stream_index raw < n
    pub missing : contains completed (stream_index raw) ≡ false
    pub bytes : unpack z config raw ≡ ok (chunk_of file config.chunk_size (stream_index raw))

  -- Such a stream within the receiver's limit.
  pub record Honest (raw : List ℕ) : Type 0 where
    pub carries : Carries raw
    pub open carries use *
    pub short : length raw ≤ max_chunk_stream_bytes

  -- Every place of the chunk holds the file's byte.
  abbrev pub RightChunk : List ℕ → ℕ → Type 0
  RightChunk content k =
      (j : ℕ)
      → j < config.chunk_size
      → k * config.chunk_size + j < length file
      → get_elem? content (k * config.chunk_size + j) ≡ get_elem? file (k * config.chunk_size + j)

  -- The `.partial` file holds the chunks that are completed or seen, and nothing behind the file.
  pub record Filling (r : Receiver) : Type 0 where
    pub size : length r.writer.content ≤ length file
    pub layout : r.writer.chunk_size ≡ cs
    pub before : (k : ℕ) → contains completed k ≡ true → RightChunk r.writer.content k
    pub since : (k : ℕ) → contains r.seen k ≡ true → RightChunk r.writer.content k
    pub fresh : (k : ℕ) → contains r.seen k ≡ true → contains completed k ≡ false
    pub distinct : Distinct r.seen
    pub known : All (λ k. k < n) r.seen
    pub closes : r.closing ≡ well

  -- The last chunk begins inside the file.
  module _ (covers : n * cs < length file + cs) (fits : length file < 2 ^ 63)
      (small : cs < 2 ^ 32) where
    pub begins : (k : ℕ) → k < n → k * cs ≤ length file
    begins k h = omega (arith, mul_step k n cs h)

    unfoldable pub stored : ℕ → Receiver → Receiver
    unfolding store
    stored k r = store k (chunk_of file cs k) (record r { seen = k ∷ r.seen })

    stored_content :
        (k : ℕ) (r : Receiver)
        → k < n
        → r.writer.chunk_size ≡ cs
        → (stored k r).writer.content ≡ write_at (k * cs) (chunk_of file cs k) r.writer.content
    unfolding stored write_chunk
    stored_content k r h e =
        let plain : k * cs % u64_mod ≡ k * cs = omega (arith, begins k h) in rw (e, plain)

    pub stored-Filling :
        (k : ℕ) (r : Receiver)
        → k < n
        → contains completed k ≡ false
        → contains r.seen k ≡ false
        → Filling r
        → Filling (stored k r)
    stored-Filling k r h new unseen f = record {
      size =
          rw (stored_content k r h f.layout)
            (length-write_own file cs k r.writer.content (begins k h) f.size);
      layout = unfold stored write_chunk in f.layout;
      before = λ i ci j hj hl.
          rw (stored_content k r h f.layout)
            (write_right file cs k r.writer.content i j hj hl (inr (f.before i ci j hj hl)));
      since = λ i ci j hj hl.
          rw (stored_content k r h f.layout)
            (write_right file cs k r.writer.content i j hj hl (own i ci j hj hl));
      fresh = λ i ci. elim (split i ci) [ inl e ↦ rw e new | inr s ↦ f.fresh i s ];
      distinct = unfold stored in (unseen, f.distinct);
      known = unfold stored in (h, f.known);
      closes = unfold stored in f.closes;
    }
      where
        split : (i : ℕ) → contains (stored k r).seen i ≡ true → (i ≡ k) ⊎ (contains r.seen i ≡ true)
        split i ci = unfold stored contains in ground arith

        own :
            (i : ℕ)
            → contains (stored k r).seen i ≡ true
            → (j : ℕ) → j < cs
            → i * cs + j < length file
            → (i ≡ k) ⊎ (get_elem? r.writer.content (i * cs + j) ≡ get_elem? file (i * cs + j))
        own i ci j hj hl = elim (split i ci) [ inl e ↦ inl e | inr s ↦ inr (f.since i s j hj hl) ]
