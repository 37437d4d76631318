-- ===== src/Transfer/Receiver/Assembly.antt =====
-- transfer_file.rs: the receiver puts a file together from honest chunk streams, in whatever order
-- and however often they arrive.
use p2pfile_transfer.Common.{
  ℕ, ◌+◌, ◌*◌, ◌^◌, ◌≤◌, ◌<◌, ◌≡◌, inl, inr, true, false, ◌||◌, not, List, [], ◌∷◌, map, arith,
  length, All, ltb, if◌then◌else◌, Bool-cases,
}
use p2pfile_transfer.Common.Counting.{
  contains, count_below, count_below-Distinct, count_below_full, count_below_mono,
}
use p2pfile_transfer.Errors.{ok}
use p2pfile_transfer.Protocol.{ConfigMessage}
use p2pfile_transfer.Compression.{Zstd}
use p2pfile_transfer.Transfer.{stream_index}
use p2pfile_transfer.Transfer.Receiver.{Receiver, accept_chunk, receive_stream, receive_loop}
use p2pfile_transfer.Transfer.Receiver.Filling.{Honest, Filling, stored, stored-Filling}

module _ (z : Zstd) (config : ConfigMessage) (file : List ℕ) (n : ℕ) (completed : List ℕ)
    (covers : n * config.chunk_size < length file + config.chunk_size) (fits : length file < 2 ^ 63)
    (small : config.chunk_size < 2 ^ 32) where
  after_stream : List ℕ → Receiver → Receiver
  after_stream raw r =
      if contains r.seen (stream_index raw)
      then r
      else stored z config file n completed covers fits small (stream_index raw) r

  receive_stream_step :
      (raw : List ℕ) (r : Receiver)
      → Honest z config file n completed raw
      → receive_stream z config n raw r ≡ (ok tt, after_stream raw r)
  unfolding receive_stream after_stream stored accept_chunk
  receive_stream_step raw r h = ground (arith, h.bytes)

  after_stream-Filling :
      (raw : List ℕ) (r : Receiver)
      → Honest z config file n completed raw
      → Filling z config file n completed r
      → Filling z config file n completed (after_stream raw r)
  unfolding after_stream
  after_stream-Filling raw r h f = elim (Bool-cases (contains r.seen (stream_index raw))) [
    | inl old ↦ rw old f
    | inr new ↦ rw new (
        stored-Filling z config file n completed covers fits small (stream_index raw) r h.known
          h.missing new f)
  ]

  -- The index of the stream is seen afterwards, and what was seen stays so.
  after_stream_seen :
      (raw : List ℕ) (r : Receiver) (k : ℕ)
      → contains (after_stream raw r).seen k ≡ contains (stream_index raw ∷ r.seen) k
  unfolding after_stream stored contains
  after_stream_seen raw r k = ground arith

  seen_full :
      (r : Receiver)
      → Filling z config file n completed r
      → count_below (λ k. not (contains completed k)) n ≤ length r.seen
      → (k : ℕ) → k < n
      → contains completed k ≡ false
      → contains r.seen k ≡ true
  seen_full r f enough k h new =
      count_below_full (contains r.seen) (λ k. not (contains completed k)) n
        (λ i _ s. rw (f.fresh i s))
        (omega (arith, count_below-Distinct r.seen n f.distinct f.known)) k h (rw new)

  seen_enough :
      (r : Receiver)
      → Filling z config file n completed r
      → ((k : ℕ) → k < n → contains completed k ≡ false → contains r.seen k ≡ true)
      → count_below (λ k. not (contains completed k)) n ≤ length r.seen
  seen_enough r f all = omega (
    arith,
    count_below-Distinct r.seen n f.distinct f.known,
    count_below_mono (λ k. not (contains completed k)) (contains r.seen) n
        (λ k h e. all k h (ground arith)),
  )

  abbrev pub wanted : ℕ
  wanted = count_below (λ k. not (contains completed k)) n

  abbrev pub Finished : Receiver → Type 0
  Finished r =
      Filling z config file n completed r
      × ((k : ℕ) → k < n → contains completed k ≡ false → contains r.seen k ≡ true)

  pub receive_loop-Finished :
      (arrivals : List (List ℕ)) (r : Receiver)
      → All (Honest z config file n completed) arrivals
      → Filling z config file n completed r
      → ((k : ℕ)
          → k < n
          → contains completed k ≡ false
          → (contains r.seen k || contains (map stream_index arrivals) k) ≡ true)
      → (r' : Receiver) × (receive_loop z config n wanted (map ok arrivals) r ≡ (ok tt, r'))
        × Finished r'
  unfolding receive_loop
  receive_loop-Finished [] r hs f all =
      let seen : (k : ℕ) → k < n → contains completed k ≡ false → contains r.seen k ≡ true =
        λ k h e. unfold contains in ground (arith, all k h e) in
      (r, ground (arith, seen_enough r f seen), (f, seen))
  receive_loop-Finished (raw ∷ later) r hs f all = elim (Bool-cases (ltb (length r.seen) wanted)) [
    | inl more ↦
        let (r', e, fin) =
          receive_loop-Finished later (after_stream raw r) hs.1 (after_stream-Filling raw r hs.0 f)
            (λ k h new.
              rw (after_stream_seen raw r k) (unfold contains in ground (arith, all k h new))) in
        (r', rw (more, receive_stream_step raw r hs.0) e, fin)
    | inr full ↦ (r, rw full, (f, seen_full r f (ground (arith, full))))
  ]
