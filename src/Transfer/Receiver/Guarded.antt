-- ===== src/Transfer/Receiver/Guarded.antt =====
-- transfer_file.rs: what `receive_file` promises whatever the peer sends.
use p2pfile_transfer.Common.{
  ℕ, ◌*◌, ◌%◌, ◌≤◌, ◌<◌, ◌≡◌, refl, false, List, [], ◌∷◌, arith, length, All, none, some, ltb, leb,
  Bool-cases, inl, inr, ap, sym, ◌⊎◌,
}
use p2pfile_transfer.Common.Counting.{contains, Distinct}
use p2pfile_transfer.Errors.{Result, ok, err, panic}
use p2pfile_transfer.Effects.{and_then}
use p2pfile_transfer.Protocol.{Digest, ConfigMessage}
use p2pfile_transfer.Compression.{Zstd}
use p2pfile_transfer.Transfer.{u64_mod, stream_index, max_chunk_stream_bytes}
use p2pfile_transfer.Transfer.Receiver.{
  Closing, Receiver, new_receiver, unpack, store, accept_chunk, receive_stream, receive_loop,
  receive_file, rehash, finalize, open_writer,
}

module _ (z : Zstd) (config : ConfigMessage) (n : ℕ) (closing : Closing) where
  record Sane (r : Receiver) : Type 0 where
    distinct : Distinct r.seen
    known : All (λ k. k < n) r.seen
    unfinished : r.finished ≡ none
    same_closing : r.closing ≡ closing

  -- After any number of streams, good or bad, at most one chunk more is seen.
  abbrev Grown : ℕ → Result (Unit {0}) × Receiver → Type 0
  Grown m (o, r) = Sane r × (length r.seen ≤ m)

  accept_chunk-Grown :
      (raw : List ℕ) (r : Receiver) (m : ℕ)
      → stream_index raw < n
      → contains r.seen (stream_index raw) ≡ false
      → Sane r
      → length r.seen < m
      → Grown m (accept_chunk z config (stream_index raw) raw r)
  unfolding accept_chunk
  accept_chunk-Grown raw r m h new s l = unpacked (unpack z config raw)
    where
      seen : Sane (record r { seen = stream_index raw ∷ r.seen })
      seen = record {
        distinct = (new, s.distinct);
        known = (h, s.known);
        unfinished = s.unfinished;
        same_closing = s.same_closing;
      }

      unpacked :
          (u : Result (List ℕ))
          → Grown m (
              and_then
                (u, record r { seen = stream_index raw ∷ r.seen })
                (λ bytes t. (ok tt, store (stream_index raw) bytes t)))
      unpacked (ok bytes) =
          unfold store in
          (
            record {
              distinct = (new, s.distinct);
              known = (h, s.known);
              unfinished = s.unfinished;
              same_closing = s.same_closing;
            },
            l,
          )
      unpacked (err e) = (seen, l)
      unpacked panic = (seen, l)

  receive_stream-Grown :
      (raw : List ℕ) (r : Receiver) (m : ℕ)
      → Sane r
      → length r.seen < m
      → Grown m (receive_stream z config n raw r)
  unfolding receive_stream
  receive_stream-Grown raw r m s l = elim (Bool-cases (ltb max_chunk_stream_bytes (length raw))) [
    | inl t ↦ rw t (s, omega arith)
    | inr f ↦ rw f (elim (Bool-cases (ltb (length raw) 9)) [
      | inl t ↦ rw t (s, omega arith)
      | inr f ↦ rw f (elim (Bool-cases (leb n (stream_index raw))) [
        | inl t ↦ rw t (s, omega arith)
        | inr low ↦ rw low (elim (Bool-cases (contains r.seen (stream_index raw))) [
          | inl t ↦ rw t (s, omega arith)
          | inr new ↦ rw new (accept_chunk-Grown raw r m (ground (arith, low)) new s l)
        ])
      ])
    ])
  ]

  -- A loop that ends well has seen as many chunks as it wanted.
  abbrev Ended : ℕ → Result (Unit {0}) × Receiver → Type 0
  Ended wanted (ok _, r) = Sane r × (length r.seen ≡ wanted)
  Ended wanted (err e, r) = Sane r
  Ended wanted (panic, r) = Sane r

  receive_loop-Ended :
      (wanted : ℕ) (arrivals : List (Result (List ℕ))) (r : Receiver)
      → Sane r
      → length r.seen ≤ wanted
      → Ended wanted (receive_loop z config n wanted arrivals r)
  unfolding receive_loop
  receive_loop-Ended wanted [] r s l = elim (Bool-cases (ltb (length r.seen) wanted)) [
    | inl t ↦ rw t s
    | inr f ↦ rw f (s, ground (arith, f))
  ]
  receive_loop-Ended wanted (arrival ∷ later) r s l =
      elim (Bool-cases (ltb (length r.seen) wanted)) [
        | inl more ↦
            rw more
              (read arrival (λ q t k. receive_loop-Ended wanted later q t k) (ground (arith, more)))
        | inr f ↦ rw f (s, ground (arith, f))
      ]
    where
      go :
          (p : Result (Unit {0}) × Receiver)
          → Grown wanted p
          → ((q : Receiver)
              → Sane q
              → length q.seen ≤ wanted
              → Ended wanted (receive_loop z config n wanted later q))
          → Ended wanted (and_then p (λ _. receive_loop z config n wanted later))
      go (ok _, q) (s', l') ih = ih q s' l'
      go (err e, q) (s', l') ih = s'
      go (panic, q) (s', l') ih = s'

      read :
          (a : Result (List ℕ))
          → ((q : Receiver)
              → Sane q
              → length q.seen ≤ wanted
              → Ended wanted (receive_loop z config n wanted later q))
          → length r.seen < wanted
          → Ended wanted (
              and_then
                (and_then (a, r) (receive_stream z config n))
                (λ _. receive_loop z config n wanted later))
      read (ok raw) ih h = go _ (receive_stream-Grown raw r wanted s h) ih
      read (err e) ih h = s
      read panic ih h = s

  module _ (sha256 : List ℕ → Digest) where
    abbrev opened : List ℕ → Receiver
    opened leftover =
        open_writer (n * config.chunk_size % u64_mod) (new_receiver closing config leftover)

    opened-Sane : (leftover : List ℕ) → Sane (opened leftover)
    unfolding open_writer new_receiver
    opened-Sane leftover = record {
      distinct = tt;
      known = tt;
      unfinished = refl;
      same_closing = refl;
    }

    opened_seen : (leftover : List ℕ) → length (opened leftover).seen ≡ 0
    unfolding open_writer new_receiver
    opened_seen leftover = refl

    -- The chunks that were wanted were taken.
    abbrev pub Taken : ℕ → Receiver → Type 0
    Taken wanted r = Distinct r.seen × All (λ k. k < n) r.seen × (length r.seen ≡ wanted)

    -- The file stands under its final name, and the calls that read it back came to this.
    abbrev pub Unread : ℕ → Receiver → Result (Unit {0}) → Type 0
    Unread wanted r came =
        (content : List ℕ) × (r.finished ≡ some content)
        × ((closing.reopened ≡ came) ⊎ (closing.reread ≡ came))
        × Taken wanted r

    -- What the outcome says of the whole call.
    abbrev pub Verdict : ℕ → Result Digest × Receiver → Type 0
    Verdict wanted (ok d, r) =
        (content : List ℕ) × (r.finished ≡ some content) × (d ≡ sha256 content) × Taken wanted r
    Verdict wanted (err e, r) = (r.finished ≡ none) ⊎ Unread wanted r (err e)
    Verdict wanted (panic, r) = (r.finished ≡ none) ⊎ Unread wanted r panic

    -- `finalize`, call by call.
    reread_as :
        (wanted : ℕ) (r : Receiver) (content : List ℕ) (opening reading : Result (Unit {0}))
        → closing.reopened ≡ opening
        → closing.reread ≡ reading
        → r.finished ≡ some content
        → r.writer.content ≡ content
        → Taken wanted r
        → Verdict wanted (
            and_then
              (opening, r)
              (λ _ s. and_then (reading, s) (λ _ t. (ok (sha256 t.writer.content), t))))
    reread_as wanted r content (ok _) (ok _) o e f c taken = (content, f, ap sha256 c, taken)
    reread_as wanted r content (ok _) (err x) o e f c taken = inr (content, f, inr e, taken)
    reread_as wanted r content (ok _) panic o e f c taken = inr (content, f, inr e, taken)
    reread_as wanted r content (err x) reading o e f c taken = inr (content, f, inl o, taken)
    reread_as wanted r content panic reading o e f c taken = inr (content, f, inl o, taken)

    renamed_as :
        (wanted : ℕ) (r : Receiver) (sync rename : Result (Unit {0}))
        → Sane r
        → length r.seen ≡ wanted
        → Verdict wanted (
            and_then
              (sync, r)
              (λ _ s.
                and_then
                  (rename, s)
                  (λ _ t. rehash z config sha256 (record t { finished = some t.writer.content }))))
    unfolding rehash
    renamed_as wanted r (ok _) (ok _) s l =
        reread_as wanted (record r { finished = some r.writer.content }) r.writer.content
          r.closing.reopened r.closing.reread (ap (λ c. c.reopened) (sym s.same_closing))
          (ap (λ c. c.reread) (sym s.same_closing)) refl refl (s.distinct, s.known, l)
    renamed_as wanted r (ok _) (err x) s l = inl s.unfinished
    renamed_as wanted r (ok _) panic s l = inl s.unfinished
    renamed_as wanted r (err x) rename s l = inl s.unfinished
    renamed_as wanted r panic rename s l = inl s.unfinished

    finalize-Verdict :
        (wanted : ℕ) (p : Result (Unit {0}) × Receiver)
        → Ended wanted p
        → Verdict wanted (and_then p (λ _. finalize z config sha256))
    unfolding finalize
    finalize-Verdict wanted (ok _, r) (s, l) =
        renamed_as wanted r r.closing.synced r.closing.renamed s l
    finalize-Verdict wanted (err e, r) s = inl s.unfinished
    finalize-Verdict wanted (panic, r) s = inl s.unfinished

    -- Whatever streams arrive, from any peer, in any order, cut off, oversized or repeated, and however
    -- the calls of `finalize` go: if `receive_file` succeeds, the file under its final name is the one
    -- whose checksum it returns, and exactly `wanted` distinct chunk numbers below the file's count
    -- were taken; if it fails or panics, either no file has been given its final name, or as many
    -- chunks were taken, the file has its final name, and what failed is the opening or the reading
    -- of it for the checksum.
    pub receive_file-Verdict :
        (wanted : ℕ) (arrivals : List (Result (List ℕ))) (leftover : List ℕ)
        → Verdict wanted
            (receive_file z config sha256 n wanted arrivals (new_receiver closing config leftover))
    unfolding receive_file
    receive_file-Verdict wanted arrivals leftover = elim (Bool-cases (ltb n wanted)) [
      | inl t ↦ rw t (unfold new_receiver in inl refl)
      | inr f ↦ rw f (
          finalize-Verdict wanted _ (
            receive_loop-Ended wanted arrivals (opened leftover) (opened-Sane leftover)
              (omega (arith, opened_seen leftover))))
    ]
