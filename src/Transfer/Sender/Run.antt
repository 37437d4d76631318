-- ===== src/Transfer/Sender/Run.antt =====
-- transfer_file.rs: the loop of `send_file`, with the link failing at any chunk.
use p2pfile_transfer.Common.{
  ℕ, zero, suc, ◌+◌, ◌*◌, ◌^◌, ◌≤◌, ◌<◌, ◌≡◌, refl, ap, ◌∙◌, ◌⊎◌, inl, inr, Bool, true, false, List,
  [], ◌∷◌, ◌++◌, arith, length, Option, some, none, take_past, Bool-cases, subst,
}
use p2pfile_transfer.Common.Counting.{contains}
use p2pfile_transfer.Errors.{Result, ok, err, panic}
use p2pfile_transfer.Effects.{and_then}
use p2pfile_transfer.Protocol.{Digest, ConfigMessage}
use p2pfile_transfer.Compression.{Zstd, AdaptiveCompressor, Packed, compress}
use p2pfile_transfer.Compression.Laws.{compress-Unpacks, Unpacks}
use p2pfile_transfer.Transfer.{chunk_stream}
use p2pfile_transfer.Transfer.Chunk.{chunk_of, mul_step}
use p2pfile_transfer.Transfer.Header.{chunk_stream_parts}
use p2pfile_transfer.Transfer.Sender.{
  ChunkReader, Sender, fold_chunk, send_over, send_chunk_stream, account, pack, send_chunk,
  send_chunks, send_file, new_sender, new_compressor,
}
use p2pfile_transfer.Transfer.Sender.Progress.{
  Sent, Reads, skip-Sent, send-Sent, chunk_stream-Carries, read_chunk-Reads,
}

module _ (z : Zstd) (config : ConfigMessage) (file : List ℕ) (n : ℕ) (completed : List ℕ)
    (covers : n * config.chunk_size < length file + config.chunk_size) (fits : length file < 2 ^ 63)
    (small : config.chunk_size < 2 ^ 32) (bounded : n < 2 ^ 64) where
  -- A compressor exists only where the configuration allows compression.
  abbrev pub Allowed : Option AdaptiveCompressor → Type 0
  Allowed o = (o ≡ none) ⊎ (config.compression_enabled ≡ true)

  pub record Sending (i : ℕ) (s : Sender) : Type 0 where
    pub sent : Sent z config file n completed i s.streams s.marked
    pub reads : Reads z config file n completed i s.reader
    pub allowed : Allowed s.compressor

  -- Where a call stops short, the chunks below some `j` are dealt with, and no other is.
  abbrev pub Stopped : Sender → Type 0
  Stopped s = (j : ℕ) × (j < n) × Sent z config file n completed j s.streams s.marked

  abbrev pub Ends : ℕ → Result (Unit {0}) × Sender → Type 0
  Ends i (ok _, s) = Sending i s
  Ends i (err e, s) = Stopped s
  Ends i (panic, s) = Stopped s

  -- What `pack` hands on.
  abbrev Packs : ℕ → Result Packed × Sender → Type 0
  Packs i (ok p, s) =
      Unpacks z p (chunk_of file config.chunk_size i)
      × (p.used ≡ true → config.compression_enabled ≡ true)
      × Sent z config file n completed i s.streams s.marked
      × Reads z config file n completed (i + 1) s.reader
      × Allowed s.compressor
  Packs i (err e, s) = Sent z config file n completed i s.streams s.marked
  Packs i (panic, s) = Sent z config file n completed i s.streams s.marked

  pack-Packs :
      (i : ℕ) (o : Option AdaptiveCompressor) (s : Sender)
      → Sent z config file n completed i s.streams s.marked
      → Reads z config file n completed (i + 1) s.reader
      → Allowed o
      → Allowed s.compressor
      → Packs i (pack z o (chunk_of file config.chunk_size i) s)
  unfolding pack
  pack-Packs i none s t v a b = (refl, λ e. cc, t, v, b)
  pack-Packs i (some c) s t v a b = packed (compress z (chunk_of file config.chunk_size i) c).0 refl
    where
      enabled : config.compression_enabled ≡ true
      enabled = ground (arith, a)

      packed :
          (r : Result Packed)
          → (compress z (chunk_of file config.chunk_size i) c).0 ≡ r
          → Packs i (
            r,
            record s { compressor = some (compress z (chunk_of file config.chunk_size i) c).1 },
          )
      packed (ok p) e = (compress-Unpacks z c _ p e, λ u. enabled, t, v, inr enabled)
      packed (err x) e = t
      packed panic e = t

  deliver_packed :
      (i : ℕ) (p : Packed) (link : List Bool) (s : Sender)
      → i < n
      → contains completed i ≡ false
      → Packs i (ok p, s)
      → Ends (i + 1) (
          and_then (send_over link (chunk_stream i p.used p.bytes) s) (λ _ t.
            (ok tt, account i (length p.bytes) (length (chunk_of file config.chunk_size i)) t)))
  unfolding send_over account
  deliver_packed i p link s h new (u, enabled, t, v, a) = over link
    where
      in_range : i < 2 ^ 64
      in_range = omega arith

      more :
          Sent z config file n completed
            (i + 1)
            (s.streams ++ (chunk_stream i p.used p.bytes ∷ []))
            (s.marked ++ (i ∷ []))
      more =
          send-Sent z config file n completed (chunk_stream i p.used p.bytes)
            (chunk_stream-Carries z config file n completed i p h in_range new enabled u)
            (chunk_stream_parts i p.used p.bytes in_range).0 t

      over :
          (l : List Bool)
          → Ends (i + 1) (
              and_then (send_over l (chunk_stream i p.used p.bytes) s) (λ _ t.
                (ok tt, account i (length p.bytes) (length (chunk_of file config.chunk_size i)) t)))
      over [] = record { sent = more; reads = v; allowed = a }
      over (true ∷ l) = record { sent = more; reads = v; allowed = a }
      over (false ∷ l) = (i, h, t)

  send_chunk-Ends :
      (i : ℕ) (s : Sender) → i < n → Sending i s → Ends (i + 1) (send_chunk z completed i s)
  unfolding send_chunk fold_chunk send_chunk_stream
  send_chunk-Ends i s h v =
      let (r, e, w) =
        read_chunk-Reads z config file n completed fits small i s.reader
          (omega (arith, mul_step i n config.chunk_size h)) v.reads in
      elim (Bool-cases (contains completed i)) [
        | inl old ↦
            rw (old, e)
              (record {
                sent = skip-Sent z config file n completed old v.sent;
                reads = w;
                allowed = v.allowed;
              })
        | inr new ↦
            rw (new, e)
              (go new
                (pack z s.compressor (chunk_of file config.chunk_size i) (record s { reader = r }))
                (pack-Packs i s.compressor (record s { reader = r }) v.sent w v.allowed v.allowed))
      ]
    where
      go :
          contains completed i ≡ false
          → (q : Result Packed × Sender) → Packs i q
          → Ends (i + 1) (
              and_then q (λ p t.
                and_then (send_over t.link (chunk_stream i p.used p.bytes) t) (λ _ t. (
                  ok tt,
                  account i (length p.bytes) (length (chunk_of file config.chunk_size i)) t,
                ))))
      go new (ok p, t) k = deliver_packed i p t.link t h new k
      go new (err x, t) k = (i, h, k)
      go new (panic, t) k = (i, h, k)

  send_chunks-Ends :
      (rounds i : ℕ) (s : Sender)
      → i + rounds ≡ n
      → Sending i s
      → Ends n (send_chunks z completed rounds i s)
  unfolding send_chunks
  send_chunks-Ends zero i s e v = let e' : i ≡ n = omega arith in subst (λ k. Sending k s) e' v
  send_chunks-Ends (suc rounds) i s e v =
      go (send_chunk z completed i s) (send_chunk-Ends i s (omega arith) v)
        (λ t w. send_chunks-Ends rounds (i + 1) t (omega arith) w)
    where
      go :
          (q : Result (Unit {0}) × Sender)
          → Ends (i + 1) q
          → ((t : Sender) → Sending (i + 1) t → Ends n (send_chunks z completed rounds (i + 1) t))
          → Ends n (and_then q (λ _. send_chunks z completed rounds (i + 1)))
      go (ok _, t) w ih = ih t w
      go (err x, t) w ih = w
      go (panic, t) w ih = w

  module _ (sha256 : List ℕ → Digest) (reaches : length file ≤ n * config.chunk_size) where
    abbrev pub Sends : Result Digest × Sender → Type 0
    Sends (ok d, s) = (d ≡ sha256 file) × Sent z config file n completed n s.streams s.marked
    Sends (err e, s) = Stopped s
    Sends (panic, s) = Stopped s

    hashed_whole : (s : Sender) → Sending n s → sha256 s.reader.hasher ≡ sha256 file
    hashed_whole s v = ap sha256 (v.reads.hashed ∙ take_past (n * config.chunk_size) file reaches)

    new_sender-Sending :
        (reader : ChunkReader) (link : List Bool)
        → Reads z config file n completed 0 reader
        → Sending 0 (new_sender reader config link)
    unfolding new_sender new_compressor contains
    new_sender-Sending reader link v = record {
      sent = record {
        carried = tt;
        indices = refl;
        covered = λ k h. absurd (omega arith);
        fresh = λ k h. refl;
        distinct = tt;
      };
      reads = v;
      allowed = elim (Bool-cases config.compression_enabled) [ inl t ↦ inr t | inr f ↦ inl (rw f) ];
    }

    pub send_file-Sends :
        (reader : ChunkReader) (link : List Bool)
        → reader.total_chunks ≡ n
        → Reads z config file n completed 0 reader
        → Sends (send_file z sha256 completed (new_sender reader config link))
    unfolding send_file
    send_file-Sends reader link e v =
        go
          (send_chunks z completed (new_sender reader config link).reader.total_chunks 0
            (new_sender reader config link))
          (send_chunks-Ends _ 0 (new_sender reader config link) (omega (arith, total))
            (new_sender-Sending reader link v))
      where
        total : (new_sender reader config link).reader.total_chunks ≡ n
        total = unfold new_sender in e

        go :
            (q : Result (Unit {0}) × Sender)
            → Ends n q
            → Sends (and_then q (λ _ s. (ok (sha256 s.reader.hasher), s)))
        go (ok _, s) w = (hashed_whole s w, w.sent)
        go (err x, s) w = w
        go (panic, s) w = w
