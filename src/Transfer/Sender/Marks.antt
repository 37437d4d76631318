-- ===== src/Transfer/Sender/Marks.antt =====
-- transfer_file.rs: the chunks that `send_file` marks, over any file and any link.
use p2pfile_transfer.Common.{
  ℕ, zero, suc, ◌+◌, ◌<◌, ◌≡◌, refl, inl, inr, Bool, true, false, List, [], ◌∷◌, ◌++◌, Option, none,
  some, arith, length, All, All-append, Bool-cases,
}
use p2pfile_transfer.Common.Counting.{contains, Distinct, Distinct-append}
use p2pfile_transfer.Errors.{Result, ok, err, panic}
use p2pfile_transfer.Effects.{and_then}
use p2pfile_transfer.Protocol.{Digest}
use p2pfile_transfer.Compression.{Zstd, Packed, AdaptiveCompressor}
use p2pfile_transfer.Transfer.{chunk_stream}
use p2pfile_transfer.Transfer.Sender.{
  ChunkReader, Sender, send_chunk, send_chunks, send_file, deliver, pack, account, in_reader,
  send_chunk_stream, send_over, read_chunk,
}

-- The marks while the chunks below `i` are dealt with.
pub record MarkedBelow (completed : List ℕ) (i : ℕ) (marked : List ℕ) : Type 0 where
  pub distinct : Distinct marked
  pub missing : All (λ k. contains completed k ≡ false) marked
  pub below : All (λ k. k < i) marked

All-weaken : (i : ℕ) (xs : List ℕ) → All (λ k. k < i) xs → All (λ k. k < i + 1) xs
All-weaken i [] h = tt
All-weaken i (x ∷ xs) h = (omega arith, All-weaken i xs h.1)

not_below : (i : ℕ) (xs : List ℕ) → All (λ k. k < i) xs → contains xs i ≡ false
unfolding contains
not_below i [] h = refl
not_below i (x ∷ xs) h = ground (arith, not_below i xs h.1, h.0)

module _ (completed : List ℕ) (i : ℕ) (marked : List ℕ) (m : MarkedBelow completed i marked) where
  pass-MarkedBelow : MarkedBelow completed (i + 1) marked
  pass-MarkedBelow = record {
    distinct = m.distinct;
    missing = m.missing;
    below = All-weaken i marked m.below;
  }

  mark-MarkedBelow :
      contains completed i ≡ false → MarkedBelow completed (i + 1) (marked ++ (i ∷ []))
  mark-MarkedBelow new = record {
    distinct = Distinct-append marked i m.distinct (not_below i marked m.below);
    missing = All-append _ marked (i ∷ []) m.missing (new, tt);
    below = All-append _ marked (i ∷ []) (All-weaken i marked m.below) (omega arith, tt);
  }

module _ (z : Zstd) (completed : List ℕ) (i : ℕ) where
  abbrev After : Result (Unit {0}) × Sender → Type 0
  After r = MarkedBelow completed (i + 1) r.1.marked

  sent-After :
      (link : List Bool) (stream : List ℕ) (sent size : ℕ) (s : Sender)
      → contains completed i ≡ false
      → MarkedBelow completed i s.marked
      → After (and_then (send_over link stream s) (λ _ t. (ok tt, account i sent size t)))
  unfolding send_over account
  sent-After [] stream sent size s new m = mark-MarkedBelow completed i s.marked m new
  sent-After (true ∷ link) stream sent size s new m = mark-MarkedBelow completed i s.marked m new
  sent-After (false ∷ link) stream sent size s new m = pass-MarkedBelow completed i s.marked m

  packed-After :
      (p : Result Packed × Sender) (size : ℕ)
      → contains completed i ≡ false
      → MarkedBelow completed i p.1.marked
      → After (
          and_then p (λ q. λ s.
            and_then
              (send_chunk_stream i q.used q.bytes s)
              (λ _ t. (ok tt, account i (length q.bytes) size t))))
  unfolding send_chunk_stream
  packed-After (ok q, s) size new m =
      sent-After s.link (chunk_stream i q.used q.bytes) (length q.bytes) size s new m
  packed-After (err e, s) size new m = pass-MarkedBelow completed i s.marked m
  packed-After (panic, s) size new m = pass-MarkedBelow completed i s.marked m

  pack-marked :
      (c : Option AdaptiveCompressor) (chunk : List ℕ) (s : Sender)
      → (pack z c chunk s).1.marked ≡ s.marked
  unfolding pack
  pack-marked none chunk s = refl
  pack-marked (some c) chunk s = refl

  delivered-After :
      (r : Result (List ℕ) × ChunkReader) (s : Sender)
      → contains completed i ≡ false
      → MarkedBelow completed i s.marked
      → After (and_then (r.0, record s { reader = r.1 }) (deliver z i))
  unfolding deliver
  delivered-After (ok chunk, reader) s new m =
      let t = record s { reader = reader } in
      packed-After (pack z t.compressor chunk t) (length chunk) new
        (rw (pack-marked t.compressor chunk t) m)
  delivered-After (err e, reader) s new m = pass-MarkedBelow completed i s.marked m
  delivered-After (panic, reader) s new m = pass-MarkedBelow completed i s.marked m

  send_chunk-After :
      (s : Sender) → MarkedBelow completed i s.marked → After (send_chunk z completed i s)
  unfolding send_chunk in_reader
  send_chunk-After s m = elim (Bool-cases (contains completed i)) [
    | inl old ↦ rw old (pass-MarkedBelow completed i s.marked m)
    | inr new ↦ rw new (delivered-After (read_chunk i s.reader) s new m)
  ]

module _ (z : Zstd) (completed : List ℕ) where
  send_chunks-MarkedBelow :
      (rounds i : ℕ) (s : Sender)
      → MarkedBelow completed i s.marked
      → (j : ℕ) × MarkedBelow completed j (send_chunks z completed rounds i s).1.marked
  unfolding send_chunks
  send_chunks-MarkedBelow zero i s m = (i, m)
  send_chunks-MarkedBelow (suc rounds) i s m =
      further (send_chunk z completed i s) (send_chunk-After z completed i s m)
        (λ t n. send_chunks-MarkedBelow rounds (i + 1) t n)
    where
      further :
          (r : Result (Unit {0}) × Sender)
          → MarkedBelow completed (i + 1) r.1.marked
          → ((t : Sender)
              → MarkedBelow completed (i + 1) t.marked
              → (j : ℕ) × MarkedBelow completed j
                  (send_chunks z completed rounds (i + 1) t).1.marked)
          → (j : ℕ) × MarkedBelow completed j
              (and_then r (λ _. send_chunks z completed rounds (i + 1))).1.marked
      further (ok a, t) n again = again t n
      further (err e, t) n again = (i + 1, n)
      further (panic, t) n again = (i + 1, n)

  gets_after :
      (sha256 : List ℕ → Digest) (r : Result (Unit {0}) × Sender)
      → (and_then r (λ _ s. (ok (sha256 s.reader.hasher), s))).1 ≡ r.1
  gets_after sha256 (ok a, s) = refl
  gets_after sha256 (err e, s) = refl
  gets_after sha256 (panic, s) = refl

  -- However a run of `send_file` ends, it has marked no chunk twice and none that was completed.
  pub send_file-MarkedBelow :
      (sha256 : List ℕ → Digest) (s : Sender)
      → s.marked ≡ []
      → (j : ℕ) × MarkedBelow completed j (send_file z sha256 completed s).1.marked
  unfolding send_file
  send_file-MarkedBelow sha256 s e =
      let n = s.reader.total_chunks in
      let start : MarkedBelow completed 0 s.marked =
        rw e (record { distinct = tt; missing = tt; below = tt }) in
      rw (gets_after sha256 (send_chunks z completed n 0 s)) (send_chunks-MarkedBelow n 0 s start)
