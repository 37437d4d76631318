-- ===== src/Transfer/Receiver/Queue.antt =====
-- transfer_file.rs: a file's streams in front of those of later files.
use p2pfile_transfer.Common.{
  ℕ, ◌+◌, ◌*◌, ◌%◌, ◌≤◌, ◌≡◌, refl, inl, inr, true, false, List, [], ◌∷◌, ◌++◌, arith, length, ltb,
  Bool-cases,
}
use p2pfile_transfer.Errors.{Result, ok, err, panic}
use p2pfile_transfer.Effects.{and_then, lift, and_then_inv}
use p2pfile_transfer.Protocol.{Digest, ConfigMessage}
use p2pfile_transfer.Compression.{Zstd}
use p2pfile_transfer.Transfer.{stream_index, u64_mod}
use p2pfile_transfer.Transfer.Receiver.{
  Receiver, new_receiver, well, unpack, store, accept_chunk, receive_stream, receive_loop,
  receive_file, not_taken, not_taken_behind, streams_left, open_writer,
}

module _ (z : Zstd) (config : ConfigMessage) (n : ℕ) where
  -- One stream adds one index at most.
  accept_chunk-seen :
      (index : ℕ) (u : Result (List ℕ)) (r : Receiver)
      → length
          (and_then
            (u, record r { seen = index ∷ r.seen })
            (λ bytes t. (ok tt, store index bytes t))).1.seen
        ≤ length r.seen + 1
  unfolding store
  accept_chunk-seen index (ok bytes) r = omega arith
  accept_chunk-seen index (err e) r = omega arith
  accept_chunk-seen index panic r = omega arith

  receive_stream-seen :
      (raw : List ℕ) (r : Receiver)
      → length (receive_stream z config n raw r).1.seen ≤ length r.seen + 1
  unfolding receive_stream accept_chunk
  receive_stream-seen raw r =
      ground (arith, accept_chunk-seen (stream_index raw) (unpack z config raw) r)

  step-seen :
      (arrival : Result (List ℕ)) (r : Receiver)
      → length (and_then (lift arrival r) (receive_stream z config n)).1.seen ≤ length r.seen + 1
  step-seen (ok raw) r = receive_stream-seen raw r
  step-seen (err e) r = omega arith
  step-seen panic r = omega arith

  module _ (wanted : ℕ) (later : List (Result (List ℕ))) where
    abbrev Passes : List (Result (List ℕ)) → Receiver → Receiver → Type 0
    Passes xs r r' =
        (receive_loop z config n wanted (xs ++ later) r ≡ (ok tt, r'))
        × (not_taken z config n wanted (xs ++ later) r ≡ later)

    enough :
        (ys : List (Result (List ℕ))) (r : Receiver)
        → ltb (length r.seen) wanted ≡ false
        → (receive_loop z config n wanted ys r ≡ (ok tt, r))
          × (not_taken z config n wanted ys r ≡ ys)
    unfolding receive_loop not_taken
    enough [] r e = (rw e refl, refl)
    enough (y ∷ ys) r e = (rw e refl, rw e refl)

    stepped :
        (p : Result (Unit {0}) × Receiver) (xs : List (Result (List ℕ))) (r' : Receiver)
        → and_then p (λ _. receive_loop z config n wanted xs) ≡ (ok tt, r')
        → (receive_loop z config n wanted xs p.1 ≡ (ok tt, r') → Passes xs p.1 r')
        → (and_then p (λ _. receive_loop z config n wanted (xs ++ later)) ≡ (ok tt, r'))
          × (not_taken_behind z config p (xs ++ later) (not_taken z config n wanted (xs ++ later))
              ≡ later)
    unfolding not_taken_behind
    stepped (ok _, t) xs r' e again = again e
    stepped (err x, t) xs r' e again = cc
    stepped (panic, t) xs r' e again = cc

    receive_loop-Passes :
        (xs : List (Result (List ℕ))) (r r' : Receiver)
        → length r.seen + length xs ≤ wanted
        → receive_loop z config n wanted xs r ≡ (ok tt, r')
        → Passes xs r r'
    unfolding receive_loop not_taken
    receive_loop-Passes [] r r' l e = elim (Bool-cases (ltb (length r.seen) wanted)) [
      | inl more ↦ let never = rw more at e in cc
      | inr full ↦
          let done = rw full at e in let same : r ≡ r' = cc in rw (← same) (enough later r full)
    ]
    receive_loop-Passes (x ∷ xs) r r' l e =
        let more : ltb (length r.seen) wanted ≡ true = ground arith in
        let p = and_then (lift x r) (receive_stream z config n) in
        rw more (
          stepped p xs r' (rw more at e)
            (λ d. receive_loop-Passes xs p.1 r' (omega (arith, step-seen x r)) d))

  module _ (sha256 : List ℕ → Digest) where
    -- Streams that are as many as wanted and suffice for the file are all taken, and no other is.
    pub receive_file-append :
        (wanted : ℕ) (xs later : List (Result (List ℕ))) (leftover : List ℕ) (d : Digest)
        (r : Receiver)
        → length xs ≡ wanted
        → receive_file z config sha256 n wanted xs (new_receiver well config leftover) ≡ (ok d, r)
        → (receive_file z config sha256 n wanted (xs ++ later) (new_receiver well config leftover)
            ≡ (ok d, r))
          × (streams_left z config n wanted (xs ++ later) (new_receiver well config leftover)
              ≡ later)
    unfolding receive_file streams_left open_writer new_receiver
    receive_file-append wanted xs later leftover d r l e = elim (Bool-cases (ltb n wanted)) [
      | inl over ↦ let never = rw over at e in cc
      | inr fine ↦
          let r0 =
            open_writer (n * config.chunk_size % u64_mod) (new_receiver well config leftover) in
          let (_, t, looped, ended) =
            and_then_inv (receive_loop z config n wanted xs r0) _ d r (rw fine at e) in
          let (a, b) = receive_loop-Passes wanted later xs r0 t (omega (arith, l)) looped in
          (rw (fine, a) ended, rw (fine, b) refl)
    ]
