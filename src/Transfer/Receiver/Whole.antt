-- ===== src/Transfer/Receiver/Whole.antt =====
-- transfer_file.rs: a transfer or a resumed transfer ends with the sender's file.
use p2pfile_transfer.Common.{
  ℕ, ◌+◌, ◌-◌, ◌*◌, ◌/◌, ◌%◌, ◌^◌, ◌≤◌, ◌<◌, ◌≡◌, refl, sym, ap, ◌∙◌, ◌⊎◌, inl, inr, true, false,
  List, map, arith, length, get_elem?, get_elem?_ext, get_elem?-none, All, some, Bool-cases, ltb,
}
use p2pfile_transfer.Common.Counting.{contains, Distinct, count_below-Distinct, count_below-not}
use p2pfile_transfer.Errors.{ok}
use p2pfile_transfer.Protocol.{Digest, ConfigMessage}
use p2pfile_transfer.Compression.{Zstd}
use p2pfile_transfer.Transfer.{u64_mod, stream_index}
use p2pfile_transfer.Transfer.Disk.{open_partial}
use p2pfile_transfer.Transfer.Chunk.{mul_step}
use p2pfile_transfer.Transfer.Receiver.{
  Receiver, new_receiver, well, receive_file, rehash, finalize, open_writer,
}
use p2pfile_transfer.Transfer.Receiver.Filling.{Honest, RightChunk, Filling}
use p2pfile_transfer.Transfer.Receiver.Assembly.{Finished, receive_loop-Finished, wanted}
use native.Mathlib.Nat.{div-add-mod, mod-lt}

div_lt : (i n c : ℕ) → 0 < c → i < n * c → i / c < n
div_lt i n c pos h =
    grind (arith, div-add-mod i c, mod-lt i pos, mul_step n (i / c) c, mul_step (i / c) n c)

module _ (z : Zstd) (config : ConfigMessage) (file : List ℕ) (n : ℕ) (completed : List ℕ)
    (pos : 0 < config.chunk_size) (reaches : length file ≤ n * config.chunk_size)
    (covers : n * config.chunk_size < length file + config.chunk_size) (fits : length file < 2 ^ 63)
    (small : config.chunk_size < 2 ^ 32) where
  right_place :
      (r : Receiver)
      → Finished z config file n completed covers fits small r
      → (i : ℕ) → i < length file
      → get_elem? r.writer.content i ≡ get_elem? file i
  right_place r (f, all) i h = rw place (right (Bool-cases (contains completed k)))
    where
      k : ℕ
      k = i / config.chunk_size

      j : ℕ
      j = i % config.chunk_size

      place : i ≡ k * config.chunk_size + j
      place = omega (arith, div-add-mod i config.chunk_size)

      inside : k * config.chunk_size + j < length file
      inside = omega (arith, div-add-mod i config.chunk_size)

      right :
          (contains completed k ≡ true) ⊎ (contains completed k ≡ false)
          → get_elem? r.writer.content (k * config.chunk_size + j)
            ≡ get_elem? file (k * config.chunk_size + j)
      right (inl old) = f.before k old j (mod-lt i pos) inside
      right (inr new) =
          f.since k (all k (div_lt i n config.chunk_size pos (omega arith)) new) j (mod-lt i pos)
            inside

  content-eq-file :
      (r : Receiver)
      → Finished z config file n completed covers fits small r
      → r.writer.content ≡ file
  content-eq-file r fin = get_elem?_ext r.writer.content file λ i.
      elim (Bool-cases (ltb i (length file))) [
        | inl inside ↦ right_place r fin i (ground arith)
        | inr behind ↦
            let past : length file ≤ i = ground arith in
            get_elem?-none r.writer.content i (omega (arith, fin.0.size))
            ∙ sym (get_elem?-none file i past)
      ]

  -- A `.partial` file that is no longer than the file is left as it is.
  opened-Filling :
      (leftover : List ℕ)
      → length leftover ≤ length file
      → ((k : ℕ) → contains completed k ≡ true → RightChunk z config file n completed leftover k)
      → Filling z config file n completed
          (open_writer (n * config.chunk_size % u64_mod) (new_receiver well config leftover))
  unfolding open_writer open_partial new_receiver contains
  opened-Filling leftover short right =
      let plain : n * config.chunk_size % u64_mod ≡ n * config.chunk_size = omega arith in
      let kept : ltb (n * config.chunk_size) (length leftover) ≡ false = ground arith in
      rw (plain, kept)
        (record {
          size = short;
          layout = refl;
          before = right;
          since = λ k e. cc;
          fresh = λ k e. cc;
          distinct = tt;
          known = tt;
          closes = refl;
        })

  module _ (sha256 : List ℕ → Digest) where
    pub receive_file-whole :
        (leftover : List ℕ) (arrivals : List (List ℕ))
        → Distinct completed
        → All (λ k. k < n) completed
        → length leftover ≤ length file
        → ((k : ℕ) → contains completed k ≡ true → RightChunk z config file n completed leftover k)
        → All (Honest z config file n completed) arrivals
        → ((k : ℕ)
            → k < n
            → contains completed k ≡ false
            → contains (map stream_index arrivals) k ≡ true)
        → (r : Receiver) × (receive_file z config sha256 n
              (n - length completed)
              (map ok arrivals)
              (new_receiver well config leftover)
            ≡ (ok (sha256 file), r))
          × (r.finished ≡ some file)
    unfolding receive_file finalize rehash
    receive_file-whole leftover arrivals d known short right honest all =
        let count : wanted z config file n completed covers fits small ≡ n - length completed =
          omega (
            arith,
            count_below-not (contains completed) n,
            count_below-Distinct completed n d known,
          ) in
        let (r, e, fin) =
          receive_loop-Finished z config file n completed covers fits small arrivals
            (open_writer (n * config.chunk_size % u64_mod) (new_receiver well config leftover))
            honest (opened-Filling leftover short right)
            (λ k h new. unfold open_writer new_receiver contains in all k h new) in
        (
          record r { finished = some r.writer.content },
          ground (arith, rw count at e, content-eq-file r fin, fin.0.closes),
          ap some (content-eq-file r fin),
        )
