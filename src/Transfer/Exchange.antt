-- ===== src/Transfer/Exchange.antt =====
-- transfer_file.rs, both ends: what `send_file` sent becomes the receiver's file, however the
-- streams are ordered or repeated on the way.
use p2pfile_transfer.Common.{
  ℕ, zero, suc, ◌+◌, ◌-◌, ◌*◌, ◌^◌, ◌≤◌, ◌<◌, ◌≡◌, refl, sym, ap, ◌∙◌, inl, inr, Bool, true, false,
  List, [], ◌∷◌, map, arith, length, get_elem?, All, some, ◌==◌, Bool-cases, subst,
}
use p2pfile_transfer.Common.Counting.{contains, Distinct}
use p2pfile_transfer.Errors.{Result, ok, err, panic}
use p2pfile_transfer.Protocol.{Digest, ConfigMessage}
use p2pfile_transfer.Compression.{Zstd}
use p2pfile_transfer.Transfer.{stream_index, max_chunk_stream_bytes, validate_file_size}
use p2pfile_transfer.Transfer.Count.{chunk_count_least, validate_file_size-fits}
use p2pfile_transfer.Transfer.Receiver.{Receiver, new_receiver, well, receive_file}
use p2pfile_transfer.Transfer.Receiver.Filling.{Honest, RightChunk}
use p2pfile_transfer.Transfer.Receiver.Whole.{receive_file-whole}
use p2pfile_transfer.Transfer.Sender.{ChunkReader, Sender, open_file, new_sender, send_file}
use p2pfile_transfer.Transfer.Sender.Progress.{Reads, Sent}
use p2pfile_transfer.Transfer.Sender.Run.{Sends, send_file-Sends}

-- The stream stands somewhere in the list.
abbrev pub Occurs : List ℕ → List (List ℕ) → Type 0
Occurs raw streams = (i : ℕ) × (get_elem? streams i ≡ some raw)

-- Every stream that was sent arrives, once or more often, in any order, and no other does.
pub record Delivers (sent arrivals : List (List ℕ)) : Type 0 where
  pub genuine : (raw : List ℕ) → Occurs raw arrivals → Occurs raw sent
  pub complete : (raw : List ℕ) → Occurs raw sent → Occurs raw arrivals

All→Occurs :
    (P : List ℕ → Type 0) (xs : List (List ℕ)) (raw : List ℕ) → All P xs → Occurs raw xs → P raw
All→Occurs P [] raw h (i, e) = cc
All→Occurs P (x ∷ xs) raw h (zero, e) = let same : x ≡ raw = cc in subst P same h.0
All→Occurs P (x ∷ xs) raw h (suc i, e) = All→Occurs P xs raw h.1 (i, e)

Occurs→All :
    (P : List ℕ → Type 0) (xs : List (List ℕ)) → ((raw : List ℕ) → Occurs raw xs → P raw) → All P xs
Occurs→All P [] h = tt
Occurs→All P (x ∷ xs) h = (h x (0, refl), Occurs→All P xs (λ raw o. h raw (suc o.0, o.1)))

contains→Occurs :
    (xs : List (List ℕ)) (k : ℕ)
    → contains (map stream_index xs) k ≡ true
    → (raw : List ℕ) × Occurs raw xs × (stream_index raw ≡ k)
unfolding contains
contains→Occurs [] k e = cc
contains→Occurs (x ∷ xs) k e = elim (Bool-cases (stream_index x == k)) [
  | inl same ↦ (x, (0, refl), ground (arith, same))
  | inr other ↦
      let (raw, (i, o), h) = contains→Occurs xs k (ground (arith, other, e)) in (raw, (suc i, o), h)
]

Occurs→contains :
    (xs : List (List ℕ)) (raw : List ℕ)
    → Occurs raw xs
    → contains (map stream_index xs) (stream_index raw) ≡ true
unfolding contains
Occurs→contains [] raw (i, e) = cc
Occurs→contains (x ∷ xs) raw (zero, e) = let same : x ≡ raw = cc in rw same (ground arith)
Occurs→contains (x ∷ xs) raw (suc i, e) = ground (arith, Occurs→contains xs raw (i, e))

-- The reader of a file that `validate_file_size` admits.
open_file-Reads :
    (z : Zstd) (config : ConfigMessage) (file : List ℕ) (completed : List ℕ) (reader : ChunkReader)
    → validate_file_size (length file) ≡ ok tt
    → 0 < config.chunk_size
    → config.chunk_size < 2 ^ 32
    → open_file file config.chunk_size ≡ ok reader
    → (length file ≤ reader.total_chunks * config.chunk_size)
      × (reader.total_chunks * config.chunk_size < length file + config.chunk_size)
      × Reads z config file reader.total_chunks completed 0 reader
unfolding open_file
open_file-Reads z config file completed reader v pos small e =
    let (n, counted, above, below) =
      chunk_count_least (length file) config.chunk_size v pos small in
    let same : record {
      file = file;
      chunk_size = config.chunk_size;
      total_chunks = n;
      file_size = length file;
      hasher = [];
    }
        ≡ reader =
      ground (arith, counted, e) in
    let none_yet : 0 * config.chunk_size ≡ 0 = omega arith in
    rw (← same) (
      above,
      below,
      record { same_file = refl; layout = refl; same_size = refl; hashed = rw none_yet },
    )

module _ (z : Zstd) (sha256 : List ℕ → Digest) (config : ConfigMessage) (file : List ℕ) where
  -- The receiver's side at the start: what it has of the file, and how the sender numbers it.
  pub record Prepared (reader : ChunkReader) (completed : List ℕ) (leftover : List ℕ) : Type 0 where
    pub admitted : validate_file_size (length file) ≡ ok tt
    pub positive : 0 < config.chunk_size
    pub small : config.chunk_size < 2 ^ 32
    pub opened : open_file file config.chunk_size ≡ ok reader
    pub distinct : Distinct completed
    pub known : All (λ k. k < reader.total_chunks) completed
    pub short : length leftover ≤ length file
    pub right :
        (k : ℕ)
        → contains completed k ≡ true
        → RightChunk z config file reader.total_chunks completed leftover k

  -- Let the sender's run of `send_file` succeed, for any mix of compressed and plain chunks, with
  -- the chunks `completed` skipped that the receiver's `.partial` file already holds, and let each
  -- stream fit the receiver's limit. Then `receive_file`, told to expect the missing chunks,
  -- succeeds on any delivery of those streams (any order, with repeats) if its calls on the
  -- finished file work, reports the checksum that
  -- the sender reported, which is the file's, and leaves exactly the sender's file.
  pub sent_file_arrives :
      (reader : ChunkReader) (completed leftover : List ℕ) (link : List Bool)
      (arrivals : List (List ℕ)) (d : Digest) (s : Sender)
      → Prepared reader completed leftover
      → send_file z sha256 completed (new_sender reader config link) ≡ (ok d, s)
      → All (λ raw. length raw ≤ max_chunk_stream_bytes) s.streams
      → Delivers s.streams arrivals
      → (d ≡ sha256 file)
        × (r : Receiver) × (receive_file z config sha256 reader.total_chunks
              (reader.total_chunks - length completed)
              (map ok arrivals)
              (new_receiver well config leftover)
            ≡ (ok d, r))
        × (r.finished ≡ some file)
  sent_file_arrives reader completed leftover link arrivals d s p run limit delivery =
      let (reaches, covers, reads) =
        open_file-Reads z config file completed reader p.admitted p.positive p.small p.opened in
      let fits : length file < 2 ^ 63 =
        omega (arith, validate_file_size-fits (length file) p.admitted) in
      let bounded : reader.total_chunks < 2 ^ 64 =
        grind (arith, covers, fits, p.positive, p.small) in
      let sends : Sends z config file reader.total_chunks completed covers fits p.small bounded
          sha256 reaches (ok d, s) =
        subst
          (Sends z config file reader.total_chunks completed covers fits p.small bounded sha256
            reaches)
          run
          (send_file-Sends z config file reader.total_chunks completed covers fits p.small bounded
            sha256 reaches reader link refl reads) in
      let honest : (raw : List ℕ)
          → Occurs raw arrivals
          → Honest z config file reader.total_chunks completed raw =
        λ raw o. record {
          carries = All→Occurs _ s.streams raw sends.1.carried (delivery.genuine raw o);
          short = All→Occurs _ s.streams raw limit (delivery.genuine raw o);
        } in
      let all : (k : ℕ)
          → k < reader.total_chunks
          → contains completed k ≡ false
          → contains (map stream_index arrivals) k ≡ true =
        λ k h new.
          let (raw, o, e) =
            contains→Occurs s.streams k (rw sends.1.indices (sends.1.covered k h new)) in
          subst (λ i. contains (map stream_index arrivals) i ≡ true) e
            (Occurs→contains arrivals raw (delivery.complete raw o)) in
      let (r, e, whole) =
        receive_file-whole z config file reader.total_chunks completed p.positive reaches covers
          fits p.small sha256 leftover arrivals p.distinct p.known p.short p.right
          (Occurs→All _ arrivals honest) all in
      (sends.0, r, e ∙ ap (λ x. (ok x, r)) (sym sends.0), whole)

  -- What a run of `send_file` leaves behind, whether the link holds or fails at some chunk.
  abbrev pub SendOutcome : ChunkReader → List ℕ → Result Digest × Sender → Type 0
  SendOutcome reader completed (ok d, s) =
      (d ≡ sha256 file)
      × Sent z config file reader.total_chunks completed reader.total_chunks s.streams s.marked
  SendOutcome reader completed (err e, s) =
      (j : ℕ) × (j < reader.total_chunks)
      × Sent z config file reader.total_chunks completed j s.streams s.marked
  SendOutcome reader completed (panic, s) =
      (j : ℕ) × (j < reader.total_chunks)
      × Sent z config file reader.total_chunks completed j s.streams s.marked

  -- Whatever the link does, a run of `send_file` over an admitted file has dealt with the chunks
  -- below some `j` in order: each that was not completed before has one acknowledged stream that
  -- carries it and one call of the completion callback, and no chunk from `j` on has either. If
  -- the run succeeds `j` is the number of chunks and the result is the checksum of the whole file,
  -- the skipped chunks included; if not, `j` is smaller.
  pub send_file_outcome :
      (reader : ChunkReader) (completed : List ℕ) (link : List Bool)
      → validate_file_size (length file) ≡ ok tt
      → 0 < config.chunk_size
      → config.chunk_size < 2 ^ 32
      → open_file file config.chunk_size ≡ ok reader
      → SendOutcome reader completed (send_file z sha256 completed (new_sender reader config link))
  send_file_outcome reader completed link v pos small opened =
      let (reaches, covers, reads) =
        open_file-Reads z config file completed reader v pos small opened in
      let fits : length file < 2 ^ 63 = omega (arith, validate_file_size-fits (length file) v) in
      let bounded : reader.total_chunks < 2 ^ 64 = grind (arith, covers, fits, pos, small) in
      send_file-Sends z config file reader.total_chunks completed covers fits small bounded sha256
        reaches reader link refl reads
