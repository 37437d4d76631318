-- ===== src/Transfer/Runs.antt =====
-- transfer_file.rs: concrete runs, and the theorems at concrete inputs.
use p2pfile_transfer.Common.{
  ℕ, zero, suc, All, ◌*◌, ◌≤◌, ◌≡◌, refl, true, false, List, [], ◌∷◌, map, arith, length, ltb, some,
}
use p2pfile_transfer.Common.Int.{ℤ, pos}
use p2pfile_transfer.Common.Counting.{contains}
use p2pfile_transfer.Common.Bytes.{to_le_bytes}
use p2pfile_transfer.Errors.{Result, ok, err, decompression, network, quic}
use p2pfile_transfer.Protocol.{ConfigMessage}
use p2pfile_transfer.Compression.{Zstd, compress, new}
use p2pfile_transfer.Transfer.{
  chunk_count, max_chunk_stream_bytes, validate_file_size, chunk_stream,
}
use p2pfile_transfer.Transfer.Sender.{
  ChunkReader, Sender, open_file, new_sender, send_file, send_chunks, send_chunk, read_chunk,
  fold_chunk, send_chunk_stream, new_compressor,
}
use p2pfile_transfer.Transfer.Receiver.{Closing, Receiver, new_receiver, well, receive_file}
use p2pfile_transfer.Transfer.Exchange.{
  Prepared, Delivers, Occurs, SendOutcome, sent_file_arrives, send_file_outcome,
}
use p2pfile_transfer.Transfer.Receiver.Filling.{RightChunk}
use p2pfile_transfer.Transfer.Receiver.Guarded.{Verdict, receive_file-Verdict}

-- A codec that puts a zero in front.
abbrev pub unzero : List ℕ → Result (List ℕ)
unzero [] = err decompression
unzero (zero ∷ bytes) = ok bytes
unzero (suc b ∷ bytes) = err decompression

pub unzero_lem :
    (level : ℤ) (bytes packed : List ℕ) → ok (0 ∷ bytes) ≡ ok packed → unzero packed ≡ ok bytes
unzero_lem level bytes packed e = let same : 0 ∷ bytes ≡ packed = cc in rw (← same)

abbrev pub toy_zstd : Zstd
toy_zstd = record {
  encode = λ level bytes. ok (0 ∷ bytes);
  decode = unzero;
  ratio_low = λ original compressed. ltb (original * 100) (compressed * 105);
  decode-encode = unzero_lem;
}

abbrev pub file : List ℕ
file = 10 ∷ 11 ∷ 12 ∷ 13 ∷ 14 ∷ []

abbrev pub config : ConfigMessage
config = record {
  compression_enabled = true;
  compression_level = pos 3;
  adaptive_compression = true;
  chunk_size = 2;
  bandwidth_limit = 0;
}

abbrev pub reader : ChunkReader
reader = record { file = file; chunk_size = 2; total_chunks = 3; file_size = 5; hasher = [] }

reader_opened : open_file file 2 ≡ ok reader
unfolding open_file chunk_count
reader_opened = refl

-- Chunk 1 is there from an earlier session.
abbrev pub leftover : List ℕ
leftover = 0 ∷ 0 ∷ 12 ∷ 13 ∷ []

-- The streams of chunks 0 and 2, both compressed by the toy codec.
abbrev streams : List (List ℕ)
streams =
    (0 ∷ 0 ∷ 0 ∷ 0 ∷ 0 ∷ 0 ∷ 0 ∷ 0 ∷ 1 ∷ 0 ∷ 10 ∷ 11 ∷ [])
    ∷ (2 ∷ 0 ∷ 0 ∷ 0 ∷ 0 ∷ 0 ∷ 0 ∷ 0 ∷ 1 ∷ 0 ∷ 14 ∷ [])
    ∷ []

abbrev pub run : Result (List ℕ) × Sender
run = send_file toy_zstd (λ bytes. bytes) (1 ∷ []) (new_sender reader config [])

run_lem : (run.0 ≡ ok file) × (run.1.streams ≡ streams) × (run.1.marked ≡ 0 ∷ 2 ∷ [])
unfolding send_file send_chunks send_chunk read_chunk fold_chunk send_chunk_stream new_sender
    new_compressor contains chunk_stream to_le_bytes compress new
run_lem = (refl, refl, refl)

-- The link fails at chunk 2: the first chunk stays marked.
broken_run :
    (send_file toy_zstd (λ bytes. bytes) (1 ∷ []) (new_sender reader config (true ∷ false ∷ []))).0
    ≡ err quic
unfolding send_file send_chunks send_chunk read_chunk fold_chunk send_chunk_stream new_sender
    new_compressor contains chunk_stream to_le_bytes compress new
broken_run = refl

leftover_right :
    (k : ℕ) → contains (1 ∷ []) k ≡ true → RightChunk toy_zstd config file 3 (1 ∷ []) leftover k
unfolding contains
leftover_right zero e = cc
leftover_right (suc zero) e = places
  where
    places : RightChunk toy_zstd config file 3 (1 ∷ []) leftover 1
    places zero h l = refl
    places (suc zero) h l = refl
    places (suc (suc j)) h l = absurd (omega arith)
leftover_right (suc (suc k)) e = let never : ⊥ = ground arith in absurd never

pub prepared : Prepared toy_zstd (λ bytes. bytes) config file reader (1 ∷ []) leftover
unfolding contains validate_file_size
prepared = record {
  admitted = refl;
  positive = omega arith;
  small = omega arith;
  opened = reader_opened;
  distinct = (refl, tt);
  known = omega arith;
  short = omega arith;
  right = leftover_right;
}

-- Out of order, with a repeat.
abbrev pub arrivals : List (List ℕ)
arrivals =
    (2 ∷ 0 ∷ 0 ∷ 0 ∷ 0 ∷ 0 ∷ 0 ∷ 0 ∷ 1 ∷ 0 ∷ 14 ∷ [])
    ∷ (2 ∷ 0 ∷ 0 ∷ 0 ∷ 0 ∷ 0 ∷ 0 ∷ 0 ∷ 1 ∷ 0 ∷ 14 ∷ [])
    ∷ (0 ∷ 0 ∷ 0 ∷ 0 ∷ 0 ∷ 0 ∷ 0 ∷ 0 ∷ 1 ∷ 0 ∷ 10 ∷ 11 ∷ [])
    ∷ []

arrivals-genuine : (raw : List ℕ) → Occurs raw arrivals → Occurs raw streams
arrivals-genuine raw (zero, e) = (1, e)
arrivals-genuine raw (suc zero, e) = (1, e)
arrivals-genuine raw (suc (suc zero), e) = (0, e)
arrivals-genuine raw (suc (suc (suc i)), e) = cc

arrivals_complete : (raw : List ℕ) → Occurs raw streams → Occurs raw arrivals
arrivals_complete raw (zero, e) = (2, e)
arrivals_complete raw (suc zero, e) = (0, e)
arrivals_complete raw (suc (suc i), e) = cc

pub delivered : Delivers run.1.streams arrivals
delivered = rw run_lem.1 (record { genuine = arrivals-genuine; complete = arrivals_complete })

pub streams_fit : All (λ raw. length raw ≤ max_chunk_stream_bytes) run.1.streams
streams_fit = rw run_lem.1 (omega arith)

pub run_ok : run ≡ (ok file, run.1)
run_ok = rw (← run_lem.0)

sent_file_arrives_example :
    (file ≡ file)
    × (r : Receiver) × (receive_file toy_zstd config
          (λ bytes. bytes)
          3
          2
          (map ok arrivals)
          (new_receiver well config leftover)
        ≡ (ok file, r))
    × (r.finished ≡ some file)
sent_file_arrives_example =
    sent_file_arrives toy_zstd (λ bytes. bytes) config file reader (1 ∷ []) leftover [] arrivals
      file run.1 prepared run_ok streams_fit delivered

send_file_outcome_example :
    SendOutcome toy_zstd
      (λ bytes. bytes)
      config
      file
      reader
      (1 ∷ [])
      (send_file toy_zstd (λ bytes. bytes) (1 ∷ []) (new_sender reader config (true ∷ false ∷ [])))
unfolding validate_file_size
send_file_outcome_example =
    send_file_outcome toy_zstd (λ bytes. bytes) config file reader (1 ∷ []) (true ∷ false ∷ []) refl
      (omega arith) (omega arith) reader_opened

-- The file cannot be read back once it has been renamed.
abbrev unread : Closing
unread = record well { reread = err network }

receive_file-Verdict_example :
    Verdict toy_zstd config 3 unread
      (λ bytes. bytes)
      2
      (receive_file toy_zstd config
        (λ bytes. bytes)
        3
        2
        (map ok arrivals)
        (new_receiver unread config leftover))
receive_file-Verdict_example =
    receive_file-Verdict toy_zstd config 3 unread (λ bytes. bytes) 2 (map ok arrivals) leftover

packed_run :
    (compress toy_zstd (5 ∷ 6 ∷ []) (new (pos 3) 0)).0
    ≡ ok (record { bytes = 0 ∷ 5 ∷ 6 ∷ []; used = true; changed = false })
unfolding compress new
packed_run = refl
