-- ===== src/History/Runs.antt =====
-- history.rs: the theorems at concrete inputs. The codec knows histories of one kind of record.
use Prim.Native.String.{String}
use p2pfile_transfer.Common.{
  ℕ, zero, suc, ◌≡◌, refl, ap, sym, ◌∙◌, map, true, false, List, [], ◌∷◌, ◌++◌, Option, none, some,
  replicate, bytes_eq,
}
use p2pfile_transfer.Common.Maps.{bytes_key, get, insert, remove}
use p2pfile_transfer.Files.{
  Files, fine, stops, read, touch, attempt, open_truncated, write_all, rename, replace_file,
  open_or_create,
}
use p2pfile_transfer.History.{
  TransferRecord, TransferHistory, TransferDirection, TransferStatus, Json, send, interrupted,
  add_record, sibling_path, load_or_quarantine, append_record_locked,
}
use p2pfile_transfer.History.Loading.{log}
use p2pfile_transfer.History.Appending.{Appended, append_record_locked-Appended}
use p2pfile_transfer.History.Journal.{append_all, journal, append_all-journal}

abbrev plain : TransferRecord
plain = record {
  transfer_id = 0;
  start_time = 0;
  end_time = 0;
  direction = send;
  peer_address = "";
  files = [];
  bytes_transferred = 0;
  duration_secs = 0;
  status = interrupted;
}

-- A record that differs from `plain` in its byte count at most.
abbrev with_bytes : ℕ → TransferRecord
with_bytes n = record plain { bytes_transferred = n }

abbrev count_of :
    ℕ → ℕ → ℕ → TransferDirection → String → List String → ℕ → ℕ → TransferStatus → Option ℕ
count_of zero zero zero send String.[] [] n zero interrupted = some n
count_of _ _ _ _ _ _ _ _ _ = none

abbrev byte_count : TransferRecord → Option ℕ
byte_count r =
    count_of r.transfer_id r.start_time r.end_time r.direction r.peer_address r.files
      r.bytes_transferred r.duration_secs r.status

count_inv :
    (id start end : ℕ) (d : TransferDirection) (address : String) (files : List String)
    (n duration : ℕ) (status : TransferStatus) (m : ℕ)
    → count_of id start end d address files n duration status ≡ some m
    → ◌≡◌ {A = TransferRecord}
        (record {
          transfer_id = id;
          start_time = start;
          end_time = end;
          direction = d;
          peer_address = address;
          files = files;
          bytes_transferred = n;
          duration_secs = duration;
          status = status;
        })
        (with_bytes m)
count_inv zero zero zero send String.[] [] n zero interrupted m e =
    let same : n ≡ m = cc in ap with_bytes same
count_inv _ _ _ _ _ _ _ _ _ m e = cc

abbrev joined : Option ℕ → Option (List ℕ) → Option (List ℕ)
joined (some n) (some bytes) = some (n ∷ bytes)
joined _ _ = none

abbrev counts : List TransferRecord → Option (List ℕ)
counts [] = some []
counts (r ∷ records) = joined (byte_count r) (counts records)

joined_inv :
    (o : Option ℕ) (p : Option (List ℕ)) (bytes : List ℕ)
    → joined o p ≡ some bytes
    → (n : ℕ) × (later : List ℕ) × (o ≡ some n) × (p ≡ some later) × (n ∷ later ≡ bytes)
joined_inv (some n) (some later) bytes e = (n, later, refl, refl, cc)
joined_inv _ _ bytes e = cc

counts_inv :
    (records : List TransferRecord) (bytes : List ℕ)
    → counts records ≡ some bytes
    → map with_bytes bytes ≡ records
counts_inv [] bytes e = let same : [] ≡ bytes = cc in rw (← same)
counts_inv (r ∷ records) bytes e =
    let (n, later, first, others, same) = joined_inv (byte_count r) (counts records) bytes e in
    let front =
      count_inv r.transfer_id r.start_time r.end_time r.direction r.peer_address r.files
        r.bytes_transferred r.duration_secs r.status n first in
    let back = counts_inv records later others in
    ap (map with_bytes) (sym same)
    ∙ ap (λ l. with_bytes n ∷ l) back
    ∙ ap (λ x. x ∷ records) (sym front)

abbrev framed : Option (List ℕ) → Option (List ℕ)
framed none = none
framed (some bytes) = some (1 ∷ bytes)

abbrev to_bytes : TransferHistory → Option (List ℕ)
to_bytes h = framed (counts h.records)

abbrev of_bytes : List ℕ → Option TransferHistory
of_bytes (suc zero ∷ bytes) = some (record { records = map with_bytes bytes })
of_bytes _ = none

framed_inv :
    (o : Option (List ℕ)) (bytes : List ℕ)
    → framed o ≡ some bytes
    → (inner : List ℕ) × (o ≡ some inner) × (1 ∷ inner ≡ bytes)
framed_inv (some inner) bytes e = (inner, refl, cc)
framed_inv none bytes e = cc

of_bytes-to_bytes :
    (h : TransferHistory) (bytes : List ℕ) → to_bytes h ≡ some bytes → of_bytes bytes ≡ some h
of_bytes-to_bytes h bytes e =
    let (inner, known, same) = framed_inv (counts h.records) bytes e in
    ap of_bytes (sym same)
    ∙ ap (λ l. some (record { records = l })) (counts_inv h.records inner known)

abbrev json : Json
json = record {
  to_vec = to_bytes;
  from_slice = of_bytes;
  from_slice-to_vec = of_bytes-to_bytes;
  from_nothing = refl;
}

abbrev path : List ℕ
path = 104 ∷ []

-- A file that does not parse.
abbrev corrupt : Files
corrupt = record { contents = (path, 9 ∷ 9 ∷ []) ∷ []; faults = [] }

append_record_locked-Appended_example :
    Appended json path
      (53 ∷ [])
      (with_bytes 4)
      (get corrupt.contents path)
      (append_record_locked json path (with_bytes 4) (53 ∷ []) corrupt)
append_record_locked-Appended_example =
    append_record_locked-Appended json path (53 ∷ []) (with_bytes 4) corrupt

-- The third append is stopped in the middle of its write.
abbrev calls : List (TransferRecord × List ℕ)
calls = (with_bytes 4, 53 ∷ []) ∷ (with_bytes 5, 54 ∷ []) ∷ (with_bytes 6, 55 ∷ []) ∷ []

abbrev unlucky : Files
unlucky = record {
  contents = (path, 9 ∷ 9 ∷ []) ∷ [];
  faults = replicate 9 fine ++ (replicate 8 fine ++ replicate 5 fine ++ (stops 1 ∷ []));
}

append_all-journal_example :
    log json (get (append_all json path calls unlucky).1.contents path)
    ≡ journal (log json (get unlucky.contents path)) calls (append_all json path calls unlucky).0
append_all-journal_example = append_all-journal json path calls unlucky

third_lost :
    ((append_all json path calls unlucky).0 ≡ true ∷ true ∷ false ∷ [])
    × (log json (get (append_all json path calls unlucky).1.contents path)
        ≡ with_bytes 4 ∷ with_bytes 5 ∷ [])
unfolding append_all append_record_locked log touch attempt open_or_create sibling_path
    load_or_quarantine read get insert remove rename add_record replace_file open_truncated
    write_all bytes_eq
third_lost = (refl, refl)

abbrev old : TransferRecord
old = record plain { start_time = 1 }

abbrev three : TransferHistory
three = record { records = old ∷ record plain { start_time = 7 } ∷ with_bytes 3 ∷ [] }
