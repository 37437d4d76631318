-- ===== src/History.antt =====
-- p2p-core/src/history.rs: records of transfers, the queries, and the append to the history file. The clock is
-- an argument, paths are byte strings, and serde_json is a parameter. An exclusive lock is held from
-- the read to the rename, so that the calls of other processes come before or behind one.
pub mod Loading
pub mod Appending
pub mod Runs
pub mod Journal
pub mod Records
use Prim.Native.String.{String}
use p2pfile_transfer.Common.{
  ℕ, ◌-◌, ◌≡◌, Bool, true, false, List, [], ◌∷◌, ◌++◌, Option, none, some, take, ltb, leb, ◌==◌,
  if◌then◌else◌,
}
use p2pfile_transfer.Errors.{Result, ok, err, panic, protocol}
use p2pfile_transfer.Effects.{M, and_then, ◌>>=◌, ◌>>◌, done, lift}
use p2pfile_transfer.Protocol.{Uuid}
use p2pfile_transfer.Files.{FilePath, Files, read, rename, touch, open_or_create, replace_file}

pub data TransferDirection : Type 0 where
  send receive : TransferDirection

pub data TransferStatus : Type 0 where
  completed interrupted failed : TransferStatus

pub record TransferRecord : Type 0 where
  pub transfer_id : Uuid
  pub start_time : ℕ
  pub end_time : ℕ
  pub direction : TransferDirection
  pub peer_address : String
  pub files : List String
  pub bytes_transferred : ℕ
  pub duration_secs : ℕ
  pub status : TransferStatus

unfoldable pub new_record : Uuid → TransferDirection → String → ℕ → TransferRecord
new_record transfer_id direction peer_address now = record {
  transfer_id = transfer_id;
  start_time = now;
  end_time = now;
  direction = direction;
  peer_address = peer_address;
  files = [];
  bytes_transferred = 0;
  duration_secs = 0;
  status = interrupted;
}

-- `saturating_sub` is subtraction on ℕ.
finished : TransferStatus → List String → ℕ → ℕ → TransferRecord → TransferRecord
finished status files bytes_transferred now r = record r {
  end_time = now;
  duration_secs = now - r.start_time;
  files = files;
  bytes_transferred = bytes_transferred;
  status = status;
}

unfoldable pub complete : List String → ℕ → ℕ → TransferRecord → TransferRecord
unfolding finished
complete files bytes_transferred now r = finished completed files bytes_transferred now r

unfoldable pub interrupt : List String → ℕ → ℕ → TransferRecord → TransferRecord
unfolding finished
interrupt files bytes_transferred now r = finished interrupted files bytes_transferred now r

-- `text` is the error behind "Error: ".
unfoldable pub fail : String → ℕ → TransferRecord → TransferRecord
fail text now r = record r {
  end_time = now;
  duration_secs = now - r.start_time;
  status = failed;
  files = r.files ++ (text ∷ []);
}

pub record TransferHistory : Type 0 where
  pub records : List TransferRecord

abbrev pub new_history : TransferHistory
new_history = record { records = [] }

unfoldable pub add_record : TransferRecord → TransferHistory → TransferHistory
add_record r h = record { records = h.records ++ (r ∷ []) }

unfoldable pub same_direction : TransferDirection → TransferDirection → Bool
same_direction send send = true
same_direction receive receive = true
same_direction _ _ = false

unfoldable pub same_status : TransferStatus → TransferStatus → Bool
same_status completed completed = true
same_status interrupted interrupted = true
same_status failed failed = true
same_status _ _ = false

unfoldable pub filter : (TransferRecord → Bool) → List TransferRecord → List TransferRecord
filter p [] = []
filter p (r ∷ records) = let rest = filter p records in if p r then r ∷ rest else rest

unfoldable pub filter_by_direction : TransferDirection → TransferHistory → List TransferRecord
filter_by_direction direction h = filter (λ r. same_direction r.direction direction) h.records

unfoldable pub filter_by_status : TransferStatus → TransferHistory → List TransferRecord
filter_by_status status h = filter (λ r. same_status r.status status) h.records

first_with : Uuid → List TransferRecord → Option TransferRecord
first_with id [] = none
first_with id (r ∷ records) = if r.transfer_id == id then some r else first_with id records

unfoldable pub get_by_id : Uuid → TransferHistory → Option TransferRecord
unfolding first_with
get_by_id id h = first_with id h.records

-- In front of the first record that did not start later: with records inserted from the last, equal
-- ones keep their order, as `sort_by_key` does.
unfoldable pub insert_newest : TransferRecord → List TransferRecord → List TransferRecord
insert_newest r [] = r ∷ []
insert_newest r (x ∷ records) =
    if leb x.start_time r.start_time then r ∷ x ∷ records else x ∷ insert_newest r records

-- `sort_by_key` with `Reverse(start_time)`
unfoldable pub newest_first : List TransferRecord → List TransferRecord
newest_first [] = []
newest_first (r ∷ records) = insert_newest r (newest_first records)

unfoldable pub recent : ℕ → TransferHistory → List TransferRecord
recent limit h = take limit (newest_first h.records)

-- serde_json: what it encodes, it decodes, and nothing is no document.
pub record Json : Type 0 where
  pub to_vec : TransferHistory → Option (List ℕ)
  pub from_slice : List ℕ → Option TransferHistory
  pub from_slice-to_vec :
      (h : TransferHistory) (bytes : List ℕ) → to_vec h ≡ some bytes → from_slice bytes ≡ some h
  pub from_nothing : from_slice [] ≡ none

-- `sibling_path`
unfoldable pub sibling_path : FilePath → List ℕ → FilePath
sibling_path path suffix = path ++ suffix

abbrev pub lock_suffix : List ℕ
lock_suffix = 46 ∷ 108 ∷ 111 ∷ 99 ∷ 107 ∷ []

abbrev pub tmp_suffix : List ℕ
tmp_suffix = 46 ∷ 116 ∷ 109 ∷ 112 ∷ []

-- ".corrupt-" and the digits of the time.
abbrev pub corrupt_suffix : List ℕ → List ℕ
corrupt_suffix secs = 46 ∷ 99 ∷ 111 ∷ 114 ∷ 114 ∷ 117 ∷ 112 ∷ 116 ∷ 45 ∷ secs

module _ (json : Json) where
  parsed : FilePath → FilePath → Option TransferHistory → M Files TransferHistory
  parsed path quarantine (some h) = done h
  parsed path quarantine none = do rename path quarantine; done new_history

  of_bytes : FilePath → FilePath → Option (List ℕ) → M Files TransferHistory
  unfolding parsed
  of_bytes path quarantine none = done new_history
  of_bytes path quarantine (some []) = done new_history
  of_bytes path quarantine (some (b ∷ bytes)) = parsed path quarantine (json.from_slice (b ∷ bytes))

  unfoldable pub load_or_quarantine : FilePath → List ℕ → M Files TransferHistory
  unfolding of_bytes
  load_or_quarantine path secs = do
    buf ← read path
    of_bytes path (sibling_path path (corrupt_suffix secs)) buf

  encoded : Option (List ℕ) → Result (List ℕ)
  encoded none = err protocol
  encoded (some bytes) = ok bytes

  -- `secs` are the digits of the time at which a file that does not parse is put aside.
  unfoldable pub append_record_locked : FilePath → TransferRecord → List ℕ → M Files (Unit {0})
  unfolding encoded
  append_record_locked path r secs = do
    touch
    open_or_create (sibling_path path lock_suffix)
    touch
    history ← load_or_quarantine path secs
    bytes ← lift (encoded (json.to_vec (add_record r history)))
    replace_file (sibling_path path tmp_suffix) path bytes
