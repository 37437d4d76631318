-- ===== src/Files.antt =====
-- The calls of std::fs that history.rs and known_peers.rs make: a disk is a map from paths to bytes, and
-- any call may fail, which is also what a crash leaves behind.
pub mod Atomic
pub mod Calls
use p2pfile_transfer.Common.{ℕ, List, [], ◌∷◌, Option, none, some, take}
use p2pfile_transfer.Common.Maps.{bytes_key, get, insert, remove}
use p2pfile_transfer.Errors.{Result, ok, err, network}
use p2pfile_transfer.Effects.{M, and_then, ◌>>◌}

abbrev pub FilePath : Type 0
FilePath = List ℕ

abbrev pub Contents : Type 0
Contents = List (FilePath × List ℕ)

-- A call works, or it fails; a write that fails has written that many bytes.
pub data Fault : Type 0 where
  fine : Fault
  stops : ℕ → Fault

-- `faults` is how the calls to come go; behind its end all work.
pub record Files : Type 0 where
  pub contents : Contents
  pub faults : List Fault

attempt_with : List Fault → Contents → (ℕ → Contents) → M Files (Unit {0})
attempt_with [] good bad s = (ok tt, record s { contents = good })
attempt_with (fine ∷ later) good bad s = (ok tt, record s { contents = good; faults = later })
attempt_with (stops n ∷ later) good bad s =
    (err network, record s { contents = bad n; faults = later })

-- A call with what it makes of the disk when it works and when it fails.
unfoldable pub attempt : Contents → (ℕ → Contents) → M Files (Unit {0})
unfolding attempt_with
attempt good bad s = attempt_with s.faults good bad s

-- A call that changes no file: a directory, a lock, a sync.
unfoldable pub touch : M Files (Unit {0})
touch s = attempt s.contents (λ _. s.contents) s

-- `read`, with `none` for a missing file.
unfoldable pub read : FilePath → M Files (Option (List ℕ))
read path s = and_then (touch s) (λ _ t. (ok (get t.contents path), t))

unfoldable pub open_truncated : FilePath → M Files (Unit {0})
open_truncated path s = attempt (insert s.contents path []) (λ _. s.contents) s

-- On a file that was just truncated.
unfoldable pub write_all : FilePath → List ℕ → M Files (Unit {0})
write_all path bytes s =
    attempt (insert s.contents path bytes) (λ n. insert s.contents path (take n bytes)) s

moved : FilePath → FilePath → Option (List ℕ) → M Files (Unit {0})
moved from to none s = (err network, s)
moved from to (some content) s =
    attempt (insert (remove s.contents from) to content) (λ _. s.contents) s

unfoldable pub rename : FilePath → FilePath → M Files (Unit {0})
unfolding moved
rename from to s = moved from to (get s.contents from) s

-- The pattern of both files: a sibling is written and synced, then renamed over the file.
unfoldable pub replace_file : FilePath → FilePath → List ℕ → M Files (Unit {0})
replace_file tmp path bytes = do open_truncated tmp; write_all tmp bytes; touch; rename tmp path

created : Contents → FilePath → Option (List ℕ) → Contents
created contents path none = insert contents path []
created contents path (some bytes) = contents

-- Opened for writing, created if it is missing, and not truncated.
unfoldable pub open_or_create : FilePath → M Files (Unit {0})
unfolding created
open_or_create path s = attempt (created s.contents path (get s.contents path)) (λ _. s.contents) s
