-- ===== src/Session/Sending/Ending.antt =====
-- session.rs: what is promised of the end of `send_path`.
use p2pfile_transfer.Common.{ℕ, ◌+◌, ◌≤◌, ◌<◌, ◌≡◌, true, false, length}
use p2pfile_transfer.Errors.{Error, Result, ok, err, panic, protocol, is_recoverable}
use p2pfile_transfer.Folder.{FolderTransferState, is_complete}
use p2pfile_transfer.FolderSession.Sending.{FolderSender}
use p2pfile_transfer.FolderSession.Sending.Bookkeeping.{Resumable}
use p2pfile_transfer.FolderSession.Receiving.{TransferSummary}
use p2pfile_transfer.Session.{Live}
use p2pfile_transfer.Session.Authentic.{Pinned}
use p2pfile_transfer.Session.Sending.{Ended, summary_of}
use p2pfile_transfer.Session.Sending.Loads.{Loads}

-- What stands when `send_path` ends.
abbrev pub Concludes : FolderTransferState → Result TransferSummary → Type 0
Concludes state (ok summary) =
    (is_complete state ≡ true)
    × (state.transferred_bytes ≡ state.total_bytes)
    × (summary ≡ summary_of state)
Concludes state (err e) = Unit {0}
Concludes state panic = Unit {0}

abbrev pub IsOk : Result TransferSummary → Type 0
IsOk (ok s) = Unit {0}
IsOk (err e) = ⊥
IsOk panic = ⊥

-- A call of `send`, by the number of the attempt, with the state and the session that it starts from.
abbrev pub Runs : Type 0
Runs = ℕ → FolderTransferState → Live → Result (Unit {0}) × FolderSender

-- The last call came to this and left the state.
pub record LastRun (runs : Runs) (r : Ended) (came : Result (Unit {0})) : Type 0 where
  pub attempt : ℕ
  pub state : FolderTransferState
  pub live : Live
  pub number : attempt + 1 ≡ r.sends
  pub came_to : (runs attempt state live).0 ≡ came
  pub left : (runs attempt state live).1.state ≡ r.state

-- Why there is no further call: the last one succeeded, panicked, or failed with an error that is not
-- recoverable, which is returned; or it failed with one that is, and it was number `limit`.
pub data Why (runs : Runs) (limit : ℕ) (r : Ended) : Type 0 where
  on_success : LastRun runs r (ok tt) → IsOk r.result → Why runs limit r
  on_panic : LastRun runs r panic → r.result ≡ panic → Why runs limit r
  on_failure :
      (e : Error)
      → LastRun runs r (err e)
      → is_recoverable e ≡ false
      → r.result ≡ err e
      → Why runs limit r
  on_limit :
      (e : Error)
      → LastRun runs r (err e)
      → is_recoverable e ≡ true
      → r.sends ≡ limit
      → r.result ≡ err protocol
      → Why runs limit r

pub record IsEnded (runs : Runs) (limit : ℕ) (r : Ended) : Type 0 where
  pub some_send : 0 < r.sends
  pub bounded : r.sends ≤ limit
  pub waits : length r.slept + 1 ≡ r.sends
  pub concludes : Concludes r.state r.result
  pub why : Why runs limit r
  pub resumable : Resumable r.state
  pub loads : Loads r.world.file
  pub pinned : Pinned r.world.live
