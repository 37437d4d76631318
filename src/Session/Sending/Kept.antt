-- ===== src/Session/Sending/Kept.antt =====
-- session.rs: what `send_path` leaves in the state file, and how a later call starts from it.
use p2pfile_transfer.Common.{
  ℕ, zero, suc, ◌+◌, ◌%◌, ◌^◌, ◌≡◌, refl, Bool, true, false, List, [], ◌∷◌, ◌++◌, Option, some,
  subst, none,
}
use Prim.Native.String.{String}
use p2pfile_transfer.Errors.{Error, Result, ok, err, panic, is_recoverable}
use p2pfile_transfer.Protocol.{Uuid, Digest}
use p2pfile_transfer.Compression.{Zstd}
use p2pfile_transfer.Folder.{FolderTransferState}
use p2pfile_transfer.FolderSession.Sending.{FolderSender, Found}
use p2pfile_transfer.FolderSession.Receiving.{TransferSummary}
use p2pfile_transfer.Reconnect.{ReconnectConfig, should_retry, backoff_delay}
use p2pfile_transfer.Session.Sending.{
  World, StateFile, Ended, changed_to, save_to_file, unremoved, remove_file, after_send,
  resume_live, run, send_loop, send_path,
}

-- A state file of which every change is made, with this content.
abbrev pub smooth : Option (Result FolderTransferState) → Option StateFile
smooth content = some (record { content = content; changes = [] })

-- The state file, once `send_path` ended.
abbrev pub Kept : FolderTransferState → Option StateFile → Result TransferSummary → Type 0
Kept state file (ok summary) = file ≡ smooth none
Kept state file (err e) = file ≡ smooth (some (ok state))
Kept state file panic = (content : Option (Result FolderTransferState)) × (file ≡ smooth content)

removed :
    (content : Option (Result FolderTransferState)) → remove_file (smooth content) ≡ smooth none
unfolding remove_file unremoved
removed none = refl
removed (some r) = refl

saved :
    (state : FolderTransferState) (content : Option (Result FolderTransferState))
    → save_to_file state (smooth content) ≡ smooth (some (ok state))
unfolding save_to_file changed_to
saved state content = refl

-- Whatever comes back is `Kept`.
abbrev Keeps : Option Ended → Type 0
Keeps none = Unit {0}
Keeps (some r) = Kept r.state r.world.file r.result

module _ (z : Zstd) (sha256 : List ℕ → Digest) (disk : ℕ → Option String → Result (List ℕ))
    (found : ℕ → Found) (duration_ms : ℕ → ℕ) (c : ReconnectConfig) where
  module _ (transfer_id : Uuid) where
    module _ (fuel attempt : ℕ) (slept : List ℕ) (state : FolderTransferState) (w : World)
        (content : Option (Result FolderTransferState)) (is_smooth : w.file ≡ smooth content)
        (again : (state' : FolderTransferState) (w' : World)
          → w'.file ≡ smooth (some (ok state'))
          → Keeps (
              send_loop z sha256 disk found duration_ms c transfer_id fuel
                ((attempt + 1) % 2 ^ 32)
                (slept ++ (backoff_delay c attempt ∷ []))
                state'
                w')) where
      abbrev t : FolderSender
      t = (run z sha256 disk found duration_ms c transfer_id attempt state w.live).1

      now_saved : save_to_file t.state w.file ≡ smooth (some (ok t.state))
      now_saved = rw is_smooth (saved t.state content)

      failed-Keeps :
          (x : Error)
          → (run z sha256 disk found duration_ms c transfer_id attempt state w.live).0 ≡ err x
          → (b : Bool) → is_recoverable x ≡ b
          → (more : Bool) → should_retry c attempt ≡ more
          → Keeps (
              send_loop z sha256 disk found duration_ms c transfer_id
                (suc fuel)
                attempt
                slept
                state
                w)
      unfolding send_loop resume_live
      failed-Keeps x g false hopeless more ag = rw (g, send_loop, hopeless) now_saved
      failed-Keeps x g true some_hope false over = rw (g, send_loop, some_hope, over) now_saved
      failed-Keeps x g true some_hope true more =
          rw (g, send_loop, some_hope, more)
            (again t.state (resume_live t.state (record w { live = after_send t w.live }))
              now_saved)

      result-Keeps :
          (x : Result (Unit {0}))
          → (run z sha256 disk found duration_ms c transfer_id attempt state w.live).0 ≡ x
          → Keeps (
              send_loop z sha256 disk found duration_ms c transfer_id
                (suc fuel)
                attempt
                slept
                state
                w)
      unfolding send_loop
      result-Keeps (ok _) g = rw (g, send_loop, is_smooth) (removed content)
      result-Keeps panic g = rw (g, send_loop) (content, is_smooth)
      result-Keeps (err x) g =
          failed-Keeps x g (is_recoverable x) refl (should_retry c attempt) refl

    send_loop-Keeps :
        (fuel attempt : ℕ) (slept : List ℕ) (state : FolderTransferState) (w : World)
        (content : Option (Result FolderTransferState))
        → w.file ≡ smooth content
        → Keeps (send_loop z sha256 disk found duration_ms c transfer_id fuel attempt slept state w)
    unfolding send_loop
    send_loop-Keeps zero attempt slept state w content s = tt
    send_loop-Keeps (suc fuel) attempt slept state w content s =
        result-Keeps fuel attempt slept state w content s
          (λ state' w' s'.
            send_loop-Keeps fuel ((attempt + 1) % 2 ^ 32) (slept ++ (backoff_delay c attempt ∷ []))
              state' w' (some (ok state')) s')
          (run z sha256 disk found duration_ms c transfer_id attempt state w.live).0 refl

  -- Where the path exists and every change of the state file is made, a `send_path` that ended has
  -- removed the state file if it succeeded, and has left in it exactly the state of its last run if
  -- it failed with an error.
  pub send_path-Kept :
      (fresh_id new_id : Uuid) (fuel : ℕ) (w : World) (r : Ended)
      (content : Option (Result FolderTransferState))
      → w.file ≡ smooth content
      → send_path z sha256 disk found duration_ms c true fresh_id new_id fuel w ≡ some r
      → Kept r.state r.world.file r.result
  unfolding send_path
  send_path-Kept fresh_id new_id fuel w r content s e =
      subst Keeps e (send_loop-Keeps _ fuel 0 [] _ w content s)
