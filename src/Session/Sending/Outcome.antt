-- ===== src/Session/Sending/Outcome.antt =====
-- session.rs: how `send_path` ends, whatever the network, the peer and the state file do.
use p2pfile_transfer.Common.{
  ℕ, zero, suc, ◌+◌, ◌%◌, ◌^◌, ◌<◌, ◌≡◌, refl, Bool, true, false, List, [], ◌∷◌, ◌++◌, arith,
  Option, some, none, length, length-append,
}
use Prim.Native.String.{String}
use p2pfile_transfer.Errors.{Error, Result, ok, err, panic, protocol, is_recoverable}
use p2pfile_transfer.Protocol.{Uuid, Digest}
use p2pfile_transfer.Compression.{Zstd}
use p2pfile_transfer.Folder.{FolderTransferState, new}
use p2pfile_transfer.FolderSession.Sending.{FolderSender, Found}
use p2pfile_transfer.FolderSession.Sending.Bookkeeping.{Resumable}
use p2pfile_transfer.FolderSession.Sending.Resume.{SendOutcome, send-SendOutcome, new-Resumable}
use p2pfile_transfer.FolderSession.Receiving.{TransferSummary}
use p2pfile_transfer.Reconnect.{ReconnectConfig, should_retry, backoff_delay}
use p2pfile_transfer.Session.{Live}
use p2pfile_transfer.Session.Authentic.{Pinned, reconnect-Pinned}
use p2pfile_transfer.Session.Sending.{
  World, StateFile, Ended, save_to_file, remove_file, load_from_file, id_of, summary_of, sender_of,
  after_send, resume_live, run, send_loop, send_path,
}
use p2pfile_transfer.Session.Sending.Ending.{
  Concludes, LastRun, Why, on_success, on_panic, on_failure, on_limit, IsEnded,
}
use p2pfile_transfer.Session.Sending.Loads.{
  Loads, save_to_file-Loads, remove_file-Loads, load_from_file-Resumable,
}

module _ (z : Zstd) (sha256 : List ℕ → Digest) (disk : ℕ → Option String → Result (List ℕ))
    (found : ℕ → Found) (duration_ms : ℕ → ℕ) (c : ReconnectConfig) (limit : ℕ)
    (limited : c.max_attempts ≡ limit) (small : limit < 2 ^ 32) where
  module _ (transfer_id : Uuid) where
    abbrev pub Returns : Option Ended → Type 0
    Returns none = ⊥
    Returns (some r) = IsEnded (run z sha256 disk found duration_ms c transfer_id) limit r

    run-SendOutcome :
        (attempt : ℕ) (state : FolderTransferState) (l : Live)
        → Resumable state
        → SendOutcome (run z sha256 disk found duration_ms c transfer_id attempt state l)
    unfolding run sender_of
    run-SendOutcome attempt state l h =
        send-SendOutcome z sha256 (disk attempt) l.session.handshake.config transfer_id
          (found attempt) (duration_ms attempt) (sender_of state l) h

    -- One round, where the rounds behind it return.
    module _ (fuel attempt : ℕ) (slept : List ℕ) (state : FolderTransferState) (w : World)
        (e : attempt + suc fuel ≡ limit) (l : length slept ≡ attempt) (loads : Loads w.file)
        (pinned : Pinned w.live)
        (again : (state' : FolderTransferState) (w' : World)
          → 0 < fuel
          → length (slept ++ (backoff_delay c attempt ∷ [])) ≡ attempt + 1
          → Resumable state'
          → Loads w'.file
          → Pinned w'.live
          → Returns (
              send_loop z sha256 disk found duration_ms c transfer_id fuel
                (attempt + 1)
                (slept ++ (backoff_delay c attempt ∷ []))
                state'
                w')) where
      abbrev t : FolderSender
      t = (run z sha256 disk found duration_ms c transfer_id attempt state w.live).1

      plain : (attempt + 1) % 2 ^ 32 ≡ attempt + 1
      plain = omega arith

      longer : length (slept ++ (backoff_delay c attempt ∷ [])) ≡ attempt + 1
      longer = omega (arith, length-append slept (backoff_delay c attempt ∷ []))

      abbrev stopped : Result TransferSummary → Option StateFile → Ended
      stopped r f = record {
        result = r;
        state = t.state;
        world = record { live = after_send t w.live; file = f };
        sends = attempt + 1;
        slept = slept;
      }

      last_run :
          (r : Result TransferSummary) (f : Option StateFile) (came : Result (Unit {0}))
          → (run z sha256 disk found duration_ms c transfer_id attempt state w.live).0 ≡ came
          → LastRun (run z sha256 disk found duration_ms c transfer_id) (stopped r f) came
      last_run r f came g = record {
        attempt = attempt;
        state = state;
        live = w.live;
        number = refl;
        came_to = g;
        left = refl;
      }

      stopped-IsEnded :
          (r : Result TransferSummary) (f : Option StateFile)
          → Resumable t.state
          → Loads f
          → Concludes t.state r
          → Why (run z sha256 disk found duration_ms c transfer_id) limit (stopped r f)
          → IsEnded (run z sha256 disk found duration_ms c transfer_id) limit (stopped r f)
      unfolding after_send
      stopped-IsEnded r f resumable good concludes why = record {
        some_send = omega arith;
        bounded = omega arith;
        waits = omega arith;
        concludes = concludes;
        why = why;
        resumable = resumable;
        loads = good;
        pinned = pinned;
      }

      failed-Returns :
          (x : Error)
          → (run z sha256 disk found duration_ms c transfer_id attempt state w.live).0 ≡ err x
          → Resumable t.state
          → (b : Bool) → is_recoverable x ≡ b
          → (more : Bool) → should_retry c attempt ≡ more
          → Returns (
              send_loop z sha256 disk found duration_ms c transfer_id
                (suc fuel)
                attempt
                slept
                state
                w)
      unfolding send_loop after_send resume_live
      failed-Returns x g r false hopeless more ag =
          rw (g, send_loop, hopeless)
            (stopped-IsEnded (err x) (save_to_file t.state w.file) r
              (save_to_file-Loads t.state w.file r loads) tt
              (on_failure x (last_run (err x) (save_to_file t.state w.file) (err x) g) hopeless
                refl))
      failed-Returns x g r true some_hope false over =
          rw (g, send_loop, some_hope, over)
            (stopped-IsEnded (err protocol) (save_to_file t.state w.file) r
              (save_to_file-Loads t.state w.file r loads) tt
              (on_limit x (last_run (err protocol) (save_to_file t.state w.file) (err x) g)
                some_hope (unfold should_retry in ground (arith, limited, plain, over)) refl))
      failed-Returns x g r true some_hope true more =
          rw (g, send_loop, some_hope, more, plain)
            (again t.state (resume_live t.state (record w { live = after_send t w.live }))
              (unfold should_retry in ground (arith, limited, plain, more)) longer r
              (save_to_file-Loads t.state w.file r loads)
              (reconnect-Pinned (after_send t w.live) pinned))

      result-Returns :
          (x : Result (Unit {0}))
          → (run z sha256 disk found duration_ms c transfer_id attempt state w.live).0 ≡ x
          → SendOutcome (x, t)
          → Returns (
              send_loop z sha256 disk found duration_ms c transfer_id
                (suc fuel)
                attempt
                slept
                state
                w)
      unfolding send_loop after_send resume_live
      result-Returns (ok _) g (r, complete, counted) =
          rw (g, send_loop)
            (stopped-IsEnded (ok (summary_of t.state)) (remove_file w.file) r
              (remove_file-Loads w.file loads) (complete, counted, refl)
              (on_success (last_run (ok (summary_of t.state)) (remove_file w.file) (ok tt) g) tt))
      result-Returns panic g r =
          rw (g, send_loop)
            (stopped-IsEnded panic w.file r loads tt
              (on_panic (last_run panic w.file panic g) refl))
      result-Returns (err x) g r =
          failed-Returns x g r (is_recoverable x) refl (should_retry c attempt) refl

    send_loop-Returns :
        (fuel attempt : ℕ) (slept : List ℕ) (state : FolderTransferState) (w : World)
        → attempt + fuel ≡ limit
        → 0 < fuel
        → length slept ≡ attempt
        → Resumable state
        → Loads w.file
        → Pinned w.live
        → Returns
            (send_loop z sha256 disk found duration_ms c transfer_id fuel attempt slept state w)
    send_loop-Returns zero attempt slept state w e pos l h loads pinned = absurd (omega arith)
    send_loop-Returns (suc fuel) attempt slept state w e pos l h loads pinned =
        result-Returns fuel attempt slept state w e l loads pinned
          (λ state' w' some_fuel longer h' loads' pinned'.
            send_loop-Returns fuel (attempt + 1) (slept ++ (backoff_delay c attempt ∷ [])) state' w'
              (omega arith) some_fuel longer h' loads' pinned')
          (run z sha256 disk found duration_ms c transfer_id attempt state w.live).0 refl
          (run-SendOutcome attempt state w.live h)

    extract :
        (o : Option Ended)
        → Returns o
        → (r : Ended) × (o ≡ some r)
          × IsEnded (run z sha256 disk found duration_ms c transfer_id) limit r
    extract none h = absurd h
    extract (some r) h = (r, refl, h)

  -- With a positive limit below 2 ^ 32, fuel for `limit` rounds suffices, whatever the network, the
  -- peer, the source files and the changes of the state file do: `send_path` calls `send` at least once
  -- and at most `limit` times, with one wait between two calls; it gives up only where the last call has
  -- panicked, where it has failed with an error that is not recoverable, which is returned, or where
  -- it has failed with a recoverable one and was number `limit`; a success has completed every file of its
  -- state and reports that state; the state it leaves, and what the state file then loads to, can be
  -- resumed from; and it has dialled no one but the session's own target. The path exists, the state
  -- file loads to nothing that cannot be resumed from, and no one else was dialled before.
  pub send_path-IsEnded :
      (fresh_id new_id : Uuid) (w : World)
      → 0 < limit
      → Loads w.file
      → Pinned w.live
      → (r : Ended) × (send_path z sha256 disk found duration_ms c true fresh_id new_id limit w
          ≡ some r)
        × IsEnded
            (run z sha256 disk found duration_ms c (
              id_of new_id
                (load_from_file (new fresh_id "" [] w.live.session.handshake.config) w.file)))
            limit
            r
  unfolding send_path
  send_path-IsEnded fresh_id new_id w pos loads pinned =
      let fresh = new fresh_id "" [] w.live.session.handshake.config in
      let state = load_from_file fresh w.file in
      extract (id_of new_id state)
        (send_loop z sha256 disk found duration_ms c (id_of new_id state) limit 0 [] state w)
        (send_loop-Returns (id_of new_id state) limit 0 [] state w (omega arith) pos refl
          (load_from_file-Resumable fresh w.file
            (new-Resumable fresh_id "" [] w.live.session.handshake.config) loads)
          loads pinned)
