-- ===== src/FolderSession/Sending/Resume.antt =====
-- transfer_folder.rs: the state that a run of `send` leaves, from which a later run resumes.
use p2pfile_transfer.Common.{ℕ, ◌≡◌, refl, true, List, [], ◌∷◌, Option, arith, length, subst}
use p2pfile_transfer.Common.Maps.{number_key, get}
use p2pfile_transfer.Errors.{Result, ok, err, panic}
use p2pfile_transfer.Effects.{M, and_then}
use p2pfile_transfer.Protocol.{Uuid, Digest, FileMetadata, ConfigMessage, Message}
use p2pfile_transfer.Folder.{FolderTransferState, new, get_completed_chunks, is_complete}
use p2pfile_transfer.Folder.Progress.{new-Valid, all_done, is_complete-transferred_bytes}
use p2pfile_transfer.FolderSession.Sending.{
  FolderSender, Found, on_conn, named_point, send_files, announce, send_all, send, begin, begin_at,
  files_of, receive_answer,
}
use p2pfile_transfer.Compression.{Zstd}
use p2pfile_transfer.Handshake.{Conn, send_message}
use p2pfile_transfer.FolderSession.{transfer_info_of, complete_message}
use p2pfile_transfer.FolderSession.Sending.Bookkeeping.{Resumable}
use Prim.Native.String.{String}
use p2pfile_transfer.FolderSession.Sending.Loop.{Goes, send_files-Goes}

pub new-Resumable :
    (transfer_id : Uuid) (name : String) (files : List FileMetadata) (config : ConfigMessage)
    → Resumable (new transfer_id name files config)
unfolding new get_completed_chunks get
new-Resumable transfer_id name files config = record {
  valid = new-Valid transfer_id name files config;
  once = λ i. tt;
  untouched = λ i l out n. refl;
}

module _ (transfer_id : Uuid) (config : ConfigMessage) (found : Found) where
  begun-Resumable :
      (r : Result (String × List FileMetadata)) (t : FolderTransferState)
      → ◌≡◌ {A = Result FolderTransferState}
          (elim r [
            | ok (name, files) ↦ ok (new transfer_id name files config)
            | err e ↦ err e
            | panic ↦ panic
          ])
          (ok t)
      → Resumable t
  begun-Resumable (ok (name, files)) t e =
      let same : new transfer_id name files config ≡ t = cc in
      subst Resumable same (new-Resumable transfer_id name files config)
  begun-Resumable (err x) t e = cc
  begun-Resumable panic t e = cc

  pub begin-Resumable :
      (files : List FileMetadata) (s t : FolderTransferState)
      → s.files ≡ files
      → Resumable s
      → begin transfer_id config found s ≡ ok t
      → Resumable t
  unfolding begin
  begin-Resumable [] s t e r b = begun-Resumable (files_of found) t (rw (e, begin) at b)
  begin-Resumable (file ∷ files) s t e r b =
      let same : s ≡ t = (let d = rw (e, begin) at b in cc) in subst Resumable same r

-- What holds of the state of any of these.
abbrev Leaves : {A : Type 0} → Result A × FolderSender → Type 0
Leaves r = Resumable r.1.state

bind-Leaves :
    {A B : Type 0} (r : Result A × FolderSender) (f : A → M FolderSender B)
    → Leaves r
    → ((a : A) (s : FolderSender) → Resumable s.state → Leaves (f a s))
    → Leaves (and_then r f)
bind-Leaves (ok a, s) f h k = k a s h
bind-Leaves (err e, s) f h k = h
bind-Leaves (panic, s) f h k = h

-- What `send` leaves.
abbrev pub SendOutcome : Result (Unit {0}) × FolderSender → Type 0
SendOutcome (ok _, s) =
    Resumable s.state
    × (is_complete s.state ≡ true)
    × (s.state.transferred_bytes ≡ s.state.total_bytes)
SendOutcome (err e, s) = Resumable s.state
SendOutcome (panic, s) = Resumable s.state

module _ (z : Zstd) (sha256 : List ℕ → Digest) (disk : Option String → Result (List ℕ))
    (config : ConfigMessage) (transfer_id : Uuid) (found : Found) (duration_ms : ℕ) where
  announce-Leaves :
      (s : FolderSender)
      → Resumable s.state
      → Leaves (announce z sha256 disk config transfer_id found s)
  unfolding announce begin_at receive_answer
  announce-Leaves s r = started (begin transfer_id config found s.state) refl
    where
      started :
          (b : Result FolderTransferState)
          → begin transfer_id config found s.state ≡ b
          → Leaves (announce z sha256 disk config transfer_id found s)
      started (ok t) e = rw e (
          bind-Leaves
            (on_conn
              (send_message (
                Message.transfer_info (
                  transfer_info_of transfer_id
                    (named_point z sha256 disk config transfer_id s.state) t)))
              (record s { state = t }))
            _ (begin-Resumable transfer_id config found s.state.files s.state t refl r e)
            (λ _ u h. h))
      started (err x) e = rw e r
      started panic e = rw e r

  closed :
      (r : Result (Unit {0})) (c : Conn) (s : FolderSender)
      → SendOutcome (ok tt, s)
      → SendOutcome (r, record s { conn = c })
  closed (ok _) c s h = h
  closed (err e) c s h = h.0
  closed panic c s h = h.0

  concluded :
      (n : ℕ) (r : Result (Unit {0}) × FolderSender)
      → Goes n n r
      → SendOutcome (
          and_then r (λ _ s.
            on_conn
              (send_message (complete_message transfer_id s.state.total_bytes duration_ms))
              s))
  concluded n (ok _, s) g =
      let complete =
        all_done s.state g.resumable.valid (λ j l. g.earlier j (omega (arith, g.size))) in
      let sent =
        send_message (complete_message transfer_id s.state.total_bytes duration_ms) s.conn in
      closed sent.0 sent.1 s
        (g.resumable, complete, is_complete-transferred_bytes s.state g.resumable.valid complete)
  concluded n (err e, s) g = g
  concluded n (panic, s) g = g

  announced :
      (a : Result (Unit {0}) × FolderSender)
      → Leaves a
      → SendOutcome (and_then a (λ _. send_all z sha256 disk config transfer_id duration_ms))
  unfolding send_all
  announced (ok _, t) h =
      let n = length t.state.files in
      concluded n (send_files z sha256 disk config transfer_id n 0 t) (
        send_files-Goes z sha256 disk config transfer_id n n 0 t (omega arith)
          (record { resumable = h; earlier = λ j l. absurd (omega arith); size = refl }))
  announced (err e, t) h = h
  announced (panic, t) h = h

  -- Whatever the link and the peer do, and however the run ends, `send` leaves a state from which the
  -- transfer can resume, if it was given one: the completed files are distinct and their sizes are
  -- counted, no chunk is marked twice, and of the other files only the next has chunks marked. A run
  -- that succeeds has completed every file, and its `transferred_bytes` are the `total_bytes`.
  pub send-SendOutcome :
      (s : FolderSender)
      → Resumable s.state
      → SendOutcome (send z sha256 disk config transfer_id found duration_ms s)
  unfolding send
  send-SendOutcome s r =
      announced (announce z sha256 disk config transfer_id found s) (announce-Leaves s r)
