-- ===== src/FolderSession/Sending/Loop.antt =====
-- transfer_folder.rs: the state while the loop of `send` runs over the files.
use p2pfile_transfer.Common.{
  ℕ, zero, suc, ◌+◌, ◌<◌, ◌≡◌, refl, ◌∙◌, inl, inr, true, List, Option, some, arith, length,
  Bool-cases, ◌==◌, subst,
}
use p2pfile_transfer.Common.Counting.{contains, contains-append}
use p2pfile_transfer.Common.Maps.{number_key}
use p2pfile_transfer.Errors.{Result, ok, err, panic}
use p2pfile_transfer.Effects.{and_then}
use p2pfile_transfer.Protocol.{Uuid, Digest, ConfigMessage}
use p2pfile_transfer.Folder.{FolderTransferState, new, get_completed_chunks, next_file}
use p2pfile_transfer.Folder.Progress.{next_file_first, next_file-eq-some}
use p2pfile_transfer.FolderSession.Sending.{
  FolderSender, mark_all, finish_file, take_over, record_done, send_opened, send_next, send_files,
}
use p2pfile_transfer.Transfer.Sender.{ChunkReader, Sender, new_sender}
use p2pfile_transfer.Transfer.Sender.Marks.{MarkedBelow, send_file-MarkedBelow}
use p2pfile_transfer.Compression.{Zstd}
use p2pfile_transfer.Handshake.{Conn}
use p2pfile_transfer.FileExchange.{send_single_file}
use p2pfile_transfer.FolderSession.{as_u32}
use p2pfile_transfer.FolderSession.Sending.Marks.{send_single_file-file}
use p2pfile_transfer.FolderSession.Sending.Bookkeeping.{
  Resumable, mark_all-SameFiles, next_file-SameFiles, mark_all-Resumable, finish_file-Resumable,
  mark_file_complete-first,
}
use Prim.Native.String.{String}

-- The state in the loop, when the files below `i` are dealt with.
pub record Running (n i : ℕ) (s : FolderTransferState) : Type 0 where
  pub resumable : Resumable s
  pub earlier : (j : ℕ) → j < i → contains s.completed_files j ≡ true
  pub size : length s.files ≡ n

abbrev pub Goes : ℕ → ℕ → Result (Unit {0}) × FolderSender → Type 0
Goes n i (ok _, s) = Running n i s.state
Goes n i (err _, s) = Resumable s.state
Goes n i (panic, s) = Resumable s.state

module _ (n i : ℕ) where
  finish_file-Running :
      (s : FolderTransferState)
      → Running n i s
      → next_file s ≡ some i
      → Running n (i + 1) (finish_file i s)
  unfolding finish_file
  finish_file-Running s g is_next =
      let (l, new, earlier) = next_file_first s i is_next in
      record {
        resumable = finish_file-Resumable i s g.resumable is_next;
        earlier = rw (mark_file_complete-first i s new) (λ j k. elim (Bool-cases (i == j)) [
          | inl same ↦ ground (arith, same, contains-append s.completed_files i j)
          | inr other ↦ ground (
            arith,
            other,
            contains-append s.completed_files i j,
            g.earlier j (ground (arith, other, k)),
          )
        ]);
        size = rw (mark_file_complete-first i s new) g.size;
      }

  mark_all-Running :
      (chunks : List ℕ) (s : FolderTransferState)
      → Running n i s
      → Resumable (mark_all i chunks s)
      → Running n i (mark_all i chunks s)
  mark_all-Running chunks s g r =
      let same = mark_all-SameFiles i chunks s in
      record {
        resumable = r;
        earlier = rw same.completed_files g.earlier;
        size = rw same.files g.size;
      }

  taken-Goes :
      (p : Result (Unit {0}) × (Conn × Sender)) (s : FolderSender) (j : ℕ)
      → Running n i s.state
      → next_file s.state ≡ some i
      → MarkedBelow (get_completed_chunks s.state i) j p.1.1.marked
      → Goes n (i + 1) (and_then (take_over i p s) (λ _ t. (ok tt, record_done i t)))
  unfolding take_over record_done
  taken-Goes (ok _, (c, t)) s j g is_next m =
      let kept = mark_all-Resumable i t.marked s.state g.resumable is_next m.distinct m.missing in
      finish_file-Running (mark_all i t.marked s.state) (mark_all-Running t.marked s.state g kept) (
        next_file-SameFiles s.state (mark_all i t.marked s.state)
          (mark_all-SameFiles i t.marked s.state)
        ∙ is_next)
  taken-Goes (err e, (c, t)) s j g is_next m =
      mark_all-Resumable i t.marked s.state g.resumable is_next m.distinct m.missing
  taken-Goes (panic, (c, t)) s j g is_next m =
      mark_all-Resumable i t.marked s.state g.resumable is_next m.distinct m.missing

module _ (z : Zstd) (sha256 : List ℕ → Digest) (disk : Option String → Result (List ℕ))
    (config : ConfigMessage) (transfer_id : Uuid) where
  opened-Goes :
      (n i : ℕ) (o : Result ChunkReader) (s : FolderSender)
      → Running n i s.state
      → next_file s.state ≡ some i
      → Goes n (i + 1) (
          and_then
            (send_opened z sha256 disk config transfer_id i o s)
            (λ _ t. (ok tt, record_done i t)))
  unfolding send_opened new_sender
  opened-Goes n i (ok reader) s g is_next =
      let completed = get_completed_chunks s.state i in
      let (j, m) =
        send_file-MarkedBelow z completed sha256 (new_sender reader config s.link) refl in
      taken-Goes n i
        (send_single_file z sha256 transfer_id (as_u32 i) completed
          (s.conn, new_sender reader config s.link))
        s j g is_next
        (rw
          (send_single_file-file z sha256 transfer_id (as_u32 i) completed s.conn
            (new_sender reader config s.link))
          m)
  opened-Goes n i (err e) s g is_next = g.resumable
  opened-Goes n i panic s g is_next = g.resumable

  send_next-Goes :
      (n i : ℕ) (s : FolderSender)
      → i < n
      → Running n i s.state
      → Goes n (i + 1) (send_next z sha256 disk config transfer_id i s)
  unfolding send_next
  send_next-Goes n i s l g = elim (Bool-cases (contains s.state.completed_files i)) [
    | inl there ↦ rw there (record {
      resumable = g.resumable;
      earlier = λ j k. elim (Bool-cases (i == j)) [
        | inl same ↦ ground (arith, same, there)
        | inr other ↦ g.earlier j (ground (arith, other, k))
      ];
      size = g.size;
    })
    | inr missing ↦ rw missing (
        opened-Goes n i _ s g
          (next_file-eq-some s.state i (omega (arith, g.size)) missing g.earlier))
  ]

  pub send_files-Goes :
      (n rounds i : ℕ) (s : FolderSender)
      → i + rounds ≡ n
      → Running n i s.state
      → Goes n n (send_files z sha256 disk config transfer_id rounds i s)
  unfolding send_files
  send_files-Goes n zero i s e g = subst (λ k. Running n k s.state) (omega arith) g
  send_files-Goes n (suc rounds) i s e g =
      further (send_next z sha256 disk config transfer_id i s)
        (send_next-Goes n i s (omega arith) g)
        (λ t h. send_files-Goes n rounds (i + 1) t (omega arith) h)
    where
      further :
          (r : Result (Unit {0}) × FolderSender)
          → Goes n (i + 1) r
          → ((t : FolderSender)
              → Running n (i + 1) t.state
              → Goes n n (send_files z sha256 disk config transfer_id rounds (i + 1) t))
          → Goes n n (and_then r (λ _. send_files z sha256 disk config transfer_id rounds (i + 1)))
      further (ok a, t) h again = again t h
      further (err e, t) h again = h
      further (panic, t) h again = h
