-- ===== src/FolderSession/Sending/Marks.antt =====
-- transfer_folder.rs: the chunks that one file's session marks, however it ends.
use p2pfile_transfer.Common.{ℕ, ◌≡◌, refl, ap, ◌∙◌, List}
use p2pfile_transfer.Errors.{Result, ok, err, panic}
use p2pfile_transfer.Effects.{M, and_then}
use p2pfile_transfer.Protocol.{Uuid, Digest}
use p2pfile_transfer.Compression.{Zstd}
use p2pfile_transfer.Handshake.{Conn, send_message, recv_message}
use p2pfile_transfer.Transfer.Sender.{Sender, send_file}
use p2pfile_transfer.FileExchange.{on_conn, checksum_message, expect_checksum, send_single_file}

module _ {A B : Type 0} {S : Type 0} where
  bind_keeps :
      (t : S) (r : Result A × (Conn × S)) (f : A → M (Conn × S) B)
      → r.1.1 ≡ t
      → ((a : A) (c : Conn) → (f a (c, t)).1.1 ≡ t)
      → (and_then r f).1.1 ≡ t
  bind_keeps t (ok a, (c, s)) f e h = ap (λ s. (f a (c, s)).1.1) e ∙ h a c
  bind_keeps t (err x, (c, s)) f e h = e
  bind_keeps t (panic, (c, s)) f e h = e

module _ (z : Zstd) (sha256 : List ℕ → Digest) (transfer_id : Uuid) (file_index : ℕ) where
  after_file :
      (p : Result Digest × Sender) (c : Conn) (f : Digest → M (Conn × Sender) (Unit {0}))
      → ((d : Digest) → (f d (c, p.1)).1.1 ≡ p.1)
      → (and_then (p.0, (c, p.1)) f).1.1 ≡ p.1
  after_file (ok d, s) c f h = h d
  after_file (err e, s) c f h = refl
  after_file (panic, s) c f h = refl

  -- The exchange of checksums leaves the file session alone.
  pub send_single_file-file :
      (completed : List ℕ) (c : Conn) (s : Sender)
      → (send_single_file z sha256 transfer_id file_index completed (c, s)).1.1
        ≡ (send_file z sha256 completed s).1
  unfolding send_single_file
  send_single_file-file completed c s =
      let t = (send_file z sha256 completed s).1 in
      after_file (send_file z sha256 completed s) c _ (λ d.
        bind_keeps t (on_conn (send_message (checksum_message transfer_id file_index d)) (c, t)) _
          refl
          (λ _ c2.
            bind_keeps t (on_conn recv_message (c2, t)) _ refl
              (λ m c3. bind_keeps t (expect_checksum m, (c3, t)) _ refl (λ theirs c4. refl))))
