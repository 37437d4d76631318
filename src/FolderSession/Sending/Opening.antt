-- ===== src/FolderSession/Sending/Opening.antt =====
-- transfer_folder.rs: the announcement of the sending end.
use Prim.Native.String.{String}
use p2pfile_transfer.Common.{ℕ, ◌≡◌, refl, sym, ap, List, [], ◌∷◌, Option, some, none, subst}
use p2pfile_transfer.Errors.{Result, ok, err, panic}
use p2pfile_transfer.Protocol.{Uuid, Digest, FileMetadata, ConfigMessage, Message}
use p2pfile_transfer.Compression.{Zstd}
use p2pfile_transfer.Handshake.Agreement.{
  Wire, Fits, talking, send_message-talking, recv_message-talking,
}
use p2pfile_transfer.Folder.{FolderTransferState, new, get_completed_chunks, next_file}
use p2pfile_transfer.Common.Maps.{get}
use p2pfile_transfer.FolderSession.{resume_at, point_at, resume_point, transfer_info_of}
use p2pfile_transfer.FolderSession.Sending.{
  Found, begin, begin_at, files_of, named_point, announce, receive_answer, await_ready,
}

-- A transfer that begins has no resume point.
resume_at-new :
    (transfer_id : Uuid) (name : String) (files : List FileMetadata) (config : ConfigMessage)
    (next : Option ℕ)
    → resume_at transfer_id (new transfer_id name files config) next ≡ none
unfolding resume_at point_at new get_completed_chunks get
resume_at-new transfer_id name files config none = refl
resume_at-new transfer_id name files config (some i) = refl

module _ (z : Zstd) (sha256 : List ℕ → Digest) (disk : Option String → Result (List ℕ))
    (config : ConfigMessage) (transfer_id : Uuid) (found : Found) where
  begun_point :
      (r : Result (String × List FileMetadata)) (s : FolderTransferState)
      → ◌≡◌ {A = Result FolderTransferState}
          (elim r [
            | ok (name, files) ↦ ok (new transfer_id name files config)
            | err e ↦ err e
            | panic ↦ panic
          ])
          (ok s)
      → resume_point transfer_id s ≡ none
  unfolding resume_point
  begun_point (ok (name, files)) s e =
      let same : new transfer_id name files config ≡ s = cc in
      subst (λ s. resume_at transfer_id s (next_file s) ≡ none) same
        (resume_at-new transfer_id name files config
          (next_file (new transfer_id name files config)))
  begun_point (err x) s e = cc
  begun_point panic s e = cc

  named_point-begin :
      (files : List FileMetadata) (e s : FolderTransferState)
      → e.files ≡ files
      → begin transfer_id config found e ≡ ok s
      → named_point z sha256 disk config transfer_id e ≡ resume_point transfer_id s
  unfolding begin named_point
  named_point-begin [] e s d b =
      rw (d, named_point) (sym (begun_point (files_of found) s (rw (d, begin) at b)))
  named_point-begin (file ∷ files) e s d b =
      let same : e ≡ s = (let c = rw (d, begin) at b in cc) in
      rw (d, named_point) (ap (resume_point transfer_id) same)

  pub announced :
      (e s : FolderTransferState) (coming : List Message) (wire : Wire)
      → begin transfer_id config found e ≡ ok s
      → Fits wire.to_vec
          (Message.transfer_info (transfer_info_of transfer_id (resume_point transfer_id s) s))
      → Fits wire.to_vec Message.ready
      → announce z sha256 disk config transfer_id found (record {
        conn = talking [] (Message.ready ∷ coming) wire;
        state = e;
        link = [];
        streams = [];
        saved = [];
      })
        ≡ (
          ok tt,
          record {
            conn =
                talking
                  (Message.transfer_info
                      (transfer_info_of transfer_id (resume_point transfer_id s) s)
                    ∷ [])
                  coming
                  wire;
            state = s;
            link = [];
            streams = [];
            saved = [];
          },
        )
  unfolding announce begin_at receive_answer await_ready
  announced e s coming wire b first_fits ready_fits =
      let m = Message.transfer_info (transfer_info_of transfer_id (resume_point transfer_id s) s) in
      rw
        (
          b,
          named_point-begin e.files e s refl b,
          send_message-talking m [] (Message.ready ∷ coming) wire first_fits,
          recv_message-talking Message.ready (m ∷ []) coming wire ready_fits,
        )
        refl
