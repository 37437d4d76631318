-- ===== src/FolderSession/Receiving/Safety.antt =====
-- transfer_folder.rs: where `receive_folder` writes, whatever the peer announces and sends.
use p2pfile_transfer.Common.{
  ℕ, ◌+◌, ◌-◌, ◌≡◌, ◌≢◌, ◌⊎◌, refl, ◌∙◌, inl, inr, false, List, [], ◌∷◌, ◌++◌, Option, none, some,
  All, All-append, Bool-cases, ◌==◌, subst,
}
use p2pfile_transfer.Common.Maps.{
  get, insert, remove, get-insert_other, get-remove_other, key_decides,
}
use p2pfile_transfer.Common.Text.{utf8}
use p2pfile_transfer.Errors.{Result, ok, err, panic}
use p2pfile_transfer.Effects.{M, and_then, lift}
use p2pfile_transfer.Protocol.{Digest, FileMetadata, ConfigMessage, TransferInfo, Uuid, Message}
use p2pfile_transfer.Compression.{Zstd}
use p2pfile_transfer.Handshake.{send_message, recv_message, expect_transfer_info}
use p2pfile_transfer.Transfer.{chunk_count}
use p2pfile_transfer.Transfer.Receiver.{Receiver, new_receiver}
use p2pfile_transfer.FileExchange.{receive_single_file}
use p2pfile_transfer.FolderSession.{as_u32}
use p2pfile_transfer.Folder.{sanitize_relative_path}
use p2pfile_transfer.Folder.Paths.{IsName, sanitize_relative_path-IsName}
use p2pfile_transfer.FolderSession.Receiving.{
  RelativePath, path_key, FolderReceiver, AcceptDecision, accept, reject, partial_path, suffix,
  settle, skips, already_sent, receive_at, receive_next, receive_files, receive_accepted,
  receive_folder, decide, rejected, some_items, on_conn, or_empty, validate_files,
  already_transferred,
}

-- A path that stays below the output directory.
pub record Inside (path : RelativePath) : Type 0 where
  pub names : All IsName path
  pub somewhere : path ≢ []

suffix-not-empty : (name : List ℕ) → name ++ suffix ≢ []
suffix-not-empty [] e = cc
suffix-not-empty (b ∷ name) e = cc

suffixed-not-here : (name : List ℕ) → name ≢ [] → name ++ suffix ≢ 46 ∷ []
suffixed-not-here [] h e = h refl
suffixed-not-here (b ∷ []) h e = cc
suffixed-not-here (b ∷ c ∷ name) h e = cc

suffixed-not-up : (name : List ℕ) → name ≢ [] → name ++ suffix ≢ 46 ∷ 46 ∷ []
suffixed-not-up [] h e = h refl
suffixed-not-up (b ∷ []) h e = cc
suffixed-not-up (b ∷ c ∷ []) h e = cc
suffixed-not-up (b ∷ c ∷ d ∷ name) h e = cc

suffixed-IsName : (name : List ℕ) → IsName name → IsName (name ++ suffix)
suffixed-IsName name h = record {
  some_byte = suffix-not-empty name;
  slashless =
      All-append (λ b. (b == 47) ≡ false) name suffix h.slashless
        (refl, (refl, (refl, (refl, (refl, (refl, (refl, (refl, tt))))))));
  not_here = suffixed-not-here name h.some_byte;
  not_up = suffixed-not-up name h.some_byte;
}

partial_path-IsName : (path : RelativePath) → All IsName path → All IsName (partial_path path)
unfolding partial_path
partial_path-IsName [] h = tt
partial_path-IsName (name ∷ []) h = (suffixed-IsName name h.0, tt)
partial_path-IsName (name ∷ next ∷ path) h = (h.0, partial_path-IsName (next ∷ path) h.1)

partial_path-not-empty : (path : RelativePath) → path ≢ [] → partial_path path ≢ []
unfolding partial_path
partial_path-not-empty [] h e = h refl
partial_path-not-empty (name ∷ []) h e = cc
partial_path-not-empty (name ∷ next ∷ path) h e = cc

-- A file that is not as it was lies below the output directory.
abbrev pub Confined : List (RelativePath × List ℕ) → List (RelativePath × List ℕ) → Type 0
Confined before after = (path : RelativePath) → (get after path ≡ get before path) ⊎ Inside path

Confined-trans : (a b c : List (RelativePath × List ℕ)) → Confined a b → Confined b c → Confined a c
Confined-trans a b c h k path = elim (h path) [
  | inr inside ↦ inr inside
  | inl same ↦ elim (k path) [ inr inside ↦ inr inside | inl later ↦ inl (later ∙ same) ]
]

insert-Confined :
    (disk : List (RelativePath × List ℕ)) (path : RelativePath) (content : List ℕ)
    → Inside path
    → Confined disk (insert disk path content)
insert-Confined disk path content h other = elim (key_decides path other) [
  | inl same ↦ inr (subst Inside same h)
  | inr apart ↦ inl (get-insert_other disk path other content apart)
]

remove-Confined :
    (disk : List (RelativePath × List ℕ)) (path : RelativePath)
    → Inside path
    → Confined disk (remove disk path)
remove-Confined disk path h other = elim (key_decides path other) [
  | inl same ↦ inr (subst Inside same h)
  | inr apart ↦ inl (get-remove_other disk path other apart)
]

partial_path-Inside : (path : RelativePath) → Inside path → Inside (partial_path path)
partial_path-Inside path h = record {
  names = partial_path-IsName path h.names;
  somewhere = partial_path-not-empty path h.somewhere;
}

settle-Confined :
    (path : RelativePath) (r : Receiver) (disk : List (RelativePath × List ℕ))
    → Inside path
    → Confined disk (settle path r disk)
unfolding settle
settle-Confined path r disk h = settled (r.finished)
  where
    settled :
        (o : Option (List ℕ))
        → Confined disk (elim o [
          | none ↦ insert disk (partial_path path) r.writer.content
          | some content ↦ insert (remove disk (partial_path path)) path content
        ])
    settled none =
        insert-Confined disk (partial_path path) r.writer.content (partial_path-Inside path h)
    settled (some content) =
        Confined-trans disk (remove disk (partial_path path)) _
          (remove-Confined disk (partial_path path) (partial_path-Inside path h))
          (insert-Confined (remove disk (partial_path path)) path content h)

Confined-refl : (disk : List (RelativePath × List ℕ)) → Confined disk disk
Confined-refl disk path = inl refl

-- What a call has done to the files since they were `before`.
abbrev Within : {A : Type 0} → List (RelativePath × List ℕ) → Result A × FolderReceiver → Type 0
Within before r = Confined before r.1.disk

bind-Within :
    {A B : Type 0} (before : List (RelativePath × List ℕ)) (r : Result A × FolderReceiver)
    (f : A → M FolderReceiver B)
    → Within before r
    → ((a : A) (s : FolderReceiver) → r.0 ≡ ok a → Confined before s.disk → Within before (f a s))
    → Within before (and_then r f)
bind-Within before (ok a, s) f h k = k a s refl h
bind-Within before (err e, s) f h k = h
bind-Within before (panic, s) f h k = h

module _ (z : Zstd) (sha256 : List ℕ → Digest) (config : ConfigMessage)
    (before : List (RelativePath × List ℕ)) where
  module _ (transfer_id : Uuid) where
    receive_at-Within :
        (file_index n wanted : ℕ) (path : RelativePath) (s : FolderReceiver)
        → Inside path
        → Confined before s.disk
        → Within before (receive_at z sha256 config transfer_id file_index n wanted path s)
    unfolding receive_at
    receive_at-Within file_index n wanted path s inside h =
        let r =
          (receive_single_file z sha256 transfer_id (as_u32 file_index) config n wanted s.arrivals (
            s.conn,
            new_receiver (s.closing file_index) config (or_empty (get s.disk (partial_path path))),
          )).1.1 in
        Confined-trans before s.disk (settle path r s.disk) h (settle-Confined path r s.disk inside)

    receive_next-Within :
        (info : TransferInfo) (file_index : ℕ) (file : FileMetadata) (s : FolderReceiver)
        → Confined before s.disk
        → Within before (receive_next z sha256 config transfer_id info file_index file s)
    unfolding receive_next
    receive_next-Within info file_index file s h = elim (Bool-cases (skips info file_index)) [
      | inl skipped ↦ rw skipped h
      | inr due ↦ rw due (
          bind-Within before (lift (sanitize_relative_path (utf8 file.path)) s) _ h (λ path t e k.
            bind-Within before (lift (chunk_count file.size config.chunk_size) t) _ k (λ n u d l.
              receive_at-Within file_index n (n - already_sent file_index info.resume_from) path u
                (let (names, somewhere) = sanitize_relative_path-IsName (utf8 file.path) path e in
                  record { names = names; somewhere = somewhere })
                l)))
    ]

    receive_files-Within :
        (info : TransferInfo) (file_index : ℕ) (files : List FileMetadata) (s : FolderReceiver)
        → Confined before s.disk
        → Within before (receive_files z sha256 config transfer_id info file_index files s)
    unfolding receive_files
    receive_files-Within info file_index [] s h = h
    receive_files-Within info file_index (file ∷ files) s h =
        bind-Within before (receive_next z sha256 config transfer_id info file_index file s) _
          (receive_next-Within info file_index file s h)
          (λ _ t e k. receive_files-Within info (file_index + 1) files t k)

  receive_accepted-Within :
      (info : TransferInfo) (s : FolderReceiver)
      → Confined before s.disk
      → Within before (receive_accepted z sha256 config info s)
  unfolding receive_accepted
  receive_accepted-Within info s h =
      bind-Within before (lift (already_transferred config info.items info.resume_from) s) _ h
        (λ n t _ h. bind-Within before (on_conn (send_message Message.ready) t) _ h (λ _ u _ h.
          bind-Within before (receive_files z sha256 config info.transfer_id info 0 info.items u) _
            (receive_files-Within info.transfer_id info 0 info.items u h)
            (λ _ v _ h. bind-Within before (on_conn recv_message v) _ h (λ _ w _ h. h))))

  decide-Within :
      (d : AcceptDecision) (info : TransferInfo) (s : FolderReceiver)
      → Confined before s.disk
      → Within before (decide z sha256 config d info s)
  unfolding decide rejected
  decide-Within accept info s h = receive_accepted-Within info s h
  decide-Within reject info s h =
      bind-Within before (on_conn (send_message Message.cancel) s) _ h (λ _ t _ h. h)

-- Whatever the peer announces and sends, and however the call ends: each regular file that
-- `receive_folder` creates, changes, renames or removes lies below the output directory, at a path all
-- of whose parts are names (not empty, without a slash, neither `.` nor `..`).
pub receive_folder-Confined :
    (z : Zstd) (sha256 : List ℕ → Digest) (config : ConfigMessage)
    (accept_decision : TransferInfo → AcceptDecision) (s : FolderReceiver)
    → Confined s.disk (receive_folder z sha256 config accept_decision s).1.disk
unfolding receive_folder
receive_folder-Confined z sha256 config accept_decision s =
    bind-Within s.disk (on_conn recv_message s) _ (Confined-refl s.disk) (λ m t _ h.
      bind-Within s.disk (lift (expect_transfer_info m) t) _ h (λ info u _ h.
        bind-Within s.disk (lift (some_items info) u) _ h (λ _ v _ h.
          bind-Within s.disk (lift (validate_files info.items) v) _ h
            (λ _ w _ h. decide-Within z sha256 config s.disk (accept_decision info) info w h))))
