-- ===== src/Session/Sending/Loads.antt =====
-- session.rs: what the state file loads to, after every change that `send_path` makes of it.
use p2pfile_transfer.Common.{List, [], ◌∷◌, Option, some, none}
use p2pfile_transfer.Errors.{Result, ok, err, panic}
use p2pfile_transfer.Folder.{FolderTransferState}
use p2pfile_transfer.FolderSession.Sending.Bookkeeping.{Resumable}
use p2pfile_transfer.Session.Sending.{
  StateFile, Change, made, refused, torn, changed_to, save_to_file, unremoved, remove_file,
  load_from_file,
}

-- If the state file loads, a transfer can resume from what it holds.
abbrev ContentLoads : Option (Result FolderTransferState) → Type 0
ContentLoads (some (ok state)) = Resumable state
ContentLoads (some (err e)) = Unit {0}
ContentLoads (some panic) = Unit {0}
ContentLoads none = Unit {0}

abbrev pub Loads : Option StateFile → Type 0
Loads none = Unit {0}
Loads (some f) = ContentLoads f.content

changed_to-Loads :
    (content : Option (Result FolderTransferState)) (l : List Change) (f : StateFile)
    → ContentLoads content
    → ContentLoads f.content
    → Loads (some (changed_to content l f))
unfolding changed_to
changed_to-Loads content [] f h old = h
changed_to-Loads content (made ∷ later) f h old = h
changed_to-Loads content (refused ∷ later) f h old = old
changed_to-Loads content (torn ∷ later) f h old = tt

pub save_to_file-Loads :
    (state : FolderTransferState) (f : Option StateFile)
    → Resumable state
    → Loads f
    → Loads (save_to_file state f)
unfolding save_to_file
save_to_file-Loads state none h old = tt
save_to_file-Loads state (some f) h old = changed_to-Loads (some (ok state)) f.changes f h old

unremoved-Loads :
    (content : Option (Result FolderTransferState)) (l : List Change) (f : StateFile)
    → ContentLoads f.content
    → Loads (some (unremoved content l f))
unfolding unremoved
unremoved-Loads none l f h = h
unremoved-Loads (some r) [] f h = tt
unremoved-Loads (some r) (made ∷ later) f h = tt
unremoved-Loads (some r) (refused ∷ later) f h = h
unremoved-Loads (some r) (torn ∷ later) f h = h

pub remove_file-Loads : (f : Option StateFile) → Loads f → Loads (remove_file f)
unfolding remove_file
remove_file-Loads none h = tt
remove_file-Loads (some f) h = unremoved-Loads f.content f.changes f h

pub load_from_file-Resumable :
    (fresh : FolderTransferState) (f : Option StateFile)
    → Resumable fresh
    → Loads f
    → Resumable (load_from_file fresh f)
unfolding load_from_file
load_from_file-Resumable fresh none h old = h
load_from_file-Resumable fresh (some f) h old = by_content f.content old
  where
    by_content :
        (o : Option (Result FolderTransferState))
        → ContentLoads o
        → Resumable (elim o [
          | none ↦ fresh
          | some r ↦ elim r [ ok loaded ↦ loaded | err e ↦ fresh | panic ↦ fresh ]
        ])
    by_content none k = h
    by_content (some (ok loaded)) k = k
    by_content (some (err e)) k = h
    by_content (some panic) k = h
