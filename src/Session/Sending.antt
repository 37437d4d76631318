-- ===== src/Session/Sending.antt =====
-- session.rs: `P2PSession::send_path`, a send that reconnects and resumes. What stands at the path and
-- what its files hold may differ from run to run, so they depend on the number of the attempt; so
-- does the clock.
pub mod Loads
pub mod Ending
pub mod Outcome
pub mod Kept
use p2pfile_transfer.Common.{
  ℕ, zero, suc, ◌+◌, ◌%◌, ◌^◌, Bool, true, false, List, [], ◌∷◌, ◌++◌, Option, none, some, map,
  if◌then◌else◌, not,
}
use Prim.Native.String.{String}
use p2pfile_transfer.Errors.{Error, Result, ok, err, panic, protocol, is_recoverable}
use p2pfile_transfer.Protocol.{Uuid, Digest, ConfigMessage}
use p2pfile_transfer.Compression.{Zstd}
use p2pfile_transfer.Folder.{FolderTransferState, new}
use p2pfile_transfer.FolderSession.Sending.{FolderSender, Found, send}
use p2pfile_transfer.FolderSession.Receiving.{TransferSummary}
use p2pfile_transfer.Reconnect.{ReconnectConfig, should_retry, backoff_delay}
use p2pfile_transfer.Session.{Connection, P2PSession, Live, reconnect}

-- How a change of the state file goes: it is made, or not, or the file is left unreadable.
pub data Change : Type 0 where
  made refused torn : Change

-- What loading the state file gives, if there is one, and how the changes of it to come go; behind
-- the end of the list all are made.
pub record StateFile : Type 0 where
  pub content : Option (Result FolderTransferState)
  pub changes : List Change

-- The session's own state and the state file, if there is a path for one.
pub record World : Type 0 where
  pub live : Live
  pub file : Option StateFile

changed_to : Option (Result FolderTransferState) → List Change → StateFile → StateFile
changed_to content [] f = record f { content = content }
changed_to content (made ∷ later) f = record f { content = content; changes = later }
changed_to content (refused ∷ later) f = record f { changes = later }
changed_to content (torn ∷ later) f = record f { content = some (err protocol); changes = later }

-- `save_to_file`, whose failure is only logged.
unfoldable pub save_to_file : FolderTransferState → Option StateFile → Option StateFile
unfolding changed_to
save_to_file state none = none
save_to_file state (some f) = some (changed_to (some (ok state)) f.changes f)

-- A failure to remove the file changes nothing.
unremoved : Option (Result FolderTransferState) → List Change → StateFile → StateFile
unremoved none changes f = f
unremoved (some r) [] f = record f { content = none }
unremoved (some r) (made ∷ later) f = record f { content = none; changes = later }
unremoved (some r) (_ ∷ later) f = record f { changes = later }

unfoldable pub remove_file : Option StateFile → Option StateFile
unfolding unremoved
remove_file none = none
remove_file (some f) = some (unremoved f.content f.changes f)

unfoldable pub load_from_file : FolderTransferState → Option StateFile → FolderTransferState
load_from_file fresh none = fresh
load_from_file fresh (some f) = elim (f.content) [
  | none ↦ fresh
  | some r ↦ elim r [ ok loaded ↦ loaded | err e ↦ fresh | panic ↦ fresh ]
]

unfoldable pub id_of : Uuid → FolderTransferState → Uuid
id_of new_id state = elim (state.files) [ [] ↦ new_id | file ∷ files ↦ state.transfer_id ]

unfoldable pub summary_of : FolderTransferState → TransferSummary
summary_of state = record {
  root_name = some state.folder_name;
  files = map (λ f. f.path) state.files;
  bytes = state.total_bytes;
}

-- How `send_path` ended: `sends` counts the calls of `send`, `slept` the waits between them.
pub record Ended : Type 0 where
  pub result : Result TransferSummary
  pub state : FolderTransferState
  pub world : World
  pub sends : ℕ
  pub slept : List ℕ

-- A new `FolderTransferSession` over the session's connection.
unfoldable pub sender_of : FolderTransferState → Live → FolderSender
sender_of state l = record {
  conn = l.session.connection.conn;
  state = state;
  link = l.session.connection.link;
  streams = [];
  saved = [];
}

unfoldable pub after_send : FolderSender → Live → Live
after_send t l = record l {
  session = record l.session { connection = record { conn = t.conn; link = t.link } };
}

-- The wait is over: the outcome of the reconnection is only logged.
unfoldable pub resume_live : FolderTransferState → World → World
resume_live state w = record { live = (reconnect w.live).1; file = save_to_file state w.file }

module _ (z : Zstd) (sha256 : List ℕ → Digest) (disk : ℕ → Option String → Result (List ℕ))
    (found : ℕ → Found) (duration_ms : ℕ → ℕ) (c : ReconnectConfig) (transfer_id : Uuid) where
  -- One call of `send`.
  unfoldable pub run : ℕ → FolderTransferState → Live → Result (Unit {0}) × FolderSender
  run attempt state l =
      send z sha256 (disk attempt) l.session.handshake.config transfer_id (found attempt)
        (duration_ms attempt) (sender_of state l)

  -- A bounded run of the loop. `none`: the fuel ran out.
  unfoldable pub send_loop : ℕ → ℕ → List ℕ → FolderTransferState → World → Option Ended
  send_loop zero attempt slept state w = none
  send_loop (suc fuel) attempt slept state w =
      let t = (run attempt state w.live).1 in
      let l = after_send t w.live in
      elim ((run attempt state w.live).0) [
        | ok _ ↦ some (record {
          result = ok (summary_of t.state);
          state = t.state;
          world = record { live = l; file = remove_file w.file };
          sends = attempt + 1;
          slept = slept;
        })
        | panic ↦ some (record {
          result = panic;
          state = t.state;
          world = record w { live = l };
          sends = attempt + 1;
          slept = slept;
        })
        | err e ↦
            let again =
              send_loop fuel ((attempt + 1) % 2 ^ 32) (slept ++ (backoff_delay c attempt ∷ []))
                t.state (resume_live t.state (record w { live = l })) in
            if not (is_recoverable e)
            then some (record {
              result = err e;
              state = t.state;
              world = record { live = l; file = save_to_file t.state w.file };
              sends = attempt + 1;
              slept = slept;
            })
            else if should_retry c attempt
            then again
            else some (record {
              result = err protocol;
              state = t.state;
              world = record { live = l; file = save_to_file t.state w.file };
              sends = attempt + 1;
              slept = slept;
            })
      ]

-- `exists` tells whether there is something at the path, `fresh_id` and `new_id` are new ids.
unfoldable pub send_path :
    Zstd
    → (List ℕ → Digest)
    → (ℕ → Option String → Result (List ℕ))
    → (ℕ → Found)
    → (ℕ → ℕ)
    → ReconnectConfig
    → Bool
    → Uuid
    → Uuid
    → ℕ
    → World
    → Option Ended
send_path z sha256 disk found duration_ms c exists fresh_id new_id fuel w =
    let fresh = new fresh_id "" [] w.live.session.handshake.config in
    let state = load_from_file fresh w.file in
    let sent = send_loop z sha256 disk found duration_ms c (id_of new_id state) fuel 0 [] state w in
    if exists
    then sent
    else some (record { result = err protocol; state = fresh; world = w; sends = 0; slept = [] })
