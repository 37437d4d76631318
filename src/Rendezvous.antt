-- ===== src/Rendezvous.antt =====
-- p2p-rendezvous/src/server.rs, with the messages of p2p-rendezvous/src/protocol.rs: how two peers that
-- name the same code are told of each other. A connection's task runs in the pieces between which
-- other tasks can run: `on_frame`, `on_register` (the second lock of the table) and `resume`. The codes'
-- bytes, fingerprints and tokens are lists, device ids and points in time numbers. Framing, the limit
-- on connections and logging are left out.
pub mod Pairing
pub mod Steps
pub mod Meeting
pub mod Match
pub mod Runs
use p2pfile_transfer.Common.{
  ℕ, ◌+◌, ◌≡◌, Bool, true, false, List, [], ◌∷◌, ◌++◌, Option, none, some, ltb, leb, ◌==◌, ◌||◌,
  ◌&&◌, not, if◌then◌else◌, length,
}
use p2pfile_transfer.Common.Maps.{Key, number_key, bytes_key, get, insert, remove, retain}
use p2pfile_transfer.Relay.{RelayState, reserve}
pub use p2pfile_transfer.Stun.{SocketAddr}
pub use p2pfile_transfer.RendezvousProtocol.{RegisterRequest, Message, protocol_version}
unfoldable pub use p2pfile_transfer.RendezvousProtocol.{is_valid_code, stamp}

-- `task` holds the receiving end of `notify`.
pub record Waiter : Type 0 where
  pub first : RegisterRequest
  pub task : ℕ
  pub expires_at : ℕ

pub data NotifyPayload : Type 0 where
  direct : RegisterRequest → NotifyPayload
  relay : List ℕ → SocketAddr → List ℕ → ℕ → NotifyPayload

-- Where a task stands: before the second lock, or waiting with a deadline.
pub data Phase : Type 0 where
  registering : RegisterRequest → Phase
  waiting_for : RegisterRequest → ℕ → Phase

pub record AttachedRelay : Type 0 where
  pub state : RelayState
  pub public_addr : SocketAddr

-- `notified` has the payloads that were sent and not yet received, by the receiving task; `sent` the
-- messages that reached the peers, newest first.
pub record Server : Type 0 where
  pub waiting : List (List ℕ × Waiter)
  pub ttl : ℕ
  pub relay : Option AttachedRelay
  pub tasks : List (ℕ × Phase)
  pub notified : List (ℕ × NotifyPayload)
  pub sent : List (ℕ × Message)

unfoldable pub reply : ℕ → Message → Server → Server
reply task message s = record s { sent = (task, message) ∷ s.sent }

-- What the first peer is sent.
abbrev pub message_of : NotifyPayload → Message
message_of (NotifyPayload.direct second) =
    Message.matched second.public_endpoint second.cert_fingerprint second.device_id
message_of (NotifyPayload.relay token relay_endpoint fingerprint device_id) =
    Message.relay_match relay_endpoint token fingerprint device_id

module _ (task : ℕ) where
  -- The second peer, with its own message and the one for the first; a failed write ends the task
  -- before it notifies.
  tell : Message → Waiter → NotifyPayload → Bool → Server → Server
  tell message waiter payload delivered s =
      if delivered
      then record (reply task message s) { notified = insert s.notified waiter.task payload }
      else s

  pair_direct : RegisterRequest → Waiter → Bool → Server → Server
  unfolding tell
  pair_direct r waiter delivered s =
      let first = waiter.first in
      tell (Message.matched first.public_endpoint first.cert_fingerprint first.device_id) waiter
        (NotifyPayload.direct r) delivered s

  pair_relay : RegisterRequest → Waiter → AttachedRelay → List ℕ → ℕ → Bool → Server → Server
  unfolding tell
  pair_relay r waiter attached token now delivered s =
      let first = waiter.first in
      elim (reserve token first.cert_fingerprint r.cert_fingerprint now attached.state) [
        | none ↦ reply task Message.rejected s
        | some reserved ↦
            tell
              (Message.relay_match attached.public_addr token first.cert_fingerprint
                first.device_id)
              waiter (NotifyPayload.relay token attached.public_addr r.cert_fingerprint r.device_id)
              delivered (record s { relay = some (record attached { state = reserved }) })
      ]

  pair : RegisterRequest → Waiter → List ℕ → ℕ → Bool → Server → Server
  unfolding pair_direct pair_relay
  pair r waiter token now delivered s =
      if r.want_relay || waiter.first.want_relay
      then elim s.relay [
        | none ↦ pair_direct r waiter delivered s
        | some attached ↦ pair_relay r waiter attached token now delivered s
      ]
      else pair_direct r waiter delivered s

  -- The first lock: drop what has expired, and take a waiter of this code out.
  look_up : RegisterRequest → List ℕ → ℕ → Bool → Server → Server
  unfolding pair
  look_up r token now delivered s =
      let swept = retain (λ w. ltb now w.expires_at) s.waiting in
      let taken : Server = record s { waiting = remove swept r.code } in
      elim (get swept r.code) [
        | none ↦ record taken { tasks = insert s.tasks task (registering r) }
        | some waiter ↦ pair r waiter token now delivered taken
      ]

  -- `frame` is `none` if reading the first frame failed or timed out; `token` is drawn at random.
  unfoldable pub on_frame : SocketAddr → Option Message → List ℕ → ℕ → Bool → Server → Server
  unfolding look_up
  on_frame peer none token now delivered s = s
  on_frame peer (some (Message.register r)) token now delivered s =
      if not (r.protocol_version == protocol_version)
      then reply task Message.rejected s
      else if not (is_valid_code r.code)
      then reply task Message.rejected s
      else look_up (stamp peer r) token now delivered s
  on_frame peer (some _) token now delivered s = reply task Message.rejected s

  enter : RegisterRequest → ℕ → Server → Server
  enter r now s = elim (get s.waiting r.code) [
    | some other ↦ reply task Message.rejected (record s { tasks = remove s.tasks task })
    | none ↦ record s {
      waiting =
          insert s.waiting r.code (record { first = r; task = task; expires_at = now + s.ttl });
      tasks = insert s.tasks task (waiting_for r (now + s.ttl));
    }
  ]

  -- The second lock: wait under the code, unless another peer does by now.
  unfoldable pub on_register : ℕ → Server → Server
  unfolding enter
  on_register now s = elim (get s.tasks task) [
    | none ↦ s
    | some (registering r) ↦ enter r now s
    | some (waiting_for r deadline) ↦ s
  ]

  -- The entry of the code is removed if it has the same device id.
  clean_up : RegisterRequest → Server → Server
  clean_up r s = elim (get s.waiting r.code) [
    | none ↦ s
    | some w ↦
        if w.first.device_id == r.device_id
        then record s { waiting = remove s.waiting r.code }
        else s
  ]

  finish : Message → Bool → Server → Server
  finish message delivered s =
      let over : Server = record s {
        tasks = remove s.tasks task;
        notified = remove s.notified task;
      } in
      if delivered then reply task message over else over

  -- Whether the sender of this task's channel is gone.
  dropped : RegisterRequest → Server → Bool
  dropped r s = elim (get s.waiting r.code) [ none ↦ true | some w ↦ not (w.task == task) ]

  wake : RegisterRequest → ℕ → ℕ → Bool → Server → Server
  unfolding clean_up finish dropped
  wake r deadline now delivered s = elim (get s.notified task) [
    | some payload ↦ finish (message_of payload) delivered (clean_up r s)
    | none ↦
        if leb deadline now || dropped r s
        then finish Message.expired delivered (clean_up r s)
        else s
  ]

  -- A waiting task goes on when it is notified, when its channel is dropped, or at its deadline.
  unfoldable pub resume : ℕ → Bool → Server → Server
  unfolding wake
  resume now delivered s = elim (get s.tasks task) [
    | none ↦ s
    | some (registering r) ↦ s
    | some (waiting_for r deadline) ↦ wake r deadline now delivered s
  ]
