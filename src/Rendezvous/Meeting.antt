-- ===== src/Rendezvous/Meeting.antt =====
-- server.rs: the states that a server reaches, and whom it tells of whom.
use p2pfile_transfer.Common.{
  ℕ, zero, ◌≡◌, ◌≢◌, refl, sym, Bool, List, [], ◌∷◌, Option, some, none, All, subst,
}
use p2pfile_transfer.Common.Maps.{number_key, bytes_key, get}
use p2pfile_transfer.Rendezvous.{
  SocketAddr, RegisterRequest, Message, AttachedRelay, Server, reply, on_frame, stamp, on_register,
  resume,
}
use p2pfile_transfer.Rendezvous.Pairing.{
  From, History, Registered, MessageOk, Sound, Sound-later, Sound-reply,
}
use p2pfile_transfer.Rendezvous.Steps.{Sound-resume, Sound-on_register, Sound-on_frame}

abbrev pub started : ℕ → Option AttachedRelay → Server
started ttl relay = record {
  waiting = [];
  ttl = ttl;
  relay = relay;
  tasks = [];
  notified = [];
  sent = [];
}

-- The pieces of the tasks in any order. A connection has one first frame, so its task has not
-- registered before.
pub data Reaches : History → Server → Type 0 where
  start : (ttl : ℕ) (relay : Option AttachedRelay) → Reaches [] (started ttl relay)
  registered :
      {hist : History} {s : Server} (task : ℕ) (peer : SocketAddr) (raw : RegisterRequest)
      (token : List ℕ) (now : ℕ) (delivered : Bool)
      → ((r : RegisterRequest) → Registered hist task r → ⊥)
      → Reaches hist s
      → Reaches
          ((task, peer, raw) ∷ hist)
          (on_frame task peer (some (Message.register raw)) token now delivered s)
  unreadable :
      {hist : History} {s : Server} (task : ℕ) (peer : SocketAddr) (token : List ℕ) (now : ℕ)
      (delivered : Bool)
      → Reaches hist s
      → Reaches hist (on_frame task peer none token now delivered s)
  unexpected :
      {hist : History} {s : Server} (task : ℕ) (peer : SocketAddr) (frame : Message)
      (token : List ℕ) (now : ℕ) (delivered : Bool)
      → ((raw : RegisterRequest) → frame ≢ Message.register raw)
      → Reaches hist s
      → Reaches hist (on_frame task peer (some frame) token now delivered s)
  entered :
      {hist : History} {s : Server} (task now : ℕ)
      → Reaches hist s
      → Reaches hist (on_register task now s)
  resumed :
      {hist : History} {s : Server} (task now : ℕ) (delivered : Bool)
      → Reaches hist s
      → Reaches hist (resume task now delivered s)

started-Sound : (ttl : ℕ) (relay : Option AttachedRelay) → Sound [] (started ttl relay)
unfolding get
started-Sound ttl relay = record {
  waiters = λ code w g. absurd (let never : ⊥ = cc in never);
  phases = λ task p g. absurd (let never : ⊥ = cc in never);
  payloads = λ task p g. absurd (let never : ⊥ = cc in never);
  messages = tt;
}

turned_away :
    (task : ℕ) (peer : SocketAddr) (frame : Message) (token : List ℕ) (now : ℕ) (delivered : Bool)
    (s : Server)
    → ((raw : RegisterRequest) → frame ≢ Message.register raw)
    → on_frame task peer (some frame) token now delivered s ≡ reply task Message.rejected s
unfolding on_frame
turned_away task peer (Message.register raw) token now delivered s other = absurd (other raw refl)
turned_away task peer _ token now delivered s other = refl

stamp-From : (peer : SocketAddr) (raw : RegisterRequest) → From peer raw (stamp peer raw)
unfolding stamp
stamp-From peer raw = record {
  ip = refl;
  port = refl;
  code = refl;
  fingerprint = refl;
  device = refl;
}

Reaches-Sound : (hist : History) (s : Server) → Reaches hist s → Sound hist s
unfolding on_frame
Reaches-Sound _ _ (start ttl relay) = started-Sound ttl relay
Reaches-Sound _ _ (registered {hist} {s} task peer raw token now delivered fresh r) =
    let o = Reaches-Sound hist s r in
    Sound-on_frame ((task, peer, raw) ∷ hist) task peer raw token now delivered s
      (zero, peer, raw, refl, stamp-From peer raw)
      (λ code w g e.
        fresh w.first (subst (λ t. Registered hist t w.first) (sym e) (o.waiters code w g).0))
      (Sound-later hist (task, peer, raw) s o)
Reaches-Sound _ _ (unreadable {hist} {s} task peer token now delivered r) = Reaches-Sound hist s r
Reaches-Sound _ _ (unexpected {hist} {s} task peer frame token now delivered other r) =
    rw (turned_away task peer frame token now delivered s other)
      (Sound-reply hist task Message.rejected s tt (Reaches-Sound hist s r))
Reaches-Sound _ _ (entered {hist} {s} task now r) =
    Sound-on_register hist task now s (Reaches-Sound hist s r)
Reaches-Sound _ _ (resumed {hist} {s} task now delivered r) =
    Sound-resume hist task now delivered s (Reaches-Sound hist s r)

-- In any interleaving of the tasks, whatever the peers send: a peer that is told of another peer
-- has registered itself, and is told the fingerprint and the device id of a different connection
-- that registered under the same code; the address of a direct match is that connection's TCP
-- address with the port it registered.
pub sent-MessageOk :
    (hist : History) (s : Server) → Reaches hist s → All (λ m. MessageOk hist m.0 m.1) s.sent
sent-MessageOk hist s r = (Reaches-Sound hist s r).messages
