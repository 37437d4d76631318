-- ===== src/Rendezvous/Pairing.antt =====
-- server.rs: whom a peer is told of, in any interleaving of the connections' tasks.
use p2pfile_transfer.Common.{
  ℕ, suc, ◌≡◌, ◌≢◌, inl, inr, List, [], ◌∷◌, Option, some, All, get_elem?, subst,
}
use p2pfile_transfer.Common.Maps.{number_key, bytes_key, get, insert, get-insert-some}
use p2pfile_transfer.Rendezvous.{
  SocketAddr, RegisterRequest, Message, Waiter, NotifyPayload, Phase, registering, waiting_for,
  AttachedRelay, Server, reply, message_of,
}

-- The registrations that came in so far, newest first: the task, the address of its TCP connection,
-- and what the peer sent.
abbrev pub History : Type 0
History = List (ℕ × SocketAddr × RegisterRequest)

-- The server's view of a registration: as the peer sent it, but for the address, which is that of the
-- peer's connection.
pub record From (peer : SocketAddr) (raw r : RegisterRequest) : Type 0 where
  pub ip : r.public_endpoint.ip ≡ peer.ip
  pub port : r.public_endpoint.port ≡ raw.public_endpoint.port
  pub code : r.code ≡ raw.code
  pub fingerprint : r.cert_fingerprint ≡ raw.cert_fingerprint
  pub device : r.device_id ≡ raw.device_id

abbrev pub Registered : History → ℕ → RegisterRequest → Type 0
Registered hist task r =
    (i : ℕ) × (peer : SocketAddr) × (raw : RegisterRequest) × (get_elem? hist i
      ≡ some (task, peer, raw))
    × From peer raw r

-- Another task's registration, under the same code.
pub record Meets (hist : History) (task : ℕ) (r : RegisterRequest) : Type 0 where
  pub own : RegisterRequest
  pub other : ℕ
  pub own_in : Registered hist task own
  pub other_in : Registered hist other r
  pub apart : task ≢ other
  pub same_code : own.code ≡ r.code

abbrev pub MessageOk : History → ℕ → Message → Type 0
MessageOk hist task (Message.register r) = ⊥
MessageOk hist task (Message.matched endpoint fingerprint device_id) =
    (r : RegisterRequest) × Meets hist task r
    × (endpoint ≡ r.public_endpoint)
    × (fingerprint ≡ r.cert_fingerprint)
    × (device_id ≡ r.device_id)
MessageOk hist task (Message.relay_match endpoint token fingerprint device_id) =
    (r : RegisterRequest) × Meets hist task r
    × (fingerprint ≡ r.cert_fingerprint)
    × (device_id ≡ r.device_id)
MessageOk hist task Message.expired = Unit {0}
MessageOk hist task Message.rejected = Unit {0}

abbrev pub PhaseOk : History → ℕ → Phase → Type 0
PhaseOk hist task (registering r) = Registered hist task r
PhaseOk hist task (waiting_for r deadline) = Registered hist task r

pub record Sound (hist : History) (s : Server) : Type 0 where
  pub waiters :
      (code : List ℕ) (w : Waiter)
      → get s.waiting code ≡ some w
      → Registered hist w.task w.first × (w.first.code ≡ code)
  pub phases : (task : ℕ) (p : Phase) → get s.tasks task ≡ some p → PhaseOk hist task p
  pub payloads :
      (task : ℕ) (p : NotifyPayload)
      → get s.notified task ≡ some p
      → MessageOk hist task (message_of p)
  pub messages : All (λ m. MessageOk hist m.0 m.1) s.sent

module _ (hist : History) where
  module _ (e : ℕ × SocketAddr × RegisterRequest) where
    pub later :
        {task : ℕ} {r : RegisterRequest} → Registered hist task r → Registered (e ∷ hist) task r
    later (i, peer, raw, at, same) = (suc i, peer, raw, at, same)

    Meets-later : {task : ℕ} {r : RegisterRequest} → Meets hist task r → Meets (e ∷ hist) task r
    Meets-later m = record {
      own = m.own;
      other = m.other;
      own_in = later m.own_in;
      other_in = later m.other_in;
      apart = m.apart;
      same_code = m.same_code;
    }

    MessageOk-later : (task : ℕ) (m : Message) → MessageOk hist task m → MessageOk (e ∷ hist) task m
    MessageOk-later task (Message.register r) h = h
    MessageOk-later task (Message.matched a b c) (r, m, x, y, z) = (r, Meets-later m, x, y, z)
    MessageOk-later task (Message.relay_match a b c d) (r, m, x, y) = (r, Meets-later m, x, y)
    MessageOk-later task Message.expired h = tt
    MessageOk-later task Message.rejected h = tt

    PhaseOk-later : (task : ℕ) (p : Phase) → PhaseOk hist task p → PhaseOk (e ∷ hist) task p
    PhaseOk-later task (registering r) h = later h
    PhaseOk-later task (waiting_for r deadline) h = later h

    All-later :
        (l : List (ℕ × Message))
        → All (λ m. MessageOk hist m.0 m.1) l
        → All (λ m. MessageOk (e ∷ hist) m.0 m.1) l
    All-later [] h = tt
    All-later (m ∷ l) h = (MessageOk-later m.0 m.1 h.0, All-later l h.1)

    pub Sound-later : (s : Server) → Sound hist s → Sound (e ∷ hist) s
    Sound-later s o = record {
      waiters = λ code w g. (let (a, b) = o.waiters code w g in (later a, b));
      phases = λ task p g. PhaseOk-later task p (o.phases task p g);
      payloads = λ task p g. MessageOk-later task (message_of p) (o.payloads task p g);
      messages = All-later s.sent o.messages;
    }

  pub Sound-reply :
      (task : ℕ) (m : Message) (s : Server)
      → MessageOk hist task m
      → Sound hist s
      → Sound hist (reply task m s)
  unfolding reply
  Sound-reply task m s h o = record {
    waiters = o.waiters;
    phases = o.phases;
    payloads = o.payloads;
    messages = (h, o.messages);
  }

  -- Fewer waiters, or another relay.
  pub Sound-fewer :
      (s : Server) (waiting : List (List ℕ × Waiter)) (relay : Option AttachedRelay)
      → ((code : List ℕ) (w : Waiter) → get waiting code ≡ some w → get s.waiting code ≡ some w)
      → Sound hist s
      → Sound hist (record s { waiting = waiting; relay = relay })
  Sound-fewer s waiting relay h o = record {
    waiters = λ code w g. o.waiters code w (h code w g);
    phases = o.phases;
    payloads = o.payloads;
    messages = o.messages;
  }

  pub Sound-phase :
      (s : Server) (task : ℕ) (p : Phase)
      → PhaseOk hist task p
      → Sound hist s
      → Sound hist (record s { tasks = insert s.tasks task p })
  Sound-phase s task p h o = record {
    waiters = o.waiters;
    phases = λ t q g. elim (get-insert-some s.tasks task t p q g) [
      | inl (same, found) ↦ subst (λ x. PhaseOk hist x q) same (subst (PhaseOk hist task) found h)
      | inr (d, old) ↦ o.phases t q old
    ];
    payloads = o.payloads;
    messages = o.messages;
  }
