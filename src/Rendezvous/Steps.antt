-- ===== src/Rendezvous/Steps.antt =====
-- server.rs: each piece of a connection's task keeps the server sound.
use p2pfile_transfer.Common.{
  ℕ, ◌+◌, ◌≡◌, ◌≢◌, refl, sym, inl, inr, Bool, true, false, ◌||◌, List, some, ltb, leb, ◌==◌,
  if◌then◌else◌, Bool-cases, Option-cases, subst,
}
use p2pfile_transfer.Common.Maps.{
  number_key, bytes_key, get, remove, retain, get-remove-some, get-insert-some, get-retain,
}
use p2pfile_transfer.Relay.{reserve}
use p2pfile_transfer.Rendezvous.{
  SocketAddr, RegisterRequest, Message, Waiter, NotifyPayload, registering, waiting_for,
  AttachedRelay, Server, reply, stamp, message_of, tell, pair_direct, pair_relay, pair, look_up,
  on_frame, enter, on_register, clean_up, finish, dropped, wake, resume, is_valid_code,
}
use p2pfile_transfer.Rendezvous.Pairing.{
  History, Registered, Meets, MessageOk, Sound, Sound-reply, Sound-fewer, Sound-phase,
}

module _ (hist : History) (task : ℕ) where
  module _ (r : RegisterRequest) (own : Registered hist task r) where
    module _ (w : Waiter) (first : Registered hist w.task w.first) (code : w.first.code ≡ r.code)
        (apart : task ≢ w.task) where
      met_first : Meets hist task w.first
      met_first = record {
        own = r;
        other = w.task;
        own_in = own;
        other_in = first;
        apart = apart;
        same_code = sym code;
      }

      met_second : Meets hist w.task r
      met_second = record {
        own = w.first;
        other = task;
        own_in = first;
        other_in = own;
        apart = λ e. apart (sym e);
        same_code = code;
      }

      Sound-tell :
          (message : Message) (payload : NotifyPayload) (delivered : Bool) (s : Server)
          → MessageOk hist task message
          → MessageOk hist w.task (message_of payload)
          → Sound hist s
          → Sound hist (tell task message w payload delivered s)
      unfolding tell reply
      Sound-tell message payload false s m p o = o
      Sound-tell message payload true s m p o = record {
        waiters = o.waiters;
        phases = o.phases;
        payloads = λ t q g. elim (get-insert-some s.notified w.task t payload q g) [
          | inl (same, found) ↦
              subst (λ x. MessageOk hist x (message_of q)) same
                (subst (λ y. MessageOk hist w.task (message_of y)) found p)
          | inr (d, old) ↦ o.payloads t q old
        ];
        messages = (m, o.messages);
      }

      Sound-pair_direct :
          (delivered : Bool) (s : Server)
          → Sound hist s
          → Sound hist (pair_direct task r w delivered s)
      unfolding pair_direct
      Sound-pair_direct delivered s o =
          Sound-tell _ (NotifyPayload.direct r) delivered s (w.first, met_first, refl, refl, refl)
            (r, met_second, refl, refl, refl) o

      Sound-pair_relay :
          (attached : AttachedRelay) (token : List ℕ) (now : ℕ) (delivered : Bool) (s : Server)
          → Sound hist s
          → Sound hist (pair_relay task r w attached token now delivered s)
      unfolding pair_relay
      Sound-pair_relay attached token now delivered s o =
          elim (Option-cases
            (reserve token w.first.cert_fingerprint r.cert_fingerprint now attached.state)) [
              | inl refused ↦
                  rw (pair_relay, refused) (Sound-reply hist task Message.rejected s tt o)
              | inr (reserved, made) ↦
                  rw (pair_relay, made)
                    (Sound-tell _
                      (NotifyPayload.relay token attached.public_addr r.cert_fingerprint
                        r.device_id)
                      delivered (record s { relay = some (record attached { state = reserved }) })
                      (w.first, met_first, refl, refl) (r, met_second, refl, refl)
                      (Sound-fewer hist s s.waiting _ (λ c x g. g) o))
            ]

      Sound-pair :
          (token : List ℕ) (now : ℕ) (delivered : Bool) (s : Server)
          → Sound hist s
          → Sound hist (pair task r w token now delivered s)
      unfolding pair
      Sound-pair token now delivered s o = elim (Bool-cases (r.want_relay || w.first.want_relay)) [
        | inl relayed ↦ elim (Option-cases s.relay) [
          | inl absent ↦ rw (pair, relayed, absent) (Sound-pair_direct delivered s o)
          | inr (attached, present) ↦
              rw (pair, relayed, present) (Sound-pair_relay attached token now delivered s o)
        ]
        | inr plain ↦ rw (pair, plain) (Sound-pair_direct delivered s o)
      ]

    Sound-look_up :
        (token : List ℕ) (now : ℕ) (delivered : Bool) (s : Server)
        → ((code : List ℕ) (w : Waiter) → get s.waiting code ≡ some w → task ≢ w.task)
        → Sound hist s
        → Sound hist (look_up task r token now delivered s)
    unfolding look_up
    Sound-look_up token now delivered s away o = elim (Option-cases (get swept r.code)) [
      | inl nobody ↦
          rw (look_up, nobody) (Sound-phase hist taken task (registering r) own taken-Sound)
      | inr (w, found) ↦
          let there = kept r.code w found in
          let (first, code) = o.waiters r.code w there in
          rw (look_up, found)
            (Sound-pair w first code (away r.code w there) token now delivered taken taken-Sound)
    ]
      where
        swept : List (List ℕ × Waiter)
        swept = retain (λ w. ltb now w.expires_at) s.waiting

        taken : Server
        taken = record s { waiting = remove swept r.code }

        kept : (code : List ℕ) (w : Waiter) → get swept code ≡ some w → get s.waiting code ≡ some w
        kept code w g = (get-retain (λ w. ltb now w.expires_at) s.waiting code w g).0

        taken-Sound : Sound hist taken
        taken-Sound =
            Sound-fewer hist s (remove swept r.code) s.relay
              (λ code w g. kept code w (get-remove-some swept r.code code w g).1) o

    Sound-enter : (now : ℕ) (s : Server) → Sound hist s → Sound hist (enter task r now s)
    unfolding enter
    Sound-enter now s o = elim (Option-cases (get s.waiting r.code)) [
      | inr (other, raced) ↦
          rw (enter, raced)
            (Sound-reply hist task Message.rejected (record s { tasks = remove s.tasks task }) tt
              (record {
                waiters = o.waiters;
                phases = λ t p g. o.phases t p (get-remove-some s.tasks task t p g).1;
                payloads = o.payloads;
                messages = o.messages;
              }))
      | inl free ↦
          let entry : Waiter = record { first = r; task = task; expires_at = now + s.ttl } in
          rw (enter, free)
            (Sound-phase hist _ task (waiting_for r (now + s.ttl)) own (record {
              waiters = λ code w g. elim (get-insert-some s.waiting r.code code entry w g) [
                | inl (same, found) ↦
                    subst (λ x. Registered hist x.task x.first × (x.first.code ≡ code)) found
                      (own, same)
                | inr (d, old) ↦ o.waiters code w old
              ];
              phases = o.phases;
              payloads = o.payloads;
              messages = o.messages;
            }))
    ]

  Sound-clean_up :
      (r : RegisterRequest) (s : Server) → Sound hist s → Sound hist (clean_up task r s)
  unfolding clean_up
  Sound-clean_up r s o = elim (Option-cases (get s.waiting r.code)) [
    | inl absent ↦ rw (clean_up, absent) o
    | inr (w, there) ↦ elim (Bool-cases (w.first.device_id == r.device_id)) [
      | inl own ↦
          rw (clean_up, there, own)
            (Sound-fewer hist s (remove s.waiting r.code) s.relay
              (λ code x g. (get-remove-some s.waiting r.code code x g).1) o)
      | inr other ↦ rw (clean_up, there, other) o
    ]
  ]

  Sound-finish :
      (message : Message) (delivered : Bool) (s : Server)
      → MessageOk hist task message
      → Sound hist s
      → Sound hist (finish task message delivered s)
  unfolding finish
  Sound-finish message delivered s m o = both delivered
    where
      over : Server
      over = record s { tasks = remove s.tasks task; notified = remove s.notified task }

      over-Sound : Sound hist over
      over-Sound = record {
        waiters = o.waiters;
        phases = λ t p g. o.phases t p (get-remove-some s.tasks task t p g).1;
        payloads = λ t p g. o.payloads t p (get-remove-some s.notified task t p g).1;
        messages = o.messages;
      }

      both : (d : Bool) → Sound hist (if d then reply task message over else over)
      both true = Sound-reply hist task message over m over-Sound
      both false = over-Sound

  Sound-wake :
      (r : RegisterRequest) (deadline now : ℕ) (delivered : Bool) (s : Server)
      → Sound hist s
      → Sound hist (wake task r deadline now delivered s)
  unfolding wake
  Sound-wake r deadline now delivered s o = elim (Option-cases (get s.notified task)) [
    | inr (p, told) ↦
        rw (wake, told)
          (Sound-finish (message_of p) delivered (clean_up task r s) (o.payloads task p told)
            (Sound-clean_up r s o))
    | inl quiet ↦ elim (Bool-cases (leb deadline now || dropped task r s)) [
      | inl over ↦
          rw (wake, quiet, over)
            (Sound-finish Message.expired delivered (clean_up task r s) tt (Sound-clean_up r s o))
      | inr wait ↦ rw (wake, quiet, wait) o
    ]
  ]

  pub Sound-resume :
      (now : ℕ) (delivered : Bool) (s : Server)
      → Sound hist s
      → Sound hist (resume task now delivered s)
  unfolding resume
  Sound-resume now delivered s o = elim (Option-cases (get s.tasks task)) [
    | inl gone ↦ rw (resume, gone) o
    | inr (registering r, there) ↦ rw (resume, there) o
    | inr (waiting_for r deadline, there) ↦
        rw (resume, there) (Sound-wake r deadline now delivered s o)
  ]

  pub Sound-on_register :
      (now : ℕ) (s : Server) → Sound hist s → Sound hist (on_register task now s)
  unfolding on_register
  Sound-on_register now s o = elim (Option-cases (get s.tasks task)) [
    | inl gone ↦ rw (on_register, gone) o
    | inr (registering r, there) ↦
        rw (on_register, there) (Sound-enter r (o.phases task (registering r) there) now s o)
    | inr (waiting_for r deadline, there) ↦ rw (on_register, there) o
  ]

  pub Sound-on_frame :
      (peer : SocketAddr) (raw : RegisterRequest) (token : List ℕ) (now : ℕ) (delivered : Bool)
      (s : Server)
      → Registered hist task (stamp peer raw)
      → ((code : List ℕ) (w : Waiter) → get s.waiting code ≡ some w → task ≢ w.task)
      → Sound hist s
      → Sound hist (on_frame task peer (some (Message.register raw)) token now delivered s)
  unfolding on_frame
  Sound-on_frame peer raw token now delivered s own away o =
      elim (Bool-cases (raw.protocol_version == 1)) [
        | inr old ↦ rw (on_frame, old) (Sound-reply hist task Message.rejected s tt o)
        | inl current ↦ elim (Bool-cases (is_valid_code raw.code)) [
          | inr bad ↦ rw (on_frame, current, bad) (Sound-reply hist task Message.rejected s tt o)
          | inl valid ↦
              rw (on_frame, current, valid)
                (Sound-look_up (stamp peer raw) own token now delivered s away o)
        ]
      ]
