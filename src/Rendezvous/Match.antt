-- ===== src/Rendezvous/Match.antt =====
-- server.rs: two peers with one code, from their first frames to their answers.
use p2pfile_transfer.Common.{
  ℕ, ◌+◌, ◌<◌, ◌≡◌, sym, ap, ◌∙◌, Bool, true, false, ◌||◌, List, [], ◌∷◌, Option, some, arith, ltb,
  ◌==◌, bytes_eq, bytes_eq_refl, subst,
}
use p2pfile_transfer.Common.Maps.{number_key, bytes_key, get, insert, remove, retain}
use p2pfile_transfer.Rendezvous.{
  SocketAddr, RegisterRequest, Message, NotifyPayload, registering, waiting_for, AttachedRelay,
  Server, reply, stamp, tell, pair_direct, pair, look_up, on_frame, enter, on_register, clean_up,
  finish, wake, resume, is_valid_code,
}
use p2pfile_transfer.Rendezvous.Meeting.{started}

-- What a peer is told of another that registered from this address.
abbrev pub about : SocketAddr → RegisterRequest → Message
about peer r = Message.matched (stamp peer r).public_endpoint r.cert_fingerprint r.device_id

module _ (ttl : ℕ) (relay : Option AttachedRelay) (t u : ℕ) (pa pb : SocketAddr)
    (a b : RegisterRequest) where
  alone : ℕ → Server
  alone now = record (started ttl relay) {
    waiting = (a.code, record { first = stamp pa a; task = t; expires_at = now + ttl }) ∷ [];
    tasks = (t, waiting_for (stamp pa a) (now + ttl)) ∷ [];
  }

  middle : Server
  middle = record (started ttl relay) { tasks = (t, registering (stamp pa a)) ∷ [] }

  met : ℕ → Server
  met now = record (alone now) {
    waiting = [];
    notified = (t, NotifyPayload.direct (stamp pb b)) ∷ [];
    sent = (u, about pa a) ∷ [];
  }

  over : Server
  over = record (started ttl relay) { sent = (t, about pb b) ∷ (u, about pa a) ∷ [] }

  own : (t == t) ≡ true
  own = ground arith

  first_registers :
      (token : List ℕ) (now : ℕ) (delivered : Bool)
      → a.protocol_version ≡ 1
      → is_valid_code a.code ≡ true
      → on_frame t pa (some (Message.register a)) token now delivered (started ttl relay) ≡ middle
  unfolding on_frame look_up middle get insert remove retain
  first_registers token now delivered v c =
      let version : (a.protocol_version == 1) ≡ true = ground (arith, v) in
      rw (on_frame, version, c)

  first_waits : (now : ℕ) → on_register t now middle ≡ alone now
  unfolding on_register enter middle alone get insert remove stamp
  first_waits now = rw (on_register, own, enter, own)

  second_pairs :
      (token : List ℕ) (before now : ℕ)
      → b.protocol_version ≡ 1
      → is_valid_code b.code ≡ true
      → a.code ≡ b.code
      → now < before + ttl
      → a.want_relay ≡ false
      → b.want_relay ≡ false
      → on_frame u pb (some (Message.register b)) token now true (alone before) ≡ met before
  unfolding on_frame look_up pair pair_direct tell reply met alone get insert remove retain stamp
  second_pairs token before now v c same l plain_a plain_b =
      let version : (b.protocol_version == 1) ≡ true = ground (arith, v) in
      let alive : ltb now (before + ttl) ≡ true = ground (arith, l) in
      let hit : bytes_eq a.code b.code ≡ true =
        subst (λ k. bytes_eq a.code k ≡ true) same (bytes_eq_refl a.code) in
      let plain : (b.want_relay || a.want_relay) ≡ false = ground (arith, plain_a, plain_b) in
      rw (on_frame, version, c, look_up, alive, hit, pair, plain, alive, hit)

  first_hears : (before now : ℕ) → resume t now true (met before) ≡ over
  unfolding resume wake clean_up finish reply met alone over get remove stamp
  first_hears before now = rw (resume, own, wake, own, finish, own)

  -- Two peers register under one valid code, neither asking for the
  -- relay, the second before the first one's time is up. Then both are told of the other: its TCP
  -- address with the port it registered, its fingerprint and its device id; nothing else is sent, and
  -- the server keeps nothing of either.
  pub both_matched :
      (token token2 : List ℕ) (now1 now2 now3 now4 : ℕ) (delivered : Bool)
      → a.protocol_version ≡ 1
      → b.protocol_version ≡ 1
      → is_valid_code a.code ≡ true
      → a.code ≡ b.code
      → now3 < now2 + ttl
      → a.want_relay ≡ false
      → b.want_relay ≡ false
      → resume t now4 true (
          on_frame u pb (some (Message.register b)) token2 now3 true (
            on_register t now2
              (on_frame t pa (some (Message.register a)) token now1 delivered (started ttl relay))))
        ≡ record (started ttl relay) { sent = (t, about pb b) ∷ (u, about pa a) ∷ [] }
  unfolding over
  both_matched token token2 now1 now2 now3 now4 delivered va vb c same l plain_a plain_b = rw (
    first_registers token now1 delivered va c,
    first_waits now2,
    second_pairs token2 now2 now3 vb (ap is_valid_code (sym same) ∙ c) same l plain_a plain_b,
    first_hears now2 now4,
  )
