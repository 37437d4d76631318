-- ===== src/Relay/Sessions.antt =====
-- relay.rs: the session table and the address index agree, whatever the relay does.
use p2pfile_transfer.Common.{
  ℕ, ◌≡◌, ◌≢◌, refl, sym, ap, ◌∙◌, ◌⊎◌, inl, inr, true, List, Option, some, none, arith, bytes_eq,
  bytes_eq_refl, Bool-cases, Option-cases, subst,
}
use p2pfile_transfer.Common.Maps.{
  number_key, bytes_key, get, insert, remove, get-insert_same, get-insert_other, get-remove_same,
  get-remove_other, key_decides,
}
use p2pfile_transfer.Relay.{
  Addr, Instant, PeerState, Session, RelayState, reserve, forget, drop_addr, partner, forward,
}

abbrev pub At : Option PeerState → Addr → Type 0
At none addr = ⊥
At (some peer) addr = peer.addr ≡ addr

-- The address has joined the session.
abbrev pub Holds : Session → Addr → Type 0
Holds session addr = At session.peer_a addr ⊎ At session.peer_b addr

abbrev pub Presents : Option PeerState → List ℕ → Type 0
Presents none fp = Unit {0}
Presents (some peer) fp = peer.fingerprint ≡ fp

pub record Fits (session : Session) : Type 0 where
  pub distinct_fp : session.peer_a_expected_fp ≢ session.peer_b_expected_fp
  pub a_known : Presents session.peer_a session.peer_a_expected_fp
  pub b_known : Presents session.peer_b session.peer_b_expected_fp
  pub apart : (addr : Addr) → At session.peer_a addr → At session.peer_b addr → ⊥

-- The index has exactly the addresses of the peers that joined, under their session's token; the
-- peers of a session present the two fingerprints that it was reserved for, from two addresses.
pub record WellFormed (s : RelayState) : Type 0 where
  pub indexed :
      (addr : Addr) (token : List ℕ)
      → get s.addr_to_token addr ≡ some token
      → (session : Session) × (get s.sessions token ≡ some session) × Holds session addr
  pub listed :
      (token : List ℕ) (session : Session) (addr : Addr)
      → get s.sessions token ≡ some session
      → Holds session addr
      → get s.addr_to_token addr ≡ some token
  pub fitting :
      (token : List ℕ) (session : Session) → get s.sessions token ≡ some session → Fits session

dropped_other :
    (peer : Option PeerState) (index : List (Addr × List ℕ)) (addr : Addr)
    → (At peer addr → ⊥)
    → get (drop_addr peer index) addr ≡ get index addr
unfolding drop_addr
dropped_other none index addr d = refl
dropped_other (some peer) index addr d = get-remove_other index peer.addr addr d

dropped_same :
    (peer : Option PeerState) (index : List (Addr × List ℕ)) (addr : Addr)
    → At peer addr
    → get (drop_addr peer index) addr ≡ none
unfolding drop_addr
dropped_same none index addr h = absurd h
dropped_same (some peer) index addr h =
    ap (λ a. get (remove index peer.addr) a) (sym h) ∙ get-remove_same index peer.addr

dropped_some :
    (peer : Option PeerState) (index : List (Addr × List ℕ)) (addr : Addr) (t : List ℕ)
    → get (drop_addr peer index) addr ≡ some t
    → (get index addr ≡ some t) × (At peer addr → ⊥)
unfolding drop_addr
dropped_some none index addr t e = (e, λ x. x)
dropped_some (some peer) index addr t e = elim (key_decides peer.addr addr) [
  | inl same ↦
      let nothing = dropped_same (some peer) index addr same in let never : ⊥ = cc in absurd never
  | inr d ↦ (sym (get-remove_other index peer.addr addr d) ∙ e, d)
]

module _ (s : RelayState) (w : WellFormed s) (token : List ℕ) where
  -- A session is put in place, and the index follows it.
  pub WellFormed-insert :
      (session : Session) (index : List (Addr × List ℕ)) (n : ℕ)
      → Fits session
      → ((addr : Addr) → Holds session addr → get index addr ≡ some token)
      → ((addr : Addr) (t : List ℕ)
          → get index addr ≡ some t
          → ((t ≡ token) × Holds session addr)
            ⊎ ((token ≢ t) × (get s.addr_to_token addr ≡ some t)))
      → ((addr : Addr) (t : List ℕ)
          → token ≢ t
          → get s.addr_to_token addr ≡ some t
          → get index addr ≡ some t)
      → WellFormed (record {
        sessions = insert s.sessions token session;
        addr_to_token = index;
        bytes_forwarded = n;
      })
  WellFormed-insert session index n fits added kept others = record {
    indexed = λ addr t e. elim (kept addr t e) [
      | inl (same, holds) ↦ (session, rw same (get-insert_same s.sessions token session), holds)
      | inr (d, old) ↦
          let (other, g, holds) = w.indexed addr t old in
          (other, get-insert_other s.sessions token t session d ∙ g, holds)
    ];
    listed = λ t other addr g holds. elim (key_decides token t) [
      | inl same ↦
          let eq : session ≡ other = here t other same g in
          subst (λ k. get index addr ≡ some k) same
            (added addr (subst (λ x. Holds x addr) (sym eq) holds))
      | inr d ↦
          others addr t d
            (w.listed t other addr (sym (get-insert_other s.sessions token t session d) ∙ g) holds)
    ];
    fitting = λ t other g. elim (key_decides token t) [
      | inl same ↦ subst Fits (here t other same g) fits
      | inr d ↦ w.fitting t other (sym (get-insert_other s.sessions token t session d) ∙ g)
    ];
  }
    where
      here :
          (t : List ℕ) (other : Session)
          → token ≡ t
          → get (insert s.sessions token session) t ≡ some other
          → session ≡ other
      here t other same g =
          let found : get (insert s.sessions token session) token ≡ some session =
            get-insert_same s.sessions token session in
          let there : get (insert s.sessions token session) token ≡ some other =
            ap (get (insert s.sessions token session)) same ∙ g in
          cc

  pub WellFormed-reserve :
      (a_fp b_fp : List ℕ) (now : Instant) (s' : RelayState)
      → get s.sessions token ≡ none
      → reserve token a_fp b_fp now s ≡ some s'
      → WellFormed s'
  unfolding reserve
  WellFormed-reserve a_fp b_fp now s' fresh e = elim (Bool-cases (bytes_eq a_fp b_fp)) [
    | inl same ↦ let never : ⊥ = ground (arith, same, e) in absurd never
    | inr differ ↦
        let unequal : a_fp ≢ b_fp =
          λ eq. let t : bytes_eq a_fp b_fp ≡ true = rw eq (bytes_eq_refl b_fp) in cc in
        let elsewhere : (addr : Addr) → get s.addr_to_token addr ≡ some token → ⊥ =
          λ addr h. (let (session, g, _) = w.indexed addr token h in cc) in
        let opened : Session = record {
          peer_a = none;
          peer_b = none;
          created_at = now;
          last_active = now;
          peer_a_expected_fp = a_fp;
          peer_b_expected_fp = b_fp;
        } in
        let made : record s { sessions = insert s.sessions token opened } ≡ s' =
          ground (arith, differ, e) in
        subst WellFormed made (
          WellFormed-insert opened s.addr_to_token s.bytes_forwarded
            (record {
              distinct_fp = unequal;
              a_known = tt;
              b_known = tt;
              apart = λ addr h. absurd h;
            })
            (λ addr h. elim h [ inl x ↦ absurd x | inr x ↦ absurd x ])
            (λ addr t g. inr (λ eq. elsewhere addr (g ∙ ap some (sym eq)), g)) (λ addr t d g. g))
  ]

  forgotten :
      (session : Session)
      → get s.sessions token ≡ some session
      → WellFormed (record s {
        sessions = remove s.sessions token;
        addr_to_token = drop_addr session.peer_b (drop_addr session.peer_a s.addr_to_token);
      })
  forgotten session known = record {
    indexed = λ addr t e.
        let (e1, not_b) =
          dropped_some session.peer_b (drop_addr session.peer_a s.addr_to_token) addr t e in
        let (e0, not_a) = dropped_some session.peer_a s.addr_to_token addr t e1 in
        let (other, g, holds) = w.indexed addr t e0 in
        let d : token ≢ t = λ eq.
          (let same : other ≡ session = (let k = ap (get s.sessions) eq in cc) in
            elim (subst (λ x. Holds x addr) same holds) [ inl x ↦ not_a x | inr x ↦ not_b x ]) in
        (other, get-remove_other s.sessions token t d ∙ g, holds);
    listed = λ t other addr g holds.
        let d = unforgotten t other g in
        let old = w.listed t other addr (sym (get-remove_other s.sessions token t d) ∙ g) holds in
        let away : Holds session addr → ⊥ = λ h.
          (let mine = w.listed token session addr known h in d (let e : token ≡ t = cc in e)) in
        dropped_other session.peer_b (drop_addr session.peer_a s.addr_to_token) addr
          (λ x. away (inr x))
        ∙ dropped_other session.peer_a s.addr_to_token addr (λ x. away (inl x))
        ∙ old;
    fitting = λ t other g.
        w.fitting t other (sym (get-remove_other s.sessions token t (unforgotten t other g)) ∙ g);
  }
    where
      unforgotten :
          (t : List ℕ) (other : Session) → get (remove s.sessions token) t ≡ some other → token ≢ t
      unforgotten t other g eq =
          let nothing : get (remove s.sessions token) t ≡ none =
            subst (λ k. get (remove s.sessions token) k ≡ none) eq
              (get-remove_same s.sessions token) in
          cc

  pub WellFormed-forget : WellFormed (forget token s)
  unfolding forget
  WellFormed-forget = elim (Option-cases (get s.sessions token)) [
    | inl unknown ↦ rw (forget, unknown) w
    | inr (session, known) ↦ rw (forget, known) (forgotten session known)
  ]

  -- The session keeps its peers and fingerprints: only times change.
  WellFormed-touch :
      (session : Session) (now : Instant) (n : ℕ)
      → get s.sessions token ≡ some session
      → WellFormed (record {
        sessions = insert s.sessions token (record session { last_active = now });
        addr_to_token = s.addr_to_token;
        bytes_forwarded = n;
      })
  WellFormed-touch session now n known =
      let fits = w.fitting token session known in
      WellFormed-insert (record session { last_active = now }) s.addr_to_token n
        (record {
          distinct_fp = fits.distinct_fp;
          a_known = fits.a_known;
          b_known = fits.b_known;
          apart = fits.apart;
        })
        (λ addr h. w.listed token session addr known h)
        (λ addr t g. elim (key_decides token t) [
          | inl same ↦
              (let (other, k, holds) = w.indexed addr t g in
                let eq : other ≡ session = (let l = ap (get s.sessions) same in cc) in
                inl (sym same, subst (λ x. Holds x addr) eq holds))
          | inr d ↦ inr (d, g)
        ])
        (λ addr t d g. g)

  pub WellFormed-forward :
      (packet : List ℕ) (src : Addr) (now : Instant) → WellFormed (forward token packet src now s).1
  unfolding forward
  WellFormed-forward packet src now = elim (Option-cases (get s.sessions token)) [
    | inl unknown ↦ rw (forward, unknown) w
    | inr (session, known) ↦ elim (Option-cases (partner src session)) [
      | inl nowhere ↦
          rw (forward, known, nowhere) (WellFormed-touch session now s.bytes_forwarded known)
      | inr (dest, somewhere) ↦
          rw (forward, known, somewhere) (WellFormed-touch session now _ known)
    ]
  ]
