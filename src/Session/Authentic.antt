-- ===== src/Session/Authentic.antt =====
-- session.rs: whom an established or renewed session is with, and what a failed attempt leaves.
use p2pfile_transfer.Common.{
  ◌≡◌, refl, sym, ap, ◌∙◌, inl, inr, All, List, [], ◌∷◌, ◌++◌, Option, some, none, bytes_eq,
  bytes_eq→eq, Bool-cases,
}
use p2pfile_transfer.Errors.{Result, ok, err, panic}
use p2pfile_transfer.Effects.{M, and_then}
use p2pfile_transfer.Protocol.{Digest}
use p2pfile_transfer.Stun.{SocketAddr}
use p2pfile_transfer.Handshake.{Conn, HandshakeResult, client_handshake}
use p2pfile_transfer.Handshake.Laws.{client_handshake_checks}
use p2pfile_transfer.Session.{
  Connection, P2PSession, Live, first, rest, certified_as, pinned_to, dial, shaken_over,
  shake_hands, renewed, reconnect_to, reconnect_at, reconnect,
}

some_inj : {A : Type 0} (x y : A) → some x ≡ some y → x ≡ y
some_inj x y e = cc

shake_hands_inv :
    (m : M Conn HandshakeResult) (c : Connection) (h : HandshakeResult) (c' : Connection)
    → shake_hands m c ≡ ok (h, c')
    → (m c.conn ≡ (ok h, c'.conn)) × (c'.link ≡ c.link)
unfolding shake_hands shaken_over
shake_hands_inv m c h c' e = shaken_inv (m c.conn) e
  where
    shaken_inv :
        (r : Result HandshakeResult × Conn)
        → shaken_over c r ≡ ok (h, c')
        → (r ≡ (ok h, c'.conn)) × (c'.link ≡ c.link)
    shaken_inv (ok x, d) e = (cc, cc)
    shaken_inv (err x, d) e = cc
    shaken_inv (panic, d) e = cc

-- The attempt dialled this target and opened a connection, on which TLS saw the target's fingerprint;
-- the handshake over it has named that fingerprint, and the session now has this connection, as the
-- handshake left it.
pub record Authentic (target : SocketAddr × Digest) (l l' : Live) : Type 0 where
  pub is_target : l.session.initiator_target ≡ some target
  pub dialled : l'.network.dialled ≡ l.network.dialled ++ (target ∷ [])
  pub opened : Connection
  pub came_first : l.network.dials ≡ ok opened ∷ l'.network.dials
  pub certified : opened.conn.peer_fingerprint ≡ some target.1
  pub named : l'.session.handshake.peer_fingerprint ≡ target.1
  pub shaken :
      client_handshake l.session.side l.session.handshake.config opened.conn
      ≡ (ok l'.session.handshake, l'.session.connection.conn)
  pub same_link : l'.session.connection.link ≡ opened.link

-- What a renewal leaves alone.
pub record SameEnd (s t : P2PSession) : Type 0 where
  pub side : t.side ≡ s.side
  pub session_id : t.session_id ≡ s.session_id
  pub initiator_target : t.initiator_target ≡ s.initiator_target

-- What `reconnect` comes to.
abbrev pub Reconnected : Live → Result (Unit {0}) × Live → Type 0
Reconnected l (ok _, l') =
    (target : SocketAddr × Digest) × Authentic target l l'
    × (l'.session.handshake.config ≡ l.session.handshake.config)
    × SameEnd l.session l'.session
Reconnected l (err e, l') = l'.session ≡ l.session
Reconnected l (panic, l') = l'.session ≡ l.session

dialled_outcome :
    (r : List (Result Connection)) (c : Connection) → first r ≡ ok c → r ≡ ok c ∷ rest r
unfolding first rest
dialled_outcome [] c e = cc
dialled_outcome (x ∷ later) c e = cc

certified_as_inv :
    (fingerprint : Digest) (c opened : Connection) (seen : Option Digest)
    → certified_as fingerprint c seen ≡ ok opened
    → (opened ≡ c) × (seen ≡ some fingerprint)
unfolding certified_as
certified_as_inv fingerprint c opened none e = cc
certified_as_inv fingerprint c opened (some presented) e =
    elim (Bool-cases (bytes_eq presented fingerprint)) [
      | inl same ↦
          let found = rw same at e in (cc, ap some (bytes_eq→eq presented fingerprint same))
      | inr differ ↦ let never = rw differ at e in cc
    ]

pinned_to_inv :
    (fingerprint : Digest) (r : Result Connection) (opened : Connection)
    → pinned_to fingerprint r ≡ ok opened
    → (r ≡ ok opened) × (opened.conn.peer_fingerprint ≡ some fingerprint)
unfolding pinned_to
pinned_to_inv fingerprint (ok c) opened e =
    let (same, seen) = certified_as_inv fingerprint c opened c.conn.peer_fingerprint e in
    (ap ok (sym same), ap (λ x. x.conn.peer_fingerprint) same ∙ seen)
pinned_to_inv fingerprint (err x) opened e = cc
pinned_to_inv fingerprint panic opened e = cc

module _ (target : SocketAddr × Digest) (l : Live)
    (is_target : l.session.initiator_target ≡ some target) where
  -- Behind the dial.
  abbrev after : Live
  after = record l { network = (dial target l.network).1 }

  shaken-Reconnected :
      (c : Connection) (r : Result (HandshakeResult × Connection))
      → l.network.dials ≡ ok c ∷ after.network.dials
      → c.conn.peer_fingerprint ≡ some target.1
      → shake_hands (client_handshake l.session.side l.session.handshake.config) c ≡ r
      → Reconnected l (and_then (r, after) renewed)
  unfolding renewed dial
  shaken-Reconnected c (ok (h, c')) came certified e =
      let (shaken, same_link) = shake_hands_inv _ c h c' e in
      let (_, _, _, kept, vouched) =
        client_handshake_checks l.session.side l.session.handshake.config c.conn c'.conn h shaken in
      (
        target,
        record {
          is_target = is_target;
          dialled = refl;
          opened = c;
          came_first = came;
          certified = certified;
          named = some_inj _ _ (sym vouched.certified ∙ certified);
          shaken = shaken;
          same_link = same_link;
        },
        kept,
        record { side = refl; session_id = refl; initiator_target = refl },
      )
  shaken-Reconnected c (err x) came certified e = refl
  shaken-Reconnected c panic came certified e = refl

  reconnect_to-Reconnected : Reconnected l (reconnect_to target l)
  unfolding reconnect_to dial
  reconnect_to-Reconnected = dialled_as (pinned_to target.1 (first l.network.dials)) refl
    where
      dialled_as :
          (r : Result Connection)
          → pinned_to target.1 (first l.network.dials) ≡ r
          → Reconnected l (
              and_then
                (r, after)
                (λ connection t.
                  and_then
                    (
                      shake_hands
                          (client_handshake l.session.side l.session.handshake.config)
                          connection,
                      t,
                    )
                    renewed))
      dialled_as (ok c) e =
          let (came, certified) = pinned_to_inv target.1 (first l.network.dials) c e in
          shaken-Reconnected c _ (dialled_outcome l.network.dials c came) certified refl
      dialled_as (err x) e = refl
      dialled_as panic e = refl

-- `reconnect` either dials the session's own target and opens a connection on which TLS saw the target's
-- fingerprint, and then the session has that very connection, as a client's handshake over it left it,
-- names that fingerprint, and keeps the configuration that was agreed on before, its identity, its id
-- and its target; or it leaves the session as it was, old connection included.
pub reconnect-Reconnected : (l : Live) → Reconnected l (reconnect l)
unfolding reconnect reconnect_at
reconnect-Reconnected l = by_target l.session.initiator_target refl
  where
    by_target :
        (t : Option (SocketAddr × Digest))
        → l.session.initiator_target ≡ t
        → Reconnected l (reconnect_at t l)
    by_target none e = refl
    by_target (some target) e = reconnect_to-Reconnected target l e

-- This end has dialled no one but the session's own target.
abbrev pub Pinned : Live → Type 0
Pinned l = All (λ t. l.session.initiator_target ≡ some t) l.network.dialled

All-append_one :
    {A : Type 0} (P : A → Type 0) (l : List A) (x : A) → All P l → P x → All P (l ++ (x ∷ []))
All-append_one P [] x h p = (p, tt)
All-append_one P (y ∷ l) x h p = (h.0, All-append_one P l x h.1 p)

module _ (target : SocketAddr × Digest) (l : Live)
    (is_target : l.session.initiator_target ≡ some target) (before : Pinned l) where
  reconnect_to-Pinned : Pinned (reconnect_to target l).1
  unfolding reconnect_to dial renewed
  reconnect_to-Pinned = by_outcome (pinned_to target.1 (first l.network.dials))
    where
      after : Live
      after = record l { network = (dial target l.network).1 }

      now : Pinned after
      now = All-append_one _ l.network.dialled target before is_target

      by_hands :
          (r : Result (HandshakeResult × Connection)) → Pinned (and_then (r, after) renewed).1
      by_hands (ok shaken) = now
      by_hands (err e) = now
      by_hands panic = now

      by_outcome :
          (r : Result Connection)
          → Pinned
              (and_then
                (r, after)
                (λ connection t.
                  and_then
                    (
                      shake_hands
                          (client_handshake l.session.side l.session.handshake.config)
                          connection,
                      t,
                    )
                    renewed)).1
      by_outcome (ok c) =
          by_hands (shake_hands (client_handshake l.session.side l.session.handshake.config) c)
      by_outcome (err e) = now
      by_outcome panic = now

pub reconnect-Pinned : (l : Live) → Pinned l → Pinned (reconnect l).1
unfolding reconnect reconnect_at
reconnect-Pinned l before = by_target l.session.initiator_target refl
  where
    by_target :
        (t : Option (SocketAddr × Digest))
        → l.session.initiator_target ≡ t
        → Pinned (reconnect_at t l).1
    by_target none e = before
    by_target (some target) e = reconnect_to-Pinned target l e before
