-- ===== src/Traversal/Hellos.antt =====
-- mod.rs: what is sent on the way to a session, and what is not.
use p2pfile_transfer.Common.{
  ℕ, ◌≡◌, ◌∙◌, sym, ap, inl, inr, List, [], replicate, ◌++◌, ◌∷◌, Bool, arith, zero, suc,
  Bool-cases,
}
use mathlib.Core.List.{append-nil, append_assoc}
use p2pfile_transfer.Errors.{ok}
use p2pfile_transfer.Effects.{lift_inv}
use p2pfile_transfer.Protocol.{Digest}
use p2pfile_transfer.Stun.{SocketAddr}
use p2pfile_transfer.RendezvousProtocol.{Message}
use p2pfile_transfer.RelayHello.{encode}
use p2pfile_transfer.Traversal.{
  RendezvousParams, World, Traffic, choose_endpoint, stunned, is_loopback, send_hellos,
}

-- Three hellos went to the relay that the message names, with its token and our fingerprint; none, where
-- the match is a direct one.
abbrev pub Greeted : Digest → Message → Traffic → Traffic → Type 0
Greeted fp (Message.matched endpoint _ _) t t' = t'.hellos ≡ t.hellos
Greeted fp (Message.relay_match endpoint token _ _) t t' =
    t'.hellos
    ≡ t.hellos ++ replicate 3 (encode (record { token = token; fingerprint = fp }), endpoint)
Greeted fp _ t t' = ⊥

pub Greeted-before :
    (fp : Digest) (answer : Message) (t t1 t' : Traffic)
    → t1.hellos ≡ t.hellos
    → Greeted fp answer t1 t'
    → Greeted fp answer t t'
Greeted-before fp (Message.matched endpoint _ _) t t1 t' e g = g ∙ e
Greeted-before fp (Message.relay_match endpoint token _ _) t t1 t' e g = rw (← e) g
Greeted-before fp (Message.register r) t t1 t' e g = g
Greeted-before fp Message.expired t t1 t' e g = g
Greeted-before fp Message.rejected t t1 t' e g = g

stunned_inv :
    (params : RendezvousParams) (world : World) (own : SocketAddr) (t t' : Traffic)
    (choice : SocketAddr × Bool)
    → stunned params world own t ≡ (ok choice, t')
    → t ≡ t'
unfolding stunned
stunned_inv params world own t t' choice e =
    let (a, _, e1) = lift_inv world.stun_a t _ choice t' e in
    let (b, _, e2) = lift_inv world.stun_b t _ choice t' e1 in
    let (map_a, _, e3) = lift_inv (world.query a) t _ choice t' e2 in
    let (map_b, _, e4) = lift_inv (world.query b) t _ choice t' e3 in cc

pub choose_endpoint_inv :
    (params : RendezvousParams) (world : World) (own : SocketAddr) (t t' : Traffic)
    (choice : SocketAddr × Bool)
    → choose_endpoint params world own t ≡ (ok choice, t')
    → t ≡ t'
unfolding choose_endpoint
choose_endpoint_inv params world own t t' choice e =
    elim (Bool-cases (is_loopback params.rendezvous_addr.ip)) [
      | inl local ↦ ground (arith, local, e)
      | inr remote ↦ stunned_inv params world own t t' choice (ground (arith, remote, e))
    ]

pub send_hellos_inv :
    (world : World) (n : ℕ) (hello : List ℕ) (relay_endpoint : SocketAddr) (t t' : Traffic)
    → send_hellos n hello relay_endpoint world t ≡ (ok tt, t')
    → t'.hellos ≡ t.hellos ++ replicate n (hello, relay_endpoint)
unfolding send_hellos
send_hellos_inv world zero hello a t t' e =
    let same : t ≡ t' = cc in ap Traffic.hellos (sym same) ∙ sym (append-nil t.hellos)
send_hellos_inv world (suc n) hello a t t' e =
    let (_, _, later) = lift_inv (world.send_to n) t _ tt t' e in
    send_hellos_inv world n hello a _ t' later
    ∙ append_assoc t.hellos ((hello, a) ∷ []) (replicate n (hello, a))
