-- ===== src/FileExchange/Agreement.antt =====
-- transfer_folder.rs: a file that is reported as received is the one whose checksum the sender named.
use p2pfile_transfer.Common.{
  ℕ, ◌≡◌, refl, sym, ap, ◌∙◌, inl, inr, List, [], ◌∷◌, ◌++◌, some, arith, bytes_eq, bytes_eq→eq,
  Bool-cases, subst,
}
use p2pfile_transfer.Errors.{Result, ok, err, panic}
use p2pfile_transfer.Effects.{M, and_then_inv, lift_inv}
use p2pfile_transfer.Protocol.{Uuid, Digest, Message, ConfigMessage, FileChecksumMessage}
use p2pfile_transfer.Compression.{Zstd}
use p2pfile_transfer.Handshake.{Conn, send_message, recv_message}
use p2pfile_transfer.Handshake.Laws.{SentOne, GotOne, send_inv, recv_inv}
use p2pfile_transfer.Transfer.Receiver.{Closing, Receiver, new_receiver, receive_file}
use p2pfile_transfer.Transfer.Receiver.Guarded.{Verdict, receive_file-Verdict}
use p2pfile_transfer.FileExchange.{
  on_conn, on_file, checksum_message, expect_checksum, same_index, same_checksum,
  receive_single_file,
}

module _ {S A : Type 0} where
  on_conn_inv :
      (m : M Conn A) (c c' : Conn) (s s' : S) (a : A)
      → on_conn m (c, s) ≡ (ok a, (c', s'))
      → (m c ≡ (ok a, c')) × (s ≡ s')
  on_conn_inv m c c' s s' a e = (ap (λ x. (x.0, x.1.0)) e, ap (λ x. x.1.1) e)

  on_file_inv :
      (m : M S A) (c c' : Conn) (s s' : S) (a : A)
      → on_file m (c, s) ≡ (ok a, (c', s'))
      → (m s ≡ (ok a, s')) × (c ≡ c')
  on_file_inv m c c' s s' a e = (ap (λ x. (x.0, x.1.1)) e, ap (λ x. x.1.0) e)

expect_checksum_inv :
    (m : Message) (x : FileChecksumMessage) → expect_checksum m ≡ ok x → m ≡ Message.file_checksum x
expect_checksum_inv (Message.file_checksum y) x e = cc
expect_checksum_inv _ x e = cc

same_index_inv : (i : ℕ) (x : FileChecksumMessage) → same_index i x ≡ ok tt → x.file_index ≡ i
same_index_inv i x e = ground (arith, e)

same_checksum_inv : (theirs ours : Digest) → same_checksum theirs ours ≡ ok tt → theirs ≡ ours
same_checksum_inv theirs ours e = elim (Bool-cases (bytes_eq theirs ours)) [
  | inl same ↦ bytes_eq→eq theirs ours same
  | inr differ ↦ let never : ⊥ = ground (arith, differ, e) in absurd never
]

module _ (z : Zstd) (sha256 : List ℕ → Digest) (transfer_id : Uuid) (file_index : ℕ)
    (config : ConfigMessage) where
  -- What a receiver has that reported success.
  pub record Agreed (c c' : Conn) (r : Receiver) : Type 0 where
    pub content : List ℕ
    pub named : FileChecksumMessage
    pub in_place : r.finished ≡ some content
    pub came : c.incoming ≡ ok (Message.file_checksum named) ∷ c'.incoming
    pub this_file : named.file_index ≡ file_index
    pub agreed : named.checksum ≡ sha256 content
    pub told : c'.sent ≡ c.sent ++ (checksum_message transfer_id file_index (sha256 content) ∷ [])

  finished-content :
      (n wanted : ℕ) (closing : Closing) (d : Digest) (p : Result Digest × Receiver)
      → Verdict z config n closing sha256 wanted p
      → p.0 ≡ ok d
      → (content : List ℕ) × (p.1.finished ≡ some content) × (d ≡ sha256 content)
  finished-content n wanted closing d (ok x, r) (content, a, b, _) e =
      (content, a, (let same : x ≡ d = cc e in sym same ∙ b))
  finished-content n wanted closing d (err x, r) v e = cc
  finished-content n wanted closing d (panic, r) v e = cc

  trace :
      (n wanted : ℕ) (closing : Closing) (ours : Digest) (p : Result Digest × Receiver)
      (c c2 c3 : Conn) (m : Message) (x : FileChecksumMessage)
      → Verdict z config n closing sha256 wanted p
      → p.0 ≡ ok ours
      → SentOne (checksum_message transfer_id file_index ours) c c2
      → GotOne m c2 c3
      → m ≡ Message.file_checksum x
      → x.file_index ≡ file_index
      → x.checksum ≡ ours
      → Agreed c c3 p.1
  trace n wanted closing ours p c c2 c3 m x v e sent got is_checksum this same =
      let (content, there, hashed) = finished-content n wanted closing ours p v e in
      record {
        content = content;
        named = x;
        in_place = there;
        came = sym sent.still ∙ got.came ∙ ap (λ y. ok y ∷ c3.incoming) is_checksum;
        this_file = this;
        agreed = same ∙ hashed;
        told =
            got.silent
            ∙ sent.out
            ∙ ap (λ d. c.sent ++ (checksum_message transfer_id file_index d ∷ [])) hashed;
      }

  module _ (n wanted : ℕ) (arrivals : List (Result (List ℕ))) (closing : Closing)
      (leftover : List ℕ) (c c' : Conn) (r : Receiver) where
    -- Whatever arrives on the chunk streams and on the control stream, and however the calls on the file go: if `receive_single_file` reports
    -- success, the file under its final name has the checksum that the peer named for this very file,
    -- and that checksum was sent to the peer.
    pub receive_single_file-Agreed :
        receive_single_file z sha256 transfer_id file_index config n wanted arrivals
            (c, new_receiver closing config leftover)
          ≡ (ok tt, (c', r))
        → Agreed c c' r
    unfolding receive_single_file
    receive_single_file-Agreed e =
        let p =
          receive_file z config sha256 n wanted arrivals (new_receiver closing config leftover) in
        let (ours, (c1, r1), e1, k1) =
          and_then_inv
            (on_file (receive_file z config sha256 n wanted arrivals)
              (c, new_receiver closing config leftover))
            _ tt (c', r) e in
        let (_, (c2, r2), e2, k2) =
          and_then_inv
            (on_conn (send_message (checksum_message transfer_id file_index ours)) (c1, r1)) _ tt
            (c', r) k1 in
        let (m, (c3, r3), e3, k3) = and_then_inv (on_conn recv_message (c2, r2)) _ tt (c', r) k2 in
        let (x, e4, k4) = lift_inv (expect_checksum m) (c3, r3) _ tt (c', r) k3 in
        let (_, e5, k5) = lift_inv (same_index file_index x) (c3, r3) _ tt (c', r) k4 in
        ended ours c1 c2 c3 r1 r2 r3 m x e1 e2 e3 e4 e5 k5
      where
        ended :
            (ours : Digest) (c1 c2 c3 : Conn) (r1 r2 r3 : Receiver) (m : Message)
            (x : FileChecksumMessage)
            → on_file
                (receive_file z config sha256 n wanted arrivals)
                (c, new_receiver closing config leftover)
              ≡ (ok ours, (c1, r1))
            → on_conn (send_message (checksum_message transfer_id file_index ours)) (c1, r1)
              ≡ (ok tt, (c2, r2))
            → on_conn recv_message (c2, r2) ≡ (ok m, (c3, r3))
            → expect_checksum m ≡ ok x
            → same_index file_index x ≡ ok tt
            → ◌≡◌ {A = Result (Unit {0}) × (Conn × Receiver)}
                (same_checksum x.checksum ours, (c3, r3))
                (ok tt, (c', r))
            → Agreed c c' r
        ended ours c1 c2 c3 r1 r2 r3 m x e1 e2 e3 e4 e5 k5 =
            let (f1, g1) =
              on_file_inv (receive_file z config sha256 n wanted arrivals) c c1
                (new_receiver closing config leftover) r1 ours e1 in
            let (f2, g2) =
              on_conn_inv (send_message (checksum_message transfer_id file_index ours)) c1 c2 r1 r2
                tt e2 in
            let (f3, g3) = on_conn_inv recv_message c2 c3 r2 r3 m e3 in
            let base =
              trace n wanted closing ours (ok ours, r1) c1 c2 c3 m x
                (subst (Verdict z config n closing sha256 wanted) f1
                  (receive_file-Verdict z config n closing sha256 wanted arrivals leftover))
                refl (send_inv (checksum_message transfer_id file_index ours) c1 c2 f2)
                (recv_inv m c2 c3 f3) (expect_checksum_inv m x e4) (same_index_inv file_index x e5)
                (same_checksum_inv x.checksum ours (ap (λ y. y.0) k5)) in
            subst (λ y. Agreed y c' r) (sym g1)
              (subst (λ y. Agreed c1 y r) (ap (λ y. y.1.0) k5)
                (subst (Agreed c1 c3) (g2 ∙ g3 ∙ ap (λ y. y.1.1) k5) base))
