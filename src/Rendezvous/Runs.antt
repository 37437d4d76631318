-- ===== src/Rendezvous/Runs.antt =====
-- server.rs: the theorems at concrete inputs.
use p2pfile_transfer.Stun.{v4}
use p2pfile_transfer.Common.{
  ap, get_elem?, ℕ, zero, suc, ◌≡◌, refl, true, false, [], ◌∷◌, some, none, All, arith, replicate,
}
use p2pfile_transfer.Rendezvous.{
  SocketAddr, RegisterRequest, Message, Server, on_frame, on_register, resume, is_valid_code,
}
use p2pfile_transfer.Rendezvous.Pairing.{History, Registered, MessageOk}
use p2pfile_transfer.Rendezvous.Meeting.{
  started, Reaches, start, registered, entered, resumed, sent-MessageOk,
}
use p2pfile_transfer.Rendezvous.Match.{about, both_matched}

abbrev pub addr : ℕ → SocketAddr
addr ip = record { ip = v4 (ip ∷ []); port = 5678 }

-- Bob lies about his address.
abbrev pub request : ℕ → RegisterRequest
request device_id = record {
  protocol_version = 1;
  code = 65 ∷ 66 ∷ 67 ∷ 49 ∷ [];
  public_endpoint = addr 99;
  cert_fingerprint = replicate 32 device_id;
  device_id = device_id;
  want_relay = false;
}

code_valid : is_valid_code (65 ∷ 66 ∷ 67 ∷ 49 ∷ []) ≡ true
unfolding is_valid_code
code_valid = refl

abbrev pub finished : Server
finished = resume 1 40 true (
    on_frame 2 (addr 20) (some (Message.register (request 8))) [] 30 true (
      on_register 1 20
        (on_frame 1 (addr 10) (some (Message.register (request 7))) [] 10 true (started 300 none))))

both_matched_example : finished ≡ record (started 300 none) {
  sent = (1, about (addr 20) (request 8)) ∷ (2, about (addr 10) (request 7)) ∷ [];
}
both_matched_example =
    both_matched 300 none 1 2 (addr 10) (addr 20) (request 7) (request 8) [] [] 10 20 30 40 true
      refl refl code_valid refl (omega arith) refl refl

-- What the first peer is told.
pub first_told : get_elem? finished.sent 0 ≡ some (1, about (addr 20) (request 8))
first_told =
    ap (λ s. get_elem? s.sent 0)
      (both_matched 300 none 1 2 (addr 10) (addr 20) (request 7) (request 8) [] [] 10 20 30 40 true
        refl refl code_valid refl (omega arith) refl refl)

abbrev pub history : History
history = (2, addr 20, request 8) ∷ (1, addr 10, request 7) ∷ []

new_first : (r : RegisterRequest) → Registered [] 1 r → ⊥
new_first r (i, peer, raw, at, same) = let never : ⊥ = cc at in never

new_second : (r : RegisterRequest) → Registered ((1, addr 10, request 7) ∷ []) 2 r → ⊥
new_second r (zero, peer, raw, at, same) = let e : ◌≡◌ {A = ℕ} 1 2 = cc at in omega (arith, e)
new_second r (suc i, peer, raw, at, same) = let never : ⊥ = cc at in never

pub finished-Reaches : Reaches history finished
finished-Reaches = resumed 1 40 true (
    registered 2 (addr 20) (request 8) [] 30 true new_second
      (entered 1 20 (registered 1 (addr 10) (request 7) [] 10 true new_first (start 300 none))))

sent-MessageOk_example : All (λ m. MessageOk history m.0 m.1) finished.sent
sent-MessageOk_example = sent-MessageOk history finished finished-Reaches
