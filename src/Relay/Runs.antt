-- ===== src/Relay/Runs.antt =====
-- relay.rs: a run of the relay, and the theorems at concrete inputs.
use p2pfile_transfer.Common.{
  ℕ, ◌+◌, ◌-◌, ◌*◌, ◌/◌, min, ltb, ◌⊎◌, ◌%◌, ◌^◌, ◌≡◌, refl, inl, List, [], ◌∷◌, some, none,
  replicate, bytes_eq, arith,
}
use p2pfile_transfer.Common.Maps.{number_key, bytes_key, get, insert, remove}
use p2pfile_transfer.RelayHello.{RelayHello, encode, try_decode}
use p2pfile_transfer.Relay.{
  RelayState, F64, ForwardLoop, forward_step, empty_relay, reserve, assign_slot, partner, forward,
  join, route,
}
use p2pfile_transfer.Relay.Sessions.{WellFormed}
use p2pfile_transfer.Relay.Limit.{Over, forward_step-delivers}
use p2pfile_transfer.Relay.Traffic.{
  Reaches, start, reserved, received, Paired, Reaches-WellFormed, route_forwards,
}

abbrev packet : List ℕ
packet = 1 ∷ 2 ∷ 3 ∷ []

abbrev token : List ℕ
token = replicate 16 7

abbrev alice : RelayHello
alice = record { token = token; fingerprint = replicate 32 1 }

abbrev bob : RelayHello
bob = record { token = token; fingerprint = replicate 32 2 }

-- Alice joins from address 10, Bob from 20.
abbrev waiting : RelayState
waiting = record {
  sessions =
      (
        token,
        record {
          peer_a = none;
          peer_b = none;
          created_at = 5;
          last_active = 5;
          peer_a_expected_fp = alice.fingerprint;
          peer_b_expected_fp = bob.fingerprint;
        },
      )
      ∷ [];
  addr_to_token = [];
  bytes_forwarded = 0;
}

abbrev ready : RelayState
ready = (route (encode bob) 20 7 (route (encode alice) 10 6 waiting).1).1

fresh : get empty_relay.sessions token ≡ none
unfolding get
fresh = refl

made : reserve token alice.fingerprint bob.fingerprint 5 empty_relay ≡ some waiting
unfolding reserve insert remove bytes_eq
made = refl

waiting-Reaches : Reaches waiting
waiting-Reaches =
    reserved {s = empty_relay} token alice.fingerprint bob.fingerprint 5 fresh made start

ready-Reaches : Reaches ready
ready-Reaches = received (encode bob) 20 7 (received (encode alice) 10 6 waiting-Reaches)

Reaches-WellFormed_example : WellFormed ready
Reaches-WellFormed_example = Reaches-WellFormed ready ready-Reaches

paired : Paired ready 10 20
unfolding get insert remove route join assign_slot try_decode encode bytes_eq
paired = record {
  token = token;
  session = record {
    peer_a = some (record { addr = 10; fingerprint = alice.fingerprint });
    peer_b = some (record { addr = 20; fingerprint = bob.fingerprint });
    created_at = 5;
    last_active = 7;
    peer_a_expected_fp = alice.fingerprint;
    peer_b_expected_fp = bob.fingerprint;
  };
  a = record { addr = 10; fingerprint = alice.fingerprint };
  b = record { addr = 20; fingerprint = bob.fingerprint };
  in_table = refl;
  slot_a = refl;
  slot_b = refl;
  presents_a = refl;
  presents_b = refl;
  differ = λ e. (let first : ◌≡◌ {A = ℕ} 1 2 = cc in omega (arith, first));
  ends = inl (refl, refl);
}

-- Whole numbers for the floats.
abbrev whole : F64
whole = record {
  Float = ℕ;
  of_ℕ = λ n. n;
  as_secs = λ n. n;
  half = λ x. x / 2;
  plus = λ x y. x + y;
  times = λ x y. x * y;
  minus = λ x y. x - y;
  minimum = λ x y. min x y;
  greater = λ x y. ltb y x;
}

abbrev capped : ForwardLoop whole 100
capped = record { relay = ready; bucket_tokens = 0; bucket_last = 7 }

forward_step-delivers_example :
    let (sending, l') = forward_step whole 100 packet 10 8 9 capped in
    (Over whole 100 packet 8 capped × (sending ≡ none) × (l'.relay ≡ capped.relay))
    ⊎ (¬ Over whole 100 packet 8 capped × (sending ≡ some (20, packet)))
forward_step-delivers_example =
    forward_step-delivers whole 100 packet 10 20 8 9 capped ready-Reaches paired

abbrev later : RelayState
later = (route packet 10 8 ready).1

sent : route packet 10 8 ready ≡ (some (20, packet), later)
unfolding get insert remove route forward partner join assign_slot try_decode encode bytes_eq
sent = refl

route_forwards_example :
    (packet ≡ packet)
    × Paired ready 10 20
    × (later.bytes_forwarded ≡ (ready.bytes_forwarded + 3) % 2 ^ 64)
route_forwards_example = route_forwards ready packet 10 8 20 packet later ready-Reaches sent
