-- ===== src/KnownPeers/Runs.antt =====
-- known_peers.rs: the theorem at a concrete input. The codec knows stores of one unnamed peer.
use Prim.Native.String.{String}
use p2pfile_transfer.Common.{ℕ, zero, suc, ◌≡◌, refl, List, [], ◌∷◌, Option, none, some, bytes_eq}
use p2pfile_transfer.Common.Maps.{bytes_key, get, insert, remove}
use p2pfile_transfer.Files.{touch, attempt, replace_file, open_truncated, write_all, rename}
use p2pfile_transfer.KnownPeers.{
  PeerRecord, Store, SameStore, Encoding, KnownPeers, tmp_path, named, seen, get_peer, flush, trust,
  verify_or_pin,
}
use p2pfile_transfer.KnownPeers.Trust.{Verified, verify_or_pin-Verified}

abbrev peer : String → ℕ → ℕ → PeerRecord
peer name first last = record { display_name = name; first_seen = first; last_seen = last }

abbrev entry : List ℕ → String → ℕ → ℕ → Option (List ℕ)
entry (k ∷ []) String.[] first last = some (1 ∷ k ∷ first ∷ last ∷ [])
entry _ _ _ _ = none

abbrev to_bytes : Store → Option (List ℕ)
to_bytes [] = some (0 ∷ [])
to_bytes ((k, r) ∷ []) = entry k r.display_name r.first_seen r.last_seen
to_bytes _ = none

abbrev of_bytes : List ℕ → Option Store
of_bytes (zero ∷ []) = some []
of_bytes (suc zero ∷ k ∷ first ∷ last ∷ []) = some ((k ∷ [], peer "" first last) ∷ [])
of_bytes _ = none

entry_inv :
    (k : List ℕ) (name : String) (first last : ℕ) (bytes : List ℕ)
    → entry k name first last ≡ some bytes
    → of_bytes bytes ≡ some ((k, peer name first last) ∷ [])
entry_inv (k ∷ []) String.[] first last bytes e =
    let same : 1 ∷ k ∷ first ∷ last ∷ [] ≡ bytes = cc in rw (← same)
entry_inv _ _ _ _ bytes e = cc

of_bytes-to_bytes :
    (s : Store) (bytes : List ℕ)
    → to_bytes s ≡ some bytes
    → (t : Store) × (of_bytes bytes ≡ some t) × SameStore t s
of_bytes-to_bytes [] bytes e = let same : 0 ∷ [] ≡ bytes = cc in ([], rw (← same), λ k. refl)
of_bytes-to_bytes ((k, r) ∷ []) bytes e =
    ((k, r) ∷ [], entry_inv k r.display_name r.first_seen r.last_seen bytes e, λ k. refl)
of_bytes-to_bytes (_ ∷ _ ∷ _) bytes e = cc

abbrev encoding : Encoding
encoding = record {
  to_vec = to_bytes;
  from_slice = of_bytes;
  encode = λ fp. fp;
  from_slice-to_vec = of_bytes-to_bytes;
  encode_inj = λ a b e. e;
}

-- A peer that was met at 3 and is met again at 8.
abbrev before : KnownPeers
before = record {
  path = 107 ∷ [];
  state = (7 ∷ [], peer "" 3 3) ∷ [];
  files = record { contents = []; faults = [] };
}

met_again :
    get_peer encoding (7 ∷ []) (verify_or_pin encoding (7 ∷ []) (7 ∷ []) "" 8 before).1
    ≡ some (peer "" 3 8)
unfolding get_peer verify_or_pin trust flush get insert remove bytes_eq seen named tmp_path touch
    attempt replace_file open_truncated write_all rename
met_again = refl

verify_or_pin-Verified_example :
    Verified encoding
      (7 ∷ [])
      (7 ∷ [])
      ""
      8
      before
      (verify_or_pin encoding (7 ∷ []) (7 ∷ []) "" 8 before)
verify_or_pin-Verified_example = verify_or_pin-Verified encoding (7 ∷ []) (7 ∷ []) "" 8 before
