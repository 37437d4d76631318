-- ===== src/RelayHello.antt =====
-- p2p-rendezvous/src/relay.rs: the hello packet, `RelayHello`. Tokens and fingerprints are byte lists.
use p2pfile_transfer.Common.{
  ℕ, suc, ◌+◌, ◌≤◌, ◌≡◌, false, List, [], ◌∷◌, ◌++◌, Option, none, some, ltb, ◌==◌, ◌||◌, not,
  bytes_eq, bytes_eq_refl, if◌then◌else◌, length, length-append, take, drop, take_front, drop_front,
  arith,
}
use mathlib.Core.List.{append_assoc}

-- b"P2RZ"
abbrev pub relay_hello_magic : List ℕ
relay_hello_magic = 80 ∷ 50 ∷ 82 ∷ 90 ∷ []

abbrev pub session_token_len : ℕ
session_token_len = 16

abbrev pub fingerprint_len : ℕ
fingerprint_len = 32

pub record RelayHello : Type 0 where
  pub token : List ℕ
  pub fingerprint : List ℕ

unfoldable pub encode : RelayHello → List ℕ
encode hello =
    relay_hello_magic
    ++ (1 ∷ 0 ∷ session_token_len ∷ fingerprint_len ∷ (hello.token ++ hello.fingerprint))

byte_at : ℕ → List ℕ → ℕ
byte_at i [] = 0
byte_at ℕ.zero (b ∷ bs) = b
byte_at (suc i) (b ∷ bs) = byte_at i bs

unfoldable pub try_decode : List ℕ → Option RelayHello
unfolding byte_at
try_decode bytes =
    if ltb (length bytes) 8 || not (bytes_eq (take 4 bytes) relay_hello_magic)
    then none
    else if not (byte_at 4 bytes == 1)
    then none
    else if not (byte_at 6 bytes == session_token_len) || not (byte_at 7 bytes == fingerprint_len)
    then none
    else if ltb (length bytes) (8 + session_token_len + fingerprint_len)
    then none
    else some (record {
      token = take session_token_len (drop 8 bytes);
      fingerprint = take fingerprint_len (drop (8 + session_token_len) bytes);
    })

module _ (hello : RelayHello) (sixteen : length hello.token ≡ 16)
    (full : length hello.fingerprint ≡ 32) where
  -- A hello with a token of 16 bytes and a fingerprint of 32 is decoded as it was encoded, also when
  -- further bytes follow it in the datagram.
  try_decode-encode : (rest : List ℕ) → try_decode (encode hello ++ rest) ≡ some hello
  unfolding try_decode encode
  try_decode-encode rest = rw (
    append_assoc hello.token hello.fingerprint rest,
    long 8 (omega arith),
    long 56 (omega arith),
    bytes_eq_refl relay_hello_magic,
    take_front hello.token sixteen (hello.fingerprint ++ rest),
    drop_front hello.token sixteen (hello.fingerprint ++ rest),
    take_front hello.fingerprint full rest,
  )
    where
      size : ℕ
      size = length (hello.token ++ (hello.fingerprint ++ rest))

      long : (n : ℕ) → n ≤ 56 → ltb (suc (suc (suc (suc (suc (suc (suc (suc size)))))))) n ≡ false
      long n h = ground (
        arith,
        length-append hello.token (hello.fingerprint ++ rest),
        length-append hello.fingerprint rest,
        sixteen,
        full,
      )
