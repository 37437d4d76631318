-- ===== src/Errors.antt =====
-- p2p-core/src/error.rs: the error type, which errors are worth a reconnect or a retry, and the
-- outcome of a fallible call. The texts that errors carry for display are left out.
use p2pfile_transfer.Common.{ℕ, Bool, true, false, ◌≡◌, refl}

pub data Error : Type 0 where
  network protocol compression decompression verification file_system config : Error
  version_mismatch : ℕ → ℕ → Error
  serialization deserialization disconnected timeout cancelled transfer_not_found : Error
  invalid_chunk unsupported_capability quic tls rendezvous hole_punch_failed : Error
  fingerprint_mismatch other : Error

-- Transient: the caller should reconnect.
unfoldable pub is_recoverable : Error → Bool
is_recoverable network = true
is_recoverable timeout = true
is_recoverable disconnected = true
is_recoverable quic = true
is_recoverable hole_punch_failed = true
is_recoverable _ = false

-- Worth a retry of the same operation.
unfoldable pub should_retry : Error → Bool
should_retry network = true
should_retry timeout = true
should_retry invalid_chunk = true
should_retry quic = true
should_retry _ = false

-- `panic` is a Rust panic, such as a division by zero or a failed `expect`.
pub data Result {ℓ} (A : Type ℓ) : Type ℓ where
  ok : A → Result A
  err : Error → Result A
  panic : Result A

-- The `?` operator: a failure or a panic skips what follows.
infixl 5 ◌>>=◌
abbrev pub ◌>>=◌ {ℓ κ} : {A : Type ℓ} {B : Type κ} → Result A → (A → Result B) → Result B
panic >>= next = panic
err e >>= next = err e
ok value >>= next = next value

module _ {ℓ κ} {A : Type ℓ} {B : Type κ} where
  pub bind_inv :
      (r : Result A) (f : A → Result B) (b : B)
      → (r >>= f) ≡ ok b
      → (a : A) × (r ≡ ok a) × (f a ≡ ok b)
  bind_inv (ok a) f b e = (a, refl, e)
  bind_inv (err x) f b e = cc
  bind_inv panic f b e = cc
