-- ===== src/Bandwidth.antt =====
-- p2p-core/src/bandwidth.rs: the token bucket that slows a sender down. The f64 operations are a parameter, the
-- clock a function of the round; the parser and the printer of rates are left out. One task at a
-- time waits.
pub mod Starving
pub mod Runs
use p2pfile_transfer.Common.{
  ℕ, zero, suc, ◌+◌, ◌*◌, ◌-◌, ◌%◌, ◌^◌, Bool, true, false, Option, none, some, ltb, if◌then◌else◌,
}

abbrev pub Instant : Type 0
Instant = ℕ

-- The operations on f64 that the bucket uses.
pub record F64 : Type 1 where
  pub Float : Type 0
  pub of_ℕ : ℕ → Float
  pub as_secs : ℕ → Float
  pub plus : Float → Float → Float
  pub times : Float → Float → Float
  pub minus : Float → Float → Float
  pub minimum : Float → Float → Float
  pub at_least : Float → Float → Bool

module _ (f : F64) where
  pub record TokenBucket : Type 0 where
    pub tokens : f.Float
    pub capacity : f.Float
    pub refill_rate : f.Float
    pub last_refill : Instant

  pub record BandwidthLimiter : Type 0 where
    pub max_bytes_per_sec : ℕ
    pub bucket : TokenBucket

  -- A burst of two seconds; the product is on u64.
  unfoldable pub capacity_of : ℕ → f.Float
  capacity_of max_bytes_per_sec =
      if ltb 0 max_bytes_per_sec then f.of_ℕ (max_bytes_per_sec * 2 % 2 ^ 64) else f.of_ℕ 0

  unfoldable pub new_limiter : ℕ → Instant → BandwidthLimiter
  new_limiter max_bytes_per_sec now = record {
    max_bytes_per_sec = max_bytes_per_sec;
    bucket = record {
      tokens = capacity_of max_bytes_per_sec;
      capacity = capacity_of max_bytes_per_sec;
      refill_rate = f.of_ℕ max_bytes_per_sec;
      last_refill = now;
    };
  }

  abbrev pub unlimited : Instant → BandwidthLimiter
  unlimited now = new_limiter 0 now

  unfoldable pub is_enabled : BandwidthLimiter → Bool
  is_enabled l = ltb 0 l.max_bytes_per_sec

  unfoldable pub refill : Instant → TokenBucket → TokenBucket
  refill now b = record b {
    tokens =
        f.minimum (f.plus b.tokens (f.times (f.as_secs (now - b.last_refill)) b.refill_rate))
          b.capacity;
    last_refill = now;
  }

  -- The loop, which reads the clock in each round; the wait for the next round is a later time.
  -- `none`: the fuel ran out.
  unfoldable pub wait_loop : (ℕ → Instant) → ℕ → ℕ → f.Float → TokenBucket → Option TokenBucket
  wait_loop clock zero round bytes b = none
  wait_loop clock (suc fuel) round bytes b =
      let refilled = refill (clock round) b in
      let waited = wait_loop clock fuel (round + 1) bytes refilled in
      if f.at_least refilled.tokens bytes
      then some (record refilled { tokens = f.minus refilled.tokens bytes })
      else waited

  taken : BandwidthLimiter → Option TokenBucket → Option BandwidthLimiter
  taken l none = none
  taken l (some b) = some (record l { bucket = b })

  unfoldable pub wait_for_tokens :
      (ℕ → Instant) → ℕ → ℕ → BandwidthLimiter → Option BandwidthLimiter
  unfolding taken
  wait_for_tokens clock fuel bytes l =
      if is_enabled l then taken l (wait_loop clock fuel 0 (f.of_ℕ bytes) l.bucket) else some l
