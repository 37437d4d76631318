-- ===== src/Bandwidth/Starving.antt =====
-- bandwidth.rs: which requests the bucket can ever grant.
use p2pfile_transfer.Common.{
  ℕ, zero, suc, ◌+◌, ◌*◌, ◌%◌, ◌^◌, ◌<◌, ◌≡◌, refl, ap, Bool, true, false, none, ltb, arith,
}
use p2pfile_transfer.Bandwidth.{
  Instant, F64, TokenBucket, BandwidthLimiter, capacity_of, new_limiter, is_enabled, refill,
  wait_loop, taken, wait_for_tokens,
}

module _ (f : F64) (less : f.Float → f.Float → Bool)
    (below : (x c b : f.Float) → less c b ≡ true → f.at_least (f.minimum x c) b ≡ false) where
  wait_loop_starves :
      (clock : ℕ → Instant) (fuel round : ℕ) (bytes : f.Float) (b : TokenBucket f)
      → less b.capacity bytes ≡ true
      → wait_loop f clock fuel round bytes b ≡ none
  unfolding wait_loop refill
  wait_loop_starves clock zero round bytes b small = refl
  wait_loop_starves clock (suc fuel) round bytes b small =
      rw (below _ b.capacity bytes small)
        (wait_loop_starves clock fuel (round + 1) bytes (refill f (clock round) b) small)

  enabled_starves :
      (clock : ℕ → Instant) (fuel bytes : ℕ) (l : BandwidthLimiter f)
      → is_enabled f l ≡ true
      → less l.bucket.capacity (f.of_ℕ bytes) ≡ true
      → wait_for_tokens f clock fuel bytes l ≡ none
  unfolding wait_for_tokens taken
  enabled_starves clock fuel bytes l on small =
      rw on (ap (taken f l) (wait_loop_starves clock fuel 0 (f.of_ℕ bytes) l.bucket small))

  -- A request for more bytes than the limiter's capacity, which is two seconds' worth, is never
  -- granted, however often the bucket is refilled: whatever the clock shows, no number of rounds of
  -- the loop is enough. `less` is `<` on f64; the hypothesis on it says that where c < b, and so
  -- neither is NaN, the minimum of c and any float, NaN included, is not at least b.
  pub wait_for_tokens_starves :
      (limit : ℕ) (now : Instant) (bytes : ℕ)
      → 0 < limit
      → less (f.of_ℕ (limit * 2 % 2 ^ 64)) (f.of_ℕ bytes) ≡ true
      → (clock : ℕ → Instant) (fuel : ℕ)
      → wait_for_tokens f clock fuel bytes (new_limiter f limit now) ≡ none
  unfolding new_limiter capacity_of is_enabled
  wait_for_tokens_starves limit now bytes some_limit small clock fuel =
      let on : ltb 0 limit ≡ true = ground (arith, some_limit) in
      enabled_starves clock fuel bytes (new_limiter f limit now) on (rw on small)
