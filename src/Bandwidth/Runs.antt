-- ===== src/Bandwidth/Runs.antt =====
-- bandwidth.rs: a limiter of 100 KB in a second, and a chunk of the default size, with whole numbers for
-- the floats.
use p2pfile_transfer.Common.{
  ℕ, ◌+◌, ◌*◌, ◌-◌, ◌≡◌, refl, true, false, none, some, min, leb, ltb, arith,
}
use p2pfile_transfer.Bandwidth.{
  F64, new_limiter, wait_for_tokens, wait_loop, refill, capacity_of, is_enabled,
}
use p2pfile_transfer.Bandwidth.Starving.{wait_for_tokens_starves}

abbrev whole : F64
whole = record {
  Float = ℕ;
  of_ℕ = λ n. n;
  as_secs = λ n. n;
  plus = λ x y. x + y;
  times = λ x y. x * y;
  minus = λ x y. x - y;
  minimum = λ x y. min x y;
  at_least = λ x y. leb y x;
}

below_min : (x c b : ℕ) → ltb c b ≡ true → leb b (min x c) ≡ false
below_min x c b e = ground (arith, e)

-- A request within the burst is granted at once.
burst_granted :
    wait_for_tokens whole (λ round. 4 + round) 2 150 (new_limiter whole 100 3)
    ≡ some (record {
      max_bytes_per_sec = 100;
      bucket = record { tokens = 50; capacity = 200; refill_rate = 100; last_refill = 4 };
    })
unfolding wait_for_tokens wait_loop refill new_limiter capacity_of is_enabled
burst_granted = refl

wait_for_tokens_starves_example :
    wait_for_tokens whole (λ round. 3 + round) 60 (1024 * 1024) (new_limiter whole (100 * 1024) 3)
    ≡ none
wait_for_tokens_starves_example =
    wait_for_tokens_starves whole (λ c b. ltb c b) below_min (100 * 1024) 3 (1024 * 1024)
      (omega arith) refl (λ round. 3 + round) 60
