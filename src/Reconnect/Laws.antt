-- ===== src/Reconnect/Laws.antt =====
-- reconnect.rs: how often an operation is tried, and how long the waits are.
use p2pfile_transfer.Common.{
  ℕ, zero, suc, ◌+◌, ◌-◌, ◌*◌, ◌%◌, ◌^◌, ◌≤◌, ◌<◌, ◌≡◌, refl, ◌⊎◌, inl, inr, true, false, List, [],
  ◌∷◌, ◌++◌, arith, ◌==◌, Bool-cases, min, Option, some, none, length, length-append,
}
use native.Mathlib.Nat.{pow-suc, mod-eq_of_lt}
use p2pfile_transfer.Reconnect.{
  ReconnectConfig, Attempt, success, failure, Retried, backoff_delay, should_retry, retry_loop,
  retry_with_backoff,
}

-- With exponential backoff no delay exceeds the maximum, at any attempt number.
backoff_delay-le :
    (c : ReconnectConfig) (attempt : ℕ)
    → c.exponential ≡ true
    → backoff_delay c attempt ≤ c.max_backoff_secs
unfolding backoff_delay
backoff_delay-le c attempt e = ground arith

power_vanishes : (attempt : ℕ) → 2 ^ (64 + attempt) % 2 ^ 64 ≡ 0
power_vanishes zero = refl
power_vanishes (suc n) =
    let e : 64 + suc n ≡ suc (64 + n) = omega arith in
    rw e (omega (arith, power_vanishes n, pow-suc 2 (64 + n)))

-- From attempt 64 on the power of two is 0 modulo 2 ^ 64, so the wait vanishes instead of staying
-- at the maximum, whatever the initial delay.
pub backoff_delay_vanishes :
    (c : ReconnectConfig) (attempt : ℕ) → c.exponential ≡ true → backoff_delay c (64 + attempt) ≡ 0
unfolding backoff_delay
backoff_delay_vanishes c attempt e =
    rw (e, power_vanishes attempt)
      (let nothing : c.initial_backoff_secs * 0 % 2 ^ 64 ≡ 0 = omega arith in
        rw nothing (omega arith))

-- Without a wrap the delay is the doubled one, capped.
pub backoff_delay_exact :
    (c : ReconnectConfig) (attempt : ℕ)
    → c.exponential ≡ true
    → c.initial_backoff_secs * 2 ^ attempt < 2 ^ 64
    → 0 < c.initial_backoff_secs
    → backoff_delay c attempt ≡ min (c.initial_backoff_secs * 2 ^ attempt) c.max_backoff_secs
unfolding backoff_delay
backoff_delay_exact c attempt e h pos =
    let power : 2 ^ attempt < 2 ^ 64 = grind (arith, h, pos) in
    let plain : 2 ^ attempt % 2 ^ 64 ≡ 2 ^ attempt = mod-eq_of_lt power in
    let product : c.initial_backoff_secs * 2 ^ attempt % 2 ^ 64
        ≡ c.initial_backoff_secs * 2 ^ attempt =
      mod-eq_of_lt h in
    rw (e, plain, product)

module _ {A E : Type 0} where
  Attempt-cases : (r : Attempt A E) → ((a : A) × (r ≡ success a)) ⊎ ((e : E) × (r ≡ failure e))
  Attempt-cases (success a) = inl (a, refl)
  Attempt-cases (failure e) = inr (e, refl)

  abbrev pub IsFailure : Attempt A E → Type 0
  IsFailure (success a) = ⊥
  IsFailure (failure e) = Unit {0}

  -- What a bounded retry comes to: it stops at the first success, and gives up only after `limit`
  -- calls; it sleeps once between two calls.
  pub record IsRetried (operation : ℕ → Attempt A E) (limit : ℕ) (r : Retried A E) : Type 0 where
    pub some_call : 0 < r.calls
    pub bounded : r.calls ≤ limit
    pub last : r.result ≡ operation (r.calls - 1)
    pub earlier : (i : ℕ) → i + 1 < r.calls → IsFailure (operation i)
    pub exhausted : IsFailure r.result → r.calls ≡ limit
    pub waits : length r.slept + 1 ≡ r.calls

  module _ (c : ReconnectConfig) (operation : ℕ → Attempt A E) (limit : ℕ)
      (limited : c.max_attempts ≡ limit) (small : limit < 2 ^ 32) where
    abbrev Returns : Option (Retried A E) → Type 0
    Returns none = ⊥
    Returns (some r) = IsRetried operation limit r

    retry_loop-Returns :
        (fuel attempt : ℕ) (slept : List ℕ)
        → attempt + fuel ≡ limit
        → 0 < fuel
        → length slept ≡ attempt
        → ((i : ℕ) → i < attempt → IsFailure (operation i))
        → Returns (retry_loop c operation fuel attempt slept)
    unfolding retry_loop
    retry_loop-Returns zero attempt slept e pos l before = absurd (omega arith)
    retry_loop-Returns (suc fuel) attempt slept e pos l before =
        elim (Attempt-cases (operation attempt)) [
          | inl (a, h) ↦ rw (h, retry_loop) (ended (success a) h (λ f. absurd f))
          | inr (x, h) ↦
              rw (h, retry_loop)
                (elim (Bool-cases (should_retry c attempt)) [
                  | inl more ↦
                      rw (more, plain)
                        (retry_loop-Returns fuel (attempt + 1)
                          (slept ++ (backoff_delay c attempt ∷ [])) (omega arith) (going more)
                          longer (λ i k. failed x h i k))
                  | inr stop ↦ rw stop (ended (failure x) h (λ _. over stop))
                ])
        ]
      where
        plain : (attempt + 1) % 2 ^ 32 ≡ attempt + 1
        plain = omega arith

        going : should_retry c attempt ≡ true → 0 < fuel
        going more = unfold should_retry in ground (arith, limited, plain)

        over : should_retry c attempt ≡ false → attempt + 1 ≡ limit
        over stop = unfold should_retry in ground (arith, limited, plain)

        longer : length (slept ++ (backoff_delay c attempt ∷ [])) ≡ attempt + 1
        longer = omega (arith, length-append slept (backoff_delay c attempt ∷ []))

        failed :
            (x : E)
            → operation attempt ≡ failure x
            → (i : ℕ) → i < attempt + 1
            → IsFailure (operation i)
        failed x h i k = elim (Bool-cases (i == attempt)) [
          | inl same ↦ let s : i ≡ attempt = ground (arith, same) in rw (s, h) tt
          | inr other ↦ before i (ground (arith, other))
        ]

        ended :
            (r : Attempt A E)
            → operation attempt ≡ r
            → (IsFailure r → attempt + 1 ≡ limit)
            → IsRetried operation limit (record { result = r; calls = attempt + 1; slept = slept })
        ended r h full = record {
          some_call = omega arith;
          bounded = omega arith;
          last = let back : attempt + 1 - 1 ≡ attempt = omega arith in rw (back, h);
          earlier = λ i k. before i (omega arith);
          exhausted = full;
          waits = omega arith;
        }

    extract :
        (o : Option (Retried A E))
        → Returns o
        → (r : Retried A E) × (o ≡ some r) × IsRetried operation limit r
    extract none h = absurd h
    extract (some r) h = (r, refl, h)

    -- With a positive limit below 2 ^ 32, fuel for `limit` rounds suffices: the operation is called
    -- at most `limit` times (so `limit - 1` retries, not `limit`), the result is that of the last
    -- call, every call before it failed, a failure is returned only after exactly `limit` calls,
    -- and there is one wait between two calls.
    pub retry_with_backoff-IsRetried :
        0 < limit
        → (r : Retried A E) × (retry_with_backoff c operation limit ≡ some r)
          × IsRetried operation limit r
    unfolding retry_with_backoff
    retry_with_backoff-IsRetried pos =
        extract (retry_loop c operation limit 0 [])
          (retry_loop-Returns limit 0 [] (omega arith) pos refl (λ i k. absurd (omega arith)))
