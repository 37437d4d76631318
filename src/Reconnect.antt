-- ===== src/Reconnect.antt =====
-- p2p-core/src/reconnect.rs: backoff delays, the retry limit and the retry loop.
pub mod Laws
pub mod Runs
use p2pfile_transfer.Common.{
  ℕ, zero, suc, ◌+◌, ◌*◌, ◌%◌, ◌^◌, Bool, true, false, List, [], ◌∷◌, ◌++◌, ltb, ◌==◌, ◌||◌,
  if◌then◌else◌, min, Option, none, some,
}

pub record ReconnectConfig : Type 0 where
  pub max_attempts : ℕ
  pub initial_backoff_secs : ℕ
  pub max_backoff_secs : ℕ
  pub exponential : Bool

abbrev pub default : ReconnectConfig
default = record {
  max_attempts = 5;
  initial_backoff_secs = 3;
  max_backoff_secs = 180;
  exponential = true;
}

abbrev pub unlimited : ReconnectConfig
unlimited = record default { max_attempts = 0 }

abbrev pub with_max_attempts : ℕ → ReconnectConfig
with_max_attempts max_attempts = record default { max_attempts = max_attempts }

-- In seconds. `2u64.pow(attempt)` and the product wrap, as in a release build.
unfoldable pub backoff_delay : ReconnectConfig → ℕ → ℕ
backoff_delay c attempt =
    if c.exponential
    then min (c.initial_backoff_secs * (2 ^ attempt % 2 ^ 64) % 2 ^ 64) c.max_backoff_secs
    else c.initial_backoff_secs

-- The sum is on u32.
unfoldable pub should_retry : ReconnectConfig → ℕ → Bool
should_retry c attempt = c.max_attempts == 0 || ltb ((attempt + 1) % 2 ^ 32) c.max_attempts

-- How a call of the operation ended.
pub data Attempt (A E : Type 0) : Type 0 where
  success : A → Attempt A E
  failure : E → Attempt A E

-- What `retry_with_backoff` came to: its result, the number of calls, and the delays slept through.
pub record Retried (A E : Type 0) : Type 0 where
  pub result : Attempt A E
  pub calls : ℕ
  pub slept : List ℕ

-- The operation's outcome on each call is given by the call's number. `none`: the fuel ran out.
unfoldable pub retry_loop :
    {A E : Type 0} → ReconnectConfig → (ℕ → Attempt A E) → ℕ → ℕ → List ℕ → Option (Retried A E)
retry_loop c operation zero attempt slept = none
retry_loop c operation (suc fuel) attempt slept = elim (operation attempt) [
  | success a ↦ some (record { result = success a; calls = attempt + 1; slept = slept })
  | failure e ↦
      let again =
        retry_loop c operation fuel ((attempt + 1) % 2 ^ 32)
          (slept ++ (backoff_delay c attempt ∷ [])) in
      if should_retry c attempt
      then again
      else some (record { result = failure e; calls = attempt + 1; slept = slept })
]

unfoldable pub retry_with_backoff :
    {A E : Type 0} → ReconnectConfig → (ℕ → Attempt A E) → ℕ → Option (Retried A E)
retry_with_backoff c operation fuel = retry_loop c operation fuel 0 []
