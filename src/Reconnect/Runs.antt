-- ===== src/Reconnect/Runs.antt =====
-- reconnect.rs: the theorems at concrete inputs.
use p2pfile_transfer.Common.{ℕ, zero, suc, ◌+◌, ◌≡◌, refl, arith, some}
use p2pfile_transfer.Errors.{Error, quic}
use p2pfile_transfer.Reconnect.{
  Attempt, success, failure, Retried, backoff_delay, retry_with_backoff, with_max_attempts,
  unlimited,
}
use p2pfile_transfer.Reconnect.Laws.{
  IsRetried, backoff_delay_vanishes, retry_with_backoff-IsRetried,
}

backoff_delay_vanishes_example : backoff_delay unlimited (64 + 3) ≡ 0
backoff_delay_vanishes_example = backoff_delay_vanishes unlimited 3 refl

-- Two refusals, then an answer.
abbrev operation : ℕ → Attempt ℕ Error
operation zero = failure quic
operation (suc zero) = failure quic
operation (suc (suc n)) = success 42

retry_with_backoff-IsRetried_example :
    (r : Retried ℕ Error) × (retry_with_backoff (with_max_attempts 3) operation 3 ≡ some r)
    × IsRetried operation 3 r
retry_with_backoff-IsRetried_example =
    retry_with_backoff-IsRetried (with_max_attempts 3) operation 3 refl (omega arith) (omega arith)
