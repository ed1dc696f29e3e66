-- ===== src/Net/Timeout.antt =====
-- `Timeout` of src/net/utils.rs. The clock `time::precise_time_ns` is an argument of the calls that
-- read it. A `u64` sum wraps.
use arrow_client.Base.{
  ℕ, ◌+◌, ◌*◌, ◌%◌, ◌^◌, ◌≤◌, ◌<◌, ◌≡◌, Bool, true, false, Option, none, some, leb, arith,
}

pub record Timeout : Type 0 where
  pub timeout : Option ℕ

unfoldable pub new : Timeout
new = record { timeout = none }

unfoldable pub clear : Timeout → Timeout
clear t = record t { timeout = none }

unfoldable pub set : ℕ → ℕ → Timeout → Timeout
set now delay_ms t = record t { timeout = some ((now + delay_ms * 1_000_000 % 2 ^ 64) % 2 ^ 64) }

unfoldable pub check : ℕ → Timeout → Bool
check now t = elim t.timeout [ none ↦ true | some deadline ↦ leb now deadline ]

-- A timeout that was set at `now`, with a deadline that fits a `u64`, passes a check at `later`
-- exactly when at most `delay_ms` milliseconds have gone by; a cleared one passes every check.
pub check-set :
    (now delay_ms later : ℕ) (t : Timeout)
    → now + delay_ms * 1_000_000 < 2 ^ 64
    → (check later (set now delay_ms t) ≡ leb later (now + delay_ms * 1_000_000))
      × (check later (clear t) ≡ true)
unfolding check set clear
check-set now delay_ms later t h = ground arith

-- Once a check has failed, every later check fails until the timeout is set or cleared.
pub check_expired :
    (t : Timeout) (now later : ℕ) → now ≤ later → check now t ≡ false → check later t ≡ false
unfolding check
check_expired t now later h e = ground arith
