-- ===== src/Commands/Seconds.antt =====
-- Times in seconds, `f64`, as far as src/main.rs computes with them. The operations of floating
-- point numbers are arguments.
use arrow_client.Base.{ℕ, Bool}

pub record Float : Type 1 where
  pub F64 : Type 0
  pub of_nat : ℕ → F64
  pub half : F64
  pub add : F64 → F64 → F64
  pub sub : F64 → F64 → F64
  pub lt : F64 → F64 → Bool
  pub le : F64 → F64 → Bool
  -- `(seconds * 1000.0) as u64`
  pub millis : F64 → ℕ
