-- ===== src/Base/Outcome.antt =====
-- What a call of a Rust function comes to, with the error kinds of src/net/arrow/error.rs.

-- `ErrorKind`. An `ArrowError` also carries a text for the log, which the model leaves out.
pub data ErrorKind : Type 0 where
  connection_error unsupported_protocol_version unauthorized : ErrorKind
  service_connection_error arrow_server_error other : ErrorKind

-- `panic` is an unwinding panic: a failed assertion, an index out of bounds, a checked overflow.
-- `out_of_fuel` is no Rust value: a loop of the model ran out of the rounds that it was given.
pub data Outcome {ℓ} (A : Type ℓ) : Type ℓ where
  ok : A → Outcome A
  err : ErrorKind → Outcome A
  panic : Outcome A
  out_of_fuel : Outcome A

infixl 5 ◌>>=◌
abbrev pub ◌>>=◌ {ℓ κ} : {A : Type ℓ} {B : Type κ} → Outcome A → (A → Outcome B) → Outcome B
ok a >>= f = f a
err e >>= f = err e
panic >>= f = panic
out_of_fuel >>= f = out_of_fuel
