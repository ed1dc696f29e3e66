-- ===== src/Base/Stateful.antt =====
-- Methods that change a state and may fail. An error leaves the changes that were made before it.
use arrow_client.Base.Outcome.{Outcome, ok, err, panic, out_of_fuel}

abbrev pub Stateful : Type 0 → Type 0 → Type 0
Stateful S A = S → S × Outcome A

abbrev pub pure : {S A : Type 0} → A → Stateful S A
pure a s = (s, ok a)

abbrev pub fail : {S A : Type 0} → Outcome A → Stateful S A
fail r s = (s, r)

-- What follows a call, `try!` included.
abbrev pub then_do : {S A B : Type 0} → (A → Stateful S B) → S × Outcome A → S × Outcome B
then_do f (s, ok a) = f a s
then_do f (s, err e) = (s, err e)
then_do f (s, panic) = (s, panic)
then_do f (s, out_of_fuel) = (s, out_of_fuel)

infixl 5 ◌>>=◌ ◌>>◌
abbrev pub ◌>>=◌ : {S A B : Type 0} → Stateful S A → (A → Stateful S B) → Stateful S B
◌>>=◌ m f s = then_do f (m s)

abbrev pub ◌>>◌ : {S B : Type 0} → Stateful S (Unit {0}) → Stateful S B → Stateful S B
m >> k = m >>= λ _. k

abbrev pub modify : {S : Type 0} → (S → S) → Stateful S (Unit {0})
modify f s = (f s, ok tt)

abbrev pub read : {S A : Type 0} → (S → A) → Stateful S A
read f s = (s, ok (f s))
