-- ===== src/Base/Parsing.antt =====
-- What a step of a parser comes to: the `ParsingResult` of src/net/http.rs and the `Result`s of
-- src/net/rtsp and src/net/discovery.rs, whose errors carry nothing but a text for the log.

use mathlib.Core.Bool.{Bool, true, false}
use mathlib.Core.Path.{◌≡◌, refl}
use arrow_client.Base.Tests.{if◌then◌else◌}

-- `panic` is an unwinding panic. `out_of_fuel` is no Rust value: a loop of the model ran out of the
-- rounds that it was given.
pub data Parsing {ℓ} (A : Type ℓ) : Type ℓ where
  ok : A → Parsing A
  err : Parsing A
  panic : Parsing A
  out_of_fuel : Parsing A

infixl 5 ◌>>=◌
abbrev pub ◌>>=◌ {ℓ κ} : {A : Type ℓ} {B : Type κ} → Parsing A → (A → Parsing B) → Parsing B
ok a >>= f = f a
err >>= f = err
panic >>= f = panic
out_of_fuel >>= f = out_of_fuel

-- Two continuations that agree on the value
pub bind_eq {ℓ κ} :
    {A : Type ℓ} {B : Type κ} (m : Parsing A) (f g : A → Parsing B)
    → ((a : A) → m ≡ ok a → f a ≡ g a)
    → (m >>= f) ≡ (m >>= g)
bind_eq (ok a) f g h = h a refl
bind_eq err f g h = refl
bind_eq panic f g h = refl
bind_eq out_of_fuel f g h = refl

pub bind_assoc {ℓ κ ι} :
    {A : Type ℓ} {B : Type κ} {C : Type ι} (m : Parsing A) (f : A → Parsing B) (g : B → Parsing C)
    → (m >>= f >>= g) ≡ (m >>= λ a. f a >>= g)
bind_assoc (ok a) f g = refl
bind_assoc err f g = refl
bind_assoc panic f g = refl
bind_assoc out_of_fuel f g = refl

pub ok_inj {ℓ} : {A : Type ℓ} {a b : A} → (let m : Parsing A = ok a in m) ≡ ok b → a ≡ b
ok_inj e = cc

pub bind_inv {ℓ κ} :
    {A : Type ℓ} {B : Type κ} (m : Parsing A) (f : A → Parsing B) (b : B)
    → (m >>= f) ≡ ok b
    → (a : A) × (m ≡ ok a) × (f a ≡ ok b)
bind_inv (ok a) f b e = (a, refl, e)
bind_inv err f b e = cc
bind_inv panic f b e = cc
bind_inv out_of_fuel f b e = cc

-- A result without a panic, which no loop keeps from coming
abbrev pub IsSettled {ℓ} : {A : Type ℓ} → Parsing A → Type 0
IsSettled (ok a) = Unit {0}
IsSettled err = Unit {0}
IsSettled panic = ⊥
IsSettled out_of_fuel = ⊥

pub bind-IsSettled {ℓ κ} :
    {A : Type ℓ} {B : Type κ} (m : Parsing A) (f : A → Parsing B)
    → IsSettled m
    → ((a : A) → m ≡ ok a → IsSettled (f a))
    → IsSettled (m >>= f)
bind-IsSettled (ok a) f s h = h a refl
bind-IsSettled err f s h = tt
bind-IsSettled panic f s h = s
bind-IsSettled out_of_fuel f s h = s

pub if-IsSettled {ℓ} :
    {A : Type ℓ} (b : Bool) (x y : Parsing A)
    → IsSettled x
    → IsSettled y
    → IsSettled (if b then x else y)
if-IsSettled true x y hx hy = hx
if-IsSettled false x y hx hy = hy

-- A result that comes, where `Q` holds of the value, and where a panic means that `P` holds
pub data Ends {ℓ} {A : Type ℓ} (P : Type 0) (Q : A → Type 0) : Parsing A → Type ℓ where
  ok_ends : (a : A) → Q a → Ends P Q (ok a)
  err_ends : Ends P Q err
  panic_ends : P → Ends P Q panic

module _ {ℓ} {A : Type ℓ} {P : Type 0} {Q : A → Type 0} where
  pub bind-Ends {κ} :
      {B : Type κ} {R : B → Type 0} (m : Parsing A) (f : A → Parsing B)
      → Ends P Q m
      → ((a : A) → Q a → Ends P R (f a))
      → Ends P R (m >>= f)
  bind-Ends _ f (ok_ends a q) h = h a q
  bind-Ends _ f err_ends h = err_ends
  bind-Ends _ f (panic_ends p) h = panic_ends p

  pub if-Ends :
      (b : Bool) {x y : Parsing A} → Ends P Q x → Ends P Q y → Ends P Q (if b then x else y)
  if-Ends true hx hy = hx
  if-Ends false hx hy = hy

  -- A result without a panic, with what is known of its value
  pub settled-Ends : (m : Parsing A) → IsSettled m → ((a : A) → m ≡ ok a → Q a) → Ends P Q m
  settled-Ends (ok a) s h = ok_ends a (h a refl)
  settled-Ends err s h = err_ends
  settled-Ends panic s h = absurd s
  settled-Ends out_of_fuel s h = absurd s
