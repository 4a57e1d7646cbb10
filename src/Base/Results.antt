-- ===== src/Base/Results.antt =====
-- Code that throws `FrmwkEx` returns a `Result`; an exception carries no data that the framework
-- reads again, so `thrown` has none.
use mathlib.Core.Bool.{Bool, true, false}

pub data Result {ℓ} (A : Type ℓ) : Type ℓ where
  ok : A → Result A
  thrown : Result A

infixl 5 ◌>>=◌ ◌>>◌
abbrev pub ◌>>=◌ {ℓ κ} : {A : Type ℓ} {B : Type κ} → Result A → (A → Result B) → Result B
ok a >>= f = f a
thrown >>= f = thrown

abbrev pub ◌>>◌ {ℓ} : {B : Type ℓ} → Result (Unit {0}) → Result B → Result B
m >> k = m >>= λ _. k

-- `if (bad) throw FrmwkEx(...)`
abbrev pub throw_if : Bool → Result (Unit {0})
throw_if true = thrown
throw_if false = ok tt
