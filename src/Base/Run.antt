-- ===== src/Base/Run.antt =====
-- What a run of C code comes to: a value, an access outside an object, or no end.
use mathlib.Core.Path.{◌≡◌}

-- `fault` is a read or write outside an object, which C leaves undefined; `diverges` is a loop
-- whose fuel ran out.
pub data Run {ℓ} (A : Type ℓ) : Type ℓ where
  diverges : Run A
  fault : Run A
  ok : A → Run A

-- The run ends normally, in a value that satisfies `P`.
abbrev pub Returns {ℓ κ} : {A : Type ℓ} → Run A → (A → Type κ) → Type (ℓ ⊔ κ)
Returns {A} run P = (a : A) × (run ≡ ok a) × P a

infixl 5 ◌>>=◌
abbrev pub ◌>>=◌ {ℓ κ} : {A : Type ℓ} {B : Type κ} → Run A → (A → Run B) → Run B
fault >>= next = fault
diverges >>= next = diverges
ok a >>= next = next a
