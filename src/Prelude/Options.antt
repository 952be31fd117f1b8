-- ===== src/Prelude/Options.antt =====
-- `?` on Rust's `Option`: a `do` block over it ends at the first that is `None`.
use mathlib.Core.Path.{◌≡◌, refl}
use mathlib.Core.Option.{Option, none, some}

module _ {ℓ κ} {A : Type ℓ} {B : Type κ} where
  infixr 6 ◌>>=◌
  abbrev pub ◌>>=◌ : Option A → (A → Option B) → Option B
  none >>= next = none
  some a >>= next = next a

  abbrev pub map_some : (A → B) → Option A → Option B
  map_some f none = none
  map_some f (some a) = some (f a)

  -- The value of a block's first step.
  pub >>=-some :
      (first : Option A) (next : A → Option B) {b : B}
      → first >>= next ≡ some b
      → (a : A) × (first ≡ some a) × (next a ≡ some b)
  >>=-some none next h = cc
  >>=-some (some a) next h = (a, refl, h)
