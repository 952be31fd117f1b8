-- ===== src/Prelude/Results.antt =====
-- Rust's `Result` over an error type. A `do` block over it is a chain of `?`.
use mathlib.Core.Path.{◌≡◌, refl}
use mathlib.Core.Bool.{Bool, true, false, not}
use Prim.Native.Nat.{ℕ, ◌≤◌}
use native.Mathlib.Omega.{arith}
use yams.Prelude.Tests.{ltb}

pub data Result {ℓ} (E : Type 0) (A : Type ℓ) : Type ℓ where
  err : E → Result E A
  ok : A → Result E A

infixr 6 ◌>>◌
module _ {ℓ κ} {E : Type 0} {A : Type ℓ} {B : Type κ} where
  infixr 6 ◌>>=◌
  abbrev pub ◌>>=◌ : Result E A → (A → Result E B) → Result E B
  err e >>= next = err e
  ok a >>= next = next a

  -- The two steps behind a block that returned `b`.
  pub record Steps (first : Result E A) (next : A → Result E B) (b : B) : Type (ℓ ⊔ κ) where
    pub value : A
    pub first_ok : first ≡ ok value
    pub next_ok : next value ≡ ok b

  pub >>=-Steps :
      (first : Result E A) (next : A → Result E B) {b : B}
      → first >>= next ≡ ok b
      → Steps first next b
  >>=-Steps (err e) next h = cc
  >>=-Steps (ok a) next h = record { value = a; first_ok = refl; next_ok = h }

abbrev pub ◌>>◌ {ℓ} : {E : Type 0} {B : Type ℓ} → Result E (Unit {0}) → Result E B → Result E B
err e >> later = err e
ok _ >> later = later

-- The later step of a block that returned.
pub >>-ok {ℓ} :
    {E : Type 0} {B : Type ℓ} (first : Result E (Unit {0})) (later : Result E B) {b : B}
    → (first >> later) ≡ ok b
    → (first ≡ ok tt) × (later ≡ ok b)
>>-ok (err e) later h = cc
>>-ok (ok a) later h = (refl, h)

pub ok_unique {ℓ} :
    {E : Type 0} {A : Type ℓ} {r : Result E A} {a b : A} → r ≡ ok a → r ≡ ok b → a ≡ b
ok_unique p q = cc

pub ok-injective {ℓ} :
    {E : Type 0} {A : Type ℓ} {a b : A} → ◌≡◌ {A = Result E A} (ok a) (ok b) → a ≡ b
ok-injective h = cc

-- `if test { return Err(error) }`
abbrev pub refuse_if : {E : Type 0} → Bool → E → Result E (Unit {0})
refuse_if false error = ok tt
refuse_if true error = err error

-- The guard let the run pass.
module _ {E : Type 0} where
  pub refuse_if-ok : (test : Bool) (error : E) → refuse_if test error ≡ ok tt → test ≡ false
  refuse_if-ok true error h = cc
  refuse_if-ok false error h = refl

  pub refuse_not : (test : Bool) (error : E) → refuse_if (not test) error ≡ ok tt → test ≡ true
  refuse_not true error h = refl
  refuse_not false error h = cc

  pub refuse_over : (limit n : ℕ) (error : E) → refuse_if (ltb limit n) error ≡ ok tt → n ≤ limit
  refuse_over limit n error h = let e = refuse_if-ok (ltb limit n) error h in ground arith
