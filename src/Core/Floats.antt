-- ===== src/Core/Floats.antt =====
-- What crates/yams-core does with `f64`: the operations, over an abstract carrier, and the facts of
-- IEEE 754 and of `f64::total_cmp` that theorems name as hypotheses.
use yams.Prelude.{ℕ, ◌+◌, ◌-◌, ◌*◌, ◌/◌, ◌^◌, ◌≡◌, ◌⊎◌, Bool, true, false, arith, ltb, leb}

pub record Floats (F : Type 0) : Type 0 where
  -- the literal `digits * 10^-places`, and the negation of a value
  pub literal : ℕ → ℕ → F
  pub negate : F → F
  pub is_finite : F → Bool
  pub lt : F → F → Bool
  pub le : F → F → Bool
  pub add : F → F → F
  pub sub : F → F → F
  pub mul : F → F → F
  pub div : F → F → F
  -- `total_cmp` is not `Ordering::Greater`
  pub total_le : F → F → Bool

pub record TotalOrder {F : Type 0} (fl : Floats F) : Type 0 where
  pub total_refl : (a : F) → fl.total_le a a ≡ true
  pub total_trans :
      (a b c : F) → fl.total_le a b ≡ true → fl.total_le b c ≡ true → fl.total_le a c ≡ true
  pub total_total : (a b : F) → (fl.total_le a b ≡ true) ⊎ (fl.total_le b a ≡ true)

-- On finite values the total order refines `<=`, and taking away what is not negative does not
-- increase a value.
pub record FiniteOrder {F : Type 0} (fl : Floats F) : Type 0 where
  pub total_le-le :
      (a b : F)
      → fl.is_finite a ≡ true
      → fl.is_finite b ≡ true
      → fl.total_le a b ≡ true
      → fl.le a b ≡ true
  pub sub-le :
      (a g : F)
      → fl.is_finite a ≡ true
      → fl.is_finite g ≡ true
      → fl.lt g (fl.literal 0 0) ≡ false
      → fl.le (fl.sub a g) a ≡ true

-- A model of the facts: hundredths, none of them negative.
abbrev pub hundredths : Floats ℕ
hundredths = record {
  literal = λ digits places. digits * 100 / 10 ^ places;
  negate = λ a. 0;
  is_finite = λ a. true;
  lt = ltb;
  le = leb;
  add = λ a b. a + b;
  sub = λ a b. a - b;
  mul = λ a b. a * b / 100;
  div = λ a b. a * 100 / b;
  total_le = leb;
}

leb_trans : (a b c : ℕ) → leb a b ≡ true → leb b c ≡ true → leb a c ≡ true
leb_trans a b c p q = ground arith

leb_total : (a b : ℕ) → (leb a b ≡ true) ⊎ (leb b a ≡ true)
leb_total a b = ground arith

pub hundredths-TotalOrder : TotalOrder hundredths
hundredths-TotalOrder = record {
  total_refl = λ a. ground arith;
  total_trans = leb_trans;
  total_total = leb_total;
}

pub hundredths-FiniteOrder : FiniteOrder hundredths
hundredths-FiniteOrder = record {
  total_le-le = λ a b fa fb h. h;
  sub-le = λ a g fa fg h. ground arith;
}
