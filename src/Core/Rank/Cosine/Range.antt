-- ===== src/Core/Rank/Cosine/Range.antt =====
-- A cosine of crates/yams-core/src/rank.rs can be normalized.
use yams.Prelude.{
  ◌≡◌, refl, true, false, not, List, ◌==◌, length, ok, refuse_if, refuse_not, ok-injective,
  >>=-Steps, if_lem,
}
use yams.Core.Floats.{Floats}
use yams.Core.Rank.{Vectors, left_side, right_side}
use yams.Core.Rank.Cosine.{
  zero, one, checked_squared_norm, dot_loop, clamp, cosine, normalize_score,
}

-- IEEE 754: finite values are compared, and one and its negation are such values, in order.
pub record UnitRange {F : Type 0} (fl : Floats F) : Type 0 where
  pub lt-le :
      (a b : F)
      → fl.is_finite a ≡ true
      → fl.is_finite b ≡ true
      → fl.lt a b ≡ false
      → fl.le b a ≡ true
  pub one_finite : fl.is_finite (fl.literal 1 0) ≡ true
  pub minus_finite : fl.is_finite (fl.negate (fl.literal 1 0)) ≡ true
  pub minus_le_one : fl.le (fl.negate (fl.literal 1 0)) (fl.literal 1 0) ≡ true
  pub one_le_one : fl.le (fl.literal 1 0) (fl.literal 1 0) ≡ true
  pub minus_le_minus : fl.le (fl.negate (fl.literal 1 0)) (fl.negate (fl.literal 1 0)) ≡ true

module _ {F G : Type 0} (v : Vectors F G) (range : UnitRange v.floats) where
  -- A finite value from -1 to 1.
  record InRange (score : F) : Type 0 where
    finite : v.floats.is_finite score ≡ true
    lower : v.floats.le (v.floats.negate (one v)) score ≡ true
    upper : v.floats.le score (one v) ≡ true

  clamp-InRange : (score : F) → v.floats.is_finite score ≡ true → InRange (clamp v score)
  unfolding clamp
  clamp-InRange score finite =
      if_lem InRange (v.floats.lt score (v.floats.negate (one v)))
        (λ below. record {
          finite = range.minus_finite;
          lower = range.minus_le_minus;
          upper = range.minus_le_one;
        })
        (λ from.
          if_lem InRange (v.floats.lt (one v) score)
            (λ above. record {
              finite = range.one_finite;
              lower = range.minus_le_one;
              upper = range.one_le_one;
            })
            (λ to. record {
              finite = finite;
              lower = range.lt-le score (v.floats.negate (one v)) finite range.minus_finite from;
              upper = range.lt-le (one v) score range.one_finite finite to;
            }))

  cosine-InRange :
      (left right : List G) (score : F) → cosine v left right ≡ ok score → InRange score
  unfolding cosine
  cosine-InRange left right score h =
      let same = >>=-Steps (refuse_if (not (length left == length right)) _) _ h in
      let l = >>=-Steps (checked_squared_norm v left left_side) _ same.next_ok in
      let r = >>=-Steps (checked_squared_norm v right right_side) _ l.next_ok in
      let raw : F =
        v.floats.div (dot_loop v (v.floats.negate (zero v)) left right)
          (v.floats.mul (v.sqrt l.value) (v.sqrt r.value)) in
      let finite = >>=-Steps (refuse_if (not (v.floats.is_finite raw)) _) _ r.next_ok in
      let inside = clamp-InRange raw (refuse_not (v.floats.is_finite raw) _ finite.first_ok) in
      let value : clamp v raw ≡ score = ok-injective finite.next_ok in rw value at inside

  normalize_score-ok : (score : F) → InRange score → normalize_score v score ≡ ok (v.round4 score)
  unfolding normalize_score
  normalize_score-ok score h = rw (h.finite, h.lower, h.upper) refl

  -- A cosine can be normalized: the second step does not fail behind the first.
  pub normalize_score-cosine :
      (left right : List G) (score : F)
      → cosine v left right ≡ ok score
      → normalize_score v score ≡ ok (v.round4 score)
  normalize_score-cosine left right score h =
      normalize_score-ok score (cosine-InRange left right score h)
