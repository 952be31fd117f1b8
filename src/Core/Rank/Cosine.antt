-- ===== src/Core/Rank/Cosine.antt =====
-- `cosine`, `checked_squared_norm` and `normalize_score` of crates/yams-core/src/rank.rs.
pub mod Range
use yams.Prelude.{
  ℕ, suc, Bool, true, false, not, ◌&&◌, List, [], ◌∷◌, ◌==◌, if◌then◌else◌, length, is_empty,
  Result, ok, err, ◌>>◌, ◌>>=◌, refuse_if,
}
use yams.Core.Floats.{Floats}
use yams.Core.Rank.{
  Vectors, VectorSide, left_side, right_side, RankError, dimension_mismatch, empty_vector,
  non_finite_component, zero_norm, non_finite_score, score_outside_cosine_range,
}

module _ {F G : Type 0} (v : Vectors F G) where
  abbrev pub zero : F
  zero = v.floats.literal 0 0

  abbrev pub one : F
  one = v.floats.literal 1 0

  unfoldable pub norm_loop : VectorSide → ℕ → F → List G → Result RankError F
  norm_loop side index squared_norm [] = ok squared_norm
  norm_loop side index squared_norm (value ∷ values) = do
    finite ← refuse_if (not (v.component_is_finite value)) (non_finite_component side index)
    norm_loop side (suc index)
        (v.floats.add squared_norm (v.floats.mul (v.widen value) (v.widen value))) values

  unfoldable pub checked_squared_norm : List G → VectorSide → Result RankError F
  unfolding norm_loop
  checked_squared_norm values side = do
    filled ← refuse_if (is_empty values) (empty_vector side)
    squared_norm ← norm_loop side 0 zero values
    positive ← refuse_if (v.eq squared_norm zero) (zero_norm side)
    ok squared_norm

  -- `sum` over the products of a `zip`; the sum of no floats is the negative zero.
  unfoldable pub dot_loop : F → List G → List G → F
  dot_loop sum [] right = sum
  dot_loop sum (l ∷ left) [] = sum
  dot_loop sum (l ∷ left) (r ∷ right) =
      dot_loop (v.floats.add sum (v.floats.mul (v.widen l) (v.widen r))) left right

  -- `clamp(-1.0, 1.0)`
  unfoldable pub clamp : F → F
  clamp score =
      if v.floats.lt score (v.floats.negate one)
      then v.floats.negate one
      else if v.floats.lt one score
      then one
      else score

  unfoldable pub cosine : List G → List G → Result RankError F
  unfolding checked_squared_norm dot_loop clamp
  cosine left right = do
    same ←
        refuse_if (not (length left == length right))
          (dimension_mismatch (length left) (length right))
    left_norm ← checked_squared_norm left left_side
    right_norm ← checked_squared_norm right right_side
    let score =
        v.floats.div (dot_loop (v.floats.negate zero) left right)
          (v.floats.mul (v.sqrt left_norm) (v.sqrt right_norm))
    finite ← refuse_if (not (v.floats.is_finite score)) non_finite_score
    ok (clamp score)

  unfoldable pub normalize_score : F → Result RankError F
  normalize_score score = do
    finite ← refuse_if (not (v.floats.is_finite score)) non_finite_score
    within ←
        refuse_if (not (v.floats.le (v.floats.negate one) score && v.floats.le score one))
          score_outside_cosine_range
    ok (v.round4 score)
