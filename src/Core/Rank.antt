-- ===== src/Core/Rank.antt =====
-- crates/yams-core/src/rank.rs: identities, errors and candidates of the ranking. A page's identity is
-- its path.
pub mod Cosine
pub mod Descending
pub mod Dense
pub mod Fusion
pub mod Hybrid
mod Tests
use yams.Prelude.{ℕ, ◌≡◌, Bool, true, false, ◌&&◌, List, [], ◌∷◌, leb, if◌then◌else◌}
use yams.Core.Text.{Text}
use yams.Core.Text.Order.{text_eq}
use yams.Core.Text.Paths.{path_le}
use yams.Core.Floats.{Floats}

pub record ChunkId : Type 0 where
  pub page : Text
  pub ordinal : ℕ

-- `cmp` of two chunk identities is not `Greater`.
unfoldable pub chunk_id_le : ChunkId → ChunkId → Bool
chunk_id_le left right =
    if text_eq left.page right.page
    then leb left.ordinal right.ordinal
    else path_le left.page right.page

pub data VectorSide : Type 0 where
  left_side right_side : VectorSide

pub data RankError : Type 0 where
  dimension_mismatch : ℕ → ℕ → RankError
  empty_vector : VectorSide → RankError
  non_finite_component : VectorSide → ℕ → RankError
  zero_norm : VectorSide → RankError
  non_finite_score score_outside_cosine_range : RankError
  ranking_weight_mismatch : ℕ → ℕ → RankError
  non_finite_weight : ℕ → RankError
  negative_weight : ℕ → RankError
  non_finite_rrf_contribution : ℕ → ℕ → RankError
  non_finite_fused_total : Text → RankError

-- What the ranking does with `f32`, of type `G`, and with `f64` beside `Floats`.
pub record Vectors (F G : Type 0) : Type 0 where
  pub floats : Floats F
  pub component_is_finite : G → Bool
  -- `f64::from`
  pub widen : G → F
  pub of_nat : ℕ → F
  pub eq : F → F → Bool
  pub sqrt : F → F
  -- to four decimals in text and back
  pub round4 : F → F
