-- ===== src/Core/Rank/Fusion.antt =====
-- `rrf_explained`, `rrf_scores`, `ranked_ids` and `validate_weights` of crates/yams-core/src/rank.rs:
-- the fusion of rankings by reciprocal rank.
pub mod Explains
pub mod Pages
use yams.Prelude.{
  ℕ, suc, Bool, true, false, not, Option, none, some, List, [], ◌∷◌, ◌++◌, map, ◌==◌, if◌then◌else◌,
  length, take, Result, ok, err, ◌>>◌, ◌>>=◌, refuse_if,
}
use yams.Prelude.Sorting.{sort_by}
use yams.Core.Text.{Text}
use yams.Core.Text.Firsts.{first_per}
use yams.Core.Text.Maps.{update, lookup}
use yams.Core.Text.Paths.{path_le}
use yams.Core.Floats.{Floats}
use yams.Core.Rank.{
  Vectors, RankError, ranking_weight_mismatch, non_finite_weight, negative_weight,
  non_finite_rrf_contribution, non_finite_fused_total,
}
use yams.Core.Rank.Descending.{descending_le}
use yams.Core.Rank.Cosine.{zero}

pub record RrfContribution (F : Type 0) : Type 0 where
  pub source : ℕ
  pub rank : ℕ
  pub weight : F
  pub score : F

pub record RrfScore (F : Type 0) : Type 0 where
  pub total : F
  pub contributions : List (RrfContribution F)

abbrev pub Scores : Type 0 → Type 0
Scores F = List (Text × RrfScore F)

abbrev pub itself : Text → Text
itself page = page

module _ {F G : Type 0} (v : Vectors F G) where
  unfoldable pub weights_loop : ℕ → List F → Result RankError (Unit {0})
  weights_loop source [] = ok tt
  weights_loop source (weight ∷ weights) = do
    finite ← refuse_if (not (v.floats.is_finite weight)) (non_finite_weight source)
    positive ← refuse_if (v.floats.lt weight (zero v)) (negative_weight source)
    weights_loop (suc source) weights

  unfoldable pub validate_weights : ℕ → List F → Result RankError (Unit {0})
  unfolding weights_loop
  validate_weights rankings weights = do
    same ←
        refuse_if (not (rankings == length weights))
          (ranking_weight_mismatch rankings (length weights))
    weights_loop 0 weights

  -- `or_insert_with`
  abbrev pub entry : Option (RrfScore F) → RrfScore F
  entry none = record { total = zero v; contributions = [] }
  entry (some score) = score

  abbrev pub contribution : ℕ → ℕ → F → ℕ → RrfContribution F
  contribution rrf_k source weight rank = record {
    source = source;
    rank = rank;
    weight = weight;
    score = v.floats.div weight (v.floats.add (v.of_nat rrf_k) (v.of_nat rank));
  }

  abbrev pub add_contribution : RrfContribution F → Option (RrfScore F) → RrfScore F
  add_contribution c before = record {
    total = v.floats.add (entry before).total c.score;
    contributions = (entry before).contributions ++ (c ∷ []);
  }

  -- One page of one source.
  unfoldable pub score_page : ℕ → ℕ → F → ℕ → Text → Scores F → Result RankError (Scores F)
  unfolding update lookup
  score_page rrf_k source weight rank page scores = do
    let c = contribution rrf_k source weight rank
    finite ← refuse_if (not (v.floats.is_finite c.score)) (non_finite_rrf_contribution source rank)
    summed ←
        refuse_if (not (v.floats.is_finite (add_contribution c (lookup page scores)).total))
          (non_finite_fused_total page)
    ok (update path_le page (add_contribution c) scores)

  unfoldable pub source_loop : ℕ → ℕ → F → ℕ → List Text → Scores F → Result RankError (Scores F)
  unfolding score_page
  source_loop rrf_k source weight rank [] scores = ok scores
  source_loop rrf_k source weight rank (page ∷ pages) scores = do
    next ← score_page rrf_k source weight rank page scores
    source_loop rrf_k source weight (suc rank) pages next

  unfoldable pub rankings_loop :
      ℕ → ℕ → List (List Text) → List F → Scores F → Result RankError (Scores F)
  unfolding source_loop
  rankings_loop rrf_k source [] weights scores = ok scores
  rankings_loop rrf_k source (ranking ∷ rankings) [] scores = ok scores
  rankings_loop rrf_k source (ranking ∷ rankings) (weight ∷ weights) scores = do
    next ← source_loop rrf_k source weight 1 (first_per itself [] ranking) scores
    rankings_loop rrf_k (suc source) rankings weights next

  unfoldable pub rrf_explained : List (List Text) → List F → ℕ → Result RankError (Scores F)
  unfolding validate_weights rankings_loop
  rrf_explained rankings weights rrf_k = do
    valid ← validate_weights (length rankings) weights
    rankings_loop rrf_k 0 rankings weights []

  abbrev pub totals : Scores F → List (Text × F)
  totals scores = map (λ e. (e.0, e.1.total)) scores

  unfoldable pub rrf_scores : List (List Text) → List F → ℕ → Result RankError (List (Text × F))
  unfolding rrf_explained
  rrf_scores rankings weights rrf_k = do
    scores ← rrf_explained rankings weights rrf_k
    ok (totals scores)

  -- The comparator is not `Greater`: by the total, descending, then by the page.
  unfoldable pub total_order_le : Text × F → Text × F → Bool
  unfolding descending_le
  total_order_le left right = descending_le v.floats (λ e. e.1) (λ l r. path_le l.0 r.0) left right

  unfoldable pub ranked_ids : List (Text × F) → ℕ → List Text
  unfolding total_order_le
  ranked_ids scores limit = map (λ e. e.0) (take limit (sort_by total_order_le scores))
