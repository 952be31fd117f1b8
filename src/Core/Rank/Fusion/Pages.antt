-- ===== src/Core/Rank/Fusion/Pages.antt =====
-- Which pages `rrf_explained` of crates/yams-core/src/rank.rs scores.
use yams.Prelude.{
  ℕ, suc, ◌≡◌, not, List, [], ◌∷◌, length, ok, All, >>=-Steps, refuse_if, ok-injective,
}
use yams.Core.Text.{Text}
use yams.Core.Text.Firsts.{first_per, All-first_per}
use yams.Core.Text.Maps.{keys, lookup, keys-update}
use yams.Core.Text.Paths.{path_le, path_le-TextOrder}
use yams.Core.Rank.{Vectors}
use yams.Core.Rank.Fusion.{
  Scores, contribution, add_contribution, score_page, source_loop, itself, rankings_loop,
  validate_weights, rrf_explained,
}

module _ {F G : Type 0} (v : Vectors F G) (rrf_k : ℕ) (P : Text → Type 0) where
  score_page-keys :
      (source : ℕ) (weight : F) (rank : ℕ) (page : Text) (scores : Scores F) {next : Scores F}
      → P page
      → All P (keys scores)
      → score_page v rrf_k source weight rank page scores ≡ ok next
      → All P (keys next)
  unfolding score_page
  score_page-keys source weight rank page scores p h e =
      let c = contribution v rrf_k source weight rank in
      let finite = >>=-Steps (refuse_if (not (v.floats.is_finite c.score)) _) _ e in
      let summed =
        >>=-Steps
          (refuse_if (not (v.floats.is_finite (add_contribution v c (lookup page scores)).total)) _)
          _ finite.next_ok in
      rw (ok-injective summed.next_ok) at
        (keys-update path_le path_le-TextOrder P page (add_contribution v c) scores p h)

  source_loop-keys :
      (source : ℕ) (weight : F) (rank : ℕ) (pages : List Text) (scores : Scores F) {next : Scores F}
      → All P pages
      → All P (keys scores)
      → source_loop v rrf_k source weight rank pages scores ≡ ok next
      → All P (keys next)
  unfolding source_loop
  source_loop-keys source weight rank [] scores p h e = rw (ok-injective e) at h
  source_loop-keys source weight rank (page ∷ pages) scores p h e =
      let scored = >>=-Steps (score_page v rrf_k source weight rank page scores) _ e in
      source_loop-keys source weight (suc rank) pages scored.value p.1
        (score_page-keys source weight rank page scores p.0 h scored.first_ok) scored.next_ok

  rankings_loop-keys :
      (source : ℕ) (rankings : List (List Text)) (weights : List F) (scores : Scores F)
      {next : Scores F}
      → All (All P) rankings
      → All P (keys scores)
      → rankings_loop v rrf_k source rankings weights scores ≡ ok next
      → All P (keys next)
  unfolding rankings_loop
  rankings_loop-keys source [] weights scores p h e = rw (ok-injective e) at h
  rankings_loop-keys source (ranking ∷ rankings) [] scores p h e = rw (ok-injective e) at h
  rankings_loop-keys source (ranking ∷ rankings) (weight ∷ weights) scores p h e =
      let pages = first_per itself [] ranking in
      let scored = >>=-Steps (source_loop v rrf_k source weight 1 pages scores) _ e in
      rankings_loop-keys (suc source) rankings weights scored.value p.1
        (source_loop-keys source weight 1 pages scores (All-first_per itself P [] ranking p.0) h
          scored.first_ok)
        scored.next_ok

  -- Only pages of the rankings are scored.
  pub rrf_explained-keys :
      (rankings : List (List Text)) (weights : List F) (scores : Scores F)
      → All (All P) rankings
      → rrf_explained v rankings weights rrf_k ≡ ok scores
      → All P (keys scores)
  unfolding rrf_explained
  rrf_explained-keys rankings weights scores p e =
      let valid = >>=-Steps (validate_weights v (length rankings) weights) _ e in
      rankings_loop-keys 0 rankings weights [] p tt valid.next_ok
