-- ===== src/Core/Rank/Dense.antt =====
-- `dense_rank` of crates/yams-core/src/rank.rs: all chunks scored, and the best chunk of each page.
pub mod Order
pub mod Best
use yams.Prelude.{ℕ, Bool, true, false, List, [], ◌∷◌, if◌then◌else◌, Result, ok, err, ◌>>=◌}
use yams.Prelude.Sorting.{sort_by}
use yams.Core.Text.{Text}
use yams.Core.Text.Firsts.{first_per}
use yams.Core.Rank.{Vectors, ChunkId, chunk_id_le, RankError}
use yams.Core.Rank.Descending.{descending_le}
use yams.Core.Rank.Cosine.{cosine, normalize_score}

pub record DenseCandidate (G : Type 0) : Type 0 where
  pub id : ChunkId
  pub vector : List G

pub record DenseRankedPage (F : Type 0) : Type 0 where
  pub chunk : ChunkId
  pub score : F

pub record ScoredChunk (F : Type 0) : Type 0 where
  pub id : ChunkId
  pub score : F

abbrev pub page_of : {F : Type 0} → ScoredChunk F → Text
page_of chunk = chunk.id.page

module _ {F G : Type 0} (v : Vectors F G) where
  -- The comparator is not `Greater`: by the score, descending, then by the identity.
  unfoldable pub scored_le : ScoredChunk F → ScoredChunk F → Bool
  unfolding descending_le
  scored_le left right =
      descending_le v.floats (λ c. c.score) (λ l r. chunk_id_le l.id r.id) left right

  unfoldable pub score_chunks :
      List G → List (DenseCandidate G) → Result RankError (List (ScoredChunk F))
  score_chunks query [] = ok []
  score_chunks query (candidate ∷ candidates) = do
    score ← cosine v query candidate.vector
    rest ← score_chunks query candidates
    ok (record { id = candidate.id; score = score } ∷ rest)

  unfoldable pub normalize_chunks :
      List (ScoredChunk F) → Result RankError (List (DenseRankedPage F))
  normalize_chunks [] = ok []
  normalize_chunks (chunk ∷ chunks) = do
    score ← normalize_score v chunk.score
    rest ← normalize_chunks chunks
    ok (record { chunk = chunk.id; score = score } ∷ rest)

  unfoldable pub dense_rank :
      List G → List (DenseCandidate G) → Result RankError (List (DenseRankedPage F))
  unfolding scored_le score_chunks normalize_chunks
  dense_rank query candidates = do
    chunks ← score_chunks query candidates
    normalize_chunks (first_per page_of [] (sort_by scored_le chunks))
