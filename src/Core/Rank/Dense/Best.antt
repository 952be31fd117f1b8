-- ===== src/Core/Rank/Dense/Best.antt =====
-- What `dense_rank` of crates/yams-core/src/rank.rs returns.
use mathlib.Core.Path.{subst}
use yams.Prelude.{
  ◌≡◌, refl, ap, inl, inr, true, List, [], ◌∷◌, ◌++◌, map, All, Any, Result, ok, err, ◌>>=◌,
}
use yams.Prelude.Sorting.{IsSorted, sort_by, sort_by-IsSorted, sort_by-All, All-sort_by}
use yams.Core.Text.Order.{Distinct}
use yams.Core.Text.Firsts.{
  first_per, Some, keys_of, All-first_per, first_per-Distinct, first_per-Some, first_per-IsSorted,
}
use yams.Core.Floats.{TotalOrder}
use yams.Core.Rank.{Vectors, ChunkId, RankError}
use yams.Core.Rank.Cosine.{cosine, normalize_score}
use yams.Core.Rank.Cosine.Range.{UnitRange, normalize_score-cosine}
use yams.Core.Rank.Dense.{
  DenseCandidate, DenseRankedPage, ScoredChunk, page_of, scored_le, score_chunks, normalize_chunks,
  dense_rank,
}
use yams.Core.Rank.Dense.Order.{scored_le_refl, scored_le_trans, scored_le_total}

module _ {F G : Type 0} (v : Vectors F G) (query : List G) where
  -- The chunk is the candidate with its cosine.
  abbrev pub IsScore : DenseCandidate G → ScoredChunk F → Type 0
  IsScore candidate chunk =
      (chunk.id ≡ candidate.id) × (cosine v query candidate.vector ≡ ok chunk.score)

  -- A candidate has a cosine, and a chunk of its page was chosen that is not behind it.
  pub record IsBeaten (chosen : List (ScoredChunk F)) (candidate : DenseCandidate G) : Type 0 where
    pub score : F
    pub scored : cosine v query candidate.vector ≡ ok score
    pub best :
        Some page_of
          (λ c. scored_le v c (record { id = candidate.id; score = score }) ≡ true)
          candidate.id.page
          chosen

  -- The pages are those of the chosen chunks, with rounded scores; the chunks are in order, of pages
  -- that differ, and for each candidate one of its page is chosen that is not behind it.
  pub record Ranks (candidates : List (DenseCandidate G)) (pages : List (DenseRankedPage F))
      : Type 0 where
    pub chosen : List (ScoredChunk F)
    pub rounded : pages ≡ map (λ c. record { chunk = c.id; score = v.round4 c.score }) chosen
    pub in_order : IsSorted (scored_le v) chosen
    pub distinct : Distinct (keys_of page_of chosen)
    pub all_scored : All (λ c. Any (λ candidate. IsScore candidate c) candidates) chosen
    pub all_beaten : All (IsBeaten chosen) candidates

  -- The first candidate without a cosine.
  pub record Fails (candidates : List (DenseCandidate G)) (error : RankError) : Type 0 where
    pub front : List (DenseCandidate G)
    pub failed : DenseCandidate G
    pub back : List (DenseCandidate G)
    pub split : candidates ≡ front ++ (failed ∷ back)
    pub front_scored : All (λ c. (score : F) × (cosine v query c.vector ≡ ok score)) front
    pub no_cosine : cosine v query failed.vector ≡ err error

  abbrev pub Answers :
      List (DenseCandidate G) → Result RankError (List (DenseRankedPage F)) → Type 0
  Answers candidates (ok pages) = Ranks candidates pages
  Answers candidates (err error) = Fails candidates error

  -- Candidates and their chunks, one by one.
  abbrev Scores : List (DenseCandidate G) → List (ScoredChunk F) → Type 0
  Scores [] [] = Unit
  Scores (c ∷ cs) (s ∷ ss) = IsScore c s × Scores cs ss
  Scores _ _ = ⊥

  -- What the scoring returns: a chunk for each candidate, or the first error.
  abbrev Scored : List (DenseCandidate G) → Result RankError (List (ScoredChunk F)) → Type 0
  Scored candidates (ok chunks) = Scores candidates chunks
  Scored candidates (err error) = Fails candidates error

  Scored-next :
      (c : DenseCandidate G) (cs : List (DenseCandidate G)) (score : F)
      (rest : Result RankError (List (ScoredChunk F)))
      → cosine v query c.vector ≡ ok score
      → Scored cs rest
      → Scored (c ∷ cs) (rest >>= (λ chunks. ok (record { id = c.id; score = score } ∷ chunks)))
  Scored-next c cs score (ok chunks) e h = ((refl, e), h)
  Scored-next c cs score (err error) e h = record {
    front = c ∷ h.front;
    failed = h.failed;
    back = h.back;
    split = ap (◌∷◌ c) h.split;
    front_scored = ((score, e), h.front_scored);
    no_cosine = h.no_cosine;
  }

  Scored-first :
      (c : DenseCandidate G) (cs : List (DenseCandidate G)) (r : Result RankError F)
      → cosine v query c.vector ≡ r
      → Scored cs (score_chunks v query cs)
      → Scored (c ∷ cs) (
          r >>= (λ score.
            score_chunks v query cs
            >>= (λ chunks. ok (record { id = c.id; score = score } ∷ chunks))))
  Scored-first c cs (err error) e h = record {
    front = [];
    failed = c;
    back = cs;
    split = refl;
    front_scored = tt;
    no_cosine = e;
  }
  Scored-first c cs (ok score) e h = Scored-next c cs score (score_chunks v query cs) e h

  score_chunks-Scored :
      (candidates : List (DenseCandidate G)) → Scored candidates (score_chunks v query candidates)
  unfolding score_chunks
  score_chunks-Scored [] = tt
  score_chunks-Scored (c ∷ cs) =
      Scored-first c cs (cosine v query c.vector) refl (score_chunks-Scored cs)

  weaken :
      (c : DenseCandidate G) (cs : List (DenseCandidate G)) (ss : List (ScoredChunk F))
      → All (λ s. Any (λ k. IsScore k s) cs) ss
      → All (λ s. Any (λ k. IsScore k s) (c ∷ cs)) ss
  weaken c cs [] h = tt
  weaken c cs (s ∷ ss) h = (inr h.0, weaken c cs ss h.1)

  Scores-Any :
      (cs : List (DenseCandidate G)) (ss : List (ScoredChunk F))
      → Scores cs ss
      → All (λ s. Any (λ k. IsScore k s) cs) ss
  Scores-Any [] [] h = tt
  Scores-Any [] (s ∷ ss) h = absurd h
  Scores-Any (c ∷ cs) [] h = absurd h
  Scores-Any (c ∷ cs) (s ∷ ss) h = (inl h.0, weaken c cs ss (Scores-Any cs ss h.1))

  Scores-IsBeaten :
      (chosen : List (ScoredChunk F)) (cs : List (DenseCandidate G)) (ss : List (ScoredChunk F))
      → Scores cs ss
      → All (λ s. Some page_of (λ c. scored_le v c s ≡ true) (page_of s) chosen) ss
      → All (IsBeaten chosen) cs
  Scores-IsBeaten chosen [] [] h b = tt
  Scores-IsBeaten chosen [] (s ∷ ss) h b = absurd h
  Scores-IsBeaten chosen (c ∷ cs) [] h b = absurd h
  Scores-IsBeaten chosen (c ∷ cs) (s ∷ ss) h b = (
    record {
      score = s.score;
      scored = h.0.1;
      best =
          subst
            (λ (i : ChunkId).
              Some page_of (λ k. scored_le v k (record { id = i; score = s.score }) ≡ true) i.page
                chosen)
            h.0.0 b.0;
    },
    Scores-IsBeaten chosen cs ss h.1 b.1,
  )

  module _ (range : UnitRange v.floats) where
    normalize-Any :
        (cs : List (DenseCandidate G)) (s : ScoredChunk F)
        → Any (λ k. IsScore k s) cs
        → normalize_score v s.score ≡ ok (v.round4 s.score)
    normalize-Any [] s h = absurd h
    normalize-Any (c ∷ cs) s (inl h) = normalize_score-cosine v range query c.vector s.score h.1
    normalize-Any (c ∷ cs) s (inr h) = normalize-Any cs s h

    normalize_chunks-map :
        (cs : List (DenseCandidate G)) (ss : List (ScoredChunk F))
        → All (λ s. Any (λ k. IsScore k s) cs) ss
        → normalize_chunks v ss
          ≡ ok (map (λ c. record { chunk = c.id; score = v.round4 c.score }) ss)
    unfolding normalize_chunks
    normalize_chunks-map cs [] h = refl
    normalize_chunks-map cs (s ∷ ss) h =
        rw (normalize-Any cs s h.0, normalize_chunks-map cs ss h.1) refl

    ranks_of_scores :
        TotalOrder v.floats
        → (candidates : List (DenseCandidate G)) (r : Result RankError (List (ScoredChunk F)))
        → Scored candidates r
        → Answers candidates (
            r >>= (λ chunks.
              normalize_chunks v (first_per page_of [] (sort_by (scored_le v) chunks))))
    ranks_of_scores order candidates (err error) h = h
    ranks_of_scores order candidates (ok chunks) h =
        let le = scored_le v in
        let sorted = sort_by le chunks in
        let in_order : IsSorted le sorted =
          sort_by-IsSorted le (scored_le_trans v order) (scored_le_total v order) chunks in
        let chosen = first_per page_of [] sorted in
        let all_scored : All (λ s. Any (λ k. IsScore k s) candidates) chosen =
          All-first_per page_of (λ s. Any (λ k. IsScore k s) candidates) [] sorted
            (All-sort_by (λ s. Any (λ k. IsScore k s) candidates) le chunks
              (Scores-Any candidates chunks h)) in
        let some = first_per-Some page_of le (scored_le_refl v order) sorted in_order in
        rw (normalize_chunks-map candidates chosen all_scored) (record {
          chosen = chosen;
          rounded = refl;
          in_order = first_per-IsSorted page_of le [] sorted in_order;
          distinct = first_per-Distinct page_of [] sorted;
          all_scored = all_scored;
          all_beaten = Scores-IsBeaten chosen candidates chunks h (
              sort_by-All (λ s. Some page_of (λ c. le c s ≡ true) (page_of s) chosen) le chunks
                some);
        })

    -- If floats are ordered as IEEE 754 says, `dense_rank` fails with the error of the first candidate
    -- that has no cosine with the query, and for no other reason. Otherwise it returns pages that
    -- differ, each with the rounded cosine of a chunk of it, by the cosines and the identities of the
    -- chunks; and no candidate is in front of the chunk that stands for its page.
    pub dense_rank-Answers :
        TotalOrder v.floats
        → (candidates : List (DenseCandidate G))
        → Answers candidates (dense_rank v query candidates)
    unfolding dense_rank
    dense_rank-Answers order candidates =
        ranks_of_scores order candidates (score_chunks v query candidates)
          (score_chunks-Scored candidates)
