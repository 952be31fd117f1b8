-- ===== src/Core/Rank/Tests.antt =====
-- Runs of crates/yams-core/src/rank.rs on scores in hundredths.
use yams.Prelude.{
  ℕ, zero, suc, ◌*◌, ◌≡◌, ◌≢◌, refl, true, false, some, List, [], ◌∷◌, map, arith, ltb, ◌==◌, ok,
  err,
}
use yams.Prelude.Sorting.{sort_by, insert_by}
use yams.Core.Text.{Text, characters, split}
use yams.Core.Text.Firsts.{first_per}
use yams.Core.Text.Paths.{path_le}
use yams.Core.Text.Order.{Distinct, text_eq_iff, text_eq, text_le}
use yams.Core.Floats.{hundredths, hundredths-TotalOrder}
use yams.Core.Rank.{Vectors, ChunkId, chunk_id_le, dimension_mismatch, zero_norm, right_side}
use yams.Core.Rank.Cosine.{cosine, normalize_score}
use yams.Core.Rank.Cosine.Range.{UnitRange}
use yams.Core.Rank.Dense.{DenseCandidate, DenseRankedPage, dense_rank}
use yams.Core.Rank.Dense.Best
use yams.Core.Rank.Dense.Best.{dense_rank-Answers}
use yams.Core.Rank.Fusion.{Scores, rrf_explained}
use yams.Core.Rank.Fusion.Explains.{Explains, from_sources, rrf_explained-Explains}
use yams.Core.Rank.Hybrid.{LexicalCandidate, hybrid_rank, dense_page}
use yams.Core.Rank.Hybrid.Fuses
use yams.Core.Rank.Hybrid.Fuses.{hybrid_rank-Answers}

-- The greatest number whose square is not greater than `n`, from `k` down.
abbrev root_from : ℕ → ℕ → ℕ
root_from zero n = zero
root_from (suc k) n =
    let lower = root_from k n in elim (ltb n (suc k * suc k)) [ true ↦ lower | false ↦ suc k ]

abbrev vectors : Vectors ℕ ℕ
vectors = record {
  floats = hundredths;
  component_is_finite = λ n. true;
  widen = λ n. n * 100;
  of_nat = λ n. n * 100;
  eq = ◌==◌;
  sqrt = λ n. root_from 200 (n * 100);
  round4 = λ n. n;
}

hundredths-UnitRange : UnitRange hundredths
hundredths-UnitRange = record {
  lt-le = λ a b fa fb h. ground arith;
  one_finite = refl;
  minus_finite = refl;
  minus_le_one = refl;
  one_le_one = refl;
  minus_le_minus = refl;
}

abbrev chunk_at : Text → ℕ → ChunkId
chunk_at page ordinal = record { page = page; ordinal = ordinal }

abbrev a_page : Text
a_page = characters "/a"

abbrev b_page : Text
b_page = characters "/b"

abbrev candidates : List (DenseCandidate ℕ)
candidates =
    record { id = chunk_at a_page 0; vector = 1 ∷ 0 ∷ [] }
    ∷ record { id = chunk_at b_page 0; vector = 0 ∷ 1 ∷ [] }
    ∷ record { id = chunk_at a_page 1; vector = 0 ∷ 1 ∷ [] }
    ∷ []

abbrev query : List ℕ
query = 0 ∷ 1 ∷ []

abbrev dense : List (DenseRankedPage ℕ)
dense =
    record { chunk = chunk_at a_page 1; score = 100 }
    ∷ record { chunk = chunk_at b_page 0; score = 100 }
    ∷ []

ranked : dense_rank vectors query candidates ≡ ok dense
unfolding dense_rank cosine normalize_score sort_by insert_by first_per chunk_id_le text_eq path_le
    split text_le
ranked = refl

mismatched : cosine vectors query (1 ∷ []) ≡ err (dimension_mismatch 2 1)
unfolding cosine
mismatched = refl

vanishing : cosine vectors query (0 ∷ 0 ∷ []) ≡ err (zero_norm right_side)
unfolding cosine
vanishing = refl

dense_rank-Answers_example :
    Best.Answers vectors query candidates (dense_rank vectors query candidates)
dense_rank-Answers_example =
    dense_rank-Answers vectors query hundredths-UnitRange hundredths-TotalOrder candidates

abbrev sources : List (List Text)
sources = (a_page ∷ b_page ∷ []) ∷ (b_page ∷ b_page ∷ []) ∷ []

abbrev fused : Scores ℕ
fused =
    (
      a_page,
      record {
        total = 163;
        contributions = record { source = 0; rank = 1; weight = 10000; score = 163 } ∷ [];
      },
    )
    ∷ (
      b_page,
      record {
        total = 193;
        contributions =
            record { source = 0; rank = 2; weight = 10000; score = 161 }
            ∷ record { source = 1; rank = 1; weight = 2000; score = 32 }
            ∷ [];
      },
    )
    ∷ []

fused_sources : rrf_explained vectors sources (10000 ∷ 2000 ∷ []) 60 ≡ ok fused
unfolding rrf_explained first_per text_eq path_le split text_le
fused_sources = refl

rrf_explained-Explains_example :
    Explains vectors 60 (λ p. from_sources vectors 60 0 p sources (10000 ∷ 2000 ∷ [])) fused
rrf_explained-Explains_example =
    rrf_explained-Explains vectors 60 sources (10000 ∷ 2000 ∷ []) fused fused_sources

abbrev lexical : List LexicalCandidate
lexical =
    record { chunk = chunk_at b_page 3 } ∷ record { chunk = chunk_at (characters "/c") 0 } ∷ []

a-ne-b : a_page ≢ b_page
unfolding text_eq
a-ne-b e = let t = (text_eq_iff a_page b_page).1 e in cc

dense-Distinct : Distinct (map dense_page dense)
dense-Distinct = ((a-ne-b, tt), (tt, tt))

hybrid_rank-Answers_example :
    Fuses.Answers vectors dense lexical 1 (hybrid_rank vectors dense lexical 1)
hybrid_rank-Answers_example =
    hybrid_rank-Answers vectors dense lexical 1 hundredths-TotalOrder dense-Distinct

-- Equal totals go by the path.
tied :
    map
      (λ h. h.dense.chunk.page)
      (elim (hybrid_rank vectors dense lexical 1) [ ok (some pages) ↦ pages | other ↦ [] ])
    ≡ a_page ∷ []
unfolding hybrid_rank first_per text_eq path_le split text_le sort_by insert_by
tied = refl
