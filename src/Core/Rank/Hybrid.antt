-- ===== src/Core/Rank/Hybrid.antt =====
-- `hybrid_rank` of crates/yams-core/src/rank.rs: dense and lexical ranks of pages, fused.
pub mod Indexed
pub mod Fuses
use yams.Prelude.{
  ℕ, suc, ◌+◌, Bool, true, false, Option, none, some, List, [], ◌∷◌, map, if◌then◌else◌, take,
  filter, is_empty, Result, ok, err, ◌>>=◌,
}
use yams.Prelude.Options
use yams.Prelude.Options.{map_some}
use yams.Prelude.Sorting.{sort_by}
use yams.Core.Text.{Text}
use yams.Core.Text.Firsts.{first_per}
use yams.Core.Text.Maps.{update, lookup}
use yams.Core.Text.Paths.{path_le}
use yams.Core.Floats.{Floats}
use yams.Core.Rank.{Vectors, ChunkId, RankError}
use yams.Core.Rank.Cosine.{one}
use yams.Core.Rank.Dense.{DenseRankedPage}
use yams.Core.Rank.Fusion.{RrfScore, Scores, total_order_le, rrf_explained}

abbrev pub rrf_k_shipped : ℕ
rrf_k_shipped = 60

abbrev pub candidates_limit : ℕ
candidates_limit = 25

pub record LexicalCandidate : Type 0 where
  pub chunk : ChunkId

pub record HybridRankedPage (F : Type 0) : Type 0 where
  pub dense : DenseRankedPage F
  pub lexical_chunk : Option ChunkId
  pub dense_rank : ℕ
  pub lexical_rank : Option ℕ
  pub fusion : Option (RrfScore F)

-- Elements with their ranks, by page; of one page the last.
unfoldable pub insert_ranked :
    {A : Type 0} → (A → Text) → ℕ → List A → List (Text × (ℕ × A)) → List (Text × (ℕ × A))
unfolding update
insert_ranked page_of rank [] m = m
insert_ranked page_of rank (x ∷ xs) m =
    insert_ranked page_of (suc rank) xs (update path_le (page_of x) (λ old. (rank, x)) m)

abbrev pub lexical_page : LexicalCandidate → Text
lexical_page candidate = candidate.chunk.page

abbrev pub dense_page : {F : Type 0} → DenseRankedPage F → Text
dense_page page = page.chunk.page

abbrev pub is_present : {V : Type 0} → Option V → Bool
is_present none = false
is_present (some value) = true

-- `contains_key`
abbrev pub has_key : {V : Type 0} → List (Text × V) → Text → Bool
has_key m page = is_present (lookup page m)

unfoldable pub lexical_pages : List LexicalCandidate → List LexicalCandidate
unfolding first_per
lexical_pages lexical = take candidates_limit (first_per lexical_page [] lexical)

module _ {F G : Type 0} (v : Vectors F G) where
  abbrev pub lexical_weight : F
  lexical_weight = v.floats.literal 2 1

  -- The result without a usable lexical page.
  unfoldable pub dense_only : ℕ → List (DenseRankedPage F) → List (HybridRankedPage F)
  dense_only rank [] = []
  dense_only rank (page ∷ pages) =
      record {
        dense = page;
        lexical_chunk = none;
        dense_rank = rank;
        lexical_rank = none;
        fusion = none;
      }
      ∷ dense_only (suc rank) pages

  -- The comparator is not `Greater`; an entry is a key with its score.
  abbrev pub entry_le : Text × RrfScore F → Text × RrfScore F → Bool
  entry_le left right = total_order_le v (left.0, left.1.total) (right.0, right.1.total)

  abbrev pub hybrid_page :
      Text × RrfScore F → ℕ × DenseRankedPage F → Option (ℕ × LexicalCandidate) → HybridRankedPage F
  hybrid_page scored ranked lexical = record {
    dense = ranked.1;
    lexical_chunk = map_some (λ l. l.1.chunk) lexical;
    dense_rank = ranked.0;
    lexical_rank = map_some (λ l. l.0) lexical;
    fusion = some scored.1;
  }

  -- The last `map`; there is no result if `dense_by_page` lacks a page, and the code panics.
  unfoldable pub hybrid_pages :
      List (Text × (ℕ × DenseRankedPage F))
      → List (Text × (ℕ × LexicalCandidate))
      → List (Text × RrfScore F)
      → Option (List (HybridRankedPage F))
  unfolding lookup
  hybrid_pages dense_by_page lexical_rank [] = some []
  hybrid_pages dense_by_page lexical_rank (scored ∷ order) =
      Options.◌>>=◌ (lookup scored.0 dense_by_page) (λ ranked.
        Options.◌>>=◌ (hybrid_pages dense_by_page lexical_rank order)
          (λ rest. some (hybrid_page scored ranked (lookup scored.0 lexical_rank) ∷ rest)))

  abbrev pub usable_lexical : List (DenseRankedPage F) → List LexicalCandidate → List Text
  usable_lexical dense pages =
      map lexical_page
        (filter (λ c. has_key (insert_ranked dense_page 1 dense []) (lexical_page c)) pages)

  abbrev pub rankings : List (DenseRankedPage F) → List LexicalCandidate → List (List Text)
  rankings dense pages =
      map dense_page (take candidates_limit dense) ∷ usable_lexical dense pages ∷ []

  unfoldable pub hybrid_rank :
      List (DenseRankedPage F)
      → List LexicalCandidate
      → ℕ
      → Result RankError (Option (List (HybridRankedPage F)))
  unfolding lexical_pages dense_only hybrid_pages total_order_le rrf_explained insert_ranked
  hybrid_rank dense lexical limit =
      let pages = lexical_pages lexical in
      if is_empty (usable_lexical dense pages)
      then ok (some (dense_only 1 (take limit dense)))
      else (do
        scores ← rrf_explained v (rankings dense pages) (one v ∷ lexical_weight ∷ []) rrf_k_shipped
        ok (
            hybrid_pages (insert_ranked dense_page 1 dense [])
              (insert_ranked lexical_page 1 pages []) (take limit (sort_by entry_le scores))))
