-- ===== src/Core/Rank/Hybrid/Fuses.antt =====
-- What `hybrid_rank` of crates/yams-core/src/rank.rs returns.
use yams.Prelude.{
  ℕ, ◌≡◌, refl, sym, ap, ◌∙◌, ◌≢◌, ◌⊎◌, inl, inr, Bool, true, false, Option, none, some, List, [],
  ◌∷◌, map, take, filter, is_empty, Result, ok, err, ◌>>=◌, All, All-take, All-map, map-take,
  if_lem,
}
use yams.Prelude.Options.{map_some}
use yams.Prelude.Sorting.{IsSorted, sort_by, All-sort_by, sort_by-IsSorted}
use yams.Core.Text.{Text}
use yams.Core.Text.Maps.{lookup}
use yams.Core.Text.Order.{Distinct, Distinct-take}
use yams.Core.Floats.{TotalOrder}
use yams.Core.Rank.{Vectors, RankError}
use yams.Core.Text.Firsts.{first_per, first_per-Distinct}
use yams.Core.Text.Paths.{path_le, path_le-TextOrder}
use yams.Core.Rank.Descending.{descending_le, descending_le_trans, descending_le_total}
use yams.Core.Rank.Cosine.{one}
use yams.Core.Rank.Dense.{DenseRankedPage}
use yams.Core.Rank.Fusion.{RrfScore, Scores, total_order_le, rrf_explained}
use yams.Core.Rank.Fusion.Explains.{Explains, from_sources, rrf_explained-Explains}
use yams.Core.Rank.Fusion.Pages.{rrf_explained-keys}
use yams.Core.Rank.Hybrid.{
  rrf_k_shipped, candidates_limit, LexicalCandidate, HybridRankedPage, insert_ranked, lexical_page,
  dense_page, is_present, has_key, lexical_pages, lexical_weight, dense_only, entry_le, hybrid_page,
  hybrid_pages, usable_lexical, rankings, hybrid_rank,
}
use yams.Core.Rank.Hybrid.Indexed.{
  found, IsThere, IsFound, lookup-insert_ranked, found-IsFound, found_member,
}

lexical_pages-Distinct :
    (lexical : List LexicalCandidate) → Distinct (map lexical_page (lexical_pages lexical))
unfolding lexical_pages
lexical_pages-Distinct lexical =
    let kept = first_per lexical_page [] lexical in
    rw (sym (map-take lexical_page candidates_limit kept)) at (
      Distinct-take candidates_limit (map lexical_page kept)
        (first_per-Distinct lexical_page [] lexical))

is_present-some : {V : Type 0} (o : Option V) → is_present o ≡ true → (a : V) × (o ≡ some a)
is_present-some none h = cc
is_present-some (some a) h = (a, refl)

module _ {F G : Type 0} (v : Vectors F G) (order : TotalOrder v.floats) where
  abbrev total_of : Text × RrfScore F → F
  total_of e = e.1.total

  abbrev page_tie : Text × RrfScore F → Text × RrfScore F → Bool
  page_tie l r = path_le l.0 r.0

  entry_le_trans :
      (a b c : Text × RrfScore F)
      → entry_le v a b ≡ true
      → entry_le v b c ≡ true
      → entry_le v a c ≡ true
  unfolding total_order_le descending_le
  entry_le_trans a b c p q =
      descending_le_trans v.floats total_of page_tie order a b c
        (path_le-TextOrder.le_trans a.0 b.0 c.0) p q

  entry_le_total : (a b : Text × RrfScore F) → (entry_le v a b ≡ true) ⊎ (entry_le v b a ≡ true)
  unfolding total_order_le descending_le
  entry_le_total a b =
      descending_le_total v.floats total_of page_tie order a b (path_le-TextOrder.le_total a.0 b.0)

module _ {F G : Type 0} (v : Vectors F G) (dense : List (DenseRankedPage F))
    (lexical : List LexicalCandidate) where
  -- A page of the result for a scored page: its place among the dense pages, its first place among the
  -- lexical ones, and its score.
  pub record IsShown (scored : Text × RrfScore F) (shown : HybridRankedPage F) : Type 0 where
    pub dense_place : IsFound dense_page 1 scored.0 dense (shown.dense_rank, shown.dense)
    pub lexical_place :
        shown.lexical_rank
        ≡ map_some (λ l. l.0) (found lexical_page 1 scored.0 (lexical_pages lexical))
    pub lexical_text :
        shown.lexical_chunk
        ≡ map_some (λ l. l.1.chunk) (found lexical_page 1 scored.0 (lexical_pages lexical))
    pub fused : shown.fusion ≡ some scored.1

  abbrev pub AllShown : List (Text × RrfScore F) → List (HybridRankedPage F) → Type 0
  AllShown [] [] = Unit
  AllShown (scored ∷ order) (shown ∷ rest) = IsShown scored shown × AllShown order rest
  AllShown _ _ = ⊥

  abbrev pub weights : List F
  weights = one v ∷ lexical_weight v ∷ []

  -- The first pages of the scored ones in order.
  pub record Fuses (limit : ℕ) (pages : List (HybridRankedPage F)) : Type 0 where
    pub scores : Scores F
    pub explained :
        Explains v rrf_k_shipped
          (λ page.
            from_sources v rrf_k_shipped 0 page (rankings v dense (lexical_pages lexical)) weights)
          scores
    pub in_order : IsSorted (entry_le v) (sort_by (entry_le v) scores)
    pub shown : AllShown (take limit (sort_by (entry_le v) scores)) pages

  abbrev pub Answers : ℕ → Result RankError (Option (List (HybridRankedPage F))) → Type 0
  Answers limit (err error) =
      rrf_explained v (rankings v dense (lexical_pages lexical)) weights rrf_k_shipped ≡ err error
  Answers limit (ok none) = ⊥
  Answers limit (ok (some pages)) =
      ((usable_lexical v dense (lexical_pages lexical) ≡ [])
        × (pages ≡ dense_only v 1 (take limit dense)))
      ⊎ ((usable_lexical v dense (lexical_pages lexical) ≢ []) × Fuses limit pages)

  module _ (dense_distinct : Distinct (map dense_page dense))
      (lexical_distinct : Distinct (map lexical_page (lexical_pages lexical))) where
    hybrid_pages-AllShown :
        (order : List (Text × RrfScore F))
        → All (λ e. IsThere dense_page dense e.0) order
        → (pages : List (HybridRankedPage F)) × (hybrid_pages v
              (insert_ranked dense_page 1 dense [])
              (insert_ranked lexical_page 1 (lexical_pages lexical) [])
              order
            ≡ some pages)
          × AllShown order pages
    unfolding hybrid_pages
    hybrid_pages-AllShown [] h = ([], refl, tt)
    hybrid_pages-AllShown (scored ∷ order) h =
        let (at, e) = h.0 in
        let (rest, e_rest, shown) = hybrid_pages-AllShown order h.1 in
        let dense_at : lookup scored.0 (insert_ranked dense_page 1 dense []) ≡ some at =
          lookup-insert_ranked dense_page scored.0 dense dense_distinct ∙ e in
        let lexical_at =
          lookup-insert_ranked lexical_page scored.0 (lexical_pages lexical) lexical_distinct in
        let page : HybridRankedPage F =
          hybrid_page v scored at
            (lookup scored.0 (insert_ranked lexical_page 1 (lexical_pages lexical) [])) in
        (
          page ∷ rest,
          rw (dense_at, e_rest) refl,
          (
            record {
              dense_place = found-IsFound dense_page 1 scored.0 dense at e;
              lexical_place = ap (map_some (λ (l : ℕ × LexicalCandidate). l.0)) lexical_at;
              lexical_text = ap (map_some (λ (l : ℕ × LexicalCandidate). l.1.chunk)) lexical_at;
              fused = refl;
            },
            shown,
          ),
        )

    usable-IsThere :
        (pages : List LexicalCandidate)
        → All (IsThere dense_page dense) (
            map lexical_page
              (filter (λ c. has_key (insert_ranked dense_page 1 dense []) (lexical_page c)) pages))
    usable-IsThere [] = tt
    usable-IsThere (c ∷ pages) =
        let rest = usable-IsThere pages in
        let there = lookup-insert_ranked dense_page (lexical_page c) dense dense_distinct in
        if_lem (λ kept. All (IsThere dense_page dense) (map lexical_page kept))
          (has_key (insert_ranked dense_page 1 dense []) (lexical_page c))
          (λ present.
            let (at, e) =
              is_present-some (lookup (lexical_page c) (insert_ranked dense_page 1 dense []))
                present in
            ((at, sym there ∙ e), rest))
          (λ absent. rest)

    rankings-IsThere :
        All (All (IsThere dense_page dense)) (rankings v dense (lexical_pages lexical))
    rankings-IsThere = (
      rw (map-take dense_page candidates_limit dense) (
          All-take (IsThere dense_page dense) candidates_limit (map dense_page dense)
            (found_member dense_page 1 dense)),
      (usable-IsThere (lexical_pages lexical), tt),
    )

    fused-Answers :
        (limit : ℕ) (order : TotalOrder v.floats) (r : Result RankError (Scores F))
        → usable_lexical v dense (lexical_pages lexical) ≢ []
        → rrf_explained v (rankings v dense (lexical_pages lexical)) weights rrf_k_shipped ≡ r
        → Answers limit (
            r >>= (λ scores. ok (
              hybrid_pages v
                (insert_ranked dense_page 1 dense [])
                (insert_ranked lexical_page 1 (lexical_pages lexical) [])
                (take limit (sort_by (entry_le v) scores)))))
    fused-Answers limit order (err error) usable e = e
    fused-Answers limit order (ok scores) usable e =
        let there : All (λ s. IsThere dense_page dense s.0) scores =
          All-map (IsThere dense_page dense) (λ s. s.0) scores
            (rrf_explained-keys v rrf_k_shipped (IsThere dense_page dense)
              (rankings v dense (lexical_pages lexical)) weights scores rankings-IsThere e) in
        let sorted = sort_by (entry_le v) scores in
        let (pages, made, shown) = hybrid_pages-AllShown (take limit sorted) (
          All-take (λ s. IsThere dense_page dense s.0) limit sorted
            (All-sort_by (λ s. IsThere dense_page dense s.0) (entry_le v) scores there)) in
        rw made (
          inr (
            usable,
            record {
              scores = scores;
              explained =
                  rrf_explained-Explains v rrf_k_shipped (rankings v dense (lexical_pages lexical))
                    weights scores e;
              in_order =
                  sort_by-IsSorted (entry_le v) (entry_le_trans v order) (entry_le_total v order)
                    scores;
              shown = shown;
            },
          ))

is_empty-nil : {A : Type 0} (xs : List A) → is_empty xs ≡ true → xs ≡ []
is_empty-nil [] h = refl
is_empty-nil (x ∷ xs) h = cc

is_empty-ne-nil : {A : Type 0} (xs : List A) → is_empty xs ≡ false → xs ≢ []
is_empty-ne-nil [] h e = cc
is_empty-ne-nil (x ∷ xs) h e = cc

-- If the dense pages differ, `hybrid_rank` does not panic, and only `rrf_explained` makes it fail.
-- Without a lexical page that is dense it returns the first dense pages in their order. Otherwise it
-- returns the first of the pages that the two sources rank, at most CANDIDATES each, by their fused
-- totals, descending, and their paths; each with its place among the dense pages, its place and first
-- chunk among the lexical ones, if it has any, and the contributions of its score.
pub hybrid_rank-Answers :
    {F G : Type 0} (v : Vectors F G) (dense : List (DenseRankedPage F))
    (lexical : List LexicalCandidate) (limit : ℕ)
    → TotalOrder v.floats
    → Distinct (map dense_page dense)
    → Answers v dense lexical limit (hybrid_rank v dense lexical limit)
unfolding hybrid_rank
hybrid_rank-Answers v dense lexical limit order distinct =
    if_lem (Answers v dense lexical limit)
      (is_empty (usable_lexical v dense (lexical_pages lexical)))
      (λ none_usable. inl (is_empty-nil _ none_usable, refl))
      (λ usable.
        fused-Answers v dense lexical distinct (lexical_pages-Distinct lexical) limit order
          (rrf_explained v (rankings v dense (lexical_pages lexical)) (weights v dense lexical)
            rrf_k_shipped)
          (is_empty-ne-nil _ usable) refl)
