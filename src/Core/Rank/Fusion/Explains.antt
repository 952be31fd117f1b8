-- ===== src/Core/Rank/Fusion/Explains.antt =====
-- `rrf_explained` of crates/yams-core/src/rank.rs against the ranks of a page in the sources.
use mathlib.Core.List.{append-nil, append_assoc}
use yams.Prelude.{
  ℕ, suc, ◌≡◌, ◌≢◌, refl, sym, ap, ◌∙◌, inl, inr, not, Option, none, some, List, [], ◌∷◌, ◌++◌, map,
  if◌then◌else◌, length, ok, Bool-cases, All, >>=-Steps, refuse_if, ok-injective,
}
use yams.Core.Text.{Text}
use yams.Core.Text.Firsts.{first_per, first_per-Distinct}
use yams.Core.Text.Maps.{IsOrdered, update, lookup, lookup-update, update-IsOrdered}
use yams.Core.Text.Order.{text_eq, text_eq_iff, Distinct}
use yams.Core.Text.Paths.{path_le, path_le-TextOrder}
use yams.Core.Rank.{Vectors}
use yams.Core.Rank.Cosine.{zero}
use yams.Core.Rank.Fusion.{
  RrfContribution, RrfScore, Scores, contribution, add_contribution, score_page, source_loop,
  itself, rankings_loop, validate_weights, rrf_explained,
}

map-itself : (pages : List Text) → map itself pages ≡ pages
map-itself [] = refl
map-itself (page ∷ pages) = ap (◌∷◌ page) (map-itself pages)

module _ {F G : Type 0} (v : Vectors F G) (rrf_k : ℕ) where
  -- What a source gives a page: nothing, or one contribution by the page's rank, counted from `rank`.
  abbrev pub from_source : ℕ → F → ℕ → Text → List Text → List (RrfContribution F)
  from_source source weight rank page [] = []
  from_source source weight rank page (p ∷ pages) =
      let rest = from_source source weight (suc rank) page pages in
      if text_eq page p then contribution v rrf_k source weight rank ∷ [] else rest

  -- What all sources give it, each ranking with its repeated pages left out.
  abbrev pub from_sources : ℕ → Text → List (List Text) → List F → List (RrfContribution F)
  from_sources source page [] weights = []
  from_sources source page (ranking ∷ rankings) [] = []
  from_sources source page (ranking ∷ rankings) (weight ∷ weights) =
      from_source source weight 1 page (first_per itself [] ranking)
      ++ from_sources (suc source) page rankings weights

  abbrev pub total_from : F → List (RrfContribution F) → F
  total_from total [] = total
  total_from total (c ∷ cs) = total_from (v.floats.add total c.score) cs

  -- The sum of the contributions in order, unless there is none.
  abbrev pub explained : List (RrfContribution F) → Option (RrfScore F)
  explained [] = none
  explained (c ∷ cs) =
      some (record { total = total_from (zero v) (c ∷ cs); contributions = c ∷ cs })

  total_from-append :
      (total : F) (cs : List (RrfContribution F)) (c : RrfContribution F)
      → total_from total (cs ++ (c ∷ [])) ≡ v.floats.add (total_from total cs) c.score
  total_from-append total [] c = refl
  total_from-append total (d ∷ cs) c = total_from-append (v.floats.add total d.score) cs c

  add_contribution-explained :
      (cs : List (RrfContribution F)) (c : RrfContribution F)
      → some (add_contribution v c (explained cs)) ≡ explained (cs ++ (c ∷ []))
  add_contribution-explained [] c = refl
  add_contribution-explained (d ∷ cs) c =
      ap (λ (t : F). some (record { total = t; contributions = d ∷ (cs ++ (c ∷ [])) }))
        (sym (total_from-append (zero v) (d ∷ cs) c))

  -- The scores say of each page what `given` does.
  pub record Explains (given : Text → List (RrfContribution F)) (scores : Scores F) : Type 0 where
    pub ordered : IsOrdered path_le scores
    pub says : (page : Text) → lookup page scores ≡ explained (given page)

  abbrev if_page : RrfContribution F → Text → Text → List (RrfContribution F)
  if_page c page p = if text_eq p page then c ∷ [] else []

  updated_says :
      (given : Text → List (RrfContribution F)) (scores : Scores F) (c : RrfContribution F)
      (page : Text)
      → ((p : Text) → lookup p scores ≡ explained (given p))
      → (p : Text)
      → (if text_eq p page
          then some (add_contribution v c (lookup page scores))
          else lookup p scores)
        ≡ explained (given p ++ if_page c page p)
  updated_says given scores c page says p = elim (Bool-cases (text_eq p page)) [
    | inl at ↦
        let same : page ≡ p = sym ((text_eq_iff p page).0 at) in
        let before : lookup page scores ≡ explained (given p) =
          says page ∙ ap (λ (q : Text). explained (given q)) same in
        rw at (
          ap (λ (o : Option (RrfScore F)). some (add_contribution v c o)) before
          ∙ add_contribution-explained (given p) c)
    | inr off ↦ rw (off, append-nil (given p)) (says p)
  ]

  score_page-Explains :
      (source : ℕ) (weight : F) (rank : ℕ) (page : Text) (given : Text → List (RrfContribution F))
      (scores : Scores F) {next : Scores F}
      → Explains given scores
      → score_page v rrf_k source weight rank page scores ≡ ok next
      → Explains (λ p. given p ++ if_page (contribution v rrf_k source weight rank) page p) next
  unfolding score_page
  score_page-Explains source weight rank page given scores {next} h e =
      let c = contribution v rrf_k source weight rank in
      let finite = >>=-Steps (refuse_if (not (v.floats.is_finite c.score)) _) _ e in
      let summed =
        >>=-Steps
          (refuse_if (not (v.floats.is_finite (add_contribution v c (lookup page scores)).total)) _)
          _ finite.next_ok in
      let same : update path_le page (add_contribution v c) scores ≡ next =
        ok-injective summed.next_ok in
      let made : Explains (λ p. given p ++ if_page c page p)
          (update path_le page (add_contribution v c) scores) =
        record {
          ordered =
              update-IsOrdered path_le path_le-TextOrder page (add_contribution v c) scores
                h.ordered;
          says = λ p.
              lookup-update path_le path_le-TextOrder p page (add_contribution v c) scores h.ordered
              ∙ updated_says given scores c page h.says p;
        } in
      rw same at made

  Explains_eq :
      (given other : Text → List (RrfContribution F)) (scores : Scores F)
      → ((p : Text) → given p ≡ other p)
      → Explains given scores
      → Explains other scores
  Explains_eq given other scores same h = record {
    ordered = h.ordered;
    says = λ p. h.says p ∙ ap explained (same p);
  }

  from_source-absent :
      (source : ℕ) (weight : F) (rank : ℕ) (page : Text) (pages : List Text)
      → All (λ p. page ≢ p) pages
      → from_source source weight rank page pages ≡ []
  from_source-absent source weight rank page [] h = refl
  from_source-absent source weight rank page (p ∷ pages) h = elim (Bool-cases (text_eq page p)) [
    | inl at ↦ absurd (h.0 ((text_eq_iff page p).0 at))
    | inr off ↦ rw off (from_source-absent source weight (suc rank) page pages h.1)
  ]

  first_then_rest :
      (source : ℕ) (weight : F) (rank : ℕ) (page : Text) (pages : List Text)
      → All (λ p. page ≢ p) pages
      → (before : List (RrfContribution F)) (p : Text)
      → (before ++ if_page (contribution v rrf_k source weight rank) page p)
          ++ from_source source weight (suc rank) p pages
        ≡ before ++ from_source source weight rank p (page ∷ pages)
  first_then_rest source weight rank page pages fresh before p =
      elim (Bool-cases (text_eq p page)) [
        | inl at ↦
            let same : page ≡ p = sym ((text_eq_iff p page).0 at) in
            let absent : from_source source weight (suc rank) p pages ≡ [] =
              ap (λ (q : Text). from_source source weight (suc rank) q pages) (sym same)
              ∙ from_source-absent source weight (suc rank) page pages fresh in
            rw (at, absent) (append-nil (before ++ (contribution v rrf_k source weight rank ∷ [])))
        | inr off ↦ rw (off, append-nil before) refl
      ]

  source_loop-Explains :
      (source : ℕ) (weight : F) (rank : ℕ) (pages : List Text)
      (given : Text → List (RrfContribution F)) (scores : Scores F) {next : Scores F}
      → Distinct pages
      → Explains given scores
      → source_loop v rrf_k source weight rank pages scores ≡ ok next
      → Explains (λ p. given p ++ from_source source weight rank p pages) next
  unfolding source_loop
  source_loop-Explains source weight rank [] given scores d h e =
      rw (ok-injective e) at
        (Explains_eq given (λ p. given p ++ []) scores (λ p. sym (append-nil (given p))) h)
  source_loop-Explains source weight rank (page ∷ pages) given scores {next} d h e =
      let c = contribution v rrf_k source weight rank in
      let scored = >>=-Steps (score_page v rrf_k source weight rank page scores) _ e in
      let one = score_page-Explains source weight rank page given scores h scored.first_ok in
      let rest =
        source_loop-Explains source weight (suc rank) pages (λ p. given p ++ if_page c page p)
          scored.value d.1 one scored.next_ok in
      Explains_eq
        (λ p. (given p ++ if_page c page p) ++ from_source source weight (suc rank) p pages)
        (λ p. given p ++ from_source source weight rank p (page ∷ pages)) next
        (λ p. first_then_rest source weight rank page pages d.0 (given p) p) rest

  rankings_loop-Explains :
      (source : ℕ) (rankings : List (List Text)) (weights : List F)
      (given : Text → List (RrfContribution F)) (scores : Scores F) {next : Scores F}
      → Explains given scores
      → rankings_loop v rrf_k source rankings weights scores ≡ ok next
      → Explains (λ p. given p ++ from_sources source p rankings weights) next
  unfolding rankings_loop
  rankings_loop-Explains source [] weights given scores h e =
      rw (ok-injective e) at
        (Explains_eq given (λ p. given p ++ []) scores (λ p. sym (append-nil (given p))) h)
  rankings_loop-Explains source (ranking ∷ rankings) [] given scores h e =
      rw (ok-injective e) at
        (Explains_eq given (λ p. given p ++ []) scores (λ p. sym (append-nil (given p))) h)
  rankings_loop-Explains source (ranking ∷ rankings) (weight ∷ weights) given scores {next} h e =
      let pages = first_per itself [] ranking in
      let scored = >>=-Steps (source_loop v rrf_k source weight 1 pages scores) _ e in
      let one =
        source_loop-Explains source weight 1 pages given scores
          (rw (map-itself pages) at (first_per-Distinct itself [] ranking)) h scored.first_ok in
      let rest =
        rankings_loop-Explains (suc source) rankings weights
          (λ p. given p ++ from_source source weight 1 p pages) scored.value one scored.next_ok in
      Explains_eq
        (λ p.
          (given p ++ from_source source weight 1 p pages)
          ++ from_sources (suc source) p rankings weights)
        (λ p. given p ++ from_sources source p (ranking ∷ rankings) (weight ∷ weights)) next
        (λ p.
          append_assoc (given p) (from_source source weight 1 p pages)
            (from_sources (suc source) p rankings weights))
        rest

  -- If `rrf_explained` returns scores, they are in the order of the pages, and a page that stands in no
  -- ranking has none; the score of another is the sum, in the order of the sources, of what each
  -- source that ranks it contributes: its weight over the sum of the offset and the page's rank
  -- there, counted from one with repeated pages left out.
  pub rrf_explained-Explains :
      (rankings : List (List Text)) (weights : List F) (scores : Scores F)
      → rrf_explained v rankings weights rrf_k ≡ ok scores
      → Explains (λ p. from_sources 0 p rankings weights) scores
  unfolding rrf_explained lookup
  rrf_explained-Explains rankings weights scores e =
      let valid = >>=-Steps (validate_weights v (length rankings) weights) _ e in
      rankings_loop-Explains 0 rankings weights (λ p. []) []
        (record { ordered = tt; says = λ p. refl }) valid.next_ok
