-- ===== src/Core/Select/Pipeline/Answers.antt =====
-- Every answer of `select` in crates/yams-core/src/select.rs, errors included.
use yams.Prelude.{
  ℕ, ◌≡◌, ◌≢◌, refl, ◌⊎◌, inl, inr, Bool, true, false, ◌||◌, Option, none, some, List, [], ◌∷◌,
  arith, filter, filter-length, All, Bool-cases, Result, err, ok, refuse_if, ◌>>◌,
}
use yams.Core.Text.{Text}
use yams.Core.Text.Order.{Distinct}
use yams.Core.Floats.{Floats}
use yams.Core.Select.{
  ExitCode, ok_code, empty_code, unsure_code, usage_code, operational_code, SelectionConfig,
  RankedHit, SelectedHit, SelectionError, non_finite_min_score, min_score_outside_cosine_range,
  non_finite_max_gap, negative_max_gap, missing_baseline_for_candidates, invalid_rank_signal,
}
use yams.Core.Select.Exact.{LiteralChunk, exact_identifier_match}
use yams.Core.Select.Gate.Kept.{within, apply_gate-Sorts}
use yams.Core.Select.Pipeline.{
  SelectionOutcome, shown_hits, outcome, is_apply, exit_code_of, is_invalid_rank, validate_hit,
  validate_hits, lacks_baseline, select,
}
use yams.Core.Select.Pipeline.Distinct.{paths, IsPage, shown_hits-IsPage}

module _ {F : Type 0} where
  All-paths-filter :
      (path : Text) (p : SelectedHit F → Bool) (hits : List (SelectedHit F))
      → All (λ u. path ≢ u) (paths hits)
      → All (λ u. path ≢ u) (paths (filter p hits))
  All-paths-filter path p [] h = tt
  All-paths-filter path p (hit ∷ hits) h = elim (Bool-cases (p hit)) [
    | inl kept ↦ rw kept (h.0, All-paths-filter path p hits h.1)
    | inr dropped ↦ rw dropped (All-paths-filter path p hits h.1)
  ]

  Distinct-filter :
      (p : SelectedHit F → Bool) (hits : List (SelectedHit F))
      → Distinct (paths hits)
      → Distinct (paths (filter p hits))
  Distinct-filter p [] h = tt
  Distinct-filter p (hit ∷ hits) h = elim (Bool-cases (p hit)) [
    | inl kept ↦ rw kept (All-paths-filter hit.path p hits h.0, Distinct-filter p hits h.1)
    | inr dropped ↦ rw dropped (Distinct-filter p hits h.1)
  ]

  IsPage-filter :
      (limit : ℕ) (p : SelectedHit F → Bool) (hits : List (SelectedHit F))
      → IsPage limit hits
      → IsPage limit (filter p hits)
  IsPage-filter limit p hits page = (
    let e = filter-length p hits in let room = page.0 in omega arith,
    Distinct-filter p hits page.1,
  )

  -- The exit code says what there is to show, and whether there was a corpus to search.
  abbrev pub IsCode : Option F → List (SelectedHit F) → ExitCode → Type 0
  IsCode baseline hits ok_code = hits ≢ []
  IsCode baseline hits empty_code = (hits ≡ []) × (baseline ≡ none)
  IsCode baseline hits unsure_code = (hits ≡ []) × (baseline ≢ none)
  IsCode baseline hits usage_code = ⊥
  IsCode baseline hits operational_code = ⊥

  exit_code_of-IsCode :
      (baseline : Option F) (hits : List (SelectedHit F))
      → IsCode baseline hits (exit_code_of baseline hits)
  exit_code_of-IsCode baseline (hit ∷ hits) = ground arith
  exit_code_of-IsCode none [] = (refl, refl)
  exit_code_of-IsCode (some b) [] = (refl, ground arith)

module _ {F : Type 0} (fl : Floats F) where
  outcome-IsPage :
      (query : Text) (baseline : Option F) (config : SelectionConfig F)
      (shown : List (SelectedHit F))
      → IsPage config.limit shown
      → IsPage config.limit (outcome fl query baseline config shown).hits
  outcome-IsPage query none config shown page = elim (Bool-cases (is_apply config.gate_mode)) [
    | inl applied ↦ rw applied (omega arith, tt)
    | inr bypassed ↦ rw bypassed page
  ]
  outcome-IsPage query (some baseline) config shown page =
      elim (Bool-cases (is_apply config.gate_mode)) [
        | inl applied ↦
            rw (applied, (apply_gate-Sorts fl shown baseline config).kept)
              (IsPage-filter config.limit (λ hit. within fl shown baseline config hit || hit.exact)
                shown page)
        | inr bypassed ↦ rw bypassed page
      ]

  abbrev pub IsValidHit : RankedHit F → Type 0
  IsValidHit hit = is_invalid_rank fl hit ≡ false

  -- The first invalid hit has this path.
  abbrev pub FirstInvalid : Text → List (RankedHit F) → Type 0
  FirstInvalid path [] = ⊥
  FirstInvalid path (hit ∷ hits) =
      ((is_invalid_rank fl hit ≡ true) × (hit.path ≡ path))
      ⊎ (IsValidHit hit × FirstInvalid path hits)

  abbrev pub Answers :
      Option F → List (RankedHit F) → ℕ → Result SelectionError (SelectionOutcome F) → Type 0
  Answers baseline ranked limit (err (invalid_rank_signal path)) = FirstInvalid path ranked
  Answers baseline ranked limit (err missing_baseline_for_candidates) =
      All IsValidHit ranked × (baseline ≡ none) × (ranked ≢ [])
  Answers baseline ranked limit (err _) = ⊥
  Answers baseline ranked limit (ok out) =
      All IsValidHit ranked
      × ((baseline ≢ none) ⊎ (ranked ≡ []))
      × IsPage limit out.hits
      × IsCode baseline out.hits out.exit_code

  -- The checks of the hits stop at the first invalid one.
  abbrev Validates : List (RankedHit F) → Result SelectionError (Unit {0}) → Type 0
  Validates ranked (err (invalid_rank_signal path)) = FirstInvalid path ranked
  Validates ranked (err _) = ⊥
  Validates ranked (ok _) = All IsValidHit ranked

  Validates-cons :
      (hit : RankedHit F) (hits : List (RankedHit F)) (r : Result SelectionError (Unit {0}))
      → IsValidHit hit
      → Validates hits r
      → Validates (hit ∷ hits) r
  Validates-cons hit hits (err (invalid_rank_signal path)) valid h = inr (valid, h)
  Validates-cons hit hits (err non_finite_min_score) valid h = absurd h
  Validates-cons hit hits (err min_score_outside_cosine_range) valid h = absurd h
  Validates-cons hit hits (err non_finite_max_gap) valid h = absurd h
  Validates-cons hit hits (err negative_max_gap) valid h = absurd h
  Validates-cons hit hits (err missing_baseline_for_candidates) valid h = absurd h
  Validates-cons hit hits (ok _) valid h = (valid, h)

  validate_hits-Validates :
      (ranked : List (RankedHit F)) → Validates ranked (validate_hits fl ranked)
  unfolding validate_hits validate_hit
  validate_hits-Validates [] = tt
  validate_hits-Validates (hit ∷ hits) = elim (Bool-cases (is_invalid_rank fl hit)) [
    | inl invalid ↦ rw invalid (inl (invalid, refl))
    | inr valid ↦
        rw valid
          (Validates-cons hit hits (validate_hits fl hits) valid (validate_hits-Validates hits))
  ]

  answer :
      (baseline : Option F) (ranked : List (RankedHit F)) (limit : ℕ)
      (checked : Result SelectionError (Unit {0})) (out : SelectionOutcome F)
      → Validates ranked checked
      → IsPage limit out.hits
      → IsCode baseline out.hits out.exit_code
      → Answers baseline ranked limit (
          checked
          >> refuse_if (lacks_baseline baseline ranked) missing_baseline_for_candidates
          >> ok out)
  answer baseline ranked limit (err (invalid_rank_signal path)) out v page code = v
  answer baseline ranked limit (err non_finite_min_score) out v page code = absurd v
  answer baseline ranked limit (err min_score_outside_cosine_range) out v page code = absurd v
  answer baseline ranked limit (err non_finite_max_gap) out v page code = absurd v
  answer baseline ranked limit (err negative_max_gap) out v page code = absurd v
  answer baseline ranked limit (err missing_baseline_for_candidates) out v page code = absurd v
  answer none [] limit (ok _) out v page code = (v, inr refl, page, code)
  answer none (hit ∷ hits) limit (ok _) out v page code = (v, refl, ground arith)
  answer (some b) ranked limit (ok _) out v page code = (v, inl (ground arith), page, code)

  -- `select` refuses exactly the first hit with an invalid rank signal, or candidates without a
  -- baseline. Else there is a baseline or no candidate, and it returns at most `limit` hits on pages
  -- that differ, with the exit code that tells hits from none, and none from an empty corpus.
  pub select-Answers :
      (query : Text) (baseline : Option F) (ranked : List (RankedHit F))
      (chunks : List LiteralChunk) (leader : Option Text) (config : SelectionConfig F)
      → Answers baseline ranked config.limit (select fl query baseline ranked chunks leader config)
  unfolding select
  select-Answers query baseline ranked chunks leader config =
      let shown =
        shown_hits (exact_identifier_match query leader chunks) config.limit chunks ranked in
      let out = outcome fl query baseline config shown in
      answer baseline ranked config.limit (validate_hits fl ranked) out
        (validate_hits-Validates ranked)
        (outcome-IsPage query baseline config shown (
          shown_hits-IsPage (exact_identifier_match query leader chunks) config.limit chunks
            ranked))
        (exit_code_of-IsCode baseline out.hits)
