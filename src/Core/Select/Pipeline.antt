-- ===== src/Core/Select/Pipeline.antt =====
-- `SelectionConfig::new`, `validate_hit`, `selected_hit` and `select` of
-- crates/yams-core/src/select.rs.
pub mod Distinct
pub mod Rescue
pub mod Answers
use yams.Prelude.{
  ℕ, ◌-◌, zero, suc, Bool, true, false, not, ◌&&◌, ◌||◌, Option, none, some, List, [], ◌∷◌, ◌++◌,
  map, ltb, leb, ◌==◌, if◌then◌else◌, length, take, is_empty, any, Result, err, ok, ◌>>=◌, ◌>>◌,
  refuse_if,
}
use yams.Prelude.Sorting.{sort_by}
use yams.Core.Text.{Text}
use yams.Core.Text.Order.{text_eq, text_le}
use yams.Core.Floats.{Floats}
use yams.Core.Select.{
  ExitCode, ok_code, empty_code, unsure_code, GateMode, apply, bypass, SelectionConfig,
  RankContribution, SelectedChunk, RankedHit, SelectedHit, GateVerdict, SelectionError,
  non_finite_min_score, min_score_outside_cosine_range, non_finite_max_gap, negative_max_gap,
  missing_baseline_for_candidates, invalid_rank_signal,
}
use yams.Core.Select.Exact.{LiteralChunk, ExactMatch, exact_identifier_match}
use yams.Core.Select.Gate.{apply_gate}

pub record SelectionOutcome (F : Type 0) : Type 0 where
  pub query : Text
  pub hits : List (SelectedHit F)
  pub applied : Bool
  pub gate : Option (GateVerdict F)
  pub exit_code : ExitCode

abbrev is_zero : Option ℕ → Bool
is_zero none = false
is_zero (some n) = n == 0

abbrev pub is_apply : GateMode → Bool
is_apply apply = true
is_apply bypass = false

pub find_chunk : ExactMatch → List LiteralChunk → Option SelectedChunk
find_chunk matched [] = none
find_chunk matched (chunk ∷ chunks) =
    let rest = find_chunk matched chunks in
    if text_eq chunk.path matched.path && chunk.ordinal == matched.ordinal
    then some (record { ordinal = chunk.ordinal; text = chunk.text })
    else rest

abbrev pub exact_chunk : Option ExactMatch → Text → List LiteralChunk → Option SelectedChunk
exact_chunk none path chunks = none
exact_chunk (some matched) path chunks =
    if text_eq matched.path path then find_chunk matched chunks else none

abbrev pub choose_chunk :
    Option SelectedChunk → Option SelectedChunk → SelectedChunk → SelectedChunk
choose_chunk (some exact) lexical dense = exact
choose_chunk none (some lexical) dense = lexical
choose_chunk none none dense = dense

module _ {F : Type 0} where
  -- The order of the candidates: the rank, then the path, then the ordinal of the dense chunk.
  pub final_le : RankedHit F → RankedHit F → Bool
  final_le left right =
      if left.final_rank == right.final_rank
      then (if text_eq left.path right.path
          then leb left.dense_chunk.ordinal right.dense_chunk.ordinal
          else text_le left.path right.path)
      else leb left.final_rank right.final_rank

  -- `ordered.retain(|hit| seen.insert(hit.path.clone()))`
  pub retain_new : List Text → List (RankedHit F) → List (RankedHit F)
  retain_new seen [] = []
  retain_new seen (hit ∷ hits) =
      let seen_before = retain_new seen hits in
      let seen_now = retain_new (hit.path ∷ seen) hits in
      if any (text_eq hit.path) seen then seen_before else hit ∷ seen_now

  pub selected_hit : Option ExactMatch → List LiteralChunk → RankedHit F → SelectedHit F
  unfolding find_chunk
  selected_hit exact chunks hit = record {
    name = hit.name;
    path = hit.path;
    selected_chunk =
        choose_chunk (exact_chunk exact hit.path chunks) hit.lexical_chunk hit.dense_chunk;
    score = hit.score;
    exact = false;
    explanation = hit.explanation;
    labels = hit.labels;
  }

  abbrev pub set_exact : SelectedHit F → SelectedHit F
  set_exact hit = record {
    name = hit.name;
    path = hit.path;
    selected_chunk = hit.selected_chunk;
    score = hit.score;
    exact = true;
    explanation = hit.explanation;
    labels = hit.labels;
  }

  -- The element at `position(|hit| hit.path == path)`.
  pub find_path : Text → List (SelectedHit F) → Option (SelectedHit F)
  find_path path [] = none
  find_path path (hit ∷ hits) =
      let rest = find_path path hits in if text_eq hit.path path then some hit else rest

  -- The list, with `exact` set at that position.
  pub mark_path : Text → List (SelectedHit F) → List (SelectedHit F)
  mark_path path [] = []
  mark_path path (hit ∷ hits) =
      let rest = mark_path path hits in
      if text_eq hit.path path then set_exact hit ∷ hits else hit ∷ rest

  abbrev pub has_path : Text → List (SelectedHit F) → Bool
  has_path path hits = any (λ hit. text_eq hit.path path) hits

  -- The exact hit among the shown ones: marked where it is, or in the place of the last of a full
  -- list, or behind the others.
  pub show_hit : ℕ → SelectedHit F → List (SelectedHit F) → List (SelectedHit F)
  unfolding mark_path
  show_hit limit hit shown =
      if has_path hit.path shown
      then mark_path hit.path shown
      else if length shown == limit
      then take (length shown - 1) shown ++ set_exact hit ∷ []
      else shown ++ set_exact hit ∷ []

  pub find_exact : Option ExactMatch → List (SelectedHit F) → Option (SelectedHit F)
  unfolding find_path
  find_exact none selected = none
  find_exact (some matched) selected = find_path matched.path selected

  pub show_exact : ℕ → Option (SelectedHit F) → List (SelectedHit F) → List (SelectedHit F)
  unfolding show_hit
  show_exact limit none shown = shown
  show_exact limit (some hit) shown = if ltb 0 limit then show_hit limit hit shown else shown

  pub shown_hits :
      Option ExactMatch → ℕ → List LiteralChunk → List (RankedHit F) → List (SelectedHit F)
  unfolding final_le retain_new selected_hit find_exact show_exact
  shown_hits exact limit chunks ranked =
      let ordered = retain_new [] (sort_by final_le ranked) in
      let selected = map (selected_hit exact chunks) ordered in
      show_exact limit (find_exact exact selected) (take limit selected)

  abbrev pub exit_code_of : Option F → List (SelectedHit F) → ExitCode
  exit_code_of baseline (hit ∷ hits) = ok_code
  exit_code_of none [] = empty_code
  exit_code_of (some b) [] = unsure_code

  abbrev pub lacks_baseline : Option F → List (RankedHit F) → Bool
  lacks_baseline none ranked = not (is_empty ranked)
  lacks_baseline (some baseline) ranked = false

module _ {F : Type 0} (fl : Floats F) where
  -- `SelectionConfig::new`
  pub selection_config : ℕ → F → F → GateMode → Result SelectionError (SelectionConfig F)
  selection_config limit min_score max_gap gate_mode = do
    refuse_if (not (fl.is_finite min_score)) non_finite_min_score
    refuse_if
        (not (fl.le (fl.negate (fl.literal 1 0)) min_score && fl.le min_score (fl.literal 1 0)))
        min_score_outside_cosine_range
    refuse_if (not (fl.is_finite max_gap)) non_finite_max_gap
    refuse_if (fl.lt max_gap (fl.literal 0 0)) negative_max_gap
    ok (record { limit = limit; min_score = min_score; max_gap = max_gap; gate_mode = gate_mode })

  abbrev pub is_infinite_score : Option F → Bool
  is_infinite_score none = false
  is_infinite_score (some score) = not (fl.is_finite score)

  abbrev pub is_invalid_contribution : RankContribution F → Bool
  is_invalid_contribution contribution =
      contribution.rank == 0
      || not (fl.is_finite contribution.weight)
      || fl.lt contribution.weight (fl.literal 0 0)
      || not (fl.is_finite contribution.score)

  abbrev pub is_invalid_rank : RankedHit F → Bool
  is_invalid_rank hit =
      hit.final_rank == 0
      || is_zero hit.explanation.dense_rank
      || is_zero hit.explanation.bm25_rank
      || is_infinite_score hit.explanation.rrf_score
      || any is_invalid_contribution hit.explanation.contributions

  pub validate_hit : RankedHit F → Result SelectionError (Unit {0})
  validate_hit hit = if is_invalid_rank hit then err (invalid_rank_signal hit.path) else ok tt

  pub validate_hits : List (RankedHit F) → Result SelectionError (Unit {0})
  unfolding validate_hit
  validate_hits [] = ok tt
  validate_hits (hit ∷ hits) = validate_hit hit >> validate_hits hits

  abbrev pub gate_of :
      Option F
      → SelectionConfig F
      → List (SelectedHit F)
      → List (SelectedHit F) × Option (GateVerdict F)
  gate_of none config shown = ([], none)
  gate_of (some baseline) config shown =
      let gated = apply_gate fl shown baseline config in (gated.0, some gated.1)

  abbrev pub outcome :
      Text → Option F → SelectionConfig F → List (SelectedHit F) → SelectionOutcome F
  outcome query baseline config shown =
      let gated = gate_of baseline config shown in
      let hits = if is_apply config.gate_mode then gated.0 else shown in
      record {
        query = query;
        hits = hits;
        applied = is_apply config.gate_mode;
        gate = gated.1;
        exit_code = exit_code_of baseline hits;
      }

  unfoldable pub select :
      Text
      → Option F
      → List (RankedHit F)
      → List LiteralChunk
      → Option Text
      → SelectionConfig F
      → Result SelectionError (SelectionOutcome F)
  unfolding validate_hits shown_hits
  select query baseline ranked literal_chunks lexical_leader config = do
    validate_hits ranked
    refuse_if (lacks_baseline baseline ranked) missing_baseline_for_candidates
    let exact = exact_identifier_match query lexical_leader literal_chunks
    ok (outcome query baseline config (shown_hits exact config.limit literal_chunks ranked))
