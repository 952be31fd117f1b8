-- ===== src/Core/Select/Gate.antt =====
-- `apply_gate` of crates/yams-core/src/select.rs. Its two loops sort the hits into kept, dropped and
-- rescued; each round of a loop is a step here.
pub mod Kept
pub mod Best
use yams.Prelude.{
  Bool, true, false, ◌||◌, Option, none, some, List, [], ◌∷◌, ◌++◌, if◌then◌else◌, is_empty,
}
use yams.Core.Floats.{Floats}
use yams.Core.Select.{SelectionConfig, SelectedHit, GateHit, GateVerdict}

pub record Gated (F : Type 0) : Type 0 where
  pub kept : List (SelectedHit F)
  pub dropped : List (GateHit F)
  pub rescued : List (GateHit F)

module _ {F : Type 0} where
  -- `GateHit::from_hit`
  abbrev pub from_hit : SelectedHit F → GateHit F
  from_hit hit = record { path = hit.path; score = hit.score }

  abbrev pub none_gated : Gated F
  none_gated = record { kept = []; dropped = []; rescued = [] }

  pub floor_step : Gated F → SelectedHit F → Gated F
  floor_step g hit =
      if hit.exact
      then record g { kept = g.kept ++ hit ∷ []; rescued = g.rescued ++ from_hit hit ∷ [] }
      else record g { dropped = g.dropped ++ from_hit hit ∷ [] }

  pub gap_step : (SelectedHit F → Bool) → Gated F → SelectedHit F → Gated F
  gap_step passes g hit =
      if passes hit || hit.exact
      then record g {
        kept = g.kept ++ hit ∷ [];
        rescued = if passes hit then g.rescued else g.rescued ++ from_hit hit ∷ [];
      }
      else record g { dropped = g.dropped ++ from_hit hit ∷ [] }

  -- A `for` loop over the hits.
  pub gate_loop : (Gated F → SelectedHit F → Gated F) → Gated F → List (SelectedHit F) → Gated F
  gate_loop step g [] = g
  gate_loop step g (hit ∷ hits) = gate_loop step (step g hit) hits

module _ {F : Type 0} (fl : Floats F) where
  -- `max_by` with `total_cmp`: of equal values the last.
  pub max_from : F → List (SelectedHit F) → F
  max_from best [] = best
  max_from best (hit ∷ hits) =
      max_from (if fl.total_le best hit.score then hit.score else best) hits

  pub maximum_score : List (SelectedHit F) → Option F
  maximum_score [] = none
  maximum_score (hit ∷ hits) = some (max_from hit.score hits)

  -- `hit.score.get() >= anchor - config.max_gap`
  pub passes : F → SelectionConfig F → SelectedHit F → Bool
  passes anchor config hit = fl.le (fl.sub anchor config.max_gap) hit.score

  abbrev no_hits_verdict : F → SelectionConfig F → GateVerdict F
  no_hits_verdict baseline config = record {
    baseline = baseline;
    min_score = config.min_score;
    max_gap = config.max_gap;
    no_hits = true;
    floor_fired = false;
    top = none;
    floor_dropped = [];
    gap_dropped = [];
    rescued = [];
  }

  pub gate_floor :
      List (SelectedHit F) → F → SelectionConfig F → List (SelectedHit F) × GateVerdict F
  gate_floor hits baseline config =
      let g = gate_loop floor_step none_gated hits in
      (
        g.kept,
        record {
          baseline = baseline;
          min_score = config.min_score;
          max_gap = config.max_gap;
          no_hits = false;
          floor_fired = true;
          top = maximum_score g.kept;
          floor_dropped = g.dropped;
          gap_dropped = [];
          rescued = g.rescued;
        },
      )

  -- `hits` are not empty here, so the anchor is there.
  pub gate_gap :
      F → List (SelectedHit F) → F → SelectionConfig F → List (SelectedHit F) × GateVerdict F
  gate_gap anchor hits baseline config =
      let g = gate_loop (gap_step (passes anchor config)) none_gated hits in
      (
        g.kept,
        record {
          baseline = baseline;
          min_score = config.min_score;
          max_gap = config.max_gap;
          no_hits = false;
          floor_fired = false;
          top = maximum_score g.kept;
          floor_dropped = [];
          gap_dropped = g.dropped;
          rescued = g.rescued;
        },
      )

  unfoldable pub apply_gate :
      List (SelectedHit F) → F → SelectionConfig F → List (SelectedHit F) × GateVerdict F
  unfolding floor_step gap_step gate_loop max_from maximum_score passes gate_floor gate_gap
  apply_gate [] baseline config = ([], no_hits_verdict baseline config)
  apply_gate (hit ∷ hits) baseline config =
      if fl.lt baseline config.min_score
      then gate_floor (hit ∷ hits) baseline config
      else gate_gap (max_from hit.score hits) (hit ∷ hits) baseline config
