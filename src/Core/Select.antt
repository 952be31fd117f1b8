-- ===== src/Core/Select.antt =====
-- crates/yams-core/src/select.rs: the data of a selection, and the selection itself. Strings are
-- their UTF-8 bytes, whose lexicographic order is that of Rust's `str`.
mod Tests
pub mod Exact
pub mod Gate
pub mod Pipeline
use yams.Prelude.{
  ℕ, ◌≡◌, Bool, true, false, not, ◌&&◌, ◌||◌, Option, none, some, List, [], ◌∷◌, ◌++◌,
  if◌then◌else◌,
}
use yams.Core.Text.{Text}

-- `enum ExitCode` of lib.rs
pub data ExitCode : Type 0 where
  ok_code empty_code usage_code unsure_code operational_code : ExitCode

pub data GateMode : Type 0 where
  apply bypass : GateMode

pub record SelectionConfig (F : Type 0) : Type 0 where
  pub limit : ℕ
  pub min_score : F
  pub max_gap : F
  pub gate_mode : GateMode

pub record RankContribution (F : Type 0) : Type 0 where
  pub source : ℕ
  pub rank : ℕ
  pub weight : F
  pub score : F

pub record HitExplanation (F : Type 0) : Type 0 where
  pub dense_rank : Option ℕ
  pub bm25_rank : Option ℕ
  pub rrf_score : Option F
  pub contributions : List (RankContribution F)

pub record PageLabels : Type 0 where
  pub corpus : Option Text
  pub status : Option Text
  pub project : Option Text

pub record SelectedChunk : Type 0 where
  pub ordinal : ℕ
  pub text : Text

-- `score` is the `NormalizedScore` that selection takes as it is.
pub record RankedHit (F : Type 0) : Type 0 where
  pub name : Text
  pub path : Text
  pub dense_chunk : SelectedChunk
  pub lexical_chunk : Option SelectedChunk
  pub score : F
  pub final_rank : ℕ
  pub explanation : HitExplanation F
  pub labels : PageLabels

pub record SelectedHit (F : Type 0) : Type 0 where
  pub name : Text
  pub path : Text
  pub selected_chunk : SelectedChunk
  pub score : F
  pub exact : Bool
  pub explanation : HitExplanation F
  pub labels : PageLabels

pub record GateHit (F : Type 0) : Type 0 where
  pub path : Text
  pub score : F

pub record GateVerdict (F : Type 0) : Type 0 where
  pub baseline : F
  pub min_score : F
  pub max_gap : F
  pub no_hits : Bool
  pub floor_fired : Bool
  pub top : Option F
  pub floor_dropped : List (GateHit F)
  pub gap_dropped : List (GateHit F)
  pub rescued : List (GateHit F)

pub data SelectionError : Type 0 where
  non_finite_min_score min_score_outside_cosine_range : SelectionError
  non_finite_max_gap negative_max_gap missing_baseline_for_candidates : SelectionError
  invalid_rank_signal : Text → SelectionError
