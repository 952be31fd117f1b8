-- ===== src/Core/Select/Tests.antt =====
-- Runs of crates/yams-core/src/select.rs, over hundredths for scores.
use yams.Prelude.{ℕ, ◌≡◌, ◌≢◌, refl, true, false, none, some, List, [], ◌∷◌, map, arith, ok}
use yams.Core.Text.{Text, characters}
use yams.Prelude.Sorting.{sort_by}
use yams.Core.Text.Order.{text_eq, starts_with}
use yams.Core.Floats.{hundredths, hundredths-FiniteOrder}
use yams.Core.Select.{
  apply, SelectionConfig, SelectedChunk, RankedHit, SelectedHit, HitExplanation, PageLabels,
}
use yams.Core.Select.Exact.{LiteralChunk, ExactMatch, is_identifier_byte, exact_identifier_match}
use yams.Core.Select.Exact.Unique.{Rescues, exact_identifier_match-Rescues}
use yams.Core.Select.Gate.{apply_gate}
use yams.Core.Select.Gate.Kept.{Sorts, apply_gate-Sorts}
use yams.Core.Select.Gate.Best.{apply_gate-ne-nil}
use yams.Core.Select.Pipeline.{SelectionOutcome, shown_hits, outcome, select}
use yams.Core.Select.Pipeline.Answers.{Answers, select-Answers}
use yams.Core.Select.Pipeline.Rescue.{ranks, shows_exact, select-shows_exact}

abbrev no_explanation : HitExplanation ℕ
no_explanation = record {
  dense_rank = none;
  bm25_rank = none;
  rrf_score = none;
  contributions = [];
}

abbrev no_labels : PageLabels
no_labels = record { corpus = none; status = none; project = none }

abbrev a_chunk : SelectedChunk
a_chunk = record { ordinal = 0; text = (characters "text") }

abbrev ranked_hit : Text → ℕ → ℕ → RankedHit ℕ
ranked_hit path rank score = record {
  name = path;
  path = path;
  dense_chunk = a_chunk;
  lexical_chunk = none;
  score = score;
  final_rank = rank;
  explanation = no_explanation;
  labels = no_labels;
}

abbrev shown_hit : Text → ℕ → SelectedHit ℕ
shown_hit path score = record {
  name = path;
  path = path;
  selected_chunk = a_chunk;
  score = score;
  exact = false;
  explanation = no_explanation;
  labels = no_labels;
}

abbrev two_pages : SelectionConfig ℕ
two_pages = record { limit = 2; min_score = 72; max_gap = 5; gate_mode = apply }

abbrev shown_pages : List (SelectedHit ℕ)
shown_pages =
    shown_hit (characters "a") 80
    ∷ shown_hit (characters "b") 90
    ∷ shown_hit (characters "c") 86
    ∷ []

-- The gap drops the first page.
gap_run :
    map (λ (hit : SelectedHit ℕ). hit.path) (apply_gate hundredths shown_pages 90 two_pages).0
    ≡ (characters "b") ∷ (characters "c") ∷ []
unfolding apply_gate
gap_run = refl

apply_gate-Sorts_example :
    Sorts hundredths shown_pages 90 two_pages (apply_gate hundredths shown_pages 90 two_pages)
apply_gate-Sorts_example = apply_gate-Sorts hundredths shown_pages 90 two_pages

apply_gate-ne-nil_example : (apply_gate hundredths shown_pages 90 two_pages).0 ≢ []
apply_gate-ne-nil_example =
    apply_gate-ne-nil hundredths hundredths-FiniteOrder shown_pages 90 two_pages (ground arith)
      (refl, (refl, (refl, tt))) refl refl refl

abbrev ranked_pages : List (RankedHit ℕ)
ranked_pages =
    ranked_hit (characters "a") 1 90
    ∷ ranked_hit (characters "b") 2 88
    ∷ ranked_hit (characters "a") 3 90
    ∷ ranked_hit (characters "d") 4 10
    ∷ []

abbrev literal_chunks : List LiteralChunk
literal_chunks =
    record { path = (characters "d"); ordinal = 4; text = (characters "see my_id here") }
    ∷ record { path = (characters "a"); ordinal = 0; text = (characters "my_idx") }
    ∷ record { path = (characters "d"); ordinal = 2; text = (characters "my_id") }
    ∷ []

abbrev a_match : ExactMatch
a_match = record { path = (characters "d"); ordinal = 2 }

exact_lead :
    exact_identifier_match (characters "what is `my_id`?") (some (characters "d")) literal_chunks
    ≡ none
unfolding exact_identifier_match is_identifier_byte
exact_lead = refl

exact_run :
    exact_identifier_match (characters "(my_id)?") (some (characters "d")) literal_chunks
    ≡ some a_match
unfolding exact_identifier_match is_identifier_byte sort_by starts_with text_eq
exact_run = refl

exact_identifier_match-Rescues_example :
    Rescues (characters "(my_id)?") (some (characters "d")) literal_chunks a_match
exact_identifier_match-Rescues_example =
    exact_identifier_match-Rescues (characters "(my_id)?") (some (characters "d")) literal_chunks
      exact_run

among : ranks a_match.path ranked_pages ≡ true
unfolding text_eq
among = refl

abbrev the_outcome : SelectionOutcome ℕ
the_outcome = outcome hundredths (characters "(my_id)?") (some 90) two_pages (
    shown_hits
      (exact_identifier_match (characters "(my_id)?") (some (characters "d")) literal_chunks) 2
      literal_chunks ranked_pages)

-- The exact page takes the place of the second one, though its score is far below.
shown_paths :
    map (λ (hit : SelectedHit ℕ). hit.path) the_outcome.hits ≡ characters "a" ∷ characters "d" ∷ []
unfolding select exact_identifier_match apply_gate is_identifier_byte sort_by starts_with text_eq
shown_paths = refl

select_run :
    select hundredths
      (characters "(my_id)?")
      (some 90)
      ranked_pages
      literal_chunks
      (some (characters "d"))
      two_pages
    ≡ ok the_outcome
unfolding select
select_run = refl

select-shows_exact_example : shows_exact (characters "d") the_outcome.hits ≡ true
select-shows_exact_example =
    select-shows_exact hundredths (characters "(my_id)?") (some 90) ranked_pages literal_chunks
      (some (characters "d")) two_pages a_match exact_run among (omega arith) select_run

select-Answers_example : Answers hundredths (some 90) ranked_pages 2 (
    select hundredths
      (characters "(my_id)?")
      (some 90)
      ranked_pages
      literal_chunks
      (some (characters "d"))
      two_pages)
select-Answers_example =
    select-Answers hundredths (characters "(my_id)?") (some 90) ranked_pages literal_chunks
      (some (characters "d")) two_pages
