-- ===== src/Core/Snippet/Choose.antt =====
-- The choice of the window in `snippet` of crates/yams-core/src/snippet.rs.
use yams.Prelude.{
  ℕ, ◌+◌, ◌-◌, ◌/◌, min, Bool, false, not, ◌&&◌, ◌||◌, none, some, List, [], ◌∷◌, leb, ◌==◌,
  if◌then◌else◌, length, get_elem?, is_empty, any, Result, ok, ◌>>=◌, ◌>>◌, refuse_if,
}
use yams.Prelude.Sorting.{sort_by}
use yams.Core.Text.{Text}
use yams.Core.Text.Order.{text_le}
use yams.Core.Floats.{Floats}
use yams.Core.Snippet.{
  WeightedTerm, Snippet, SnippetError, zero_width, invalid_gain, Span, collapse_python_whitespace,
  snap, make_snippet, canonical_terms, term_spans,
}

module _ {F : Type 0} where
  abbrev pub term_text : List (WeightedTerm F) → ℕ → Text
  term_text terms index = elim (get_elem? terms index) [ none ↦ [] | some weighted ↦ weighted.term ]

  -- The order by start, end and term.
  unfoldable pub span_le : List (WeightedTerm F) → Span → Span → Bool
  span_le terms left right =
      if not (left.start == right.start)
      then leb left.start right.start
      else if not (left.end == right.end)
      then leb left.end right.end
      else text_le (term_text terms left.term) (term_text terms right.term)

abbrev pub is_within : ℕ × ℕ → ℕ → Span → Bool
is_within (start, end) term span = span.term == term && leb start span.start && leb span.end end

-- The window around a span, before it is snapped to words.
abbrev pub centered : Text → ℕ → Span → ℕ
centered text width span =
    min (span.start - (width - (span.end - span.start)) / 2) (length text - width)

module _ {F : Type 0} (fl : Floats F) (empty_sum : F) where
  unfoldable pub score_loop : F → ℕ × ℕ → ℕ → List Span → List (WeightedTerm F) → F
  score_loop sum window index spans [] = sum
  score_loop sum window index spans (weighted ∷ terms) =
      let without = score_loop sum window (index + 1) spans terms in
      let counted = score_loop (fl.add sum weighted.weight) window (index + 1) spans terms in
      if any (is_within window index) spans then counted else without

  unfoldable pub window_score : ℕ × ℕ → List (WeightedTerm F) → List Span → F
  unfolding score_loop
  window_score window terms spans = score_loop empty_sum window 0 spans terms

  -- The `for` loop over the spans: the best snippet so far and its score.
  unfoldable pub choose_loop :
      Text → ℕ → List (WeightedTerm F) → List Span → F → Snippet → F → List Span → Snippet
  unfolding window_score snap
  choose_loop text width terms spans bar chosen chosen_score [] = chosen
  choose_loop text width terms spans bar chosen chosen_score (span ∷ later) =
      let window = snap text (centered text width span) width in
      let candidate_score = window_score window terms spans in
      let kept = choose_loop text width terms spans bar chosen chosen_score later in
      let replaced =
        choose_loop text width terms spans bar (make_snippet text window) candidate_score later in
      if fl.lt bar candidate_score && fl.lt chosen_score candidate_score then replaced else kept

  -- The chosen window of a text that is wider than the width.
  unfoldable pub choose : Text → ℕ → F → List (WeightedTerm F) → List Span → Snippet
  unfolding snap window_score choose_loop
  choose text width gain terms spans =
      let window = snap text 0 width in
      let head = make_snippet text window in
      let head_score = window_score window terms spans in
      if is_empty spans
      then head
      else choose_loop text width terms spans (fl.add head_score gain) head head_score spans

module _ {F : Type 0} (fl : Floats F) where
  abbrev pub is_invalid_gain : F → Bool
  is_invalid_gain gain =
      not (fl.is_finite gain) || not (fl.le (fl.literal 0 0) gain && fl.le gain (fl.literal 1 0))

module _ {F : Type 0} (fl : Floats F) (is_alphanumeric : ℕ → Bool) (to_lowercase : ℕ → Text)
    (empty_sum : F) where
  unfoldable pub snippet_of : Text → ℕ → F → List (WeightedTerm F) → Snippet
  unfolding choose span_le term_spans
  snippet_of text width gain terms =
      let spans =
        sort_by (span_le terms) (term_spans fl is_alphanumeric to_lowercase text 0 terms) in
      if leb (length text) width
      then record { text = text; clipped_start = false; clipped_end = false }
      else choose fl empty_sum text width gain terms spans

module _ {F : Type 0} (fl : Floats F) (is_alphanumeric : ℕ → Bool) (to_lowercase : ℕ → Text)
    (same_bits : F → F → Bool) (empty_sum : F) where
  unfoldable pub snippet : Text → List (WeightedTerm F) → ℕ → F → Result SnippetError Snippet
  unfolding snippet_of canonical_terms collapse_python_whitespace
  snippet text terms width gain = do
    refuse_if (width == 0) zero_width
    refuse_if (is_invalid_gain fl gain) invalid_gain
    terms' ← canonical_terms fl is_alphanumeric to_lowercase same_bits terms
    ok (
        snippet_of fl is_alphanumeric to_lowercase empty_sum (collapse_python_whitespace text) width
          gain terms')
