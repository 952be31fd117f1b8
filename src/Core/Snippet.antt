-- ===== src/Core/Snippet.antt =====
-- `snippet` of crates/yams-core/src/snippet.rs: the window of a text that shows the terms of a query.
-- What `char` knows of Unicode, and the equality of the bits of two floats, are parameters.
pub mod Terms
pub mod Choose
pub mod Window
pub mod Snips
mod Tests
use yams.Prelude.{
  ℕ, zero, suc, ◌+◌, ◌-◌, ◌/◌, min, Bool, true, false, not, ◌&&◌, ◌||◌, Option, none, some, List,
  [], ◌∷◌, ◌++◌, ltb, leb, ◌==◌, if◌then◌else◌, length, take, drop, get_elem?, is_empty, any, all,
  Result, ok, err, ◌>>=◌, ◌>>◌, refuse_if,
}
use yams.Prelude.Sorting.{sort_by}
use yams.Core.Text.{Text, is_whitespace}
use yams.Core.Text.Order.{text_eq, text_le}
use yams.Core.Floats.{Floats}

pub record WeightedTerm (F : Type 0) : Type 0 where
  pub term : Text
  pub weight : F

pub record Snippet : Type 0 where
  pub text : Text
  pub clipped_start : Bool
  pub clipped_end : Bool

pub data SnippetError : Type 0 where
  zero_width invalid_gain : SnippetError
  invalid_term invalid_weight conflicting_weight : Text → SnippetError

-- The term is its index in the canonical terms.
pub record Span : Type 0 where
  pub start : ℕ
  pub end : ℕ
  pub term : ℕ

abbrev pub is_python_whitespace : ℕ → Bool
is_python_whitespace c = is_whitespace c || (leb 0x1c c && leb c 0x1f)

-- The loop of `collapse_python_whitespace`: the text so far and `pending_space`.
pub collapse_loop : Text → Bool → Text → Text
unfolding is_whitespace
collapse_loop collapsed pending [] = collapsed
collapse_loop collapsed pending (c ∷ cs) =
    let spaced = collapse_loop collapsed (not (is_empty collapsed)) cs in
    let further = collapse_loop (collapsed ++ (if pending then 32 ∷ c ∷ [] else c ∷ [])) false cs in
    if is_python_whitespace c then spaced else further

pub collapse_python_whitespace : Text → Text
unfolding collapse_loop
collapse_python_whitespace text = collapse_loop [] false text

-- `rposition(|character| *character == ' ')`
pub last_space : Text → Option ℕ
last_space [] = none
last_space (c ∷ cs) = elim (last_space cs) [
  | some i ↦ some (suc i)
  | none ↦ if c == 32 then some 0 else none
]

abbrev pub behind_space : Option ℕ → ℕ
behind_space none = 0
behind_space (some space) = space + 1

abbrev pub up_to_space : ℕ → ℕ → Option ℕ → ℕ
up_to_space start end none = end
up_to_space start end (some relative) = if ltb 0 relative then start + relative else end

pub snap_start : Text → ℕ → ℕ
unfolding last_space
snap_start text start = if ltb 0 start then behind_space (last_space (take start text)) else start

pub snap_end : Text → ℕ → ℕ → ℕ
unfolding last_space
snap_end text start width =
    let end = min (length text) (start + width) in
    if ltb end (length text)
    then up_to_space start end (last_space (take (end + 1 - start) (drop start text)))
    else end

pub snap : Text → ℕ → ℕ → ℕ × ℕ
unfolding snap_start snap_end
snap text start width = (snap_start text start, snap_end text (snap_start text start) width)

abbrev pub make_snippet : Text → ℕ × ℕ → Snippet
make_snippet text (start, end) = record {
  text = take (end - start) (drop start text);
  clipped_start = ltb 0 start;
  clipped_end = ltb end (length text);
}

module _ (is_alphanumeric : ℕ → Bool) where
  abbrev pub is_identifier : ℕ → Bool
  is_identifier c = is_alphanumeric c || c == b'_'

  pub validate_term : Text → Result SnippetError (Unit {0})
  validate_term term =
      if ltb (length term) 2 || not (all is_identifier term) then err (invalid_term term) else ok tt

  abbrev pub free_at : Option ℕ → Bool
  free_at none = true
  free_at (some c) = not (is_identifier c)

module _ (to_lowercase : ℕ → Text) where
  -- `flat_map(char::to_lowercase)`
  abbrev pub lowercase : Text → Text
  lowercase [] = []
  lowercase (c ∷ cs) = to_lowercase c ++ lowercase cs

  -- `zip(&needle).all(...)` on a slice and a needle of one length
  abbrev pub matches : Text → Text → Bool
  matches (c ∷ cs) (d ∷ ds) = text_eq (to_lowercase c) (to_lowercase d) && matches cs ds
  matches _ _ = true

module _ {F : Type 0} where
  -- The map of the canonical terms is the list of its entries in the order of the terms.
  abbrev pub old_weight : Text → List (WeightedTerm F) → Option F
  old_weight name [] = none
  old_weight name (entry ∷ entries) =
      let later = old_weight name entries in
      if text_eq entry.term name then some entry.weight else later

  pub put_weight : Text → F → List (WeightedTerm F) → List (WeightedTerm F)
  put_weight name weight [] = record { term = name; weight = weight } ∷ []
  put_weight name weight (entry ∷ entries) =
      let later = put_weight name weight entries in
      if text_eq entry.term name
      then record { term = entry.term; weight = weight } ∷ entries
      else if text_le name entry.term
      then record { term = name; weight = weight } ∷ entry ∷ entries
      else entry ∷ later

module _ {F : Type 0} (fl : Floats F) where
  abbrev pub is_bad_weight : F → Bool
  is_bad_weight weight =
      not (fl.is_finite weight)
      || not (fl.le (fl.literal 0 0) weight && fl.le weight (fl.literal 1 0))

module _ {F : Type 0} (same_bits : F → F → Bool) where
  abbrev pub conflicts : F → Option F → Bool
  conflicts weight none = false
  conflicts weight (some existing) = not (same_bits existing weight)

module _ {F : Type 0} (fl : Floats F) (is_alphanumeric : ℕ → Bool) (to_lowercase : ℕ → Text)
    (same_bits : F → F → Bool) where
  pub canonical_loop :
      List (WeightedTerm F) → List (WeightedTerm F) → Result SnippetError (List (WeightedTerm F))
  unfolding validate_term put_weight
  canonical_loop canonical [] = ok canonical
  canonical_loop canonical (term ∷ terms) =
      let name = lowercase to_lowercase term.term in
      let rest = canonical_loop (put_weight name term.weight canonical) terms in
      validate_term is_alphanumeric term.term
      >> refuse_if (is_bad_weight fl term.weight) (invalid_weight term.term)
      >> refuse_if (conflicts same_bits term.weight (old_weight name canonical))
          (conflicting_weight name)
      >> rest

  abbrev pub canonical_terms : List (WeightedTerm F) → Result SnippetError (List (WeightedTerm F))
  unfolding canonical_loop
  canonical_terms terms = canonical_loop [] terms

module _ {F : Type 0} (fl : Floats F) (is_alphanumeric : ℕ → Bool) (to_lowercase : ℕ → Text) where
  pub is_span : Text → Text → ℕ → Bool
  is_span text needle start =
      (start == 0 || free_at is_alphanumeric (get_elem? text (start - 1)))
      && free_at is_alphanumeric (get_elem? text (start + length needle))
      && matches to_lowercase (take (length needle) (drop start text)) needle

  -- `for start in 0..=text.len() - needle.len()`, with the number of starts that are left
  pub spans_from : Text → Text → ℕ → ℕ → ℕ → List Span
  unfolding is_span
  spans_from text needle term start zero = []
  spans_from text needle term start (suc left) =
      let later = spans_from text needle term (start + 1) left in
      if is_span text needle start
      then record { start = start; end = start + length needle; term = term } ∷ later
      else later

  pub term_spans : Text → ℕ → List (WeightedTerm F) → List Span
  unfolding spans_from
  term_spans text index [] = []
  term_spans text index (weighted ∷ terms) =
      let later = term_spans text (index + 1) terms in
      if fl.le weighted.weight (fl.literal 0 0) || ltb (length text) (length weighted.term)
      then later
      else spans_from text weighted.term index 0 (length text - length weighted.term + 1) ++ later
