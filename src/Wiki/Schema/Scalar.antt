-- ===== src/Wiki/Schema/Scalar.antt =====
-- `scalar_problem` and `validate_frontmatter_scalar` of crates/yams-wiki/src/schema.rs. Whether the
-- regular expression for an index link matches is a parameter.
use yams.Prelude.{
  ℕ, Bool, ◌&&◌, ◌||◌, Option, none, some, [], ◌∷◌, ltb, leb, ◌==◌, if◌then◌else◌, is_empty, Result,
  ok, err, ◌>>◌, refuse_if,
}
use yams.Core.Text.{Text, characters}
use yams.Core.Text.Order.{starts_with}
use yams.Wiki.Schema.{
  ScalarProblem, scalar_empty, line_boundary, control_character, comment_delimiter, link_shaped,
  SchemaError, required, scalar_refused, only_quotes, code_fence,
}
use yams.Wiki.Schema.Lines.{is_splitlines_boundary}

-- `is_python_whitespace`
abbrev pub is_trimmed : ℕ → Bool
is_trimmed c =
    (leb 9 c && leb c 0xd)
    || (leb 0x1c c && leb c 0x20)
    || c == 0x85
    || c == 0xa0
    || c == 0x1680
    || (leb 0x2000 c && leb c 0x200a)
    || c == 0x2028
    || c == 0x2029
    || c == 0x202f
    || c == 0x205f
    || c == 0x3000

-- `trim_matches`
unfoldable pub trim_start_matches : (ℕ → Bool) → Text → Text
trim_start_matches matches [] = []
trim_start_matches matches (c ∷ cs) = if matches c then trim_start_matches matches cs else c ∷ cs

unfoldable pub trim_end_matches : (ℕ → Bool) → Text → Text
trim_end_matches matches [] = []
trim_end_matches matches (c ∷ cs) =
    let rest = trim_end_matches matches cs in if is_empty rest && matches c then [] else c ∷ rest

abbrev pub trim_matches : (ℕ → Bool) → Text → Text
trim_matches matches t = trim_start_matches matches (trim_end_matches matches t)

-- `python_trim`
abbrev pub python_trim : Text → Text
python_trim t = trim_matches is_trimmed t

abbrev pub is_quote : ℕ → Bool
is_quote c = c == b'\'' || c == b'"'

-- `str::contains`
unfoldable pub contains : Text → Text → Bool
contains [] part = starts_with [] part
contains (c ∷ cs) part = starts_with (c ∷ cs) part || contains cs part

unfoldable pub character_problem : Text → Option ScalarProblem
character_problem [] = none
character_problem (c ∷ cs) =
    let rest = character_problem cs in
    if is_splitlines_boundary c
    then some (line_boundary c)
    else if ltb c 0x20 || (leb 0x7f c && leb c 0x9f)
    then some (control_character c)
    else rest

unfoldable pub require_nonempty : Text → Text → Result SchemaError (Unit {0})
require_nonempty field value = refuse_if (is_empty (python_trim value)) (required field)

module _ (is_link : Text → Bool) where
  abbrev pub shape_problem : Text → Option ScalarProblem
  shape_problem value =
      if contains value (characters "<!--") || contains value (characters "-->")
      then some comment_delimiter
      else if (contains value (characters "(pages/") && contains value (characters ".md)"))
          && is_link value
      then some link_shaped
      else none

  abbrev pub or_shape : Text → Option ScalarProblem → Option ScalarProblem
  or_shape value (some problem) = some problem
  or_shape value none = shape_problem value

  unfoldable pub scalar_problem : Text → Option ScalarProblem
  unfolding character_problem
  scalar_problem value =
      if is_empty (python_trim value)
      then some scalar_empty
      else or_shape value (character_problem value)

  abbrev pub refuse_problem : Text → Option ScalarProblem → Result SchemaError (Unit {0})
  refuse_problem field none = ok tt
  refuse_problem field (some problem) = err (scalar_refused field problem)

  unfoldable pub validate_frontmatter_scalar : Text → Text → Result SchemaError (Unit {0})
  unfolding scalar_problem contains
  validate_frontmatter_scalar field value =
      refuse_problem field (scalar_problem value)
      >> (refuse_if (is_empty (trim_matches is_quote (python_trim value))) (only_quotes field)
          >> (refuse_if (contains value (characters "```")) (code_fence field (characters "```"))
              >> refuse_if (contains value (characters "~~~"))
                  (code_fence field (characters "~~~"))))
