-- ===== src/Core/Frontmatter.antt =====
-- crates/yams-core/src/frontmatter.rs: the lines of a page and its leading block of fields. Offsets
-- count characters where the source counts bytes; they are only used to cut the text where they
-- were taken.
pub mod Tiles
pub mod Fields
mod Tests
use yams.Prelude.{
  ℕ, ◌+◌, Bool, true, false, not, ◌&&◌, ◌||◌, Option, none, some, List, [], ◌∷◌, ◌++◌, ltb, leb,
  ◌==◌, if◌then◌else◌, length, take, drop, is_empty, all,
}
use yams.Core.Text.{Text, characters, lf, cr, trim}
use yams.Core.Text.Order.{text_eq, text_le, starts_with}

pub record Line : Type 0 where
  pub content : Text
  pub separator_end : ℕ

abbrev pub is_explicit : ℕ → Bool
is_explicit c =
    c == cr
    || c == 0x0b
    || c == 0x0c
    || c == 0x1c
    || c == 0x1d
    || c == 0x1e
    || c == 0x85
    || c == 0x2028
    || c == 0x2029

-- The loop of `append_explicitly_separated_lines`: the characters since `line_start`, the index, the
-- characters up to `end`, and the length of the native separator there.
pub explicit_loop : Text → ℕ → Text → ℕ → List Line
explicit_loop line index [] separator =
    if not (is_empty line) || ltb 0 separator
    then record { content = line; separator_end = index + separator } ∷ []
    else []
explicit_loop line index (c ∷ cs) separator =
    if is_explicit c
    then record { content = line; separator_end = index + 1 }
      ∷ explicit_loop [] (index + 1) cs separator
    else explicit_loop (line ++ c ∷ []) (index + 1) cs separator

-- `str::lines`, with the length of the separator that `lines_with_separators` finds behind a line.
abbrev pub strip_cr : Text → Text × ℕ
strip_cr [] = ([], 1)
strip_cr (c ∷ []) = if c == cr then ([], 2) else (c ∷ [], 1)
strip_cr (c ∷ d ∷ cs) = let stripped = strip_cr (d ∷ cs) in (c ∷ stripped.0, stripped.1)

pub native_loop : Text → Text → List (Text × ℕ)
native_loop line [] = if is_empty line then [] else (line, 0) ∷ []
native_loop line (c ∷ cs) =
    let next = native_loop [] cs in
    let further = native_loop (line ++ c ∷ []) cs in
    if c == lf then strip_cr line ∷ next else further

pub lines_from : ℕ → List (Text × ℕ) → List Line
unfolding explicit_loop
lines_from cursor [] = []
lines_from cursor ((native, separator) ∷ natives) =
    explicit_loop [] cursor native separator
    ++ lines_from (cursor + length native + separator) natives

pub lines_with_separators : Text → List Line
unfolding lines_from native_loop
lines_with_separators source = lines_from 0 (native_loop [] source)
