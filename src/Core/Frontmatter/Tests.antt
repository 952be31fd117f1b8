-- ===== src/Core/Frontmatter/Tests.antt =====
-- Runs of crates/yams-core/src/frontmatter.rs, and its theorems at examples.
use yams.Prelude.{◌≡◌, refl, [], ◌∷◌, ◌++◌}
use yams.Core.Text.{Text, characters, lf, cr, trim, is_whitespace}
use yams.Core.Text.Order.{text_eq, text_le}
use yams.Core.Frontmatter.{lines_with_separators}
use yams.Core.Frontmatter.Tiles.{Tiles, lines_with_separators-Tiles}
use yams.Core.Frontmatter.Fields.{parse_frontmatter, title_for, fence}
use yams.Core.Frontmatter.Fields.Parses.{Parses, parse_frontmatter-Parses}

-- Two lines, the first of which ends in CR LF, the second in a form feed, and a third one.
abbrev three : Text
three = b'a' ∷ cr ∷ lf ∷ b'b' ∷ 12 ∷ b'c' ∷ []

lines_run :
    lines_with_separators three
    ≡ record { content = b'a' ∷ []; separator_end = 3 }
      ∷ record { content = b'b' ∷ []; separator_end = 5 }
      ∷ record { content = b'c' ∷ []; separator_end = 6 }
      ∷ []
unfolding lines_with_separators
lines_run = refl

lines_with_separators-Tiles_example : Tiles 0 (lines_with_separators three) three
lines_with_separators-Tiles_example = lines_with_separators-Tiles three

-- A page with two fields, an indented line and an empty line in front of its body.
abbrev a_page : Text
a_page =
    fence
    ++ lf ∷ characters "title: 'A b'"
    ++ lf ∷ characters "  more"
    ++ lf ∷ characters "date: 1"
    ++ lf ∷ fence
    ++ lf ∷ lf ∷ characters "Body"
    ++ lf ∷ []

a_page_run : parse_frontmatter a_page ≡ record {
  fields = (characters "date", characters "1") ∷ (characters "title", characters "A b") ∷ [];
  body = characters "Body" ++ lf ∷ [];
}
unfolding parse_frontmatter text_eq text_le trim is_whitespace
a_page_run = refl

title_run : title_for (characters "a-file_name") [] ≡ characters "a file name"
unfolding title_for
title_run = refl

parse_frontmatter-Parses_example :
    Parses a_page (parse_frontmatter a_page) (parse_frontmatter a_page).fields
parse_frontmatter-Parses_example = parse_frontmatter-Parses a_page
