-- ===== src/Core/Snippet/Window.antt =====
-- The windows of `snap` in crates/yams-core/src/snippet.rs.
use yams.Prelude.{ℕ, ◌+◌, ◌-◌, ◌≤◌, ◌<◌, ◌≡◌, ◌⊎◌, some, length, get_elem?}
use yams.Core.Text.{Text}

-- A window starts at the text's start or behind a space, and ends at the text's end, at a space, or
-- after its whole width.
abbrev StartsWord : Text → ℕ → Type 0
StartsWord text start = (start ≡ 0) ⊎ (get_elem? text (start - 1) ≡ some 32)

pub record IsWindow (text : Text) (width : ℕ) (window : ℕ × ℕ) : Type 0 where
  pub filled : window.0 < window.1
  pub inside : window.1 ≤ length text
  pub fits : window.1 ≤ window.0 + width
  pub starts_word : StartsWord text window.0
  pub ends_word :
      (window.1 ≡ length text)
      ⊎ ((get_elem? text window.1 ≡ some 32) ⊎ (window.1 ≡ window.0 + width))

-- The end of a window from `start`.
abbrev EndsWord : Text → ℕ → ℕ → ℕ → Type 0
EndsWord text start width end =
    (start < end)
    × (end ≤ length text)
    × (end ≤ start + width)
    × ((end ≡ length text) ⊎ ((get_elem? text end ≡ some 32) ⊎ (end ≡ start + width)))
