-- ===== src/Core/Snippet/Snips.antt =====
-- What `snippet` of crates/yams-core/src/snippet.rs returns.
use yams.Prelude.{ℕ, ◌≤◌, ◌<◌, ◌≡◌, ◌⊎◌, true, false, length, Result, ok, err}
use yams.Core.Text.{Text}
use yams.Core.Floats.{Floats}
use yams.Core.Snippet.{
  Snippet, SnippetError, zero_width, invalid_gain, collapse_python_whitespace, make_snippet,
}
use yams.Core.Snippet.Choose.{snippet, is_invalid_gain}
use yams.Core.Snippet.Window.{IsWindow}

-- The snippet is a window of the text.
abbrev pub Windowed : Text → ℕ → Snippet → Type 0
Windowed text width snippet =
    (window : ℕ × ℕ) × IsWindow text width window × (snippet ≡ make_snippet text window)

-- The whole text, if it fits, and else a window.
pub record Shows (text : Text) (width : ℕ) (snippet : Snippet) : Type 0 where
  pub fits : length snippet.text ≤ width
  pub shows :
      ((length text ≤ width)
        × (snippet ≡ record { text = text; clipped_start = false; clipped_end = false }))
      ⊎ ((width < length text) × Windowed text width snippet)

-- The errors of the terms are not those of the width and the gain.
abbrev IsTermError {ℓ} : {A : Type ℓ} → Result SnippetError A → Type 0
IsTermError (err zero_width) = ⊥
IsTermError (err invalid_gain) = ⊥
IsTermError (err _) = Unit
IsTermError (ok a) = Unit

module _ {F : Type 0} (fl : Floats F) where
  -- An error of the width or the gain names what is at fault; a snippet shows the collapsed text.
  abbrev pub Snips : Text → ℕ → F → Result SnippetError Snippet → Type 0
  Snips text width gain (err zero_width) = width ≡ 0
  Snips text width gain (err invalid_gain) = (0 < width) × (is_invalid_gain fl gain ≡ true)
  Snips text width gain (err _) = (0 < width) × (is_invalid_gain fl gain ≡ false)
  Snips text width gain (ok out) = Shows (collapse_python_whitespace text) width out
