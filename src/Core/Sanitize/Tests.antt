-- ===== src/Core/Sanitize/Tests.antt =====
-- Runs of crates/yams-core/src/sanitize.rs, where U+202E alone is of the category Format.
use yams.Prelude.{ℕ, ◌≡◌, ◌↔◌, refl, Bool, [], ◌∷◌, ◌++◌, ◌==◌}
use yams.Core.Text.{Text, characters}
use yams.Core.Text.Order.{starts_with}
use yams.Core.Sanitize.{inline, multiline, rendered_frame, style_of, sanitize_terminal}
use yams.Core.Sanitize.Clean.{IsClean, sanitize_terminal-IsClean, sanitize_terminal_iff}

abbrev is_format : ℕ → Bool
is_format c = c == 0x202e

-- A style, a tab, a right-to-left override and an escape on its own.
abbrev a_text : Text
a_text = style_of b'1' ++ b'a' ∷ 9 ∷ 0x202e ∷ 0x1b ∷ b'[' ∷ []

sanitize_runs :
    (sanitize_terminal is_format a_text inline ≡ characters "[1ma[")
    × (sanitize_terminal is_format a_text multiline ≡ characters "[1ma" ++ 9 ∷ b'[' ∷ [])
    × (sanitize_terminal is_format a_text rendered_frame ≡ style_of b'1' ++ b'a' ∷ 9 ∷ b'[' ∷ [])
unfolding sanitize_terminal starts_with
sanitize_runs = (refl, refl, refl)

sanitize_terminal-IsClean_example :
    IsClean is_format rendered_frame (sanitize_terminal is_format a_text rendered_frame)
sanitize_terminal-IsClean_example = sanitize_terminal-IsClean is_format a_text rendered_frame

sanitize_terminal_iff_example :
    (IsClean is_format inline a_text ↔ (sanitize_terminal is_format a_text inline ≡ a_text))
    × (sanitize_terminal is_format (sanitize_terminal is_format a_text inline) inline
        ≡ sanitize_terminal is_format a_text inline)
sanitize_terminal_iff_example = sanitize_terminal_iff is_format a_text inline
