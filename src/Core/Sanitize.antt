-- ===== src/Core/Sanitize.antt =====
-- crates/yams-core/src/sanitize.rs: the text that may go to a terminal. Whether the general category
-- of a character is Format is a parameter. The `Cow` is its text.
pub mod Clean
mod Tests
use yams.Prelude.{
  ℕ, ◌-◌, zero, suc, Bool, true, false, not, ◌&&◌, ◌||◌, Option, none, some, List, [], ◌∷◌, ◌++◌,
  leb, ◌==◌, if◌then◌else◌, length,
}
use yams.Core.Text.{Text}
use yams.Core.Text.Order.{starts_with}

pub data TerminalText : Type 0 where
  inline multiline rendered_frame : TerminalText

abbrev pub escape : ℕ
escape = 0x1b

abbrev pub style_of : ℕ → Text
style_of digit = escape ∷ b'[' ∷ digit ∷ b'm' ∷ []

abbrev pub safe_styles : List Text
safe_styles = style_of b'0' ∷ style_of b'1' ∷ style_of b'4' ∷ []

-- `SAFE_STYLES.iter().find(|style| remainder.starts_with(**style))`
abbrev pub find_style : List Text → Text → Option Text
find_style [] remainder = none
find_style (style ∷ styles) remainder =
    let later = find_style styles remainder in
    if starts_with remainder style then some style else later

abbrev pub is_frame : TerminalText → Bool
is_frame rendered_frame = true
is_frame _ = false

abbrev pub is_inline : TerminalText → Bool
is_inline inline = true
is_inline _ = false

-- The style that is pushed at this point, if any.
abbrev pub style_at : TerminalText → Text → Option Text
style_at context remainder = if is_frame context then find_style safe_styles remainder else none

module _ (is_format : ℕ → Bool) where
  abbrev pub is_unsafe_control : ℕ → Bool
  is_unsafe_control c = leb c 0x1f || (leb 0x7f c && leb c 0x9f) || is_format c

  abbrev pub layout_allowed : TerminalText → ℕ → Bool
  layout_allowed context c = not (is_inline context) && (c == 9 || c == 10)

  -- Is the character pushed?
  abbrev pub is_shown : TerminalText → ℕ → Bool
  is_shown context c = if is_unsafe_control c then layout_allowed context c else true

  -- The `while` loop, with the number of characters by which a style has moved the index on.
  pub sanitize_loop : TerminalText → ℕ → Text → Text
  unfolding starts_with
  sanitize_loop context skip [] = []
  sanitize_loop context (suc skip) (c ∷ cs) = sanitize_loop context skip cs
  sanitize_loop context zero (c ∷ cs) = elim (style_at context (c ∷ cs)) [
    | some style ↦ style ++ sanitize_loop context (length style - 1) cs
    | none ↦
        let rest = sanitize_loop context zero cs in if is_shown context c then c ∷ rest else rest
  ]

  pub sanitize_terminal : Text → TerminalText → Text
  unfolding sanitize_loop
  sanitize_terminal input context = sanitize_loop context zero input
