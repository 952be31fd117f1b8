-- ===== src/Core/Sanitize/Clean.antt =====
-- What `sanitize_terminal` of crates/yams-core/src/sanitize.rs lets through.
use mathlib.Core.Path.{subst}
use yams.Prelude.{
  ℕ, zero, suc, ◌-◌, ◌≡◌, ◌⊎◌, ◌↔◌, refl, sym, ap, ◌∙◌, inl, inr, Bool, true, not, ◌||◌, none, some,
  List, [], ◌∷◌, ◌++◌, arith, length, any, Bool-cases, Option-cases, if_lem,
}
use yams.Core.Text.{Text}
use yams.Core.Text.Order.{text_eq, text_eq_iff, starts_with}
use yams.Core.Sanitize.{
  TerminalText, inline, multiline, rendered_frame, style_of, safe_styles, find_style, is_frame,
  style_at, is_unsafe_control, layout_allowed, is_shown, sanitize_loop, sanitize_terminal,
}

abbrev pub is_safe_style : Text → Bool
is_safe_style style = any (text_eq style) safe_styles

module _ (is_format : ℕ → Bool) where
  -- Safe styles, in a rendered frame only, and characters that are no control, or layout where that
  -- is allowed.
  pub data IsClean (context : TerminalText) : Text → Type 0 where
    ends : IsClean context []
    styled :
        (style rest : Text)
        → is_frame context ≡ true
        → is_safe_style style ≡ true
        → IsClean context rest
        → IsClean context (style ++ rest)
    shown :
        (c : ℕ) (rest : Text)
        → (not (is_unsafe_control is_format c) || layout_allowed is_format context c) ≡ true
        → IsClean context rest
        → IsClean context (c ∷ rest)

  find_style_lem :
      (styles : List Text) (remainder : Text) {style : Text}
      → find_style styles remainder ≡ some style
      → any (text_eq style) styles ≡ true
  find_style_lem [] remainder h = cc
  find_style_lem (s ∷ styles) remainder {style} h = elim (Bool-cases (starts_with remainder s)) [
    | inl here ↦
        let e : s ≡ style = ground arith in
        let same = (text_eq_iff style s).1 (sym e) in ground arith
    | inr later ↦
        let r = find_style_lem styles remainder {style = style} (ground arith) in ground arith
  ]

  style_at_lem :
      (context : TerminalText) (remainder : Text) {style : Text}
      → style_at context remainder ≡ some style
      → (is_frame context ≡ true) × (is_safe_style style ≡ true)
  style_at_lem inline remainder h = cc
  style_at_lem multiline remainder h = cc
  style_at_lem rendered_frame remainder {style} h =
      (refl, find_style_lem safe_styles remainder {style = style} h)

  sanitize_loop-IsClean :
      (context : TerminalText) (skip : ℕ) (input : Text)
      → IsClean context (sanitize_loop is_format context skip input)
  unfolding sanitize_loop
  sanitize_loop-IsClean context skip [] = ends
  sanitize_loop-IsClean context (suc skip) (c ∷ cs) = sanitize_loop-IsClean context skip cs
  sanitize_loop-IsClean context zero (c ∷ cs) = elim (Option-cases (style_at context (c ∷ cs))) [
    | inl plain ↦
        rw (plain, sanitize_loop)
          (if_lem (IsClean context) (is_shown is_format context c)
            (λ goes.
              shown c (sanitize_loop is_format context zero cs) (ground arith)
                (sanitize_loop-IsClean context zero cs))
            (λ stays. sanitize_loop-IsClean context zero cs))
    | inr (style, found) ↦
        let facts = style_at_lem context (c ∷ cs) found in
        rw (found, sanitize_loop)
          (styled style (sanitize_loop is_format context (length style - 1) cs) facts.0 facts.1
            (sanitize_loop-IsClean context (length style - 1) cs))
  ]

  -- Whatever the input, the output is clean: safe styles in a rendered frame only, and otherwise no
  -- unsafe control but tabs and line feeds where they are allowed.
  pub sanitize_terminal-IsClean :
      (input : Text) (context : TerminalText)
      → IsClean context (sanitize_terminal is_format input context)
  unfolding sanitize_terminal
  sanitize_terminal-IsClean input context = sanitize_loop-IsClean context zero input

  style_cases :
      (style : Text)
      → is_safe_style style ≡ true
      → (style ≡ style_of b'0') ⊎ ((style ≡ style_of b'1') ⊎ (style ≡ style_of b'4'))
  style_cases style h =
      let zeroth = text_eq_iff style (style_of b'0') in
      let first = text_eq_iff style (style_of b'1') in
      let fourth = text_eq_iff style (style_of b'4') in ground arith

  sanitize_loop-style :
      (context : TerminalText) (style rest : Text)
      → is_frame context ≡ true
      → (style ≡ style_of b'0') ⊎ ((style ≡ style_of b'1') ⊎ (style ≡ style_of b'4'))
      → sanitize_loop is_format context zero (style ++ rest)
        ≡ style ++ sanitize_loop is_format context zero rest
  unfolding sanitize_loop starts_with
  sanitize_loop-style inline style rest frame which = cc
  sanitize_loop-style multiline style rest frame which = cc
  sanitize_loop-style rendered_frame style rest frame (inl e) = rw e refl
  sanitize_loop-style rendered_frame style rest frame (inr (inl e)) = rw e refl
  sanitize_loop-style rendered_frame style rest frame (inr (inr e)) = rw e refl

  shown-style_at :
      (context : TerminalText) (c : ℕ) (rest : Text)
      → (not (is_unsafe_control is_format c) || layout_allowed is_format context c) ≡ true
      → style_at context (c ∷ rest) ≡ none
  unfolding starts_with
  shown-style_at context c rest h = ground arith

  IsClean-fixed :
      (context : TerminalText) (t : Text)
      → IsClean context t
      → sanitize_loop is_format context zero t ≡ t
  unfolding sanitize_loop
  IsClean-fixed context _ ends = refl
  IsClean-fixed context _ (styled style rest frame safe k) =
      sanitize_loop-style context style rest frame (style_cases style safe)
      ∙ ap (λ (r : Text). style ++ r) (IsClean-fixed context rest k)
  IsClean-fixed context _ (shown c rest h k) =
      let goes : is_shown is_format context c ≡ true = ground arith in
      rw (shown-style_at context c rest h, sanitize_loop, goes)
        (ap (◌∷◌ c) (IsClean-fixed context rest k))

  -- A text is unchanged exactly if it is clean, so a second pass changes nothing.
  pub sanitize_terminal_iff :
      (input : Text) (context : TerminalText)
      → (IsClean context input ↔ (sanitize_terminal is_format input context ≡ input))
        × (sanitize_terminal is_format (sanitize_terminal is_format input context) context
            ≡ sanitize_terminal is_format input context)
  unfolding sanitize_terminal
  sanitize_terminal_iff input context = (
    (
      IsClean-fixed context input,
      λ e. subst (IsClean context) e (sanitize_terminal-IsClean input context),
    ),
    IsClean-fixed context (sanitize_loop is_format context zero input)
        (sanitize_loop-IsClean context zero input),
  )
