-- ===== src/Core/Frontmatter/Tiles.antt =====
-- The lines of `lines_with_separators` in crates/yams-core/src/frontmatter.rs are the whole text.
use mathlib.Core.List.{append_assoc}
use yams.Prelude.{
  all-append, ℕ, ◌+◌, ◌≡◌, ◌≢◌, refl, sym, ap, ◌∙◌, ◌⊎◌, inl, inr, Bool, true, false, not, ◌&&◌,
  ◌||◌, List, [], ◌∷◌, ◌++◌, arith, ltb, ◌==◌, length, length-append, all, Bool-cases, if_lem,
  ==→eq,
}
use yams.Core.Text.{Text, lf, cr}
use yams.Core.Frontmatter.{
  Line, is_explicit, explicit_loop, strip_cr, native_loop, lines_from, lines_with_separators,
}

abbrev pub is_break : ℕ → Bool
is_break c = is_explicit c || c == lf

abbrev pub has_no_break : Text → Bool
has_no_break = all (λ c. not (is_break c))

abbrev has_no_lf : Text → Bool
has_no_lf = all (λ c. not (c == lf))

-- One break, or a carriage return and a line feed, or nothing at the end of the text.
abbrev pub is_separator : Text → Bool
is_separator [] = true
is_separator (c ∷ []) = is_break c
is_separator (c ∷ d ∷ []) = c == cr && d == lf
is_separator _ = false

-- The lines, each with the separator behind it, are the text, and the offsets are where they end.
abbrev pub Tiles : ℕ → List Line → Text → Type 0
Tiles start [] text = text ≡ []
Tiles start (l ∷ ls) text =
    (separator : Text) × (rest : Text) × (text ≡ l.content ++ (separator ++ rest))
    × (l.separator_end ≡ start + (length l.content + length separator))
    × (has_no_break l.content ≡ true)
    × (is_separator separator ≡ true)
    × ((separator ≢ []) ⊎ (rest ≡ []))
    × Tiles l.separator_end ls rest

pub Tiles-moved :
    (start other : ℕ) (ls : List Line) (text : Text)
    → start ≡ other
    → Tiles start ls text
    → Tiles other ls text
Tiles-moved start other ls text e h = rw (sym e) h

explicit_loop-Tiles :
    (start : ℕ) (line : Text) (cs separator rest : Text) (index sep : ℕ) (more : List Line)
    → has_no_break line ≡ true
    → has_no_lf cs ≡ true
    → is_separator separator ≡ true
    → (separator ≢ []) ⊎ (rest ≡ [])
    → length separator ≡ sep
    → index ≡ start + length line
    → Tiles (index + length cs + sep) more rest
    → Tiles start (explicit_loop line index cs sep ++ more) (line ++ (cs ++ (separator ++ rest)))
unfolding explicit_loop
explicit_loop-Tiles start [] [] [] rest index sep more free cs_free is_sep ends size at tiles =
    let none_left : ltb 0 sep ≡ false = ground arith in
    rw none_left (Tiles-moved (index + 0 + sep) start more rest (omega arith) tiles)
explicit_loop-Tiles start [] [] (d ∷ ds) rest index sep more free cs_free is_sep ends size at
      tiles =
    let some_left : ltb 0 sep ≡ true = ground arith in
    rw some_left (
      d ∷ ds,
      rest,
      refl,
      omega arith,
      refl,
      is_sep,
      ends,
      Tiles-moved (index + 0 + sep) (index + sep) more rest (omega arith) tiles,
    )
explicit_loop-Tiles start (l ∷ ls) [] separator rest index sep more free cs_free is_sep ends size at
      tiles =
    (
      separator,
      rest,
      refl,
      omega arith,
      free,
      is_sep,
      ends,
      Tiles-moved (index + 0 + sep) (index + sep) more rest (omega arith) tiles,
    )
explicit_loop-Tiles start line (c ∷ cs) separator rest index sep more free cs_free is_sep ends size
      at tiles =
    let goal =
      λ (ls : List Line). Tiles start (ls ++ more) (line ++ (c ∷ cs ++ (separator ++ rest))) in
    if_lem goal (is_explicit c)
      (λ explicit. (
        c ∷ [],
        cs ++ (separator ++ rest),
        refl,
        omega arith,
        free,
        ground arith,
        inl (λ e. cc),
        explicit_loop-Tiles (index + 1) [] cs separator rest (index + 1) sep more refl
            (ground arith) is_sep ends size (omega arith)
            (Tiles-moved (index + length (c ∷ cs) + sep) (index + 1 + length cs + sep) more rest
              (omega arith) tiles),
      ))
      (λ other.
        let e = length-append line (c ∷ []) in
        let a = all-append (λ d. not (is_break d)) line (c ∷ []) in
        rw (sym (append_assoc line (c ∷ []) (cs ++ (separator ++ rest)))) (
          explicit_loop-Tiles start (line ++ c ∷ []) cs separator rest (index + 1) sep more
            (ground arith) (ground arith) is_sep ends size (omega arith)
            (Tiles-moved (index + length (c ∷ cs) + sep) (index + 1 + length cs + sep) more rest
              (omega arith) tiles)))

-- Without its line end, a native line is as before, or less a carriage return.
strip_cr_lem :
    (line : Text)
    → (separator : Text) × (line ++ lf ∷ [] ≡ (strip_cr line).0 ++ separator)
      × (length separator ≡ (strip_cr line).1)
      × (is_separator separator ≡ true)
      × (separator ≢ [])
strip_cr_lem [] = (lf ∷ [], refl, refl, refl, λ e. cc)
strip_cr_lem (c ∷ []) = elim (Bool-cases (c == cr)) [
  | inl end ↦ rw end (c ∷ lf ∷ [], refl, refl, ground arith, λ e. cc)
  | inr other ↦ rw other (lf ∷ [], refl, refl, refl, λ e. cc)
]
strip_cr_lem (c ∷ d ∷ cs) =
    let (separator, e, size, is_sep, some) = strip_cr_lem (d ∷ cs) in
    (separator, ap (◌∷◌ c) e, size, is_sep, some)

strip_cr-has_no_lf : (line : Text) → has_no_lf line ≡ true → has_no_lf (strip_cr line).0 ≡ true
strip_cr-has_no_lf [] h = refl
strip_cr-has_no_lf (c ∷ []) h = ground arith
strip_cr-has_no_lf (c ∷ d ∷ cs) h = ground (arith, strip_cr-has_no_lf (d ∷ cs))

native_loop-Tiles :
    (start : ℕ) (line source : Text)
    → has_no_lf line ≡ true
    → Tiles start (lines_from start (native_loop line source)) (line ++ source)
unfolding native_loop lines_from
native_loop-Tiles start [] [] h = refl
native_loop-Tiles start (l ∷ ls) [] h =
    explicit_loop-Tiles start [] (l ∷ ls) [] [] start 0 [] refl h refl (inr refl) refl (omega arith)
      refl
native_loop-Tiles start line (c ∷ cs) h = elim (Bool-cases (c == lf)) [
  | inl end ↦
      let (separator, e, size, is_sep, some) = strip_cr_lem line in
      let native = (strip_cr line).0 in
      let text : line ++ c ∷ cs ≡ native ++ (separator ++ cs) =
        ap (λ (d : ℕ). line ++ d ∷ cs) (==→eq c lf end)
        ∙ sym (append_assoc line (lf ∷ []) cs)
        ∙ ap (λ (t : Text). t ++ cs) e
        ∙ append_assoc native separator cs in
      rw (end, text)
        (explicit_loop-Tiles start [] native separator cs start (strip_cr line).1 _ refl
          (strip_cr-has_no_lf line h) is_sep (inl some) size (omega arith)
          (native_loop-Tiles (start + length native + (strip_cr line).1) [] cs refl))
  | inr other ↦
      let a = all-append (λ d. not (d == lf)) line (c ∷ []) in
      rw other (
        rw (sym (append_assoc line (c ∷ []) cs))
          (native_loop-Tiles start (line ++ c ∷ []) cs (ground arith)))
]

-- The lines of a text, each with the separator behind it, are the whole text; no line holds a line
-- break, and the offset of each is where its separator ends.
pub lines_with_separators-Tiles : (source : Text) → Tiles 0 (lines_with_separators source) source
unfolding lines_with_separators
lines_with_separators-Tiles source = native_loop-Tiles 0 [] source refl
