-- ===== src/Core/Chunk/Paragraphs.antt =====
-- `paragraphs` of crates/yams-core/src/chunk.rs: no paragraph holds an empty line.
use mathlib.Core.List.{append-nil}
use yams.Prelude.{
  ℕ, ◌≡◌, refl, sym, ap, ◌∙◌, inl, inr, Bool, true, false, not, ◌&&◌, ◌||◌, List, [], ◌∷◌, ◌++◌,
  arith, ◌==◌, if◌then◌else◌, is_empty, All, All-append, Bool-cases,
}
use yams.Core.Text.{Text, lf, cr, is_whitespace, trim_start, trim_end, trim, split, join}
use yams.Core.Chunk.{lines_loop, logical_lines, push_paragraph, paragraphs_loop, paragraphs}
use yams.Core.Chunk.Content.{IsLine, IsParagraph}

-- Every line of the text shows a character, where the open one already does if `seen`.
lines_ok : Bool → Text → Bool
lines_ok seen [] = seen
lines_ok seen (c ∷ cs) =
    lines_ok (if c == lf then false else seen || not (is_whitespace c)) cs
    && (if c == lf then seen else true)

-- A text that `trim_end` empties shows nothing.
lines_ok_blank :
    (seen : Bool) (t : Text) → is_empty (trim_end t) ≡ true → lines_ok seen t ≡ true → seen ≡ true
unfolding lines_ok trim_end
lines_ok_blank seen [] e h = h
lines_ok_blank seen (c ∷ cs) e h =
    ground (arith, lines_ok_blank (if c == lf then false else seen || not (is_whitespace c)) cs)

lines_ok-trim_end :
    (seen : Bool) (t : Text) → lines_ok seen t ≡ true → lines_ok seen (trim_end t) ≡ true
unfolding lines_ok trim_end
lines_ok-trim_end seen [] h = h
lines_ok-trim_end seen (c ∷ cs) h =
    let seen' = if c == lf then false else seen || not (is_whitespace c) in
    ground (arith, lines_ok-trim_end seen' cs, lines_ok_blank seen' cs)

lines_ok-trim_start : (t : Text) → lines_ok false t ≡ true → lines_ok false (trim_start t) ≡ true
unfolding lines_ok trim_start
lines_ok-trim_start [] h = h
lines_ok-trim_start (c ∷ cs) h = ground (arith, lines_ok-trim_start cs)

has_text : Text → Bool
has_text [] = false
has_text (c ∷ cs) = not (is_whitespace c) || has_text cs

-- A line feed ends a logical line, so none is in it.
has_lf : Text → Bool
has_lf [] = false
has_lf (c ∷ cs) = c == lf || has_lf cs

has_text-trim_end : (t : Text) → has_text t ≡ false → trim_end t ≡ []
unfolding has_text trim_end
has_text-trim_end [] h = refl
has_text-trim_end (c ∷ cs) h = ground (arith, has_text-trim_end cs)

trim-has_text : (t : Text) → is_empty (trim t) ≡ false → has_text t ≡ true
unfolding trim
trim-has_text t h = elim (Bool-cases (has_text t)) [
  | inl text ↦ text
  | inr blank ↦ cc (ap (λ (u : Text). is_empty (trim_start u)) (has_text-trim_end t blank))
]

lines_ok-append :
    (seen : Bool) (l rest : Text)
    → has_lf l ≡ false
    → lines_ok seen (l ++ rest) ≡ lines_ok (seen || has_text l) rest
unfolding lines_ok has_lf has_text
lines_ok-append seen [] rest h = ground arith
lines_ok-append seen (c ∷ cs) rest h =
    ground (arith, lines_ok-append (seen || not (is_whitespace c)) cs rest)

-- A line of an open paragraph.
abbrev IsOpen : Text → Type 0
IsOpen l = (has_lf l ≡ false) × (has_text l ≡ true)

lines_ok-join :
    (l : Text) (ls : List Text)
    → All IsOpen (l ∷ ls)
    → lines_ok false (join (lf ∷ []) (l ∷ ls)) ≡ true
unfolding join lines_ok
lines_ok-join l [] h =
    ap (lines_ok false) (sym (append-nil l)) ∙ lines_ok-append false l [] h.0.0 ∙ h.0.1
lines_ok-join l (k ∷ ls) h =
    lines_ok-append false l _ h.0.0 ∙ ground (arith, lines_ok-join k ls h.1, h.0.1)

-- The lines that `split` returns, the first of which is known to show something if `seen`.
record Splits (seen : Bool) (parts : List Text) : Type 0 where
  head : Text
  tail : List Text
  parts_are : parts ≡ head ∷ tail
  head_line : seen ≡ false → IsLine head
  tail_lines : All IsLine tail

split-Splits : (seen : Bool) (t : Text) → lines_ok seen t ≡ true → Splits seen (split lf t)
unfolding split lines_ok
split-Splits seen [] h = record {
  head = [];
  tail = [];
  parts_are = refl;
  head_line = λ e. cc;
  tail_lines = tt;
}
split-Splits seen (c ∷ cs) h = elim (Bool-cases (c == lf)) [
  | inl at ↦
      let s = split-Splits false cs (ground arith) in
      rw (at, split)
        (record {
          head = [];
          tail = split lf cs;
          parts_are = refl;
          head_line = λ e. ground arith;
          tail_lines = rw s.parts_are (s.head_line refl, s.tail_lines);
        })
  | inr off ↦
      let s = split-Splits (seen || not (is_whitespace c)) cs (ground arith) in
      rw (off, split, s.parts_are)
        (record {
          head = c ∷ s.head;
          tail = s.tail;
          parts_are = refl;
          head_line = λ e. refl;
          tail_lines = s.tail_lines;
        })
]

lines_ok-IsParagraph : (t : Text) → lines_ok false t ≡ true → IsParagraph t
lines_ok-IsParagraph t h =
    let s = split-Splits false t h in rw s.parts_are (s.head_line refl, s.tail_lines)

push_paragraph-IsParagraph :
    (ps lines : List Text)
    → All IsParagraph ps
    → All IsOpen lines
    → All IsParagraph (push_paragraph ps lines)
unfolding push_paragraph
push_paragraph-IsParagraph ps [] hp hl = hp
push_paragraph-IsParagraph ps (l ∷ ls) hp hl =
    let text = join (lf ∷ []) (l ∷ ls) in
    let good : lines_ok false (trim text) ≡ true =
      unfold trim in lines_ok-trim_start _ (lines_ok-trim_end false text (lines_ok-join l ls hl)) in
    elim (Bool-cases (is_empty (trim text))) [
      | inl empty ↦ rw (empty, push_paragraph) hp
      | inr some_text ↦
          rw (some_text, push_paragraph)
            (All-append IsParagraph ps (trim text ∷ []) hp (lines_ok-IsParagraph _ good, tt))
    ]

has_lf-append : (t u : Text) → has_lf (t ++ u) ≡ has_lf t || has_lf u
unfolding has_lf
has_lf-append [] u = refl
has_lf-append (c ∷ t) u = ground (arith, has_lf-append t u)

abbrev HasNoLf : Text → Type 0
HasNoLf l = has_lf l ≡ false

HasNoLf-concat : (t : Text) (c : ℕ) → HasNoLf t → (c == lf) ≡ false → HasNoLf (t ++ c ∷ [])
unfolding has_lf
HasNoLf-concat t c h e = has_lf-append t (c ∷ []) ∙ ground arith

lines_loop-HasNoLf : (open_line t : Text) → HasNoLf open_line → All HasNoLf (lines_loop open_line t)
unfolding lines_loop has_lf
lines_loop-HasNoLf open_line [] h =
    elim (is_empty open_line) as (λ b. All HasNoLf (if b then [] else open_line ∷ [])) [
      | true ↦ tt
      | false ↦ (h, tt)
    ]
lines_loop-HasNoLf open_line (c ∷ []) h = elim (Bool-cases (c == lf || c == cr)) [
  | inl e ↦ rw (e, lines_loop) (h, tt)
  | inr e ↦ rw (e, lines_loop) (HasNoLf-concat open_line c h (ground arith), tt)
]
lines_loop-HasNoLf open_line (c ∷ d ∷ cs) h = elim (Bool-cases (c == cr && d == lf)) [
  | inl both ↦ rw (both, lines_loop) (h, lines_loop-HasNoLf [] cs refl)
  | inr one ↦ elim (Bool-cases (c == lf || c == cr)) [
    | inl e ↦ rw (one, e, lines_loop) (h, lines_loop-HasNoLf [] (d ∷ cs) refl)
    | inr e ↦
        rw (one, e, lines_loop)
          (lines_loop-HasNoLf (open_line ++ c ∷ []) (d ∷ cs)
            (HasNoLf-concat open_line c h (ground arith)))
  ]
]

paragraphs_loop-IsParagraph :
    (ps lines ls : List Text)
    → All IsParagraph ps
    → All IsOpen lines
    → All HasNoLf ls
    → All IsParagraph (paragraphs_loop ps lines ls)
unfolding paragraphs_loop
paragraphs_loop-IsParagraph ps lines [] hp hl h = push_paragraph-IsParagraph ps lines hp hl
paragraphs_loop-IsParagraph ps lines (l ∷ ls) hp hl h = elim (Bool-cases (is_empty (trim l))) [
  | inl blank ↦
      rw (blank, paragraphs_loop)
        (paragraphs_loop-IsParagraph (push_paragraph ps lines) [] ls
          (push_paragraph-IsParagraph ps lines hp hl) tt h.1)
  | inr text ↦
      rw (text, paragraphs_loop)
        (paragraphs_loop-IsParagraph ps (lines ++ l ∷ []) ls hp
          (All-append IsOpen lines (l ∷ []) hl ((h.0, trim-has_text l text), tt)) h.1)
]

-- No paragraph is empty or holds an empty line.
pub paragraphs-IsParagraph : (t : Text) → All IsParagraph (paragraphs t)
unfolding paragraphs logical_lines
paragraphs-IsParagraph t =
    paragraphs_loop-IsParagraph [] [] (lines_loop [] t) tt tt
      (lines_loop-HasNoLf [] t (unfold has_lf in refl))
