-- ===== src/Core/Chunk/Content.antt =====
-- The loops of `chunk` in crates/yams-core/src/chunk.rs: what text they append, in what order.
use mathlib.Core.List.{append-nil, append_assoc}
use yams.Prelude.{
  ℕ, suc, ◌%◌, ◌≡◌, refl, sym, ap, ◌∙◌, inl, inr, Bool, true, false, ◌&&◌, Option, none, some, List,
  [], ◌∷◌, ◌++◌, ◌⊎◌, arith, ltb, leb, ◌==◌, if◌then◌else◌, length, is_empty, All, Bool-cases,
}
use yams.Core.Text.{Text, lf, split, join, concat, split-cons, join-split}
use yams.Core.Chunk.{
  max_chunk, Boundary, plain, boundary_text, Packing, append_piece, wrap_loop, hard_wraps,
  boundary_for, append_parts, append_lines, append_paragraphs,
}
use yams.Core.Chunk.Append.{IsPacked, content, added, added_nil, append_piece_lem}

-- The parts of a wrapped line: nothing is lost, and the first is empty only if the line is.
record Wraps (line : Text) (parts : List Text) : Type 0 where
  first : Text
  others : List Text
  parts_are : parts ≡ first ∷ others
  whole : first ++ concat others ≡ line
  nonempty : is_empty first ≡ is_empty line

is_empty-append : (t u : Text) → is_empty t ≡ false → is_empty (t ++ u) ≡ false
is_empty-append [] u h = cc
is_empty-append (c ∷ t) u h = refl

is_empty_snoc : (t : Text) (c : ℕ) → is_empty (t ++ c ∷ []) ≡ false
is_empty_snoc [] c = refl
is_empty_snoc (d ∷ t) c = refl

wrap_loop-Wraps :
    (index : ℕ) (piece cs : Text)
    → (index ≡ 0) ⊎ (is_empty piece ≡ false)
    → Wraps (piece ++ cs) (wrap_loop index piece cs)
unfolding wrap_loop concat
wrap_loop-Wraps index piece [] h = record {
  first = piece;
  others = [];
  parts_are = refl;
  whole = refl;
  nonempty = rw append-nil;
}
wrap_loop-Wraps index piece (c ∷ cs) h =
    elim (Bool-cases (ltb 0 index && (index % max_chunk == 0))) [
      | inl cut ↦
          let w = wrap_loop-Wraps (suc index) (c ∷ []) cs (inr refl) in
          let some_text : is_empty piece ≡ false = ground arith in
          rw (cut, wrap_loop)
            (record {
              first = piece;
              others = wrap_loop (suc index) (c ∷ []) cs;
              parts_are = refl;
              whole =
                  ap (λ (ps : List Text). piece ++ concat ps) w.parts_are
                  ∙ ap (λ (t : Text). piece ++ t) w.whole;
              nonempty = some_text ∙ sym (is_empty-append piece (c ∷ cs) some_text);
            })
      | inr on ↦
          let w = wrap_loop-Wraps (suc index) (piece ++ c ∷ []) cs (inr (is_empty_snoc piece c)) in
          let regroup = append_assoc piece (c ∷ []) cs in
          rw (on, wrap_loop)
            (record {
              first = w.first;
              others = w.others;
              parts_are = w.parts_are;
              whole = w.whole ∙ regroup;
              nonempty = w.nonempty ∙ ap is_empty regroup;
            })
    ]

hard_wraps-Wraps : (l : Text) → Wraps l (hard_wraps l)
unfolding hard_wraps concat
hard_wraps-Wraps l = elim (Bool-cases (leb (length l) max_chunk)) [
  | inl short ↦
      rw (short, hard_wraps)
        (record { first = l; others = []; parts_are = refl; whole = append-nil l; nonempty = refl })
  | inr long ↦ rw (long, hard_wraps) (wrap_loop-Wraps 0 [] l (inl refl))
]

-- An operation on packings that ends, keeps the sizes and appends `text`.
pub record Appends (p : Packing) (text : Text) (o : Option Packing) : Type 0 where
  pub result : Packing
  pub returns : o ≡ some result
  pub packed : IsPacked result
  pub grows : content result ≡ content p ++ text

Appends-text :
    {p : Packing} {t u : Text} {o : Option Packing} → t ≡ u → Appends p t o → Appends p u o
Appends-text e a = rw e at a

unchanged-Appends : (p : Packing) → IsPacked p → Appends p [] (some p)
unchanged-Appends p w = record {
  result = p;
  returns = refl;
  packed = w;
  grows = sym (append-nil (content p));
}

-- One operation behind another.
append_then :
    (p : Packing) (t u : Text) (o : Option Packing) (f : Packing → Option Packing)
    → Appends p t o
    → ((q : Packing) → IsPacked q → Appends q u (f q))
    → Appends p (t ++ u) (elim o [ none ↦ none | some q ↦ f q ])
append_then p t u o f a next =
    let b = next a.result a.packed in
    rw a.returns (record {
      result = b.result;
      returns = b.returns;
      packed = b.packed;
      grows = b.grows ∙ ap (λ (x : Text). x ++ u) a.grows ∙ append_assoc (content p) t u;
    })

append_piece-Appends :
    (p : Packing) (b : Boundary) (text : Text)
    → IsPacked p
    → Appends p (added (boundary_text b) text) (append_piece p b text)
append_piece-Appends p b text w =
    let (q, e, packed, c) = append_piece_lem p b text w in
    record { result = q; returns = e; packed = packed; grows = c }

-- Parts behind the first have no boundary.
append_parts-later :
    (p : Packing) (later_line later_paragraph : Bool) (parts : List Text)
    → IsPacked p
    → Appends p (concat parts) (append_parts p false later_line later_paragraph parts)
unfolding append_parts concat boundary_for
append_parts-later p later_line later_paragraph [] w = unchanged-Appends p w
append_parts-later p later_line later_paragraph (part ∷ parts) w =
    Appends-text (ap (λ (t : Text). t ++ concat parts) (added_nil part)) (
      append_then p (added [] part) (concat parts) (append_piece p plain part) _
        (append_piece-Appends p plain part w)
        (λ q v. append_parts-later q later_line later_paragraph parts v))

-- The boundary of a line's first part stands in front of the whole line.
added_first :
    (boundary first rest l : Text)
    → first ++ rest ≡ l
    → is_empty first ≡ is_empty l
    → added boundary first ++ rest ≡ added boundary l
added_first boundary [] rest [] whole e = whole
added_first boundary [] rest (d ∷ l) whole e = cc
added_first boundary (c ∷ first) rest [] whole e = cc
added_first boundary (c ∷ first) rest (d ∷ l) whole e =
    append_assoc boundary (c ∷ first) rest ∙ ap (λ (t : Text). boundary ++ t) whole

append_line-Appends :
    (p : Packing) (later_line later_paragraph : Bool) (l : Text)
    → IsPacked p
    → Appends p
        (added (boundary_text (boundary_for true later_line later_paragraph)) l)
        (append_parts p true later_line later_paragraph (hard_wraps l))
unfolding append_parts
append_line-Appends p later_line later_paragraph l w =
    let parts = hard_wraps-Wraps l in
    let b = boundary_for true later_line later_paragraph in
    rw parts.parts_are (
      Appends-text
        (added_first (boundary_text b) parts.first (concat parts.others) l parts.whole
          parts.nonempty)
        (append_then p (added (boundary_text b) parts.first) (concat parts.others)
          (append_piece p b parts.first) _ (append_piece-Appends p b parts.first w)
          (λ q v. append_parts-later q later_line later_paragraph parts.others v)))

-- What the lines of a paragraph add, where none is empty.
abbrev pub IsLine : Text → Type 0
IsLine l = is_empty l ≡ false

added_line : (boundary l : Text) → IsLine l → added boundary l ≡ boundary ++ l
added_line boundary [] h = cc
added_line boundary (c ∷ l) h = refl

-- The lines behind the first of a paragraph, each behind a line feed.
later_lines : List Text → Text
later_lines [] = []
later_lines (l ∷ ls) = (lf ∷ l) ++ later_lines ls

append_lines-later :
    (p : Packing) (later_paragraph : Bool) (ls : List Text)
    → IsPacked p
    → All IsLine ls
    → Appends p (later_lines ls) (append_lines p true later_paragraph ls)
unfolding append_lines later_lines boundary_for
append_lines-later p later_paragraph [] w h = unchanged-Appends p w
append_lines-later p later_paragraph (l ∷ ls) w h =
    append_then p (lf ∷ l) (later_lines ls) _ _
      (Appends-text (added_line (lf ∷ []) l h.0) (append_line-Appends p true later_paragraph l w))
      (λ q v. append_lines-later q later_paragraph ls v h.1)

join-later_lines : (l : Text) (ls : List Text) → join (lf ∷ []) (l ∷ ls) ≡ l ++ later_lines ls
unfolding join later_lines
join-later_lines l [] = sym (append-nil l)
join-later_lines l (k ∷ ls) = ap (λ (t : Text). l ++ (lf ∷ t)) (join-later_lines k ls)

abbrev blank_line : Bool → Text
blank_line later_paragraph = if later_paragraph then lf ∷ lf ∷ [] else []

paragraph_boundary :
    (later_paragraph : Bool)
    → boundary_text (boundary_for true false later_paragraph) ≡ blank_line later_paragraph
unfolding boundary_for
paragraph_boundary true = refl
paragraph_boundary false = refl

append_lines_first :
    (p : Packing) (later_paragraph : Bool) (l : Text) (ls : List Text)
    → IsPacked p
    → All IsLine (l ∷ ls)
    → Appends p
        (blank_line later_paragraph ++ (l ++ later_lines ls))
        (append_lines p false later_paragraph (l ∷ ls))
unfolding append_lines
append_lines_first p later_paragraph l ls w h =
    let boundary = boundary_text (boundary_for true false later_paragraph) in
    let text =
      ap (λ (t : Text). t ++ later_lines ls) (added_line boundary l h.0)
      ∙ append_assoc boundary l (later_lines ls)
      ∙ ap (λ (t : Text). t ++ (l ++ later_lines ls)) (paragraph_boundary later_paragraph) in
    Appends-text text (
      append_then p (added boundary l) (later_lines ls) _ _
        (append_line-Appends p false later_paragraph l w)
        (λ q v. append_lines-later q later_paragraph ls v h.1))

-- A paragraph without empty lines is appended whole, behind a blank line unless it is the first.
append_paragraph-Appends :
    (p : Packing) (later_paragraph : Bool) (t : Text)
    → IsPacked p
    → All IsLine (split lf t)
    → Appends p
        (blank_line later_paragraph ++ t)
        (append_lines p false later_paragraph (split lf t))
append_paragraph-Appends p later_paragraph t w h =
    let (l, ls, e) = split-cons lf t in
    let whole : l ++ later_lines ls ≡ t =
      sym (join-later_lines l ls) ∙ ap (join (lf ∷ [])) (sym e) ∙ join-split lf t in
    Appends-text (ap (λ (u : Text). blank_line later_paragraph ++ u) whole)
      (rw e (append_lines_first p later_paragraph l ls w (rw e at h)))

abbrev pub IsParagraph : Text → Type 0
IsParagraph t = All IsLine (split lf t)

later_paragraphs : List Text → Text
later_paragraphs [] = []
later_paragraphs (t ∷ ts) = (lf ∷ lf ∷ t) ++ later_paragraphs ts

join-later_paragraphs :
    (t : Text) (ts : List Text) → join (lf ∷ lf ∷ []) (t ∷ ts) ≡ t ++ later_paragraphs ts
unfolding join later_paragraphs
join-later_paragraphs t [] = sym (append-nil t)
join-later_paragraphs t (u ∷ ts) =
    ap (λ (v : Text). t ++ (lf ∷ lf ∷ v)) (join-later_paragraphs u ts)

append_paragraphs-later :
    (p : Packing) (ts : List Text)
    → IsPacked p
    → All IsParagraph ts
    → Appends p (later_paragraphs ts) (append_paragraphs p true ts)
unfolding append_paragraphs later_paragraphs
append_paragraphs-later p [] w h = unchanged-Appends p w
append_paragraphs-later p (t ∷ ts) w h =
    append_then p (lf ∷ lf ∷ t) (later_paragraphs ts) _ _ (append_paragraph-Appends p true t w h.0)
      (λ q v. append_paragraphs-later q ts v h.1)

-- All paragraphs are appended, with a blank line between two.
pub append_paragraphs-Appends :
    (p : Packing) (ts : List Text)
    → IsPacked p
    → All IsParagraph ts
    → Appends p (join (lf ∷ lf ∷ []) ts) (append_paragraphs p false ts)
unfolding append_paragraphs
append_paragraphs-Appends p [] w h = unfold join in unchanged-Appends p w
append_paragraphs-Appends p (t ∷ ts) w h = Appends-text (sym (join-later_paragraphs t ts)) (
    append_then p t (later_paragraphs ts) _ _ (append_paragraph-Appends p false t w h.0)
      (λ q v. append_paragraphs-later q ts v h.1))
