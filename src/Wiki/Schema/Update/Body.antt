-- ===== src/Wiki/Schema/Update/Body.antt =====
-- The body that `recanonicalize_frontmatter` of crates/yams-wiki/src/schema.rs keeps, by the lines of the
-- page.
use yams.Prelude.{
  ℕ, ◌≡◌, refl, ap, ◌∙◌, inl, inr, Bool, true, false, ◌&&◌, Option, none, some, List, [], ◌∷◌, ◌++◌,
  ◌==◌, if◌then◌else◌, is_empty, Bool-cases,
}
use yams.Core.Text.{Text, lf, cr, characters}
use yams.Core.Text.Order.{text_eq_iff}
use yams.Wiki.Schema.Lines.{is_splitlines_boundary, splitlines_loop, python_splitlines}
use yams.Wiki.Schema.Page.{is_page_fence, before_fence}
use yams.Wiki.Schema.Update.StoredLines.{before_line, nothing_before}
use yams.Wiki.Schema.Update.{behind, body_loop}

behind-python_splitlines :
    (c : ℕ) (cs : Text) → splitlines_loop (c == cr) [] cs ≡ python_splitlines (behind c cs)
unfolding splitlines_loop python_splitlines
behind-python_splitlines c [] = refl
behind-python_splitlines c (d ∷ ds) = elim (Bool-cases (c == cr && d == lf)) [
  | inl pair ↦ rw pair refl
  | inr other ↦ rw other refl
]

pub fence_text : (line : Text) → is_page_fence line ≡ true → line ≡ characters "---"
unfolding is_page_fence
fence_text line h = (text_eq_iff line (characters "---")).0 h

-- What stands behind the fence: the lines of the body, and the body itself at the end of the text.
pub record Closes (lines all_lines : List Text) (found : Option Text) (text : Text) : Type 0 where
  pub body : Text
  pub is_found : found ≡ some body
  pub splits : all_lines ≡ lines ++ (characters "---" ∷ python_splitlines body)
  pub front : Text
  pub at_end : text ≡ front ++ body

behind_end : (c : ℕ) (cs : Text) → (front : Text) × (c ∷ cs ≡ front ++ behind c cs)
behind_end c [] = (c ∷ [], refl)
behind_end c (d ∷ ds) = elim (Bool-cases (c == cr && d == lf)) [
  | inl pair ↦ rw pair (c ∷ d ∷ [], refl)
  | inr other ↦ rw other (c ∷ [], refl)
]

later-Closes :
    (line : Text) (lines all_lines : List Text) (found : Option Text) (c : ℕ) (cs : Text)
    → Closes lines all_lines found cs
    → Closes (line ∷ lines) (line ∷ all_lines) found (c ∷ cs)
later-Closes line lines all_lines found c cs k = record {
  body = k.body;
  is_found = k.is_found;
  splits = ap (◌∷◌ line) k.splits;
  front = c ∷ k.front;
  at_end = ap (◌∷◌ c) k.at_end;
}

further-Closes :
    (lines all_lines : List Text) (found : Option Text) (c : ℕ) (cs : Text)
    → Closes lines all_lines found cs
    → Closes lines all_lines found (c ∷ cs)
further-Closes lines all_lines found c cs k = record {
  body = k.body;
  is_found = k.is_found;
  splits = k.splits;
  front = c ∷ k.front;
  at_end = ap (◌∷◌ c) k.at_end;
}

end-Closes :
    (line : Text) (lines : List Text)
    → before_fence (if is_empty line then [] else line ∷ []) ≡ some lines
    → Closes lines
        (if is_empty line then [] else line ∷ [])
        (if is_page_fence line then some [] else none)
        []
unfolding before_fence python_splitlines splitlines_loop
end-Closes [] lines e = cc
end-Closes (d ∷ ds) lines e = elim (Bool-cases (is_page_fence (d ∷ ds))) [
  | inl fence ↦
      let f = rw fence at e in
      rw fence (record {
        body = [];
        is_found = refl;
        splits =
            rw (nothing_before lines f) (ap (λ (l : Text). l ∷ []) (fence_text (d ∷ ds) fence));
        front = [];
        at_end = refl;
      })
  | inr other ↦ let f = rw other at e in cc
]

-- The line `line` has ended.
ended-Closes :
    (line cs : Text) (c : ℕ) (lines : List Text)
    → ((front : List Text)
        → before_fence (splitlines_loop (c == cr) [] cs) ≡ some front
        → Closes front (splitlines_loop (c == cr) [] cs) (body_loop false (c == cr) [] cs) cs)
    → before_fence (line ∷ splitlines_loop (c == cr) [] cs) ≡ some lines
    → Closes lines
        (line ∷ splitlines_loop (c == cr) [] cs)
        (if is_page_fence line then some (behind c cs) else body_loop false (c == cr) [] cs)
        (c ∷ cs)
unfolding before_fence
ended-Closes line cs c lines later e = elim (Bool-cases (is_page_fence line)) [
  | inl fence ↦
      let f = rw fence at e in
      let (front, at_end) = behind_end c cs in
      rw fence (record {
        body = behind c cs;
        is_found = refl;
        splits = rw (nothing_before lines f) (
            ap (λ (l : Text). l ∷ splitlines_loop (c == cr) [] cs) (fence_text line fence)
            ∙ ap (◌∷◌ (characters "---")) (behind-python_splitlines c cs));
        front = front;
        at_end = at_end;
      })
  | inr other ↦
      let f = rw other at e in
      let (front, g, all_of) =
        before_line line (before_fence (splitlines_loop (c == cr) [] cs)) lines f in
      rw (other, all_of) (later-Closes line front _ _ c cs (later front g))
]

pub body_loop-Closes :
    (after_cr : Bool) (line cs : Text) (lines : List Text)
    → before_fence (splitlines_loop after_cr line cs) ≡ some lines
    → Closes lines (splitlines_loop after_cr line cs) (body_loop false after_cr line cs) cs
unfolding splitlines_loop body_loop
body_loop-Closes after_cr line [] lines e = end-Closes line lines e
body_loop-Closes after_cr line (c ∷ cs) lines e = elim (Bool-cases (after_cr && c == lf)) [
  | inl passed ↦
      let f = rw passed at e in
      rw passed (further-Closes lines _ _ c cs (body_loop-Closes false line cs lines f))
  | inr other ↦
      let f = rw other at e in
      elim (Bool-cases (is_splitlines_boundary c)) [
        | inl ended ↦
            let g = rw ended at f in
            rw (other, ended)
              (ended-Closes line cs c lines (λ front. body_loop-Closes (c == cr) [] cs front) g)
        | inr further ↦
            let g = rw further at f in
            rw (other, further)
              (further-Closes lines _ _ c cs (body_loop-Closes false (line ++ (c ∷ [])) cs lines g))
      ]
]

only_line :
    (line first : Text) (rest : List Text)
    → (if is_empty line then [] else line ∷ []) ≡ first ∷ rest
    → rest ≡ []
only_line [] first rest e = cc
only_line (d ∷ ds) first rest e = cc

no_fence : (lines : List Text) → before_fence [] ≡ some lines → ⊥
unfolding before_fence
no_fence lines e = cc

lines_behind : (line first : Text) (ls rest : List Text) → line ∷ ls ≡ first ∷ rest → ls ≡ rest
lines_behind line first ls rest e = cc

-- The first line is passed over.
pub first_line-Closes :
    (after_cr : Bool) (line cs first : Text) (rest lines : List Text)
    → splitlines_loop after_cr line cs ≡ first ∷ rest
    → before_fence rest ≡ some lines
    → Closes (first ∷ lines) (first ∷ rest) (body_loop true after_cr line cs) cs
unfolding splitlines_loop body_loop
first_line-Closes after_cr line [] first rest lines split e =
    let nothing = only_line line first rest split in absurd (no_fence lines (rw nothing at e))
first_line-Closes after_cr line (c ∷ cs) first rest lines split e =
    elim (Bool-cases (after_cr && c == lf)) [
      | inl passed ↦
          let f = rw passed at split in
          rw passed (
            further-Closes (first ∷ lines) _ _ c cs
              (first_line-Closes false line cs first rest lines f e))
      | inr other ↦
          let f = rw other at split in
          elim (Bool-cases (is_splitlines_boundary c)) [
            | inl ended ↦
                let g = rw ended at f in
                let behind_it : splitlines_loop (c == cr) [] cs ≡ rest =
                  lines_behind line first (splitlines_loop (c == cr) [] cs) rest g in
                let closed : Closes lines (splitlines_loop (c == cr) [] cs)
                    (body_loop false (c == cr) [] cs) cs =
                  body_loop-Closes (c == cr) [] cs lines (ap before_fence behind_it ∙ e) in
                let at_rest : Closes lines rest (body_loop false (c == cr) [] cs) cs =
                  rw behind_it at closed in
                rw (other, ended) (later-Closes first lines rest _ c cs at_rest)
            | inr further ↦
                let g = rw further at f in
                rw (other, further)
                  (further-Closes (first ∷ lines) _ _ c cs
                    (first_line-Closes false (line ++ (c ∷ [])) cs first rest lines g e))
          ]
    ]
