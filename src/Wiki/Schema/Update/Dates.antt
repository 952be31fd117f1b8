-- ===== src/Wiki/Schema/Update/Dates.antt =====
-- What `without_dates` of crates/yams-wiki/src/schema.rs leaves of a page.
use mathlib.Core.List.{append_assoc}
use yams.Prelude.{
  ℕ, ◌≡◌, refl, ap, ◌∙◌, inl, inr, Bool, true, false, List, [], ◌∷◌, ◌++◌, arith, ◌==◌,
  if◌then◌else◌, All, Bool-cases,
}
use yams.Core.Text.{Text, characters, lf, concat, onto_first}
use yams.Core.Text.Order.{text_eq, starts_with}
use yams.Wiki.Schema.Lines.{IsLine, IsLine-append}
use yams.Wiki.Schema.Page.{is_page_fence}
use yams.Wiki.Schema.Trip.Block.{block_lines, with_lines}
use yams.Wiki.Schema.Update.{split_inclusive, strip_lf, Seen, keeps_line, dates_loop, without_dates}

split_inclusive-line :
    (line rest : Text)
    → IsLine line
    → split_inclusive (line ++ (lf ∷ rest)) ≡ (line ++ (lf ∷ [])) ∷ split_inclusive rest
unfolding split_inclusive onto_first
split_inclusive-line [] rest h = refl
split_inclusive-line (c ∷ cs) rest h =
    let off : (c == lf) ≡ false = ground arith in
    rw (off, split_inclusive-line cs rest (ground arith)) refl

strip_lf_line : (line : Text) → strip_lf (line ++ (lf ∷ [])) ≡ line
strip_lf_line [] = refl
strip_lf_line (c ∷ []) = refl
strip_lf_line (c ∷ d ∷ cs) = ap (◌∷◌ c) (strip_lf_line (d ∷ cs))

concat-onto_first : (c : ℕ) (ts : List Text) → concat (onto_first c ts) ≡ c ∷ concat ts
unfolding concat onto_first
concat-onto_first c [] = refl
concat-onto_first c (t ∷ ts) = refl

concat-split_inclusive : (t : Text) → concat (split_inclusive t) ≡ t
unfolding split_inclusive concat
concat-split_inclusive [] = refl
concat-split_inclusive (c ∷ cs) = elim (Bool-cases (c == lf)) [
  | inl at ↦ rw at (ap (◌∷◌ c) (concat-split_inclusive cs))
  | inr off ↦
      rw off (concat-onto_first c (split_inclusive cs) ∙ ap (◌∷◌ c) (concat-split_inclusive cs))
]

abbrev outside : Seen
outside = record { frontmatter = false; closed = false }

abbrev inside : Seen
inside = record { frontmatter = true; closed = false }

abbrev past : Seen
past = record { frontmatter = true; closed = true }

-- The text that is kept.
kept : Seen → Text → Text
unfolding dates_loop split_inclusive concat
kept seen t = concat (dates_loop seen (split_inclusive t))

dates_loop-cons :
    (seen : Seen) (line : Text) (lines : List Text) (step : Bool × Seen)
    → keeps_line seen (strip_lf line) ≡ step
    → dates_loop seen (line ∷ lines)
      ≡ (if step.0 then line ∷ dates_loop step.1 lines else dates_loop step.1 lines)
unfolding dates_loop
dates_loop-cons seen line lines step e =
    ap (λ (s : Bool × Seen). if s.0 then line ∷ dates_loop s.1 lines else dates_loop s.1 lines) e

kept-line :
    (seen : Seen) (line rest : Text) (step : Bool × Seen)
    → IsLine line
    → keeps_line seen line ≡ step
    → kept seen (line ++ (lf ∷ rest))
      ≡ concat (
          if step.0
          then (line ++ (lf ∷ [])) ∷ dates_loop step.1 (split_inclusive rest)
          else dates_loop step.1 (split_inclusive rest))
unfolding kept
kept-line seen line rest step h e =
    ap (λ (ls : List Text). concat (dates_loop seen ls)) (split_inclusive-line line rest h)
    ∙ ap concat (
        dates_loop-cons seen (line ++ (lf ∷ [])) (split_inclusive rest) step
          (ap (keeps_line seen) (strip_lf_line line) ∙ e))

kept-keep :
    (seen next : Seen) (line rest : Text)
    → IsLine line
    → keeps_line seen line ≡ (true, next)
    → kept seen (line ++ (lf ∷ rest)) ≡ line ++ (lf ∷ kept next rest)
unfolding kept concat
kept-keep seen next line rest h e =
    kept-line seen line rest (true, next) h e
    ∙ append_assoc line (lf ∷ []) (concat (dates_loop next (split_inclusive rest)))

kept-drop :
    (seen next : Seen) (line rest : Text)
    → IsLine line
    → keeps_line seen line ≡ (false, next)
    → kept seen (line ++ (lf ∷ rest)) ≡ kept next rest
unfolding kept
kept-drop seen next line rest h e = kept-line seen line rest (false, next) h e

dates_loop-past : (lines : List Text) → dates_loop past lines ≡ lines
unfolding dates_loop keeps_line
dates_loop-past [] = refl
dates_loop-past (line ∷ lines) = ap (◌∷◌ line) (dates_loop-past lines)

kept-past : (t : Text) → kept past t ≡ t
unfolding kept
kept-past t = ap concat (dates_loop-past (split_inclusive t)) ∙ concat-split_inclusive t

abbrev fence : Text
fence = characters "---"

abbrev pub page_lines :
    (slug title page_type status owner updated verified summary : Text) → List Text
page_lines slug title page_type status owner updated verified summary =
    characters "---"
    ∷ (block_lines slug title page_type status owner updated verified summary
        ++ (characters "---" ∷ []))

-- The lines of a page without its dates.
abbrev pub dateless_lines : (slug title page_type status owner summary : Text) → List Text
dateless_lines slug title page_type status owner summary =
    characters "---"
    ∷ (characters "slug: " ++ slug)
    ∷ (characters "title: " ++ title)
    ∷ (characters "type: " ++ page_type)
    ∷ (characters "status: " ++ status)
    ∷ (characters "owner: " ++ owner)
    ∷ (characters "summary: " ++ summary)
    ∷ characters "---"
    ∷ []

pub page_lines-IsLine :
    (slug title page_type status owner updated verified summary : Text)
    → IsLine slug
    → IsLine title
    → IsLine page_type
    → IsLine status
    → IsLine owner
    → IsLine updated
    → IsLine verified
    → IsLine summary
    → All IsLine (page_lines slug title page_type status owner updated verified summary)
page_lines-IsLine slug title page_type status owner updated verified summary s t p c w u v m = (
  refl,
  (
    IsLine-append (characters "slug: ") slug refl s,
    (
      IsLine-append (characters "title: ") title refl t,
      (
        IsLine-append (characters "type: ") page_type refl p,
        (
          IsLine-append (characters "status: ") status refl c,
          (
            IsLine-append (characters "owner: ") owner refl w,
            (
              IsLine-append (characters "updated: ") updated refl u,
              (
                IsLine-append (characters "verified: ") verified refl v,
                (IsLine-append (characters "summary: ") summary refl m, (refl, tt)),
              ),
            ),
          ),
        ),
      ),
    ),
  ),
)

module _ (slug title page_type status owner updated verified summary body : Text) where
  pub without_dates-page_lines :
      All IsLine (page_lines slug title page_type status owner updated verified summary)
      → without_dates
          (with_lines (page_lines slug title page_type status owner updated verified summary) body)
        ≡ with_lines (dateless_lines slug title page_type status owner summary) body
  unfolding without_dates keeps_line is_page_fence text_eq starts_with kept
  without_dates-page_lines h =
      let l8 = with_lines (characters "---" ∷ []) body in
      let l7 = with_lines ((characters "summary: " ++ summary) ∷ characters "---" ∷ []) body in
      let l6 = (characters "verified: " ++ verified) ++ (lf ∷ l7) in
      let l5 = (characters "updated: " ++ updated) ++ (lf ∷ l6) in
      let l4 = (characters "owner: " ++ owner) ++ (lf ∷ l5) in
      let l3 = (characters "status: " ++ status) ++ (lf ∷ l4) in
      let l2 = (characters "type: " ++ page_type) ++ (lf ∷ l3) in
      let l1 = (characters "title: " ++ title) ++ (lf ∷ l2) in
      let l0 = (characters "slug: " ++ slug) ++ (lf ∷ l1) in
      let behind : Text → Text → Text = λ line rest. line ++ (lf ∷ rest) in
      kept-keep outside inside (characters "---") l0 refl refl
      ∙ ap (behind (characters "---")) (
          kept-keep inside inside (characters "slug: " ++ slug) l1 h.1.0 refl
          ∙ ap (behind (characters "slug: " ++ slug)) (
              kept-keep inside inside (characters "title: " ++ title) l2 h.1.1.0 refl
              ∙ ap (behind (characters "title: " ++ title)) (
                  kept-keep inside inside (characters "type: " ++ page_type) l3 h.1.1.1.0 refl
                  ∙ ap (behind (characters "type: " ++ page_type)) (
                      kept-keep inside inside (characters "status: " ++ status) l4 h.1.1.1.1.0 refl
                      ∙ ap (behind (characters "status: " ++ status)) (
                          kept-keep inside inside (characters "owner: " ++ owner) l5 h.1.1.1.1.1.0
                            refl
                          ∙ ap (behind (characters "owner: " ++ owner)) (
                              kept-drop inside inside (characters "updated: " ++ updated) l6
                                h.1.1.1.1.1.1.0 refl
                              ∙ kept-drop inside inside (characters "verified: " ++ verified) l7
                                  h.1.1.1.1.1.1.1.0 refl
                              ∙ kept-keep inside inside (characters "summary: " ++ summary) l8
                                  h.1.1.1.1.1.1.1.1.0 refl
                              ∙ ap (behind (characters "summary: " ++ summary)) (
                                  kept-keep inside past (characters "---") body refl refl
                                  ∙ ap (behind (characters "---")) (kept-past body))))))))

pub dateless_lines-IsLine :
    (slug title page_type status owner updated verified summary : Text)
    → All IsLine (page_lines slug title page_type status owner updated verified summary)
    → All IsLine (dateless_lines slug title page_type status owner summary)
dateless_lines-IsLine slug title page_type status owner updated verified summary h = (
  refl,
  (
    h.1.0,
    (h.1.1.0, (h.1.1.1.0, (h.1.1.1.1.0, (h.1.1.1.1.1.0, (h.1.1.1.1.1.1.1.1.0, (refl, tt)))))),
  ),
)

-- Lines are told apart by their line feeds.
line_unique :
    (t u r s : Text) → IsLine t → IsLine u → t ++ (lf ∷ r) ≡ u ++ (lf ∷ s) → (t ≡ u) × (r ≡ s)
line_unique [] [] r s p q e = (refl, cc)
line_unique [] (d ∷ ds) r s p q e = let at : lf ≡ d = cc in absurd (ground arith)
line_unique (c ∷ cs) [] r s p q e = let at : c ≡ lf = cc in absurd (ground arith)
line_unique (c ∷ cs) (d ∷ ds) r s p q e =
    let at : c ≡ d = cc in
    let rest : cs ++ (lf ∷ r) ≡ ds ++ (lf ∷ s) = cc in
    let (same, behind) = line_unique cs ds r s (ground arith) (ground arith) rest in (cc, behind)

abbrev SameLines : List Text → List Text → Type 0
SameLines [] [] = Unit
SameLines (t ∷ ts) (u ∷ us) = (t ≡ u) × SameLines ts us
SameLines _ _ = ⊥

abbrev SameCount : List Text → List Text → Type 0
SameCount [] [] = Unit
SameCount (t ∷ ts) (u ∷ us) = SameCount ts us
SameCount _ _ = ⊥

pub with_lines_unique :
    (ts us : List Text) (r s : Text)
    → SameCount ts us
    → All IsLine ts
    → All IsLine us
    → with_lines ts r ≡ with_lines us s
    → SameLines ts us × (r ≡ s)
with_lines_unique [] [] r s c p q e = (tt, e)
with_lines_unique [] (u ∷ us) r s c p q e = absurd c
with_lines_unique (t ∷ ts) [] r s c p q e = absurd c
with_lines_unique (t ∷ ts) (u ∷ us) r s c p q e =
    let (same, rest) = line_unique t u (with_lines ts r) (with_lines us s) p.0 q.0 e in
    let (lines, body) = with_lines_unique ts us r s c p.1 q.1 rest in ((same, lines), body)
