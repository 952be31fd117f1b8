-- ===== src/Core/Frontmatter/Fields/Parses.antt =====
-- What `parse_frontmatter` of crates/yams-core/src/frontmatter.rs takes off a page, and what it keeps.
use mathlib.Core.Path.{subst}
use mathlib.Core.List.{append_assoc}
use yams.Prelude.{
  ℕ, ◌+◌, ◌≡◌, refl, sym, ap, ◌∙◌, inl, inr, Bool, true, false, not, Option, none, some, List, [],
  ◌∷◌, ◌++◌, arith, length, length-append, drop, drop-append_eq, is_empty, All, Bool-cases, if_lem,
}
use yams.Core.Text.{Text}
use yams.Core.Text.Order.{text_eq_iff}
use yams.Core.Frontmatter.{Line, lines_with_separators}
use yams.Core.Frontmatter.Tiles.{Tiles, Tiles-moved, lines_with_separators-Tiles}
use yams.Core.Frontmatter.Fields.Keys.{IsOrdered, HasKey, take_fields-IsMap}
use yams.Core.Frontmatter.Fields.{
  Fields, ParsedPage, fence, is_fence, take_fields, Block, widen, find_block, body_start, page_of,
  parse_block, parse_lines, strip_mark, parse_frontmatter,
}

-- Where lines that begin at `start` end.
abbrev pub end_of : ℕ → List Line → ℕ
end_of start [] = start
end_of start (l ∷ ls) = end_of l.separator_end ls

-- The first line, if there is one, has content.
abbrev pub starts_filled : List Line → Bool
starts_filled [] = true
starts_filled (l ∷ ls) = not (is_empty l.content)

-- The page of a source whose lines begin with a block of fields.
pub record FrontOf (source : Text) (page : ParsedPage) : Type 0 where
  pub opening : Line
  pub inner : List Line
  pub closing : Line
  pub blanks : List Line
  pub others : List Line
  pub before : Text
  pub lines_are :
      lines_with_separators (strip_mark source)
      ≡ opening ∷ (inner ++ (closing ∷ (blanks ++ others)))
  pub opening_fence : opening.content ≡ fence
  pub closing_fence : closing.content ≡ fence
  pub no_fence : All (λ l. is_fence l ≡ false) inner
  pub fields_are : take_fields [] inner ≡ some page.fields
  pub all_empty : All (λ (l : Line). l.content ≡ []) blanks
  pub filled : starts_filled others ≡ true
  pub text_is : strip_mark source ≡ before ++ page.body
  pub body_tiles : Tiles (length before) others page.body
  pub legal_keys : All HasKey page.fields
  pub ordered_keys : IsOrdered page.fields

abbrev pub Parses : Text → ParsedPage → Fields → Type 0
Parses source page [] = page.body ≡ source
Parses source page (field ∷ fields) = FrontOf source page

record Blocks (ls : List Line) (block : Block) : Type 0 where
  lines_are : ls ≡ block.inner ++ (block.closing ∷ block.behind)
  closing_fence : block.closing.content ≡ fence
  no_fence : All (λ l. is_fence l ≡ false) block.inner

widen-Blocks :
    (l : Line) (ls : List Line) (found : Option Block) {block : Block}
    → is_fence l ≡ false
    → widen l found ≡ some block
    → ((inside : Block) → found ≡ some inside → Blocks ls inside)
    → Blocks (l ∷ ls) block
widen-Blocks l ls none open' h later = cc
widen-Blocks l ls (some inside) {block} open' h later =
    let b = later inside refl in
    let e : record inside { inner = l ∷ inside.inner } ≡ block = ground arith in
    rw (sym e) (record {
      lines_are = ap (◌∷◌ l) b.lines_are;
      closing_fence = b.closing_fence;
      no_fence = (open', b.no_fence);
    })

find_block-Blocks : (ls : List Line) {block : Block} → find_block ls ≡ some block → Blocks ls block
unfolding find_block
find_block-Blocks [] h = cc
find_block-Blocks (l ∷ ls) {block} h = elim (Bool-cases (is_fence l)) [
  | inl closes ↦
      let e : record { inner = []; closing = l; behind = ls } ≡ block = ground arith in
      rw (sym e) (record {
        lines_are = refl;
        closing_fence = (text_eq_iff l.content fence).0 closes;
        no_fence = tt;
      })
  | inr open' ↦
      widen-Blocks l ls (find_block ls) {block = block} open' (ground arith)
        (λ inside e. find_block-Blocks ls {block = inside} e)
]

-- The empty lines at the start of the body are skipped, and only they.
record Skips (at : ℕ) (ls : List Line) : Type 0 where
  blanks : List Line
  others : List Line
  lines_are : ls ≡ blanks ++ others
  all_empty : All (λ (l : Line). l.content ≡ []) blanks
  filled : starts_filled others ≡ true
  ends : body_start at ls ≡ end_of at blanks

is_empty_lem : (t : Text) → is_empty t ≡ true → t ≡ []
is_empty_lem [] h = refl
is_empty_lem (c ∷ cs) h = cc

body_start-Skips : (at : ℕ) (ls : List Line) → Skips at ls
unfolding body_start
body_start-Skips at [] = record {
  blanks = [];
  others = [];
  lines_are = refl;
  all_empty = tt;
  filled = refl;
  ends = refl;
}
body_start-Skips at (l ∷ ls) = elim (Bool-cases (is_empty l.content)) [
  | inl empty ↦
      let s = body_start-Skips l.separator_end ls in
      record {
        blanks = l ∷ s.blanks;
        others = s.others;
        lines_are = ap (◌∷◌ l) s.lines_are;
        all_empty = (is_empty_lem l.content empty, s.all_empty);
        filled = s.filled;
        ends = rw empty s.ends;
      }
  | inr content ↦ record {
    blanks = [];
    others = l ∷ ls;
    lines_are = refl;
    all_empty = tt;
    filled = rw content refl;
    ends = rw content refl;
  }
]

-- The lines of a text, cut between two of them.
Tiles-append :
    (start : ℕ) (xs ys : List Line) (text : Text)
    → Tiles start (xs ++ ys) text
    → (before : Text) × (after : Text) × (text ≡ before ++ after)
      × (end_of start xs ≡ start + length before)
      × Tiles (end_of start xs) ys after
Tiles-append start [] ys text h = ([], text, refl, omega arith, h)
Tiles-append start (l ∷ xs) ys text (separator, rest, e, at, free, is_sep, ends, h) =
    let (before, after, cut, size, tiles) = Tiles-append l.separator_end xs ys rest h in
    (
      l.content ++ (separator ++ before),
      after,
      e
          ∙ ap (λ (r : Text). l.content ++ (separator ++ r)) cut
          ∙ sym (
              append_assoc l.content (separator ++ before) after
              ∙ ap (λ (r : Text). l.content ++ r) (append_assoc separator before after)),
      (let a = length-append l.content (separator ++ before) in
          let b = length-append separator before in omega arith),
      tiles,
    )

end_of-append :
    (start : ℕ) (xs : List Line) (y : Line) (ys : List Line)
    → end_of start (xs ++ y ∷ ys) ≡ end_of y.separator_end ys
end_of-append start [] y ys = refl
end_of-append start (x ∷ xs) y ys = end_of-append x.separator_end xs y ys

FrontOf-lem :
    (source : Text) (first : Line) (lines : List Line) (block : Block) (field : Text × Text)
    (fields : Fields)
    → lines_with_separators (strip_mark source) ≡ first ∷ lines
    → is_fence first ≡ true
    → Blocks lines block
    → take_fields [] block.inner ≡ some (field ∷ fields)
    → FrontOf source (record {
      fields = field ∷ fields;
      body = drop (body_start block.closing.separator_end block.behind) (strip_mark source);
    })
FrontOf-lem source first lines block field fields are opens b taken =
    let text = strip_mark source in
    let skips = body_start-Skips block.closing.separator_end block.behind in
    let front = first ∷ (block.inner ++ block.closing ∷ skips.blanks) in
    let all_lines : lines_with_separators text
        ≡ first ∷ (block.inner ++ (block.closing ∷ (skips.blanks ++ skips.others))) =
      are
      ∙ ap (λ (ls : List Line). first ∷ ls) b.lines_are
      ∙ ap (λ (ls : List Line). first ∷ (block.inner ++ (block.closing ∷ ls))) skips.lines_are in
    let regrouped : front ++ skips.others
        ≡ first ∷ (block.inner ++ (block.closing ∷ (skips.blanks ++ skips.others))) =
      ap (λ (ls : List Line). first ∷ ls)
        (append_assoc block.inner (block.closing ∷ skips.blanks) skips.others) in
    let tiles : Tiles 0 (front ++ skips.others) text =
      subst (λ (ls : List Line). Tiles 0 ls text) (all_lines ∙ sym regrouped)
        (lines_with_separators-Tiles text) in
    let (before, after, cut, size, rest) = Tiles-append 0 front skips.others text tiles in
    let start : body_start block.closing.separator_end block.behind ≡ length before =
      skips.ends
      ∙ sym (end_of-append first.separator_end block.inner block.closing skips.blanks)
      ∙ (let at = size in omega arith) in
    let body : drop (body_start block.closing.separator_end block.behind) text ≡ after =
      ap (drop (body_start block.closing.separator_end block.behind)) cut
      ∙ drop-append_eq (body_start block.closing.separator_end block.behind) before after
          (sym start) in
    let good = take_fields-IsMap [] block.inner taken (tt, tt) in
    record {
      opening = first;
      inner = block.inner;
      closing = block.closing;
      blanks = skips.blanks;
      others = skips.others;
      before = before;
      lines_are = all_lines;
      opening_fence = (text_eq_iff first.content fence).0 opens;
      closing_fence = b.closing_fence;
      no_fence = b.no_fence;
      fields_are = taken;
      all_empty = skips.all_empty;
      filled = skips.filled;
      text_is = cut ∙ ap (λ (t : Text). before ++ t) (sym body);
      body_tiles =
          subst (λ (t : Text). Tiles (length before) skips.others t) (sym body)
            (Tiles-moved (end_of 0 front) (length before) skips.others after
              (let at = size in omega arith) rest);
      legal_keys = good.0;
      ordered_keys = good.1;
    }

page_of-Parses :
    (source : Text) (first : Line) (lines : List Line) (block : Block) (o : Option Fields)
    → lines_with_separators (strip_mark source) ≡ first ∷ lines
    → is_fence first ≡ true
    → Blocks lines block
    → take_fields [] block.inner ≡ o
    → Parses source
        (page_of source (strip_mark source) block o)
        (page_of source (strip_mark source) block o).fields
unfolding page_of
page_of-Parses source first lines block none are opens b taken = refl
page_of-Parses source first lines block (some []) are opens b taken = refl
page_of-Parses source first lines block (some (field ∷ fields)) are opens b taken =
    FrontOf-lem source first lines block field fields are opens b taken

abbrev ParsesSelf : Text → ParsedPage → Type 0
ParsesSelf source page = Parses source page page.fields

parse_block-Parses :
    (source : Text) (first : Line) (lines : List Line) (o : Option Block)
    → lines_with_separators (strip_mark source) ≡ first ∷ lines
    → is_fence first ≡ true
    → find_block lines ≡ o
    → ParsesSelf source (parse_block source (strip_mark source) o)
unfolding parse_block
parse_block-Parses source first lines none are opens found = refl
parse_block-Parses source first lines (some block) are opens found =
    page_of-Parses source first lines block (take_fields [] block.inner) are opens
      (find_block-Blocks lines found) refl

parse_lines-Parses :
    (source : Text) (ls : List Line)
    → lines_with_separators (strip_mark source) ≡ ls
    → ParsesSelf source (parse_lines source (strip_mark source) ls)
unfolding parse_lines
parse_lines-Parses source [] are = refl
parse_lines-Parses source (first ∷ lines) are =
    if_lem (ParsesSelf source) (is_fence first)
      (λ opens. parse_block-Parses source first lines (find_block lines) are opens refl)
      (λ other. refl)

-- A page without fields is the source, unchanged. Otherwise the lines of the text behind a byte
-- order mark are a fence, lines without a fence that all yield the fields, a fence, empty lines, and
-- the lines of the body, the first of which is not empty; the body is what stands behind those
-- lines in the text, and the keys are legal, distinct and in order.
pub parse_frontmatter-Parses :
    (source : Text) → Parses source (parse_frontmatter source) (parse_frontmatter source).fields
unfolding parse_frontmatter
parse_frontmatter-Parses source =
    parse_lines-Parses source (lines_with_separators (strip_mark source)) refl
