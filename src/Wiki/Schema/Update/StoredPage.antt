-- ===== src/Wiki/Schema/Update/StoredPage.antt =====
-- The block and the body of a stored page of crates/yams-wiki/src/schema.rs.
use yams.Prelude.{
  ◌≡◌, refl, ap, ◌∙◌, ◌≢◌, inl, inr, true, false, Option, none, some, List, [], ◌∷◌, ◌++◌, All,
  Bool-cases, ok, >>=-Steps,
}
use yams.Core.Text.{Text, characters}
use yams.Wiki.Schema.Lines.{IsLine, python_splitlines}
use yams.Wiki.Schema.Page.{
  Fields, strip_bom, is_page_fence, canonical_keys, before_fence, fields_loop, require_keys,
  block_fields, opened_fields, parse_frontmatter_fields,
}
use yams.Wiki.Schema.Update.{body_loop}
use yams.Wiki.Schema.Update.StoredLines.{
  splitlines_loop-IsLine, before_fence-IsLine, before_fence-ne, fields_loop-Values,
}
use yams.Wiki.Schema.Update.Body.{fence_text, first_line-Closes}

-- The stored page: the lines of its block up to the first fence, and the body behind it, at the page's
-- end.
pub record Stored (source : Text) : Type 0 where
  pub lines : List Text
  pub body : Text
  pub splits :
      python_splitlines source
      ≡ characters "---" ∷ (lines ++ (characters "---" ∷ python_splitlines body))
  pub before : All (λ line. line ≢ characters "---") lines
  pub front : Text
  pub at_end : source ≡ front ++ body

-- How the fields were read.
pub record Opened (source : Text) (fields : Fields) : Type 0 where
  pub stored : Stored source
  pub values : All (λ e. IsLine e.1) fields
  pub found : body_loop true false [] source ≡ some stored.body

block_fields-loop :
    (o : Option (List Text)) (fields : Fields)
    → block_fields o ≡ ok fields
    → (lines : List Text) × (o ≡ some lines) × (fields_loop lines [] ≡ ok fields)
unfolding block_fields
block_fields-loop none fields e = cc
block_fields-loop (some lines) fields e =
    let read = >>=-Steps (fields_loop lines []) _ e in
    let complete = >>=-Steps (require_keys canonical_keys read.value) _ read.next_ok in
    (lines, refl, read.first_ok ∙ complete.next_ok)

opened_fields-Opened :
    (source : Text) (all_lines : List Text) (fields : Fields)
    → python_splitlines source ≡ all_lines
    → opened_fields all_lines ≡ ok fields
    → Opened source fields
unfolding opened_fields python_splitlines
opened_fields-Opened source [] fields split e = cc
opened_fields-Opened source (first ∷ rest) fields split e =
    elim (Bool-cases (is_page_fence first)) [
      | inr other ↦ let f = rw other at e in cc
      | inl fence ↦
          let f = rw fence at e in
          let (lines, before, loop) = block_fields-loop (before_fence rest) fields f in
          let closes = first_line-Closes false [] source first rest lines split before in
          let all_fine : All IsLine (first ∷ rest) =
            rw split at (splitlines_loop-IsLine false [] source refl) in
          record {
            stored = record {
              lines = lines;
              body = closes.body;
              splits =
                  split
                  ∙ closes.splits
                  ∙ ap
                      (λ (l : Text).
                        l ∷ (lines ++ (characters "---" ∷ python_splitlines closes.body)))
                      (fence_text first fence);
              before = before_fence-ne rest lines before;
              front = closes.front;
              at_end = closes.at_end;
            };
            values =
                fields_loop-Values lines [] fields
                  (before_fence-IsLine rest lines all_fine.1 before) tt loop;
            found = closes.is_found;
          }
    ]

pub parse_frontmatter_fields-Opened :
    (source : Text) (fields : Fields)
    → parse_frontmatter_fields source ≡ ok fields
    → Opened (strip_bom source) fields
unfolding parse_frontmatter_fields
parse_frontmatter_fields-Opened source fields e =
    opened_fields-Opened (strip_bom source) (python_splitlines (strip_bom source)) fields refl e
