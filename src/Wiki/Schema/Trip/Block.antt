-- ===== src/Wiki/Schema/Trip/Block.antt =====
-- The block that `render_page` of crates/yams-wiki/src/schema.rs writes, as the parser reads it.
use yams.Prelude.{
  ℕ, ◌≡◌, refl, ap, ◌∙◌, false, ◌&&◌, some, List, [], ◌∷◌, ◌++◌, arith, is_empty, All, All-append,
  Result, ok,
}
use yams.Core.Text.{Text, characters, lf, is_whitespace, trim, trim_start, trim_end, split_once}
use yams.Core.Text.Order.{text_eq, text_le}
use yams.Core.Text.Maps.{lookup, update}
use yams.Wiki.Schema.{SchemaError}
use yams.Wiki.Schema.Lines.{IsLine, python_splitlines, python_splitlines-line}
use yams.Wiki.Schema.Page.{
  Fields, canonical_key, is_page_fence, before_fence, strict_field_line, strict_unquote,
  is_indented, put_field, field_step, fields_loop, require_keys, block_fields, opened_fields,
  parse_frontmatter_fields,
}

trim-ne-nil : (c : ℕ) (cs : Text) → is_whitespace c ≡ false → is_empty (trim (c ∷ cs)) ≡ false
unfolding trim trim_start trim_end
trim-ne-nil c cs h =
    let off : (is_empty (trim_end cs) && is_whitespace c) ≡ false = ground arith in
    let kept : trim_end (c ∷ cs) ≡ c ∷ trim_end cs = rw off refl in
    ap (λ (t : Text). is_empty (trim_start t)) kept ∙ rw h refl

not_indented : (c : ℕ) (cs : Text) → is_whitespace c ≡ false → is_indented (c ∷ cs) ≡ false
unfolding is_whitespace
not_indented c cs h = ground arith

-- A line with a key.
field_step-key :
    (c : ℕ) (cs key value : Text) (fields : Fields)
    → is_whitespace c ≡ false
    → strict_field_line (c ∷ cs) ≡ some (key, value)
    → field_step (c ∷ cs) fields ≡ put_field key value fields
unfolding field_step
field_step-key c cs key value fields h e = rw (trim-ne-nil c cs h, not_indented c cs h, e) refl

fields_loop-nil : (fields : Fields) → fields_loop [] fields ≡ ok fields
unfolding fields_loop
fields_loop-nil fields = refl

-- The loop over such a line.
fields_loop-key :
    (c : ℕ) (cs key value : Text) (lines : List Text) (fields : Fields) {next : Fields}
    {r : Result SchemaError Fields}
    → is_whitespace c ≡ false
    → strict_field_line (c ∷ cs) ≡ some (key, value)
    → put_field key value fields ≡ ok next
    → fields_loop lines next ≡ r
    → fields_loop ((c ∷ cs) ∷ lines) fields ≡ r
unfolding fields_loop
fields_loop-key c cs key value lines fields h e put rest =
    let step = field_step-key c cs key value fields h e ∙ put in rw step rest

-- The eight fields in the order of their keys.
abbrev pub canonical_fields :
    (slug title page_type status owner updated verified summary : Text) → Fields
canonical_fields slug title page_type status owner updated verified summary =
    (characters "owner", owner)
    ∷ (characters "slug", slug)
    ∷ (characters "status", status)
    ∷ (characters "summary", summary)
    ∷ (characters "title", title)
    ∷ (characters "type", page_type)
    ∷ (characters "updated", updated)
    ∷ (characters "verified", verified)
    ∷ []

-- A value as the parser takes it from its line.
abbrev pub taken : Text → Text
taken value = strict_unquote (trim (32 ∷ value))

module _ (slug title page_type status owner updated verified summary : Text) where
  abbrev pub block_lines : List Text
  block_lines =
      (characters "slug: " ++ slug)
      ∷ (characters "title: " ++ title)
      ∷ (characters "type: " ++ page_type)
      ∷ (characters "status: " ++ status)
      ∷ (characters "owner: " ++ owner)
      ∷ (characters "updated: " ++ updated)
      ∷ (characters "verified: " ++ verified)
      ∷ (characters "summary: " ++ summary)
      ∷ []

  pub fields_loop-block :
      fields_loop block_lines []
      ≡ ok (
          canonical_fields
            (taken slug)
            (taken title)
            (taken page_type)
            (taken status)
            (taken owner)
            (taken updated)
            (taken verified)
            (taken summary))
  unfolding canonical_key lookup update text_eq text_le strict_field_line split_once is_whitespace
  fields_loop-block =
      fields_loop-key b's' (characters "lug: " ++ slug) (characters "slug") (trim (32 ∷ slug)) _ _
        refl refl refl
        (fields_loop-key b't' (characters "itle: " ++ title) (characters "title")
          (trim (32 ∷ title)) _ _ refl refl refl
          (fields_loop-key b't' (characters "ype: " ++ page_type) (characters "type")
            (trim (32 ∷ page_type)) _ _ refl refl refl
            (fields_loop-key b's' (characters "tatus: " ++ status) (characters "status")
              (trim (32 ∷ status)) _ _ refl refl refl
              (fields_loop-key b'o' (characters "wner: " ++ owner) (characters "owner")
                (trim (32 ∷ owner)) _ _ refl refl refl
                (fields_loop-key b'u' (characters "pdated: " ++ updated) (characters "updated")
                  (trim (32 ∷ updated)) _ _ refl refl refl
                  (fields_loop-key b'v' (characters "erified: " ++ verified) (characters "verified")
                    (trim (32 ∷ verified)) _ _ refl refl refl
                    (fields_loop-key b's' (characters "ummary: " ++ summary) (characters "summary")
                      (trim (32 ∷ summary)) _ _ refl refl refl (fields_loop-nil _))))))))

-- Lines with their line feeds, in front of a text.
abbrev pub with_lines : List Text → Text → Text
with_lines [] rest = rest
with_lines (line ∷ lines) rest = line ++ (lf ∷ with_lines lines rest)

pub python_splitlines-with_lines :
    (lines : List Text) (rest : Text)
    → All IsLine lines
    → python_splitlines (with_lines lines rest) ≡ lines ++ python_splitlines rest
python_splitlines-with_lines [] rest h = refl
python_splitlines-with_lines (line ∷ lines) rest h =
    python_splitlines-line line (with_lines lines rest) h.0
    ∙ ap (◌∷◌ line) (python_splitlines-with_lines lines rest h.1)

module _ (slug title page_type status owner updated verified summary : Text) where
  abbrev lines : List Text
  lines = block_lines slug title page_type status owner updated verified summary

  before_fence-lines :
      (more : List Text) → before_fence (lines ++ (characters "---" ∷ more)) ≡ some lines
  unfolding before_fence is_page_fence text_eq
  before_fence-lines more = refl

  abbrev taken_fields : Fields
  taken_fields =
      canonical_fields (taken slug) (taken title) (taken page_type) (taken status) (taken owner)
        (taken updated) (taken verified) (taken summary)

  complete : fields_loop lines [] ≡ ok taken_fields → block_fields (some lines) ≡ ok taken_fields
  unfolding block_fields require_keys lookup text_eq
  complete loop = rw loop refl

  -- The fields of a page that starts with such a block.
  pub parse_frontmatter_fields-block :
      (body : Text)
      → All IsLine lines
      → parse_frontmatter_fields
          (with_lines (characters "---" ∷ (lines ++ (characters "---" ∷ []))) body)
        ≡ ok (
            canonical_fields
              (taken slug)
              (taken title)
              (taken page_type)
              (taken status)
              (taken owner)
              (taken updated)
              (taken verified)
              (taken summary))
  unfolding parse_frontmatter_fields opened_fields is_page_fence text_eq
  parse_frontmatter_fields-block body h =
      let all_lines : List Text = characters "---" ∷ (lines ++ (characters "---" ∷ [])) in
      let fine : All IsLine all_lines =
        (refl, All-append IsLine lines (characters "---" ∷ []) h (refl, tt)) in
      let split = python_splitlines-with_lines all_lines body fine in
      let block = before_fence-lines (python_splitlines body) in
      let loop = fields_loop-block slug title page_type status owner updated verified summary in
      ap opened_fields split ∙ ap block_fields block ∙ complete loop
