-- ===== src/Wiki/Schema/Page.antt =====
-- `parse_frontmatter_fields`, `parse_wiki_page` and what they call of
-- crates/yams-wiki/src/schema.rs. Whether a character is a decimal number of Unicode is a parameter.
pub mod Parsed
use yams.Prelude.{
  ℕ, suc, ◌-◌, Bool, true, false, not, ◌&&◌, ◌||◌, Option, none, some, List, [], ◌∷◌, ◌==◌, leb,
  if◌then◌else◌, length, take, is_empty, any, all, Result, ok, err, ◌>>◌, ◌>>=◌, refuse_if,
}
use yams.Core.Text.{Text, characters, trim, split_once}
use yams.Core.Text.Order.{text_eq, text_le}
use yams.Core.Text.Maps.{lookup, update}
use yams.Wiki.Schema.{
  PageType, Owner, Status, spelled, page_types, owners, statuses, type_text, owner_text,
  status_text, SchemaError, no_frontmatter, unknown_key, duplicate_key, missing_field, non_slug,
  long_slug, bad_type, bad_status, bad_owner, bad_updated, bad_verified, verified_before_updated,
}
use yams.Wiki.Schema.Slug.{SlugProblem, empty, too_long, invalid_character, validate_slug}
use yams.Wiki.Schema.Scalar.{validate_frontmatter_scalar}
use yams.Wiki.Schema.Lines.{python_splitlines}

abbrev pub Fields : Type 0
Fields = List (Text × Text)

abbrev pub canonical_keys : List Text
canonical_keys =
    characters "slug"
    ∷ characters "title"
    ∷ characters "type"
    ∷ characters "status"
    ∷ characters "owner"
    ∷ characters "updated"
    ∷ characters "verified"
    ∷ characters "summary"
    ∷ []

unfoldable pub canonical_key : Text → Bool
unfolding text_eq
canonical_key key = any (text_eq key) canonical_keys

abbrev pub strip_bom : Text → Text
strip_bom [] = []
strip_bom (c ∷ cs) = if c == 0xfeff then cs else c ∷ cs

unfoldable pub is_page_fence : Text → Bool
unfolding text_eq
is_page_fence line = text_eq line (characters "---")

abbrev pub line_before : Text → Option (List Text) → Option (List Text)
line_before line none = none
line_before line (some lines) = some (line ∷ lines)

-- The lines in front of the first fence.
unfoldable pub before_fence : List Text → Option (List Text)
unfolding is_page_fence
before_fence [] = none
before_fence (line ∷ lines) =
    let rest = line_before line (before_fence lines) in if is_page_fence line then some [] else rest

abbrev pub is_ascii_letter : ℕ → Bool
is_ascii_letter c = (leb b'a' c && leb c b'z') || (leb b'A' c && leb c b'Z')

abbrev pub is_legal_key : Text → Bool
is_legal_key [] = false
is_legal_key (c ∷ cs) =
    (is_ascii_letter c || c == b'_')
    && all
        (λ d.
          is_ascii_letter d || (leb b'0' d && leb d b'9') || d == b'_' || d == b'.' || d == b'-')
        cs

abbrev pub legal_line : Option (Text × Text) → Option (Text × Text)
legal_line none = none
legal_line (some (key, value)) = if is_legal_key key then some (key, trim value) else none

unfoldable pub strict_field_line : Text → Option (Text × Text)
unfolding split_once
strict_field_line line = legal_line (split_once b':' line)

abbrev pub ends_with : ℕ → Text → Bool
ends_with q [] = false
ends_with q (c ∷ []) = c == q
ends_with q (c ∷ d ∷ cs) = ends_with q (d ∷ cs)

unfoldable pub strict_unquote : Text → Text
strict_unquote [] = []
strict_unquote (c ∷ cs) =
    if (c == b'\'' || c == b'"') && ends_with c cs then take (length cs - 1) cs else c ∷ cs

abbrev pub is_indented : Text → Bool
is_indented [] = false
is_indented (c ∷ cs) = c == 32 || c == 9

abbrev pub is_absent : Option Text → Bool
is_absent none = true
is_absent (some value) = false

-- One key and its value.
abbrev pub put_field : Text → Text → Fields → Result SchemaError Fields
put_field key value fields =
    refuse_if (not (canonical_key key)) (unknown_key key)
    >> (refuse_if (not (is_absent (lookup key fields))) (duplicate_key key)
        >> ok (update text_le key (λ old. strict_unquote value) fields))

abbrev pub put_line : Option (Text × Text) → Fields → Result SchemaError Fields
put_line none fields = err no_frontmatter
put_line (some (key, value)) fields = put_field key value fields

-- One line of the block.
unfoldable pub field_step : Text → Fields → Result SchemaError Fields
unfolding strict_field_line
field_step line fields =
    if is_empty (trim line)
    then err no_frontmatter
    else if is_indented line
    then (if is_empty fields then err no_frontmatter else ok fields)
    else put_line (strict_field_line line) fields

unfoldable pub fields_loop : List Text → Fields → Result SchemaError Fields
unfolding field_step
fields_loop [] fields = ok fields
fields_loop (line ∷ lines) fields = do next ← field_step line fields; fields_loop lines next

-- The first key that is missing.
unfoldable pub require_keys : List Text → Fields → Result SchemaError (Unit {0})
require_keys [] fields = ok tt
require_keys (key ∷ rest) fields =
    refuse_if (is_absent (lookup key fields)) (missing_field key) >> require_keys rest fields

unfoldable pub block_fields : Option (List Text) → Result SchemaError Fields
unfolding fields_loop require_keys
block_fields none = err no_frontmatter
block_fields (some lines) = do
  fields ← fields_loop lines []
  complete ← require_keys canonical_keys fields
  ok fields

unfoldable pub opened_fields : List Text → Result SchemaError Fields
unfolding before_fence block_fields
opened_fields [] = err no_frontmatter
opened_fields (line ∷ lines) =
    if is_page_fence line then block_fields (before_fence lines) else err no_frontmatter

unfoldable pub parse_frontmatter_fields : Text → Result SchemaError Fields
unfolding python_splitlines opened_fields
parse_frontmatter_fields source = opened_fields (python_splitlines (strip_bom source))

-- `fields[key]`; behind `parse_frontmatter_fields` the key is there.
abbrev pub at_key : Option Text → Text
at_key none = []
at_key (some value) = value

abbrev pub field : Text → Fields → Text
field key fields = at_key (lookup key fields)

unfoldable pub required_page_field : Fields → Text → Result SchemaError Text
required_page_field fields key =
    refuse_if (is_empty (field key fields)) (missing_field key) >> ok (field key fields)

abbrev pub slug_refusal : Text → Result SlugProblem (Unit {0}) → Result SchemaError (Unit {0})
slug_refusal slug (ok valid) = ok tt
slug_refusal slug (err too_long) = err (long_slug slug)
slug_refusal slug (err empty) = err (non_slug slug)
slug_refusal slug (err invalid_character) = err (non_slug slug)

unfoldable pub validate_page_slug : Text → Result SchemaError (Unit {0})
unfolding validate_slug
validate_page_slug slug = slug_refusal slug (validate_slug slug)

abbrev pub or_refuse : {A : Type 0} → SchemaError → Option A → Result SchemaError A
or_refuse error none = err error
or_refuse error (some a) = ok a

-- `PageType::parse`, `Status::parse` and `Owner::parse`
abbrev pub parse_type : Text → Result SchemaError PageType
parse_type value = or_refuse (bad_type value) (spelled type_text page_types value)

abbrev pub parse_status : Text → Result SchemaError Status
parse_status value = or_refuse (bad_status value) (spelled status_text statuses value)

abbrev pub parse_owner : Text → Result SchemaError Owner
parse_owner value = or_refuse (bad_owner value) (spelled owner_text owners value)

pub record ParsedWikiPage : Type 0 where
  pub fields : Fields
  pub slug : Text
  pub title : Text
  pub page_type : PageType
  pub status : Status
  pub owner : Owner
  pub updated : Text
  pub verified : Text
  pub summary : Text

module _ (is_decimal : ℕ → Bool) where
  -- The characters from the index on.
  unfoldable pub date_loop : ℕ → Text → Bool
  date_loop index [] = index == 10
  date_loop index (c ∷ cs) =
      let rest = date_loop (suc index) cs in
      if leb 10 index
      then false
      else if index == 4 || index == 7
      then c == b'-' && rest
      else is_decimal c && rest

  unfoldable pub is_iso_date : Text → Bool
  unfolding date_loop
  is_iso_date value = date_loop 0 value

  module _ (is_link : Text → Bool) where
    unfoldable pub page_of_fields : Fields → Result SchemaError ParsedWikiPage
    unfolding required_page_field validate_page_slug validate_frontmatter_scalar is_iso_date text_le
    page_of_fields fields = do
      slug ← required_page_field fields (characters "slug")
      slug_shaped ← validate_page_slug slug
      title ← required_page_field fields (characters "title")
      title_fine ← validate_frontmatter_scalar is_link (characters "title") title
      summary ← required_page_field fields (characters "summary")
      summary_fine ← validate_frontmatter_scalar is_link (characters "summary") summary
      page_type ← parse_type (field (characters "type") fields)
      status ← parse_status (field (characters "status") fields)
      owner ← parse_owner (field (characters "owner") fields)
      updated ← required_page_field fields (characters "updated")
      verified ← required_page_field fields (characters "verified")
      updated_fine ← refuse_if (not (is_iso_date updated)) (bad_updated updated)
      verified_fine ← refuse_if (not (is_iso_date verified)) (bad_verified verified)
      in_order ←
          refuse_if (not (text_le updated verified)) (verified_before_updated verified updated)
      ok (record {
        fields = fields;
        slug = slug;
        title = title;
        page_type = page_type;
        status = status;
        owner = owner;
        updated = updated;
        verified = verified;
        summary = summary;
      })

    unfoldable pub parse_wiki_page : Text → Result SchemaError ParsedWikiPage
    unfolding parse_frontmatter_fields page_of_fields
    parse_wiki_page source = do fields ← parse_frontmatter_fields source; page_of_fields fields
