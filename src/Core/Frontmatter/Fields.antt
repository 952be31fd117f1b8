-- ===== src/Core/Frontmatter/Fields.antt =====
-- The fields of crates/yams-core/src/frontmatter.rs: `field_line`, `unquote`, `parse_frontmatter` and
-- `title_for`. A `BTreeMap` is the list of its entries in the order of the keys.
pub mod Keys
pub mod Parses
use yams.Prelude.{
  ℕ, ◌+◌, ◌-◌, zero, suc, Bool, true, false, not, ◌&&◌, ◌||◌, Option, none, some, List, [], ◌∷◌,
  ◌++◌, ltb, leb, ◌==◌, if◌then◌else◌, length, take, drop, is_empty, all, map,
}
use yams.Core.Text.{Text, characters, lf, cr, trim}
use yams.Core.Text.Order.{text_eq, text_le}
use yams.Core.Frontmatter.{Line, lines_with_separators}

abbrev pub max_title_chars : ℕ
max_title_chars = 200

abbrev pub Fields : Type 0
Fields = List (Text × Text)

pub record ParsedPage : Type 0 where
  pub fields : Fields
  pub body : Text

abbrev pub is_letter : ℕ → Bool
is_letter c = (leb b'a' c && leb c b'z') || (leb b'A' c && leb c b'Z')

abbrev pub starts_key : ℕ → Bool
starts_key c = is_letter c || c == b'_'

abbrev pub continues_key : ℕ → Bool
continues_key c = is_letter c || (leb b'0' c && leb c b'9') || c == b'_' || c == b'.' || c == b'-'

abbrev pub is_key : Text → Bool
is_key [] = false
is_key (c ∷ cs) = starts_key c && all continues_key cs

abbrev pub prepend : ℕ → Option (Text × Text) → Option (Text × Text)
prepend c none = none
prepend c (some (key, value)) = some (c ∷ key, value)

-- `split_once(':')`
pub split_colon : Text → Option (Text × Text)
split_colon [] = none
split_colon (c ∷ cs) =
    let rest = split_colon cs in if c == b':' then some ([], cs) else prepend c rest

abbrev pub checked_field : Option (Text × Text) → Option (Text × Text)
checked_field none = none
checked_field (some (key, value)) = if is_key key then some (key, trim value) else none

pub field_line : Text → Option (Text × Text)
unfolding split_colon
field_line l = checked_field (split_colon l)

abbrev pub ends_in : ℕ → Text → Bool
ends_in q [] = false
ends_in q (c ∷ []) = c == q
ends_in q (c ∷ d ∷ cs) = ends_in q (d ∷ cs)

pub unquote : Text → Text
unquote [] = []
unquote (c ∷ cs) =
    if (c == b'\'' || c == b'"') && ends_in c cs then take (length cs - 1) cs else c ∷ cs

-- `BTreeMap::insert`
pub insert : Text → Text → Fields → Fields
insert key value [] = (key, value) ∷ []
insert key value ((k, v) ∷ fields) =
    let rest = insert key value fields in
    if text_eq key k
    then (k, value) ∷ fields
    else if text_le key k
    then (key, value) ∷ (k, v) ∷ fields
    else (k, v) ∷ rest

abbrev pub fence : Text
fence = b'-' ∷ b'-' ∷ b'-' ∷ []

abbrev pub is_fence : Line → Bool
is_fence l = text_eq l.content fence

abbrev pub is_blank : Line → Bool
is_blank l = is_empty (trim l.content)

abbrev pub starts_indented : Text → Bool
starts_indented [] = false
starts_indented (c ∷ cs) = c == 32 || c == 9

abbrev pub insert_field : Option (Text × Text) → Fields → Option Fields
unfolding insert
insert_field none fields = none
insert_field (some (key, value)) fields = some (insert key (unquote value) fields)

-- One line of the block, by the `for` loop of `parse_frontmatter`.
pub take_field : Fields → Line → Option Fields
unfolding field_line unquote insert insert_field
take_field fields l =
    if is_blank l
    then none
    else if starts_indented l.content
    then (if is_empty fields then none else some fields)
    else insert_field (field_line l.content) fields

pub take_fields : Fields → List Line → Option Fields
unfolding take_field
take_fields fields [] = some fields
take_fields fields (l ∷ ls) = elim (take_field fields l) [
  | none ↦ none
  | some further ↦ take_fields further ls
]

-- The lines in front of the next fence, the fence and the lines behind it.
pub record Block : Type 0 where
  pub inner : List Line
  pub closing : Line
  pub behind : List Line

abbrev pub widen : Line → Option Block → Option Block
widen l none = none
widen l (some block) = some (record block { inner = l ∷ block.inner })

pub find_block : List Line → Option Block
find_block [] = none
find_block (l ∷ ls) =
    let further = find_block ls in
    if is_fence l then some (record { inner = []; closing = l; behind = ls }) else widen l further

pub body_start : ℕ → List Line → ℕ
body_start at [] = at
body_start at (l ∷ ls) =
    let further = body_start l.separator_end ls in if is_empty l.content then further else at

abbrev pub page_of : Text → Text → Block → Option Fields → ParsedPage
unfolding body_start
page_of source parse_source block none = record { fields = []; body = source }
page_of source parse_source block (some []) = record { fields = []; body = source }
page_of source parse_source block (some (field ∷ fields)) = record {
  fields = field ∷ fields;
  body = drop (body_start block.closing.separator_end block.behind) parse_source;
}

abbrev pub parse_block : Text → Text → Option Block → ParsedPage
unfolding take_fields page_of
parse_block source parse_source none = record { fields = []; body = source }
parse_block source parse_source (some block) =
    page_of source parse_source block (take_fields [] block.inner)

abbrev pub parse_lines : Text → Text → List Line → ParsedPage
unfolding find_block parse_block
parse_lines source parse_source [] = record { fields = []; body = source }
parse_lines source parse_source (first ∷ lines) =
    if is_fence first
    then parse_block source parse_source (find_block lines)
    else record { fields = []; body = source }

-- `strip_prefix('\u{feff}')`
abbrev pub strip_mark : Text → Text
strip_mark [] = []
strip_mark (c ∷ cs) = if c == 0xfeff then cs else c ∷ cs

unfoldable pub parse_frontmatter : Text → ParsedPage
unfolding lines_with_separators parse_lines
parse_frontmatter source =
    parse_lines source (strip_mark source) (lines_with_separators (strip_mark source))

-- `fields.get(name).filter(|value| !value.is_empty())`
pub get_filled : Text → Fields → Option Text
get_filled name [] = none
get_filled name ((key, value) ∷ fields) =
    let rest = get_filled name fields in
    if text_eq key name then (if is_empty value then none else some value) else rest

abbrev pub or_else : Option Text → Option Text → Option Text
or_else none second = second
or_else (some title) second = some title

abbrev pub unwrap_or : Option Text → Text → Text
unwrap_or none title = title
unwrap_or (some title) other = title

-- `filename_title`, from the stem of the file's name
pub filename_title : Text → Text
filename_title = map (λ c. if c == b'-' || c == b'_' then 32 else c)

pub truncate_chars : Text → ℕ → Text
truncate_chars text maximum = take maximum text

-- The stem of the path's file name is an argument.
unfoldable pub title_for : Text → Fields → Text
unfolding get_filled filename_title truncate_chars
title_for file_stem fields =
    truncate_chars
      (unwrap_or
        (or_else (get_filled (characters "title") fields) (get_filled (characters "name") fields))
        (filename_title file_stem))
      max_title_chars
