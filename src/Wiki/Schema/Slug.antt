-- ===== src/Wiki/Schema/Slug.antt =====
-- `validate_slug` and `slugify` of crates/yams-wiki/src/schema.rs. Folding a title (compatibility
-- decomposition, case folding, and no combining marks) is a parameter.
pub mod Hyphens
pub mod Slugged
use yams.Prelude.{
  ℕ, ◌+◌, Bool, true, false, not, ◌&&◌, ◌||◌, Option, none, some, List, [], ◌∷◌, ◌++◌, ltb, leb,
  ◌==◌, if◌then◌else◌, length, take, is_empty, all, Result, ok, err,
}
use yams.Core.Text.{Text}
use yams.Wiki.Schema.{SchemaError, empty_slug, unreachable_slug}

abbrev pub slug_max_bytes : ℕ
slug_max_bytes = 64

pub data SlugProblem : Type 0 where
  empty too_long invalid_character : SlugProblem

-- `char::len_utf8` and the length of a text in bytes
abbrev pub len_utf8 : ℕ → ℕ
len_utf8 c = if ltb c 0x80 then 1 else if ltb c 0x800 then 2 else if ltb c 0x10000 then 3 else 4

abbrev pub byte_length : Text → ℕ
byte_length [] = 0
byte_length (c ∷ cs) = len_utf8 c + byte_length cs

abbrev pub is_word : ℕ → Bool
is_word c = (leb b'a' c && leb c b'z') || (leb b'0' c && leb c b'9')

abbrev pub is_slug_char : ℕ → Bool
is_slug_char c = is_word c || c == b'-'

unfoldable pub validate_slug : Text → Result SlugProblem (Unit {0})
validate_slug value =
    if is_empty value
    then err empty
    else if ltb slug_max_bytes (byte_length value)
    then err too_long
    else if all is_slug_char value
    then ok tt
    else err invalid_character

abbrev pub push_separator : Bool → Text → Text
push_separator pending slug = if pending && not (is_empty slug) then slug ++ (b'-' ∷ []) else slug

-- The loop over the folded title.
unfoldable pub slug_loop : Bool → Text → Text → Text
slug_loop pending slug [] = slug
slug_loop pending slug (c ∷ cs) =
    let pushed = slug_loop false (push_separator pending slug ++ (c ∷ [])) cs in
    let skipped = slug_loop true slug cs in if is_word c then pushed else skipped

abbrev pub before_next : ℕ → Option Text → Option Text
before_next c none = if c == b'-' then some [] else none
before_next c (some front) = some (c ∷ front)

-- What stands in front of the last `-`.
unfoldable pub before_last : Text → Option Text
before_last [] = none
before_last (c ∷ cs) = before_next c (before_last cs)

abbrev pub or_whole : Text → Option Text → Text
or_whole whole none = whole
or_whole whole (some front) = front

unfoldable pub truncate_slug : Text → Text
unfolding before_last
truncate_slug slug =
    if ltb slug_max_bytes (length slug)
    then or_whole (take slug_max_bytes slug) (before_last (take slug_max_bytes slug))
    else slug

-- `while slug.ends_with('-') { slug.pop(); }`
unfoldable pub pop_hyphens : Text → Text
pop_hyphens [] = []
pop_hyphens (c ∷ cs) =
    let rest = pop_hyphens cs in if is_empty rest && c == b'-' then [] else c ∷ rest

-- The final `match`; the panic of `unreachable!` is named as a refusal.
abbrev pub checked_slug : Text → Result SlugProblem (Unit {0}) → Result SchemaError Text
checked_slug slug (ok valid) = ok slug
checked_slug slug (err empty) = err empty_slug
checked_slug slug (err too_long) = err unreachable_slug
checked_slug slug (err invalid_character) = err unreachable_slug

module _ (folded : Text → Text) where
  unfoldable pub slugify : Text → Result SchemaError Text
  unfolding slug_loop truncate_slug pop_hyphens validate_slug
  slugify title =
      let slug = pop_hyphens (truncate_slug (slug_loop false [] (folded title))) in
      checked_slug slug (validate_slug slug)
